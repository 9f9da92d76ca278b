-- ===== src/Server/Loop/Delivery/Progress.antt =====
-- Every call by the server of praxis2/src/server.c brings a packet that is coming in nearer to its end.
use rn.Prelude.{
  ℕ, zero, suc, ◌+◌, ◌≤◌, ◌<◌, ◌^◌, ◌≡◌, ◌≢◌, refl, sym, ap, ◌∙◌, Option, none, some, List, [], ◌∷◌,
  ◌++◌, arith, ok, Allocator, length, length-append, drop, ◌==◌, false, append_assoc, append-nil,
}
use rn.Packet.Message.{Message, IsMessage, encode, packet_of}
use rn.Packet.Decode.{header_of}
use rn.Packet.RoundTrip.{IsContent}
use rn.RingBuffer.{RingBuffer, rb_can_write}
use rn.RingBuffer.Contents.{contents, length-contents}
use rn.RingBuffer.Positions.{can_read-add-can_write}
use rn.Network.{Network, Stream}
use rn.Server.{
  Client, idle, hdr_recvd, System, Callback, find_client, set_client, server_deliver_packet,
}
use rn.Server.Loop.{serve_client, body_bytes}
use rn.Server.Loop.Bodies.{CollectsBody, body_bytes_lem}
use rn.Server.Loop.Messages.{message_arrives}
use rn.Server.Loop.Framing.{Collects}
use rn.Server.Loop.Delivery.{serve_times, holding, Delivers, after_step, split_front, some_come}
use rn.Server.Loop.Delivery.Phases.{Ours, serve_body, written_over}

module _ (heap : Allocator) (net : Network) {G : Type 0} (packet_cb : Option (Callback net G))
    (s : System net G) (a : ℕ) (c0 : Client) (there : find_client s.server.clients a ≡ some c0)
    (socket : Option ℕ) (stream : Stream net socket)
    (no_error : (n : ℕ) (w : net.World) → (net.recv socket n w).0 ≢ none) (m : Message)
    (is_message : IsMessage m) (content : IsContent m) (rest : List ℕ) where
  open net use {World}
  open stream use {incoming}

  abbrev pub Goal : System net G → ℕ → Type 0
  Goal now bound = Delivers heap net packet_cb s a socket stream m rest now bound

  abbrev pub OursHere : Client → Type 0
  OursHere = Ours heap net packet_cb s a c0 there socket

  -- Between header and body.
  pub record Between (c : Client) (rb : RingBuffer) : Type 0 where
    pub ours : OursHere c
    pub state : c.state ≡ hdr_recvd
    pub header_collects : Collects c
    pub header_empty : contents c.header_buf ≡ []
    pub body : CollectsBody c rb (header_of (encode m))
    pub size : rb.bufsize ≡ length (drop 7 (encode m)) + 1

  -- The last bytes of the body have come.
  body_ends :
      (n : ℕ) (c : Client) (rb : RingBuffer) (w w1 : World) (bytes : List ℕ)
      → Between c rb
      → contents rb ++ bytes ≡ drop 7 (encode m)
      → 0 < length bytes
      → serve_client heap net packet_cb (holding s c w) a
        ≡ body_bytes heap net packet_cb (holding s c w1) c (some bytes)
      → incoming w1 ≡ rest
      → Goal (holding s c w) (suc n)
  unfolding serve_times
  body_ends n c rb w w1 bytes b whole some_in call left = record {
    calls = 0;
    within = omega arith;
    before = holding s c w;
    served = refl;
    client = packed;
    world = w1;
    last = call ∙ delivers;
    address = b.ours.0;
    its_socket = b.ours.1;
    waits = record {
      state = refl;
      collects = record { valid = b.header_collects.valid; size = b.header_collects.size };
      nothing_yet = b.header_empty;
    };
    no_buffer = refl;
    pack = refl;
    remaining = left;
  }
    where
      packed : Client
      packed = record c { pack = some (packet_of m); state = idle; pkt_buf = none }

      delivers :
          body_bytes heap net packet_cb (holding s c w1) c (some bytes)
          ≡ server_deliver_packet net packet_cb (holding s packed w1) a
      delivers =
          message_arrives heap net packet_cb (holding s c w1) c rb m bytes is_message content b.body
            b.size whole some_in
          ∙ ap (λ t. server_deliver_packet net packet_cb t c.address)
              (written_over net s c packed w1 refl)
          ∙ ap (λ x. server_deliver_packet net packet_cb (holding s packed w1) x) (b.ours.0)

  -- What `n` further calls make of a body of which `front` is missing.
  abbrev pub BodyPhase : ℕ → Type 0
  BodyPhase n =
      (c : Client) (rb : RingBuffer) (w : World) (front : List ℕ)
      → Between c rb
      → contents rb ++ front ≡ drop 7 (encode m)
      → 0 < length front
      → length front < 2 ^ 31
      → length front ≤ n
      → incoming w ≡ front ++ rest
      → Goal (holding s c w) n

  -- Some bytes of the body have come, and some are missing.
  body_goes_on :
      (n : ℕ) (c : Client) (rb : RingBuffer) (w w1 : World) (bytes more : List ℕ)
      → BodyPhase n
      → Between c rb
      → contents rb ++ (bytes ++ more) ≡ drop 7 (encode m)
      → 0 < length bytes
      → length bytes ≤ rb_can_write rb
      → 0 < length more
      → length (bytes ++ more) < 2 ^ 31
      → length (bytes ++ more) ≤ suc n
      → serve_client heap net packet_cb (holding s c w) a
        ≡ body_bytes heap net packet_cb (holding s c w1) c (some bytes)
      → incoming w1 ≡ more ++ rest
      → Goal (holding s c w) (suc n)
  body_goes_on n c rb w w1 bytes more ih b whole some_in few some_left small fuel call left = fed (
      rw short at (
        body_bytes_lem heap net packet_cb (holding s c w1) c rb (header_of (encode m)) bytes b.body
          some_in few))
    where
      short : (length (contents rb ++ bytes) + 1 == rb.bufsize) ≡ false
      short = ground (
        arith,
        b.size,
        ap (λ (l : List ℕ). length l) whole,
        length-append (contents rb) (bytes ++ more),
        length-append bytes more,
        length-append (contents rb) bytes,
      )

      fed :
          (after : RingBuffer) × (body_bytes heap net packet_cb (holding s c w1) c (some bytes)
              ≡ ok (set_client net (holding s c w1) (record c { pkt_buf = some after })))
            × CollectsBody (record c { pkt_buf = some after }) after (header_of (encode m))
            × (after.bufsize ≡ rb.bufsize)
            × (contents after ≡ contents rb ++ bytes)
          → Goal (holding s c w) (suc n)
      fed (after, run, collects, size, total) =
          after_step heap net packet_cb s a socket stream m rest (holding s c w) (holding s d w1) n
            (suc n) (call ∙ run ∙ ap ok (written_over net s c d w1 refl))
            (ih d after w1 more
              (record {
                ours = b.ours;
                state = b.state;
                header_collects = record {
                  valid = b.header_collects.valid;
                  size = b.header_collects.size;
                };
                header_empty = b.header_empty;
                body = collects;
                size = size ∙ b.size;
              })
              (ap (λ l. l ++ more) total ∙ append_assoc (contents rb) bytes more ∙ whole) some_left
              (omega (arith, length-append bytes more)) (omega (arith, length-append bytes more))
              left)
            (omega arith)
        where
          d : Client
          d = record c { pkt_buf = some after }

  pub body_phase : (n : ℕ) → BodyPhase n
  body_phase zero c rb w front b whole some_left small fuel to_come = absurd (omega arith)
  body_phase (suc n) c rb w front b whole some_left small fuel to_come = answered (body_phase n) (
      some_come net socket stream no_error (rb_can_write rb) w (omega (arith, room))
        (omega (arith, coming)))
    where
      room : rb_can_write rb ≡ length front
      room = omega (
        arith,
        can_read-add-can_write rb b.body.valid,
        length-contents rb b.body.valid,
        b.size,
        ap (λ (l : List ℕ). length l) whole,
        length-append (contents rb) front,
      )

      coming : length (incoming w) ≡ length front + length rest
      coming = omega (arith, ap (λ (l : List ℕ). length l) to_come, length-append front rest)

      w1 : World
      w1 = (net.recv socket (rb_can_write rb) w).1

      go_on :
          (bytes more : List ℕ)
          → BodyPhase n
          → (net.recv socket (rb_can_write rb) w).0 ≡ some bytes
          → 0 < length bytes
          → length bytes ≤ rb_can_write rb
          → front ≡ bytes ++ more
          → incoming w1 ≡ more ++ rest
          → Goal (holding s c w) (suc n)
      go_on bytes [] ih answer some_in few same behind =
          body_ends n c rb w w1 bytes b
            (ap (λ l. contents rb ++ l) (sym (same ∙ append-nil bytes)) ∙ whole) some_in
            (serve_body heap net packet_cb s a c0 there socket c rb w bytes b.ours b.state
              b.body.buf (omega (arith, room)) answer)
            behind
      go_on bytes (x ∷ more) ih answer some_in few same behind =
          body_goes_on n c rb w w1 bytes (x ∷ more) ih b
            (ap (λ l. contents rb ++ l) (sym same) ∙ whole) some_in few (omega arith)
            (omega (arith, ap (λ (l : List ℕ). length l) same))
            (omega (arith, ap (λ (l : List ℕ). length l) same))
            (serve_body heap net packet_cb s a c0 there socket c rb w bytes b.ours b.state
              b.body.buf (omega (arith, room)) answer)
            behind

      answered :
          BodyPhase n
          → (bytes : List ℕ) × ((net.recv socket (rb_can_write rb) w).0 ≡ some bytes)
            × (0 < length bytes)
            × (length bytes ≤ rb_can_write rb)
            × (incoming w ≡ bytes ++ incoming (net.recv socket (rb_can_write rb) w).1)
          → Goal (holding s c w) (suc n)
      answered ih (bytes, answer, some_in, few, parts) =
          let (more, same, behind) =
            split_front bytes (incoming w1) front rest (sym parts ∙ to_come)
              (omega (arith, room)) in
          go_on bytes more ih answer some_in few same behind
