-- ===== src/Server/Loop/Delivery/Arrival.antt =====
-- A whole packet comes in at the server of praxis2/src/server.c.
use rn.Prelude.{
  ℕ, zero, suc, ◌+◌, ◌≤◌, ◌<◌, ◌^◌, ◌≡◌, ◌≢◌, refl, sym, ap, ◌∙◌, Option, none, some, List, [], ◌∷◌,
  ◌++◌, arith, ok, Allocator, length, length-append, take, drop, All, All-prefix, IsByte, ◌==◌,
  true, false, append_assoc, append-nil, take-append-drop,
}
use mathlib.Core.Path.{subst, subst₂}
use rn.Packet.Message.{Message, IsMessage, encode}
use rn.Packet.RoundTrip.{IsContent, encode-IsByte}
use rn.RingBuffer.{rb_can_write}
use rn.RingBuffer.Contents.{contents, length-contents}
use rn.RingBuffer.Positions.{can_read-add-can_write}
use rn.Network.{Network, Stream}
use rn.Server.{Client, idle, System, Callback, find_client, set_client}
use rn.Server.Writing.{find_client-address, write_client-found}
use rn.Server.Loop.{serve_client, header_bytes}
use rn.Server.Loop.Framing.{Collects, Fed, header_bytes_lem}
use rn.Server.Loop.Delivery.{holding, Waits, Delivers, after_step, split_front, some_come}
use rn.Server.Loop.Delivery.Phases.{serve_header, written_over}
use rn.Server.Loop.Delivery.Progress.{OursHere, Goal}
use rn.Server.Loop.Delivery.Turning.{length-head, header_ends}

module _ (heap : Allocator) (net : Network) {G : Type 0} (packet_cb : Option (Callback net G))
    (s : System net G) (a : ℕ) (c0 : Client) (there : find_client s.server.clients a ≡ some c0)
    (socket : Option ℕ) (stream : Stream net socket)
    (no_error : (n : ℕ) (w : net.World) → (net.recv socket n w).0 ≢ none) (m : Message)
    (is_message : IsMessage m) (content : IsContent m) (rest : List ℕ)
    (some_body : 0 < length (drop 7 (encode m))) (small : length (drop 7 (encode m)) < 2 ^ 31) where
  open net use {World}
  open stream use {incoming}

  abbrev Reaches : System net G → ℕ → Type 0
  Reaches now bound =
      Goal heap net packet_cb s a c0 there socket stream no_error m is_message content rest now
        bound

  abbrev Here : Client → Type 0
  Here c =
      OursHere heap net packet_cb s a c0 there socket stream no_error m is_message content rest c

  -- What further calls make of a header of which `front` is missing.
  abbrev HeaderPhase : ℕ → Type 0
  HeaderPhase n =
      (c : Client) (w : World) (front : List ℕ)
      → Here c
      → c.state ≡ idle
      → Collects c
      → contents c.header_buf ++ front ≡ take 7 (encode m)
      → 0 < length front
      → length front ≤ n
      → incoming w ≡ front ++ (drop 7 (encode m) ++ rest)
      → Reaches (holding s c w) (n + length (drop 7 (encode m)))

  -- Some bytes of the header have come, and some are missing.
  header_goes_on :
      (n : ℕ) (c d : Client) (w w1 : World) (total more : List ℕ)
      → HeaderPhase n
      → Here c
      → c.state ≡ idle
      → d ≡ record c { header_buf = d.header_buf }
      → Collects d
      → contents d.header_buf ≡ total
      → total ++ more ≡ take 7 (encode m)
      → 0 < length more
      → length more ≤ n
      → serve_client heap net packet_cb (holding s c w) a ≡ ok (set_client net (holding s c w1) d)
      → incoming w1 ≡ more ++ (drop 7 (encode m) ++ rest)
      → Reaches (holding s c w) (suc n + length (drop 7 (encode m)))
  header_goes_on n c d w w1 total more ih ours state same collects got whole some_left fuel call
        left =
      after_step heap net packet_cb s a socket stream m rest (holding s c w) (holding s d w1)
        (n + length (drop 7 (encode m))) (suc n + length (drop 7 (encode m)))
        (call ∙ ap ok (written_over net s c d w1 (sym (ap (λ (x : Client). x.address) same))))
        (ih d w1 more
          (
            ap (λ (x : Client). x.address) same ∙ ours.0,
            ap (λ (x : Client). x.socket) same ∙ ours.1,
          )
          (ap (λ (x : Client). x.state) same ∙ state) collects (ap (λ l. l ++ more) got ∙ whole)
          some_left fuel left)
        (omega arith)

  header_phase : (n : ℕ) → HeaderPhase n
  header_phase zero c w front ours state collects whole some_left fuel to_come =
      absurd (omega arith)
  header_phase (suc n) c w front ours state collects whole some_left fuel to_come =
      answered (header_phase n) (
        some_come net socket stream no_error (rb_can_write c.header_buf) w (omega (arith, room))
          (omega (arith, coming)))
    where
      head_bytes : All IsByte (take 7 (encode m))
      head_bytes = All-prefix IsByte (take 7 (encode m)) (drop 7 (encode m)) (
          subst (All IsByte) (sym (take-append-drop 7 (encode m)))
            (encode-IsByte m is_message content))

      seven : length (contents c.header_buf) + length front ≡ 7
      seven = omega (
        arith,
        length-append (contents c.header_buf) front,
        ap (λ (l : List ℕ). length l) whole,
        length-head m,
      )

      room : rb_can_write c.header_buf ≡ length front
      room = omega (
        arith,
        can_read-add-can_write c.header_buf collects.valid,
        length-contents c.header_buf collects.valid,
        collects.size,
        seven,
      )

      coming : length (incoming w) ≡ length front + length (drop 7 (encode m) ++ rest)
      coming = omega (
        arith,
        ap (λ (l : List ℕ). length l) to_come,
        length-append front (drop 7 (encode m) ++ rest),
      )

      w1 : World
      w1 = (net.recv socket (rb_can_write c.header_buf) w).1

      call :
          (bytes : List ℕ)
          → (net.recv socket (rb_can_write c.header_buf) w).0 ≡ some bytes
          → serve_client heap net packet_cb (holding s c w) a
            ≡ header_bytes heap net packet_cb (holding s c w1) c (some bytes)
      call bytes answer =
          serve_header heap net packet_cb s a c0 there socket c w bytes ours state
            (omega (arith, room, seven)) answer

      go_on :
          (bytes more : List ℕ)
          → HeaderPhase n
          → (net.recv socket (rb_can_write c.header_buf) w).0 ≡ some bytes
          → 0 < length bytes
          → front ≡ bytes ++ more
          → incoming w1 ≡ more ++ (drop 7 (encode m) ++ rest)
          → (d : Client) × (header_bytes heap net packet_cb (holding s c w1) c (some bytes)
              ≡ ok (set_client net (holding s c w1) d))
            × Fed heap net {G = G} packet_cb (contents c.header_buf ++ bytes) c d
          → Reaches (holding s c w) (suc n + length (drop 7 (encode m)))
      go_on bytes [] ih answer some_in same behind (d, run, fed) =
          let all_in : contents c.header_buf ++ bytes ≡ take 7 (encode m) =
            ap (λ l. contents c.header_buf ++ l) (sym (same ∙ append-nil bytes)) ∙ whole in
          let complete : (length (take 7 (encode m)) == 7) ≡ true = ground (arith, length-head m) in
          header_ends heap net packet_cb s a c0 there socket stream no_error m is_message content
            rest some_body small n c d w w1 ours
            (rw complete at (subst (λ t. Fed heap net {G = G} packet_cb t c d) all_in fed))
            (call bytes answer ∙ run) behind
      go_on bytes (x ∷ more) ih answer some_in same behind (d, run, fed) =
          let cut : (length (contents c.header_buf ++ bytes) == 7) ≡ false = ground (
            arith,
            seven,
            length-append (contents c.header_buf) bytes,
            ap (λ (l : List ℕ). length l) same,
            length-append bytes (x ∷ more),
          ) in
          let (kept, still_collects, got) = rw cut at fed in
          header_goes_on n c d w w1 (contents c.header_buf ++ bytes) (x ∷ more) ih ours state kept
            still_collects got
            (append_assoc (contents c.header_buf) bytes (x ∷ more)
              ∙ ap (λ l. contents c.header_buf ++ l) (sym same)
              ∙ whole)
            (omega arith)
            (omega (arith, ap (λ (l : List ℕ). length l) same, length-append bytes (x ∷ more)))
            (call bytes answer ∙ run) behind

      answered :
          HeaderPhase n
          → (bytes : List ℕ) × ((net.recv socket (rb_can_write c.header_buf) w).0 ≡ some bytes)
            × (0 < length bytes)
            × (length bytes ≤ rb_can_write c.header_buf)
            × (incoming w ≡ bytes ++ incoming (net.recv socket (rb_can_write c.header_buf) w).1)
          → Reaches (holding s c w) (suc n + length (drop 7 (encode m)))
      answered ih (bytes, answer, some_in, few, parts) =
          let (more, same, behind) =
            split_front bytes (incoming w1) front (drop 7 (encode m) ++ rest) (sym parts ∙ to_come)
              (omega (arith, room)) in
          go_on bytes more ih answer some_in same behind (
            header_bytes_lem heap net packet_cb (holding s c w1) c bytes collects some_in few (
              All-prefix IsByte (contents c.header_buf ++ bytes) more (
                subst (All IsByte)
                  (sym (
                    append_assoc (contents c.header_buf) bytes more
                    ∙ ap (λ l. contents c.header_buf ++ l) (sym same)
                    ∙ whole))
                  head_bytes)))

-- A packet with a body comes in through a stream on which recv makes no error, in whatever pieces it is
-- delivered, behind it any bytes. The client at `a` waits for a packet. Then at most as many calls
-- as the packet has bytes lead to the delivery of the struct of just this packet, without a fault.
-- The client waits for the next packet again, the bytes behind are still to be received, and
-- nothing else of the server has changed.
pub delivery_lem :
    (heap : Allocator) (net : Network) {G : Type 0} (packet_cb : Option (Callback net G))
    (s : System net G) (a : ℕ) (c : Client) (m : Message) (rest : List ℕ)
    (stream : Stream net c.socket)
    → ((n : ℕ) (w : net.World) → (net.recv c.socket n w).0 ≢ none)
    → find_client s.server.clients a ≡ some c
    → Waits c
    → IsMessage m
    → IsContent m
    → 0 < length (drop 7 (encode m))
    → length (drop 7 (encode m)) < 2 ^ 31
    → stream.incoming s.world ≡ encode m ++ rest
    → Delivers heap net packet_cb s a c.socket stream m rest s (length (encode m))
delivery_lem heap net packet_cb s a c m rest stream no_error there v is_message content some_body
      small to_come =
    subst₂ (λ now bound. Delivers heap net packet_cb s a c.socket stream m rest now bound) held
      all_bytes
      (header_phase heap net packet_cb s a c there c.socket stream no_error m is_message content
        rest some_body small 7 c s.world (take 7 (encode m)) (address, refl) v.state v.collects
        (ap (λ l. l ++ take 7 (encode m)) v.nothing_yet) (omega (arith, length-head m))
        (omega (arith, length-head m))
        (to_come
          ∙ ap (λ l. l ++ rest) (sym (take-append-drop 7 (encode m)))
          ∙ append_assoc (take 7 (encode m)) (drop 7 (encode m)) rest))
  where
    address : c.address ≡ a
    address = find_client-address s.server.clients a c there

    held : holding s c s.world ≡ s
    held =
        ap (λ cs. record s { server = record (s.server) { clients = cs } })
          (write_client-found s.server.clients c
            (subst (λ x. find_client s.server.clients x ≡ some c) (sym address) there))

    all_bytes : 7 + length (drop 7 (encode m)) ≡ length (encode m)
    all_bytes = omega (
      arith,
      length-head m,
      length-append (take 7 (encode m)) (drop 7 (encode m)),
      ap (λ (l : List ℕ). length l) (take-append-drop 7 (encode m)),
    )
