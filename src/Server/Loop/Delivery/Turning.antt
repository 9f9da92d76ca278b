-- ===== src/Server/Loop/Delivery/Turning.antt =====
-- From the last byte of a header to the body, at the server of praxis2/src/server.c.
use rn.Prelude.{
  ℕ, suc, ◌+◌, ◌<◌, ◌^◌, ◌≡◌, ◌≢◌, refl, sym, ap, ◌∙◌, Option, none, some, List, [], ◌∷◌, ◌++◌,
  arith, ok, Allocator, length, take, drop,
}
use mathlib.Core.Path.{subst₂}
use rn.Packet.{packet_body_size}
use rn.Packet.Message.{Message, IsMessage, request, control, encode}
use rn.Packet.Decode.{header_of}
use rn.Packet.RoundTrip.{IsContent, packet_body_size-encode, header_of-take}
use rn.RingBuffer.{rb_new, rb_can_read, rb_can_write}
use rn.RingBuffer.Contents.{contents, length-contents}
use rn.RingBuffer.Positions.{IsValid, can_read-add-can_write, rb_new_lem}
use rn.Network.{Network, Stream}
use rn.Server.{Client, System, Callback, find_client, set_client}
use rn.Server.Loop.{serve_client}
use rn.Server.Loop.Framing.{Decoded}
use rn.Server.Loop.Delivery.{holding, after_step}
use rn.Server.Loop.Delivery.Phases.{written_over}
use rn.Server.Loop.Delivery.Progress.{OursHere, Goal, Between, body_phase}

pub length-head : (m : Message) → length (take 7 (encode m)) ≡ 7
length-head (request f k v) = refl
length-head (control f h i ip port) = refl

nothing_in : (xs : List ℕ) → length xs ≡ 0 → xs ≡ []
nothing_in [] h = refl
nothing_in (x ∷ xs) h = absurd (omega arith)

module _ (heap : Allocator) (net : Network) {G : Type 0} (packet_cb : Option (Callback net G))
    (s : System net G) (a : ℕ) (c0 : Client) (there : find_client s.server.clients a ≡ some c0)
    (socket : Option ℕ) (stream : Stream net socket)
    (no_error : (n : ℕ) (w : net.World) → (net.recv socket n w).0 ≢ none) (m : Message)
    (is_message : IsMessage m) (content : IsContent m) (rest : List ℕ)
    (some_body : 0 < length (drop 7 (encode m))) (small : length (drop 7 (encode m)) < 2 ^ 31) where
  open net use {World}
  open stream use {incoming}

  abbrev Reaches : System net G → ℕ → Type 0
  Reaches now bound =
      Goal heap net packet_cb s a c0 there socket stream no_error m is_message content rest now
        bound

  abbrev Here : Client → Type 0
  Here c =
      OursHere heap net packet_cb s a c0 there socket stream no_error m is_message content rest c

  -- The new buffer for the body.
  room_for_body :
      (d : Client)
      → Decoded heap (take 7 (encode m)) a socket d
      → Between heap net packet_cb s a c0 there socket stream no_error m is_message content rest d
          (rb_new heap (length (drop 7 (encode m))))
  room_for_body d dec = record {
    ours = (dec.address_kept, dec.socket_kept);
    state = dec.state;
    header_collects = dec.collects;
    header_empty = dec.emptied;
    body = record {
      buf = dec.pkt_buf ∙ ap (λ n. some (rb_new heap n)) declared;
      valid = fresh.0;
      pack = dec.pack ∙ ap some (header_of-take m);
    };
    size = omega (
      arith,
      can_read-add-can_write (rb_new heap (length (drop 7 (encode m)))) fresh.0,
      fresh.1,
      fresh.2,
    );
  }
    where
      declared : packet_body_size (header_of (take 7 (encode m))) ≡ length (drop 7 (encode m))
      declared =
          ap packet_body_size (header_of-take m)
          ∙ packet_body_size-encode m is_message (omega (arith, small))

      fresh :
          IsValid (rb_new heap (length (drop 7 (encode m))))
          × (rb_can_read (rb_new heap (length (drop 7 (encode m)))) ≡ 0)
          × (rb_can_write (rb_new heap (length (drop 7 (encode m)))) ≡ length (drop 7 (encode m)))
      fresh = rb_new_lem heap (length (drop 7 (encode m))) (omega (arith, small))

  -- The header is complete, and the body is still to come.
  pub header_ends :
      (n : ℕ) (c d : Client) (w w1 : World)
      → Here c
      → Decoded heap (take 7 (encode m)) c.address c.socket d
      → serve_client heap net packet_cb (holding s c w) a ≡ ok (set_client net (holding s c w1) d)
      → incoming w1 ≡ drop 7 (encode m) ++ rest
      → Reaches (holding s c w) (suc n + length (drop 7 (encode m)))
  header_ends n c d w w1 ours dec call left =
      after_step heap net packet_cb s a socket stream m rest (holding s c w) (holding s d w1)
        (length (drop 7 (encode m))) (suc n + length (drop 7 (encode m)))
        (call ∙ ap ok (written_over net s c d w1 (sym dec.address_kept)))
        (body_phase heap net packet_cb s a c0 there socket stream no_error m is_message content rest
          (length (drop 7 (encode m))) d (rb_new heap (length (drop 7 (encode m)))) w1
          (drop 7 (encode m)) between
          (ap (λ l. l ++ drop 7 (encode m))
            (nothing_in (contents (rb_new heap (length (drop 7 (encode m))))) empty_yet))
          some_body small (omega arith) left)
        (omega arith)
    where
      between :
          Between heap net packet_cb s a c0 there socket stream no_error m is_message content rest d
            (rb_new heap (length (drop 7 (encode m))))
      between =
          room_for_body d
            (subst₂ (λ x k. Decoded heap (take 7 (encode m)) x k d) (ours.0) (ours.1) dec)

      empty_yet : length (contents (rb_new heap (length (drop 7 (encode m))))) ≡ 0
      empty_yet =
          length-contents _ between.body.valid
          ∙ (rb_new_lem heap (length (drop 7 (encode m))) (omega (arith, small))).1
