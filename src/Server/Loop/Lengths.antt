-- ===== src/Server/Loop/Lengths.antt =====
-- Bodies whose declared length the server of praxis2/src/server.c cannot serve: none at all, and
-- more than 32 bits count.
use rn.Prelude.{
  ℕ, ◌+◌, ◌%◌, ◌^◌, ◌≤◌, ◌<◌, ◌≡◌, refl, sym, ap, ◌∙◌, true, Option, some, none, List, [], ◌∷◌,
  ◌++◌, arith, ok, fault, Allocator, length, length-append, ◌==◌, All, IsByte, inl, inr, ◌⊎◌,
}
use rn.Packet.{Packet, packet_body_size}
use rn.Packet.Decode.{header_of}
use rn.Packet.Overflow.{Overflows, length-Overflows, declared, body_size-declared, decode_overflow}
use rn.RingBuffer.{RingBuffer, rb_new, rb_can_write}
use rn.RingBuffer.Positions.{rb_new_lem, can_read-add-can_write}
use rn.RingBuffer.Contents.{contents, length-contents}
use rn.Network.{Network, Stream}
use rn.Server.{Client, System, Callback, as_int, server_remove_client, set_client}
use rn.Server.Loop.{header_bytes, body_bytes, receive_body}
use rn.Server.Loop.Framing.{Collects, Decoded, header_bytes_lem}
use rn.Server.Loop.Bodies.{CollectsBody, body_bytes_lem}

module _ (heap : Allocator) (net : Network) {G : Type 0} (packet_cb : Option (Callback net G)) where
  overflowing_header :
      (s : System net G) (c : Client) (bytes : List ℕ)
      → Collects c
      → 0 < length bytes
      → length bytes ≤ rb_can_write c.header_buf
      → All IsByte (contents c.header_buf ++ bytes)
      → Overflows (contents c.header_buf ++ bytes)
      → (d : Client) × (header_bytes heap net packet_cb s c (some bytes) ≡ ok (set_client net s d))
        × (d.pkt_buf ≡ some (rb_new heap (declared (contents c.header_buf ++ bytes) % 2 ^ 32)))
  overflowing_header s c bytes v some_in fits are_bytes over =
      let (d, run, fed) = header_bytes_lem heap net packet_cb s c bytes v some_in fits are_bytes in
      let decoded : Decoded heap (contents c.header_buf ++ bytes) c.address c.socket d =
        rw seven at fed in
      (
        d,
        run,
        decoded.pkt_buf
            ∙ ap (λ n. some (rb_new heap n))
                (body_size-declared (contents c.header_buf ++ bytes) over),
      )
    where
      seven : (length (contents c.header_buf ++ bytes) == 7) ≡ true
      seven = rw (length-Overflows (contents c.header_buf ++ bytes) over) refl

  overflowing_body :
      (s : System net G) (c : Client) (rb : RingBuffer) (head bytes : List ℕ)
      → Overflows head
      → All IsByte (contents rb ++ bytes)
      → CollectsBody c rb (header_of head)
      → rb.bufsize ≡ packet_body_size (header_of head) + 1
      → length (contents rb ++ bytes) ≡ packet_body_size (header_of head)
      → 0 < length bytes
      → body_bytes heap net packet_cb s c (some bytes) ≡ fault
  overflowing_body s c rb head bytes over are_bytes v size whole some_in =
      rw full at (body_bytes_lem heap net packet_cb s c rb (header_of head) bytes v some_in fits)
      ∙ rw (decode_overflow head (contents rb ++ bytes) over are_bytes whole)
    where
      fits : length bytes ≤ rb_can_write rb
      fits = omega (
        arith,
        length-append (contents rb) bytes,
        can_read-add-can_write rb v.valid,
        length-contents rb v.valid,
      )

      full : (length (contents rb ++ bytes) + 1 == rb.bufsize) ≡ true
      full = ground arith

  -- The last bytes of a header come in that declares a request with lengths of together 2 ^ 32 or more.
  -- Then the client gets a buffer with room for just their sum modulo 2 ^ 32. And when, in whatever state
  -- of the server, a client has collected the body for this header in a buffer of this size but for some
  -- bytes, one at least, and just these come in, then decoding reads outside of the collected body. For
  -- a sum of just 2 ^ 32 no such bytes are left to come.
  pub body_overflow_lem :
      (s : System net G) (c : Client) (bytes : List ℕ) (t : System net G) (d : Client)
      (rb : RingBuffer) (last : List ℕ)
      → Collects c
      → 0 < length bytes
      → length bytes ≤ rb_can_write c.header_buf
      → All IsByte (contents c.header_buf ++ bytes)
      → Overflows (contents c.header_buf ++ bytes)
      → CollectsBody d rb (header_of (contents c.header_buf ++ bytes))
      → rb.bufsize ≡ declared (contents c.header_buf ++ bytes) % 2 ^ 32 + 1
      → All IsByte (contents rb ++ last)
      → length (contents rb ++ last) ≡ declared (contents c.header_buf ++ bytes) % 2 ^ 32
      → 0 < length last
      → ((e : Client) × (header_bytes heap net packet_cb s c (some bytes) ≡ ok (set_client net s e))
          × (e.pkt_buf ≡ some (rb_new heap (declared (contents c.header_buf ++ bytes) % 2 ^ 32))))
        × (body_bytes heap net packet_cb t d (some last) ≡ fault)
  body_overflow_lem s c bytes t d rb last v some_in fits are_bytes over collects size are_bytes'
        whole some_last =
      (
        overflowing_header s c bytes v some_in fits are_bytes over,
        overflowing_body t d rb (contents c.header_buf ++ bytes) last over are_bytes' collects
            (size ∙ ap (λ n. n + 1) (sym same)) (whole ∙ sym same) some_last,
      )
    where
      same :
          packet_body_size (header_of (contents c.header_buf ++ bytes))
          ≡ declared (contents c.header_buf ++ bytes) % 2 ^ 32
      same = body_size-declared (contents c.header_buf ++ bytes) over

  -- A client whose header declares an empty body gets a buffer with room for none. When there is
  -- something to receive, recv is asked for no byte, and whatever it answers, the callback is not
  -- called: the client stays as it is, or is removed as one that has closed the connection.
  pub empty_body_lem :
      (s : System net G) (c : Client) (p : Packet)
      → Stream net c.socket
      → packet_body_size p ≡ 0
      → c.pkt_buf ≡ some (rb_new heap (packet_body_size p))
      → (receive_body heap net packet_cb s c
          ≡ ok (record s { world = (net.recv c.socket 0 s.world).1 }))
        ⊎ (receive_body heap net packet_cb s c
            ≡ ok (
                server_remove_client net
                  (record s { world = (net.recv c.socket 0 s.world).1 })
                  (some c.address)))
  unfolding receive_body body_bytes as_int
  empty_body_lem s c p stream none_declared buf = answers (net.recv c.socket 0 s.world).0 refl
    where
      no_room : rb_can_write (rb_new heap (packet_body_size p)) ≡ 0
      no_room = (rb_new_lem heap (packet_body_size p) (omega arith)).2 ∙ none_declared

      after : System net G
      after = record s { world = (net.recv c.socket 0 s.world).1 }

      asks :
          (answer : Option (List ℕ))
          → (net.recv c.socket 0 s.world).0 ≡ answer
          → receive_body heap net packet_cb s c ≡ body_bytes heap net packet_cb after c answer
      asks answer e = rw (buf, no_room, e) refl

      answers :
          (answer : Option (List ℕ))
          → (net.recv c.socket 0 s.world).0 ≡ answer
          → (receive_body heap net packet_cb s c ≡ ok after)
            ⊎ (receive_body heap net packet_cb s c
                ≡ ok (server_remove_client net after (some c.address)))
      answers none e = inl (asks none e)
      answers (some []) e = inr (asks (some []) e)
      answers (some (b ∷ bytes)) e =
          absurd (omega (arith, (stream.incoming-recv s.world 0 (b ∷ bytes) e).0))
