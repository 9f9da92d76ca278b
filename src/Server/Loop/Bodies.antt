-- ===== src/Server/Loop/Bodies.antt =====
-- How the server of praxis2/src/server.c collects a body, and what it delivers to its callback.
use rn.Prelude.{
  ℕ, ◌+◌, ◌≤◌, ◌<◌, ◌≡◌, refl, sym, ap, ◌∙◌, true, false, Option, none, some, List, ◌++◌,
  append-nil, arith, Exec, ok, bind_ok_bind, ◌>>=◌, Allocator, length, take, take_all, drop_all,
  min, ◌==◌, if◌then◌else◌, Bool-cases, inl, inr,
}
use rn.Packet.{Packet, packet_decode_body}
use rn.RingBuffer.{RingBuffer, rb_can_read, rb_can_write, rb_write, rb_read}
use rn.RingBuffer.Positions.{IsValid, can_read-add-can_write}
use rn.RingBuffer.Contents.{contents, length-contents}
use rn.RingBuffer.Write.{Wrote, rb_write_lem}
use rn.RingBuffer.Read.{Took, rb_read_lem}
use rn.Network.{Network}
use rn.Server.{
  Client, idle, System, Callback, client_decode_body, set_client, server_deliver_packet,
}
use rn.Server.Loop.{body_fed, body_bytes}

-- A client that collects the body of the packet `p` in the buffer `rb`.
pub record CollectsBody (c : Client) (rb : RingBuffer) (p : Packet) : Type 0 where
  pub buf : c.pkt_buf ≡ some rb
  pub valid : IsValid rb
  pub pack : c.pack ≡ some p

module _ (heap : Allocator) where
  client_decode_body_lem :
      (c : Client) (rb : RingBuffer) (p : Packet)
      → CollectsBody c rb p
      → client_decode_body heap c ≡ (do
        pack ← packet_decode_body p (contents rb) (length (contents rb))
        ok (record c { pack = pack; state = idle; pkt_buf = none }))
  unfolding client_decode_body
  client_decode_body_lem c rb p v =
      finish (rb_read_lem rb (heap.malloc n) n v.valid (omega (arith, heap.length-malloc n)))
    where
      n : ℕ
      n = rb_can_read rb

      size : length (contents rb) ≡ n
      size = length-contents rb v.valid

      finish :
          (buffer : List ℕ) × (after : RingBuffer) × (rb_read rb (heap.malloc n) n
              ≡ ok (n, buffer, after))
            × Took rb (heap.malloc n) 0 (min n n) buffer after
          → client_decode_body heap c ≡ (do
            pack ← packet_decode_body p (contents rb) (length (contents rb))
            ok (record c { pack = pack; state = idle; pkt_buf = none }))
      finish (buffer, after, run, t) = rw (v.buf, run, v.pack, whole, size) refl
        where
          whole : buffer ≡ contents rb
          whole =
              t.copied
              ∙ rw
                  (
                    take_all (min n n) (contents rb) (omega (arith, size)),
                    drop_all (0 + min n n) (heap.malloc n) (omega (arith, heap.length-malloc n)),
                    append-nil,
                  )
                  refl

module _ (heap : Allocator) (net : Network) {G : Type 0} (packet_cb : Option (Callback net G)) where
  -- A body of which `total` has been received, in a buffer of `size` bytes, one more than the body has:
  -- the client collects on, or, with the last byte, all of the body is decoded and the packet that comes
  -- of it is delivered by the client, which is idle again.
  abbrev pub BodyFed : System net G → Client → Packet → List ℕ → ℕ → Exec (System net G) → Type 0
  BodyFed s c p total size r =
      (if length total + 1 == size
        then r ≡ (do
          pack ← packet_decode_body p total (length total)
          server_deliver_packet net packet_cb
              (set_client net s (record c { pack = pack; state = idle; pkt_buf = none })) c.address)
        else (after : RingBuffer) × (r ≡ ok (set_client net s (record c { pkt_buf = some after })))
          × CollectsBody (record c { pkt_buf = some after }) after p
          × (after.bufsize ≡ size)
          × (contents after ≡ total))

  -- Body bytes that come from recv, at most as many as were asked for, are added to those that came
  -- before. Until the last has come the client goes on collecting, with nothing else of it changed;
  -- then the body is decoded from all of them, in whatever pieces they came, and the packet is
  -- delivered.
  pub body_bytes_lem :
      (s : System net G) (c : Client) (rb : RingBuffer) (p : Packet) (bytes : List ℕ)
      → CollectsBody c rb p
      → 0 < length bytes
      → length bytes ≤ rb_can_write rb
      → BodyFed s c p
          (contents rb ++ bytes)
          rb.bufsize
          (body_bytes heap net packet_cb s c (some bytes))
  unfolding body_bytes body_fed
  body_bytes_lem s c rb p bytes v some_in fits =
      written (rb_write_lem rb bytes (length bytes) v.valid (omega arith))
    where
      total : List ℕ
      total = contents rb ++ bytes

      not_closed : (length bytes == 0) ≡ false
      not_closed = ground arith

      written :
          (after : RingBuffer) × (rb_write rb bytes (length bytes) ≡ ok (rb_can_write rb, after))
            × Wrote rb (take (min (rb_can_write rb) (length bytes)) bytes) after
          → BodyFed s c p total rb.bufsize (body_bytes heap net packet_cb s c (some bytes))
      written (after, run, w) = elim (Bool-cases (length total + 1 == rb.bufsize)) [
        | inl full ↦
            let no_room : (rb_can_write after == 0) ≡ true = ground (arith, room) in
            rw
              (
                full,
                not_closed,
                v.buf,
                run,
                no_room,
                client_decode_body_lem heap (record c { pkt_buf = some after }) after p fed,
                appended,
              )
              (bind_ok_bind (packet_decode_body p total (length total)) _ _)
        | inr more ↦
            let some_room : (rb_can_write after == 0) ≡ false = ground (arith, room) in
            rw (more, not_closed, v.buf, run, some_room) (after, refl, fed, w.same_size, appended)
      ]
        where
          fed : CollectsBody (record c { pkt_buf = some after }) after p
          fed = record { buf = refl; valid = w.valid; pack = v.pack }

          appended : contents after ≡ total
          appended =
              w.appended
              ∙ ap (λ t. contents rb ++ t)
                  (take_all (min (rb_can_write rb) (length bytes)) bytes (omega (arith, fits)))

          room : length total + rb_can_write after + 1 ≡ rb.bufsize
          room = omega (
            arith,
            sym (length-contents after w.valid) ∙ ap (λ (l : List ℕ). length l) appended,
            can_read-add-can_write after w.valid,
            w.same_size,
          )
