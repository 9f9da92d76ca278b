-- ===== src/Server/Loop/Framing.antt =====
-- How the server of praxis2/src/server.c cuts the stream of a client into header and body: bytes
-- may come in pieces of any size, and the pieces make no difference.
use rn.Prelude.{
  ℕ, ◌≤◌, ◌<◌, ◌≡◌, refl, sym, ap, ◌∙◌, false, Option, some, List, [], ◌∷◌, ◌++◌, append-nil, arith,
  ok, Allocator, length, take, take_all, drop_all, min, ◌==◌, if◌then◌else◌, Bool-cases, inl, inr,
  All, IsByte,
}
use mathlib.Core.Path.{subst}
use rn.Packet.{packet_decode_hdr, packet_body_size}
use rn.Packet.Decode.{header_of, packet_decode_hdr_lem}
use rn.RingBuffer.{RingBuffer, rb_new, rb_can_read, rb_can_write, rb_write, rb_read}
use rn.RingBuffer.Positions.{IsValid}
use rn.RingBuffer.Contents.{contents, length-contents}
use rn.RingBuffer.Write.{Wrote, rb_write_lem}
use rn.RingBuffer.Read.{Took, rb_read_lem}
use rn.Network.{Network}
use rn.Server.{Client, hdr_recvd, System, Callback, client_decode_hdr, set_client}
use rn.Server.Loop.{header_bytes}

decode_hdr_seven :
    (total : List ℕ)
    → length total ≡ 7
    → All IsByte total
    → packet_decode_hdr total 7 ≡ ok (some (header_of total))
decode_hdr_seven [] h v = absurd (omega arith)
decode_hdr_seven (f ∷ []) h v = absurd (omega arith)
decode_hdr_seven (f ∷ a ∷ []) h v = absurd (omega arith)
decode_hdr_seven (f ∷ a ∷ b ∷ []) h v = absurd (omega arith)
decode_hdr_seven (f ∷ a ∷ b ∷ c ∷ []) h v = absurd (omega arith)
decode_hdr_seven (f ∷ a ∷ b ∷ c ∷ d ∷ []) h v = absurd (omega arith)
decode_hdr_seven (f ∷ a ∷ b ∷ c ∷ d ∷ e ∷ []) h v = absurd (omega arith)
decode_hdr_seven (f ∷ a ∷ b ∷ c ∷ d ∷ e ∷ g ∷ x ∷ more) h v = absurd (omega arith)
decode_hdr_seven (f ∷ a ∷ b ∷ c ∷ d ∷ e ∷ g ∷ []) h v =
    packet_decode_hdr_lem f a b c d e g [] 7 v (omega arith)

-- A client whose header is being collected.
pub record Collects (c : Client) : Type 0 where
  pub valid : IsValid c.header_buf
  pub size : c.header_buf.bufsize ≡ 8

-- A client whose seven header bytes `total` have been decoded: the header buffer is empty and fit
-- for the next packet, and the packet buffer is a new one for just the body.
pub record Decoded (heap : Allocator) (total : List ℕ) (address : ℕ) (socket : Option ℕ)
    (d : Client) : Type 0 where
  pub address_kept : d.address ≡ address
  pub socket_kept : d.socket ≡ socket
  pub state : d.state ≡ hdr_recvd
  pub collects : Collects d
  pub emptied : contents d.header_buf ≡ []
  pub pack : d.pack ≡ some (header_of total)
  pub pkt_buf : d.pkt_buf ≡ some (rb_new heap (packet_body_size (header_of total)))

module _ (heap : Allocator) where
  client_decode_hdr-Decoded :
      (c : Client)
      → Collects c
      → length (contents c.header_buf) ≡ 7
      → All IsByte (contents c.header_buf)
      → (d : Client) × (client_decode_hdr heap c ≡ ok d)
        × Decoded heap (contents c.header_buf) c.address c.socket d
  unfolding client_decode_hdr
  client_decode_hdr-Decoded c v full bytes =
      finish
        (rb_read_lem c.header_buf (heap.malloc 7) 7 v.valid (omega (arith, heap.length-malloc 7)))
    where
      total : List ℕ
      total = contents c.header_buf

      seven : rb_can_read c.header_buf ≡ 7
      seven = sym (length-contents c.header_buf v.valid) ∙ full

      finish :
          (hdr : List ℕ) × (after : RingBuffer) × (rb_read c.header_buf (heap.malloc 7) 7
              ≡ ok (rb_can_read c.header_buf, hdr, after))
            × Took c.header_buf (heap.malloc 7) 0 (min (rb_can_read c.header_buf) 7) hdr after
          → (d : Client) × (client_decode_hdr heap c ≡ ok d)
            × Decoded heap (contents c.header_buf) c.address c.socket d
      finish (hdr, after, run, t) = (
        _,
        rw (run, ap (λ h. packet_decode_hdr h 7) whole ∙ decode_hdr_seven total full bytes) refl,
        record {
          address_kept = refl;
          socket_kept = refl;
          state = refl;
          collects = record { valid = t.valid; size = t.same_size ∙ v.size };
          emptied = t.remaining ∙ rw seven (drop_all 7 total (omega (arith, full)));
          pack = refl;
          pkt_buf = refl;
        },
      )
        where
          whole : hdr ≡ total
          whole =
              t.copied
              ∙ rw
                  (
                    seven,
                    take_all 7 total (omega (arith, full)),
                    drop_all 7 (heap.malloc 7) (omega (arith, heap.length-malloc 7)),
                    append-nil,
                  )
                  refl

module _ (heap : Allocator) (net : Network) {G : Type 0} (packet_cb : Option (Callback net G)) where
  -- What header bytes that make `total` so far make of a client.
  abbrev pub Fed : List ℕ → Client → Client → Type 0
  Fed total c d =
      (if length total == 7
        then Decoded heap total c.address c.socket d
        else (d ≡ record c { header_buf = d.header_buf })
          × Collects d
          × (contents d.header_buf ≡ total))

  -- Header bytes that come from recv, at most as many as were asked for, are added to those that
  -- came before; the call does not fault. Up to the sixth the client goes on collecting, with
  -- nothing else of it changed; with the seventh the header is decoded from all seven, in whatever
  -- pieces they came.
  pub header_bytes_lem :
      (s : System net G) (c : Client) (bytes : List ℕ)
      → Collects c
      → 0 < length bytes
      → length bytes ≤ rb_can_write c.header_buf
      → All IsByte (contents c.header_buf ++ bytes)
      → (d : Client) × (header_bytes heap net packet_cb s c (some bytes) ≡ ok (set_client net s d))
        × Fed (contents c.header_buf ++ bytes) c d
  unfolding header_bytes
  header_bytes_lem s c bytes v some_in fits are_bytes =
      written (rb_write_lem c.header_buf bytes (length bytes) v.valid (omega arith))
    where
      total : List ℕ
      total = contents c.header_buf ++ bytes

      written :
          (after : RingBuffer) × (rb_write c.header_buf bytes (length bytes)
              ≡ ok (rb_can_write c.header_buf, after))
            × Wrote c.header_buf (take (min (rb_can_write c.header_buf) (length bytes)) bytes) after
          → (d : Client) × (header_bytes heap net packet_cb s c (some bytes)
              ≡ ok (set_client net s d))
            × Fed total c d
      written (after, run, w) = elim (Bool-cases (length total == 7)) [
        | inr fewer ↦ (
          fed,
          rw (not_closed, run, read_so_far, fewer) refl,
          rw fewer (refl, fed_collects, appended),
        )
        | inl seven ↦
            let (d, decoded, is_decoded) =
              client_decode_hdr-Decoded heap fed fed_collects (ap length appended ∙ ground arith)
                (subst (All IsByte) (sym appended) are_bytes) in
            (
              d,
              rw (not_closed, run, read_so_far, seven, decoded) refl,
              rw seven (subst (λ t. Decoded heap t c.address c.socket d) appended is_decoded),
            )
      ]
        where
          fed : Client
          fed = record c { header_buf = after }

          fed_collects : Collects fed
          fed_collects = record { valid = w.valid; size = w.same_size ∙ v.size }

          not_closed : (length bytes == 0) ≡ false
          not_closed = ground arith

          appended : contents after ≡ total
          appended =
              w.appended
              ∙ ap (λ t. contents c.header_buf ++ t)
                  (take_all (min (rb_can_write c.header_buf) (length bytes)) bytes (omega arith))

          read_so_far : rb_can_read after ≡ length total
          read_so_far = sym (length-contents after w.valid) ∙ ap length appended
