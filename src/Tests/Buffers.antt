-- ===== src/Tests/Buffers.antt =====
-- Tests of the ring buffer of util.c.
use rn.Prelude.{ℕ, ◌≡◌, refl, List, [], ◌∷◌, arith, ok, min, take}
use rn.RingBuffer.{RingBuffer, rb_can_read, rb_can_write, rb_write, rb_read}
use rn.RingBuffer.Positions.{IsValid}
use rn.RingBuffer.Write.{Wrote, rb_write_lem}
use rn.RingBuffer.Read.{Took, rb_read_lem}

-- Two bytes that run over the end: 5 in the last cell, 6 in the first.
abbrev wrapped : RingBuffer
wrapped = record { buffer = 6 ∷ 0 ∷ 0 ∷ 5 ∷ []; bufsize = 4; rpos = 3; wpos = 1 }

wrapped-IsValid : IsValid wrapped
wrapped-IsValid = record {
  whole = refl;
  small = omega arith;
  wpos_in = omega arith;
  rpos_in = omega arith;
}

rb_write_lem_example :
    (after : RingBuffer) × (rb_write wrapped (8 ∷ 9 ∷ []) 2 ≡ ok (rb_can_write wrapped, after))
    × Wrote wrapped (take (min (rb_can_write wrapped) 2) (8 ∷ 9 ∷ [])) after
rb_write_lem_example = rb_write_lem wrapped (8 ∷ 9 ∷ []) 2 wrapped-IsValid (omega arith)

rb_read_lem_example :
    (filled : List ℕ) × (after : RingBuffer) × (rb_read wrapped (0 ∷ 0 ∷ 0 ∷ []) 3
      ≡ ok (rb_can_read wrapped, filled, after))
    × Took wrapped (0 ∷ 0 ∷ 0 ∷ []) 0 (min (rb_can_read wrapped) 3) filled after
rb_read_lem_example = rb_read_lem wrapped (0 ∷ 0 ∷ 0 ∷ []) 3 wrapped-IsValid (omega arith)
