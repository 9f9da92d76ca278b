-- ===== src/RingBuffer/Positions.antt =====
-- The invariant of the ring buffer of praxis2/src/util.c, and its position arithmetic.
use rn.Prelude.{
  ℕ, ◌+◌, ◌-◌, ◌%◌, ◌^◌, ◌<◌, ◌≡◌, arith, length, Allocator, leb, u64, if◌then◌else◌, ◌⊎◌, inl, inr,
  ◌≢◌,
}
use native.Mathlib.Nat.{mod-eq_of_lt, mod_self}
use native.Mathlib.Decide.{dec_lt}
use rn.RingBuffer.{RingBuffer, rb_new, rb_can_read, rb_can_write, advance}

pub record IsValid (rb : RingBuffer) : Type 0 where
  pub whole : length rb.buffer ≡ rb.bufsize
  pub small : rb.bufsize < 2 ^ 64
  pub wpos_in : rb.wpos < rb.bufsize
  pub rpos_in : rb.rpos < rb.bufsize

-- The steps round the ring from position `r` to position `w`.
abbrev pub gap : ℕ → ℕ → ℕ → ℕ
gap size r w = if leb r w then w - r else size - r + w

pub rb_can_read_lem :
    (rb : RingBuffer) → IsValid rb → rb_can_read rb ≡ gap rb.bufsize rb.rpos rb.wpos
unfolding rb_can_read
rb_can_read_lem rb v = ground arith

-- What can be read and what can be written make up the buffer but for one cell, so no call lets
-- the two positions meet by filling it.
pub can_read-add-can_write :
    (rb : RingBuffer) → IsValid rb → rb_can_read rb + rb_can_write rb + 1 ≡ rb.bufsize
unfolding rb_can_read rb_can_write
can_read-add-can_write rb v = ground arith

-- One step is to the next cell, or from the last to the first.
pub advance_cases :
    (size pos : ℕ)
    → size < 2 ^ 64
    → pos < size
    → ((pos + 1 ≡ size) × (advance size pos ≡ 0))
      ⊎ ((pos + 1 < size) × (advance size pos ≡ pos + 1))
unfolding advance
advance_cases size pos small h = elim (dec_lt (pos + 1) size) [
  | yes inside ↦ inr (inside, rw no_wrap (mod-eq_of_lt inside))
  | no last ↦
      let at_end : pos + 1 ≡ size = omega arith in
      inl (at_end, rw (no_wrap, at_end) (mod_self size))
]
  where
    no_wrap : u64 (pos + 1) ≡ pos + 1
    no_wrap = omega arith

pub advance_in : (size pos : ℕ) → size < 2 ^ 64 → pos < size → advance size pos < size
advance_in size pos small h = ground (arith, advance_cases size pos small h)

-- Moving the reader shortens the gap by one, moving the writer lengthens it, unless it was full.
pub gap-advance_left :
    (size r w : ℕ)
    → size < 2 ^ 64
    → r < size
    → w < size
    → r ≢ w
    → gap size (advance size r) w + 1 ≡ gap size r w
gap-advance_left size r w small hr hw ne = ground (arith, advance_cases size r small hr)

pub gap-advance_right :
    (size r w : ℕ)
    → size < 2 ^ 64
    → r < size
    → w < size
    → gap size r w + 1 < size
    → gap size r (advance size w) ≡ gap size r w + 1
gap-advance_right size r w small hr hw room = ground (arith, advance_cases size w small hw)

-- A new buffer is valid, empty, and has room for just the number of bytes asked for.
pub rb_new_lem :
    (heap : Allocator) (size : ℕ)
    → size + 1 < 2 ^ 64
    → IsValid (rb_new heap size)
      × (rb_can_read (rb_new heap size) ≡ 0)
      × (rb_can_write (rb_new heap size) ≡ size)
unfolding rb_new rb_can_read rb_can_write
rb_new_lem heap size h = ground (arith, heap.length-malloc ((size + 1) % 2 ^ 64))
