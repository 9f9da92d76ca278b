-- ===== src/RingBuffer/Read.antt =====
-- rb_read of praxis2/src/util.c takes the oldest unread bytes.
use rn.Prelude.{
  ℕ, zero, suc, ◌+◌, ◌≤◌, ◌<◌, ◌≡◌, ◌≢◌, refl, sym, ap, ◌∙◌, List, [], ◌∷◌, ◌++◌, append_assoc,
  arith, length, length-set, get_or, set, take, drop, take-append-drop, min, ok, ltb, true,
}
use native.Mathlib.Numerals.{add-one}
use native.Mathlib.Nat.{suc-add, add-suc, add-zero}
use rn.RingBuffer.{RingBuffer, rb_can_read, advance, read_loop, rb_read}
use rn.RingBuffer.Positions.{IsValid, gap, rb_can_read_lem, advance_in, gap-advance_left}
use rn.RingBuffer.Contents.{contents, unread, load-eq-get_or}

-- One round of the loop.
abbrev skip : RingBuffer → RingBuffer
skip rb = record rb { rpos = advance rb.bufsize rb.rpos }

skip-IsValid : (rb : RingBuffer) → IsValid rb → IsValid (skip rb)
skip-IsValid rb v = record {
  whole = v.whole;
  small = v.small;
  wpos_in = v.wpos_in;
  rpos_in = advance_in rb.bufsize rb.rpos v.small v.rpos_in;
}

gap-skip :
    (rb : RingBuffer)
    → IsValid rb
    → 0 < rb_can_read rb
    → gap rb.bufsize rb.rpos rb.wpos ≡ suc (gap rb.bufsize (advance rb.bufsize rb.rpos) rb.wpos)
gap-skip rb v some_left =
    let apart : rb.rpos ≢ rb.wpos = ground (arith, rb_can_read_lem rb v) in
    omega (arith, gap-advance_left rb.bufsize rb.rpos rb.wpos v.small v.rpos_in v.wpos_in apart)

contents-skip :
    (rb : RingBuffer)
    → IsValid rb
    → 0 < rb_can_read rb
    → contents rb ≡ get_or rb.buffer rb.rpos 0 ∷ contents (skip rb)
contents-skip rb v some_left = ap (unread rb.buffer rb.bufsize rb.rpos) (gap-skip rb v some_left)

can_read-skip :
    (rb : RingBuffer) → IsValid rb → 0 < rb_can_read rb → rb_can_read (skip rb) + 1 ≡ rb_can_read rb
can_read-skip rb v some_left = omega (
  arith,
  gap-skip rb v some_left,
  rb_can_read_lem rb v,
  rb_can_read_lem (skip rb) (skip-IsValid rb v),
)

-- What a call that puts `n` bytes into `dst` from index `i` on leaves in both.
pub record Took (rb : RingBuffer) (dst : List ℕ) (i n : ℕ) (filled : List ℕ) (after : RingBuffer)
    : Type 0 where
  pub valid : IsValid after
  pub same_size : after.bufsize ≡ rb.bufsize
  pub copied : filled ≡ take i dst ++ (take n (contents rb) ++ drop (i + n) dst)
  pub remaining : contents after ≡ drop n (contents rb)

take-set :
    (xs : List ℕ) (i v : ℕ) → i < length xs → take (suc i) (set xs i v) ≡ take i xs ++ (v ∷ [])
take-set [] i v h = absurd (omega arith)
take-set (x ∷ xs) zero v h = refl
take-set (x ∷ xs) (suc i) v h = ap (λ t. x ∷ t) (take-set xs i v (omega arith))

drop-set : (xs : List ℕ) (i j v : ℕ) → i < j → drop j (set xs i v) ≡ drop j xs
drop-set [] i j v h = refl
drop-set (x ∷ xs) i zero v h = absurd (omega arith)
drop-set (x ∷ xs) zero (suc j) v h = refl
drop-set (x ∷ xs) (suc i) (suc j) v h = drop-set xs i j v (omega arith)

read_loop-suc :
    (left i : ℕ) (dst : List ℕ) (rb : RingBuffer)
    → IsValid rb
    → i < length dst
    → read_loop (suc left) i dst rb
      ≡ read_loop left (suc i) (set dst i (get_or rb.buffer rb.rpos 0)) (skip rb)
unfolding read_loop
read_loop-suc left i dst rb v h =
    rw (load-eq-get_or rb.buffer rb.rpos 0 (ground arith), inside, add-one) refl
  where
    inside : ltb i (length dst) ≡ true
    inside = ground arith

Took-suc :
    (rb : RingBuffer) (dst : List ℕ) (i n : ℕ) {filled : List ℕ} {after : RingBuffer}
    → IsValid rb
    → 0 < rb_can_read rb
    → i < length dst
    → Took (skip rb) (set dst i (get_or rb.buffer rb.rpos 0)) (suc i) n filled after
    → Took rb dst i (suc n) filled after
Took-suc rb dst i n v some_left h t = record {
  valid = t.valid;
  same_size = t.same_size;
  copied =
      t.copied
      ∙ rw
          (
            take-set dst i x h,
            drop-set dst i (suc i + n) x (omega arith),
            append_assoc (take i dst) (x ∷ []),
            contents-skip rb v some_left,
            suc-add,
            add-suc,
          )
          refl;
  remaining = t.remaining ∙ rw (contents-skip rb v some_left) refl;
}
  where
    x : ℕ
    x = get_or rb.buffer rb.rpos 0

read_loop-Took :
    (left i : ℕ) (dst : List ℕ) (rb : RingBuffer)
    → IsValid rb
    → left ≤ rb_can_read rb
    → i + left ≤ length dst
    → (filled : List ℕ) × (after : RingBuffer) × (read_loop left i dst rb ≡ ok (filled, after))
      × Took rb dst i left filled after
read_loop-Took zero i dst rb v enough fits = (
  dst,
  rb,
  unfold read_loop in refl,
  record {
    valid = v;
    same_size = refl;
    copied = sym (rw add-zero (take-append-drop i dst));
    remaining = refl;
  },
)
read_loop-Took (suc left) i dst rb v enough fits =
    rw (read_loop-suc left i dst rb v (omega arith)) (
      extend (
        read_loop-Took left (suc i) (set dst i x) (skip rb) (skip-IsValid rb v)
          (omega (arith, can_read-skip rb v (omega arith))) (omega (arith, length-set dst i x))))
  where
    x : ℕ
    x = get_or rb.buffer rb.rpos 0

    extend :
        (filled : List ℕ) × (after : RingBuffer) × (read_loop left (suc i) (set dst i x) (skip rb)
            ≡ ok (filled, after))
          × Took (skip rb) (set dst i x) (suc i) left filled after
        → (filled : List ℕ) × (after : RingBuffer) × (read_loop left (suc i) (set dst i x) (skip rb)
            ≡ ok (filled, after))
          × Took rb dst i (suc left) filled after
    extend (filled, after, run, t) =
        (filled, after, run, Took-suc rb dst i left v (omega arith) (omega arith) t)

-- rb_read on a valid buffer stays inside both arrays. It puts the oldest unread bytes, as many as
-- there are and at most `n`, at the start of its destination, leaves the rest of the destination
-- and the later bytes of the buffer as they were, and keeps the buffer valid. What it returns is
-- the number of bytes that there were, whatever `n` was.
pub rb_read_lem :
    (rb : RingBuffer) (dst : List ℕ) (n : ℕ)
    → IsValid rb
    → n ≤ length dst
    → (filled : List ℕ) × (after : RingBuffer) × (rb_read rb dst n
        ≡ ok (rb_can_read rb, filled, after))
      × Took rb dst 0 (min (rb_can_read rb) n) filled after
unfolding rb_read
rb_read_lem rb dst n v fits =
    finish (read_loop-Took (min (rb_can_read rb) n) 0 dst rb v (omega arith) (omega arith))
  where
    rounds : ℕ
    rounds = min (rb_can_read rb) n

    finish :
        (filled : List ℕ) × (after : RingBuffer) × (read_loop rounds 0 dst rb ≡ ok (filled, after))
          × Took rb dst 0 rounds filled after
        → (filled : List ℕ) × (after : RingBuffer) × (rb_read rb dst n
            ≡ ok (rb_can_read rb, filled, after))
          × Took rb dst 0 rounds filled after
    finish (filled, after, run, t) = (filled, after, rw run refl, t)
