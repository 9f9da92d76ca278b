-- ===== src/RingBuffer/Write.antt =====
-- rb_write of praxis2/src/util.c appends to the unread bytes as many as fit.
use rn.Prelude.{
  ℕ, zero, suc, ◌+◌, ◌≤◌, ◌<◌, ◌≡◌, refl, sym, ap, ◌∙◌, List, [], ◌∷◌, ◌++◌, append_assoc,
  append-nil, arith, length, length-set, get_or, set, take, drop, take-drop-suc, min, ok, ltb, true,
}
use native.Mathlib.Numerals.{add-one}
use rn.RingBuffer.{RingBuffer, rb_can_write, advance, write_loop, rb_write}
use rn.RingBuffer.Positions.{
  IsValid, gap, rb_can_read_lem, can_read-add-can_write, advance_in, gap-advance_right,
}
use rn.RingBuffer.Contents.{contents, unread, unread-set, load-eq-get_or}

-- One round of the loop.
abbrev put : RingBuffer → ℕ → RingBuffer
put rb x = record rb { buffer = set rb.buffer rb.wpos x; wpos = advance rb.bufsize rb.wpos }

put-IsValid : (rb : RingBuffer) (x : ℕ) → IsValid rb → IsValid (put rb x)
put-IsValid rb x v = record {
  whole = length-set rb.buffer rb.wpos x ∙ v.whole;
  small = v.small;
  wpos_in = advance_in rb.bufsize rb.wpos v.small v.wpos_in;
  rpos_in = v.rpos_in;
}

gap-put :
    (rb : RingBuffer) (x : ℕ)
    → IsValid rb
    → 0 < rb_can_write rb
    → gap rb.bufsize rb.rpos (advance rb.bufsize rb.wpos) ≡ gap rb.bufsize rb.rpos rb.wpos + 1
gap-put rb x v room =
    gap-advance_right rb.bufsize rb.rpos rb.wpos v.small v.rpos_in v.wpos_in
      (omega (arith, can_read-add-can_write rb v, rb_can_read_lem rb v))

contents-put :
    (rb : RingBuffer) (x : ℕ)
    → IsValid rb
    → 0 < rb_can_write rb
    → contents (put rb x) ≡ contents rb ++ (x ∷ [])
contents-put rb x v room =
    ap (unread (set rb.buffer rb.wpos x) rb.bufsize rb.rpos) (gap-put rb x v room ∙ add-one _)
    ∙ unread-set rb.buffer rb.bufsize x (gap rb.bufsize rb.rpos rb.wpos) rb.rpos rb.wpos
        (sym v.whole) v.small v.rpos_in v.wpos_in refl

can_write-put :
    (rb : RingBuffer) (x : ℕ)
    → IsValid rb
    → 0 < rb_can_write rb
    → rb_can_write (put rb x) + 1 ≡ rb_can_write rb
can_write-put rb x v room = omega (
  arith,
  can_read-add-can_write rb v,
  rb_can_read_lem rb v,
  can_read-add-can_write (put rb x) (put-IsValid rb x v),
  rb_can_read_lem (put rb x) (put-IsValid rb x v),
  gap-put rb x v room,
)

-- What a call that appends `bytes` leaves.
pub record Wrote (rb : RingBuffer) (bytes : List ℕ) (after : RingBuffer) : Type 0 where
  pub valid : IsValid after
  pub same_size : after.bufsize ≡ rb.bufsize
  pub appended : contents after ≡ contents rb ++ bytes

write_loop-suc :
    (left i : ℕ) (src : List ℕ) (rb : RingBuffer)
    → IsValid rb
    → i < length src
    → write_loop (suc left) i src rb ≡ write_loop left (i + 1) src (put rb (get_or src i 0))
unfolding write_loop
write_loop-suc left i src rb v h = rw (load-eq-get_or src i 0 h, inside) refl
  where
    inside : ltb rb.wpos (length rb.buffer) ≡ true
    inside = ground arith

Wrote-cons :
    {rb after : RingBuffer} (x : ℕ) (bytes : List ℕ)
    → IsValid rb
    → 0 < rb_can_write rb
    → Wrote (put rb x) bytes after
    → Wrote rb (x ∷ bytes) after
Wrote-cons {rb} x bytes v room w = record {
  valid = w.valid;
  same_size = w.same_size;
  appended =
      w.appended
      ∙ ap (λ t. t ++ bytes) (contents-put rb x v room)
      ∙ append_assoc (contents rb) (x ∷ []) bytes;
}

write_loop-Wrote :
    (left i : ℕ) (src : List ℕ) (rb : RingBuffer)
    → IsValid rb
    → left ≤ rb_can_write rb
    → i + left ≤ length src
    → (after : RingBuffer) × (write_loop left i src rb ≡ ok after)
      × Wrote rb (take left (drop i src)) after
write_loop-Wrote zero i src rb v room fits = (
  rb,
  unfold write_loop in refl,
  record { valid = v; same_size = refl; appended = sym (append-nil (contents rb)) },
)
write_loop-Wrote (suc left) i src rb v room fits =
    rw (write_loop-suc left i src rb v (omega arith), take-drop-suc src i left 0 (omega arith))
      (extend (
        write_loop-Wrote left (i + 1) src (put rb x) (put-IsValid rb x v)
          (omega (arith, can_write-put rb x v (omega arith))) (omega arith)))
  where
    x : ℕ
    x = get_or src i 0

    rest : List ℕ
    rest = take left (drop (i + 1) src)

    extend :
        (after : RingBuffer) × (write_loop left (i + 1) src (put rb x) ≡ ok after)
          × Wrote (put rb x) rest after
        → (after : RingBuffer) × (write_loop left (i + 1) src (put rb x) ≡ ok after)
          × Wrote rb (x ∷ rest) after
    extend (after, run, w) = (after, run, Wrote-cons x rest v (omega arith) w)

-- rb_write on a valid buffer stays inside both arrays, appends the first bytes of its source in
-- their order, as many as there is room for and at most `n`, and keeps the buffer valid. What it
-- returns is the room, whatever `n` was.
pub rb_write_lem :
    (rb : RingBuffer) (src : List ℕ) (n : ℕ)
    → IsValid rb
    → n ≤ length src
    → (after : RingBuffer) × (rb_write rb src n ≡ ok (rb_can_write rb, after))
      × Wrote rb (take (min (rb_can_write rb) n) src) after
unfolding rb_write
rb_write_lem rb src n v fits =
    finish (write_loop-Wrote (min (rb_can_write rb) n) 0 src rb v (omega arith) (omega arith))
  where
    rounds : ℕ
    rounds = min (rb_can_write rb) n

    finish :
        (after : RingBuffer) × (write_loop rounds 0 src rb ≡ ok after)
          × Wrote rb (take rounds src) after
        → (after : RingBuffer) × (rb_write rb src n ≡ ok (rb_can_write rb, after))
          × Wrote rb (take rounds src) after
    finish (after, run, w) = (after, rw run refl, w)
