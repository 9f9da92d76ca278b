-- ===== src/RingBuffer/Contents.antt =====
-- The bytes that a ring buffer of praxis2/src/util.c holds, oldest first.
use rn.Prelude.{
  ℕ, zero, suc, ◌^◌, ◌<◌, ◌≡◌, refl, sym, ap, ap₂, ◌∙◌, List, [], ◌∷◌, ◌++◌, arith, length, ◌≢◌,
  get_or, set, ok, load,
}
use rn.RingBuffer.{RingBuffer, rb_can_read, advance}
use rn.RingBuffer.Positions.{IsValid, gap, rb_can_read_lem, advance_in, gap-advance_left}

-- The `n` bytes from position `r` on.
abbrev pub unread : List ℕ → ℕ → ℕ → ℕ → List ℕ
unread buf size r zero = []
unread buf size r (suc n) = get_or buf r 0 ∷ unread buf size (advance size r) n

abbrev pub contents : RingBuffer → List ℕ
contents rb = unread rb.buffer rb.bufsize rb.rpos (gap rb.bufsize rb.rpos rb.wpos)

length-unread : (buf : List ℕ) (size r n : ℕ) → length (unread buf size r n) ≡ n
length-unread buf size r zero = refl
length-unread buf size r (suc n) = ap suc (length-unread buf size (advance size r) n)

pub length-contents : (rb : RingBuffer) → IsValid rb → length (contents rb) ≡ rb_can_read rb
length-contents rb v =
    length-unread rb.buffer rb.bufsize rb.rpos (gap rb.bufsize rb.rpos rb.wpos)
    ∙ sym (rb_can_read_lem rb v)

module _ {ℓ} {A : Type ℓ} where
  get_or-set_here : (xs : List A) (i : ℕ) (v d : A) → i < length xs → get_or (set xs i v) i d ≡ v
  get_or-set_here [] i v d h = absurd (omega arith)
  get_or-set_here (x ∷ xs) zero v d h = refl
  get_or-set_here (x ∷ xs) (suc i) v d h = get_or-set_here xs i v d (omega arith)

  get_or-set_elsewhere :
      (xs : List A) (i j : ℕ) (v d : A) → i ≢ j → get_or (set xs i v) j d ≡ get_or xs j d
  get_or-set_elsewhere [] i j v d h = refl
  get_or-set_elsewhere (x ∷ xs) zero zero v d h = absurd (h refl)
  get_or-set_elsewhere (x ∷ xs) zero (suc j) v d h = refl
  get_or-set_elsewhere (x ∷ xs) (suc i) zero v d h = refl
  get_or-set_elsewhere (x ∷ xs) (suc i) (suc j) v d h =
      get_or-set_elsewhere xs i j v d (λ e. h (ap suc e))

  pub load-eq-get_or :
      (xs : List A) (i : ℕ) (d : A) → i < length xs → load xs i ≡ ok (get_or xs i d)
  load-eq-get_or [] i d h = absurd (omega arith)
  load-eq-get_or (x ∷ xs) zero d h = refl
  load-eq-get_or (x ∷ xs) (suc i) d h = load-eq-get_or xs i d (omega arith)

-- A byte written at the far end of the unread ones is the last of them.
pub unread-set :
    (buf : List ℕ) (size x n r w : ℕ)
    → size ≡ length buf
    → size < 2 ^ 64
    → r < size
    → w < size
    → gap size r w ≡ n
    → unread (set buf w x) size r (suc n) ≡ unread buf size r n ++ (x ∷ [])
unread-set buf size x zero r w whole small hr hw e =
    let here : w ≡ r = ground arith in
    rw here (ap (λ b. b ∷ []) (get_or-set_here buf r x 0 (omega arith)))
unread-set buf size x (suc n) r w whole small hr hw e =
    let apart : w ≢ r = ground arith in
    ap₂ ◌∷◌ (get_or-set_elsewhere buf w r x 0 apart) (
      unread-set buf size x n (advance size r) w whole small (advance_in size r small hr) hw
        (ground (arith, gap-advance_left size r w small hr hw)))
