-- ===== src/Prelude/Strings.antt =====
-- The C library's calls on strings, as the C standard describes them: they read a block up to its
-- first zero byte. A block with no zero byte in reach is read behind its end.
use Prim.Native.Nat.{ℕ, zero, suc, ◌≤◌, ◌<◌, ◌+◌}
use mathlib.Core.Path.{◌≡◌, refl, ap, ap₂, ◌∙◌}
use mathlib.Core.Logic.{◌≢◌, ◌⊎◌, inl, inr}
use mathlib.Core.Bool.{Bool, true, false}
use mathlib.Core.List.{List, [], ◌∷◌, ◌++◌}
use native.Mathlib.Omega.{arith}
use rn.Prelude.Tests.{◌==◌, if◌then◌else◌, Bool-cases, ==_iff}
use rn.Prelude.Lists.{length, take, take_all, length-take, replicate, All, drop, length-replicate}
use rn.Prelude.Memory.{
  Exec, ok, fault, ◌>>=◌, splice, splice_fits, Settles, settled, faulted, Settles-if,
}

-- strncpy(dst, src, n) into a block of `n` bytes: from a zero byte on, zeros are written.
pub strncpy : List ℕ → ℕ → Exec (List ℕ)
strncpy src zero = ok []
strncpy [] (suc n) = fault
strncpy (b ∷ src) (suc n) =
    let rest = strncpy src n in
    if b == 0 then ok (replicate (suc n) 0) else (do copied ← rest; ok (b ∷ copied))

-- strncpy(dst + off, src, n)
pub strncpy_at : List ℕ → ℕ → List ℕ → ℕ → Exec (List ℕ)
strncpy_at dst off src n = do copied ← strncpy src n; splice dst off copied

-- `strncmp(a, b, n) == 0`
pub strncmp_zero : List ℕ → List ℕ → ℕ → Exec Bool
strncmp_zero a b zero = ok true
strncmp_zero [] b (suc n) = fault
strncmp_zero (x ∷ a) [] (suc n) = fault
strncmp_zero (x ∷ a) (y ∷ b) (suc n) =
    let rest = strncmp_zero a b n in if x == y then (if x == 0 then ok true else rest) else ok false

-- What printf reads for a `%s`.
pub print_text : List ℕ → Exec (Unit {0})
print_text [] = fault
print_text (b ∷ bs) = if b == 0 then ok tt else print_text bs

-- The bytes as a string in a block of the same size: from the first zero byte on, zeros.
abbrev pub as_string : List ℕ → List ℕ
as_string [] = []
as_string (b ∷ bytes) = if b == 0 then 0 ∷ replicate (length bytes) 0 else b ∷ as_string bytes

pub strncpy_lem :
    (src : List ℕ) (n : ℕ) → n ≤ length src → strncpy src n ≡ ok (as_string (take n src))
unfolding strncpy
strncpy_lem src zero h = refl
strncpy_lem [] (suc n) h = absurd (omega arith)
strncpy_lem (b ∷ src) (suc n) h = elim (Bool-cases (b == 0)) [
  | inl nul ↦ rw nul (ap (λ k. ok (0 ∷ replicate k 0)) (omega (arith, length-take n src)))
  | inr other ↦ rw (other, strncpy_lem src n (omega arith)) refl
]

pub strncpy_whole : (src : List ℕ) (n : ℕ) → length src ≡ n → strncpy src n ≡ ok (as_string src)
strncpy_whole src n h =
    strncpy_lem src n (omega (arith, h))
    ∙ ap (λ l. ok (as_string l)) (take_all n src (omega (arith, h)))

-- A zero byte ends a string.
abbrev pub has_end : List ℕ → Bool
has_end [] = false
has_end (b ∷ bytes) = if b == 0 then true else has_end bytes

pub print_text-has_end : (xs : List ℕ) → print_text xs ≡ (if has_end xs then ok tt else fault)
unfolding print_text
print_text-has_end [] = refl
print_text-has_end (b ∷ bytes) = elim (Bool-cases (b == 0)) [
  | inl nul ↦ rw nul refl
  | inr other ↦ rw other (print_text-has_end bytes)
]

-- Equal bytes compare as equal, whatever stands behind them.
pub strncmp_zero-append : (t a b : List ℕ) → strncmp_zero (t ++ a) (t ++ b) (length t) ≡ ok true
unfolding strncmp_zero
strncmp_zero-append [] a b = refl
strncmp_zero-append (x ∷ t) a b =
    let same : (x == x) ≡ true = ground arith in
    rw (same, strncmp_zero-append t a b)
      (elim (Bool-cases (x == 0)) [ inl nul ↦ rw nul refl | inr other ↦ rw other refl ])

-- Two different first bytes decide.
pub strncmp_zero-head :
    (x y n : ℕ) (a b : List ℕ) → x ≢ y → strncmp_zero (x ∷ a) (y ∷ b) (suc n) ≡ ok false
unfolding strncmp_zero
strncmp_zero-head x y n a b ne = let differ : (x == y) ≡ false = ground arith in rw differ refl

-- A zero byte is in reach of printf.
pub print_text-zeros : (a : List ℕ) (n : ℕ) → print_text (a ++ replicate (suc n) 0) ≡ ok tt
unfolding print_text
print_text-zeros [] n = refl
print_text-zeros (b ∷ a) n = elim (Bool-cases (b == 0)) [
  | inl nul ↦ rw nul refl
  | inr other ↦ rw other (print_text-zeros a n)
]

-- A string in a block of the same size compares as the bytes do, where the other has no zero byte.
pub as_string-compare :
    (a t : List ℕ)
    → length a ≡ length t
    → All (λ (b : ℕ). 0 < b) t
    → ((strncmp_zero (as_string a) t (length t) ≡ ok true) × (a ≡ t))
      ⊎ ((strncmp_zero (as_string a) t (length t) ≡ ok false) × (a ≢ t))
unfolding strncmp_zero
as_string-compare [] [] e v = inl (refl, refl)
as_string-compare [] (y ∷ t) e v = absurd (omega (arith, e))
as_string-compare (x ∷ a) [] e v = absurd (omega (arith, e))
as_string-compare (x ∷ a) (y ∷ t) e (pos, v) = elim (Bool-cases (x == 0)) [
  | inl nul ↦ rw nul (
      inr (
        strncmp_zero-head 0 y (length t) (replicate (length a) 0) t (omega arith),
        λ q. let heads : x ≡ y = cc in ground (arith, heads),
      ))
  | inr other ↦ rw other (elim (Bool-cases (x == y)) [
    | inr differ ↦ inr (rw differ refl, λ q. let heads : x ≡ y = cc in ground (arith, heads))
    | inl same ↦
        rw (same, other)
          (elim (as_string-compare a t (omega (arith, e)) v) [
            | inl (run, q) ↦ inl (run, ap₂ ◌∷◌ ((==_iff x y).0 same) q)
            | inr (run, ne) ↦ inr (run, λ q. ne (cc))
          ])
  ])
]

pub length-as_string : (xs : List ℕ) → length (as_string xs) ≡ length xs
length-as_string [] = refl
length-as_string (x ∷ xs) = elim (Bool-cases (x == 0)) [
  | inl nul ↦ rw nul (ap suc (length-replicate (length xs) 0))
  | inr other ↦ rw other (ap suc (length-as_string xs))
]

-- strncpy inside of both blocks.
pub strncpy_at_lem :
    (dst : List ℕ) (off : ℕ) (src : List ℕ) (n : ℕ)
    → off + n ≤ length dst
    → n ≤ length src
    → strncpy_at dst off src n ≡ ok (take off dst ++ (as_string (take n src) ++ drop (off + n) dst))
unfolding strncpy_at
strncpy_at_lem dst off src n fits there =
    rw
      (
        strncpy_lem src n there,
        splice_fits off dst (as_string (take n src)) (omega (arith, fits, size)),
        size,
      )
      refl
  where
    size : length (as_string (take n src)) ≡ n
    size = length-as_string (take n src) ∙ omega (arith, length-take n src, there)

-- Reading strings ends.
pub print_text-Settles : (xs : List ℕ) → Settles (print_text xs)
unfolding print_text
print_text-Settles [] = faulted
print_text-Settles (b ∷ bytes) = Settles-if (b == 0) settled (print_text-Settles bytes)

pub strncmp_zero-Settles : (a b : List ℕ) (n : ℕ) → Settles (strncmp_zero a b n)
unfolding strncmp_zero
strncmp_zero-Settles a b zero = settled
strncmp_zero-Settles [] b (suc n) = faulted
strncmp_zero-Settles (x ∷ a) [] (suc n) = faulted
strncmp_zero-Settles (x ∷ a) (y ∷ b) (suc n) =
    Settles-if (x == y) (Settles-if (x == 0) settled (strncmp_zero-Settles a b n)) settled
