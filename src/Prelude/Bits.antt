-- ===== src/Prelude/Bits.antt =====
-- `|` of fields that do not overlap, as a sum, and masks on one byte.
use Prim.Native.Nat.{
  ℕ, zero, suc, ◌+◌, ◌*◌, ◌/◌, ◌%◌, ◌^◌, ◌≤◌, ◌<◌, max, bit_and, bit_or, digits, bit_or-bitwise,
}
use mathlib.Core.Path.{◌≡◌, refl, ap}
use mathlib.Core.Bool.{Bool, true, ◌&&◌}
use native.Mathlib.Omega.{arith}
use native.Mathlib.Nat.{pow-suc}
use rn.Prelude.Tests.{◌==◌, ==_iff}
use rn.Prelude.Words.{◌<<<◌}

abbrev or_digits : ℕ → ℕ → ℕ → ℕ
or_digits fuel a b = digits (λ y. y) max fuel a b

-- Fuel beyond the number changes nothing.
or_digits_enough : (k l a b : ℕ) → a ≤ k → a ≤ l → or_digits k a b ≡ or_digits l a b
or_digits_enough zero zero a b hk hl = refl
or_digits_enough zero (suc l) zero b hk hl = refl
or_digits_enough zero (suc l) (suc a) b hk hl = absurd (omega arith)
or_digits_enough (suc k) zero zero b hk hl = refl
or_digits_enough (suc k) zero (suc a) b hk hl = absurd (omega arith)
or_digits_enough (suc k) (suc l) zero b hk hl = refl
or_digits_enough (suc k) (suc l) (suc a) b hk hl =
    omega (arith, or_digits_enough k l (suc a / 2) (b / 2) (omega arith) (omega arith))

-- The lowest digit of `a | b`, and the rest.
lowest_digit : (a b : ℕ) → bit_or a b ≡ bit_or (a / 2) (b / 2) * 2 + max (a % 2) (b % 2)
lowest_digit zero b = omega (arith, bit_or-bitwise 0 b, bit_or-bitwise 0 (b / 2))
lowest_digit (suc a) b = omega (
  arith,
  bit_or-bitwise (suc a) b,
  bit_or-bitwise (suc a / 2) (b / 2),
  or_digits_enough a (suc a / 2) (suc a / 2) (b / 2) (omega arith) (omega arith),
)

or_nothing : (bound a : ℕ) → a ≤ bound → bit_or a 0 ≡ a
or_nothing bound zero h = refl
or_nothing zero (suc a) h = absurd (omega arith)
or_nothing (suc bound) (suc a) h =
    omega (arith, lowest_digit (suc a) 0, or_nothing bound (suc a / 2) (omega arith))

-- `(q << k) | r` is a sum where `r` has at most `k` bits.
pub bit_or-disjoint : (k q r : ℕ) → r < 2 ^ k → bit_or (q <<< k) r ≡ q * 2 ^ k + r
bit_or-disjoint zero q r h = omega (
  arith,
  or_nothing q q (omega arith),
  ap (λ t. bit_or (q * 1) t) {x = r} {y = 0} (omega arith),
  ap (λ t. bit_or t 0) {x = q * 1} {y = q} (omega arith),
)
bit_or-disjoint (suc k) q r h = omega (
  arith,
  lowest_digit (q * 2 ^ suc k) r,
  ap (λ (t : ℕ). q * t) (pow-suc 2 k),
  pow-suc 2 k,
  ap (λ t. bit_or t (r / 2)) {x = q * 2 ^ suc k / 2} {y = q * 2 ^ k}
      (omega (arith, ap (λ (t : ℕ). q * t) (pow-suc 2 k))),
  bit_or-disjoint k q (r / 2) (omega (arith, pow-suc 2 k)),
)

-- A test of each number under a bound, and what it shows of one.
unfoldable pub holds_below : (ℕ → Bool) → ℕ → Bool
holds_below test zero = true
holds_below test (suc bound) = holds_below test bound && test bound

holds_at :
    (test : ℕ → Bool) (bound i : ℕ) → i < bound → holds_below test bound ≡ true → test i ≡ true
unfolding holds_below
holds_at test zero i below all_hold = absurd (omega arith)
holds_at test (suc bound) i below all_hold = ground (arith, holds_at test bound i)

pub byte_table :
    (f g : ℕ → ℕ) → holds_below (λ x. f x == g x) 256 ≡ true → (x : ℕ) → x < 256 → f x ≡ g x
byte_table f g e x h = (==_iff (f x) (g x)).0 (holds_at (λ y. f y == g y) 256 x h e)

-- Masking a byte by 0xFF keeps it.
pub bit_and_byte : (x : ℕ) → x < 256 → bit_and x 0xff ≡ x
unfolding holds_below
bit_and_byte = byte_table (λ x. bit_and x 0xff) (λ x. x) refl

-- The same where the upper field is given by its value.
pub bit_or-eq-add : (k : ℕ) {x : ℕ} (q r : ℕ) → x ≡ q * 2 ^ k → r < 2 ^ k → bit_or x r ≡ x + r
bit_or-eq-add k q r e h = rw e (bit_or-disjoint k q r h)
