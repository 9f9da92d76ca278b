-- ===== src/Packet/Bytes.antt =====
-- The flag test, the bytes of a number and their joining, as arithmetic.
use rn.Prelude.{
  ℕ, ◌+◌, ◌*◌, ◌/◌, ◌%◌, ◌^◌, ◌≡◌, refl, arith, bit_or, ◌<<<◌, u8, ◌>>>◌, IsByte, ap, ◌∙◌,
}
use rn.Prelude.Bits.{bit_or-disjoint, bit_or-eq-add, bit_and_byte}
use rn.Packet.{byte_at, join_16, join_32}

pub byte_at_lem : (x k : ℕ) → byte_at x k ≡ x / 2 ^ k % 256
unfolding byte_at
byte_at_lem x k = bit_and_byte (u8 (x >>> k)) (omega arith)

pub join_16_lem : (a b : ℕ) → IsByte a → IsByte b → join_16 a b ≡ a * 256 + b
unfolding join_16
join_16_lem a b ha hb = omega (arith, bit_or-disjoint 8 a (b * 1) (omega arith))

pub join_upper :
    (a b : ℕ) → IsByte a → IsByte b → bit_or (a <<< 24) (b <<< 16) ≡ (a * 256 + b) * 2 ^ 16
join_upper a b ha hb = omega (arith, bit_or-disjoint 24 a (b <<< 16) (omega arith))

pub join_lower :
    (a b c : ℕ)
    → IsByte b
    → IsByte c
    → bit_or (a <<< 16) (bit_or (b <<< 8) (c <<< 0)) ≡ a * 2 ^ 16 + b * 256 + c
join_lower a b c hb hc =
    ap (λ t. bit_or (a <<< 16) t) (bit_or-eq-add 8 b (c <<< 0) refl (omega arith))
    ∙ bit_or-eq-add 16 a (b <<< 8 + c <<< 0) refl (omega arith)
    ∙ omega arith

pub join_32_lem :
    (a b c d : ℕ)
    → IsByte a
    → IsByte b
    → IsByte c
    → IsByte d
    → join_32 a b c d ≡ a * 2 ^ 24 + b * 2 ^ 16 + c * 256 + d
unfolding join_32
join_32_lem a b c d ha hb hc hd = omega (arith, whole)
  where
    upper : ℕ
    upper = (a * 256 + b) * 2 ^ 16

    upper_three : bit_or upper (c <<< 8) ≡ upper + c <<< 8
    upper_three = bit_or-eq-add 16 (a * 256 + b) (c <<< 8) refl (omega arith)

    whole :
        bit_or (bit_or (bit_or (a <<< 24) (b <<< 16)) (c <<< 8)) (d <<< 0)
        ≡ upper + c <<< 8 + d <<< 0
    whole =
        rw (join_upper a b ha hb, upper_three)
          (bit_or-eq-add 8 ((a * 256 + b) * 256 + c) (d <<< 0) (omega arith) (omega arith))
