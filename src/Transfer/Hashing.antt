-- ===== src/Transfer/Hashing.antt =====
-- pseudo_hash of praxis2/src/util.c.
use rn.Prelude.{
  ℕ, zero, suc, ◌+◌, ◌*◌, ◌≤◌, ◌≡◌, refl, ap, true, List, [], ◌∷◌, arith, length, take, ok, All,
  IsByte, leb,
}
use rn.Prelude.Bits.{bit_or-disjoint}
use rn.Transfer.{pseudo_hash}

-- The first two bytes of a key, the high one first; of one byte or none, that.
abbrev pub key_hash : List ℕ → ℕ
key_hash [] = 0
key_hash (a ∷ []) = a
key_hash (a ∷ b ∷ more) = a * 256 + b

-- pseudo_hash of bytes that are there reads no others, and is the number that the first two spell, or
-- the only one, or 0 of none.
pub pseudo_hash_lem :
    (buffer : List ℕ) (n : ℕ)
    → n ≤ length buffer
    → All IsByte (take n buffer)
    → pseudo_hash buffer n ≡ ok (key_hash (take n buffer))
unfolding pseudo_hash
pseudo_hash_lem buffer zero h v = refl
pseudo_hash_lem [] (suc n) h v = absurd (omega arith)
pseudo_hash_lem (a ∷ buffer) (suc zero) h v = ap ok (omega arith)
pseudo_hash_lem (a ∷ []) (suc (suc n)) h v = absurd (omega arith)
pseudo_hash_lem (a ∷ b ∷ buffer) (suc (suc n)) h v =
    let two : leb 2 (suc (suc n)) ≡ true = ground arith in
    rw two (ap ok (omega (arith, bit_or-disjoint 8 a (b * 1) (omega arith))))
