-- ===== src/Webserver/Terminator.antt =====
-- The terminator of a request in a buffer, in praxis1/webserver.c.
use rn.Prelude.{
  ◌≤◌, ◌<◌, ◌≡◌, ◌≢◌, ◌⊎◌, inl, inr, refl, arith, length, length-take, length-drop, take,
  strncpy_lem, as_string-compare, All, ℕ, ◌-◌, false, List, Exec, ok, fault, ◌>>=◌, drop, strncpy,
  strncmp_zero, ltb, if◌then◌else◌,
}

pub cmp_buffend_terminator : List ℕ → ℕ → List ℕ → ℕ → Exec ℕ
cmp_buffend_terminator buffer valid_bytes terminator terminator_len =
    if ltb valid_bytes terminator_len then fault else (do
      last_bytes ← strncpy (drop (valid_bytes - terminator_len) buffer) terminator_len
      same ← strncmp_zero last_bytes terminator terminator_len
      ok (if same then 1 else 0))

-- cmp_buffend_terminator tells whether the valid bytes of a buffer end with the terminator, if they
-- are as many at least and the terminator has no zero byte; it reads no others.
pub cmp_buffend_terminator_lem :
    (buffer : List ℕ) (valid_bytes : ℕ) (terminator : List ℕ)
    → length terminator ≤ valid_bytes
    → valid_bytes ≤ length buffer
    → All (λ (b : ℕ). 0 < b) terminator
    → ((cmp_buffend_terminator buffer valid_bytes terminator (length terminator) ≡ ok 1)
        × (take (length terminator) (drop (valid_bytes - length terminator) buffer) ≡ terminator))
      ⊎ ((cmp_buffend_terminator buffer valid_bytes terminator (length terminator) ≡ ok 0)
          × (take (length terminator) (drop (valid_bytes - length terminator) buffer) ≢ terminator))
unfolding cmp_buffend_terminator
cmp_buffend_terminator_lem buffer valid_bytes terminator enough valid positive =
    rw (reached, strncpy_lem behind (length terminator) (omega (arith, size)))
      (elim (as_string-compare (take (length terminator) behind) terminator
        (omega (arith, length-take (length terminator) behind, size)) positive) [
          | inl (run, same) ↦ inl (rw run refl, same)
          | inr (run, differ) ↦ inr (rw run refl, differ)
        ])
  where
    behind : List ℕ
    behind = drop (valid_bytes - length terminator) buffer

    size : length terminator ≤ length behind
    size = omega (arith, length-drop (valid_bytes - length terminator) buffer)

    reached : ltb valid_bytes (length terminator) ≡ false
    reached = ground arith
