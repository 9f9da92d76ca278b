-- ===== src/Webserver/Starting.antt =====
-- Where no terminator of praxis1/webserver.c stands: in front of anything but a carriage return.
use rn.Prelude.{
  ℕ, zero, suc, ◌<◌, ◌≡◌, ◌≢◌, false, List, [], ◌∷◌, ◌++◌, arith, take, drop, as_string,
  strncmp_zero, strncmp_zero-head, ok, ◌==◌, Bool-cases, inl, inr,
}
use rn.Webserver.{http_terminator, terminator_at}

-- A block that does not start with a carriage return.
abbrev pub StartsElse : List ℕ → Type 0
StartsElse [] = ⊥
StartsElse (c ∷ rest) = c ≢ 13

pub StartsElse-append : (xs ys : List ℕ) → StartsElse xs → StartsElse (xs ++ ys)
StartsElse-append [] ys h = elim h [ ]
StartsElse-append (c ∷ xs) ys h = h

pub StartsElse-take : (n : ℕ) (xs : List ℕ) → 0 < n → StartsElse xs → StartsElse (take n xs)
StartsElse-take zero xs some_there h = absurd (omega arith)
StartsElse-take (suc n) [] some_there h = elim h [ ]
StartsElse-take (suc n) (c ∷ xs) some_there h = h

pub StartsElse-as_string : (xs : List ℕ) → StartsElse xs → StartsElse (as_string xs)
StartsElse-as_string [] h = elim h [ ]
StartsElse-as_string (c ∷ xs) h = elim (Bool-cases (c == 0)) [
  | inl nul ↦ rw nul (omega arith)
  | inr other ↦ rw other h
]

-- There is no terminator where something else starts.
pub starts_no_terminator :
    (xs : List ℕ) → StartsElse xs → strncmp_zero xs http_terminator 4 ≡ ok false
starts_no_terminator [] h = elim h [ ]
starts_no_terminator (c ∷ xs) h = strncmp_zero-head c 13 3 xs (10 ∷ 13 ∷ 10 ∷ 0 ∷ []) h

pub no_terminator : (i : ℕ) (xs : List ℕ) → StartsElse (drop i xs) → terminator_at xs i ≡ ok false
unfolding terminator_at
no_terminator i xs h = starts_no_terminator (drop i xs) h
