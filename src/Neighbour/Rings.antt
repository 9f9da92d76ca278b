-- ===== src/Neighbour/Rings.antt =====
-- A peer's place in the ring of praxis2/src/neighbour.c, by the ids that it knows.
use rn.Prelude.{ℕ, ◌≤◌, ◌≡◌, refl, sym, ap, ◌∙◌, List, [], ◌∷◌, ◌++◌, arith, length, length-append}
use mathlib.Core.Path.{subst}
use rn.Neighbour.{peer_is_responsible}
use rn.Neighbour.Responsible.{
  owners, owners-append, owners-cons_in, Ascends, last_of, ring_owners, length-ring_owners,
}

-- The peer `self_id` stands in the ring behind `pred_id`; behind the last peer stands the first.
pub record Follows (ring : List ℕ) (pred_id self_id : ℕ) : Type 0 where
  pub front : List ℕ
  pub back : List ℕ
  pub stands : front ++ (self_id ∷ back) ≡ ring
  pub before : last_of (last_of self_id back) front ≡ pred_id

last_of-append : (p : ℕ) (xs ys : List ℕ) → last_of p (xs ++ ys) ≡ last_of (last_of p xs) ys
last_of-append p [] ys = refl
last_of-append p (x ∷ xs) ys = last_of-append x xs ys

-- The ring, from where one of its peers stands.
turned :
    (first : ℕ) (rest xs ys : List ℕ) (start h : ℕ)
    → xs ++ (start ∷ ys) ≡ first ∷ rest
    → ring_owners first rest h
      ≡ owners (last_of start ys) xs h ++ owners (last_of (last_of start ys) xs) (start ∷ ys) h
turned first rest xs ys start h e =
    ap (λ l. owners (last_of first l) l h) (sym e)
    ∙ ap (λ p. owners p (xs ++ (start ∷ ys)) h) (last_of-append first xs (start ∷ ys))
    ∙ owners-append (last_of start ys) xs (start ∷ ys) h

only_one : (xs ys : List ℕ) (x : ℕ) → length (xs ++ (x ∷ ys)) ≤ 1 → xs ++ (x ∷ ys) ≡ x ∷ []
only_one [] [] x h = refl
only_one [] (y ∷ ys) x h = absurd (omega arith)
only_one (z ∷ xs) ys x h = absurd (omega (arith, length-append xs (x ∷ ys)))

-- In a ring of at least two peers, one that takes an id for its own, as it knows its predecessor, is
-- the only one that does.
pub ring_owners-Follows :
    (first second : ℕ) (others : List ℕ) (pred_id self_id h : ℕ)
    → Ascends first (second ∷ others)
    → Follows (first ∷ second ∷ others) pred_id self_id
    → peer_is_responsible pred_id self_id h ≡ 1
    → ring_owners first (second ∷ others) h ≡ self_id ∷ []
ring_owners-Follows first second others pred_id self_id h a f takes =
    whole
    ∙ only_one (owners (last_of self_id f.back) f.front h) (owners self_id f.back h) self_id few
  where
    whole :
        ring_owners first (second ∷ others) h
        ≡ owners (last_of self_id f.back) f.front h ++ (self_id ∷ owners self_id f.back h)
    whole =
        turned first (second ∷ others) f.front f.back self_id h f.stands
        ∙ ap (λ p. owners (last_of self_id f.back) f.front h ++ owners p (self_id ∷ f.back) h)
            f.before
        ∙ ap (λ l. owners (last_of self_id f.back) f.front h ++ l)
            (owners-cons_in pred_id self_id f.back h takes)

    few :
        length (owners (last_of self_id f.back) f.front h ++ (self_id ∷ owners self_id f.back h))
        ≤ 1
    few =
        subst (λ n. n ≤ 1)
          (sym (length-ring_owners first second others h a) ∙ ap (λ (l : List ℕ). length l) whole)
          (ground arith)
