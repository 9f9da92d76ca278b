-- ===== src/Neighbour/Responsible.antt =====
-- peer_is_responsible of praxis2/src/neighbour.c against the arcs of the ring, for one peer and for
-- all the peers of a ring.
use rn.Prelude.{
  ℕ, ◌+◌, ◌-◌, ◌%◌, ◌^◌, ◌≤◌, ◌<◌, ◌≡◌, ◌≢◌, ◌⊎◌, ◌↔◌, inl, inr, refl, arith, List, [], ◌∷◌, ◌++◌,
  ltb, ◌==◌, if◌then◌else◌, length,
}
use native.Mathlib.Decide.{dec_lt}
use rn.Neighbour.{peer_is_responsible}

-- The steps upwards from `a` to `b`, round the ring of 2 ^ 16 ids.
abbrev pub distance : ℕ → ℕ → ℕ
distance a b = (b + 2 ^ 16 - a) % 2 ^ 16

-- What a peer of a Chord ring is responsible for: the ids after its predecessor's, up to and with
-- its own; all of them if it is alone.
abbrev pub InArc : ℕ → ℕ → ℕ → Type 0
InArc pred_id peer_id hash_id =
    (pred_id ≡ peer_id)
    ⊎ ((0 < distance pred_id hash_id) × (distance pred_id hash_id ≤ distance pred_id peer_id))

-- peer_is_responsible answers 1 just for the ids of the peer's arc that are greater than the
-- predecessor's id, and for none if the peer is its own predecessor. So the ids of an arc that runs
-- over the top, from 0 to the peer's id, are left out.
pub peer_is_responsible_iff :
    (pred_id peer_id hash_id : ℕ)
    → pred_id < 2 ^ 16
    → peer_id < 2 ^ 16
    → hash_id < 2 ^ 16
    → (peer_is_responsible pred_id peer_id hash_id ≡ 1)
      ↔ (InArc pred_id peer_id hash_id × (pred_id < hash_id) × (pred_id ≢ peer_id))
unfolding peer_is_responsible
peer_is_responsible_iff pred_id peer_id hash_id hp hs hh = (
  λ e. (inr (ground arith, ground arith), ground arith, ground arith),
  λ (arc, above, ne). elim arc [ inl alone ↦ absurd (ne alone) | inr (pos, near) ↦ ground arith ],
)

pub peer_is_responsible_cases :
    (pred_id peer_id hash_id : ℕ)
    → (peer_is_responsible pred_id peer_id hash_id ≡ 1)
      ⊎ (peer_is_responsible pred_id peer_id hash_id ≡ 0)
unfolding peer_is_responsible
peer_is_responsible_cases pred_id peer_id hash_id = ground arith

-- The peers that answer for a hash id, where each has the one before it as its predecessor.
pub owners : ℕ → List ℕ → ℕ → List ℕ
owners pred_id [] hash_id = []
owners pred_id (peer_id ∷ ids) hash_id =
    let rest = owners peer_id ids hash_id in
    if peer_is_responsible pred_id peer_id hash_id == 1 then peer_id ∷ rest else rest

-- Ids in ascending order, all above `low`, and the last of them.
abbrev pub Ascends : ℕ → List ℕ → Type 0
Ascends low [] = Unit
Ascends low (x ∷ xs) = (low < x) × Ascends x xs

abbrev pub last_of : ℕ → List ℕ → ℕ
last_of x [] = x
last_of x (y ∷ ys) = last_of y ys

-- The ring of the peers `first ∷ others`: the predecessor of the first is the last.
abbrev pub ring_owners : ℕ → List ℕ → ℕ → List ℕ
ring_owners first others hash_id = owners (last_of first others) (first ∷ others) hash_id

last_of-ge : (x : ℕ) (xs : List ℕ) → Ascends x xs → x ≤ last_of x xs
last_of-ge x [] a = omega arith
last_of-ge x (y ∷ ys) (lt, a) = omega (arith, last_of-ge y ys a)

owners_below : (p : ℕ) (ids : List ℕ) (h : ℕ) → Ascends p ids → h ≤ p → owners p ids h ≡ []
unfolding owners peer_is_responsible
owners_below p [] h a le = refl
owners_below p (x ∷ xs) h (lt, a) le = ground (arith, owners_below x xs h a (omega arith))

owners_above :
    (p : ℕ) (ids : List ℕ) (h : ℕ) → Ascends p ids → last_of p ids < h → owners p ids h ≡ []
unfolding owners peer_is_responsible
owners_above p [] h a gt = refl
owners_above p (x ∷ xs) h (lt, a) gt = ground (arith, owners_above x xs h a gt, last_of-ge x xs a)

owners_inside :
    (p : ℕ) (ids : List ℕ) (h : ℕ)
    → Ascends p ids
    → p < h
    → h ≤ last_of p ids
    → length (owners p ids h) ≡ 1
unfolding owners peer_is_responsible
owners_inside p [] h a gt le = absurd (omega arith)
owners_inside p (x ∷ xs) h (lt, a) gt le =
    ground (arith, owners_below x xs h a, owners_inside x xs h a)

-- The first peer of a ring answers only for the ids above the last peer's.
first_answers : (first last h : ℕ) → first < last → last < h → peer_is_responsible last first h ≡ 1
unfolding peer_is_responsible
first_answers first last h lt top = ground arith

first_silent : (first last h : ℕ) → first < last → h ≤ last → peer_is_responsible last first h ≡ 0
unfolding peer_is_responsible
first_silent first last h lt low = ground arith

pub owners-cons_in :
    (p x : ℕ) (xs : List ℕ) (h : ℕ)
    → peer_is_responsible p x h ≡ 1
    → owners p (x ∷ xs) h ≡ x ∷ owners x xs h
unfolding owners
owners-cons_in p x xs h e = rw e refl

pub owners-cons_out :
    (p x : ℕ) (xs : List ℕ) (h : ℕ)
    → peer_is_responsible p x h ≡ 0
    → owners p (x ∷ xs) h ≡ owners x xs h
unfolding owners
owners-cons_out p x xs h e = rw e refl

pub owners-nil : (p h : ℕ) → owners p [] h ≡ []
unfolding owners
owners-nil p h = refl

pub owners-append :
    (p : ℕ) (xs ys : List ℕ) (h : ℕ)
    → owners p (xs ++ ys) h ≡ owners p xs h ++ owners (last_of p xs) ys h
owners-append p [] ys h = rw (owners-nil p h) refl
owners-append p (x ∷ xs) ys h = elim (peer_is_responsible_cases p x h) [
  | inl its ↦
      rw (owners-cons_in p x (xs ++ ys) h its, owners-cons_in p x xs h its, owners-append x xs ys h)
        refl
  | inr other ↦
      rw (owners-cons_out p x (xs ++ ys) h other, owners-cons_out p x xs h other)
        (owners-append x xs ys h)
]

-- In a ring of at least two peers, every hash id above the lowest peer's id has just one peer that
-- answers for it, and every other hash id has none.
pub length-ring_owners :
    (first second : ℕ) (others : List ℕ) (h : ℕ)
    → Ascends first (second ∷ others)
    → length (ring_owners first (second ∷ others) h) ≡ (if ltb first h then 1 else 0)
length-ring_owners first second others h a = elim (dec_lt first h) [
  | no low ↦
      rw
        (
          owners-cons_out last first rest h
              (first_silent first last h above (omega (arith, above))),
          owners_below first rest h a (omega arith),
        )
        (ground arith)
  | yes high ↦ elim (dec_lt last h) [
    | yes top ↦
        rw
          (
            owners-cons_in last first rest h (first_answers first last h above top),
            owners_above first rest h a top,
          )
          (ground arith)
    | no inside ↦
        rw
          (
            owners-cons_out last first rest h (first_silent first last h above (omega arith)),
            owners_inside first rest h a high (omega arith),
          )
          (ground arith)
  ]
]
  where
    rest : List ℕ
    rest = second ∷ others

    last : ℕ
    last = last_of first rest

    above : first < last
    above = omega (arith, a.0, last_of-ge second others a.1)
