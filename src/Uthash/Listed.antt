-- ===== src/Uthash/Listed.antt =====
-- A list of items meets what is asked of praxis2/include/uthash.h: the promises can be kept.
use rn.Prelude.{Option, none, some, ◌≡◌, ◌≢◌, refl, sym, List, [], ◌∷◌, arith}
use mathlib.Core.Logic.{ite, if_pos, if_neg}
use rn.Uthash.{Uthash}

module _ {K : Type 0} {V : Type 0} (key_of : V → K) (same : Discrete K) where
  unfoldable pub find : List V → K → Option V
  find [] k = none
  find (v ∷ vs) k = ite (same (key_of v) k) (some v) (find vs k)

  unfoldable pub delete : List V → V → List V
  delete [] v = []
  delete (w ∷ ws) v = ite (same (key_of w) (key_of v)) (delete ws v) (w ∷ delete ws v)

  unfoldable pub write : List V → V → V → List V
  write [] v w = []
  write (x ∷ xs) v w = ite (same (key_of x) (key_of v)) (w ∷ xs) (x ∷ write xs v w)

  pub find-key : (t : List V) (k : K) (v : V) → find t k ≡ some v → key_of v ≡ k
  unfolding find
  find-key [] k v e = cc
  find-key (w ∷ ws) k v e = elim (same (key_of w) k) [
    | yes p ↦ let here : some w ≡ some v = rw (if_pos (same (key_of w) k) p) at e in cc
    | no p ↦ find-key ws k v (rw (if_neg (same (key_of w) k) p) at e)
  ]

  pub find-delete_self : (t : List V) (v : V) → find (delete t v) (key_of v) ≡ none
  unfolding find delete
  find-delete_self [] v = refl
  find-delete_self (w ∷ ws) v = elim (same (key_of w) (key_of v)) [
    | yes p ↦ rw (if_pos _ p) (find-delete_self ws v)
    | no p ↦ rw (if_neg _ p) (rw (if_neg _ p) (find-delete_self ws v))
  ]

  pub find-delete_ne : (t : List V) (v : V) (k : K) → k ≢ key_of v → find (delete t v) k ≡ find t k
  unfolding find delete
  find-delete_ne [] v k ne = refl
  find-delete_ne (w ∷ ws) v k ne = ground (arith, find-delete_ne ws v k ne)

  pub find-write_self :
      (t : List V) (v w : V)
      → find t (key_of v) ≡ some v
      → key_of w ≡ key_of v
      → find (write t v w) (key_of v) ≡ some w
  unfolding find write
  find-write_self [] v w e kw = cc
  find-write_self (x ∷ xs) v w e kw = elim (same (key_of x) (key_of v)) [
    | yes p ↦ rw (if_pos _ p) (if_pos (same (key_of w) (key_of v)) kw _ _)
    | no p ↦ rw (if_neg _ p) (rw (if_neg _ p) (find-write_self xs v w (rw (if_neg _ p) at e) kw))
  ]

  pub find-write_ne :
      (t : List V) (v w : V) (k : K)
      → key_of w ≡ key_of v
      → k ≢ key_of v
      → find (write t v w) k ≡ find t k
  unfolding find write
  find-write_ne [] v w k kw ne = refl
  find-write_ne (x ∷ xs) v w k kw ne = ground (arith, find-write_ne xs v w k kw ne)

  pub find-cons_self : (t : List V) (v : V) → find (v ∷ t) (key_of v) ≡ some v
  unfolding find
  find-cons_self t v = if_pos (same (key_of v) (key_of v)) refl _ _

  pub find-cons_ne : (t : List V) (v : V) (k : K) → k ≢ key_of v → find (v ∷ t) k ≡ find t k
  unfolding find
  find-cons_ne t v k ne = if_neg (same (key_of v) k) (λ e. ne (sym e)) _ _

  pub find-nil : (k : K) → find [] k ≡ none
  unfolding find
  find-nil k = refl

  abbrev pub listed : Uthash key_of
  listed = record {
    Table = List V;
    empty = [];
    hash_find = find;
    hash_add = λ t v. v ∷ t;
    hash_del = delete;
    hash_write = write;
    find-empty = find-nil;
    find_key = find-key;
    find-add_self = λ t v h. find-cons_self t v;
    find-add_ne = λ t v k h ne. find-cons_ne t v k ne;
    find-del_self = λ t v h. find-delete_self t v;
    find-del_ne = λ t v k h ne. find-delete_ne t v k ne;
    find-write_self = find-write_self;
    find-write_ne = λ t v w k h. find-write_ne t v w k;
  }
