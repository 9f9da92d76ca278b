-- ===== src/HashTable/History.antt =====
-- Any sequence of calls of praxis2/src/hash_table.c, against a map.
use rn.Prelude.{
  ℕ, ◌≡◌, refl, ap, ◌∙◌, List, [], ◌∷◌, Option, none, some, arith, length, take, take_all, Exec, ok,
  ◌>>=◌,
}
use mathlib.Core.Path.{fun_ext}
use mathlib.Core.Logic.{ite}
use mathlib.Core.Option
use rn.Uthash.{Uthash}
use rn.HashTable.{entry_key, htable_set, htable_get, htable_delete}
use rn.HashTable.Store.{
  stored, entry_value, bytes-discrete, htable_set_lem, htable_delete_lem, htable_get_lem,
}

-- A call with its bytes.
pub data Call : Type 0 where
  sets : List ℕ → List ℕ → Call
  gets : List ℕ → Call
  deletes : List ℕ → Call

-- The map of a store, and what each call does to it.
abbrev pub Store : Type 0
Store = List ℕ → Option (List ℕ)

abbrev pub bind_key : List ℕ → Option (List ℕ) → Store → Store
bind_key k v s j = ite (bytes-discrete j k) v (s j)

-- The replies of the `gets` in a history, by the map.
pub expected : Store → List Call → List (Option (List ℕ))
expected s [] = []
expected s (sets k v ∷ calls) = expected (bind_key k (some v) s) calls
expected s (gets k ∷ calls) = s k ∷ expected s calls
expected s (deletes k ∷ calls) = expected (bind_key k none s) calls

exact : (k : List ℕ) → take (length k) k ≡ k
exact k = take_all (length k) k (omega arith)

module _ (ut : Uthash entry_key) where
  open ut use {Table}

  -- The same by the C functions, each called with a pointer to its bytes.
  pub replies : Table → List Call → Exec (List (Option (List ℕ)))
  replies ht [] = ok []
  replies ht (sets k v ∷ calls) = do
    after ← htable_set ut ht (some k) (length k) (some v) (length v)
    replies after calls
  replies ht (gets k ∷ calls) = do
    entry ← htable_get ut ht (some k) (length k)
    rest ← replies ht calls
    ok (Option.map entry_value entry ∷ rest)
  replies ht (deletes k ∷ calls) = do
    after ← htable_delete ut ht (some k) (length k)
    replies after calls

  -- A table whose lookups are those of the map goes on as the map does.
  goes_on :
      (s : Store) (calls : List Call) (start : Exec Table)
      → ((ht : Table) → replies ht calls ≡ ok (expected (stored ut ht) calls))
      → (after : Table) × (start ≡ ok after) × ((j : List ℕ) → stored ut after j ≡ s j)
      → (start >>= λ ht. replies ht calls) ≡ ok (expected s calls)
  goes_on s calls start ih (after, run, now) =
      rw run (ih after ∙ ap (λ m. ok (expected m calls)) (fun_ext now))

  -- No sequence of sets, gets and deletes tells the table from the map of what it stores: none of
  -- them faults, and every get replies with the value that was set last under its key and not
  -- deleted since.
  pub replies_lem :
      (calls : List Call) (ht : Table) → replies ht calls ≡ ok (expected (stored ut ht) calls)
  unfolding replies expected
  replies_lem [] ht = refl
  replies_lem (sets k v ∷ calls) ht =
      goes_on (bind_key k (some v) (stored ut ht)) calls _ (replies_lem calls) (
        rw (exact k, exact v) at
          (htable_set_lem ut ht (some k) (length k) (some v) (length v) (omega arith)
            (omega arith)))
  replies_lem (gets k ∷ calls) ht =
      rw (htable_get_lem ut ht (some k) (length k) (omega arith), replies_lem calls ht, exact k)
        refl
  replies_lem (deletes k ∷ calls) ht =
      goes_on (bind_key k none (stored ut ht)) calls _ (replies_lem calls)
        (rw (exact k) at (htable_delete_lem ut ht (some k) (length k) (omega arith)))
