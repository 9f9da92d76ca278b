-- ===== src/HashTable/Store.antt =====
-- praxis2/src/hash_table.c as a map from keys to values: what a lookup gives after each operation,
-- and after any sequence of them.
use rn.Prelude.{
  ℕ, ◌≡◌, ◌≢◌, refl, sym, ap, ◌∙◌, List, Option, none, some, arith, take, take_all, ok,
  read_ptr_lem, bytes, Readable, length-bytes, inl, inr, Option-cases,
}
use mathlib.Core.Logic.{ite, if_pos, if_neg}
use native.Mathlib.Decide.{ℕ_discrete}
use mathlib.Core.Option
use rn.Uthash.{Uthash}
use rn.HashTable.{Htable, entry_key, htable_set, htable_get, htable_delete, delete_found}

pub bytes-discrete : Discrete (List ℕ)
bytes-discrete = hlevel ℕ_discrete

-- The value of an entry.
abbrev pub entry_value : Htable → List ℕ
entry_value e = take e.value_len e.value

abbrev pub new_entry : List ℕ → ℕ → List ℕ → ℕ → Htable
new_entry k n v m = record { key = k; key_len = n; value = v; value_len = m }

module _ (ut : Uthash entry_key) where
  open ut use {Table, hash_find, hash_add, hash_del}

  -- What the table holds under a key.
  abbrev pub stored : Table → List ℕ → Option (List ℕ)
  stored ht k = Option.map entry_value (hash_find ht k)

  abbrev without : Table → List ℕ → Table
  without ht k = delete_found ut ht (hash_find ht k)

  find-without_self : (ht : Table) (k : List ℕ) → hash_find (without ht k) k ≡ none
  find-without_self ht k = elim (Option-cases (hash_find ht k)) [
    | inl missing ↦ rw (missing, without, delete_found) missing
    | inr (e, found) ↦
        let same : entry_key e ≡ k = ut.find_key ht k e found in
        rw (found, without, delete_found)
          (rw same at (ut.find-del_self ht e (rw (← same) at found)))
  ]

  find-without_ne :
      (ht : Table) (k j : List ℕ) → j ≢ k → hash_find (without ht k) j ≡ hash_find ht j
  find-without_ne ht k j ne = elim (Option-cases (hash_find ht k)) [
    | inl missing ↦ rw (missing, without, delete_found) refl
    | inr (e, found) ↦
        let same : entry_key e ≡ k = ut.find_key ht k e found in
        rw (found, without, delete_found)
          (ut.find-del_ne ht e j (rw (← same) at found) (λ q. ne (q ∙ same)))
  ]

  module _ (ht : Table) (key : Option (List ℕ)) (n : ℕ) (value : Option (List ℕ)) (m : ℕ)
      (hk : Readable key n) (hv : Readable value m) where
    -- htable_set makes an entry of copies, which is found under its key, and changes no other key.
    pub find-htable_set :
        (after : Table) × (htable_set ut ht key n value m ≡ ok after)
        × ((j : List ℕ)
            → hash_find after j
              ≡ ite
                  (bytes-discrete j (bytes key n))
                  (some (new_entry (bytes key n) n (bytes value m) m))
                  (hash_find ht j))
    unfolding htable_set
    find-htable_set = (
      hash_add (without ht k) entry,
      rw (read_ptr_lem key n hk, read_ptr_lem value m hv) refl,
      λ j. elim (bytes-discrete j k) [
        | yes e ↦ rw (if_pos _ e) (
            ap (hash_find (hash_add (without ht k) entry)) (e ∙ sym entry_has_key)
            ∙ ut.find-add_self (without ht k) entry free)
        | no ne ↦ rw (if_neg _ ne) (
            ut.find-add_ne (without ht k) entry j free (λ e. ne (e ∙ entry_has_key))
            ∙ find-without_ne ht k j ne)
      ],
    )
      where
        k : List ℕ
        k = bytes key n

        entry : Htable
        entry = new_entry k n (bytes value m) m

        entry_has_key : entry_key entry ≡ k
        entry_has_key = take_all n k (omega (arith, length-bytes key n hk))

        free : hash_find (without ht k) (entry_key entry) ≡ none
        free = rw entry_has_key (find-without_self ht k)

    -- htable_set of bytes that can be read stores the value under the key, and leaves every other
    -- key as it was.
    pub htable_set_lem :
        (after : Table) × (htable_set ut ht key n value m ≡ ok after)
        × ((j : List ℕ)
            → stored after j
              ≡ ite (bytes-discrete j (bytes key n)) (some (bytes value m)) (stored ht j))
    htable_set_lem =
        let (after, run, found) = find-htable_set in
        (
          after,
          run,
          λ j. ap (Option.map entry_value) (found j) ∙ elim (bytes-discrete j (bytes key n)) [
            | yes e ↦ rw (if_pos _ e, if_pos _ e) (ap some value_kept)
            | no ne ↦ rw (if_neg _ ne, if_neg _ ne) refl
          ],
        )
      where
        value_kept : take m (bytes value m) ≡ bytes value m
        value_kept = take_all m (bytes value m) (omega (arith, length-bytes value m hv))

    -- The entry that htable_set makes is the one that is found under its key.
    pub find-set :
        (after : Table) × (htable_set ut ht key n value m ≡ ok after)
        × (hash_find after (bytes key n) ≡ some (new_entry (bytes key n) n (bytes value m) m))
    find-set =
        let (after, run, found) = find-htable_set in
        (
          after,
          run,
          found (bytes key n) ∙ if_pos (bytes-discrete (bytes key n) (bytes key n)) refl _ _,
        )

  -- htable_delete leaves no entry under the key, and every other key as it was.
  pub find-htable_delete :
      (ht : Table) (key : Option (List ℕ)) (n : ℕ)
      → Readable key n
      → (after : Table) × (htable_delete ut ht key n ≡ ok after)
        × ((j : List ℕ)
            → hash_find after j ≡ ite (bytes-discrete j (bytes key n)) none (hash_find ht j))
  unfolding htable_delete
  find-htable_delete ht key n hk = (
    without ht (bytes key n),
    rw (read_ptr_lem key n hk) refl,
    λ j. elim (bytes-discrete j (bytes key n)) [
      | yes e ↦ rw (if_pos _ e) (rw e (find-without_self ht (bytes key n)))
      | no ne ↦ rw (if_neg _ ne) (find-without_ne ht (bytes key n) j ne)
    ],
  )

  -- htable_delete leaves nothing under the key, and every other key as it was.
  pub htable_delete_lem :
      (ht : Table) (key : Option (List ℕ)) (n : ℕ)
      → Readable key n
      → (after : Table) × (htable_delete ut ht key n ≡ ok after)
        × ((j : List ℕ) → stored after j ≡ ite (bytes-discrete j (bytes key n)) none (stored ht j))
  htable_delete_lem ht key n hk =
      let (after, run, found) = find-htable_delete ht key n hk in
      (
        after,
        run,
        λ j. ap (Option.map entry_value) (found j) ∙ elim (bytes-discrete j (bytes key n)) [
          | yes e ↦ rw (if_pos _ e, if_pos _ e) refl
          | no ne ↦ rw (if_neg _ ne, if_neg _ ne) refl
        ],
      )

  -- htable_get finds the entry that is stored under the key, if there is one.
  pub htable_get_lem :
      (ht : Table) (key : Option (List ℕ)) (n : ℕ)
      → Readable key n
      → htable_get ut ht key n ≡ ok (hash_find ht (bytes key n))
  unfolding htable_get
  htable_get_lem ht key n hk = rw (read_ptr_lem key n hk) refl
