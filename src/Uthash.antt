-- ===== src/Uthash.antt =====
-- praxis2/include/uthash.h, a library that the program includes: what the macros HASH_FIND,
-- HASH_ADD (HASH_ADD_KEYPTR) and HASH_DEL promise by its documentation. A table is held by its head
-- pointer; an item is the program's own struct, and is found by the bytes of its key. The program
-- may change an item that it has found, but for the key: `hash_write` is that assignment.
pub mod Listed
use rn.Prelude.{Option, none, some, ◌≡◌, ◌≢◌}

pub record Uthash {K : Type 0} {V : Type 0} (key_of : V → K) : Type 1 where
  pub Table : Type 0
  -- the head pointer NULL
  pub empty : Table
  pub hash_find : Table → K → Option V
  pub hash_add : Table → V → Table
  pub hash_del : Table → V → Table
  pub hash_write : Table → V → V → Table
  pub find-empty : (k : K) → hash_find empty k ≡ none
  pub find_key : (t : Table) (k : K) (v : V) → hash_find t k ≡ some v → key_of v ≡ k
  -- An item is added only where none has its key.
  pub find-add_self :
      (t : Table) (v : V)
      → hash_find t (key_of v) ≡ none
      → hash_find (hash_add t v) (key_of v) ≡ some v
  pub find-add_ne :
      (t : Table) (v : V) (k : K)
      → hash_find t (key_of v) ≡ none
      → k ≢ key_of v
      → hash_find (hash_add t v) k ≡ hash_find t k
  -- Only an item of the table is deleted.
  pub find-del_self :
      (t : Table) (v : V)
      → hash_find t (key_of v) ≡ some v
      → hash_find (hash_del t v) (key_of v) ≡ none
  pub find-del_ne :
      (t : Table) (v : V) (k : K)
      → hash_find t (key_of v) ≡ some v
      → k ≢ key_of v
      → hash_find (hash_del t v) k ≡ hash_find t k
  -- A found item is changed under the same key.
  pub find-write_self :
      (t : Table) (v w : V)
      → hash_find t (key_of v) ≡ some v
      → key_of w ≡ key_of v
      → hash_find (hash_write t v w) (key_of v) ≡ some w
  pub find-write_ne :
      (t : Table) (v w : V) (k : K)
      → hash_find t (key_of v) ≡ some v
      → key_of w ≡ key_of v
      → k ≢ key_of v
      → hash_find (hash_write t v w) k ≡ hash_find t k
