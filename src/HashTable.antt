-- ===== src/HashTable.antt =====
-- praxis2/src/hash_table.c and praxis2/include/hash_table.h: the store of a peer, over uthash.
pub mod Store
pub mod History
use rn.Prelude.{ℕ, Option, none, some, List, Exec, ok, ◌>>=◌, read_ptr, take}
use rn.Uthash.{Uthash}

-- `struct htable`, without the handle that belongs to uthash. The two blocks are never NULL.
pub record Htable : Type 0 where
  pub key : List ℕ
  pub key_len : ℕ
  pub value : List ℕ
  pub value_len : ℕ

-- An item is found by the `key_len` bytes of its key.
abbrev pub entry_key : Htable → List ℕ
entry_key e = take e.key_len e.key

module _ (ut : Uthash entry_key) where
  open ut use {Table, hash_find, hash_add, hash_del}

  -- `if (entry != NULL) { HASH_DEL(*ht, entry); … free … }`
  abbrev pub delete_found : Table → Option Htable → Table
  delete_found ht none = ht
  delete_found ht (some entry) = hash_del ht entry

  -- The old entry of the key is deleted, and a new one is made of copies.
  pub htable_set : Table → Option (List ℕ) → ℕ → Option (List ℕ) → ℕ → Exec Table
  htable_set ht key key_len value value_len = do
    sought ← read_ptr key key_len
    let without = delete_found ht (hash_find ht sought)
    key_copy ← read_ptr key key_len
    value_copy ← read_ptr value value_len
    ok (
        hash_add without
          (record { key = key_copy; key_len = key_len; value = value_copy; value_len = value_len }))

  pub htable_get : Table → Option (List ℕ) → ℕ → Exec (Option Htable)
  htable_get ht key key_len = do sought ← read_ptr key key_len; ok (hash_find ht sought)

  -- The result of the C function is 0 in every case.
  pub htable_delete : Table → Option (List ℕ) → ℕ → Exec Table
  htable_delete ht key key_len = do
    sought ← read_ptr key key_len
    ok (delete_found ht (hash_find ht sought))
