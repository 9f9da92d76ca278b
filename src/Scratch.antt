-- ===== src/Scratch.antt =====
-- praxis2/include/scratch1.c: what its authors try the modules out with. Printing is what printf
-- reads; the number test_peer_is_responsible takes as `desired_output` is 0 or 1.
pub mod Printing
use rn.Prelude.{
  ℕ, ◌+◌, Option, none, some, List, Exec, ok, ◌>>=◌, deref, slice, read_ptr, print_text, ◌==◌,
  if◌then◌else◌,
}
use rn.Packet.{Packet}
use rn.HashTable.{Htable}
use rn.Neighbour.{peer_is_responsible}

-- The entry holds copies of the key and the value, and no handle of uthash yet.
pub create_entry : Option (List ℕ) → ℕ → Option (List ℕ) → ℕ → Exec Htable
create_entry key key_len value value_len = do
  key_copy ← read_ptr key key_len
  value_copy ← read_ptr value value_len
  ok (record { key = key_copy; key_len = key_len; value = value_copy; value_len = value_len })

-- HASH_VALUE reads the bytes of the key.
pub print_table_entry : Htable → Exec (Unit {0})
print_table_entry entry = do
  key ← print_text entry.key
  value ← print_text entry.value
  hashed ← slice entry.key 0 entry.key_len
  ok tt

-- `if (len <= 0) … else printf("…%s", text)`
pub print_field : Option (List ℕ) → ℕ → Exec (Unit {0})
print_field text len = if len == 0 then ok tt else (do bytes ← deref text; print_text bytes)

pub print_packet : Packet → Exec (Unit {0})
print_packet p = do key ← print_field p.key p.key_len; print_field p.value p.value_len

unfoldable pub test_peer_is_responsible : ℕ → ℕ → ℕ → ℕ → ℕ
test_peer_is_responsible pred_id peer_id hash_id desired_output =
    if peer_is_responsible pred_id peer_id hash_id == desired_output then 1 else 0

-- `if (test_result == 0) all_ok = 0`
unfoldable pub judge : ℕ → ℕ → ℕ
judge all_ok test_result = if test_result == 0 then 0 else all_ok

abbrev pub all_tests_peer_is_responsible : ℕ
all_tests_peer_is_responsible =
    judge
      (judge
        (judge (judge 1 (test_peer_is_responsible 138 202 111 0))
          (test_peer_is_responsible 202 10 111 0))
        (test_peer_is_responsible 10 74 111 0))
      (test_peer_is_responsible 74 138 111 1)
