-- ===== src/Requests.antt =====
-- praxis2/src/requests.c and praxis2/include/requests.h: the requests that wait for the answer to a
-- lookup, in a list for each hash id, over uthash.
pub mod Waiting
use rn.Prelude.{ℕ, Option, none, some, List, [], ◌∷◌, Exec, ok, fault, ◌>>=◌}
use rn.Packet.{Packet, packet_dup}
use rn.Uthash.{Uthash}

-- `struct _request`; the `next` pointers are the list.
pub record Request : Type 0 where
  pub packet : Packet
  pub socket : Option ℕ

-- `struct _rtable`
pub record Rtable : Type 0 where
  pub hash_id : ℕ
  pub open_requests : List Request

abbrev pub rtable_key : Rtable → ℕ
rtable_key e = e.hash_id

-- `for (re = open_requests; re->next != NULL; re = re->next); re->next = r;`
pub link_last : List Request → Request → Exec (List Request)
link_last [] r = fault
link_last (re ∷ []) r = ok (re ∷ r ∷ [])
link_last (re ∷ next ∷ more) r = do linked ← link_last (next ∷ more) r; ok (re ∷ linked)

module _ (ut : Uthash rtable_key) where
  open ut use {Table, hash_find, hash_add, hash_del, hash_write}

  add_found : Table → ℕ → Request → Option Rtable → Exec Table
  add_found table hash_id r (some existing) = do
    linked ← link_last existing.open_requests r
    ok (hash_write table existing (record existing { open_requests = linked }))
  add_found table hash_id r none =
      ok (hash_add table (record { hash_id = hash_id; open_requests = r ∷ [] }))

  pub add_request : Table → ℕ → Option ℕ → Packet → Exec Table
  add_request table hash_id socket packet = do
    copy ← packet_dup packet
    add_found table hash_id (record { packet = copy; socket = socket }) (hash_find table hash_id)

  unfoldable pub requests_of : Option Rtable → List Request
  requests_of none = []
  requests_of (some existing) = existing.open_requests

  -- NULL is the empty list.
  unfoldable pub get_requests : Table → ℕ → List Request
  unfolding requests_of
  get_requests table hash_id = requests_of (hash_find table hash_id)

  clear_found : Table → Option Rtable → Table
  clear_found table none = table
  clear_found table (some existing) = hash_del table existing

  pub clear_requests : Table → ℕ → Table
  unfolding clear_found
  clear_requests table hash_id = clear_found table (hash_find table hash_id)
