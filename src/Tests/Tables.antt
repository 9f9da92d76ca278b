-- ===== src/Tests/Tables.antt =====
-- Tests of hash_table.c, requests.c and the ring arithmetic of neighbour.c.
use rn.Prelude.{ℕ, ◌≡◌, ◌≢◌, ◌<◌, ◌↔◌, sym, ◌∙◌, List, [], ◌∷◌, none, some, arith, length, ok}
use native.Mathlib.Decide.{ℕ_discrete}
use rn.Packet.{Packet, packet_new}
use rn.Packet.Copy.{copy_of}
use rn.Uthash.{Uthash}
use rn.Uthash.Listed.{listed}
use rn.HashTable.{Htable, entry_key}
use rn.HashTable.Store.{bytes-discrete, stored}
use rn.HashTable.History.{Call, sets, gets, deletes, replies, expected, replies_lem}
use rn.Requests.{Rtable, rtable_key, add_request, get_requests, clear_requests}
use rn.Requests.Waiting.{NoneEmpty, Added, add_request_lem, clear_requests_lem}
use rn.Neighbour.{peer_is_responsible}
use rn.Neighbour.Responsible.{InArc, peer_is_responsible_iff, ring_owners, length-ring_owners}

abbrev store : Uthash entry_key
store = listed entry_key bytes-discrete

abbrev one : Htable
one = record { key = 1 ∷ []; key_len = 1; value = 2 ∷ []; value_len = 1 }

abbrev history : List Call
history =
    gets (1 ∷ []) ∷ sets (1 ∷ []) (7 ∷ []) ∷ gets (1 ∷ []) ∷ deletes (1 ∷ []) ∷ gets (1 ∷ []) ∷ []

replies_lem_example :
    replies store (one ∷ []) history ≡ ok (expected (stored store (one ∷ [])) history)
replies_lem_example = replies_lem store history (one ∷ [])

abbrev waiting : Uthash rtable_key
waiting = listed rtable_key ℕ_discrete

abbrev queue : List Rtable
queue =
    record { hash_id = 4; open_requests = record { packet = packet_new; socket = some 6 } ∷ [] }
    ∷ []

clear_requests_lem_example : get_requests waiting (clear_requests waiting queue 4) 4 ≡ []
unfolding ℕ_discrete
clear_requests_lem_example = clear_requests_lem waiting queue 4 4

abbrev asked : Packet
asked = record packet_new { flags = 4; key_len = 1; key = some (8 ∷ []) }

none_queued : NoneEmpty waiting []
none_queued k e found =
    let nothing : none ≡ some e = sym (waiting.find-empty k) ∙ found in ground (arith, nothing)

add_request_lem_example :
    (after : List Rtable) × (add_request waiting [] 4 (some 6) asked ≡ ok after)
    × Added waiting [] 4 (record { packet = copy_of asked; socket = some 6 }) after
add_request_lem_example =
    add_request_lem waiting [] 4 (some 6) asked none_queued (omega arith) (omega arith)

peer_is_responsible_iff_example :
    (peer_is_responsible 60000 10 60001 ≡ 1)
    ↔ (InArc 60000 10 60001 × (60000 < 60001) × (◌≢◌ {A = ℕ} 60000 10))
peer_is_responsible_iff_example =
    peer_is_responsible_iff 60000 10 60001 (omega arith) (omega arith) (omega arith)

length-ring_owners_example : length (ring_owners 10 (500 ∷ 60000 ∷ []) 501) ≡ 1
length-ring_owners_example = length-ring_owners 10 500 (60000 ∷ []) 501 (omega arith)
