-- ===== src/Peer/Handlers/Effects.antt =====
-- What a served request says and does of praxis2/src/peer.c: the reply to a GET, and the store
-- behind a SET.
use rn.Prelude.{
  ℕ, ◌≡◌, refl, sym, ap, ◌∙◌, Exec, true, false, Option, none, some, List, [], ok, Allocator, bytes,
  bit_or, as_string,
}
use mathlib.Core.Option.{some-injective}
use mathlib.Core.Logic.{ite}
use mathlib.Core.Path.{subst}
use rn.Packet.{Packet, packet_new, pkt_flag_ack, pkt_flag_get, pkt_flag_set}
use rn.Packet.Message.{IsPacket, message, request}
use rn.Uthash.{Uthash}
use rn.HashTable.{entry_key}
use rn.HashTable.Store.{bytes-discrete, htable_set_lem, stored}
use rn.Requests.{rtable_key}
use rn.Network.{Network}
use rn.Peer.{is_get, is_set}
use rn.Peer.Handlers.{perform}
use rn.Peer.Handlers.Entries.{
  WellStored, found_ack, found_ack-message, perform-found, perform-set, stored_entry,
}
use rn.Peer.Handlers.Serving.{Acknowledges}

module _ (heap : Allocator) (net : Network) (htu : Uthash entry_key) (rtu : Uthash rtable_key)
    (fuel : ℕ) where
  open htu use {Table, hash_find}

  abbrev ack_of : Exec (Packet × Table) → Packet
  ack_of (ok (ack, after)) = ack
  ack_of _ = packet_new

  -- What any acknowledgement of a GET says where a value is stored under the key.
  pub get_reply_lem :
      (ht : Table) (p : Packet) (v : List ℕ) (a : Acknowledges heap net htu rtu fuel ht p)
      → is_get p.flags ≡ true
      → IsPacket p
      → WellStored htu ht
      → stored htu ht (bytes p.key p.key_len) ≡ some v
      → message a.ack
        ≡ request
            (bit_or pkt_flag_get pkt_flag_ack)
            (as_string (bytes p.key p.key_len))
            (as_string v)
  get_reply_lem ht p v a get is_packet well there =
      let (e, found, same) =
        stored_entry heap net htu rtu fuel ht (bytes p.key p.key_len) v there in
      let told : ack_of (perform heap net htu rtu fuel ht p) ≡ found_ack heap net htu rtu fuel e =
        ap ack_of
          (perform-found heap net htu rtu fuel ht p e get is_packet (well _ e found) found) in
      ap message (sym (ap ack_of a.run) ∙ told)
      ∙ found_ack-message heap net htu rtu fuel (bytes p.key p.key_len) e
          (htu.find_key ht (bytes p.key p.key_len) e found) (well (bytes p.key p.key_len) e found)
      ∙ ap
          (λ x.
            request (bit_or pkt_flag_get pkt_flag_ack) (as_string (bytes p.key p.key_len))
              (as_string x))
          same

  abbrev store_of : Exec (Packet × Table) → Option Table
  store_of (ok (ack, after)) = some after
  store_of _ = none

  -- The store behind any acknowledgement of a SET.
  pub set_stored_lem :
      (ht : Table) (p : Packet) (a : Acknowledges heap net htu rtu fuel ht p)
      → is_get p.flags ≡ false
      → is_set p.flags ≡ true
      → IsPacket p
      → (j : List ℕ)
      → stored htu a.after j
        ≡ ite
            (bytes-discrete j (bytes p.key p.key_len))
            (some (bytes p.value p.value_len))
            (stored htu ht j)
  set_stored_lem ht p a not_get set v j =
      let (after, run, found) =
        htable_set_lem htu ht p.key p.key_len p.value p.value_len v.key_readable v.value_readable in
      let same : after ≡ a.after = some-injective after a.after (
        sym (ap store_of (perform-set heap net htu rtu fuel ht after p not_get set run))
        ∙ ap store_of a.run) in
      subst
        (λ t.
          stored htu t j
          ≡ ite (bytes-discrete j (bytes p.key p.key_len)) (some (bytes p.value p.value_len))
              (stored htu ht j))
        same (found j)

  -- What any acknowledgement of a SET says.
  pub set_reply_lem :
      (ht : Table) (p : Packet) (a : Acknowledges heap net htu rtu fuel ht p)
      → is_get p.flags ≡ false
      → is_set p.flags ≡ true
      → IsPacket p
      → message a.ack ≡ request (bit_or pkt_flag_set pkt_flag_ack) [] []
  set_reply_lem ht p a not_get set v =
      let (after, run, found) =
        htable_set_lem htu ht p.key p.key_len p.value p.value_len v.key_readable v.value_readable in
      ap message (
        sym (ap ack_of a.run)
        ∙ ap ack_of (perform-set heap net htu rtu fuel ht after p not_get set run))

  pub is_set-set : (is_get pkt_flag_set ≡ false) × (is_set pkt_flag_set ≡ true)
  unfolding is_get is_set
  is_set-set = (refl, refl)
