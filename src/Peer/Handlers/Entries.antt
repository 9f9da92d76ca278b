-- ===== src/Peer/Handlers/Entries.antt =====
-- The entries of a peer's store, and the answers of handle_own_request of praxis2/src/peer.c to
-- a GET and a SET.
use rn.Prelude.{
  ℕ, ◌<◌, ◌^◌, ◌≡◌, refl, sym, ap, ap₂, ◌∙◌, take_all, length-take, Option-cases, inl, inr, true,
  false, Option, none, some, List, arith, ok, Allocator, bytes, length, bit_or, as_string,
  length-as_string, strncpy_whole, u16, u32,
}
use mathlib.Core.Option
use mathlib.Core.Option.{some-injective}
use mathlib.Core.Logic.{ite, if_pos, if_neg}
use rn.Packet.{Packet, packet_new, pkt_flag_ack, pkt_flag_get, pkt_flag_set}
use rn.Packet.Message.{IsPacket, message, request}
use rn.Uthash.{Uthash}
use rn.HashTable.{Htable, entry_key, htable_set}
use rn.HashTable.Store.{bytes-discrete, htable_get_lem, stored, entry_value}
use rn.Requests.{rtable_key}
use rn.Network.{Network}
use rn.Peer.{get_reply, is_get, is_set}
use rn.Peer.Handlers.{perform}

-- An entry's blocks are as long as it says, and its lengths fit a packet.
pub record GoodEntry (e : Htable) : Type 0 where
  pub key_whole : length e.key ≡ e.key_len
  pub key_small : e.key_len < 2 ^ 16
  pub value_whole : length e.value ≡ e.value_len
  pub value_small : e.value_len < 2 ^ 32

module _ (htu : Uthash entry_key) where
  open htu use {Table, hash_find}

  -- All entries of a store are good.
  abbrev pub WellStored : Table → Type 0
  WellStored ht = (j : List ℕ) (e : Htable) → hash_find ht j ≡ some e → GoodEntry e

  -- A store in which at most the key `k` has changed.
  pub stays_well :
      (ht after : Table) (k : List ℕ) (now : Option Htable)
      → ((j : List ℕ) → hash_find after j ≡ ite (bytes-discrete j k) now (hash_find ht j))
      → ((e : Htable) → now ≡ some e → GoodEntry e)
      → WellStored ht
      → WellStored after
  stays_well ht after k now found good well j e there = elim (bytes-discrete j k) [
    | yes same ↦ good e (sym (if_pos (bytes-discrete j k) same _ _) ∙ sym (found j) ∙ there)
    | no other ↦ well j e (sym (if_neg (bytes-discrete j k) other _ _) ∙ sym (found j) ∙ there)
  ]

module _ (heap : Allocator) (net : Network) (htu : Uthash entry_key) (rtu : Uthash rtable_key)
    (fuel : ℕ) where
  open htu use {Table, hash_find}

  -- The acknowledgement of a GET that finds the entry `e`.
  abbrev pub found_ack : Htable → Packet
  found_ack e = record packet_new {
    flags = bit_or pkt_flag_get pkt_flag_ack;
    key = some (as_string e.key);
    key_len = u16 e.key_len;
    value = some (as_string e.value);
    value_len = u32 e.value_len;
  }

  pub found_ack-message :
      (k : List ℕ) (e : Htable)
      → entry_key e ≡ k
      → GoodEntry e
      → message (found_ack e)
        ≡ request (bit_or pkt_flag_get pkt_flag_ack) (as_string k) (as_string (entry_value e))
  found_ack-message k e same good =
      ap₂ (request (bit_or pkt_flag_get pkt_flag_ack))
        (take_all (u16 e.key_len) (as_string e.key)
            (omega (arith, good.key_small, good.key_whole, length-as_string e.key))
          ∙ ap as_string (sym (take_all e.key_len e.key (omega (arith, good.key_whole))) ∙ same))
        (take_all (u32 e.value_len) (as_string e.value)
            (omega (arith, good.value_small, good.value_whole, length-as_string e.value))
          ∙ ap as_string (sym (take_all e.value_len e.value (omega (arith, good.value_whole)))))

  pub perform-found :
      (ht : Table) (p : Packet) (e : Htable)
      → is_get p.flags ≡ true
      → IsPacket p
      → GoodEntry e
      → hash_find ht (bytes p.key p.key_len) ≡ some e
      → perform heap net htu rtu fuel ht p ≡ ok (found_ack e, ht)
  unfolding perform get_reply
  perform-found ht p e get v good found =
      rw
        (
          get,
          htable_get_lem htu ht p.key p.key_len v.key_readable,
          found,
          strncpy_whole e.key e.key_len good.key_whole,
          strncpy_whole e.value e.value_len good.value_whole,
        )
        refl

  pub perform-set :
      (ht after : Table) (p : Packet)
      → is_get p.flags ≡ false
      → is_set p.flags ≡ true
      → htable_set htu ht p.key p.key_len p.value p.value_len ≡ ok after
      → perform heap net htu rtu fuel ht p
        ≡ ok (record packet_new { flags = bit_or pkt_flag_set pkt_flag_ack }, after)
  unfolding perform
  perform-set ht after p not_get set run = rw (not_get, set, run) refl

  pub stored_entry :
      (ht : Table) (k v : List ℕ)
      → stored htu ht k ≡ some v
      → (e : Htable) × (hash_find ht k ≡ some e) × (entry_value e ≡ v)
  stored_entry ht k v there = elim (Option-cases (hash_find ht k)) [
    | inl missing ↦
        let nothing : none ≡ some v = sym (ap (Option.map entry_value) missing) ∙ there in
        absurd (ground arith)
    | inr (e, found) ↦
        (e, found, some-injective _ _ (sym (ap (Option.map entry_value) found) ∙ there))
  ]

  pub length-stored :
      (ht : Table) (k v : List ℕ) → WellStored htu ht → stored htu ht k ≡ some v → length v < 2 ^ 32
  length-stored ht k v well there =
      let (e, found, same) = stored_entry ht k v there in
      omega (
        arith,
        (well k e found).value_small,
        length-take e.value_len e.value,
        sym (ap (λ (l : List ℕ). length l) same),
      )

  pub is_get-get : is_get pkt_flag_get ≡ true
  unfolding is_get
  is_get-get = refl
