-- ===== src/Peer/Handlers/Answers.antt =====
-- handle_own_request of praxis2/src/peer.c: what a request does to the store, and its answer.
use rn.Prelude.{
  ℕ, ◌≡◌, refl, true, false, none, some, List, arith, ok, Allocator, Readable, bytes, length-bytes,
  ◌==◌, bit_or, as_string, strncpy_whole, ◌<◌, ◌^◌, u16, u32,
}
use rn.Packet.{Packet, packet_new, pkt_flag_ack, pkt_flag_get, pkt_flag_set, pkt_flag_del}
use rn.Uthash.{Uthash}
use rn.HashTable.{entry_key, htable_set, htable_delete}
use rn.HashTable.Store.{
  new_entry, find-set, htable_get_lem, htable_delete_lem, stored, bytes-discrete,
}
use mathlib.Core.Logic.{ite}
use rn.Requests.{rtable_key}
use rn.Network.{Network}
use rn.Peer.{get_reply, is_get, is_set, is_del}
use rn.Peer.Handlers.{perform}

pub is_del-true : (flags : ℕ) → is_del flags ≡ true
unfolding is_del
is_del-true flags = let same : (flags == flags) ≡ true = ground arith in rw same refl

module _ (heap : Allocator) (net : Network) (htu : Uthash entry_key) (rtu : Uthash rtable_key)
    (fuel : ℕ) where
  open htu use {Table}

  -- The acknowledgement of a GET that finds the key `k` of `n` bytes with the value `v` of `m` bytes.
  abbrev pub found_reply : List ℕ → ℕ → List ℕ → ℕ → Packet
  found_reply k n v m = record packet_new {
    flags = bit_or pkt_flag_get pkt_flag_ack;
    key_len = n;
    value_len = m;
    key = some (as_string k);
    value = some (as_string v);
  }

  -- A SET and then a GET of the same key are both acknowledged, whatever was stored, and the reply to
  -- the GET has the key and the value with their full lengths; but each is copied as a string, so
  -- what stands behind a zero byte in it is lost.
  pub set_then_get :
      (ht : Table) (put get : Packet)
      → put.flags ≡ pkt_flag_set
      → get.flags ≡ pkt_flag_get
      → put.key_len < 2 ^ 16
      → put.value_len < 2 ^ 32
      → Readable put.key put.key_len
      → Readable put.value put.value_len
      → Readable get.key get.key_len
      → bytes get.key get.key_len ≡ bytes put.key put.key_len
      → (after : Table) × (perform heap net htu rtu fuel ht put
          ≡ ok (record packet_new { flags = bit_or pkt_flag_set pkt_flag_ack }, after))
        × (perform heap net htu rtu fuel after get
            ≡ ok (
              found_reply
                  (bytes put.key put.key_len)
                  put.key_len
                  (bytes put.value put.value_len)
                  put.value_len,
              after,
            ))
  unfolding perform is_get is_set get_reply
  set_then_get ht put get pf gf small_k small_v pk pv gk same =
      finish (find-set htu ht put.key put.key_len put.value put.value_len pk pv)
    where
      k : List ℕ
      k = bytes put.key put.key_len

      v : List ℕ
      v = bytes put.value put.value_len

      finish :
          (after : Table) × (htable_set htu ht put.key put.key_len put.value put.value_len
              ≡ ok after)
            × (htu.hash_find after k ≡ some (new_entry k put.key_len v put.value_len))
          → (after : Table) × (perform heap net htu rtu fuel ht put
              ≡ ok (record packet_new { flags = bit_or pkt_flag_set pkt_flag_ack }, after))
            × (perform heap net htu rtu fuel after get
                ≡ ok (found_reply k put.key_len v put.value_len, after))
      finish (after, run, found) = (
        after,
        rw (pf, run) refl,
        rw
            (
              gf,
              htable_get_lem htu after get.key get.key_len gk,
              same,
              found,
              strncpy_whole k put.key_len (length-bytes put.key put.key_len pk),
              strncpy_whole v put.value_len (length-bytes put.value put.value_len pv),
            )
            (rw (fit_k, fit_v) refl),
      )
        where
          fit_k : u16 put.key_len ≡ put.key_len
          fit_k = omega arith

          fit_v : u32 put.value_len ≡ put.value_len
          fit_v = omega arith

  -- Every request that is neither a GET nor a SET is acknowledged as a DELETE, also one with none of
  -- the flags, and leaves nothing under its key and every other key as it was.
  pub perform-delete :
      (ht : Table) (p : Packet)
      → is_get p.flags ≡ false
      → is_set p.flags ≡ false
      → Readable p.key p.key_len
      → (after : Table) × (perform heap net htu rtu fuel ht p
          ≡ ok (record packet_new { flags = bit_or pkt_flag_del pkt_flag_ack }, after))
        × ((j : List ℕ)
            → stored htu after j
              ≡ ite (bytes-discrete j (bytes p.key p.key_len)) none (stored htu ht j))
  unfolding perform
  perform-delete ht p not_get not_set readable =
      finish (htable_delete_lem htu ht p.key p.key_len readable)
    where
      always : is_del p.flags ≡ true
      always = is_del-true p.flags

      finish :
          (after : Table) × (htable_delete htu ht p.key p.key_len ≡ ok after)
            × ((j : List ℕ)
                → stored htu after j
                  ≡ ite (bytes-discrete j (bytes p.key p.key_len)) none (stored htu ht j))
          → (after : Table) × (perform heap net htu rtu fuel ht p
              ≡ ok (record packet_new { flags = bit_or pkt_flag_del pkt_flag_ack }, after))
            × ((j : List ℕ)
                → stored htu after j
                  ≡ ite (bytes-discrete j (bytes p.key p.key_len)) none (stored htu ht j))
      finish (after, run, now) = (after, rw (not_get, not_set, always, run) refl, now)
