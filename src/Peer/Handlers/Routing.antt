-- ===== src/Peer/Handlers/Routing.antt =====
-- handle_packet_data of praxis2/src/peer.c: who serves a request, and where it goes else.
use rn.Prelude.{
  ℕ, zero, suc, ◌<◌, ◌^◌, ◌≡◌, ◌≢◌, refl, ◌⊎◌, inl, inr, true, false, not, Option, none, some, List,
  [], ◌∷◌, arith, ok, ◌>>=◌, deref, Allocator, Readable, bytes, All, IsByte, ◌==◌, if◌then◌else◌,
}
use rn.Packet.{Packet}
use rn.Uthash.{Uthash}
use rn.HashTable.{entry_key}
use rn.Requests.{rtable_key}
use rn.Network.{Network}
use rn.Neighbour.{peer_is_responsible}
use rn.Neighbour.Responsible.{InArc, peer_is_responsible_iff, peer_is_responsible_cases}
use rn.Transfer.{pseudo_hash}
use rn.Transfer.Hashing.{key_hash, pseudo_hash_lem}
use rn.Peer.Handlers.{
  Node, hash_of_key, handle_own_request, proxy_for, look_up_later, handle_packet_data,
}

-- The ids that a peer takes for its own, by the theorem on peer_is_responsible.
abbrev pub Covers : ℕ → ℕ → ℕ → Type 0
Covers pred_id peer_id hash_id =
    InArc pred_id peer_id hash_id × (pred_id < hash_id) × (pred_id ≢ peer_id)

-- The test that the handlers make of the answer.
pub decides :
    (pred_id peer_id hash_id : ℕ)
    → pred_id < 2 ^ 16
    → peer_id < 2 ^ 16
    → hash_id < 2 ^ 16
    → (Covers pred_id peer_id hash_id
        × (not (peer_is_responsible pred_id peer_id hash_id == 0) ≡ true))
      ⊎ (¬ Covers pred_id peer_id hash_id
          × (not (peer_is_responsible pred_id peer_id hash_id == 0) ≡ false))
decides pred_id peer_id hash_id hp hs hh =
    elim (peer_is_responsible_cases pred_id peer_id hash_id) [
      | inl one ↦
          inl ((peer_is_responsible_iff pred_id peer_id hash_id hp hs hh).0 one, rw one refl)
      | inr zero' ↦ inr (
        λ c.
            absurd (
              omega (arith, zero', (peer_is_responsible_iff pred_id peer_id hash_id hp hs hh).1 c)),
        rw zero' refl,
      )
    ]

pub key_hash-small : (k : List ℕ) → All IsByte k → key_hash k < 2 ^ 16
key_hash-small [] v = omega arith
key_hash-small (a ∷ []) v = omega arith
key_hash-small (a ∷ b ∷ more) v = omega arith

of_key :
    (key : Option (List ℕ)) (n : ℕ)
    → Readable key n
    → All IsByte (bytes key n)
    → (if n == 0 then ok 0 else (do k ← deref key; pseudo_hash k n)) ≡ ok (key_hash (bytes key n))
of_key none n h v = rw h refl
of_key (some buf) zero h v = refl
of_key (some buf) (suc n) h v =
    let some_key : (suc n == 0) ≡ false = ground arith in
    rw some_key (pseudo_hash_lem buf (suc n) h v)

module _ (heap : Allocator) (net : Network) (htu : Uthash entry_key) (rtu : Uthash rtable_key)
    (fuel : ℕ) where
  -- The hash of a packet's key.
  abbrev pub id_of : Packet → ℕ
  id_of p = key_hash (bytes p.key p.key_len)

  hash_of_key_lem :
      (p : Packet)
      → Readable p.key p.key_len
      → All IsByte (bytes p.key p.key_len)
      → hash_of_key heap net htu rtu fuel p ≡ ok (id_of p)
  unfolding hash_of_key
  hash_of_key_lem p h v = of_key p.key p.key_len h v

  -- A request goes one of three ways, by the hash of its key: this peer answers it if the hash is
  -- among those that it takes for its own; else it is proxied to the successor, if that would answer
  -- it; and else it is queued and a lookup is sent.
  pub handle_packet_data_lem :
      (s : Node heap net htu rtu fuel) (a : ℕ) (p : Packet)
      → Readable p.key p.key_len
      → All IsByte (bytes p.key p.key_len)
      → s.globals.pred.node_id < 2 ^ 16
      → s.globals.self.node_id < 2 ^ 16
      → s.globals.succ.node_id < 2 ^ 16
      → (Covers s.globals.pred.node_id s.globals.self.node_id (id_of p)
          × (handle_packet_data heap net htu rtu fuel s a p
              ≡ handle_own_request heap net htu rtu fuel s a p))
        ⊎ (¬ Covers s.globals.pred.node_id s.globals.self.node_id (id_of p)
            × ((Covers s.globals.self.node_id s.globals.succ.node_id (id_of p)
                  × (handle_packet_data heap net htu rtu fuel s a p
                      ≡ proxy_for heap net htu rtu fuel s a p))
                ⊎ (¬ Covers s.globals.self.node_id s.globals.succ.node_id (id_of p)
                    × (handle_packet_data heap net htu rtu fuel s a p
                        ≡ look_up_later heap net htu rtu fuel s a (id_of p) p))))
  unfolding handle_packet_data
  handle_packet_data_lem s a p h v hp hs hn =
      elim (decides s.globals.pred.node_id s.globals.self.node_id (id_of p) hp hs
        (key_hash-small _ v)) [
          | inl (own, yes') ↦ inl (own, rw (hash_of_key_lem p h v, yes') refl)
          | inr (other, no') ↦ inr (
            other,
            elim (decides s.globals.self.node_id s.globals.succ.node_id (id_of p) hs hn
                (key_hash-small _ v)) [
                  | inl (next, yes2) ↦ inl (next, rw (hash_of_key_lem p h v, no', yes2) refl)
                  | inr (further, no2) ↦ inr (further, rw (hash_of_key_lem p h v, no', no2) refl)
                ],
          )
        ]
