-- ===== src/Peer/Handlers/Lookups.antt =====
-- handle_packet_ctrl of praxis2/src/peer.c: what a peer does with the lookup of another.
use rn.Prelude.{ℕ, ◌≡◌, Bool, Option, ok, ◌>>=◌, Exec, Allocator, bit_or}
use rn.Packet.{Packet, packet_new, pkt_flag_ctrl, pkt_flag_rply}
use rn.Uthash.{Uthash}
use rn.HashTable.{entry_key}
use rn.Requests.{rtable_key}
use rn.Network.{Network, Stream}
use rn.Neighbour.{Peer, peer_connect, peer_get_ip, peer_from_packet}
use rn.Server.{CbStatus, cb_remove_client}
use rn.Peer.Handlers.{Node}
use rn.Peer.Handlers.Telling.{Told}

-- The reply that the peer `n` with the address `ip` answers for the id that `p` asks for.
abbrev pub reply_with : Packet → Peer → ℕ → Packet
reply_with p n ip = record packet_new {
  flags = bit_or pkt_flag_ctrl pkt_flag_rply;
  hash_id = p.hash_id;
  node_id = n.node_id;
  node_ip = ip;
  node_port = n.port;
}

module _ (heap : Allocator) (net : Network) (htu : Uthash entry_key) (rtu : Uthash rtable_key)
    (fuel : ℕ) (streams : (k : Option ℕ) → Stream net k) where
  open net use {World}

  -- The peer that `p` names is told of `n`, and nothing else of this peer has changed.
  abbrev pub AnswersWith :
      Node heap net htu rtu fuel
      → Packet
      → Peer
      → Exec (CbStatus × Node heap net htu rtu fuel)
      → Type 0
  AnswersWith s p n run =
      (r : Bool × Peer × World) × Told heap net htu rtu fuel streams
        (reply_with p n (peer_get_ip net n s.world).0)
        (peer_connect net (peer_from_packet net p) (peer_get_ip net n s.world).1) r
      × (run ≡ ok (cb_remove_client, record s { world = r.2 }))

  -- The successor is told the packet `p` itself, and of the globals only its struct has changed.
  abbrev pub PassesOn :
      Node heap net htu rtu fuel → Packet → Exec (CbStatus × Node heap net htu rtu fuel) → Type 0
  PassesOn s p run =
      (r : Bool × Peer × World) × Told heap net htu rtu fuel streams p
        (peer_connect net s.globals.succ s.world) r
      × (run
          ≡ ok (
            cb_remove_client,
            record s { globals = record (s.globals) { succ = r.1 }; world = r.2 },
          ))
