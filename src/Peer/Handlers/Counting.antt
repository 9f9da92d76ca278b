-- ===== src/Peer/Handlers/Counting.antt =====
-- handle_packet of praxis2/src/peer.c as the callback of the server: it marks clients for removal, and
-- removes none itself.
use rn.Prelude.{
  ℕ, not, List, [], ◌∷◌, Exec, deref, Allocator, ◌==◌, Ensures, ends, Ensures-if, Ensures-bind,
  Ensures-after,
}
use rn.Packet.{Packet, packet_serialize, has, pkt_flag_ctrl, pkt_flag_lkup, pkt_flag_rply}
use rn.Uthash.{Uthash}
use rn.HashTable.{entry_key}
use rn.Requests.{Request, rtable_key, add_request, get_requests}
use rn.Network.{Network}
use rn.Neighbour.{Peer, peer_from_packet, peer_is_responsible}
use rn.Server.{find_client}
use rn.Server.Clients.{Counted, close_socket-Counted}
use rn.Server.Loop.Counting.{KeepsCount}
use rn.Peer.Handlers.{
  Node, proxy_request, proxy_to_succ, forward_to_succ, lookup_peer, perform, handle_own_request,
  answer_lookup, look_up_later, proxy_for, hash_of_key, handle_packet_data, proxy_all,
  handle_lookup, handle_reply, handle_packet_ctrl, handle_packet,
}

module _ (heap : Allocator) (net : Network) (htu : Uthash entry_key) (rtu : Uthash rtable_key)
    (fuel : ℕ) where
  abbrev Kept : {A : Type 0} → Exec (A × Node heap net htu rtu fuel) → Type 0
  Kept {A} = Ensures (λ (r : A × Node heap net htu rtu fuel). Counted r.1.server)

  forward_to_succ-Counted :
      (s : Node heap net htu rtu fuel) (p : Packet)
      → Counted s.server
      → Kept (forward_to_succ heap net htu rtu fuel s p)
  unfolding forward_to_succ
  forward_to_succ-Counted s p h = Ensures-after _ (λ r. ends h)

  proxy_for-Counted :
      (s : Node heap net htu rtu fuel) (a : ℕ) (p : Packet)
      → Counted s.server
      → Kept (proxy_for heap net htu rtu fuel s a p)
  unfolding proxy_for proxy_to_succ
  proxy_for-Counted s a p h = Ensures-after (deref (find_client s.server.clients a)) (λ c.
      Ensures-after (proxy_request heap net htu rtu fuel c.socket p s.globals.succ s.world)
        (λ r. ends h))

  own_request-Counted :
      (s : Node heap net htu rtu fuel) (a : ℕ) (p : Packet)
      → Counted s.server
      → Kept (handle_own_request heap net htu rtu fuel s a p)
  unfolding handle_own_request
  own_request-Counted s a p h =
      Ensures-after (perform heap net htu rtu fuel s.globals.ht p) (λ (ack_packet, ht).
        Ensures-after (packet_serialize heap ack_packet)
          (λ serialized. Ensures-after (deref (find_client s.server.clients a)) (λ c. ends h)))

  look_up_later-Counted :
      (s : Node heap net htu rtu fuel) (a hash_id : ℕ) (p : Packet)
      → Counted s.server
      → Kept (look_up_later heap net htu rtu fuel s a hash_id p)
  unfolding look_up_later lookup_peer
  look_up_later-Counted s a hash_id p h =
      Ensures-after (deref (find_client s.server.clients a)) (λ c.
        Ensures-after (add_request rtu s.globals.rt hash_id c.socket p)
          (λ rt. Ensures-bind (forward_to_succ-Counted _ _ h) (λ r k. ends k)))

  data_packet-Counted :
      (s : Node heap net htu rtu fuel) (a : ℕ) (p : Packet)
      → Counted s.server
      → Kept (handle_packet_data heap net htu rtu fuel s a p)
  unfolding handle_packet_data
  data_packet-Counted s a p h = Ensures-after (hash_of_key heap net htu rtu fuel p) (λ hash_id.
      Ensures-if
        (not (peer_is_responsible s.globals.pred.node_id s.globals.self.node_id hash_id == 0))
        (own_request-Counted s a p h)
        (Ensures-if
          (not (peer_is_responsible s.globals.self.node_id s.globals.succ.node_id hash_id == 0))
          (proxy_for-Counted s a p h) (look_up_later-Counted s a hash_id p h)))

  answer_lookup-Counted :
      (s : Node heap net htu rtu fuel) (p : Packet) (n : Peer)
      → Counted s.server
      → Kept (answer_lookup heap net htu rtu fuel s p n)
  unfolding answer_lookup
  answer_lookup-Counted s p n h = Ensures-after _ (λ r. ends h)

  proxy_all-Counted :
      (rs : List Request) (n : Peer) (s : Node heap net htu rtu fuel)
      → Counted s.server
      → Kept (proxy_all heap net htu rtu fuel rs n s)
  unfolding proxy_all
  proxy_all-Counted [] n s h = ends h
  proxy_all-Counted (r ∷ next) n s h =
      Ensures-after (proxy_request heap net htu rtu fuel r.socket r.packet n s.world)
        (λ (status, n', w). proxy_all-Counted next n' _ (close_socket-Counted s.server r.socket h))

  ctrl_packet-Counted :
      (s : Node heap net htu rtu fuel) (a : ℕ) (p : Packet)
      → Counted s.server
      → Kept (handle_packet_ctrl heap net htu rtu fuel s a p)
  unfolding handle_packet_ctrl handle_lookup handle_reply
  ctrl_packet-Counted s a p h =
      Ensures-if (has p.flags pkt_flag_lkup)
        (Ensures-if
          (not (peer_is_responsible s.globals.pred.node_id s.globals.self.node_id p.hash_id == 0))
          (answer_lookup-Counted s p s.globals.self h)
          (Ensures-if
            (not (peer_is_responsible s.globals.self.node_id s.globals.succ.node_id p.hash_id == 0))
            (answer_lookup-Counted s p s.globals.succ h)
            (Ensures-bind (forward_to_succ-Counted s p h) (λ r k. ends k))))
        (Ensures-if (has p.flags pkt_flag_rply)
          (Ensures-bind
            (proxy_all-Counted (get_requests rtu s.globals.rt p.hash_id) (peer_from_packet net p) s
              h)
            (λ r k. ends k))
          (ends h))

  -- handle_packet keeps the number of clients with the list of the server, whatever packet it handles.
  pub handle_packet-KeepsCount : KeepsCount (handle_packet heap net htu rtu fuel)
  unfolding handle_packet
  handle_packet-KeepsCount s a pack h = Ensures-after (deref pack) (λ p.
      Ensures-if (has p.flags pkt_flag_ctrl) (ctrl_packet-Counted s a p h)
        (data_packet-Counted s a p h))
