-- ===== src/Peer/Handlers.antt =====
-- praxis2/src/peer.c, from forward to handle_packet. `succ` and `self` stay the globals that they
-- are, so what a connection changes in a peer is written back. `fuel` bounds the rounds of recvall;
-- where it is too small the result is `unfinished`.
pub mod Answers
pub mod Routing
pub mod Lookups
pub mod Telling
pub mod Rings
pub mod Queueing
pub mod Entries
pub mod Serving
pub mod Effects
pub mod Exchange
pub mod Proxying
pub mod Replies
pub mod Counting
use rn.Prelude.{
  ℕ, zero, suc, Bool, true, false, not, Option, none, some, List, [], ◌∷◌, Exec, ok, fault,
  unfinished, ◌>>=◌, deref, Allocator, bit_or, u8, ◌==◌, if◌then◌else◌,
}
use rn.Packet.{
  Packet, packet_new, packet_serialize, has, pkt_flag_ctrl, pkt_flag_rply, pkt_flag_lkup,
  pkt_flag_ack, pkt_flag_get, pkt_flag_set, pkt_flag_del,
}
use rn.Uthash.{Uthash}
use rn.HashTable.{Htable, entry_key, htable_set, htable_get, htable_delete}
use rn.Requests.{Request, rtable_key, add_request, get_requests, clear_requests}
use rn.Network.{Network}
use rn.Neighbour.{
  Peer, peer_connect, peer_disconnect, peer_get_ip, peer_from_packet, peer_is_responsible,
}
use rn.Transfer.{Sent, all_sent, failed, stuck, sendall, recvall, pseudo_hash}
use rn.Server.{System, CbStatus, cb_remove_client, cb_ok, Client, find_client, server_close_socket}
use rn.Peer.{get_reply, is_get, is_set, is_del, Globals}

module _ (heap : Allocator) (net : Network) (htu : Uthash entry_key) (rtu : Uthash rtable_key)
    (fuel : ℕ) where
  open net use {World}
  open htu use {Table}

  abbrev pub Node : Type 0
  Node = System net (Globals heap net htu rtu)

  -- The rest of forward, once the peer is connected. The connection stays open for a reply, unless
  -- a control packet was sent. `true` is the result 0.
  pub after_sending : ℕ → Peer → Sent × World → Exec (Bool × Peer × World)
  after_sending flags p (all_sent, w) =
      if has flags pkt_flag_ctrl
      then (let (closed, w') = peer_disconnect net p w in ok (true, closed, w'))
      else ok (true, p, w)
  after_sending flags p (failed, w) = ok (false, p, w)
  after_sending flags p (stuck, w) = unfinished

  pub forward : Peer → Packet → World → Exec (Bool × Peer × World)
  forward p pack w = do
    (serialized_pack, packet_size) ← packet_serialize heap pack
    let (connected, p', w') = peer_connect net p w in
        if connected
        then after_sending pack.flags p' (sendall net p'.socket serialized_pack packet_size w')
        else ok (false, p', w')

  -- The result of forward is not looked at.
  pub proxy_request : Option ℕ → Packet → Peer → World → Exec (CbStatus × Peer × World)
  proxy_request csocket p n w = do
    (status, n', w1) ← forward n p w
    received ← recvall net heap fuel n'.socket w1
    elim received [
      | none ↦ unfinished
      | some answer ↦
          let (answer_serial, answer_len, w2) = answer in
          let (sent, w3) = sendall net csocket answer_serial answer_len w2 in
          let (closed, w4) = peer_disconnect net n' w3 in ok (cb_remove_client, closed, w4)
    ]

  -- proxy_request to the successor, the global variable.
  pub proxy_to_succ : Node → Option ℕ → Packet → Exec (CbStatus × Node)
  proxy_to_succ s csocket p = do
    (status, succ', w) ← proxy_request csocket p s.globals.succ s.world
    ok (status, record s { globals = record (s.globals) { succ = succ' }; world = w })

  pub forward_to_succ : Node → Packet → Exec (Bool × Node)
  forward_to_succ s p = do
    (sent, succ', w) ← forward s.globals.succ p s.world
    ok (sent, record s { globals = record (s.globals) { succ = succ' }; world = w })

  -- `true` is the result 0.
  pub lookup_peer : Node → ℕ → Exec (Bool × Node)
  lookup_peer s hash_id =
      let (ip, w) = peer_get_ip net s.globals.self s.world in
      forward_to_succ (record s { world = w })
        (record packet_new {
          flags = bit_or pkt_flag_ctrl pkt_flag_lkup;
          hash_id = hash_id;
          node_id = s.globals.self.node_id;
          node_ip = ip;
          node_port = s.globals.self.port;
        })

  -- What handle_own_request does to the table, with the packet that it answers.
  pub perform : Table → Packet → Exec (Packet × Table)
  perform ht p =
      if is_get p.flags
      then (do
        entry ← htable_get htu ht p.key p.key_len
        reply ← get_reply (record packet_new { flags = bit_or pkt_flag_get pkt_flag_ack }) entry
        ok (reply, ht))
      else if is_set p.flags
      then (do
        after ← htable_set htu ht p.key p.key_len p.value p.value_len
        ok (record packet_new { flags = bit_or pkt_flag_set pkt_flag_ack }, after))
      else if is_del p.flags
      then (do
        after ← htable_delete htu ht p.key p.key_len
        ok (record packet_new { flags = bit_or pkt_flag_del pkt_flag_ack }, after))
      else ok (packet_new, ht)

  -- A failure to send is only reported.
  pub handle_own_request : Node → ℕ → Packet → Exec (CbStatus × Node)
  handle_own_request s a p = do
    (ack_packet, ht) ← perform s.globals.ht p
    (serialized_pack, packet_size) ← packet_serialize heap ack_packet
    c ← deref (find_client s.server.clients a)
    let (sent, w) = sendall net c.socket serialized_pack packet_size s.world in
        ok (cb_remove_client, record s { globals = record (s.globals) { ht = ht }; world = w })

  -- The struct of the asking peer is local; a failure to send is only reported.
  pub answer_lookup : Node → Packet → Peer → Exec (CbStatus × Node)
  answer_lookup s p n =
      let (ip, w) = peer_get_ip net n s.world in
      let rply_packet = record packet_new {
        flags = bit_or pkt_flag_ctrl pkt_flag_rply;
        hash_id = p.hash_id;
        node_id = n.node_id;
        node_ip = ip;
        node_port = n.port;
      } in
      (do
        (sent, asking_peer, w') ← forward (peer_from_packet net p) rply_packet w
        ok (cb_remove_client, record s { world = w' }))

  -- The result of lookup_peer is not looked at.
  pub look_up_later : Node → ℕ → ℕ → Packet → Exec (CbStatus × Node)
  look_up_later s a hash_id p = do
    c ← deref (find_client s.server.clients a)
    rt ← add_request rtu s.globals.rt hash_id c.socket p
    (sent, after) ← lookup_peer (record s { globals = record (s.globals) { rt = rt } }) hash_id
    ok (cb_ok, after)

  pub proxy_for : Node → ℕ → Packet → Exec (CbStatus × Node)
  proxy_for s a p = do c ← deref (find_client s.server.clients a); proxy_to_succ s c.socket p

  -- pseudo_hash reads through the key where the key is not empty.
  pub hash_of_key : Packet → Exec ℕ
  hash_of_key p = if p.key_len == 0 then ok 0 else (do key ← deref p.key; pseudo_hash key p.key_len)

  pub handle_packet_data : Node → ℕ → Packet → Exec (CbStatus × Node)
  handle_packet_data s a p = do
    hash_id ← hash_of_key p
    if not (peer_is_responsible s.globals.pred.node_id s.globals.self.node_id hash_id == 0)
        then handle_own_request s a p
        else if not (peer_is_responsible s.globals.self.node_id s.globals.succ.node_id hash_id == 0)
        then proxy_for s a p
        else look_up_later s a hash_id p

  -- The loop over the requests that waited for this reply.
  pub proxy_all : List Request → Peer → Node → Exec (Peer × Node)
  proxy_all [] n s = ok (n, s)
  proxy_all (r ∷ next) n s = do
    (status, n', w) ← proxy_request r.socket r.packet n s.world
    proxy_all next n' (record s { server = server_close_socket s.server r.socket; world = w })

  handle_lookup : Node → Packet → Exec (CbStatus × Node)
  handle_lookup s p =
      if not (peer_is_responsible s.globals.pred.node_id s.globals.self.node_id p.hash_id == 0)
      then answer_lookup s p s.globals.self
      else if not (peer_is_responsible s.globals.self.node_id s.globals.succ.node_id p.hash_id == 0)
      then answer_lookup s p s.globals.succ
      else (do (sent, after) ← forward_to_succ s p; ok (cb_remove_client, after))

  pub handle_reply : Node → Packet → Exec (CbStatus × Node)
  handle_reply s p = do
    (n, after) ← proxy_all (get_requests rtu s.globals.rt p.hash_id) (peer_from_packet net p) s
    let rt = clear_requests rtu after.globals.rt p.hash_id
    ok (cb_remove_client, record after { globals = record (after.globals) { rt = rt } })

  pub handle_packet_ctrl : Node → ℕ → Packet → Exec (CbStatus × Node)
  handle_packet_ctrl s a p =
      if has p.flags pkt_flag_lkup
      then handle_lookup s p
      else if has p.flags pkt_flag_rply
      then handle_reply s p
      else ok (cb_remove_client, s)

  -- The callback of the server, with the packet as the pointer that it is.
  pub handle_packet : Node → ℕ → Option Packet → Exec (CbStatus × Node)
  handle_packet s a pack = do
    p ← deref pack
    if has p.flags pkt_flag_ctrl then handle_packet_ctrl s a p else handle_packet_data s a p
