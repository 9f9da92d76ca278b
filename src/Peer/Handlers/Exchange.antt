-- ===== src/Peer/Handlers/Exchange.antt =====
-- A request from the first byte that comes in to the last of its answer: the server of
-- praxis2/src/server.c with the callback of praxis2/src/peer.c.
use rn.Prelude.{
  ℕ, ◌+◌, ◌≤◌, ◌<◌, ◌^◌, ◌≡◌, ◌≢◌, ◌⊎◌, sym, ap, ◌∙◌, false, none, some, List, ◌++◌, arith, ok,
  Allocator, bytes, length, All, All-prefix, IsByte, inl, inr, leb,
}
use mathlib.Core.Path.{subst}
use rn.Packet.{Packet}
use rn.Packet.Message.{
  request, IsMessage, message, encode, packet_of, packet_of-IsPacket, bytes-pointer_to, has-ctrl,
}
use rn.Packet.RoundTrip.{IsContent}
use rn.Uthash.{Uthash}
use rn.HashTable.{entry_key}
use rn.Requests.{rtable_key}
use rn.Network.{Network, Stream}
use rn.Transfer.Hashing.{key_hash}
use rn.Transfer.Sending.{Delivered, sendall_lem}
use rn.Server.{Client, find_client, server_remove_client}
use rn.Server.Clients.{server_deliver_packet-remove}
use rn.Server.Writing.{find_client-write}
use rn.Server.Loop.{serve_client}
use rn.Server.Loop.Delivery.{holding, Waits, serve_times, Delivers}
use rn.Server.Loop.Delivery.Arrival.{delivery_lem}
use rn.Peer.Handlers.{
  Node, handle_own_request, proxy_for, look_up_later, handle_packet_data, handle_packet,
}
use rn.Peer.Handlers.Routing.{Covers, handle_packet_data_lem}
use rn.Peer.Handlers.Entries.{WellStored}
use rn.Peer.Handlers.Serving.{Acknowledges, sending, request_answered}

module _ (heap : Allocator) (net : Network) (htu : Uthash entry_key) (rtu : Uthash rtable_key)
    (fuel : ℕ) where
  -- The request `f k v` of the client `c` at `a` has been served: calls of serve_client, at most one for
  -- each byte of it, end with its client removed and the store changed.
  pub record Served (s : Node heap net htu rtu fuel) (a : ℕ) (c : Client) (f : ℕ)
      (k v rest : List ℕ) (stream : Stream net c.socket) : Type 0 where
    pub calls : ℕ
    pub within : calls + 1 ≤ length (encode (request f k v))
    pub before : Node heap net htu rtu fuel
    pub served :
        serve_times heap net (some (handle_packet heap net htu rtu fuel)) calls a s ≡ ok before
    pub reply : Acknowledges heap net htu rtu fuel s.globals.ht (packet_of (request f k v))
    pub client : Client
    pub world : net.World
    pub last :
        serve_client heap net (some (handle_packet heap net htu rtu fuel)) before a
        ≡ ok (
            server_remove_client net
              (record (holding s client world) {
                globals = record (s.globals) { ht = reply.after };
                world = (sending heap net htu rtu fuel c.socket reply.ack world).1;
              })
              (some a))
    pub remaining : stream.incoming world ≡ rest
    pub sent :
        Delivered net c.socket stream
          (encode (message reply.ack))
          world
          (sending heap net htu rtu fuel c.socket reply.ack world)

  -- The callback answers a request for a key of this peer.
  own_request :
      (s : Node heap net htu rtu fuel) (a f : ℕ) (k v : List ℕ)
      → IsMessage (request f k v)
      → IsContent (request f k v)
      → s.globals.pred.node_id < 2 ^ 16
      → s.globals.self.node_id < 2 ^ 16
      → s.globals.succ.node_id < 2 ^ 16
      → Covers s.globals.pred.node_id s.globals.self.node_id (key_hash k)
      → handle_packet heap net htu rtu fuel s a (some (packet_of (request f k v)))
        ≡ handle_own_request heap net htu rtu fuel s a (packet_of (request f k v))
  unfolding handle_packet
  own_request s a f k v h content hp hs hn own =
      rw (has-ctrl f (omega arith), plain)
        (routed (
          handle_packet_data_lem heap net htu rtu fuel s a p
            (packet_of-IsPacket (request f k v) h).key_readable key_bytes hp hs hn))
    where
      p : Packet
      p = packet_of (request f k v)

      plain : leb 128 f ≡ false
      plain = ground arith

      key_bytes : All IsByte (bytes p.key p.key_len)
      key_bytes = subst (All IsByte) (sym (bytes-pointer_to k)) (All-prefix IsByte k v content)

      covers :
          Covers s.globals.pred.node_id s.globals.self.node_id (key_hash (bytes p.key p.key_len))
      covers =
          subst (λ l. Covers s.globals.pred.node_id s.globals.self.node_id (key_hash l))
            (sym (bytes-pointer_to k)) own

      routed :
          (Covers s.globals.pred.node_id s.globals.self.node_id (key_hash (bytes p.key p.key_len))
              × (handle_packet_data heap net htu rtu fuel s a p
                  ≡ handle_own_request heap net htu rtu fuel s a p))
            ⊎ (¬ Covers s.globals.pred.node_id s.globals.self.node_id
                  (key_hash (bytes p.key p.key_len))
                × ((Covers s.globals.self.node_id s.globals.succ.node_id
                        (key_hash (bytes p.key p.key_len))
                      × (handle_packet_data heap net htu rtu fuel s a p
                          ≡ proxy_for heap net htu rtu fuel s a p))
                    ⊎ (¬ Covers s.globals.self.node_id s.globals.succ.node_id
                          (key_hash (bytes p.key p.key_len))
                        × (handle_packet_data heap net htu rtu fuel s a p
                            ≡ look_up_later heap net htu rtu fuel s a
                                (key_hash (bytes p.key p.key_len))
                                p))))
          → handle_packet_data heap net htu rtu fuel s a p
            ≡ handle_own_request heap net htu rtu fuel s a p
      routed (inl (yes', e)) = e
      routed (inr (no', e)) = absurd (no' covers)

  -- A request for a key whose hash the test of this peer takes for its own (the hash lies in its
  -- arc, and above the id of its predecessor) comes in, with a body, through a stream on which recv
  -- makes no error, in whatever pieces, behind it any bytes; its client waits for a packet. Then
  -- the server does not fault: with at most as many calls as the request has bytes it makes of it
  -- one well-formed packet with the flag ACK. This is sent to the client in full, or a call of
  -- send, given what those before it have left of the packet, is answered by an error or by 0. The
  -- client is removed with what it has sent behind the request still unread; and of the globals
  -- only the store has changed, to one that requests are answered from.
  pub request_served_lem :
      (s : Node heap net htu rtu fuel) (a : ℕ) (c : Client) (f : ℕ) (k v rest : List ℕ)
      (stream : Stream net c.socket)
      → ((n : ℕ) (w : net.World) → (net.recv c.socket n w).0 ≢ none)
      → find_client s.server.clients a ≡ some c
      → Waits c
      → IsMessage (request f k v)
      → IsContent (request f k v)
      → 0 < length (k ++ v)
      → length (k ++ v) < 2 ^ 31
      → stream.incoming s.world ≡ encode (request f k v) ++ rest
      → WellStored htu s.globals.ht
      → s.globals.pred.node_id < 2 ^ 16
      → s.globals.self.node_id < 2 ^ 16
      → s.globals.succ.node_id < 2 ^ 16
      → Covers s.globals.pred.node_id s.globals.self.node_id (key_hash k)
      → Served s a c f k v rest stream
  request_served_lem s a c f k v rest stream no_error there w h content some_body small to_come well
        hp hs hn own =
      from (
        delivery_lem heap net (some (handle_packet heap net htu rtu fuel)) s a c (request f k v)
          rest stream no_error there w h content some_body small to_come)
    where
      from :
          Delivers heap net
            (some (handle_packet heap net htu rtu fuel))
            s
            a
            c.socket
            stream
            (request f k v)
            rest
            s
            (length (encode (request f k v)))
          → Served s a c f k v rest stream
      from d =
          let (r, answered) =
            request_answered heap net htu rtu fuel now a d.client (packet_of (request f k v))
              c.socket d.its_socket there_now (packet_of-IsPacket (request f k v) h) well in
          record {
            calls = d.calls;
            within = d.within;
            before = d.before;
            served = d.served;
            reply = r;
            client = d.client;
            world = d.world;
            last =
                d.last
                ∙ server_deliver_packet-remove net (handle_packet heap net htu rtu fuel) now _ a
                    d.client there_now
                    (ap (handle_packet heap net htu rtu fuel now a) d.pack
                      ∙ own_request now a f k v h content hp hs hn own
                      ∙ answered);
            remaining = d.remaining;
            sent = sendall_lem net c.socket stream (encode (message r.ack)) d.world;
          }
        where
          now : Node heap net htu rtu fuel
          now = holding s d.client d.world

          there_now : find_client now.server.clients a ≡ some d.client
          there_now =
              subst
                (λ x.
                  find_client s.server.clients x ≡ some c
                  → find_client now.server.clients x ≡ some d.client)
                d.address (find_client-write s.server.clients c d.client) there
