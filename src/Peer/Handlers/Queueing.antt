-- ===== src/Peer/Handlers/Queueing.antt =====
-- handle_packet_data of praxis2/src/peer.c with a request for a key of neither this peer nor its
-- successor: the request waits, and a lookup is sent.
use rn.Prelude.{ℕ, ◌<◌, ◌^◌, ◌≡◌, Bool, Option, some, ok, Allocator, bit_or}
use rn.Packet.{Packet, packet_new, pkt_flag_ctrl, pkt_flag_lkup}
use rn.Packet.Copy.{copy_of}
use rn.Uthash.{Uthash}
use rn.HashTable.{entry_key}
use rn.Requests.{rtable_key}
use rn.Requests.Waiting.{Added}
use rn.Network.{Network, Stream}
use rn.Neighbour.{Peer, peer_connect, peer_get_ip}
use rn.Server.{Client, cb_ok}
use rn.Peer.Handlers.{Node, handle_packet}
use rn.Peer.Handlers.Telling.{Told}

-- The lookup of a hash id, by the peer `n` with the address `ip`.
abbrev pub lookup_for : ℕ → Peer → ℕ → Packet
lookup_for hash_id n ip = record packet_new {
  flags = bit_or pkt_flag_ctrl pkt_flag_lkup;
  hash_id = hash_id;
  node_id = n.node_id;
  node_ip = ip;
  node_port = n.port;
}

module _ (heap : Allocator) (net : Network) (htu : Uthash entry_key) (rtu : Uthash rtable_key)
    (fuel : ℕ) (streams : (k : Option ℕ) → Stream net k)
    (ip_small : (x : net.Address) → net.ip_of x < 2 ^ 32) where
  open net use {World}

  -- The request of the client `c` waits under `hash_id`, and the successor has been told the lookup.
  pub record Queued (s : Node heap net htu rtu fuel) (a : ℕ) (c : Client) (p : Packet) (hash_id : ℕ)
      : Type 0 where
    pub after : rtu.Table
    pub added :
        Added rtu s.globals.rt hash_id (record { packet = copy_of p; socket = c.socket }) after
    pub result : Bool × Peer × World
    pub told :
        Told heap net htu rtu fuel streams
          (lookup_for hash_id s.globals.self (peer_get_ip net s.globals.self s.world).0)
          (peer_connect net s.globals.succ (peer_get_ip net s.globals.self s.world).1)
          result
    pub run :
        handle_packet heap net htu rtu fuel s a (some p)
        ≡ ok (
          cb_ok,
          record s {
            globals = record (s.globals) { rt = after; succ = result.1 };
            world = result.2;
          },
        )
