-- ===== src/Tests/Lookups.antt =====
-- Tests of peer.c with a lookup, and with a request that waits for one.
use rn.Prelude.{[], ◌∷◌, none, some, true, replicate}
use rn.Packet.{Packet, packet_new}
use rn.Server.{Client, hdr_recvd}
use rn.Peer.Handlers.{Node}
use rn.Tests.Fixtures.{zeros, pipe}
use rn.Tests.Peers.{entries, pending, node}

-- Another peer looks up the id 350, which the successor takes for its own.
abbrev asked : Packet
asked = record packet_new { flags = 129; hash_id = 350; node_id = 7; node_port = 80 }

-- A GET of a key with the hash 500, from a client that is there.
abbrev far : Packet
far = record packet_new { flags = 4; key_len = 2; key = some (1 ∷ 244 ∷ []) }

abbrev asking : Client
asking = record {
  address = 3;
  socket = some 5;
  state = hdr_recvd;
  header_buf = record { buffer = replicate 8 0; bufsize = 8; rpos = 0; wpos = 0 };
  pkt_buf = none;
  pack = some far;
}

abbrev asked_by_one : Node zeros pipe entries pending 9
asked_by_one = record node {
  server = record { socket = some 4; n_clients = 1; active = true; clients = asking ∷ [] };
}
