-- ===== src/Tests/Proxies.antt =====
-- A test of peer.c with a request that its successor answers.
use rn.Prelude.{ℕ, ◌<◌, ◌^◌, ◌≢◌, length, ◌≡◌, refl, true, false, [], ◌∷◌, some, none, arith}
use rn.Neighbour.{Peer, peer_from_packet, peer_connect, peer_lookup, connect_loop}
use rn.Packet.{Packet, packet_new, has, pkt_flag_ctrl}
use rn.Transfer.{int_of, sendall, send_loop}
use rn.Server.{Client}
use rn.Peer.Handlers.{Node}
use rn.Peer.Handlers.Proxying.{passed}
use rn.Requests.{Request}
use rn.Packet.Message.{IsPacket, message, encode}
use rn.Peer.Handlers.Replies.{Answers, next_state}
use rn.Tests.Fixtures.{Pipe, zeros, pipe, any_stream}
use rn.Tests.Peers.{entries, pending, neighbour, node}
use rn.Tests.Deliveries.{waiting}

-- A GET of a key with the hash 350.
abbrev asked : Packet
asked = record packet_new { flags = 4; key_len = 2; key = some (1 ∷ 94 ∷ []) }

asked_plain : has 4 pkt_flag_ctrl ≡ false
unfolding has
asked_plain = refl

asked-IsPacket : IsPacket asked
asked-IsPacket = omega arith

three_fit : length {A = ℕ} (12 ∷ 0 ∷ 9 ∷ []) < 9
three_fit = omega arith

three_small : length {A = ℕ} (12 ∷ 0 ∷ 9 ∷ []) < 2 ^ 61
three_small = omega arith

recv_answers : (k : ℕ) (u : Pipe) → (pipe.recv (some 9) k u).0 ≢ none
recv_answers k u e = ground arith

abbrev asking : Client
asking = record waiting { socket = some 5 }

-- The successor's reply has three bytes.
abbrev replying : Pipe
replying = (12 ∷ 0 ∷ 9 ∷ [], [])

abbrev proxying : Node zeros pipe entries pending 9
proxying = record node {
  server = record { socket = some 4; n_clients = 1; active = true; clients = asking ∷ [] };
  world = replying;
}

abbrev linked : Peer
linked = record (neighbour 400) { socket = some 9 }

connects : peer_connect pipe (neighbour 400) replying ≡ (true, linked, replying)
unfolding peer_connect peer_lookup connect_loop
connects = refl

-- The reply to a lookup of the id 350, for which one request waits.
abbrev found : Packet
found = record packet_new { flags = 130; hash_id = 350; node_id = 360; node_ip = 7; node_port = 80 }

abbrev waits : Request
waits = record { packet = asked; socket = some 5 }

abbrev holding_back : Node zeros pipe entries pending 9
holding_back = record proxying {
  globals = record (node.globals) {
    rt = record { hash_id = 350; open_requests = waits ∷ [] } ∷ [];
  };
}

found_connects :
    peer_connect pipe (peer_from_packet pipe found) replying
    ≡ (true, record (peer_from_packet pipe found) { socket = some 9 }, replying)
unfolding peer_connect peer_lookup connect_loop
found_connects = refl

abbrev responsible : Peer
responsible = record (peer_from_packet pipe found) { socket = some 9 }

replies :
    (passed zeros pipe entries pending 9 (some 9) (encode (message asked)) replying).1.0
    ≡ 12 ∷ 0 ∷ 9 ∷ []
unfolding sendall send_loop int_of
replies = refl

abbrev answering : Answers zeros pipe entries pending 9 waits (peer_from_packet pipe found) replying
answering = record {
  linked = responsible;
  joined = replying;
  upstream = any_stream (some 9);
  downstream = any_stream (some 5);
  reply = 12 ∷ 0 ∷ 9 ∷ [];
  is_packet = asked-IsPacket;
  plain = asked_plain;
  connects = found_connects;
  no_error = λ k u. recv_answers k u;
  to_come = replies;
  enough = three_fit;
  small = three_small;
}

abbrev passed_on : Node zeros pipe entries pending 9
passed_on =
    next_state zeros pipe entries pending 9 waits (peer_from_packet pipe found) holding_back
      answering
