-- ===== src/Tests/Peers.antt =====
-- Tests of peer.c and of pseudo_hash.
use rn.Prelude.{ℕ, ◌≡◌, refl, List, [], ◌∷◌, none, some, true, false, arith, ok, bit_or}
use native.Mathlib.Decide.{ℕ_discrete}
use rn.Packet.{Packet, packet_new, pkt_flag_ack, pkt_flag_set, pkt_flag_del}
use mathlib.Core.Logic.{ite}
use rn.Peer.{is_get, is_set}
use rn.Uthash.{Uthash}
use rn.Uthash.Listed.{listed}
use rn.HashTable.{Htable, entry_key}
use rn.HashTable.Store.{bytes-discrete, stored}
use rn.Requests.{rtable_key}
use rn.Neighbour.{Peer, peer_init}
use rn.Prelude.{length, replicate, Option}
use rn.Neighbour.{Long, plus}
use rn.Peer.Main.{ended, arguments, start_server, run_with, main}
use rn.Network.{Network, Poll, ready}
use rn.Peer.Main.Stopping.{main-NoClients}
use rn.Peer.Handlers.{Node, perform}
use rn.Peer.Handlers.Answers.{found_reply, set_then_get, perform-delete}
use rn.Server.{
  unlink, find_client, new_client, server_remove_client, server_add_client, stop_all, server_stop,
}
use rn.Server.Setup.{tried, bind_any, set_up, setup_found, server_setup}
use rn.Server.Loop.{serve_all, sweep, poll_answer, server_round, run_loop, server_run}
use rn.RingBuffer.{rb_new}
use rn.Tests.Fixtures.{Pipe, zeros, pipe}

abbrev pub entries : Uthash entry_key
entries = listed entry_key bytes-discrete

abbrev pub pending : Uthash rtable_key
pending = listed rtable_key ℕ_discrete

abbrev put : Packet
put = record packet_new {
  flags = 2;
  key_len = 2;
  key = some (1 ∷ 2 ∷ []);
  value_len = 3;
  value = some (65 ∷ 0 ∷ 66 ∷ []);
}

abbrev get : Packet
get = record packet_new { flags = 4; key_len = 2; key = some (1 ∷ 2 ∷ []) }

-- The reply has 65 0 0 where 65 0 66 was stored.
set_then_get_example :
    (after : List Htable) × (perform zeros pipe entries pending 9 [] put
      ≡ ok (record packet_new { flags = bit_or pkt_flag_set pkt_flag_ack }, after))
    × (perform zeros pipe entries pending 9 after get
        ≡ ok (found_reply zeros pipe entries pending 9 (1 ∷ 2 ∷ []) 2 (65 ∷ 0 ∷ 66 ∷ []) 3, after))
set_then_get_example =
    set_then_get zeros pipe entries pending 9 [] put get refl refl (omega arith) (omega arith)
      (omega arith) (omega arith) (omega arith) refl

abbrev pub neighbour : ℕ → Peer
neighbour id = record { node_id = id; hostname = []; port = 4711; socket = none }

abbrev pub node : Node zeros pipe entries pending 9
node = record {
  server = record { socket = some 4; n_clients = 0; active = true; clients = [] };
  globals = record {
    ht = [];
    rt = [];
    self = neighbour 300;
    pred = neighbour 100;
    succ = neighbour 400;
  };
  world = ([], []);
}

-- No flag is set.
abbrev nothing_asked : Packet
nothing_asked = record packet_new { key_len = 1; key = some (5 ∷ []) }

is_get_nothing : is_get 0 ≡ false
unfolding is_get
is_get_nothing = refl

is_set_nothing : is_set 0 ≡ false
unfolding is_set
is_set_nothing = refl

perform-delete_example :
    (after : List Htable) × (perform zeros pipe entries pending 9 [] nothing_asked
      ≡ ok (record packet_new { flags = bit_or pkt_flag_del pkt_flag_ack }, after))
    × ((j : List ℕ)
        → stored entries after j ≡ ite (bytes-discrete j (5 ∷ [])) none (stored entries [] j))
perform-delete_example =
    perform-delete zeros pipe entries pending 9 [] nothing_asked is_get_nothing is_set_nothing
      (omega arith)

-- The number of the text's bytes, for the parsers of numbers.
abbrev count_text : List ℕ → Long × Option ℕ
count_text t = (plus (length t), none)

abbrev count_id : List ℕ → ℕ × Option ℕ
count_id t = (length t, none)

abbrev one_by_one : List (List ℕ)
one_by_one = replicate 10 (49 ∷ [])

-- A pipe on which a client comes first, and then a line on stdin, which ends the server.
abbrev leaving : Network
leaving = record pipe {
  poll = λ (fds : List (Option ℕ)) (w : Pipe).
      (elim fds as (λ _. Poll) [ [] ↦ ready false true [] | fd ∷ more ↦ ready true false [] ], w);
}

abbrev its_peer : Peer
its_peer = record { node_id = 1; hostname = 49 ∷ []; port = 1; socket = none }

abbrev left : Node zeros leaving entries pending 9
left = record {
  server = record { socket = some 9; n_clients = 0; active = true; clients = [] };
  globals = record { ht = []; rt = []; self = its_peer; pred = its_peer; succ = its_peer };
  world = ([], []);
}

main_ends :
    main zeros leaving entries pending 9 count_text count_id (1 ∷ 2 ∷ []) 0 one_by_one ([], [])
    ≡ ok (ended left)
unfolding main arguments start_server run_with peer_init server_setup setup_found bind_any tried
    set_up server_run run_loop server_round poll_answer serve_all sweep server_add_client new_client
    server_stop stop_all server_remove_client unlink find_client rb_new
main_ends = refl

main-NoClients_example : (left.server.clients ≡ []) × (◌≡◌ {A = ℕ} left.server.n_clients 0)
main-NoClients_example =
    main-NoClients zeros leaving entries pending 9 count_text count_id (1 ∷ 2 ∷ []) 0 one_by_one
      ([], []) left main_ends
