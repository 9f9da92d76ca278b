-- ===== src/Tests/Deliveries.antt =====
-- Tests of the server with a client whose packet comes in piece by piece, and of the sweep.
use rn.Prelude.{ℕ, ◌≡◌, ◌≢◌, refl, [], ◌∷◌, none, some, true, arith, ok}
use rn.RingBuffer.{RingBuffer}
use rn.Packet.Message.{Message, request}
use rn.Server.{Client, idle, remove, System, find_client}
use rn.Server.Loop.{sweep}
use rn.Server.Loop.Delivery.{Waits, Delivers}
use rn.Server.Loop.Delivery.Arrival.{delivery_lem}
use rn.Server.Loop.Sweeping.{sweep_lem}
use rn.Peer.Handlers.{Node}
use rn.Peer.Handlers.Entries.{WellStored}
use rn.Peer.Handlers.Exchange.{Served, request_served_lem}
use rn.Tests.Fixtures.{Pipe, zeros, pipe, stream}
use rn.Tests.Streams.{echo}
use rn.Tests.Peers.{entries, pending, node}

abbrev empty_header : RingBuffer
empty_header = record {
  buffer = 0 ∷ 0 ∷ 0 ∷ 0 ∷ 0 ∷ 0 ∷ 0 ∷ 0 ∷ [];
  bufsize = 8;
  rpos = 0;
  wpos = 0;
}

abbrev pub waiting : Client
waiting = record {
  address = 3;
  socket = some 9;
  state = idle;
  header_buf = empty_header;
  pkt_buf = none;
  pack = none;
}

pub waiting-Waits : Waits waiting
waiting-Waits = record {
  state = refl;
  collects = record {
    valid = record {
      whole = refl;
      small = omega arith;
      wpos_in = omega arith;
      rpos_in = omega arith;
    };
    size = refl;
  };
  nothing_yet = refl;
}

-- A GET of the key 1 2, and a byte behind it.
abbrev asking : Message
asking = request 4 (1 ∷ 2 ∷ []) []

abbrev pub to_come : Pipe
to_come = (4 ∷ 0 ∷ 2 ∷ 0 ∷ 0 ∷ 0 ∷ 0 ∷ 1 ∷ 2 ∷ 77 ∷ [], [])

abbrev with_client : System pipe ℕ
with_client = record {
  server = record { socket = some 4; n_clients = 1; active = true; clients = waiting ∷ [] };
  globals = 0;
  world = to_come;
}

pub no_error : (n : ℕ) (w : Pipe) → (pipe.recv (some 9) n w).0 ≢ none
no_error n w e = ground arith

delivery_lem_example :
    Delivers zeros pipe {G = ℕ}
      (some echo)
      with_client
      3
      (some 9)
      stream
      asking
      (77 ∷ [])
      with_client
      9
unfolding find_client
delivery_lem_example =
    delivery_lem zeros pipe (some echo) with_client 3 waiting asking (77 ∷ []) stream no_error refl
      waiting-Waits (omega arith) (omega arith) (omega arith) (omega arith) refl

abbrev pub peer : Node zeros pipe entries pending 9
peer = record node {
  server = record { socket = some 4; n_clients = 1; active = true; clients = waiting ∷ [] };
  world = to_come;
}

pub peer-WellStored : WellStored entries []
peer-WellStored j e there = absurd (ground (arith, entries.find-empty j))

request_served_lem_example :
    Served zeros pipe entries pending 9 peer 3 waiting 4 (1 ∷ 2 ∷ []) [] (77 ∷ []) stream
unfolding find_client
request_served_lem_example =
    request_served_lem zeros pipe entries pending 9 peer 3 waiting 4 (1 ∷ 2 ∷ []) [] (77 ∷ [])
      stream no_error refl waiting-Waits (omega arith) (omega arith) (omega arith) (omega arith)
      refl peer-WellStored (omega arith) (omega arith) (omega arith) (omega arith)

abbrev leaving : Client
leaving = record waiting { address = 5; state = remove; socket = some 6 }

abbrev two_clients : System pipe ℕ
two_clients = record with_client {
  server = record {
    socket = some 4;
    n_clients = 2;
    active = true;
    clients = leaving ∷ waiting ∷ [];
  };
}

sweep_lem_example : sweep zeros pipe {G = ℕ} (some echo) (5 ∷ 3 ∷ []) two_clients ≡ ok with_client
sweep_lem_example = sweep_lem pipe zeros (some echo) two_clients refl (omega arith)
