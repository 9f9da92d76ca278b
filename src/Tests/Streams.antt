-- ===== src/Tests/Streams.antt =====
-- Tests of sendall and recvall, and of the server.
use rn.Prelude.{ℕ, List, false, ◌≡◌, ◌≢◌, ◌≤◌, true, refl, [], ◌∷◌, ◌++◌, none, some, arith, ok}
use rn.RingBuffer.{RingBuffer, rb_can_write}
use rn.RingBuffer.Positions.{rb_can_read_lem, can_read-add-can_write}
use rn.RingBuffer.Contents.{contents}
use rn.Network.{Network, ready}
use rn.Transfer.{sendall, recvall}
use rn.Transfer.Sending.{Delivered, sendall_lem}
use rn.Transfer.Receiving.{Received, recvall_lem}
use rn.Server.{Server, Client, System, Callback, idle, cb_ok, set_client, server_stop}
use rn.Prelude.{Bool, Option, Ensures, ends}
use rn.Server.Clients.{Counted}
use rn.Server.Setup.{server_setup, SetUp, server_setup_lem}
use rn.Server.Loop.Counting.{KeepsCount, server_round-Counted}
use rn.Server.Loop.{server_round, header_bytes}
use rn.Server.Loop.Framing.{Collects, Fed, header_bytes_lem}
use rn.Server.Clients.{server_stop_lem}
use rn.Tests.Fixtures.{zeros, Pipe, pipe, stream}

abbrev quiet : Pipe
quiet = (7 ∷ 8 ∷ 9 ∷ 10 ∷ [], [])

sendall_lem_example :
    Delivered pipe
      (some 9)
      stream
      (1 ∷ 2 ∷ 3 ∷ [])
      quiet
      (sendall pipe (some 9) (1 ∷ 2 ∷ 3 ∷ []) 3 quiet)
sendall_lem_example = sendall_lem pipe (some 9) stream (1 ∷ 2 ∷ 3 ∷ []) quiet

no_error : (n : ℕ) (w : Pipe) → (pipe.recv (some 9) n w).0 ≢ none
no_error n w e = ground arith

recvall_lem_example :
    Received pipe zeros (some 9) stream (7 ∷ 8 ∷ 9 ∷ 10 ∷ []) (recvall pipe zeros 5 (some 9) quiet)
recvall_lem_example =
    recvall_lem pipe zeros (some 9) stream no_error 5 quiet (omega arith) (omega arith)

-- Three bytes of a header are there.
abbrev partial : RingBuffer
partial = record { buffer = 4 ∷ 0 ∷ 1 ∷ 0 ∷ 0 ∷ 0 ∷ 0 ∷ 0 ∷ []; bufsize = 8; rpos = 0; wpos = 3 }

abbrev pub fresh : Client
fresh = record {
  address = 3;
  socket = some 5;
  state = idle;
  header_buf = partial;
  pkt_buf = none;
  pack = none;
}

abbrev pub busy : System pipe ℕ
busy = record {
  server = record { socket = some 4; n_clients = 1; active = true; clients = fresh ∷ [] };
  globals = 0;
  world = quiet;
}

abbrev pub echo : Callback pipe ℕ
echo s a pack = ok (cb_ok, s)

server_stop_lem_example :
    ((server_stop pipe busy).server.clients ≡ []) × ((server_stop pipe busy).server.n_clients ≡ 0)
server_stop_lem_example = server_stop_lem pipe busy refl

fresh-Collects : Collects fresh
fresh-Collects = record {
  valid = record {
    whole = refl;
    small = omega arith;
    wpos_in = omega arith;
    rpos_in = omega arith;
  };
  size = refl;
}

room_for_two : 2 ≤ rb_can_write partial
room_for_two = omega (
  arith,
  rb_can_read_lem partial fresh-Collects.valid,
  can_read-add-can_write partial fresh-Collects.valid,
)

header_bytes_lem_example :
    (d : Client) × (header_bytes zeros pipe {G = ℕ} (some echo) busy fresh (some (4 ∷ 0 ∷ []))
      ≡ ok (set_client pipe busy d))
    × Fed zeros pipe {G = ℕ} (some echo) (contents partial ++ (4 ∷ 0 ∷ [])) fresh d
unfolding rn.RingBuffer.advance
header_bytes_lem_example =
    header_bytes_lem zeros pipe (some echo) busy fresh (4 ∷ 0 ∷ []) fresh-Collects (omega arith)
      room_for_two (omega arith)

-- A pipe on which the client's descriptor is readable, and a new client comes.
abbrev ringing : Network
ringing = record pipe {
  poll = λ (fds : List (Option ℕ)) (w : Pipe). (ready false true (true ∷ []), w);
}

abbrev ringing_echo : Callback ringing ℕ
ringing_echo s a pack = ok (cb_ok, s)

ringing_echo-KeepsCount : KeepsCount ringing_echo
ringing_echo-KeepsCount s a p h = ends h

server_round-Counted_example :
    Ensures
      (λ (r : Bool × System ringing ℕ). Counted r.1.server)
      (server_round zeros ringing
        (some ringing_echo)
        7
        (record { server = busy.server; globals = 0; world = quiet }))
server_round-Counted_example =
    server_round-Counted zeros ringing ringing_echo ringing_echo-KeepsCount 7
      (record { server = busy.server; globals = 0; world = quiet }) refl

server_setup_lem_example :
    (end : Option Server × Pipe) × (server_setup pipe (56 ∷ 48 ∷ []) quiet ≡ ok end)
    × SetUp pipe (1 ∷ 2 ∷ []) end
server_setup_lem_example = server_setup_lem pipe (56 ∷ 48 ∷ []) quiet 1 (2 ∷ []) refl
