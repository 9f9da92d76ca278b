-- ===== src/Server/Loop/Counting.antt =====
-- The number of clients that praxis2/src/server.c keeps is that of the list, from one round of the
-- loop to the next: the array for poll has an element for each.
use rn.Prelude.{
  ℕ, ◌+◌, ◌≡◌, Bool, true, false, Option, none, some, List, [], ◌∷◌, map, Exec, ok, deref,
  Allocator, length, ltb, ◌==◌, if◌then◌else◌, Ensures, ends, Ensures-if, Ensures-bind,
  Ensures-after,
}
use rn.Packet.{Packet}
use rn.RingBuffer.{rb_can_write, rb_write}
use rn.Network.{Network, Poll, poll_failed, timed_out, ready}
use rn.Server.{
  Client, ClientState, idle, hdr_recvd, remove, System, CbStatus, cb_ok, cb_remove_client, Callback,
  find_client, as_int, client_decode_body, addresses, server_add_client, server_remove_client,
  set_client, server_deliver_packet,
}
use rn.Server.Loop.{
  header_bytes, body_fed, body_bytes, receive_header, receive_body, receive_in, serve_client,
  serve_all, remove_if_marked, sweep, poll_answer, server_round, run_loop, server_run,
}
use rn.Server.Clients.{
  Counted, set_client-Counted, remove_client-Counted, add_client-Counted, server_stop_lem,
}

-- A callback keeps the count, wherever it returns.
abbrev pub KeepsCount : {net : Network} {G : Type 0} → Callback net G → Type 0
KeepsCount {net} {G} packet_cb =
    (s : System net G) (a : ℕ) (p : Option Packet)
    → Counted s.server
    → Ensures (λ (r : CbStatus × System net G). Counted r.1.server) (packet_cb s a p)

module _ (heap : Allocator) (net : Network) {G : Type 0} (packet_cb : Callback net G)
    (keeps : KeepsCount packet_cb) where
  -- What a piece of the loop ensures.
  abbrev KeptCount : Exec (System net G) → Type 0
  KeptCount = Ensures (λ (t : System net G). Counted t.server)

  -- Both values that a callback returns.
  by_status :
      (a : ℕ) (rsp : CbStatus) (after : System net G)
      → Counted after.server
      → KeptCount (elim rsp [
        | cb_remove_client ↦ ok (server_remove_client net after (some a))
        | cb_ok ↦ ok after
      ])
  by_status a cb_remove_client after h = ends (remove_client-Counted net after (some a) h)
  by_status a cb_ok after h = ends h

  deliver-Counted :
      (s : System net G) (a : ℕ)
      → Counted s.server
      → KeptCount (server_deliver_packet net (some packet_cb) s a)
  unfolding server_deliver_packet
  deliver-Counted s a h =
      Ensures-after (deref (find_client s.server.clients a))
        (λ c. Ensures-bind (keeps s a c.pack h) (λ (rsp, after) k. by_status a rsp after k))

  header_bytes-Counted :
      (s : System net G) (c : Client) (answer : Option (List ℕ))
      → Counted s.server
      → KeptCount (header_bytes heap net (some packet_cb) s c answer)
  unfolding header_bytes
  header_bytes-Counted s c none h = ends h
  header_bytes-Counted s c (some bytes) h =
      Ensures-if (length bytes == 0) (ends (remove_client-Counted net s (some c.address) h)) (
        Ensures-after (rb_write c.header_buf bytes (length bytes)) (λ (avail, header_buf).
          Ensures-after _ (λ decoded. ends (set_client-Counted net s decoded h))))

  body_fed-Counted :
      (s : System net G) (c : Client) (room : ℕ)
      → Counted s.server
      → KeptCount (body_fed heap net (some packet_cb) s c room)
  unfolding body_fed
  body_fed-Counted s c room h =
      Ensures-if (room == 0)
        (Ensures-after (client_decode_body heap c) (λ decoded.
          deliver-Counted (set_client net s decoded) c.address
            (set_client-Counted net s decoded h)))
        (ends (set_client-Counted net s c h))

  body_bytes-Counted :
      (s : System net G) (c : Client) (answer : Option (List ℕ))
      → Counted s.server
      → KeptCount (body_bytes heap net (some packet_cb) s c answer)
  unfolding body_bytes
  body_bytes-Counted s c none h = ends h
  body_bytes-Counted s c (some bytes) h =
      Ensures-if (length bytes == 0) (ends (remove_client-Counted net s (some c.address) h)) (
        Ensures-after (deref c.pkt_buf) (λ old.
          Ensures-after (rb_write old bytes (length bytes)) (λ (avail, pkt_buf).
            body_fed-Counted s (record c { pkt_buf = some pkt_buf }) (rb_can_write pkt_buf) h)))

  receive_in-Counted :
      (state : ClientState) (s : System net G) (c : Client)
      → Counted s.server
      → KeptCount (receive_in heap net (some packet_cb) state s c)
  unfolding receive_in receive_header receive_body
  receive_in-Counted idle s c h = Ensures-after (as_int (rb_can_write c.header_buf)) (λ needed.
      let (answer, world) = net.recv c.socket needed s.world in
      header_bytes-Counted (record s { world = world }) c answer h)
  receive_in-Counted hdr_recvd s c h = Ensures-after (deref c.pkt_buf) (λ pkt_buf.
      Ensures-after (as_int (rb_can_write pkt_buf)) (λ needed.
        let (answer, world) = net.recv c.socket needed s.world in
        body_bytes-Counted (record s { world = world }) c answer h))
  receive_in-Counted remove s c h = Ensures-after (deref c.pkt_buf) (λ pkt_buf.
      Ensures-after (as_int (rb_can_write pkt_buf)) (λ needed.
        let (answer, world) = net.recv c.socket needed s.world in
        body_bytes-Counted (record s { world = world }) c answer h))

  serve_client-Counted :
      (s : System net G) (a : ℕ)
      → Counted s.server
      → KeptCount (serve_client heap net (some packet_cb) s a)
  unfolding serve_client
  serve_client-Counted s a h =
      Ensures-after (deref (find_client s.server.clients a)) (λ c. receive_in-Counted c.state s c h)

  serve_all-Counted :
      (as' : List ℕ) (revents : List Bool) (i : ℕ) (s : System net G)
      → Counted s.server
      → KeptCount (serve_all heap net (some packet_cb) as' revents i s)
  unfolding serve_all
  serve_all-Counted [] revents i s h = ends h
  serve_all-Counted (a ∷ as') [] i s h = ends h
  serve_all-Counted (a ∷ as') (readable ∷ more) i s h =
      Ensures-if (ltb i (s.server.n_clients + 2))
        (Ensures-bind (Ensures-if readable (serve_client-Counted s a h) (ends h))
          (λ served k. serve_all-Counted as' more (i + 1) served k))
        (ends h)

  remove_if_marked-Counted :
      (state : ClientState) (s : System net G) (c : Client)
      → Counted s.server
      → Counted (remove_if_marked heap net (some packet_cb) state s c).server
  unfolding remove_if_marked
  remove_if_marked-Counted remove s c h = remove_client-Counted net s (some c.address) h
  remove_if_marked-Counted idle s c h = h
  remove_if_marked-Counted hdr_recvd s c h = h

  sweep-Counted :
      (as' : List ℕ) (s : System net G)
      → Counted s.server
      → KeptCount (sweep heap net (some packet_cb) as' s)
  unfolding sweep
  sweep-Counted [] s h = ends h
  sweep-Counted (a ∷ as') s h = Ensures-after (deref (find_client s.server.clients a)) (λ c.
      sweep-Counted as' (remove_if_marked heap net (some packet_cb) c.state s c)
        (remove_if_marked-Counted c.state s c h))

  poll_answer-Counted :
      (address : ℕ) (answer : Poll) (s : System net G)
      → Counted s.server
      → Ensures
          (λ (r : Bool × System net G). Counted r.1.server)
          (poll_answer heap net (some packet_cb) address answer s)
  unfolding poll_answer
  poll_answer-Counted address poll_failed s h = ends h
  poll_answer-Counted address timed_out s h = ends h
  poll_answer-Counted address (ready true listening revents) s h = ends h
  poll_answer-Counted address (ready false listening revents) s h =
      Ensures-bind (serve_all-Counted (addresses net s) revents 2 s h) (λ served k.
        Ensures-bind (sweep-Counted (addresses net served) served k)
          (λ swept l. ends (added listening swept l)))
    where
      added :
          (listening : Bool) (swept : System net G)
          → Counted swept.server
          → Counted (if listening then server_add_client net heap address swept else swept).server
      added true swept l = add_client-Counted net heap address swept l
      added false swept l = l

  -- A round of the server's loop keeps the number of clients with the list, whatever poll and recv
  -- answer and whoever is served, removed and added in it, if the callback keeps it.
  pub server_round-Counted :
      (address : ℕ) (s : System net G)
      → Counted s.server
      → Ensures
          (λ (r : Bool × System net G). Counted r.1.server)
          (server_round heap net (some packet_cb) address s)
  unfolding server_round
  server_round-Counted address s h =
      let (answer, world) = net.poll (map (λ (c : Client). c.socket) s.server.clients) s.world in
      poll_answer-Counted address answer (record s { world = world }) h

  -- What a server that has stopped leaves: no client, and none counted.
  abbrev pub Stopped : Option (System net G) → Type 0
  Stopped none = Unit
  Stopped (some s) = (s.server.clients ≡ []) × (s.server.n_clients ≡ 0)

  run_loop-Stopped :
      (fresh : List ℕ) (s : System net G)
      → Counted s.server
      → Ensures Stopped (run_loop heap net (some packet_cb) fresh s)
  unfolding run_loop
  run_loop-Stopped [] s h = ends tt
  run_loop-Stopped (address ∷ more) s h =
      Ensures-bind (server_round-Counted address s h) (λ (goes_on, after) k.
        Ensures-if goes_on (run_loop-Stopped more after k) (ends (server_stop_lem net after k)))

  -- A server that is started with the right count and stops has removed every client that came in the
  -- meantime.
  pub server_run-Stopped :
      (fresh : List ℕ) (s : System net G)
      → Counted s.server
      → Ensures Stopped (server_run heap net (some packet_cb) fresh s)
  unfolding server_run
  server_run-Stopped fresh s h = run_loop-Stopped fresh _ h
