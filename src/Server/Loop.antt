-- ===== src/Server/Loop.antt =====
-- server_run of praxis2/src/server.c: what one client's bytes do, one round of poll, and the loop.
pub mod Framing
pub mod Bodies
pub mod Messages
pub mod Lengths
pub mod Counting
pub mod Sweeping
pub mod Delivery
use rn.Prelude.{
  ℕ, zero, suc, ◌+◌, ◌-◌, ◌<◌, Bool, true, false, Option, none, some, List, [], ◌∷◌, map, Exec, ok,
  fault, ◌>>=◌, deref, Allocator, length, ltb, ◌==◌, if◌then◌else◌,
}
use rn.Packet.{pkt_header_len}
use rn.RingBuffer.{rb_can_read, rb_can_write, rb_write}
use rn.Network.{Network, Poll, poll_failed, timed_out, ready}
use rn.Server.{
  Client, ClientState, idle, hdr_recvd, remove, Server, System, Callback, find_client, as_int,
  client_decode_hdr, client_decode_body, addresses, server_add_client, server_stop,
  server_remove_client, set_client, server_deliver_packet,
}

module _ (heap : Allocator) (net : Network) {G : Type 0} (packet_cb : Option (Callback net G)) where
  -- Header bytes: at the seventh the header is decoded. An error of recv (`none`) changes nothing.
  pub header_bytes : System net G → Client → Option (List ℕ) → Exec (System net G)
  header_bytes s c none = ok s
  header_bytes s c (some bytes) =
      if length bytes == 0 then ok (server_remove_client net s (some c.address)) else (do
        (avail, header_buf) ← rb_write c.header_buf bytes (length bytes)
        let fed = record c { header_buf = header_buf }
        decoded ←
            (if rb_can_read header_buf == pkt_header_len
              then client_decode_hdr heap fed
              else ok fed)
        ok (set_client net s decoded))

  -- `if (rb_can_write(c->pkt_buf) == 0)`: the packet is complete.
  pub body_fed : System net G → Client → ℕ → Exec (System net G)
  body_fed s c room =
      if room == 0
      then (do
        decoded ← client_decode_body heap c
        server_deliver_packet net packet_cb (set_client net s decoded) c.address)
      else ok (set_client net s c)

  -- Body bytes: when no room is left, the body is decoded and the packet delivered.
  pub body_bytes : System net G → Client → Option (List ℕ) → Exec (System net G)
  body_bytes s c none = ok s
  body_bytes s c (some bytes) =
      if length bytes == 0 then ok (server_remove_client net s (some c.address)) else (do
        old ← deref c.pkt_buf
        (avail, pkt_buf) ← rb_write old bytes (length bytes)
        body_fed s (record c { pkt_buf = some pkt_buf }) (rb_can_write pkt_buf))

  -- recv asks for as many bytes as the buffer in use has room for.
  pub receive_header : System net G → Client → Exec (System net G)
  receive_header s c = do
    bytes_needed ← as_int (rb_can_write c.header_buf)
    let (answer, world) = net.recv c.socket bytes_needed s.world
    header_bytes (record s { world = world }) c answer

  -- The branch of every state but IDLE, also of a client that is marked for removal.
  pub receive_body : System net G → Client → Exec (System net G)
  receive_body s c = do
    pkt_buf ← deref c.pkt_buf
    bytes_needed ← as_int (rb_can_write pkt_buf)
    let (answer, world) = net.recv c.socket bytes_needed s.world
    body_bytes (record s { world = world }) c answer

  pub receive_in : ClientState → System net G → Client → Exec (System net G)
  receive_in idle s c = receive_header s c
  receive_in hdr_recvd s c = receive_body s c
  receive_in remove s c = receive_body s c

  -- A client whose descriptor is readable.
  pub serve_client : System net G → ℕ → Exec (System net G)
  serve_client s a = do c ← deref (find_client s.server.clients a); receive_in c.state s c

  -- The loop over the clients that there were at the start of the round, with their `revents`. Its
  -- bound is the number of clients that there are by now.
  unfoldable pub serve_all : List ℕ → List Bool → ℕ → System net G → Exec (System net G)
  serve_all [] revents i s = ok s
  serve_all (a ∷ as') [] i s = ok s
  serve_all (a ∷ as') (readable ∷ more) i s =
      let next = λ (t : System net G). serve_all as' more (i + 1) t in
      if ltb i (s.server.n_clients + 2)
      then (do served ← (if readable then serve_client s a else ok s); next served)
      else ok s

  remove_if_marked : ClientState → System net G → Client → System net G
  remove_if_marked remove s c = server_remove_client net s (some c.address)
  remove_if_marked idle s c = s
  remove_if_marked hdr_recvd s c = s

  -- The loop that removes the clients marked for it.
  unfoldable pub sweep : List ℕ → System net G → Exec (System net G)
  unfolding remove_if_marked
  sweep [] s = ok s
  sweep (a ∷ as') s = do
    c ← deref (find_client s.server.clients a)
    sweep as' (remove_if_marked c.state s c)

  -- What a round makes of poll's answer; `false` is `break`.
  unfoldable pub poll_answer : ℕ → Poll → System net G → Exec (Bool × System net G)
  poll_answer address poll_failed s = ok (false, s)
  poll_answer address timed_out s = ok (true, s)
  poll_answer address (ready true listening revents) s = ok (false, s)
  poll_answer address (ready false listening revents) s = do
    served ← serve_all (addresses net s) revents 2 s
    swept ← sweep (addresses net served) served
    ok (true, if listening then server_add_client net heap address swept else swept)

  unfoldable pub server_round : ℕ → System net G → Exec (Bool × System net G)
  server_round address s =
      let (answer, world) = net.poll (map (λ (c : Client). c.socket) s.server.clients) s.world in
      poll_answer address answer (record s { world = world })

  -- The loop, for as many rounds as there are addresses for new clients; `none` is a server that
  -- still runs.
  unfoldable pub run_loop : List ℕ → System net G → Exec (Option (System net G))
  run_loop [] s = ok none
  run_loop (address ∷ more) s = do
    (goes_on, after) ← server_round address s
    if goes_on then run_loop more after else ok (some (server_stop net after))

  -- The result of listen is not looked at.
  unfoldable pub server_run : List ℕ → System net G → Exec (Option (System net G))
  server_run fresh s =
      let (listening, world) = net.listen s.server.socket s.world in
      run_loop fresh (record s { server = record (s.server) { active = true }; world = world })
