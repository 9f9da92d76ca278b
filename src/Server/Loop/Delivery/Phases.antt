-- ===== src/Server/Loop/Delivery/Phases.antt =====
-- The header and the body of a packet, as the server of praxis2/src/server.c receives them.
use rn.Prelude.{
  ℕ, ◌<◌, ◌^◌, ◌≡◌, refl, ap, ◌∙◌, Option, some, List, arith, ok, ◌>>=◌, Allocator, deref,
}
use mathlib.Core.Path.{subst}
use rn.RingBuffer.{RingBuffer, rb_can_write}
use rn.Network.{Network}
use rn.Server.{
  Client, ClientState, idle, hdr_recvd, System, Callback, find_client, set_client, as_int,
}
use rn.Server.Writing.{find_client-write, write_client-twice}
use rn.Server.Loop.{
  serve_client, receive_in, receive_header, receive_body, header_bytes, body_bytes,
}
use rn.Server.Loop.Delivery.{holding}

as_int-small : (n : ℕ) → n < 2 ^ 31 → as_int n ≡ ok n
unfolding as_int
as_int-small n h = ground arith

module _ (net : Network) {G : Type 0} (s : System net G) where
  pub written_over :
      (c d : Client) (w : net.World)
      → c.address ≡ d.address
      → set_client net (holding s c w) d ≡ holding s d w
  unfolding set_client
  written_over c d w e =
      ap (λ cs. record (holding s c w) { server = record (s.server) { clients = cs } })
        (write_client-twice s.server.clients c d e)

module _ (heap : Allocator) (net : Network) {G : Type 0} (packet_cb : Option (Callback net G))
    (s : System net G) (a : ℕ) (c0 : Client) (there : find_client s.server.clients a ≡ some c0)
    (socket : Option ℕ) where
  -- A client at this address on this socket.
  abbrev pub Ours : Client → Type 0
  Ours c = (c.address ≡ a) × (c.socket ≡ socket)

  -- The system holds the struct that has been written last.
  holds :
      (c : Client) (w : net.World)
      → c.address ≡ a
      → find_client (holding s c w).server.clients a ≡ some c
  holds c w e =
      subst
        (λ x.
          find_client s.server.clients x ≡ some c0
          → find_client (holding s c w).server.clients x ≡ some c)
        e (find_client-write s.server.clients c0 c) there

  found_in :
      (c : Client) (w : net.World) (state : ClientState)
      → c.address ≡ a
      → c.state ≡ state
      → serve_client heap net packet_cb (holding s c w) a
        ≡ receive_in heap net packet_cb state (holding s c w) c
  unfolding serve_client
  found_in c w state e is =
      ap (λ o. deref o >>= λ d. receive_in heap net packet_cb d.state (holding s c w) d)
        (holds c w e)
      ∙ ap (λ st. receive_in heap net packet_cb st (holding s c w) c) is

  -- One call for a client whose header is collected.
  pub serve_header :
      (c : Client) (w : net.World) (bytes : List ℕ)
      → Ours c
      → c.state ≡ idle
      → rb_can_write c.header_buf < 2 ^ 31
      → (net.recv socket (rb_can_write c.header_buf) w).0 ≡ some bytes
      → serve_client heap net packet_cb (holding s c w) a
        ≡ header_bytes heap net packet_cb
            (holding s c (net.recv socket (rb_can_write c.header_buf) w).1)
            c
            (some bytes)
  unfolding receive_in receive_header
  serve_header c w bytes ours state small =
      subst
        (λ k.
          (net.recv k (rb_can_write c.header_buf) w).0 ≡ some bytes
          → serve_client heap net packet_cb (holding s c w) a
            ≡ header_bytes heap net packet_cb
                (holding s c (net.recv k (rb_can_write c.header_buf) w).1) c (some bytes))
        (ours.1)
        (λ answer.
          found_in c w idle (ours.0) state
          ∙ rw (as_int-small (rb_can_write c.header_buf) small, answer) refl)

  -- One call for a client whose body is collected.
  pub serve_body :
      (c : Client) (rb : RingBuffer) (w : net.World) (bytes : List ℕ)
      → Ours c
      → c.state ≡ hdr_recvd
      → c.pkt_buf ≡ some rb
      → rb_can_write rb < 2 ^ 31
      → (net.recv socket (rb_can_write rb) w).0 ≡ some bytes
      → serve_client heap net packet_cb (holding s c w) a
        ≡ body_bytes heap net packet_cb
            (holding s c (net.recv socket (rb_can_write rb) w).1)
            c
            (some bytes)
  unfolding receive_in receive_body
  serve_body c rb w bytes ours state buf small =
      subst
        (λ k.
          (net.recv k (rb_can_write rb) w).0 ≡ some bytes
          → serve_client heap net packet_cb (holding s c w) a
            ≡ body_bytes heap net packet_cb (holding s c (net.recv k (rb_can_write rb) w).1) c
                (some bytes))
        (ours.1)
        (λ answer.
          found_in c w hdr_recvd (ours.0) state
          ∙ simp (buf, as_int-small (rb_can_write rb) small, answer) refl)
