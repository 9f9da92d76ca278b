-- ===== src/Server.antt =====
-- praxis2/src/server.c and praxis2/include/server.h: the clients that are connected, and the state
-- machine that collects a packet from each. A client's `address` is the pointer to its struct; what
-- is looked up under an address that no client of the list has is read after free. The fields for
-- the socket address of a client serve only for messages, and are left out.
pub mod Loop
pub mod Setup
pub mod Clients
pub mod Writing
use rn.Prelude.{
  ℕ, zero, suc, ◌+◌, ◌-◌, ◌^◌, Bool, true, false, Option, none, some, List, [], ◌∷◌, map, Exec, ok,
  fault, ◌>>=◌, deref, Allocator, length, ltb, ◌==◌, if◌then◌else◌,
}
use rn.Packet.{Packet, packet_decode_hdr, packet_decode_body, packet_body_size, pkt_header_len}
use rn.RingBuffer.{RingBuffer, rb_new, rb_can_read, rb_can_write, rb_write, rb_read}
use rn.Network.{Network, Poll, poll_failed, timed_out, ready}

-- `cstate`
pub data ClientState : Type 0 where
  idle hdr_recvd remove : ClientState

pub record Client : Type 0 where
  pub address : ℕ
  pub socket : Option ℕ
  pub state : ClientState
  pub header_buf : RingBuffer
  pub pkt_buf : Option RingBuffer
  pub pack : Option Packet

-- The callback stands beside the server, in the section below.
pub record Server : Type 0 where
  pub socket : Option ℕ
  pub n_clients : ℕ
  pub active : Bool
  pub clients : List Client

-- The two values that a callback returns.
pub data CbStatus : Type 0 where
  cb_remove_client cb_ok : CbStatus

-- `==` on descriptors; all negative ones are one.
pub same_socket : Option ℕ → Option ℕ → Bool
same_socket none none = true
same_socket none (some t) = false
same_socket (some s) none = false
same_socket (some s) (some t) = s == t

pub mark_socket : List Client → Option ℕ → List Client
mark_socket [] socket = []
mark_socket (c ∷ cs) socket =
    if same_socket c.socket socket
    then record c { state = remove } ∷ cs
    else c ∷ mark_socket cs socket

pub server_close_socket : Server → Option ℕ → Server
server_close_socket srv socket = record srv { clients = mark_socket srv.clients socket }

unfoldable pub find_client : List Client → ℕ → Option Client
find_client [] a = none
find_client (c ∷ cs) a = if c.address == a then some c else find_client cs a

-- The list without the client at `a`, and with another struct at its address.
unfoldable pub unlink : List Client → ℕ → List Client
unlink [] a = []
unlink (c ∷ cs) a = if c.address == a then cs else c ∷ unlink cs a

pub write_client : List Client → Client → List Client
write_client [] new = []
write_client (c ∷ cs) new = if c.address == new.address then new ∷ cs else c ∷ write_client cs new

-- `rb_can_write` as an `int`, the size of an array on the stack. A larger number would be negative.
pub as_int : ℕ → Exec ℕ
as_int n = if ltb n (2 ^ 31) then ok n else fault

module _ (heap : Allocator) where
  -- The array `hdr` holds any bytes before it is filled.
  pub client_decode_hdr : Client → Exec Client
  client_decode_hdr c = do
    (avail, hdr, header_buf) ← rb_read c.header_buf (heap.malloc pkt_header_len) pkt_header_len
    pack ← packet_decode_hdr hdr pkt_header_len
    p ← deref pack
    ok (record c {
      state = hdr_recvd;
      header_buf = header_buf;
      pack = pack;
      pkt_buf = some (rb_new heap (packet_body_size p));
    })

  pub client_decode_body : Client → Exec Client
  client_decode_body c = do
    pkt_buf ← deref c.pkt_buf
    let avail = rb_can_read pkt_buf
    (had, buffer, emptied) ← rb_read pkt_buf (heap.malloc avail) avail
    p ← deref c.pack
    pack ← packet_decode_body p buffer avail
    ok (record c { pack = pack; state = idle; pkt_buf = none })

  -- A client that accept has given the descriptor `socket`, or a negative one, at a free address.
  unfoldable pub new_client : ℕ → Option ℕ → Client
  new_client address socket = record {
    address = address;
    socket = socket;
    state = idle;
    header_buf = rb_new heap pkt_header_len;
    pkt_buf = none;
    pack = none;
  }

-- A server with what the callback works on, `globals`, and the outside world.
pub record System (net : Network) (G : Type 0) : Type 0 where
  pub server : Server
  pub globals : G
  pub world : net.World

-- `packet_cb`: it is given the server, the client and the client's packet.
abbrev pub Callback : (net : Network) (G : Type 0) → Type 0
Callback net G = System net G → ℕ → Option Packet → Exec (CbStatus × System net G)

module _ (net : Network) {G : Type 0} where
  close_client : System net G → ℕ → Option Client → System net G
  close_client s a none = s
  close_client s a (some c) = record s {
    server = record (s.server) {
      clients = unlink s.server.clients a;
      n_clients = s.server.n_clients - 1;
    };
    world = net.close c.socket s.world;
  }

  -- The NULL client, and one that is not in the list, are only reported.
  unfoldable pub server_remove_client : System net G → Option ℕ → System net G
  unfolding close_client
  server_remove_client s none = s
  server_remove_client s (some a) = close_client s a (find_client s.server.clients a)

  pub set_client : System net G → Client → System net G
  set_client s c = record s {
    server = record (s.server) { clients = write_client s.server.clients c };
  }

  -- The callback is NULL where it is `none`.
  pub server_deliver_packet : Option (Callback net G) → System net G → ℕ → Exec (System net G)
  server_deliver_packet none s a = ok s
  server_deliver_packet (some packet_cb) s a = do
    c ← deref (find_client s.server.clients a)
    (rsp, after) ← packet_cb s a c.pack
    elim rsp [ cb_remove_client ↦ ok (server_remove_client after (some a)) | cb_ok ↦ ok after ]

  -- accept's result is taken unchecked. `address` is where malloc puts the new client.
  unfoldable pub server_add_client : Allocator → ℕ → System net G → System net G
  server_add_client heap address s =
      let (socket, world) = net.accept s.server.socket s.world in
      record s {
        server = record (s.server) {
          clients = new_client heap address socket ∷ s.server.clients;
          n_clients = s.server.n_clients + 1;
        };
        world = world;
      }

  abbrev pub addresses : System net G → List ℕ
  addresses s = map (λ (c : Client). c.address) s.server.clients

  unfoldable pub stop_all : List ℕ → System net G → System net G
  stop_all [] s = s
  stop_all (a ∷ as') s = stop_all as' (server_remove_client s (some a))

  unfoldable pub server_stop : System net G → System net G
  server_stop s = stop_all (addresses s) s
