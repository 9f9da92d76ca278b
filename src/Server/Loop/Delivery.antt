-- ===== src/Server/Loop/Delivery.antt =====
-- How calls of recv by the server of praxis2/src/server.c, one for each time that a client is served,
-- make a packet of what comes from the client.
pub mod Phases
pub mod Progress
pub mod Turning
pub mod Arrival
use rn.Prelude.{
  ℕ, zero, suc, ◌+◌, ◌≤◌, ◌<◌, ◌^◌, ◌≡◌, ◌≢◌, refl, sym, ap, ◌∙◌, Option, Option-cases, none, some,
  List, [], ◌∷◌, ◌++◌, arith, Exec, ok, ◌>>=◌, Allocator, length, length-append, take, drop, inl,
  inr,
}
use rn.Packet.Message.{Message, packet_of}
use rn.RingBuffer.Contents.{contents}
use rn.Network.{Network, Stream}
use rn.Server.{
  Client, idle, Server, System, Callback, find_client, write_client, set_client,
  server_deliver_packet,
}
use rn.Server.Writing.{find_client-write, write_client-twice}
use rn.Server.Loop.{serve_client}
use rn.Server.Loop.Framing.{Collects}

-- The system with another struct at the client's address, and with another outside world.
abbrev pub holding : {net : Network} {G : Type 0} → System net G → Client → net.World → System net G
holding s c w = record s {
  server = record (s.server) { clients = write_client s.server.clients c };
  world = w;
}

-- A client that waits for the next packet.
pub record Waits (c : Client) : Type 0 where
  pub state : c.state ≡ idle
  pub collects : Collects c
  pub nothing_yet : contents c.header_buf ≡ []

module _ (heap : Allocator) (net : Network) {G : Type 0} (packet_cb : Option (Callback net G)) where
  -- The client at `a` is served `calls` times.
  pub serve_times : ℕ → ℕ → System net G → Exec (System net G)
  serve_times zero a s = ok s
  serve_times (suc calls) a s = do
    served ← serve_client heap net packet_cb s a
    serve_times calls a served

  -- From the system `now` at most `bound` calls lead to the delivery of the message `m` by a client at
  -- the address `a`, with `rest` still to be received. Apart from this client's struct and the
  -- outside world the system is `s` then.
  pub record Delivers (s : System net G) (a : ℕ) (socket : Option ℕ) (stream : Stream net socket)
      (m : Message) (rest : List ℕ) (now : System net G) (bound : ℕ) : Type 0 where
    pub calls : ℕ
    pub within : calls + 1 ≤ bound
    pub before : System net G
    pub served : serve_times calls a now ≡ ok before
    pub client : Client
    pub world : net.World
    pub last :
        serve_client heap net packet_cb before a
        ≡ server_deliver_packet net packet_cb (holding s client world) a
    pub address : client.address ≡ a
    pub its_socket : client.socket ≡ socket
    pub waits : Waits client
    pub no_buffer : client.pkt_buf ≡ none
    pub pack : client.pack ≡ some (packet_of m)
    pub remaining : stream.incoming world ≡ rest

  pub after_step :
      (s : System net G) (a : ℕ) (socket : Option ℕ) (stream : Stream net socket) (m : Message)
      (rest : List ℕ) (now next : System net G) (bound n : ℕ)
      → serve_client heap net packet_cb now a ≡ ok next
      → Delivers s a socket stream m rest next bound
      → suc bound ≤ n
      → Delivers s a socket stream m rest now n
  unfolding serve_times
  after_step s a socket stream m rest now next bound n e v h = record {
    calls = suc v.calls;
    within = omega (arith, v.within, h);
    before = v.before;
    served = rw e v.served;
    client = v.client;
    world = v.world;
    last = v.last;
    address = v.address;
    its_socket = v.its_socket;
    waits = v.waits;
    no_buffer = v.no_buffer;
    pack = v.pack;
    remaining = v.remaining;
  }

-- What an answer of recv takes off the front of the stream.
pub split_front :
    (bytes after front tail : List ℕ)
    → bytes ++ after ≡ front ++ tail
    → length bytes ≤ length front
    → (more : List ℕ) × (front ≡ bytes ++ more) × (after ≡ more ++ tail)
split_front [] after front tail e h = (front, refl, e)
split_front (b ∷ bytes) after [] tail e h = absurd (omega arith)
split_front (b ∷ bytes) after (f ∷ front) tail e h =
    let (more, same, behind) = split_front bytes after front tail (cc) (omega arith) in
    let heads : b ≡ f = cc in (more, cc, behind)

not_empty :
    (bytes to_come : List ℕ) → (bytes ≡ [] → to_come ≡ []) → 0 < length to_come → 0 < length bytes
not_empty [] to_come h there = absurd (omega (arith, ap (λ (l : List ℕ). length l) (h refl)))
not_empty (b ∷ bytes) to_come h there = omega arith

module _ (net : Network) (socket : Option ℕ) (stream : Stream net socket)
    (no_error : (n : ℕ) (w : net.World) → (net.recv socket n w).0 ≢ none) where
  open net use {World, recv}
  open stream use {incoming, incoming-recv}

  -- What recv gives where there is room and something to come.
  pub some_come :
      (n : ℕ) (w : World)
      → 0 < n
      → 0 < length (incoming w)
      → (bytes : List ℕ) × ((recv socket n w).0 ≡ some bytes)
        × (0 < length bytes)
        × (length bytes ≤ n)
        × (incoming w ≡ bytes ++ incoming (recv socket n w).1)
  some_come n w room there = elim (Option-cases (recv socket n w).0) [
    | inl error ↦ absurd (no_error n w error)
    | inr (bytes, e) ↦
        let (few, parts, end) = incoming-recv w n bytes e in
        (bytes, e, not_empty bytes (incoming w) (end room) there, few, parts)
  ]
