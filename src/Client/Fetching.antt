-- ===== src/Client/Fetching.antt =====
-- A GET of praxis2/src/client.c that is answered by praxis2/src/peer.c: the two programs, each on
-- a machine of its own, with a connection between them.
use rn.Prelude.{
  ℕ, ◌+◌, ◌^◌, ◌<◌, ◌≡◌, ◌≢◌, ◌⊎◌, refl, ap, ◌∙◌, true, false, Bool, Exec, length-append, Option,
  none, some, List, [], ◌∷◌, ◌++◌, append-nil, length, arith, All, IsByte, Allocator, as_string,
  length-as_string, bit_or, inl, inr,
}
use mathlib.Core.Path.{subst}
use rn.Uthash.{Uthash}
use rn.HashTable.{entry_key}
use rn.HashTable.Store.{stored}
use rn.Requests.{rtable_key}
use rn.Network.{Network, Stream}
use rn.Packet.{pkt_flag_get, pkt_flag_ack, has}
use rn.Packet.Message.{request, message, encode, packet_of, packet_of-IsPacket, bytes-pointer_to}
use rn.Transfer.{sendall}
use rn.Transfer.Sending.{Declines, sendall-taken}
use rn.Transfer.Hashing.{key_hash}
use rn.Server.{find_client}
use rn.Server.{Client}
use rn.Server.Loop.Delivery.{Waits}
use rn.Peer.Handlers.{Node}
use rn.Peer.Handlers.Routing.{Covers}
use rn.Peer.Handlers.Entries.{WellStored, length-stored, is_get-get}
use rn.Peer.Handlers.Effects.{get_reply_lem}
use rn.Peer.Handlers.Serving.{sending}
use rn.Peer.Handlers.Exchange.{Served, request_served_lem}
use rn.Client.{command, get_value, same_text, is_get_value, connect_socket, main}
use rn.Client.Printing.{Output, Refused}
use rn.Client.Reading.{Input}
use rn.Client.Runs.{Apart, Ran, shown, main_lem}

-- "GET"
abbrev pub get : List ℕ
get = 71 ∷ 69 ∷ 84 ∷ []

module _ (heap : Allocator) (net : Network) (htu : Uthash entry_key) (rtu : Uthash rtable_key)
    (fuel : ℕ) where
  -- What the reply to a GET says.
  pub reply_says :
      (s : Node heap net htu rtu fuel) (a : ℕ) (c : Client) (key v rest : List ℕ)
      (stream : Stream net c.socket)
      (d : Served heap net htu rtu fuel s a c pkt_flag_get key [] rest stream)
      → length key < 2 ^ 16
      → WellStored htu s.globals.ht
      → stored htu s.globals.ht key ≡ some v
      → message d.reply.ack
        ≡ request (bit_or pkt_flag_get pkt_flag_ack) (as_string key) (as_string v)
  reply_says s a c key v rest stream d small well there =
      subst
        (λ k.
          stored htu s.globals.ht k ≡ some v
          → message d.reply.ack
            ≡ request (bit_or pkt_flag_get pkt_flag_ack) (as_string k) (as_string v))
        (bytes-pointer_to key)
        (get_reply_lem heap net htu rtu fuel s.globals.ht (packet_of (request pkt_flag_get key []))
          v d.reply (is_get-get heap net htu rtu fuel)
          (packet_of-IsPacket (request pkt_flag_get key []) (omega arith)) well)
        there

  module _ (heap' : Allocator) (net' : Network)
      (getaddrinfo : List ℕ → List ℕ → net'.World → Option (List net'.Address) × net'.World)
      (fread : ℕ → net'.World → List ℕ × net'.World) (fwrite : List ℕ → net'.World → ℕ × net'.World)
      (stdin : Input net' fread) (stdout : Output net' fwrite) (sock : ℕ)
      (connection : Stream net' (some sock)) where
    -- A run of GET for the key.
    abbrev pub Get : List ℕ → List ℕ → ℕ → net'.World → Exec (Bool × net'.World) → Type 0
    Get key v fuel' w1 run =
        Ran heap' net' getaddrinfo fread fwrite stdin stdout sock connection get_value
          (request pkt_flag_get key []) (bit_or pkt_flag_get pkt_flag_ack) (as_string key)
          (as_string v) fuel' w1 run

    -- Exit code 0 and the value printed behind what was printed before; or exit code -1, and fwrite
    -- has refused when the value was printed from the state on in which the reply had been received.
    abbrev pub Fetched :
        (key v : List ℕ) (fuel' : ℕ) (w1 : net'.World) (run : Exec (Bool × net'.World))
        → Get key v fuel' w1 run
        → Type 0
    Fetched key v fuel' w1 run r =
        ((r.code.0 ≡ true) × (stdout.printed r.code.1 ≡ stdout.printed w1 ++ as_string v))
        ⊎ ((r.code.0 ≡ false)
            × Refused heap' net' getaddrinfo fread fwrite stdout r.code.1 (as_string v)
                r.awaited.received)

    fetched :
        (key v : List ℕ) (fuel' : ℕ) (w1 : net'.World) {run : Exec (Bool × net'.World)}
        → Get key v fuel' w1 run
        → (r : Get key v fuel' w1 run) × Fetched key v fuel' w1 run r
    unfolding has is_get_value
    fetched key v fuel' w1 r = (
      r,
      elim r.reported [
        | inl (zero', out) ↦
            inl (
              zero',
              out ∙ ap (λ t. t ++ as_string v) (r.awaited.quiet ∙ ap (λ t. t.0) r.untouched),
            )
        | inr failed' ↦ inr failed'
      ],
    )

    -- The peer `s` stores the value `v` under a key whose hash its test takes for its own: the hash lies
    -- in its arc, and above its predecessor's id. A client runs with GET and this key, and connects to
    -- the peer, whose client `a` is and waits for a packet. What send takes from the client comes in at
    -- the peer, in any pieces, with any bytes behind, and what it takes from the peer for the reply
    -- comes in at the client and is the end of the stream; neither recv nor send makes an error on
    -- either side. Then the client ends with exit code 0 and has printed the value, whole and once, but
    -- as the string that strncpy makes of it: with zeros in place of what stands behind a zero byte. Or
    -- it ends with -1, and in printing this value a call of fwrite, behind those that have printed its
    -- start, has printed nothing.
    pub fetched_lem :
        (s : Node heap net htu rtu fuel) (a : ℕ) (c : Client) (key v rest : List ℕ)
        (stream : Stream net c.socket) (hostname port : List ℕ) (more : List (List ℕ)) (fuel' : ℕ)
        (w w1 : net'.World)
        → ((n : ℕ) (u : net.World) → (net.recv c.socket n u).0 ≢ none)
        → ((block : List ℕ) (u : net.World)
            → 0 < length block
            → ¬ Declines net c.socket stream (net.send c.socket block u).0)
        → find_client s.server.clients a ≡ some c
        → Waits c
        → 0 < length key
        → length key < 2 ^ 16
        → All IsByte key
        → WellStored htu s.globals.ht
        → s.globals.pred.node_id < 2 ^ 16
        → s.globals.self.node_id < 2 ^ 16
        → s.globals.succ.node_id < 2 ^ 16
        → Covers s.globals.pred.node_id s.globals.self.node_id (key_hash key)
        → stored htu s.globals.ht key ≡ some v
        → Apart heap' net' getaddrinfo fread fwrite stdin stdout sock connection
        → connect_socket heap' net' getaddrinfo fread fwrite hostname port w ≡ (some sock, w1)
        → length (stdin.input w1) < fuel'
        → length (stdin.input w1) < 2 ^ 32
        → ((n : ℕ) (u : net'.World) → (net'.recv (some sock) n u).0 ≢ none)
        → ((block : List ℕ) (u : net'.World)
            → 0 < length block
            → ¬ Declines net' (some sock) connection (net'.send (some sock) block u).0)
        → ((came : List ℕ)
            → connection.taken
                (sendall net'
                  (some sock)
                  (encode (request pkt_flag_get key []))
                  (length (encode (request pkt_flag_get key [])))
                  w1).1
              ≡ connection.taken w1 ++ came
            → stream.incoming s.world ≡ came ++ rest)
        → ((d : Served heap net htu rtu fuel s a c pkt_flag_get key [] rest stream) (u : net'.World)
              (came : List ℕ)
            → shown heap' net' getaddrinfo fread fwrite stdin stdout sock connection u
              ≡ shown heap' net' getaddrinfo fread fwrite stdin stdout sock connection w1
            → stream.taken (sending heap net htu rtu fuel c.socket d.reply.ack d.world).1
              ≡ stream.taken d.world ++ came
            → connection.incoming
                (sendall net'
                  (some sock)
                  (encode (request pkt_flag_get key []))
                  (length (encode (request pkt_flag_get key [])))
                  u).1
              ≡ came)
        → 7 + length key + length v < fuel'
        → (r : Get key v fuel' w1
            (main heap' net' getaddrinfo fread fwrite fuel' (hostname ∷ port ∷ get ∷ key ∷ more) w))
          × Fetched key v fuel' w1
              (main heap' net' getaddrinfo fread fwrite fuel'
                (hostname ∷ port ∷ get ∷ key ∷ more)
                w)
              r
    unfolding command same_text
    fetched_lem s a c key v rest stream hostname port more fuel' w w1 no_error accepts there waits
          some_key small content well hp hs hn own held apart joined hi hin no_error' accepts'
          arrives returns enough =
        fetched key v fuel' w1 (
          main_lem heap' net' getaddrinfo fread fwrite stdin stdout sock connection hostname port
            get key more (request pkt_flag_get key []) (bit_or pkt_flag_get pkt_flag_ack)
            (as_string key) (as_string v) fuel' w w1 apart joined refl small hi hin no_error'
            (omega (
              arith,
              small,
              length-as_string key,
              length-as_string v,
              length-stored heap net htu rtu fuel s.globals.ht key v well held,
            ))
            (λ u e.
              returns served u (encode (message served.reply.ack)) e (
                sendall-taken net c.socket stream (encode (message served.reply.ack)) served.world
                  accepts)
              ∙ ap encode (reply_says s a c key v rest stream served small well held))
            (omega (
              arith,
              length-append (as_string key) (as_string v),
              length-as_string key,
              length-as_string v,
            )))
      where
        keyless : key ++ [] ≡ key
        keyless = append-nil key

        served : Served heap net htu rtu fuel s a c pkt_flag_get key [] rest stream
        served =
            request_served_lem heap net htu rtu fuel s a c pkt_flag_get key [] rest stream no_error
              there waits (omega arith) (rw keyless content) (rw keyless some_key)
              (rw keyless (omega arith))
              (arrives (encode (request pkt_flag_get key [])) (
                sendall-taken net' (some sock) connection (encode (request pkt_flag_get key [])) w1
                  accepts'))
              well hp hs hn own
