-- ===== src/Client/Storing.antt =====
-- A SET of praxis2/src/client.c that is answered by praxis2/src/peer.c, as in Client/Fetching.
use rn.Prelude.{
  ℕ, ◌+◌, ◌^◌, ◌<◌, ◌≡◌, ◌≢◌, refl, ap, ◌∙◌, true, Bool, Exec, length-append, Option, none, some,
  List, [], ◌∷◌, ◌++◌, length, arith, All, IsByte, ok, Allocator, bit_or,
}
use mathlib.Core.Path.{subst₂}
use rn.Uthash.{Uthash}
use rn.HashTable.{entry_key}
use rn.HashTable.Store.{stored, bytes-discrete}
use mathlib.Core.Logic.{ite}
use rn.Requests.{rtable_key}
use rn.Network.{Network, Stream}
use rn.Packet.{pkt_flag_set, pkt_flag_ack, has}
use rn.Packet.Message.{
  Message, request, message, encode, IsMessage, packet_of, packet_of-IsPacket, bytes-pointer_to,
}
use rn.Transfer.{sendall}
use rn.Transfer.Sending.{Declines, sendall-taken}
use rn.Transfer.Hashing.{key_hash}
use rn.Server.{find_client}
use rn.Server.{Client}
use rn.Server.Loop.Delivery.{Waits}
use rn.Peer.Handlers.{Node}
use rn.Peer.Handlers.Routing.{Covers}
use rn.Peer.Handlers.Entries.{WellStored}
use rn.Peer.Handlers.Effects.{set_stored_lem, set_reply_lem, is_set-set}
use rn.Peer.Handlers.Serving.{sending}
use rn.Peer.Handlers.Exchange.{Served, request_served_lem}
use rn.Client.{command, same_text, is_get_value, connect_socket, main}
use rn.Client.Printing.{Output}
use rn.Client.Reading.{Input}
use rn.Client.Runs.{Apart, Ran, shown, main_lem}

-- "SET"
abbrev pub set : List ℕ
set = 83 ∷ 69 ∷ 84 ∷ []

module _ (heap : Allocator) (net : Network) (htu : Uthash entry_key) (rtu : Uthash rtable_key)
    (fuel : ℕ) where
  module _ (s : Node heap net htu rtu fuel) (a : ℕ) (c : Client) (key value rest : List ℕ)
      (stream : Stream net c.socket)
      (d : Served heap net htu rtu fuel s a c pkt_flag_set key value rest stream)
      (is_message : IsMessage (request pkt_flag_set key value)) where
    -- What the reply to a SET says.
    pub reply_says : message d.reply.ack ≡ request (bit_or pkt_flag_set pkt_flag_ack) [] []
    reply_says =
        set_reply_lem heap net htu rtu fuel s.globals.ht
          (packet_of (request pkt_flag_set key value)) d.reply (is_set-set heap net htu rtu fuel).0
          (is_set-set heap net htu rtu fuel).1
          (packet_of-IsPacket (request pkt_flag_set key value) is_message)

    stored_now :
        (j : List ℕ)
        → stored htu d.reply.after j
          ≡ ite (bytes-discrete j key) (some value) (stored htu s.globals.ht j)
    stored_now j =
        subst₂
          (λ k v.
            stored htu d.reply.after j
            ≡ ite (bytes-discrete j k) (some v) (stored htu s.globals.ht j))
          (bytes-pointer_to key) (bytes-pointer_to value)
          (set_stored_lem heap net htu rtu fuel s.globals.ht
            (packet_of (request pkt_flag_set key value)) d.reply
            (is_set-set heap net htu rtu fuel).0 (is_set-set heap net htu rtu fuel).1
            (packet_of-IsPacket (request pkt_flag_set key value) is_message) j)

  module _ (heap' : Allocator) (net' : Network)
      (getaddrinfo : List ℕ → List ℕ → net'.World → Option (List net'.Address) × net'.World)
      (fread : ℕ → net'.World → List ℕ × net'.World) (fwrite : List ℕ → net'.World → ℕ × net'.World)
      (stdin : Input net' fread) (stdout : Output net' fwrite) (sock : ℕ)
      (connection : Stream net' (some sock)) where
    acknowledged :
        (q : Message) (fuel' : ℕ) (w1 : net'.World) {run : Exec (Bool × net'.World)}
        → Ran heap' net' getaddrinfo fread fwrite stdin stdout sock connection
            (command set)
            q
            (bit_or pkt_flag_set pkt_flag_ack)
            []
            []
            fuel'
            w1
            run
        → (after : net'.World) × (run ≡ ok (true, after))
          × (stdout.printed after ≡ stdout.printed w1)
    unfolding command same_text has is_get_value
    acknowledged q fuel' w1 r = (
      r.code.1,
      r.ends ∙ ap (λ (b : Bool). ok (b, r.code.1)) r.reported.0,
      r.reported.1 ∙ r.awaited.quiet ∙ ap (λ t. t.0) r.untouched,
    )

    -- A client runs with SET, a key and the bytes on its stdin, and connects to the peer `s`, whose
    -- client `a` is and waits for a packet; the test of the peer takes the hash of the key for its own:
    -- it lies in the arc of `s`, and above the id of its predecessor. What send takes from the client
    -- comes in at the peer, in any pieces, with any bytes behind, and what it takes from the peer for
    -- the reply comes in at the client and is the end of the stream; neither recv nor send makes an
    -- error on either side. Then the peer serves the request: its store holds under the key all bytes
    -- of stdin, and under every other key what it held. The client ends with exit code 0 and prints
    -- nothing.
    pub stored_lem :
        (s : Node heap net htu rtu fuel) (a : ℕ) (c : Client) (key rest : List ℕ)
        (stream : Stream net c.socket) (hostname port : List ℕ) (more : List (List ℕ)) (fuel' : ℕ)
        (w w1 : net'.World)
        → ((n : ℕ) (u : net.World) → (net.recv c.socket n u).0 ≢ none)
        → ((block : List ℕ) (u : net.World)
            → 0 < length block
            → ¬ Declines net c.socket stream (net.send c.socket block u).0)
        → find_client s.server.clients a ≡ some c
        → Waits c
        → length key < 2 ^ 16
        → 0 < length (key ++ stdin.input w1)
        → length (key ++ stdin.input w1) < 2 ^ 31
        → All IsByte (key ++ stdin.input w1)
        → WellStored htu s.globals.ht
        → s.globals.pred.node_id < 2 ^ 16
        → s.globals.self.node_id < 2 ^ 16
        → s.globals.succ.node_id < 2 ^ 16
        → Covers s.globals.pred.node_id s.globals.self.node_id (key_hash key)
        → Apart heap' net' getaddrinfo fread fwrite stdin stdout sock connection
        → connect_socket heap' net' getaddrinfo fread fwrite hostname port w ≡ (some sock, w1)
        → length (stdin.input w1) < fuel'
        → ((n : ℕ) (u : net'.World) → (net'.recv (some sock) n u).0 ≢ none)
        → ((block : List ℕ) (u : net'.World)
            → 0 < length block
            → ¬ Declines net' (some sock) connection (net'.send (some sock) block u).0)
        → ((came : List ℕ)
            → connection.taken
                (sendall net'
                  (some sock)
                  (encode (request pkt_flag_set key (stdin.input w1)))
                  (length (encode (request pkt_flag_set key (stdin.input w1))))
                  w1).1
              ≡ connection.taken w1 ++ came
            → stream.incoming s.world ≡ came ++ rest)
        → ((d : Served heap net htu rtu fuel s a c pkt_flag_set key (stdin.input w1) rest stream)
              (u : net'.World) (came : List ℕ)
            → shown heap' net' getaddrinfo fread fwrite stdin stdout sock connection u
              ≡ shown heap' net' getaddrinfo fread fwrite stdin stdout sock connection w1
            → stream.taken (sending heap net htu rtu fuel c.socket d.reply.ack d.world).1
              ≡ stream.taken d.world ++ came
            → connection.incoming
                (sendall net'
                  (some sock)
                  (encode (request pkt_flag_set key (stdin.input w1)))
                  (length (encode (request pkt_flag_set key (stdin.input w1))))
                  u).1
              ≡ came)
        → 7 < fuel'
        → (d : Served heap net htu rtu fuel s a c pkt_flag_set key (stdin.input w1) rest stream)
          × ((j : List ℕ)
              → stored htu d.reply.after j
                ≡ ite (bytes-discrete j key) (some (stdin.input w1)) (stored htu s.globals.ht j))
          × ((after : net'.World) × (main heap' net' getaddrinfo fread fwrite fuel'
                  (hostname ∷ port ∷ set ∷ key ∷ more)
                  w
                ≡ ok (true, after))
              × (stdout.printed after ≡ stdout.printed w1))
    unfolding command same_text
    stored_lem s a c key rest stream hostname port more fuel' w w1 no_error accepts there waits
          small some_body size content well hp hs hn own apart joined hi no_error' accepts' arrives
          returns enough =
        (
          served,
          stored_now s a c key (stdin.input w1) rest stream served is_message,
          acknowledged (request pkt_flag_set key (stdin.input w1)) fuel' w1 (
              main_lem heap' net' getaddrinfo fread fwrite stdin stdout sock connection hostname
                port set key more (request pkt_flag_set key (stdin.input w1))
                (bit_or pkt_flag_set pkt_flag_ack) [] [] fuel' w w1 apart joined refl small hi
                (omega (arith, total)) no_error' (omega arith)
                (λ u e.
                  returns served u (encode (message served.reply.ack)) e (
                    sendall-taken net c.socket stream (encode (message served.reply.ack))
                      served.world accepts)
                  ∙ ap encode (reply_says s a c key (stdin.input w1) rest stream served is_message))
                (omega arith)),
        )
      where
        total : length (key ++ stdin.input w1) ≡ length key + length (stdin.input w1)
        total = length-append key (stdin.input w1)

        is_message : IsMessage (request pkt_flag_set key (stdin.input w1))
        is_message = omega (arith, total)

        served : Served heap net htu rtu fuel s a c pkt_flag_set key (stdin.input w1) rest stream
        served =
            request_served_lem heap net htu rtu fuel s a c pkt_flag_set key (stdin.input w1) rest
              stream no_error there waits is_message content some_body size
              (arrives (encode (request pkt_flag_set key (stdin.input w1))) (
                sendall-taken net' (some sock) connection
                  (encode (request pkt_flag_set key (stdin.input w1))) w1 accepts'))
              well hp hs hn own
