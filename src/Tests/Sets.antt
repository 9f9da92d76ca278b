-- ===== src/Tests/Sets.antt =====
-- A test of client.c and peer.c together: a SET of three bytes.
use rn.Prelude.{ℕ, ◌≡◌, refl, sym, ap, ◌∙◌, true, List, [], ◌∷◌, ◌++◌, some, arith, ok}
use mathlib.Core.List.{append_cancel_left}
use mathlib.Core.Logic.{ite}
use rn.HashTable.Store.{stored, bytes-discrete}
use rn.Packet.{pkt_flag_set}
use rn.Packet.Message.{message, encode}
use rn.Transfer.{int_of, sendall, send_loop}
use rn.Transfer.Sending.{sendall-taken}
use rn.Server.{find_client}
use rn.Peer.Handlers.{Node}
use rn.Peer.Handlers.Exchange.{Served}
use rn.Client.{connect_socket, connect_any, main}
use rn.Client.Storing.{set, reply_says, stored_lem}
use rn.Tests.Fixtures.{zeros, pipe, stream, takes_some}
use rn.Tests.Peers.{entries, pending, node}
use rn.Tests.Deliveries.{waiting, waiting-Waits, peer-WellStored, no_error}
use rn.Tests.Clients.{Desk, desk, resolve, fread, fwrite, stdin, stdout, connection, apart}

-- The peer stores nothing yet, and a client sends it a value.
abbrev empty : Node zeros pipe entries pending 9
empty = record node {
  server = record { socket = some 4; n_clients = 1; active = true; clients = waiting ∷ [] };
  world = (2 ∷ 0 ∷ 2 ∷ 0 ∷ 0 ∷ 0 ∷ 3 ∷ 1 ∷ 2 ∷ 65 ∷ 0 ∷ 66 ∷ 77 ∷ [], []);
}

-- The value on stdin, and the reply that comes in.
abbrev feeding : Desk
feeding = (10 ∷ 0 ∷ 0 ∷ 0 ∷ 0 ∷ 0 ∷ 0 ∷ [], [], 65 ∷ 0 ∷ 66 ∷ [], [])

connects :
    connect_socket zeros desk resolve fread fwrite (104 ∷ []) (56 ∷ []) feeding ≡ (some 9, feeding)
unfolding connect_socket connect_any
connects = refl

stored_lem_example :
    (d : Served zeros pipe entries pending 9 empty 3 waiting pkt_flag_set
      (1 ∷ 2 ∷ [])
      (65 ∷ 0 ∷ 66 ∷ [])
      (77 ∷ [])
      stream)
    × ((j : List ℕ)
        → stored entries d.reply.after j
          ≡ ite
              (bytes-discrete j (1 ∷ 2 ∷ []))
              (some (65 ∷ 0 ∷ 66 ∷ []))
              (stored entries empty.globals.ht j))
    × ((after : Desk) × (main zeros desk resolve fread fwrite 8
            ((104 ∷ []) ∷ (56 ∷ []) ∷ set ∷ (1 ∷ 2 ∷ []) ∷ [])
            feeding
          ≡ ok (true, after))
        × (stdout.printed after ≡ []))
unfolding find_client sendall send_loop int_of
stored_lem_example =
    stored_lem zeros pipe entries pending 9 zeros desk resolve fread fwrite stdin stdout 9
      connection empty 3 waiting (1 ∷ 2 ∷ []) (77 ∷ []) stream (104 ∷ []) (56 ∷ []) [] 8 feeding
      feeding no_error (λ block u h. takes_some block h) refl waiting-Waits (omega arith)
      (omega arith) (omega arith) (omega arith) peer-WellStored (omega arith) (omega arith)
      (omega arith) (omega arith) apart connects (omega arith) (λ n u e. ground arith)
      (λ block u h. takes_some block h) (λ came e. ap (λ l. l ++ (77 ∷ [])) e)
      (λ d (u : Desk) came e sent.
        ap (λ (t : List ℕ × List ℕ × List ℕ). t.2) e
        ∙ sym (
            ap encode (
              reply_says zeros pipe entries pending 9 empty 3 waiting (1 ∷ 2 ∷ [])
                (65 ∷ 0 ∷ 66 ∷ []) (77 ∷ []) stream d (omega arith)))
        ∙ append_cancel_left (stream.taken d.world) (encode (message d.reply.ack)) came (
            sym (
              sendall-taken pipe (some 9) stream (encode (message d.reply.ack)) d.world
                (λ block v h. takes_some block h))
            ∙ sent))
      (omega arith)
