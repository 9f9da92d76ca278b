-- ===== src/Tests/Fetches.antt =====
-- A test of client.c and peer.c together: a GET of a value with a zero byte.
use rn.Prelude.{ℕ, ◌≡◌, refl, ap, sym, ◌∙◌, true, List, [], ◌∷◌, ◌++◌, none, some, arith}
use rn.HashTable.{Htable}
use rn.HashTable.Store.{stored, bytes-discrete, entry_value}
use rn.Uthash.Listed.{find}
use mathlib.Core.Option
use mathlib.Core.Option.{some-injective}
use mathlib.Core.Path.{subst}
use mathlib.Core.List.{append_cancel_left}
use mathlib.Core.Logic.{if_pos, if_neg}
use rn.Packet.Message.{message, encode}
use rn.Transfer.{int_of, sendall, send_loop}
use rn.Transfer.Sending.{sendall-taken}
use rn.Server.{find_client}
use rn.Peer.Handlers.{Node}
use rn.Peer.Handlers.Entries.{WellStored, GoodEntry}
use rn.Client.{connect_socket, connect_any, main}
use rn.Client.Fetching.{get, reply_says, Get, Fetched, fetched_lem}
use rn.Tests.Fixtures.{zeros, pipe, stream, takes_some}
use rn.Tests.Peers.{entries, pending, node}
use rn.Tests.Deliveries.{waiting, waiting-Waits, to_come, no_error}
use rn.Tests.Clients.{Desk, desk, resolve, fread, fwrite, stdin, stdout, connection, apart}

abbrev entry : Htable
entry = record { key = 1 ∷ 2 ∷ []; key_len = 2; value = 65 ∷ 0 ∷ 66 ∷ []; value_len = 3 }

-- The peer has one entry, and a client that asks for it.
abbrev keeper : Node zeros pipe entries pending 9
keeper = record node {
  server = record { socket = some 4; n_clients = 1; active = true; clients = waiting ∷ [] };
  globals = record (node.globals) { ht = entry ∷ [] };
  world = to_come;
}

-- The reply to it, as it comes in at the client.
abbrev answered : Desk
answered = (12 ∷ 0 ∷ 2 ∷ 0 ∷ 0 ∷ 0 ∷ 3 ∷ 1 ∷ 2 ∷ 65 ∷ 0 ∷ 0 ∷ [], [], [], [])

entry-GoodEntry : GoodEntry entry
entry-GoodEntry = record {
  key_whole = refl;
  key_small = omega arith;
  value_whole = refl;
  value_small = omega arith;
}

keeper-WellStored : WellStored entries keeper.globals.ht
unfolding find
keeper-WellStored j e there = elim (bytes-discrete (1 ∷ 2 ∷ []) j) [
  | yes same ↦
      subst GoodEntry
        (some-injective entry e (rw (if_pos (bytes-discrete (1 ∷ 2 ∷ []) j) same) at there))
        entry-GoodEntry
  | no other ↦
      let nothing : none ≡ some e = rw (if_neg (bytes-discrete (1 ∷ 2 ∷ []) j) other) at there in
      absurd (ground arith)
]

stored_there : stored entries keeper.globals.ht (1 ∷ 2 ∷ []) ≡ some (65 ∷ 0 ∷ 66 ∷ [])
unfolding find
stored_there =
    ap (Option.map entry_value)
      (if_pos (bytes-discrete (1 ∷ 2 ∷ []) (1 ∷ 2 ∷ [])) refl (some entry) none)

connects :
    connect_socket zeros desk resolve fread fwrite (104 ∷ []) (56 ∷ []) answered
    ≡ (some 9, answered)
unfolding connect_socket connect_any
connects = refl

fetched_lem_example :
    (r : Get zeros pipe entries pending 9 zeros desk resolve fread fwrite stdin stdout 9 connection
      (1 ∷ 2 ∷ [])
      (65 ∷ 0 ∷ 66 ∷ [])
      13
      answered
      (main zeros desk resolve fread fwrite 13
        ((104 ∷ []) ∷ (56 ∷ []) ∷ get ∷ (1 ∷ 2 ∷ []) ∷ [])
        answered))
    × Fetched zeros pipe entries pending 9 zeros desk resolve fread fwrite stdin stdout 9 connection
        (1 ∷ 2 ∷ [])
        (65 ∷ 0 ∷ 66 ∷ [])
        13
        answered
        (main zeros desk resolve fread fwrite 13
          ((104 ∷ []) ∷ (56 ∷ []) ∷ get ∷ (1 ∷ 2 ∷ []) ∷ [])
          answered)
        r
unfolding find_client sendall send_loop int_of
fetched_lem_example =
    fetched_lem zeros pipe entries pending 9 zeros desk resolve fread fwrite stdin stdout 9
      connection keeper 3 waiting (1 ∷ 2 ∷ []) (65 ∷ 0 ∷ 66 ∷ []) (77 ∷ []) stream (104 ∷ [])
      (56 ∷ []) [] 13 answered answered no_error (λ block u h. takes_some block h) refl
      waiting-Waits (omega arith) (omega arith) (omega arith) keeper-WellStored (omega arith)
      (omega arith) (omega arith) (omega arith) stored_there apart connects (omega arith)
      (omega arith) (λ n u e. ground arith) (λ block u h. takes_some block h)
      (λ came e. ap (λ l. l ++ (77 ∷ [])) e)
      (λ d (u : Desk) came e sent.
        ap (λ (t : List ℕ × List ℕ × List ℕ). t.2) e
        ∙ sym (
            ap encode (
              reply_says zeros pipe entries pending 9 keeper 3 waiting (1 ∷ 2 ∷ [])
                (65 ∷ 0 ∷ 66 ∷ []) (77 ∷ []) stream d (omega arith) keeper-WellStored stored_there))
        ∙ append_cancel_left (stream.taken d.world) (encode (message d.reply.ack)) came (
            sym (
              sendall-taken pipe (some 9) stream (encode (message d.reply.ack)) d.world
                (λ block v h. takes_some block h))
            ∙ sent))
      (omega arith)
