-- ===== src/Peer/Main/Stopping.antt =====
-- How main of praxis2/src/peer.c ends: the server with its callback as a whole.
use rn.Prelude.{
  ℕ, ◌≡◌, Option, none, some, List, [], ok, Allocator, Ensures, ends, Ensures-after, Ensures-bind,
  Ensures-ok,
}
use mathlib.Core.Path.{subst}
use rn.Uthash.{Uthash}
use rn.HashTable.{entry_key}
use rn.Requests.{rtable_key}
use rn.Network.{Network}
use rn.Neighbour.{Peer, Long}
use rn.Server.{Server}
use rn.Server.Loop.Counting.{Stopped, server_run-Stopped}
use rn.Server.Setup.{FreshServer, server_setup-FreshServer}
use rn.Peer.Handlers.{Node, handle_packet}
use rn.Peer.Handlers.Counting.{handle_packet-KeepsCount}
use rn.Peer.Main.{
  Exit, refused, ended, still_running, lacks_peer, run_with, start_server, arguments, main,
}

module _ (heap : Allocator) (net : Network) (htu : Uthash entry_key) (rtu : Uthash rtable_key)
    (fuel : ℕ) where
  open net use {World}

  -- What a run that ends leaves.
  abbrev pub NoClients : Exit heap net htu rtu fuel → Type 0
  NoClients (ended s) = (s.server.clients ≡ []) × (s.server.n_clients ≡ 0)
  NoClients (refused w) = Unit
  NoClients still_running = Unit
  NoClients lacks_peer = Unit

  by_result :
      (result : Option (Node heap net htu rtu fuel))
      → Stopped heap net
          (handle_packet heap net htu rtu fuel)
          (handle_packet-KeepsCount heap net htu rtu fuel)
          result
      → Ensures NoClients (elim result [
        | none ↦ ok still_running
        | some s ↦ ok (ended (record s { world = net.close s.server.socket s.world }))
      ])
  by_result none k = ends tt
  by_result (some s) k = ends k

  run_with-NoClients :
      (fresh : List ℕ) (srv : Server) (w : World) (self pred succ : Option Peer)
      → FreshServer net (some srv, w)
      → Ensures NoClients (run_with heap net htu rtu fuel fresh srv w self pred succ)
  unfolding run_with
  run_with-NoClients fresh srv w (some self) (some pred) (some succ) h =
      Ensures-bind
        (server_run-Stopped heap net (handle_packet heap net htu rtu fuel)
          (handle_packet-KeepsCount heap net htu rtu fuel) fresh _ h)
        by_result
  run_with-NoClients fresh srv w (some self) (some pred) none h = ends tt
  run_with-NoClients fresh srv w (some self) none succ h = ends tt
  run_with-NoClients fresh srv w none pred succ h = ends tt

  start-NoClients :
      (fresh : List ℕ) (set_up : Option Server × World) (self pred succ : Option Peer)
      → FreshServer net set_up
      → Ensures NoClients (start_server heap net htu rtu fuel fresh set_up self pred succ)
  unfolding start_server
  start-NoClients fresh (none, w) self pred succ h = ends tt
  start-NoClients fresh (some srv, w) self pred succ h =
      run_with-NoClients fresh srv w self pred succ h

  main-Ensures :
      (strtol : List ℕ → Long × Option ℕ) (strtoul : List ℕ → ℕ × Option ℕ) (fresh : List ℕ)
      (errno : ℕ) (argv : List (List ℕ)) (w : World)
      → Ensures NoClients (main heap net htu rtu fuel strtol strtoul fresh errno argv w)
  unfolding main
  main-Ensures strtol strtoul fresh errno argv w =
      Ensures-after (arguments argv) (λ (own, before, behind).
        Ensures-bind (server_setup-FreshServer net own.port w)
          (λ set_up h. start-NoClients fresh set_up _ _ _ h))

  -- When main has run its server to the end, every client that came has been removed, and none is
  -- counted, whatever the clients sent and the other peers answered.
  pub main-NoClients :
      (strtol : List ℕ → Long × Option ℕ) (strtoul : List ℕ → ℕ × Option ℕ) (fresh : List ℕ)
      (errno : ℕ) (argv : List (List ℕ)) (w : World) (s : Node heap net htu rtu fuel)
      → main heap net htu rtu fuel strtol strtoul fresh errno argv w ≡ ok (ended s)
      → (s.server.clients ≡ []) × (s.server.n_clients ≡ 0)
  main-NoClients strtol strtoul fresh errno argv w s e =
      Ensures-ok (subst (Ensures NoClients) e (main-Ensures strtol strtoul fresh errno argv w))
