-- ===== src/Peer/Main.antt =====
-- main of praxis2/src/peer.c. `strtol` and `strtoul` give what they return and set errno to, if they do.
pub mod Stopping
use rn.Prelude.{ℕ, Option, none, some, List, [], ◌∷◌, Exec, ok, fault, ◌>>=◌, Allocator, u16}
use rn.Uthash.{Uthash}
use rn.HashTable.{entry_key}
use rn.Requests.{rtable_key}
use rn.Network.{Network}
use rn.Neighbour.{Peer, Long, peer_init, after_strtol}
use rn.Server.{Server, System}
use rn.Server.Loop.{server_run}
use rn.Server.Setup.{server_setup}
use rn.Peer.{Globals}
use rn.Peer.Handlers.{Node, handle_packet}

-- The arguments of a peer: an id, a host and a port.
pub record PeerArgs : Type 0 where
  pub id : List ℕ
  pub host : List ℕ
  pub port : List ℕ

-- Too few arguments are only reported, and then those that are not there are read.
unfoldable pub arguments : List (List ℕ) → Exec (PeerArgs × PeerArgs × PeerArgs)
arguments (program ∷ id ∷ host ∷ port ∷ id_p ∷ host_p ∷ port_p ∷ id_s ∷ host_s ∷ port_s ∷ more) =
    ok (
      record { id = id; host = host; port = port },
      record { id = id_p; host = host_p; port = port_p },
      record { id = id_s; host = host_s; port = port_s },
    )
arguments _ = fault

module _ (heap : Allocator) (net : Network) (htu : Uthash entry_key) (rtu : Uthash rtable_key)
    (fuel : ℕ) where
  open net use {World}

  -- How main ends. A peer that stays NULL is not noticed, and the server runs until a packet needs it:
  -- that run is not modelled.
  pub data Exit : Type 0 where
    refused : World → Exit
    ended : Node heap net htu rtu fuel → Exit
    still_running lacks_peer : Exit

  -- The server's run with handle_packet as the callback, from empty tables.
  unfoldable pub run_with :
      List ℕ → Server → World → Option Peer → Option Peer → Option Peer → Exec Exit
  run_with fresh srv w (some self) (some pred) (some succ) = do
    result ← server_run heap net (some (handle_packet heap net htu rtu fuel)) fresh (record {
      server = srv;
      globals = record { ht = htu.empty; rt = rtu.empty; self = self; pred = pred; succ = succ };
      world = w;
    })
    elim result [
      | none ↦ ok still_running
      | some s ↦ ok (ended (record s { world = net.close s.server.socket s.world }))
    ]
  run_with fresh srv w self pred succ = ok lacks_peer

  unfoldable pub start_server :
      List ℕ → Option Server × World → Option Peer → Option Peer → Option Peer → Exec Exit
  start_server fresh (none, w) self pred succ = ok (refused w)
  start_server fresh (some srv, w) self pred succ = run_with fresh srv w self pred succ

  -- `fresh` are the addresses that malloc gives to clients.
  unfoldable pub main :
      (List ℕ → Long × Option ℕ)
      → (List ℕ → ℕ × Option ℕ)
      → List ℕ
      → ℕ
      → List (List ℕ)
      → World
      → Exec Exit
  main strtol strtoul fresh errno argv w = do
    (own, before, behind) ← arguments argv
    let (id_self, e1) = strtoul own.id in
        let (id_pred, e2) = strtoul before.id in
        let (id_succ, e3) = strtoul behind.id in
        let errno' = after_strtol (after_strtol (after_strtol errno e1) e2) e3 in
        let (errno1, self) = peer_init strtol errno' (u16 id_self) own.host own.port in
        let (errno2, pred) = peer_init strtol errno1 (u16 id_pred) before.host before.port in
        let (errno3, succ) = peer_init strtol errno2 (u16 id_succ) behind.host behind.port in
        (do set_up ← server_setup net own.port w; start_server fresh set_up self pred succ)
