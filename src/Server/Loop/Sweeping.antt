-- ===== src/Server/Loop/Sweeping.antt =====
-- The loop of server_run in praxis2/src/server.c that removes the clients marked for it.
use rn.Prelude.{
  Allocator, ◌≡◌, ◌≢◌, refl, sym, ap, ◌∙◌, Bool, true, false, Option, some, List, [], ◌∷◌, ◌++◌,
  map, arith, ok, ◌>>=◌, deref, length, length-append, All, append_assoc, if◌then◌else◌,
}
use mathlib.Core.Path.{subst}
use rn.Network.{Network}
use rn.Server.{
  Client, ClientState, idle, hdr_recvd, remove, System, Callback, find_client, unlink, close_client,
  server_remove_client, addresses,
}
use rn.Server.Clients.{Counted}
use rn.Server.Loop.{remove_if_marked, sweep}

abbrev pub is_marked : ClientState → Bool
is_marked idle = false
is_marked hdr_recvd = false
is_marked remove = true

-- The clients that are not marked for removal.
abbrev pub unmarked : List Client → List Client
unmarked [] = []
unmarked (c ∷ cs) = let rest = unmarked cs in if is_marked c.state then rest else c ∷ rest

-- No two structs are at one address.
abbrev pub Distinct : List Client → Type 0
Distinct [] = Unit
Distinct (c ∷ cs) = All (λ (d : Client). d.address ≢ c.address) cs × Distinct cs

All-middle {κ} :
    (P : Client → Type κ) (front : List Client) (c : Client) (cs : List Client)
    → All P (front ++ (c ∷ cs))
    → P c × All P (front ++ cs)
All-middle P [] c cs h = h
All-middle P (x ∷ front) c cs h =
    let (at_c, others) = All-middle P front c cs h.1 in (at_c, (h.0, others))

Distinct-middle :
    (front : List Client) (c : Client) (cs : List Client)
    → Distinct (front ++ (c ∷ cs))
    → Distinct (front ++ cs)
Distinct-middle [] c cs h = h.1
Distinct-middle (x ∷ front) c cs h =
    ((All-middle _ front c cs (h.0)).1, Distinct-middle front c cs h.1)

find_client-behind :
    (front : List Client) (c : Client) (cs : List Client)
    → Distinct (front ++ (c ∷ cs))
    → find_client (front ++ (c ∷ cs)) c.address ≡ some c
unfolding find_client
find_client-behind [] c cs h = ground arith
find_client-behind (x ∷ front) c cs h =
    let differ : c.address ≢ x.address = (All-middle _ front c cs (h.0)).0 in
    ground (arith, find_client-behind front c cs h.1)

unlink-behind :
    (front : List Client) (c : Client) (cs : List Client)
    → Distinct (front ++ (c ∷ cs))
    → unlink (front ++ (c ∷ cs)) c.address ≡ front ++ cs
unfolding unlink
unlink-behind [] c cs h = ground arith
unlink-behind (x ∷ front) c cs h =
    let differ : c.address ≢ x.address = (All-middle _ front c cs (h.0)).0 in
    ground (arith, unlink-behind front c cs h.1)

module _ (net : Network) where
  -- The sockets of the marked clients are closed in order.
  abbrev pub closed : List Client → net.World → net.World
  closed [] w = w
  closed (c ∷ cs) w = closed cs (if is_marked c.state then net.close c.socket w else w)

  module _ {G : Type 0} (s : System net G) where
    -- The system with this list of clients, well counted.
    abbrev pub counting : List Client → net.World → System net G
    counting cs w = record s {
      server = record (s.server) { clients = cs; n_clients = length cs };
      world = w;
    }

    removed :
        (front : List Client) (c : Client) (cs : List Client) (w : net.World)
        → Distinct (front ++ (c ∷ cs))
        → server_remove_client net (counting (front ++ (c ∷ cs)) w) (some c.address)
          ≡ counting (front ++ cs) (net.close c.socket w)
    unfolding server_remove_client close_client
    removed front c cs w h =
        rw (find_client-behind front c cs h, unlink-behind front c cs h)
          (ap
            (λ n. record s {
              server = record (s.server) { clients = front ++ cs; n_clients = n };
              world = net.close c.socket w;
            })
            (omega (arith, length-append front (c ∷ cs), length-append front cs)))

  module _ (heap : Allocator) {G : Type 0} (packet_cb : Option (Callback net G))
      (s : System net G) where
    -- What the sweep makes of the clients `cs` behind others that stay.
    abbrev Swept : List Client → Type 0
    Swept cs =
        (front : List Client) (w : net.World)
        → Distinct (front ++ cs)
        → sweep heap net packet_cb (map (λ (c : Client). c.address) cs) (counting s (front ++ cs) w)
          ≡ ok (counting s (front ++ unmarked cs) (closed cs w))

    kept :
        (front : List Client) (c : Client) (cs : List Client) (w : net.World)
        → Swept cs
        → Distinct (front ++ (c ∷ cs))
        → sweep heap net packet_cb
            (map (λ (c : Client). c.address) cs)
            (counting s (front ++ (c ∷ cs)) w)
          ≡ ok (counting s (front ++ (c ∷ unmarked cs)) (closed cs w))
    kept front c cs w ih h =
        rw (append_assoc front (c ∷ []) cs, append_assoc front (c ∷ []) (unmarked cs)) at
          (ih (front ++ (c ∷ [])) w (subst Distinct (sym (append_assoc front (c ∷ []) cs)) h))

    Swept-cons :
        (state : ClientState) (front : List Client) (c : Client) (cs : List Client) (w : net.World)
        → Swept cs
        → Distinct (front ++ (c ∷ cs))
        → sweep heap net packet_cb
            (map (λ (c : Client). c.address) cs)
            (remove_if_marked heap net packet_cb state (counting s (front ++ (c ∷ cs)) w) c)
          ≡ ok (
              counting s
                (front ++ (if is_marked state then unmarked cs else c ∷ unmarked cs))
                (closed cs (if is_marked state then net.close c.socket w else w)))
    unfolding remove_if_marked
    Swept-cons idle front c cs w ih h = kept front c cs w ih h
    Swept-cons hdr_recvd front c cs w ih h = kept front c cs w ih h
    Swept-cons remove front c cs w ih h =
        ap (sweep heap net packet_cb (map (λ (c : Client). c.address) cs))
          (removed s front c cs w h)
        ∙ ih front (net.close c.socket w) (Distinct-middle front c cs h)

    sweep-Swept : (cs : List Client) → Swept cs
    unfolding sweep
    sweep-Swept [] front w h = refl
    sweep-Swept (c ∷ cs) front w h =
        ap
          (λ o. deref o >>= λ d.
            sweep heap net packet_cb (map (λ (x : Client). x.address) cs)
              (remove_if_marked heap net packet_cb d.state (counting s (front ++ (c ∷ cs)) w) d))
          (find_client-behind front c cs h)
        ∙ Swept-cons c.state front c cs w (sweep-Swept cs) h

    -- The sweep removes every client that is marked, closes its socket once, and leaves the others as
    -- they are and in order; it counts them right, and does not fault.
    pub sweep_lem :
        Counted s.server
        → Distinct s.server.clients
        → sweep heap net packet_cb (addresses net s) s
          ≡ ok (counting s (unmarked s.server.clients) (closed s.server.clients s.world))
    sweep_lem counted h =
        ap (sweep heap net packet_cb (addresses net s))
          (ap (λ n. record s { server = record (s.server) { n_clients = n } }) counted)
        ∙ sweep-Swept s.server.clients [] s.world h
