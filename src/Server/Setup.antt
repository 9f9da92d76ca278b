-- ===== src/Server/Setup.antt =====
-- server_setup of praxis2/src/server.c.
use rn.Prelude.{
  ℕ, ◌≡◌, refl, Bool, true, false, Option, none, some, List, [], ◌∷◌, Exec, ok, fault, length,
  Ensures, ends, faults, ◌⊎◌, inl, inr,
}
use rn.Network.{Network}
use rn.Server.{Server}

module _ (net : Network) where
  open net use {World, Address}

  -- What follows in a round: `none` where the socket failed, the end of the loop where bind succeeded,
  -- and else the next rounds.
  unfoldable pub tried :
      Option ℕ
      → Bool
      → World
      → World
      → Option (Option ℕ × Bool) × World
      → Option (Option ℕ × Bool) × World
  tried none bound w1 w2 next = (none, w1)
  tried (some fd) true w1 w2 next = (some (some fd, true), w2)
  tried (some fd) false w1 w2 next = next

  -- The loop, with the last descriptor and whether `status` is not negative; both at its end.
  unfoldable pub bind_any :
      List Address → Option ℕ → Bool → World → Option (Option ℕ × Bool) × World
  bind_any [] s status w = (some (s, status), w)
  bind_any (r ∷ more) s status w =
      let (fd, w1) = net.socket w in
      let (bound, w2) = net.bind fd r w1 in
      tried fd bound w1 w2 (bind_any more fd false (net.close fd w2))

  unfoldable pub set_up : Option (Option ℕ × Bool) → Option Server
  set_up none = none
  set_up (some (s, false)) = none
  set_up (some (s, true)) =
      some (record { socket = s; n_clients = 0; active = false; clients = [] })

  -- Where getaddrinfo fails, that is only reported, and the list that it has not set is walked.
  unfoldable pub setup_found : Option (List Address) → World → Exec (Option Server × World)
  setup_found none w = fault
  setup_found (some res) w = let (end, w') = bind_any res none true w in ok (set_up end, w')

  unfoldable pub server_setup : List ℕ → World → Exec (Option Server × World)
  server_setup port w = let (found, w') = net.passive (some port) w in setup_found found w'

  -- The descriptor has been bound to one of the addresses, in the last call that was made.
  abbrev pub Binds : List Address → Option ℕ → World → Type 0
  Binds [] fd w = ⊥
  Binds (r ∷ more) fd w =
      ((v : World) × ((net.bind fd r v).0 ≡ true) × ((net.bind fd r v).1 ≡ w)) ⊎ Binds more fd w

  -- What the loop ends with, if its last bind succeeded.
  abbrev Bound : List Address → Option (Option ℕ × Bool) × World → Type 0
  Bound res (none, w) = Unit
  Bound res (some (fd, false), w) = Unit
  Bound res (some (fd, true), w) = Binds res fd w

  Bound-cons :
      (r : Address) (more : List Address) (end : Option (Option ℕ × Bool) × World)
      → Bound more end
      → Bound (r ∷ more) end
  Bound-cons r more (none, w) b = tt
  Bound-cons r more (some (fd, false), w) b = tt
  Bound-cons r more (some (fd, true), w) b = inr b

  Bound-tried :
      (r : Address) (more : List Address) (fd : Option ℕ) (bound : Bool) (w1 w2 : World)
      (next : Option (Option ℕ × Bool) × World)
      → (net.bind fd r w1).0 ≡ bound
      → (net.bind fd r w1).1 ≡ w2
      → Bound more next
      → Bound (r ∷ more) (tried fd bound w1 w2 next)
  unfolding tried
  Bound-tried r more none bound w1 w2 next e q b = tt
  Bound-tried r more (some fd) true w1 w2 next e q b = inl (w1, e, q)
  Bound-tried r more (some fd) false w1 w2 next e q b = Bound-cons r more next b

  bind_any-Bound :
      (res : List Address) (s : Option ℕ) (w : World) → Bound res (bind_any res s false w)
  unfolding bind_any
  bind_any-Bound [] s w = tt
  bind_any-Bound (r ∷ more) s w =
      let (fd, w1) = net.socket w in
      let (bound, w2) = net.bind fd r w1 in
      Bound-tried r more fd bound w1 w2 _ refl refl (bind_any-Bound more fd (net.close fd w2))

  -- An idle server on a descriptor that has been bound to one of the addresses, or none.
  abbrev pub SetUp : List Address → Option Server × World → Type 0
  SetUp res (none, w) = Unit
  SetUp res (some srv, w) =
      (srv ≡ record { socket = srv.socket; n_clients = 0; active = false; clients = [] })
      × Binds res srv.socket w

  set_up-SetUp :
      (res : List Address) (end : Option (Option ℕ × Bool) × World)
      → Bound res end
      → SetUp res (set_up end.0, end.1)
  unfolding set_up
  set_up-SetUp res (none, w) b = tt
  set_up-SetUp res (some (fd, false), w) b = tt
  set_up-SetUp res (some (fd, true), w) b = (refl, b)

  -- Where getaddrinfo finds an address, server_setup does not fault, and a server that it returns has
  -- no clients, is not active yet, and has a socket that bind has accepted for one of the addresses.
  pub server_setup_lem :
      (port : List ℕ) (w : World) (r : Address) (more : List Address)
      → (net.passive (some port) w).0 ≡ some (r ∷ more)
      → (end : Option Server × World) × (server_setup port w ≡ ok end) × SetUp (r ∷ more) end
  unfolding server_setup setup_found bind_any
  server_setup_lem port w r more found = (
    _,
    rw found refl,
    set_up-SetUp (r ∷ more) _ (bind_any-Bound (r ∷ more) none (net.passive (some port) w).1),
  )

  -- A new server counts its clients right.
  abbrev pub FreshServer : Option Server × World → Type 0
  FreshServer (none, w) = Unit
  FreshServer (some srv, w) = srv.n_clients ≡ length srv.clients

  set_up-FreshServer : (end : Option (Option ℕ × Bool)) (w : World) → FreshServer (set_up end, w)
  unfolding set_up
  set_up-FreshServer none w = tt
  set_up-FreshServer (some (fd, false)) w = tt
  set_up-FreshServer (some (fd, true)) w = refl

  setup_found-FreshServer :
      (found : Option (List Address)) (w : World) → Ensures FreshServer (setup_found found w)
  unfolding setup_found
  setup_found-FreshServer none w = faults
  setup_found-FreshServer (some res) w =
      let (end, w') = bind_any res none true w in ends (set_up-FreshServer end w')

  pub server_setup-FreshServer :
      (port : List ℕ) (w : World) → Ensures FreshServer (server_setup port w)
  unfolding server_setup
  server_setup-FreshServer port w =
      let (found, w') = net.passive (some port) w in setup_found-FreshServer found w'
