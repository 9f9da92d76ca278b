-- ===== src/Server/Clients.antt =====
-- The list of clients of praxis2/src/server.c and the number `n_clients` that is kept beside it.
use rn.Prelude.{
  ℕ, suc, ◌-◌, ◌≡◌, refl, sym, ap, ◌∙◌, Option, none, some, List, [], ◌∷◌, map, arith, Allocator,
  length, Option-cases, ok, inl, inr,
}
use rn.Network.{Network}
use rn.Server.{
  Client, Server, System, find_client, unlink, mark_socket, write_client, close_client,
  server_remove_client, set_client, server_close_socket, server_add_client, stop_all, server_stop,
  Callback, server_deliver_packet, cb_remove_client,
}

-- `n_clients` is the length of the list, from which the size of the poll array is taken.
abbrev pub Counted : Server → Type 0
Counted srv = srv.n_clients ≡ length srv.clients

length-unlink :
    (cs : List Client) (a : ℕ) (c : Client)
    → find_client cs a ≡ some c
    → length cs ≡ suc (length (unlink cs a))
unfolding find_client unlink
length-unlink [] a c e = cc
length-unlink (x ∷ cs) a c e = ground (arith, length-unlink cs a c)

length-mark : (cs : List Client) (s : Option ℕ) → length (mark_socket cs s) ≡ length cs
unfolding mark_socket
length-mark [] s = refl
length-mark (x ∷ cs) s = ground (arith, length-mark cs s)

length-write : (cs : List Client) (c : Client) → length (write_client cs c) ≡ length cs
unfolding write_client
length-write [] c = refl
length-write (x ∷ cs) c = ground (arith, length-write cs c)

pub close_socket-Counted :
    (srv : Server) (socket : Option ℕ) → Counted srv → Counted (server_close_socket srv socket)
unfolding server_close_socket
close_socket-Counted srv socket h = h ∙ sym (length-mark srv.clients socket)

module _ (net : Network) {G : Type 0} (s : System net G) where
  pub set_client-Counted : (c : Client) → Counted s.server → Counted (set_client net s c).server
  unfolding set_client
  set_client-Counted c h = h ∙ sym (length-write s.server.clients c)

  pub remove_client-Counted :
      (a : Option ℕ) → Counted s.server → Counted (server_remove_client net s a).server
  unfolding server_remove_client
  remove_client-Counted none h = h
  remove_client-Counted (some a) h = elim (Option-cases (find_client s.server.clients a)) [
    | inl missing ↦ rw (missing, close_client) h
    | inr (c, found) ↦
        rw (found, close_client) (omega (arith, h, length-unlink s.server.clients a c found))
  ]

-- The first client of the list is removed.
unlink_head : (c : Client) (cs : List Client) → unlink (c ∷ cs) c.address ≡ cs
unfolding unlink
unlink_head c cs = ground arith

find_head : (c : Client) (cs : List Client) → find_client (c ∷ cs) c.address ≡ some c
unfolding find_client
find_head c cs = ground arith

module _ (net : Network) {G : Type 0} where
  pub add_client-Counted :
      (heap : Allocator) (address : ℕ) (s : System net G)
      → Counted s.server
      → Counted (server_add_client net heap address s).server
  unfolding server_add_client
  add_client-Counted heap address s h = omega (arith, h)

  remove_head :
      (s : System net G) (c : Client) (cs : List Client)
      → s.server.clients ≡ c ∷ cs
      → ((server_remove_client net s (some c.address)).server.clients ≡ cs)
        × ((server_remove_client net s (some c.address)).server.n_clients ≡ s.server.n_clients - 1)
  unfolding server_remove_client
  remove_head s c cs e =
      rw (found, close_client) (ap (λ l. unlink l c.address) e ∙ unlink_head c cs, refl)
    where
      found : find_client s.server.clients c.address ≡ some c
      found = ap (λ l. find_client l c.address) e ∙ find_head c cs

  stop_all-clients :
      (cs : List Client) (s : System net G)
      → s.server.clients ≡ cs
      → s.server.n_clients ≡ length cs
      → ((stop_all net (map (λ (c : Client). c.address) cs) s).server.clients ≡ [])
        × ((stop_all net (map (λ (c : Client). c.address) cs) s).server.n_clients ≡ 0)
  unfolding stop_all
  stop_all-clients [] s e n = (e, n)
  stop_all-clients (c ∷ cs) s e n =
      stop_all-clients cs (server_remove_client net s (some c.address)) (remove_head s c cs e).0
        (omega (arith, n, (remove_head s c cs e).1))

  -- A callback that wants the client removed.
  pub server_deliver_packet-remove :
      (packet_cb : Callback net G) (s after : System net G) (a : ℕ) (c : Client)
      → find_client s.server.clients a ≡ some c
      → packet_cb s a c.pack ≡ ok (cb_remove_client, after)
      → server_deliver_packet net (some packet_cb) s a
        ≡ ok (server_remove_client net after (some a))
  unfolding server_deliver_packet
  server_deliver_packet-remove packet_cb s after a c there run = rw (there, run) refl

  -- server_stop removes every client, and counts down to 0.
  pub server_stop_lem :
      (s : System net G)
      → Counted s.server
      → ((server_stop net s).server.clients ≡ []) × ((server_stop net s).server.n_clients ≡ 0)
  unfolding server_stop
  server_stop_lem s h = stop_all-clients s.server.clients s refl h
