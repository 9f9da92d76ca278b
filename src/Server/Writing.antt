-- ===== src/Server/Writing.antt =====
-- The list of clients of praxis2/src/server.c as a store: what stands at an address after a client's
-- struct has changed.
use rn.Prelude.{◌≡◌, refl, ℕ, some, List, [], ◌∷◌, arith}
use rn.Server.{Client, find_client, write_client}

pub find_client-address :
    (cs : List Client) (a : ℕ) (c : Client) → find_client cs a ≡ some c → c.address ≡ a
unfolding find_client
find_client-address [] a c e = cc
find_client-address (x ∷ cs) a c e = ground (arith, find_client-address cs a c)

pub write_client-found :
    (cs : List Client) (c : Client) → find_client cs c.address ≡ some c → write_client cs c ≡ cs
unfolding find_client write_client
write_client-found [] c e = refl
write_client-found (x ∷ cs) c e = ground (arith, write_client-found cs c)

pub find_client-write :
    (cs : List Client) (old c : Client)
    → find_client cs c.address ≡ some old
    → find_client (write_client cs c) c.address ≡ some c
unfolding find_client write_client
find_client-write [] old c e = cc
find_client-write (x ∷ cs) old c e = ground (arith, find_client-write cs old c)

pub write_client-twice :
    (cs : List Client) (c d : Client)
    → c.address ≡ d.address
    → write_client (write_client cs c) d ≡ write_client cs d
unfolding write_client
write_client-twice [] c d e = refl
write_client-twice (x ∷ cs) c d e = ground (arith, write_client-twice cs c d)
