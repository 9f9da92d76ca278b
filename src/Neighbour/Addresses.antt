-- ===== src/Neighbour/Addresses.antt =====
-- peer_get_ip of praxis2/src/neighbour.c.
use rn.Prelude.{◌<◌, ◌^◌, Option, none, some, List, [], ◌∷◌, arith}
use rn.Network.{Network}
use rn.Neighbour.{Peer, ip_found, peer_get_ip}

module _ (net : Network) (ip_small : (a : net.Address) → net.ip_of a < 2 ^ 32) where
  ip_found-small : (found : Option (List net.Address)) → ip_found net found < 2 ^ 32
  unfolding ip_found
  ip_found-small none = omega arith
  ip_found-small (some []) = omega arith
  ip_found-small (some (res ∷ more)) = ip_small res

  pub peer_get_ip-small : (p : Peer) (w : net.World) → (peer_get_ip net p w).0 < 2 ^ 32
  unfolding peer_get_ip
  peer_get_ip-small p w = ip_found-small _
