-- ===== src/Neighbour.antt =====
-- praxis2/src/neighbour.c and praxis2/include/neighbour.h: the peers of the ring. The field `addr`
-- of a peer is all 0 from memset on, since peer_connect copies out of it and not into it; it is
-- left out with its length, and `blank` stands for it. A negative descriptor is `none`.
pub mod Responsible
pub mod Addresses
pub mod Rings
use rn.Prelude.{
  ℕ, ◌-◌, ◌%◌, ◌^◌, Bool, true, false, not, Option, none, some, List, [], ◌∷◌, ltb, leb, ◌==◌, ◌&&◌,
  ◌||◌, if◌then◌else◌, u16,
}
use rn.Packet.{Packet}
use rn.Network.{Network}

-- `struct _peer`
pub record Peer : Type 0 where
  pub node_id : ℕ
  pub hostname : List ℕ
  pub port : ℕ
  pub socket : Option ℕ

-- A `long int`: a number, or one below 0 by its absolute value.
pub data Long : Type 0 where
  plus : ℕ → Long
  minus : ℕ → Long

exceeds_port : Long → Bool
exceeds_port (plus n) = ltb (2 ^ 16 - 1) n
exceeds_port (minus n) = false

-- The conversion of a `long int` to uint16_t.
to_port : Long → ℕ
to_port (plus n) = u16 n
to_port (minus n) = (2 ^ 16 - n % 2 ^ 16) % 2 ^ 16

unfoldable pub after_strtol : ℕ → Option ℕ → ℕ
after_strtol errno none = errno
after_strtol errno (some e) = e

-- The first argument is strtol: the value, and what it sets errno to if it does. errno is never
-- set to 0, so the test of it sees what any call before has left there.
unfoldable pub peer_init : (List ℕ → Long × Option ℕ) → ℕ → ℕ → List ℕ → List ℕ → ℕ × Option Peer
unfolding exceeds_port to_port after_strtol
peer_init strtol errno id hostname port =
    let (tmp, set) = strtol port in
    let now = after_strtol errno set in
    if not (now == 0) || exceeds_port tmp then (now, none) else (
      now,
      some (record { node_id = id; hostname = hostname; port = to_port tmp; socket = none }),
    )

-- The three arguments are uint16_t.
unfoldable pub peer_is_responsible : ℕ → ℕ → ℕ → ℕ
peer_is_responsible pred_id peer_id hash_id =
    if ltb peer_id pred_id && ltb pred_id hash_id
    then 1
    else if leb hash_id peer_id && ltb pred_id hash_id
    then 1
    else 0

module _ (net : Network) where
  open net use {World, Address}

  -- What memset leaves 0 stays so: the id, and the descriptor.
  pub peer_from_packet : Packet → Peer
  peer_from_packet pack = record {
    node_id = 0;
    hostname = net.inet_ntop pack.node_ip;
    port = pack.node_port;
    socket = some 0;
  }

  unfoldable pub peer_lookup : Peer → World → Option (List Address) × World
  peer_lookup p w = net.getaddrinfo p.hostname p.port w

  -- The loop over the entries `pa`. It connects to `res`, the first entry, in every round, goes on
  -- after a connection is made, and overwrites the address of `res` by the peer's blank one then.
  unfoldable pub connect_loop : List Address → Address → Bool → Peer → World → Bool × Peer × World
  connect_loop [] res connected p w = (connected, p, w)
  connect_loop (pa ∷ rest) res connected p w =
      let (sock, w1) = net.socket w in
      let p' = record p { socket = sock } in
      let (accepted, w2) = net.connect sock res w1 in
      let next = λ (a : Address) (c : Bool) (v : World). connect_loop rest a c p' v in
      elim sock [
        | none ↦ next res connected w1
        | some s ↦ if accepted then next net.blank true w2 else next res connected w2
      ]

  connect_found : Option (List Address) → Peer → World → Bool × Peer × World
  connect_found none p w = (false, p, w)
  connect_found (some []) p w = (false, p, w)
  connect_found (some (res ∷ more)) p w = connect_loop (res ∷ more) res false p w

  -- `true` for the result 0, `false` for -1.
  unfoldable pub peer_connect : Peer → World → Bool × Peer × World
  unfolding connect_found
  peer_connect p w = let (found, w') = peer_lookup p w in connect_found found p w'

  ip_found : Option (List Address) → ℕ
  ip_found none = 0
  ip_found (some []) = 0
  ip_found (some (res ∷ more)) = net.ip_of res

  pub peer_get_ip : Peer → World → ℕ × World
  unfolding ip_found
  peer_get_ip p w = let (found, w') = peer_lookup p w in (ip_found found, w')

  unfoldable pub peer_disconnect : Peer → World → Peer × World
  peer_disconnect p w = (record p { socket = none }, net.close p.socket w)
