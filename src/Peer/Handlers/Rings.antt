-- ===== src/Peer/Handlers/Rings.antt =====
-- The answers to lookups that the peers of praxis2/src/peer.c give, in the ring as a whole.
use rn.Packet.{Packet}
use rn.Uthash.{Uthash}
use rn.Network.{Network}
