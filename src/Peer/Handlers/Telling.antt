-- ===== src/Peer/Handlers/Telling.antt =====
-- forward of praxis2/src/peer.c with a control packet: what a peer tells another.
use rn.Prelude.{ℕ, ◌≡◌, refl, Bool, true, false, Option, none, List, ok, Allocator}
use rn.Packet.{Packet, has, pkt_flag_ctrl}
use rn.Packet.Message.{IsPacket, message, encode}
use rn.Packet.Serialize.{packet_serialize_lem}
use rn.Uthash.{Uthash}
use rn.HashTable.{entry_key}
use rn.Requests.{rtable_key}
use rn.Network.{Network, Stream}
use rn.Neighbour.{Peer, peer_connect, peer_disconnect}
use rn.Transfer.{Sent, all_sent, failed, stuck}
use rn.Transfer.Sending.{Delivered, sendall_lem}
use rn.Peer.Handlers.{after_sending, forward}
use rn.Peer.Handlers.Proxying.{passed}

module _ (heap : Allocator) (net : Network) (htu : Uthash entry_key) (rtu : Uthash rtable_key)
    (fuel : ℕ) where
  open net use {World}

  -- What forward results in, behind sendall: the connection is closed, or stays open after an error.
  abbrev pub After : Peer → Sent × World → Bool × Peer × World → Type 0
  After n (all_sent, w) r = r ≡ (true, record n { socket = none }, net.close n.socket w)
  After n (failed, w) r = r ≡ (false, n, w)
  After n (stuck, w) r = ⊥

  module _ (streams : (s : Option ℕ) → Stream net s) where
    -- Where the connection is made, the wire format of the packet is sent over it, in full or until send
    -- declines some. Where it is not, nothing is sent.
    abbrev pub Told : Packet → Bool × Peer × World → Bool × Peer × World → Type 0
    Told p (false, n, w) r = r ≡ (false, n, w)
    Told p (true, n, w) r =
        Delivered net n.socket (streams n.socket) (encode (message p)) w
          (passed heap net htu rtu fuel n.socket (encode (message p)) w)
        × After n (passed heap net htu rtu fuel n.socket (encode (message p)) w) r

    closes :
        (flags : ℕ) (n : Peer) (block : List ℕ) (w : World) (sent : Sent × World)
        → has flags pkt_flag_ctrl ≡ true
        → Delivered net n.socket (streams n.socket) block w sent
        → (r : Bool × Peer × World) × (after_sending heap net htu rtu fuel flags n sent ≡ ok r)
          × After n sent r
    unfolding after_sending peer_disconnect
    closes flags n block w (all_sent, after) ctrl d = (_, rw ctrl refl, refl)
    closes flags n block w (failed, after) ctrl d = (_, refl, refl)
    closes flags n block w (stuck, after) ctrl d = elim d [ ]

    -- A control packet is told to a peer, whether or not the peer accepts a connection.
    pub forward-Told :
        (n : Peer) (p : Packet) (w : World)
        → IsPacket p
        → has p.flags pkt_flag_ctrl ≡ true
        → (r : Bool × Peer × World) × (forward heap net htu rtu fuel n p w ≡ ok r)
          × Told p (peer_connect net n w) r
    unfolding forward
    forward-Told n p w v ctrl = by_connection (peer_connect net n w) refl
      where
        by_connection :
            (c : Bool × Peer × World)
            → peer_connect net n w ≡ c
            → (r : Bool × Peer × World) × (forward heap net htu rtu fuel n p w ≡ ok r) × Told p c r
        by_connection (false, n', w1) connects =
            (_, rw (packet_serialize_lem heap p v, connects) refl, refl)
        by_connection (true, n', w1) connects =
            let d = sendall_lem net n'.socket (streams n'.socket) (encode (message p)) w1 in
            let (r, run, after) = closes p.flags n' (encode (message p)) w1 _ ctrl d in
            let told : Told p (true, n', w1) r = (d, after) in
            (r, rw (packet_serialize_lem heap p v, connects) run, told)
