-- ===== src/Peer/Handlers/Proxying.antt =====
-- proxy_request of praxis2/src/peer.c: a request that another peer answers.
use rn.Prelude.{
  ℕ, ◌^◌, ◌<◌, ◌≡◌, ◌≢◌, refl, ap, Bool, true, false, Option, none, List, length, ok, Allocator,
}
use mathlib.Core.Path.{subst}
use rn.Packet.{Packet, has, pkt_flag_ctrl}
use rn.Packet.Message.{IsPacket, message, encode}
use rn.Packet.Serialize.{packet_serialize_lem}
use rn.Uthash.{Uthash}
use rn.HashTable.{entry_key}
use rn.Requests.{rtable_key}
use rn.Network.{Network, Stream}
use rn.Neighbour.{Peer, peer_connect, peer_disconnect}
use rn.Transfer.{Sent, all_sent, failed, stuck, sendall, recvall}
use rn.Transfer.Sending.{Delivered, sendall_lem}
use rn.Transfer.Receiving.{Received, recvall_lem}
use rn.Transfer.Behind.{sendall-append}
use rn.Server.{cb_remove_client}
use rn.Peer.Handlers.{after_sending, forward, proxy_request}

module _ (heap : Allocator) (net : Network) (htu : Uthash entry_key) (rtu : Uthash rtable_key)
    (fuel : ℕ) where
  open net use {World}

  -- What sendall makes of bytes.
  abbrev pub passed : Option ℕ → List ℕ → World → Sent × World
  passed socket block w = sendall net socket block (length block) w

  -- The peer `n` and the client at `csocket` after the proxy has passed on `request` and `reply`.
  pub record Proxied (csocket : Option ℕ) (p : Packet) (n n' : Peer)
      (upstream : Stream net n'.socket) (downstream : Stream net csocket) (reply : List ℕ)
      (w w1 : World) : Type 0 where
    pub answered : World
    pub asks :
        Delivered net n'.socket upstream
          (encode (message p))
          w1
          (passed n'.socket (encode (message p)) w1)
    pub ends :
        proxy_request heap net htu rtu fuel csocket p n w
        ≡ ok (
          cb_remove_client,
          record n' { socket = none },
          net.close n'.socket (passed csocket reply answered).1,
        )
    pub passes : Delivered net csocket downstream reply answered (passed csocket reply answered)

  -- sendall over a stream does not run out of rounds, so that forward keeps the connection.
  kept_open :
      (flags : ℕ) (n' : Peer) (upstream : Stream net n'.socket) (block : List ℕ) (w : World)
      (r : Sent × World)
      → has flags pkt_flag_ctrl ≡ false
      → Delivered net n'.socket upstream block w r
      → (b : Bool) × (after_sending heap net htu rtu fuel flags n' r ≡ ok (b, n', r.1))
  unfolding after_sending
  kept_open flags n' upstream block w (all_sent, after) plain d = (true, rw plain refl)
  kept_open flags n' upstream block w (failed, after) plain d = (false, refl)
  kept_open flags n' upstream block w (stuck, after) plain d = elim d [ ]

  -- A packet that is no control packet is passed to a peer that accepts the connection. What comes
  -- in from there behind the request, to the end of the stream, is `reply`, any bytes; recv makes no
  -- error. Then the proxy does not fault and does end. The peer has got the packet in the wire format
  -- and in full, or send has declined some; the client gets the bytes of the reply as they are, all of
  -- them, in order and once, or send declines some; the client is to be removed, and the
  -- peer's descriptor is given up.
  pub proxy_request_lem :
      (csocket : Option ℕ) (p : Packet) (n n' : Peer) (upstream : Stream net n'.socket)
      (downstream : Stream net csocket) (reply : List ℕ) (w w1 : World)
      → IsPacket p
      → has p.flags pkt_flag_ctrl ≡ false
      → peer_connect net n w ≡ (true, n', w1)
      → ((k : ℕ) (u : World) → (net.recv n'.socket k u).0 ≢ none)
      → upstream.incoming (passed n'.socket (encode (message p)) w1).1 ≡ reply
      → length reply < fuel
      → length reply < 2 ^ 61
      → Proxied csocket p n n' upstream downstream reply w w1
  unfolding proxy_request forward peer_disconnect
  proxy_request_lem csocket p n n' upstream downstream reply w w1 v plain connects no_error to_come
        enough small =
      let (b, open') = kept_open p.flags n' upstream (encode (message p)) w1 asked plain asks' in
      let (back, after, run) =
        subst
          (λ l. Received net heap n'.socket upstream l (recvall net heap fuel n'.socket asked.1))
          to_come
          (recvall_lem net heap n'.socket upstream no_error fuel asked.1 (rw to_come enough)
            (rw to_come small)) in
      record {
        answered = after;
        asks = asks';
        ends =
            rw (packet_serialize_lem heap p v, connects, open', run)
              (ap (λ r. ok (cb_remove_client, record n' { socket = none }, net.close n'.socket r.1))
                (sendall-append net csocket reply back after));
        passes = sendall_lem net csocket downstream reply after;
      }
    where
      asked : Sent × World
      asked = passed n'.socket (encode (message p)) w1

      asks' : Delivered net n'.socket upstream (encode (message p)) w1 asked
      asks' = sendall_lem net n'.socket upstream (encode (message p)) w1
