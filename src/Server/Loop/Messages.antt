-- ===== src/Server/Loop/Messages.antt =====
-- What the server of praxis2/src/server.c delivers of a message that packet_serialize of
-- praxis2/src/packet.c has written.
use rn.Prelude.{
  ℕ, ◌+◌, ◌≤◌, ◌<◌, ◌≡◌, ◌∙◌, ap, true, Option, some, none, List, ◌++◌, arith, Allocator, length,
  drop, length-append, ◌==◌,
}
use rn.Packet.Message.{Message, IsMessage, encode, packet_of}
use rn.Packet.Decode.{header_of}
use rn.Packet.RoundTrip.{IsContent, body-encode}
use rn.RingBuffer.{RingBuffer, rb_can_write}
use rn.RingBuffer.Positions.{can_read-add-can_write}
use rn.RingBuffer.Contents.{contents, length-contents}
use rn.Network.{Network}
use rn.Server.{Client, idle, System, Callback, set_client, server_deliver_packet}
use rn.Server.Loop.{body_bytes}
use rn.Server.Loop.Bodies.{CollectsBody, body_bytes_lem}

module _ (heap : Allocator) (net : Network) {G : Type 0} (packet_cb : Option (Callback net G)) where
  -- With the last bytes of the body of a message, in whatever pieces the others came, the server
  -- delivers the struct of just this message to its callback, from a client that is idle again and
  -- has no packet buffer.
  pub message_arrives :
      (s : System net G) (c : Client) (rb : RingBuffer) (m : Message) (bytes : List ℕ)
      → IsMessage m
      → IsContent m
      → CollectsBody c rb (header_of (encode m))
      → rb.bufsize ≡ length (drop 7 (encode m)) + 1
      → contents rb ++ bytes ≡ drop 7 (encode m)
      → 0 < length bytes
      → body_bytes heap net packet_cb s c (some bytes)
        ≡ server_deliver_packet net packet_cb
            (set_client net s
              (record c { pack = some (packet_of m); state = idle; pkt_buf = none }))
            c.address
  message_arrives s c rb m bytes h content v size whole some_in =
      rw (whole, full) at
        (body_bytes_lem heap net packet_cb s c rb (header_of (encode m)) bytes v some_in fits)
      ∙ rw (body-encode m h content)
    where
      together : rb.bufsize ≡ length (contents rb) + length bytes + 1
      together =
          omega
            (arith, size, ap (λ (l : List ℕ). length l) whole, length-append (contents rb) bytes)

      fits : length bytes ≤ rb_can_write rb
      fits = omega (arith, together, can_read-add-can_write rb v.valid, length-contents rb v.valid)

      full : (length (drop 7 (encode m)) + 1 == rb.bufsize) ≡ true
      full = ground (arith, size)
