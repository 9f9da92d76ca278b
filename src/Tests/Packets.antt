-- ===== src/Tests/Packets.antt =====
-- Tests of packet.c.
use rn.Prelude.{ℕ, ◌≡◌, List, [], ◌∷◌, some, arith, length, ok, fault, ◌>>=◌}
use rn.Packet.{Packet, packet_dup, packet_serialize, packet_decode}
use rn.Packet.Message.{Message, request, control, packet_of, packet_of-IsPacket}
use rn.Packet.Copy.{copy_of, packet_dup_lem}
use rn.Packet.Serialize.{packet_serialize_lem}
use rn.Packet.Decode.{packet_decode_lem}
use rn.Packet.RoundTrip.{decode-serialize}
use rn.Tests.Fixtures.{zeros}

abbrev put : Message
put = request 2 (107 ∷ 49 ∷ []) (120 ∷ 0 ∷ 7 ∷ [])

decode-serialize_example :
    (do (raw, raw_size) ← packet_serialize zeros (packet_of put); packet_decode raw raw_size)
    ≡ ok (some (packet_of put))
decode-serialize_example = decode-serialize zeros put (omega arith) (omega arith)

-- A lookup from node 513 at 10.0.0.1, port 4097.
abbrev lookup : Packet
lookup = packet_of (control 129 1026 513 167772161 4097)

packet_serialize_lem_example :
    packet_serialize zeros lookup ≡ ok (129 ∷ 4 ∷ 2 ∷ 2 ∷ 1 ∷ 10 ∷ 0 ∷ 0 ∷ 1 ∷ 16 ∷ 1 ∷ [], 11)
packet_serialize_lem_example =
    packet_serialize_lem zeros lookup
      (packet_of-IsPacket (control 129 1026 513 167772161 4097) (omega arith))

-- A header for a key of two bytes, of which one is there.
abbrev cut : List ℕ
cut = 4 ∷ 0 ∷ 2 ∷ 0 ∷ 0 ∷ 0 ∷ 0 ∷ 107 ∷ []

packet_decode_lem_example : packet_decode cut (length cut) ≡ fault
packet_decode_lem_example = packet_decode_lem cut (omega arith)

packet_dup_lem_example : packet_dup (packet_of put) ≡ ok (copy_of (packet_of put))
packet_dup_lem_example = packet_dup_lem (packet_of put) (omega arith) (omega arith)
