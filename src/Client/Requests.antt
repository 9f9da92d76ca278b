-- ===== src/Client/Requests.antt =====
-- What praxis2/src/client.c Sends for a command, and what it writes of a reply.
use rn.Prelude.{
  ℕ, ◌^◌, ◌<◌, ◌≡◌, refl, ap, ◌∙◌, Option, none, some, List, [], ◌++◌, arith, length, length-append,
  take_all, take-length, leb, false, ok, Allocator, Readable, bytes, u16, u32,
}
use rn.Packet.{Packet, packet_serialize, pkt_flag_set, pkt_flag_get, pkt_flag_del}
use rn.Packet.Message.{Message, request, encode, message, IsPacket}
use rn.Packet.Serialize.{packet_serialize_lem}
use rn.Client.{Command, set_value, get_value, delete_value, unknown, keyed, request_packet}

-- The message of a command; `value` is what stdin had, for SET.
abbrev pub meant : Command → List ℕ → List ℕ → Option Message
meant set_value key value = some (request pkt_flag_set key value)
meant get_value key value = some (request pkt_flag_get key [])
meant delete_value key value = some (request pkt_flag_del key [])
meant unknown key value = none

-- What goes to the peer for a request.
abbrev pub Sends : Allocator → Option Packet → Option Message → Type 0
Sends heap none none = Unit
Sends heap (some p) (some m) = packet_serialize heap p ≡ ok (encode m, length (encode m))
Sends heap _ _ = ⊥

module _ (heap : Allocator) (flags : ℕ) (key : List ℕ) (pointer : Option (List ℕ)) (n : ℕ) where
  abbrev filled : Packet
  filled = record (keyed flags key) { value = pointer; value_len = n }

  filled-IsPacket :
      flags < 128 → length key < 2 ^ 16 → n < 2 ^ 32 → Readable pointer n → IsPacket filled
  unfolding keyed
  filled-IsPacket hf hk hn r = record {
    flags_fit = omega arith;
    key_len_fits = omega arith;
    value_len_fits = hn;
    hash_id_fits = omega arith;
    node_id_fits = omega arith;
    node_ip_fits = omega arith;
    node_port_fits = omega arith;
    key_readable = omega arith;
    value_readable = r;
  }

  message-filled :
      flags < 128 → length key < 2 ^ 16 → message filled ≡ request flags key (bytes pointer n)
  unfolding keyed
  message-filled hf hk =
      let plain : leb 128 flags ≡ false = ground arith in
      rw plain (
        ap (λ k. request flags k (bytes pointer n)) (take_all (u16 (length key)) key (omega arith)))

  serialize-filled :
      flags < 128
      → length key < 2 ^ 16
      → n < 2 ^ 32
      → Readable pointer n
      → (value : List ℕ) → bytes pointer n ≡ value
      → packet_serialize heap filled
        ≡ ok (encode (request flags key value), length (encode (request flags key value)))
  serialize-filled hf hk hn r value e =
      packet_serialize_lem heap filled (filled-IsPacket hf hk hn r)
      ∙ ap (λ m. ok (encode m, length (encode m)))
          (message-filled hf hk ∙ ap (λ v. request flags key v) e)

-- The packet that the client makes of a command is serialized to the wire format of the command,
-- with the whole key and all of the data, if the key has less than 2 ^ 16 bytes and the data less
-- than 2 ^ 32. `back` is what stands behind the data in the buffer of read_stdin.
pub request_packet_lem :
    (heap : Allocator) (c : Command) (key value back : List ℕ)
    → length key < 2 ^ 16
    → length value < 2 ^ 32
    → Sends heap (request_packet c key (value ++ back) (length value)) (meant c key value)
unfolding request_packet keyed
request_packet_lem heap set_value key value back hk hv =
    let fits : u32 (length value) ≡ length value = omega arith in
    rw fits (
      serialize-filled heap pkt_flag_set key (some (value ++ back)) (length value) (omega arith) hk
        hv (omega (arith, length-append value back)) value (take-length value back))
request_packet_lem heap get_value key value back hk hv =
    serialize-filled heap pkt_flag_get key none 0 (omega arith) hk (omega arith) refl [] refl
request_packet_lem heap delete_value key value back hk hv =
    serialize-filled heap pkt_flag_del key none 0 (omega arith) hk (omega arith) refl [] refl
request_packet_lem heap unknown key value back hk hv = tt
