-- ===== src/Packet.antt =====
-- praxis2/src/packet.c and praxis2/include/packet.h: the packet of the key-value protocol and of
-- the ring's control messages, and its wire format. A shift of a byte into the sign bit of `int`
-- is taken as on the machine: the bits are kept, and the cast to uint32_t reads them.
pub mod Message
pub mod Copy
pub mod Bytes
pub mod Serialize
pub mod Decode
pub mod RoundTrip
pub mod Overflow
use rn.Prelude.{
  ℕ, ◌+◌, ◌*◌, ◌/◌, ◌%◌, ◌^◌, bit_and, bit_or, Bool, not, Option, none, some, List, [], ◌∷◌, Exec,
  ok, ◌>>=◌, load, slice, splice, read_ptr, Allocator, drop, u8, u16, u32, u64, ◌<<<◌, ◌>>>◌, ltb,
  ◌==◌, if◌then◌else◌,
}

-- The flags of a control packet.
abbrev pub pkt_flag_ctrl : ℕ
pkt_flag_ctrl = 1 <<< 7

abbrev pub pkt_flag_rply : ℕ
pkt_flag_rply = 1 <<< 1

abbrev pub pkt_flag_lkup : ℕ
pkt_flag_lkup = 1 <<< 0

-- The flags of a data packet.
abbrev pub pkt_flag_ack : ℕ
pkt_flag_ack = 1 <<< 3

abbrev pub pkt_flag_get : ℕ
pkt_flag_get = 1 <<< 2

abbrev pub pkt_flag_set : ℕ
pkt_flag_set = 1 <<< 1

abbrev pub pkt_flag_del : ℕ
pkt_flag_del = 1 <<< 0

abbrev pub pkt_header_len : ℕ
pkt_header_len = 7

-- `flags & mask` as a condition
unfoldable pub has : ℕ → ℕ → Bool
has flags mask = not (bit_and flags mask == 0)

-- `struct _packet`. A pointer is `none` for NULL, and else the block that it points to.
pub record Packet : Type 0 where
  pub flags : ℕ
  pub key_len : ℕ
  pub value_len : ℕ
  pub key : Option (List ℕ)
  pub value : Option (List ℕ)
  pub hash_id : ℕ
  pub node_id : ℕ
  pub node_ip : ℕ
  pub node_port : ℕ

abbrev pub packet_new : Packet
packet_new = record {
  flags = 0;
  key_len = 0;
  value_len = 0;
  key = none;
  value = none;
  hash_id = 0;
  node_id = 0;
  node_ip = 0;
  node_port = 0;
}

-- The two fresh blocks are filled whole by `memcpy`, so what they held before does not matter.
pub packet_dup : Packet → Exec Packet
packet_dup p = do
  key ← read_ptr p.key p.key_len
  value ← read_ptr p.value p.value_len
  ok (record p { key = some key; value = some value })

-- The sum is made in uint32_t, before the result is a `size_t`.
unfoldable pub packet_body_size : Packet → ℕ
packet_body_size p = if not (has p.flags pkt_flag_ctrl) then u32 (p.key_len + p.value_len) else 4

-- `(uint8_t)(x >> k) & 0xFF`
pub byte_at : ℕ → ℕ → ℕ
byte_at x k = bit_and (u8 (x >>> k)) 0xff

-- `if (src != NULL && n != 0) memcpy(buffer + off, src, n)`
pub copy_in : List ℕ → ℕ → Option (List ℕ) → ℕ → Exec (List ℕ)
copy_in buffer off none n = ok buffer
copy_in buffer off (some src) n =
    if n == 0 then ok buffer else (do bytes ← slice src 0 n; splice buffer off bytes)

module _ (heap : Allocator) where
  -- The buffer and `*buf_len`.
  pub packet_serialize_data : Packet → Exec (List ℕ × ℕ)
  packet_serialize_data p = do
    let packet_size = u64 (pkt_header_len + p.key_len + p.value_len)
    buffer ← splice (heap.malloc packet_size) 0 (
        p.flags
        ∷ byte_at p.key_len 8
        ∷ byte_at p.key_len 0
        ∷ byte_at p.value_len 24
        ∷ byte_at p.value_len 16
        ∷ byte_at p.value_len 8
        ∷ byte_at p.value_len 0
        ∷ [])
    with_key ← copy_in buffer 7 p.key p.key_len
    with_value ← copy_in with_key (7 + p.key_len) p.value p.value_len
    ok (with_value, packet_size)

  pub packet_serialize_ctrl : Packet → Exec (List ℕ × ℕ)
  packet_serialize_ctrl p = do
    buffer ← splice (heap.malloc 11) 0 (
        p.flags
        ∷ byte_at p.hash_id 8
        ∷ byte_at p.hash_id 0
        ∷ byte_at p.node_id 8
        ∷ byte_at p.node_id 0
        ∷ byte_at p.node_ip 24
        ∷ byte_at p.node_ip 16
        ∷ byte_at p.node_ip 8
        ∷ byte_at p.node_ip 0
        ∷ byte_at p.node_port 8
        ∷ byte_at p.node_port 0
        ∷ [])
    ok (buffer, 11)

  pub packet_serialize : Packet → Exec (List ℕ × ℕ)
  packet_serialize p =
      if has p.flags pkt_flag_ctrl then packet_serialize_ctrl p else packet_serialize_data p

-- `(hi << 8) | (lo << 0)` in a uint16_t, and the same of four bytes in a uint32_t
pub join_16 : ℕ → ℕ → ℕ
join_16 hi lo = u16 (bit_or (hi <<< 8) (lo <<< 0))

pub join_32 : ℕ → ℕ → ℕ → ℕ → ℕ
join_32 a b c d = u32 (bit_or (bit_or (bit_or (a <<< 24) (b <<< 16)) (c <<< 8)) (d <<< 0))

-- The two branches of `packet_decode_hdr`. Of the address only the upper half is in the header.
decode_hdr_data : Packet → List ℕ → Exec (Option Packet)
decode_hdr_data p buffer = do
  b1 ← load buffer 1
  b2 ← load buffer 2
  b3 ← load buffer 3
  b4 ← load buffer 4
  b5 ← load buffer 5
  b6 ← load buffer 6
  ok (some (record p { key_len = join_16 b1 b2; value_len = join_32 b3 b4 b5 b6 }))

decode_hdr_ctrl : Packet → List ℕ → Exec (Option Packet)
decode_hdr_ctrl p buffer = do
  b1 ← load buffer 1
  b2 ← load buffer 2
  b3 ← load buffer 3
  b4 ← load buffer 4
  b5 ← load buffer 5
  b6 ← load buffer 6
  ok (
      some (record p {
        hash_id = join_16 b1 b2;
        node_id = join_16 b3 b4;
        node_ip = u32 (bit_or (b5 <<< 24) (b6 <<< 16));
      }))

-- `none` is the NULL of the code.
pub packet_decode_hdr : List ℕ → ℕ → Exec (Option Packet)
packet_decode_hdr buffer buf_len = if ltb buf_len pkt_header_len then ok none else (do
  b0 ← load buffer 0
  let p = record packet_new { flags = b0 }
  if not (has b0 pkt_flag_ctrl) then decode_hdr_data p buffer else decode_hdr_ctrl p buffer)

decode_body_ctrl : Packet → List ℕ → Exec (Option Packet)
decode_body_ctrl p buffer = do
  b0 ← load buffer 0
  b1 ← load buffer 1
  b2 ← load buffer 2
  b3 ← load buffer 3
  ok (
      some (record p {
        node_ip = bit_or p.node_ip (bit_or (b0 <<< 8) (b1 <<< 0));
        node_port = join_16 b2 b3;
      }))

-- `if (n > 0) { field = malloc(n); memcpy(field, buffer + off, n); }`
pub copy_out : Option (List ℕ) → List ℕ → ℕ → ℕ → Exec (Option (List ℕ))
copy_out old buffer off n =
    if ltb 0 n then (do bytes ← slice buffer off n; ok (some bytes)) else ok old

decode_body_data : Packet → List ℕ → ℕ → Exec (Option Packet)
decode_body_data p buffer buf_len =
    if ltb buf_len (u32 (p.key_len + p.value_len)) then ok none else (do
      key ← copy_out p.key buffer 0 p.key_len
      value ← copy_out p.value buffer p.key_len p.value_len
      ok (some (record p { key = key; value = value })))

pub packet_decode_body : Packet → List ℕ → ℕ → Exec (Option Packet)
packet_decode_body p buffer buf_len =
    if has p.flags pkt_flag_ctrl
    then decode_body_ctrl p buffer
    else decode_body_data p buffer buf_len

-- The body is decoded from `buffer + 7`, with the length of the whole buffer.
pub packet_decode : List ℕ → ℕ → Exec (Option Packet)
packet_decode buffer buf_len = do
  header ← packet_decode_hdr buffer buf_len
  elim header [
    | none ↦ ok none
    | some p ↦ packet_decode_body p (drop pkt_header_len buffer) buf_len
  ]
