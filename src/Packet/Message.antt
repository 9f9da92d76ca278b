-- ===== src/Packet/Message.antt =====
-- What a packet says, apart from its layout in memory, and the wire format in plain arithmetic:
-- the specification that packet_serialize and packet_decode of praxis2/src/packet.c implement.
use rn.Prelude.{
  ℕ, ◌*◌, ◌/◌, ◌%◌, ◌^◌, ◌≤◌, ◌<◌, ◌≡◌, refl, ap, Option, none, some, List, [], ◌∷◌, ◌++◌, arith,
  length, take_all, if◌then◌else◌, leb, bit_and, bytes, Readable,
}
use rn.Prelude.Bits.{holds_below, byte_table}
use rn.Packet.{Packet, packet_new, has, pkt_flag_ctrl}

pub data Message : Type 0 where
  -- flags, key, value
  request : ℕ → List ℕ → List ℕ → Message
  -- flags, hash id, node id, address, port
  control : ℕ → ℕ → ℕ → ℕ → ℕ → Message

-- The fields fit their width, and the top bit of the flags tells the two kinds apart.
abbrev pub IsMessage : Message → Type 0
IsMessage (request f k v) = (f < 128) × (length k < 2 ^ 16) × (length v < 2 ^ 32)
IsMessage (control f h n ip port) =
    (128 ≤ f) × (f < 256) × (h < 2 ^ 16) × (n < 2 ^ 16) × (ip < 2 ^ 32) × (port < 2 ^ 16)

-- The number `x` as its byte from bit `k` on.
abbrev pub digit : ℕ → ℕ → ℕ
digit x k = x / 2 ^ k % 256

abbrev pub header : ℕ → ℕ → ℕ → List ℕ → List ℕ
header f k v rest =
    f ∷ digit k 8 ∷ digit k 0 ∷ digit v 24 ∷ digit v 16 ∷ digit v 8 ∷ digit v 0 ∷ rest

abbrev pub encode : Message → List ℕ
encode (request f k v) = header f (length k) (length v) (k ++ v)
encode (control f h n ip port) =
    f
    ∷ digit h 8
    ∷ digit h 0
    ∷ digit n 8
    ∷ digit n 0
    ∷ digit ip 24
    ∷ digit ip 16
    ∷ digit ip 8
    ∷ digit ip 0
    ∷ digit port 8
    ∷ digit port 0
    ∷ []

-- An empty buffer is NULL.
abbrev pub pointer_to : List ℕ → Option (List ℕ)
pointer_to [] = none
pointer_to (b ∷ bs) = some (b ∷ bs)

-- The struct that the decoder builds for a message.
abbrev pub packet_of : Message → Packet
packet_of (request f k v) = record packet_new {
  flags = f;
  key_len = length k;
  value_len = length v;
  key = pointer_to k;
  value = pointer_to v;
}
packet_of (control f h n ip port) = record packet_new {
  flags = f;
  hash_id = h;
  node_id = n;
  node_ip = ip;
  node_port = port;
}

-- The fields fit their C types, and the pointers lead to as many bytes as the lengths say.
pub record IsPacket (p : Packet) : Type 0 where
  pub flags_fit : p.flags < 2 ^ 8
  pub key_len_fits : p.key_len < 2 ^ 16
  pub value_len_fits : p.value_len < 2 ^ 32
  pub hash_id_fits : p.hash_id < 2 ^ 16
  pub node_id_fits : p.node_id < 2 ^ 16
  pub node_ip_fits : p.node_ip < 2 ^ 32
  pub node_port_fits : p.node_port < 2 ^ 16
  pub key_readable : Readable p.key p.key_len
  pub value_readable : Readable p.value p.value_len

-- What a packet says.
abbrev pub message : Packet → Message
message p =
    if leb 128 p.flags
    then control p.flags p.hash_id p.node_id p.node_ip p.node_port
    else request p.flags (bytes p.key p.key_len) (bytes p.value p.value_len)

pub has-ctrl : (f : ℕ) → f < 256 → has f pkt_flag_ctrl ≡ leb 128 f
unfolding has holds_below
has-ctrl f h = ground (arith, byte_table (λ x. bit_and x 128) (λ x. x / 128 * 128) refl f h)

pub bytes-pointer_to : (xs : List ℕ) → bytes (pointer_to xs) (length xs) ≡ xs
bytes-pointer_to [] = refl
bytes-pointer_to (x ∷ xs) = ap (λ t. x ∷ t) (take_all (length xs) xs (omega arith))

pub Readable-pointer_to : (xs : List ℕ) → Readable (pointer_to xs) (length xs)
Readable-pointer_to [] = refl
Readable-pointer_to (x ∷ xs) = omega arith

-- The struct of a message says just that message, and is well formed.
pub message-packet_of : (m : Message) → IsMessage m → message (packet_of m) ≡ m
message-packet_of (request f k v) h = ground (arith, bytes-pointer_to k, bytes-pointer_to v)
message-packet_of (control f h n ip port) v = ground arith

pub packet_of-IsPacket : (m : Message) → IsMessage m → IsPacket (packet_of m)
packet_of-IsPacket (request f k v) h = record {
  flags_fit = omega arith;
  key_len_fits = omega arith;
  value_len_fits = omega arith;
  hash_id_fits = omega arith;
  node_id_fits = omega arith;
  node_ip_fits = omega arith;
  node_port_fits = omega arith;
  key_readable = Readable-pointer_to k;
  value_readable = Readable-pointer_to v;
}
packet_of-IsPacket (control f h n ip port) v = omega arith
