-- ===== src/Packet/RoundTrip.antt =====
-- What packet_serialize of praxis2/src/packet.c writes, packet_decode reads back.
use rn.Prelude.{
  ℕ, ◌+◌, ◌*◌, ◌%◌, ◌^◌, ◌≤◌, ◌<◌, ◌≡◌, refl, ◌∙◌, true, false, some, List, [], ◌∷◌, ◌++◌, arith,
  length, length-append, take-length, drop-length, ok, ◌>>=◌, Allocator, ltb, leb, All, IsByte,
  drop, take, append-nil, append_assoc,
}
use rn.Packet.{packet_serialize, packet_decode, packet_decode_body, packet_body_size}
use rn.Packet.Message.{
  Message, request, control, IsMessage, digit, encode, packet_of, packet_of-IsPacket,
  message-packet_of, has-ctrl,
}
use rn.Packet.Serialize.{packet_serialize_lem}
use rn.Packet.Decode.{
  packet_decode_lem, packet_decode_hdr_lem, decode_body_request, outcome, request_outcome,
  header_of, body_outcome, packet_decode_body_lem,
}

-- The bytes of a message are bytes.
abbrev pub IsContent : Message → Type 0
IsContent (request f k v) = All IsByte (k ++ v)
IsContent (control f h n ip port) = Unit

-- All that a request declares stands behind its header.
request_arrives :
    (n f : ℕ) (k v back : List ℕ)
    → length k + length v ≤ n
    → request_outcome n f (length k) (length v) (k ++ (v ++ back))
      ≡ ok (some (packet_of (request f k v)))
request_arrives n f k v back fits =
    rw (no_cut, all_there, take-length, drop-length, take-length) refl
  where
    no_cut : ltb n ((length k + length v) % 2 ^ 32) ≡ false
    no_cut = ground arith

    all_there : leb (length k + length v) (length (k ++ (v ++ back))) ≡ true
    all_there = ground (arith, length-append k (v ++ back), length-append v back)

-- The bytes that the lengths of a request are written as spell the lengths.
key_len-digits : (k : ℕ) → k < 2 ^ 16 → digit k 8 * 256 + digit k 0 ≡ k
key_len-digits k h = omega arith

value_len-digits :
    (v : ℕ)
    → v < 2 ^ 32
    → digit v 24 * 2 ^ 24 + digit v 16 * 2 ^ 16 + digit v 8 * 256 + digit v 0 ≡ v
value_len-digits v h = omega arith

-- What the bytes of a request's header and body spell, whatever stands behind them.
spelled :
    (n f : ℕ) (k v back : List ℕ)
    → IsMessage (request f k v)
    → length k + length v ≤ n
    → request_outcome n f
        (digit (length k) 8 * 256 + digit (length k) 0)
        (digit (length v) 24 * 2 ^ 24
          + digit (length v) 16 * 2 ^ 16
          + digit (length v) 8 * 256
          + digit (length v) 0)
        ((k ++ v) ++ back)
      ≡ ok (some (packet_of (request f k v)))
spelled n f k v back h fits =
    rw
      (
        append_assoc k v back,
        key_len-digits (length k) (omega arith),
        value_len-digits (length v) (omega arith),
      )
      (request_arrives n f k v back fits)

outcome-request :
    (n f : ℕ) (k v : List ℕ)
    → IsMessage (request f k v)
    → length (k ++ v) ≤ n
    → body_outcome f
        (digit (length k) 8)
        (digit (length k) 0)
        (digit (length v) 24)
        (digit (length v) 16)
        (digit (length v) 8)
        (digit (length v) 0)
        (k ++ v)
        n
      ≡ ok (some (packet_of (request f k v)))
outcome-request n f k v h fits =
    let plain : leb 128 f ≡ false = ground arith in
    rw plain (rw append-nil at (spelled n f k v [] h (omega (arith, length-append k v))))

outcome-control :
    (n f h i ip port : ℕ)
    → IsMessage (control f h i ip port)
    → body_outcome f
        (digit h 8)
        (digit h 0)
        (digit i 8)
        (digit i 0)
        (digit ip 24)
        (digit ip 16)
        (digit ip 8 ∷ digit ip 0 ∷ digit port 8 ∷ digit port 0 ∷ [])
        n
      ≡ ok (some (packet_of (control f h i ip port)))
outcome-control n f h i ip port (top, wf, wh, wi, wip, wport) =
    rw (ctrl, two h wh, two i wi, two port wport, four) refl
  where
    ctrl : leb 128 f ≡ true
    ctrl = ground arith

    two : (x : ℕ) → x < 2 ^ 16 → digit x 8 * 256 + digit x 0 ≡ x
    two x w = omega arith

    four : (digit ip 24 * 256 + digit ip 16) * 2 ^ 16 + digit ip 8 * 256 + digit ip 0 ≡ ip
    four = omega arith

outcome-encode : (m : Message) → IsMessage m → outcome (encode m) ≡ ok (some (packet_of m))
outcome-encode (request f k v) h = outcome-request _ f k v h (omega arith)
outcome-encode (control f h i ip port) w = outcome-control _ f h i ip port w

pub encode-IsByte : (m : Message) → IsMessage m → IsContent m → All IsByte (encode m)
encode-IsByte (request f k v) h c = (
  omega arith,
  (omega arith, (omega arith, (omega arith, (omega arith, (omega arith, (omega arith, c)))))),
)
encode-IsByte (control f h n ip port) v c = omega arith

-- The packet of the header of a message, and the bytes behind the header, give all of the message.
pub body-encode :
    (m : Message)
    → IsMessage m
    → IsContent m
    → packet_decode_body (header_of (encode m)) (drop 7 (encode m)) (length (drop 7 (encode m)))
      ≡ ok (some (packet_of m))
body-encode (request f k v) h c =
    packet_decode_body_lem f _ _ _ _ _ _ (k ++ v) _ (omega arith) c
    ∙ outcome-request _ f k v h (omega arith)
body-encode (control f h i ip port) w c =
    packet_decode_body_lem f _ _ _ _ _ _ _ _ (omega arith) (omega arith)
    ∙ outcome-control _ f h i ip port w

-- The header of a message declares the bytes behind it, as far as 32 bits count.
pub packet_body_size-encode :
    (m : Message)
    → IsMessage m
    → length (drop 7 (encode m)) < 2 ^ 32
    → packet_body_size (header_of (encode m)) ≡ length (drop 7 (encode m))
unfolding packet_body_size
packet_body_size-encode (request f k v) h small =
    rw (plain, has-ctrl f (omega arith), plain) (omega (arith, small, length-append k v))
  where
    plain : leb 128 f ≡ false
    plain = ground arith
packet_body_size-encode (control f h i ip port) (top, wf, wh, wi, wip, wport) small =
    rw (ctrl, has-ctrl f wf, ctrl) refl
  where
    ctrl : leb 128 f ≡ true
    ctrl = ground arith

pub header_of-take : (m : Message) → header_of (take 7 (encode m)) ≡ header_of (encode m)
header_of-take (request f k v) = refl
header_of-take (control f h i ip port) = refl

-- packet_decode of a request with any bytes behind it in the buffer.
pub decode-request :
    (f : ℕ) (k v back : List ℕ)
    → IsMessage (request f k v)
    → packet_decode (encode (request f k v) ++ back) (length (encode (request f k v)))
      ≡ ok (some (packet_of (request f k v)))
unfolding packet_decode
decode-request f k v back h =
    rw (packet_decode_hdr_lem f _ _ _ _ _ _ ((k ++ v) ++ back) size digits (omega arith)) (
      decode_body_request f _ _ _ _ _ _ ((k ++ v) ++ back) size (omega arith) plain
      ∙ spelled size f k v back h (omega (arith, length-append k v)))
  where
    size : ℕ
    size = length (encode (request f k v))

    plain : leb 128 f ≡ false
    plain = ground arith

    digits : All IsByte (
        f
        ∷ digit (length k) 8
        ∷ digit (length k) 0
        ∷ digit (length v) 24
        ∷ digit (length v) 16
        ∷ digit (length v) 8
        ∷ digit (length v) 0
        ∷ [])
    digits = omega arith

module _ (heap : Allocator) where
  -- packet_decode reads back every message that packet_serialize writes: it builds the same struct
  -- again, and neither call leaves its buffers.
  pub decode-serialize :
      (m : Message)
      → IsMessage m
      → IsContent m
      → (do (raw, raw_size) ← packet_serialize heap (packet_of m); packet_decode raw raw_size)
        ≡ ok (some (packet_of m))
  decode-serialize m h c =
      rw (packet_serialize_lem heap (packet_of m) (packet_of-IsPacket m h), message-packet_of m h)
        (packet_decode_lem (encode m) (encode-IsByte m h c) ∙ outcome-encode m h)
