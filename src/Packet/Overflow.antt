-- ===== src/Packet/Overflow.antt =====
-- Requests that declare more bytes than the 32 bits of packet_body_size in praxis2/src/packet.c count.
use rn.Prelude.{
  ℕ, ◌+◌, ◌*◌, ◌%◌, ◌^◌, ◌≤◌, ◌<◌, ◌≡◌, refl, ◌∙◌, false, List, [], ◌∷◌, arith, fault, length, leb,
  ltb, All, IsByte,
}
use rn.Packet.{packet_decode_body, packet_body_size}
use rn.Packet.Decode.{header_of, packet_decode_body_lem}
use rn.Packet.Message.{has-ctrl}

-- The header of a request that declares a key and a value of together 2 ^ 32 bytes or more.
pub data Overflows : List ℕ → Type 0 where
  overflows :
      (f a b c d e g : ℕ)
      → All IsByte (f ∷ a ∷ b ∷ c ∷ d ∷ e ∷ g ∷ [])
      → f < 128
      → 2 ^ 32 ≤ a * 256 + b + (c * 2 ^ 24 + d * 2 ^ 16 + e * 256 + g)
      → Overflows (f ∷ a ∷ b ∷ c ∷ d ∷ e ∷ g ∷ [])

-- The sum of the lengths that a request's header declares.
abbrev pub declared : List ℕ → ℕ
declared (f ∷ a ∷ b ∷ c ∷ d ∷ e ∷ g ∷ rest) = a * 256 + b + (c * 2 ^ 24 + d * 2 ^ 16 + e * 256 + g)
declared _ = 0

pub length-Overflows : (head : List ℕ) → Overflows head → length head ≡ 7
length-Overflows _ (overflows f a b c d e g v plain many) = refl

-- The size that the code computes of it.
pub body_size-declared :
    (head : List ℕ) → Overflows head → packet_body_size (header_of head) ≡ declared head % 2 ^ 32
unfolding packet_body_size
body_size-declared _ (overflows f a b c d e g v plain many) =
    let request : leb 128 f ≡ false = ground arith in rw (request, has-ctrl f v.0, request) refl

-- All bytes that the server takes for the body are there, but not all that it copies.
pub decode_overflow :
    (head body : List ℕ)
    → Overflows head
    → All IsByte body
    → length body ≡ packet_body_size (header_of head)
    → packet_decode_body (header_of head) body (length body) ≡ fault
unfolding packet_body_size
decode_overflow _ body (overflows f a b c d e g v plain many) bytes size =
    packet_decode_body_lem f a b c d e g body (length body) (v.0) bytes
    ∙ rw (request, no_cut, missing) refl
  where
    k : ℕ
    k = a * 256 + b

    n : ℕ
    n = c * 2 ^ 24 + d * 2 ^ 16 + e * 256 + g

    request : leb 128 f ≡ false
    request = ground arith

    wrapped : length body ≡ (k + n) % 2 ^ 32
    wrapped = size ∙ rw (request, has-ctrl f v.0, request) refl

    no_cut : ltb (length body) ((k + n) % 2 ^ 32) ≡ false
    no_cut = ground (arith, wrapped)

    missing : leb (k + n) (length body) ≡ false
    missing = ground (arith, wrapped)
