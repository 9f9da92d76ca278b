-- ===== src/Scratch/Printing.antt =====
-- What print_packet of praxis2/include/scratch1.c reads of the bytes of a packet, which need not be
-- strings.
use rn.Prelude.{
  ℕ, suc, ◌≡◌, refl, Bool, true, false, List, [], ◌∷◌, arith, length, ok, fault, has_end,
  print_text-has_end, ◌==◌, if◌then◌else◌, ◌&&◌, Bool-cases, inl, inr,
}
use rn.Packet.Message.{request, packet_of, pointer_to}
use rn.Scratch.{print_field, print_packet}

-- An empty field is not printed.
abbrev pub is_printable : List ℕ → Bool
is_printable [] = true
is_printable (b ∷ bytes) = has_end (b ∷ bytes)

print_field_lem :
    (xs : List ℕ)
    → print_field (pointer_to xs) (length xs) ≡ (if is_printable xs then ok tt else fault)
unfolding print_field
print_field_lem [] = refl
print_field_lem (b ∷ bytes) = rw some_bytes (print_text-has_end (b ∷ bytes))
  where
    some_bytes : (suc (length bytes) == 0) ≡ false
    some_bytes = ground arith

-- print_packet of a request ends just when each of the key and the value is empty or has a zero byte;
-- else it reads behind their bytes.
pub print_packet_lem :
    (f : ℕ) (k v : List ℕ)
    → print_packet (packet_of (request f k v))
      ≡ (if is_printable k && is_printable v then ok tt else fault)
unfolding print_packet
print_packet_lem f k v =
    rw (print_field_lem k, print_field_lem v)
      (elim (Bool-cases (is_printable k)) [ inl yes_k ↦ rw yes_k refl | inr no_k ↦ rw no_k refl ])
