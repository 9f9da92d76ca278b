-- ===== src/Packet/Copy.antt =====
-- packet_dup of praxis2/src/packet.c.
use rn.Prelude.{◌≡◌, refl, some, ok, read_ptr_lem, bytes, Readable}
use rn.Packet.{Packet, packet_dup}

-- The copy: blocks of its own, with just the bytes that the lengths tell.
abbrev pub copy_of : Packet → Packet
copy_of p = record p {
  key = some (bytes p.key p.key_len);
  value = some (bytes p.value p.value_len);
}

-- packet_dup of a packet whose blocks can be read faults nowhere, and makes a packet of the same
-- fields with copies of the bytes; its pointers are never NULL.
pub packet_dup_lem :
    (p : Packet)
    → Readable p.key p.key_len
    → Readable p.value p.value_len
    → packet_dup p ≡ ok (copy_of p)
unfolding packet_dup
packet_dup_lem p hk hv =
    rw (read_ptr_lem p.key p.key_len hk, read_ptr_lem p.value p.value_len hv) refl
