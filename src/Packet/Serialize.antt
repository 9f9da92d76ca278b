-- ===== src/Packet/Serialize.antt =====
-- packet_serialize, packet_serialize_data and packet_serialize_ctrl of praxis2/src/packet.c write
-- the wire format, and packet_body_size tells the size of what stands behind the header.
use rn.Prelude.{
  ℕ, ◌+◌, ◌≤◌, ◌≡◌, refl, sym, ap, ◌∙◌, Option, none, some, List, [], ◌∷◌, ◌++◌, arith, length,
  take, drop, drop_all, length-drop, length-append, append_assoc, append-nil, ok, Allocator, splice,
  slice_ok, splice-append, splice_all, leb, ◌==◌, inl, inr, Bool-cases, u64, length-take, bytes,
  Readable, length-bytes,
}
use rn.Packet.{
  Packet, byte_at, copy_in, packet_serialize, packet_serialize_data, packet_serialize_ctrl,
}
use rn.Packet.Bytes.{byte_at_lem}
use rn.Packet.Message.{control, encode, message, IsPacket, has-ctrl, header}

-- A copy behind `front` appends what the pointer holds.
copy_in-append :
    (front rest : List ℕ) (off : ℕ) (src : Option (List ℕ)) (n : ℕ)
    → off ≡ length front
    → n ≤ length rest
    → Readable src n
    → copy_in (front ++ rest) off src n ≡ ok ((front ++ bytes src n) ++ drop n rest)
unfolding copy_in
copy_in-append front rest off none n e fits h = rw (h, append-nil)
copy_in-append front rest off (some buf) n e fits h = elim (Bool-cases (n == 0)) [
  | inl z ↦ let n0 : n ≡ 0 = ground arith in rw (n0, append-nil)
  | inr nz ↦
      rw (nz, slice_ok buf 0 n (omega arith)) (written ∙ ap ok (sym (append_assoc front _ _)))
]
  where
    taken : length (take n buf) ≡ n
    taken = omega (arith, length-take n buf)

    written : splice (front ++ rest) off (take n buf) ≡ ok (front ++ (take n buf ++ drop n rest))
    written =
        splice-append front rest (take n buf) off e (omega (arith, taken))
        ∙ ap (λ k. ok (front ++ (take n buf ++ drop k rest))) taken

module _ (heap : Allocator) where
  serialize_data_lem :
      (p : Packet)
      → IsPacket p
      → packet_serialize_data heap p
        ≡ ok (
          header p.flags p.key_len p.value_len (bytes p.key p.key_len ++ bytes p.value p.value_len),
          7 + p.key_len + p.value_len,
        )
  unfolding packet_serialize_data
  serialize_data_lem p v =
      rw (size, start, key_in, value_in, all_used, append-nil) (simp byte_at_lem)
    where
      open p use {flags, key, value, key_len, value_len}

      total : ℕ
      total = 7 + key_len + value_len

      size : u64 (7 + key_len + value_len) ≡ total
      size = omega arith

      head : List ℕ
      head =
          flags
          ∷ byte_at key_len 8
          ∷ byte_at key_len 0
          ∷ byte_at value_len 24
          ∷ byte_at value_len 16
          ∷ byte_at value_len 8
          ∷ byte_at value_len 0
          ∷ []

      block : List ℕ
      block = heap.malloc total

      start : splice block 0 head ≡ ok (head ++ drop 7 block)
      start = splice-append [] block head 0 refl (omega (arith, heap.length-malloc total))

      rest : List ℕ
      rest = drop 7 block

      length-rest : length rest ≡ key_len + value_len
      length-rest = omega (arith, heap.length-malloc total, length-drop 7 block)

      key_in :
          copy_in (head ++ rest) 7 key key_len
          ≡ ok ((head ++ bytes key key_len) ++ drop key_len rest)
      key_in =
          copy_in-append head rest 7 key key_len refl (omega (arith, length-rest)) v.key_readable

      value_in :
          copy_in ((head ++ bytes key key_len) ++ drop key_len rest) (7 + key_len) value value_len
          ≡ ok (
              ((head ++ bytes key key_len) ++ bytes value value_len)
              ++ drop value_len (drop key_len rest))
      value_in =
          copy_in-append (head ++ bytes key key_len) (drop key_len rest) (7 + key_len) value
            value_len (omega (arith, length-bytes key key_len v.key_readable))
            (omega (arith, length-rest, length-drop key_len rest)) v.value_readable

      all_used : drop value_len (drop key_len rest) ≡ []
      all_used =
          drop_all value_len (drop key_len rest)
            (omega (arith, length-rest, length-drop key_len rest))

  serialize_ctrl_lem :
      (p : Packet)
      → packet_serialize_ctrl heap p
        ≡ ok (encode (control p.flags p.hash_id p.node_id p.node_ip p.node_port), 11)
  unfolding packet_serialize_ctrl
  serialize_ctrl_lem p = rw filled (simp byte_at_lem)
    where
      open p use {flags, hash_id, node_id, node_ip, node_port}

      all : List ℕ
      all =
          flags
          ∷ byte_at hash_id 8
          ∷ byte_at hash_id 0
          ∷ byte_at node_id 8
          ∷ byte_at node_id 0
          ∷ byte_at node_ip 24
          ∷ byte_at node_ip 16
          ∷ byte_at node_ip 8
          ∷ byte_at node_ip 0
          ∷ byte_at node_port 8
          ∷ byte_at node_port 0
          ∷ []

      filled : splice (heap.malloc 11) 0 all ≡ ok all
      filled = splice_all (heap.malloc 11) all (heap.length-malloc 11)

  -- packet_serialize of a well-formed packet touches memory only inside its blocks, and returns the
  -- wire format of the packet's message with its length, whatever malloc left in the fresh block.
  pub packet_serialize_lem :
      (p : Packet)
      → IsPacket p
      → packet_serialize heap p ≡ ok (encode (message p), length (encode (message p)))
  unfolding packet_serialize
  packet_serialize_lem p v =
      rw (has-ctrl p.flags v.flags_fit) (elim (Bool-cases (leb 128 p.flags)) [
        | inl c ↦ rw c (serialize_ctrl_lem p)
        | inr d ↦ rw (
          d,
          serialize_data_lem p v,
          ← request_length,
          length-bytes key key_len v.key_readable,
          length-bytes value value_len v.value_readable,
        )
      ])
    where
      open p use {key, value, key_len, value_len}

      request_length :
          length (header p.flags key_len value_len (bytes key key_len ++ bytes value value_len))
          ≡ 7 + key_len + value_len
      request_length = omega (
        arith,
        length-append (bytes key key_len) (bytes value value_len),
        length-bytes key key_len v.key_readable,
        length-bytes value value_len v.value_readable,
      )
