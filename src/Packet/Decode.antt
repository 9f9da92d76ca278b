-- ===== src/Packet/Decode.antt =====
-- packet_decode, packet_decode_hdr and packet_decode_body of praxis2/src/packet.c on any bytes.
use rn.Prelude.{
  ℕ, zero, suc, ◌∙◌, ◌+◌, ◌*◌, ◌%◌, ◌^◌, ◌≤◌, ◌<◌, ◌≡◌, refl, ap, false, Option, none, some, List,
  [], ◌∷◌, arith, length, take, drop, length-drop, Exec, ok, fault, slice_ok, slice_fault,
  if◌then◌else◌, leb, ltb, inl, inr, Bool-cases, u32, length-take, All, IsByte,
}
use rn.Packet.{
  Packet, packet_new, packet_decode_hdr, decode_hdr_data, decode_hdr_ctrl, packet_decode_body,
  decode_body_ctrl, decode_body_data, copy_out, packet_decode,
}
use rn.Packet.Bytes.{join_16_lem, join_32_lem, join_upper, join_lower}
use rn.Packet.Message.{request, control, packet_of, pointer_to, has-ctrl}

-- What comes of the bytes behind the header of a request that declares `k` and `v` bytes. Their
-- sum modulo 2 ^ 32 is compared with `buf_len`.
abbrev pub request_outcome : ℕ → ℕ → ℕ → ℕ → List ℕ → Exec (Option Packet)
request_outcome buf_len f k v body =
    if ltb buf_len ((k + v) % 2 ^ 32)
    then ok none
    else if leb (k + v) (length body)
    then ok (some (packet_of (request f (take k body) (take v (drop k body)))))
    else fault

-- The four bytes that a control packet has behind the header are read unchecked.
abbrev pub control_outcome : ℕ → ℕ → ℕ → ℕ → List ℕ → Exec (Option Packet)
control_outcome f h n upper (c ∷ d ∷ e ∷ g ∷ more) =
    ok (some (packet_of (control f h n (upper * 2 ^ 16 + c * 256 + d) (e * 256 + g))))
control_outcome f h n upper _ = fault

-- What comes of the body behind a header that the seven bytes spell; `n` is the length compared with.
abbrev pub body_outcome : ℕ → ℕ → ℕ → ℕ → ℕ → ℕ → ℕ → List ℕ → ℕ → Exec (Option Packet)
body_outcome f a b c d e g body n =
    if leb 128 f
    then control_outcome f (a * 256 + b) (c * 256 + d) (e * 256 + g) body
    else request_outcome n f (a * 256 + b) (c * 2 ^ 24 + d * 2 ^ 16 + e * 256 + g) body

abbrev pub outcome : List ℕ → Exec (Option Packet)
outcome (f ∷ a ∷ b ∷ c ∷ d ∷ e ∷ g ∷ body) =
    body_outcome f a b c d e g body (length (f ∷ a ∷ b ∷ c ∷ d ∷ e ∷ g ∷ body))
outcome _ = ok none

pointer_to-some : (xs : List ℕ) → 0 < length xs → pointer_to xs ≡ some xs
pointer_to-some [] h = absurd (omega arith)
pointer_to-some (x ∷ xs) h = refl

-- One copy out of the body.
copy_out-pointer_to :
    (buf : List ℕ) (off n : ℕ)
    → off + n ≤ length buf
    → copy_out none buf off n ≡ ok (pointer_to (take n (drop off buf)))
unfolding copy_out
copy_out-pointer_to buf off zero h = refl
copy_out-pointer_to buf off (suc n) h =
    rw
      (
        slice_ok buf off (suc n) h,
        pointer_to-some (take (suc n) (drop off buf))
            (omega (arith, length-take (suc n) (drop off buf), length-drop off buf)),
      )
      (ground arith)

copy_out_fault :
    (old : Option (List ℕ)) (buf : List ℕ) (off n : ℕ)
    → 0 < n
    → length buf < off + n
    → copy_out old buf off n ≡ fault
unfolding copy_out
copy_out_fault old buf off n pos h = rw (slice_fault buf off n h) (ground arith)

decode_body_data_lem :
    (f k v : ℕ) (body : List ℕ) (buf_len : ℕ)
    → decode_body_data (record packet_new { flags = f; key_len = k; value_len = v }) body buf_len
      ≡ request_outcome buf_len f k v body
unfolding decode_body_data
decode_body_data_lem f k v body buf_len = elim (Bool-cases (ltb buf_len ((k + v) % 2 ^ 32))) [
  | inl short ↦ rw short
  | inr long ↦ rw long (elim (Bool-cases (leb (k + v) (length body))) [
    | inl fits ↦
        let all_there : k + v ≤ length body = ground arith in
        rw
          (
            fits,
            copy_out-pointer_to body 0 k (omega arith),
            copy_out-pointer_to body k v (omega arith),
            taken k body (omega arith),
            taken v (drop k body) (omega (arith, length-drop k body)),
          )
          refl
    | inr missing ↦ rw missing (elim (Bool-cases (leb k (length body))) [
      | inl key_fits ↦
          rw
            (
              copy_out-pointer_to body 0 k (ground arith),
              copy_out_fault none body k v (ground arith) (ground arith),
            )
            refl
      | inr key_missing ↦ rw (copy_out_fault none body 0 k (ground arith) (ground arith)) refl
    ])
  ])
]
  where
    taken : (n : ℕ) (xs : List ℕ) → n ≤ length xs → length (take n xs) ≡ n
    taken n xs h = omega (arith, length-take n xs)

-- The packet that a header of seven bytes starts.
abbrev pub header_packet : ℕ → ℕ → ℕ → ℕ → ℕ → ℕ → ℕ → Packet
header_packet f a b c d e g =
    if leb 128 f
    then record packet_new {
      flags = f;
      hash_id = a * 256 + b;
      node_id = c * 256 + d;
      node_ip = (e * 256 + g) * 2 ^ 16;
    }
    else record packet_new {
      flags = f;
      key_len = a * 256 + b;
      value_len = c * 2 ^ 24 + d * 2 ^ 16 + e * 256 + g;
    }

-- The packet that seven header bytes start.
abbrev pub header_of : List ℕ → Packet
header_of (f ∷ a ∷ b ∷ c ∷ d ∷ e ∷ g ∷ more) = header_packet f a b c d e g
header_of _ = packet_new

pub packet_decode_hdr_lem :
    (f a b c d e g : ℕ) (body : List ℕ) (n : ℕ)
    → All IsByte (f ∷ a ∷ b ∷ c ∷ d ∷ e ∷ g ∷ [])
    → 7 ≤ n
    → packet_decode_hdr (f ∷ a ∷ b ∷ c ∷ d ∷ e ∷ g ∷ body) n
      ≡ ok (some (header_packet f a b c d e g))
unfolding packet_decode_hdr decode_hdr_data decode_hdr_ctrl
packet_decode_hdr_lem f a b c d e g body n (vf, (va, (vb, (vc, (vd, (ve, (vg, _))))))) long =
    rw (long_enough, has-ctrl f vf)
      (elim (Bool-cases (leb 128 f)) [
        | inl ctrl ↦
            rw (ctrl, join_16_lem a b va vb, join_16_lem c d vc vd, join_upper e g ve vg)
              (ap
                (λ ip. ok (
                  some (record packet_new {
                    flags = f;
                    hash_id = a * 256 + b;
                    node_id = c * 256 + d;
                    node_ip = ip;
                  })))
                {x = u32 ((e * 256 + g) * 2 ^ 16)} (omega arith))
        | inr plain ↦ rw (plain, join_16_lem a b va vb, join_32_lem c d e g vc vd ve vg) refl
      ])
  where
    long_enough : ltb n 7 ≡ false
    long_enough = ground arith

decode_body_ctrl_lem :
    (f h n upper : ℕ) (body : List ℕ)
    → All IsByte body
    → decode_body_ctrl
        (record packet_new { flags = f; hash_id = h; node_id = n; node_ip = upper * 2 ^ 16 })
        body
      ≡ control_outcome f h n upper body
unfolding decode_body_ctrl
decode_body_ctrl_lem f h n upper [] v = refl
decode_body_ctrl_lem f h n upper (c ∷ []) v = refl
decode_body_ctrl_lem f h n upper (c ∷ d ∷ []) v = refl
decode_body_ctrl_lem f h n upper (c ∷ d ∷ x ∷ []) v = refl
decode_body_ctrl_lem f h n upper (c ∷ d ∷ x ∷ y ∷ more) (vc, (vd, (vx, (vy, _)))) =
    rw (join_lower upper c d vc vd, join_16_lem x y vx vy) refl

-- The body of a request; what stands behind it is not looked at.
pub decode_body_request :
    (f a b c d e g : ℕ) (body : List ℕ) (n : ℕ)
    → IsByte f
    → leb 128 f ≡ false
    → packet_decode_body (header_packet f a b c d e g) body n
      ≡ request_outcome n f (a * 256 + b) (c * 2 ^ 24 + d * 2 ^ 16 + e * 256 + g) body
unfolding packet_decode_body
decode_body_request f a b c d e g body n vf plain =
    rw (plain, has-ctrl f vf, plain)
      (decode_body_data_lem f (a * 256 + b) (c * 2 ^ 24 + d * 2 ^ 16 + e * 256 + g) body n)

pub packet_decode_body_lem :
    (f a b c d e g : ℕ) (body : List ℕ) (n : ℕ)
    → IsByte f
    → All IsByte body
    → packet_decode_body (header_packet f a b c d e g) body n ≡ body_outcome f a b c d e g body n
unfolding packet_decode_body
packet_decode_body_lem f a b c d e g body n vf vbody = elim (Bool-cases (leb 128 f)) [
  | inl ctrl ↦
      rw (ctrl, has-ctrl f vf, ctrl)
        (decode_body_ctrl_lem f (a * 256 + b) (c * 256 + d) (e * 256 + g) body vbody)
  | inr plain ↦ decode_body_request f a b c d e g body n vf plain ∙ rw plain refl
]

-- packet_decode of any bytes, with their number as `buf_len`: NULL where the header is cut or
-- where more is declared (modulo 2 ^ 32) than the whole buffer holds; else the message that the
-- bytes spell, as long as the declared bytes are there behind the header; and else a read outside
-- of the buffer.
pub packet_decode_lem :
    (buf : List ℕ) → All IsByte buf → packet_decode buf (length buf) ≡ outcome buf
unfolding packet_decode
packet_decode_lem [] v = unfold packet_decode_hdr in refl
packet_decode_lem (f ∷ []) v = unfold packet_decode_hdr in refl
packet_decode_lem (f ∷ a ∷ []) v = unfold packet_decode_hdr in refl
packet_decode_lem (f ∷ a ∷ b ∷ []) v = unfold packet_decode_hdr in refl
packet_decode_lem (f ∷ a ∷ b ∷ c ∷ []) v = unfold packet_decode_hdr in refl
packet_decode_lem (f ∷ a ∷ b ∷ c ∷ d ∷ []) v = unfold packet_decode_hdr in refl
packet_decode_lem (f ∷ a ∷ b ∷ c ∷ d ∷ e ∷ []) v = unfold packet_decode_hdr in refl
packet_decode_lem (f ∷ a ∷ b ∷ c ∷ d ∷ e ∷ g ∷ body)
      (vf, (va, (vb, (vc, (vd, (ve, (vg, vbody))))))) =
    rw
      (packet_decode_hdr_lem f a b c d e g body
        (suc (suc (suc (suc (suc (suc (suc (length body))))))))
        (vf, (va, (vb, (vc, (vd, (ve, (vg, tt))))))) (omega arith))
      (packet_decode_body_lem f a b c d e g body _ vf vbody)
