-- ===== src/Tests/Bodies.antt =====
-- Tests of what the server does with the bodies of packets.
use rn.Prelude.{ℕ, ◌≡◌, ◌≤◌, ◌⊎◌, refl, List, [], ◌∷◌, some, arith, ok, fault}
use rn.RingBuffer.{RingBuffer, rb_new, rb_can_write}
use rn.RingBuffer.Positions.{rb_can_read_lem, can_read-add-can_write}
use rn.Packet.{packet_body_size, has, Packet}
use rn.Packet.Message.{request, encode}
use rn.Packet.Decode.{header_of}
use rn.Packet.Overflow.{Overflows, overflows}
use rn.Server.{Client, hdr_recvd, server_remove_client, set_client}
use rn.Server.Loop.{header_bytes, body_bytes, receive_body}
use rn.Server.Loop.Framing.{Collects}
use rn.Server.Loop.Bodies.{CollectsBody}
use rn.Server.Loop.Lengths.{body_overflow_lem, empty_body_lem}
use rn.Tests.Fixtures.{zeros, pipe, stream}
use rn.Tests.Streams.{fresh, busy, echo}

-- A key of two bytes and a value of 2 ^ 32 - 1 are declared.
abbrev too_long : List ℕ
too_long = 4 ∷ 0 ∷ 2 ∷ 255 ∷ 255 ∷ 255 ∷ 255 ∷ []

too_long-Overflows : Overflows too_long
too_long-Overflows = overflows 4 0 2 255 255 255 255 (omega arith) (omega arith) (omega arith)

abbrev no_body : RingBuffer
no_body = record { buffer = 0 ∷ 0 ∷ []; bufsize = 2; rpos = 0; wpos = 0 }

abbrev attacked : Client
attacked = record fresh {
  state = hdr_recvd;
  pkt_buf = some no_body;
  pack = some (header_of too_long);
}

attacked-CollectsBody : CollectsBody attacked no_body (header_of too_long)
attacked-CollectsBody = record {
  buf = refl;
  valid = record {
    whole = refl;
    small = omega arith;
    wpos_in = omega arith;
    rpos_in = omega arith;
  };
  pack = refl;
}

-- A client of which six bytes of this header have come.
abbrev six_there : RingBuffer
six_there = record {
  buffer = 4 ∷ 0 ∷ 2 ∷ 255 ∷ 255 ∷ 255 ∷ 0 ∷ 0 ∷ [];
  bufsize = 8;
  rpos = 0;
  wpos = 6;
}

abbrev declaring : Client
declaring = record fresh { header_buf = six_there }

declaring-Collects : Collects declaring
declaring-Collects = record {
  valid = record {
    whole = refl;
    small = omega arith;
    wpos_in = omega arith;
    rpos_in = omega arith;
  };
  size = refl;
}

room_for_one : 1 ≤ rb_can_write six_there
room_for_one = omega (
  arith,
  rb_can_read_lem six_there declaring-Collects.valid,
  can_read-add-can_write six_there declaring-Collects.valid,
)

body_overflow_lem_example :
    ((e : Client) × (header_bytes zeros pipe {G = ℕ} (some echo) busy declaring (some (255 ∷ []))
        ≡ ok (set_client pipe busy e))
      × (e.pkt_buf ≡ some (rb_new zeros 1)))
    × (body_bytes zeros pipe (some echo) busy attacked (some (107 ∷ [])) ≡ fault)
unfolding rn.RingBuffer.advance
body_overflow_lem_example =
    body_overflow_lem zeros pipe (some echo) busy declaring (255 ∷ []) busy attacked no_body
      (107 ∷ []) declaring-Collects (omega arith) room_for_one (omega arith) too_long-Overflows
      attacked-CollectsBody refl (omega arith) refl (omega arith)

-- A GET of the empty key.
abbrev keyless : Packet
keyless = header_of (encode (request 4 [] []))

abbrev waiting : Client
waiting = record fresh {
  socket = some 9;
  state = hdr_recvd;
  pkt_buf = some (rb_new zeros (packet_body_size keyless));
  pack = some keyless;
}

empty_body_lem_example :
    (receive_body zeros pipe (some echo) busy waiting ≡ ok busy)
    ⊎ (receive_body zeros pipe (some echo) busy waiting
        ≡ ok (server_remove_client pipe busy (some 3)))
unfolding packet_body_size has
empty_body_lem_example = empty_body_lem zeros pipe (some echo) busy waiting keyless stream refl refl
