-- ===== src/Client.antt =====
-- praxis2/src/client.c: the command-line client. A C string is the list of its bytes before the zero.
-- The calls on stdin and stdout and getaddrinfo, which is given a host and a port as text, are
-- parameters; the messages are left out.
pub mod Requests
pub mod Printing
pub mod Replies
pub mod Reading
pub mod Runs
pub mod Fetching
pub mod Storing
use rn.Prelude.{
  ℕ, zero, suc, ◌+◌, ◌-◌, Bool, true, false, not, Option, none, some, List, [], ◌∷◌, Exec, ok,
  fault, unfinished, ◌>>=◌, deref, Allocator, length, splice, take, drop, read_ptr, u16, u32, ltb,
  ◌==◌, ◌&&◌, if◌then◌else◌,
}
use rn.Packet.{
  Packet, packet_new, packet_serialize, packet_decode, has, pkt_flag_ack, pkt_flag_get,
  pkt_flag_set, pkt_flag_del,
}
use rn.Network.{Network}
use rn.Transfer.{Sent, all_sent, failed, stuck, sendall, recvall, grow}

-- `strcmp(a, b) == 0`
unfoldable pub same_text : List ℕ → List ℕ → Bool
same_text [] [] = true
same_text [] (y ∷ ys) = false
same_text (x ∷ xs) [] = false
same_text (x ∷ xs) (y ∷ ys) = (x == y) && same_text xs ys

-- The commands, and any other method.
pub data Command : Type 0 where
  set_value get_value delete_value unknown : Command

-- "SET", "GET" and "DELETE"
unfoldable pub command : List ℕ → Command
command method =
    if same_text method (83 ∷ 69 ∷ 84 ∷ [])
    then set_value
    else if same_text method (71 ∷ 69 ∷ 84 ∷ [])
    then get_value
    else if same_text method (68 ∷ 69 ∷ 76 ∷ 69 ∷ 84 ∷ 69 ∷ [])
    then delete_value
    else unknown

-- A packet with a key: `strlen` is a size_t, and `key_len` a uint16_t.
pub keyed : ℕ → List ℕ → Packet
keyed flags key = record packet_new { flags = flags; key = some key; key_len = u16 (length key) }

-- The packet of a command, with the data of stdin and their number for SET.
pub request_packet : Command → List ℕ → List ℕ → ℕ → Option Packet
request_packet set_value key value data_len =
    some (record (keyed pkt_flag_set key) { value = some value; value_len = u32 data_len })
request_packet get_value key value data_len = some (keyed pkt_flag_get key)
request_packet delete_value key value data_len = some (keyed pkt_flag_del key)
request_packet unknown key value data_len = none

module _ (heap : Allocator) (net : Network)
    (getaddrinfo : List ℕ → List ℕ → net.World → Option (List net.Address) × net.World)
    (fread : ℕ → net.World → List ℕ × net.World) (fwrite : List ℕ → net.World → ℕ × net.World) where
  open net use {World, Address}

  -- What a round of read_stdin makes of fread's answer; `again` is the next round.
  pub after_fread :
      (List ℕ → ℕ → ℕ → World → Exec (Option (List ℕ × ℕ × World)))
      → List ℕ
      → ℕ
      → ℕ
      → List ℕ × World
      → Exec (Option (List ℕ × ℕ × World))
  after_fread again buffer buf_size pos (bytes, w) =
      if ltb (length bytes) 1
      then ok (some (buffer, pos, w))
      else (do filled ← splice buffer pos bytes; again filled buf_size (pos + length bytes) w)

  -- The loop at `write_ptr = buffer + pos`; `none` when the fuel runs out.
  pub stdin_loop : ℕ → List ℕ → ℕ → ℕ → World → Exec (Option (List ℕ × ℕ × World))
  stdin_loop zero buffer buf_size pos w = ok none
  stdin_loop (suc fuel) buffer buf_size pos w =
      let (room, size) = grow net heap buffer buf_size pos in
      after_fread (stdin_loop fuel) room size pos (fread (size - pos) w)

  pub read_stdin : ℕ → World → Exec (Option (List ℕ × ℕ × World))
  read_stdin fuel w = stdin_loop fuel (heap.malloc 1024) 1024 0 w

  -- The loop over the entries of getaddrinfo: the first that accepts a connection.
  unfoldable pub connect_any : List Address → World → Option ℕ × World
  connect_any [] w = (none, w)
  connect_any (p ∷ more) w =
      let (sock, w1) = net.socket w in
      let (accepted, w2) = net.connect sock p w1 in
      let next = λ (v : World). connect_any more v in
      elim sock [
        | none ↦ next w1
        | some s ↦ if accepted then (some s, w2) else next (net.close (some s) w2)
      ]

  connect_resolved : Option (List Address) × World → Option ℕ × World
  connect_resolved (none, w) = (none, w)
  connect_resolved (some res, w) = connect_any res w

  unfoldable pub connect_socket : List ℕ → List ℕ → World → Option ℕ × World
  unfolding connect_resolved
  connect_socket hostname port w = connect_resolved (getaddrinfo hostname port w)

  -- `while (written < rsp->value_len)`
  pub out_loop : ℕ → List ℕ → ℕ → ℕ → World → Sent × World
  out_loop zero value value_len written w = (if ltb written value_len then stuck else all_sent, w)
  out_loop (suc fuel) value value_len written w =
      let (n, w') = fwrite (take (value_len - written) (drop written value)) w in
      let next = out_loop fuel value value_len (written + n) w' in
      if ltb written value_len then (if ltb n 1 then (failed, w') else next) else (all_sent, w)

  -- What is written of a reply to GET; `true` is the exit code 0.
  pub write_value : Packet → World → Exec (Bool × World)
  write_value rsp w = do
    value ← read_ptr rsp.value rsp.value_len
    let (sent, w') = out_loop rsp.value_len value rsp.value_len 0 w in
        elim sent [ all_sent ↦ ok (true, w') | failed ↦ ok (false, w') | stuck ↦ unfinished ]

  pub is_get_value : Command → Bool
  is_get_value get_value = true
  is_get_value _ = false

  -- From packet_decode on. A response that cannot be decoded or acknowledges nothing is the code -1.
  pub handle_response : Command → Option Packet → World → Exec (Bool × World)
  unfolding is_get_value
  handle_response c none w = ok (false, w)
  handle_response c (some rsp) w =
      if not (has rsp.flags pkt_flag_ack)
      then ok (false, w)
      else if is_get_value c
      then write_value rsp w
      else ok (true, w)

  pub await : ℕ → Command → Option ℕ → World → Exec (Bool × World)
  await fuel c s w = do
    received ← recvall net heap fuel s w
    elim received [
      | none ↦ unfinished
      | some answer ↦
          let (response, response_len, w') = answer in
          (do rsp ← packet_decode response response_len; handle_response c rsp w')
    ]

  -- The request of a command over the connection `s`, and its answer. The result of sendall is not
  -- looked at.
  pub exchange : ℕ → Command → Option ℕ → Option Packet → World → Exec (Bool × World)
  exchange fuel c s none w = ok (false, w)
  exchange fuel c s (some p) w = do
    (raw_pkt, raw_size) ← packet_serialize heap p
    let (sent, w') = sendall net s raw_pkt raw_size w in await fuel c s w'

  -- stdin is read for SET.
  pub request_data : ℕ → Command → World → Exec (List ℕ × ℕ × World)
  request_data fuel set_value w = do
    data' ← read_stdin fuel w
    elim data' [ none ↦ unfinished | some found ↦ ok found ]
  request_data fuel _ w = ok ([], 0, w)

  pub connected : ℕ → List ℕ → List ℕ → Option ℕ × World → Exec (Bool × World)
  connected fuel method key (none, w) = ok (false, w)
  connected fuel method key (some s, w) = do
    (value, data_len, w') ← request_data fuel (command method) w
    exchange fuel (command method) (some s) (request_packet (command method) key value data_len) w'

  -- The arguments behind the program's name; further ones are not looked at.
  pub main : ℕ → List (List ℕ) → World → Exec (Bool × World)
  main fuel (hostname ∷ port ∷ method ∷ key ∷ more) w =
      connected fuel method key (connect_socket hostname port w)
  main fuel _ w = ok (false, w)
