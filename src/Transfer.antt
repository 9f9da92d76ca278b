-- ===== src/Transfer.antt =====
-- praxis2/src/util.c: pseudo_hash, sendall and recvall.
pub mod Sending
pub mod Receiving
pub mod Keeping
pub mod Behind
pub mod Hashing
use rn.Prelude.{
  ℕ, zero, suc, ◌+◌, ◌-◌, ◌*◌, ◌^◌, ◌%◌, bit_or, Option, none, some, List, [], ◌∷◌, ◌++◌, length,
  take, drop, Exec, ok, fault, ◌>>=◌, load, splice, Allocator, u16, u32, u64, ◌<<<◌, ltb, leb, ◌==◌,
  if◌then◌else◌, ◌&&◌,
}
use rn.Network.{Network}

pub pseudo_hash : List ℕ → ℕ → Exec ℕ
pseudo_hash buffer buf_len =
    if leb 2 buf_len
    then (do b0 ← load buffer 0; b1 ← load buffer 1; ok (u16 (bit_or (b0 <<< 8) (b1 <<< 0))))
    else if buf_len == 1
    then (do b0 ← load buffer 0; ok (u16 b0))
    else ok 0

-- How a loop ended. `stuck` is no result of the code: the fuel ran out.
pub data Sent : Type 0 where
  all_sent failed stuck : Sent

-- `int n = send(…)`: the answer as an `int`, by its low 32 bits; one below 0 is `none`.
unfoldable pub int_of : Option ℕ → Option ℕ
int_of none = none
int_of (some k) = if ltb (u32 k) (2 ^ 31) then some (u32 k) else none

module _ (net : Network) where
  open net use {World, send, recv, close}

  -- `while (sent < buf_size)`, with the bytes at `buffer + sent`. An answer below 1 is an error.
  unfoldable pub send_loop : ℕ → Option ℕ → List ℕ → ℕ → ℕ → World → Sent × World
  send_loop zero s buffer buf_size sent w = (if ltb sent buf_size then stuck else all_sent, w)
  send_loop (suc fuel) s buffer buf_size sent w =
      let (n, w') = send s (take (buf_size - sent) (drop sent buffer)) w in
      let accepted = λ (k : ℕ). send_loop fuel s buffer buf_size (sent + k) w' in
      if ltb sent buf_size
      then elim (int_of n) [
        | none ↦ (failed, w')
        | some k ↦ if ltb k 1 then (failed, w') else accepted k
      ]
      else (all_sent, w)

  -- Each round sends at least one byte, so `buf_size` rounds are enough.
  unfoldable pub sendall : Option ℕ → List ℕ → ℕ → World → Sent × World
  sendall s buffer buf_size w = send_loop buf_size s buffer buf_size 0 w

  module _ (heap : Allocator) where
    -- `if (buffer + buf_size - write_ptr < 1)`: realloc keeps the bytes, and those behind are any.
    unfoldable pub grow : List ℕ → ℕ → ℕ → List ℕ × ℕ
    grow buffer buf_size pos =
        if leb buf_size pos
        then (buffer ++ heap.malloc (u64 (buf_size * 2) - buf_size), u64 (buf_size * 2))
        else (buffer, buf_size)

    -- What a round makes of recv's answer, and `again` is the next round. An error is -1, which as a
    -- size_t is not below 1: `write_ptr` goes back by one, and the loop goes on.
    unfoldable pub received :
        (List ℕ → ℕ → ℕ → World → Exec (Option (List ℕ × ℕ × World)))
        → Option ℕ
        → List ℕ
        → ℕ
        → ℕ
        → Option (List ℕ)
        → World
        → Exec (Option (List ℕ × ℕ × World))
    received again s buffer buf_size pos none w =
        if pos == 0 then fault else again buffer buf_size (pos - 1) w
    received again s buffer buf_size pos (some bytes) w =
        if ltb (length bytes) 1
        then ok (some (buffer, pos, close s w))
        else (do filled ← splice buffer pos bytes; again filled buf_size (pos + length bytes) w)

    -- The loop at `write_ptr = buffer + pos`; `none` when the fuel runs out.
    unfoldable pub recv_loop :
        ℕ → Option ℕ → List ℕ → ℕ → ℕ → World → Exec (Option (List ℕ × ℕ × World))
    recv_loop zero s buffer buf_size pos w = ok none
    recv_loop (suc fuel) s buffer buf_size pos w =
        let (room, size) = grow buffer buf_size pos in
        let (answer, w') = recv s (size - pos) w in
        received (recv_loop fuel s) s room size pos answer w'

    -- The buffer, `*data_len` and the state behind the last call.
    unfoldable pub recvall : ℕ → Option ℕ → World → Exec (Option (List ℕ × ℕ × World))
    recvall fuel s w = recv_loop fuel s (heap.malloc 1024) 1024 0 w
