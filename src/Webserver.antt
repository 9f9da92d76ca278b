-- ===== src/Webserver.antt =====
-- praxis1/webserver.c: buffers and requests; the loops are in Webserver/Loops. A server that calls
-- exit ends with `exits` and the state of the outside world. Of the messages those that print a
-- block with `%s` are kept, since they read it up to a zero byte.
pub mod Loops
pub mod Terminator
pub mod Starting
pub mod Expanding
use rn.Prelude.{
  ℕ, zero, suc, ◌+◌, ◌-◌, ◌*◌, ◌^◌, Bool, true, false, Option, none, some, List, [], ◌∷◌, Exec, ok,
  fault, unfinished, length, take, drop, replicate, splice, strncpy, strncpy_at, strncmp_zero,
  print_text, ltb, leb, ◌==◌, if◌then◌else◌,
}
use rn.Network.{Network}

-- The outcome of a piece of the program, with the outside world where it ends. `broken` is undefined
-- behaviour, and `endless` is no outcome of the code: the rounds given to a loop ran out, with the
-- outside world as it was then.
pub data Run {ℓ} (W : Type 0) (A : Type ℓ) : Type ℓ where
  returns : A → Run W A
  exits : W → Run W A
  broken : Run W A
  endless : W → Run W A

infixl 5 ◌>>=◌
abbrev pub ◌>>=◌ {ℓ κ} : {W : Type 0} {A : Type ℓ} {B : Type κ} → Run W A → (A → Run W B) → Run W B
returns a >>= f = f a
exits w >>= f = exits w
broken >>= f = broken
endless w >>= f = endless w

-- A call that only reads or writes memory. None of them has a loop on fuel.
abbrev pub mem {ℓ} : {W : Type 0} {A : Type ℓ} → Exec A → Run W A
mem (ok a) = returns a
mem fault = broken
mem unfinished = broken

-- `struct buf_struct`
pub record BufStruct : Type 0 where
  pub buffer : List ℕ
  pub available_space : ℕ
  pub used_space : ℕ
  pub scanner_index : ℕ
  pub req_begin_index : ℕ

-- "\r\n\r\n" and "Reply\r\n", with the zero byte behind each.
abbrev pub http_terminator : List ℕ
http_terminator = 13 ∷ 10 ∷ 13 ∷ 10 ∷ 0 ∷ []

abbrev pub reply_msg : List ℕ
reply_msg = 82 ∷ 101 ∷ 112 ∷ 108 ∷ 121 ∷ 13 ∷ 10 ∷ 0 ∷ []

-- `sizeof(reply_msg) - 1` is the size of a pointer less 1.
abbrev pub reply_len : ℕ
reply_len = 7

-- `x * 2` of an int.
pub twice : ℕ → Exec ℕ
twice x = if ltb (x * 2) (2 ^ 31) then ok (x * 2) else fault

-- Whether the terminator stands at `buffer + i`.
pub terminator_at : List ℕ → ℕ → Exec Bool
terminator_at buffer i = strncmp_zero (drop i buffer) http_terminator 4

-- `usable n` is the room in a block that malloc makes for `n` bytes.
module _ (usable : ℕ → ℕ) (net : Network) where
  open net use {World}

  -- In `malloc(sizeof(buf_struct))` the name is the pointer's that is being declared: 8 bytes are asked
  -- for, and the struct has 24.
  pub buf_struct_init : ℕ → World → Run World BufStruct
  buf_struct_init buf_size w =
      if buf_size == 0
      then exits w
      else if ltb (usable 8) 24
      then broken
      else returns (record {
        buffer = replicate buf_size 0;
        available_space = buf_size;
        used_space = 0;
        scanner_index = 0;
        req_begin_index = 0;
      })

  pub buf_struct_expand : BufStruct → World → Run World BufStruct
  buf_struct_expand old_buf w = do
    size ← mem (twice old_buf.available_space)
    new_buf ← buf_struct_init size w
    buffer ← mem (strncpy_at new_buf.buffer 0 old_buf.buffer old_buf.used_space)
    printed ← mem (print_text old_buf.buffer)
    printed2 ← mem (print_text buffer)
    returns (record new_buf {
      buffer = buffer;
      used_space = old_buf.used_space;
      scanner_index = old_buf.scanner_index;
    })

  -- The request is printed, and a reply is sent.
  pub process_request : List ℕ → Option ℕ → World → Run World World
  process_request request reply_socket w = do
    printed ← mem (print_text request)
    let (n, w') = net.send reply_socket (take reply_len reply_msg) w in
        elim n [ none ↦ exits w' | some k ↦ returns w' ]
