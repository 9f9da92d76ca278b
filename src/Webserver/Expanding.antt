-- ===== src/Webserver/Expanding.antt =====
-- buf_struct_expand of praxis1/webserver.c.
use rn.Prelude.{
  ℕ, zero, suc, ◌+◌, ◌-◌, ◌*◌, ◌^◌, ◌≤◌, ◌<◌, ◌≡◌, refl, ap, ap₂, ◌∙◌, true, false, ◌++◌, arith,
  length, length-replicate, replicate, take, drop, strncpy_at, strncpy_at_lem, as_string,
  print_text, print_text-zeros, ok, ltb, ◌==◌,
}
use native.Mathlib.Nat.{zero-add, suc-add}
use rn.Network.{Network}
use rn.Webserver.{returns, BufStruct, twice, buf_struct_init, buf_struct_expand}

drop-replicate : (n m : ℕ) → drop {A = ℕ} n (replicate (n + m) 0) ≡ replicate m 0
drop-replicate zero m = rw zero-add refl
drop-replicate (suc n) m = rw suc-add (drop-replicate n m)

module _ (usable : ℕ → ℕ) (net : Network) where
  open net use {World}

  -- buf_struct_expand makes a buffer of twice the size, which starts with the used bytes as a string
  -- and holds zeros behind them, and keeps the scanner's position; it faults nowhere, if the old
  -- buffer holds a zero byte, twice its size is an int, and a block for 8 bytes has room for the
  -- struct.
  pub buf_struct_expand_lem :
      (old_buf : BufStruct) (w : World)
      → 24 ≤ usable 8
      → 0 < old_buf.available_space
      → old_buf.available_space * 2 < 2 ^ 31
      → length old_buf.buffer ≡ old_buf.available_space
      → old_buf.used_space ≤ old_buf.available_space
      → print_text old_buf.buffer ≡ ok tt
      → buf_struct_expand usable net old_buf w
        ≡ returns (record {
          buffer =
              as_string (take old_buf.used_space old_buf.buffer)
              ++ replicate (old_buf.available_space * 2 - old_buf.used_space) 0;
          available_space = old_buf.available_space * 2;
          used_space = old_buf.used_space;
          scanner_index = old_buf.scanner_index;
          req_begin_index = 0;
        })
  unfolding buf_struct_expand buf_struct_init twice
  buf_struct_expand_lem old_buf w roomy some_space small whole used printable =
      let in_int : ltb (old_buf.available_space * 2) (2 ^ 31) ≡ true = ground arith in
      let positive : (old_buf.available_space * 2 == 0) ≡ false = ground arith in
      let enough : ltb (usable 8) 24 ≡ false = ground arith in
      rw (in_int, positive, enough, stored, printable, new_printable) refl
    where
      spare : ℕ
      spare = old_buf.available_space * 2 - old_buf.used_space

      stored :
          strncpy_at (replicate (old_buf.available_space * 2) 0) 0 old_buf.buffer old_buf.used_space
          ≡ ok (as_string (take old_buf.used_space old_buf.buffer) ++ replicate spare 0)
      stored =
          strncpy_at_lem (replicate (old_buf.available_space * 2) 0) 0 old_buf.buffer
            old_buf.used_space
            (omega (arith, used, length-replicate {A = ℕ} (old_buf.available_space * 2) 0))
            (omega (arith, used, whole))
          ∙ ap (λ l. ok (as_string (take old_buf.used_space old_buf.buffer) ++ l)) zeros_left
        where
          zeros_left :
              drop {A = ℕ} (0 + old_buf.used_space) (replicate (old_buf.available_space * 2) 0)
              ≡ replicate spare 0
          zeros_left =
              ap₂ (λ (n m : ℕ). drop {A = ℕ} n (replicate m 0)) {x = 0 + old_buf.used_space}
                {y = old_buf.used_space} (omega arith) (omega (arith, used, some_space))
              ∙ drop-replicate old_buf.used_space spare

      new_printable :
          print_text (as_string (take old_buf.used_space old_buf.buffer) ++ replicate spare 0)
          ≡ ok tt
      new_printable =
          ap (λ n. print_text (as_string (take old_buf.used_space old_buf.buffer) ++ replicate n 0))
            {x = spare} {y = suc (spare - 1)} (omega (arith, used, some_space))
          ∙ print_text-zeros (as_string (take old_buf.used_space old_buf.buffer)) (spare - 1)
