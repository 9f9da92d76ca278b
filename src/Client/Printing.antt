-- ===== src/Client/Printing.antt =====
-- How praxis2/src/client.c prints the value of a reply.
use rn.Prelude.{
  ℕ, zero, suc, ◌+◌, ◌-◌, ◌≤◌, ◌<◌, ◌≡◌, refl, ap, ◌∙◌, sym, false, Option, List, ◌++◌,
  append_assoc, append-nil, arith, length, take, drop, length-drop, length-take, drop_all, take_all,
  take-append-drop, drop-drop, ltb, Bool-cases, inl, inr, Allocator,
}
use mathlib.Core.Path.{subst}
use rn.Network.{Network}
use rn.Transfer.{Sent, all_sent, failed, stuck}
use rn.Client.{out_loop}

-- What the C library promises of fwrite, told by what has been printed: it prints a first part of
-- what it is given, and the calls on a socket print nothing.
pub record Output (net : Network) (fwrite : List ℕ → net.World → ℕ × net.World) : Type 0 where
  pub printed : net.World → List ℕ
  pub printed-fwrite :
      (w : net.World) (block : List ℕ)
      → ((fwrite block w).0 ≤ length block)
        × (printed (fwrite block w).1 ≡ printed w ++ take (fwrite block w).0 block)
  pub printed-send :
      (w : net.World) (s : Option ℕ) (block : List ℕ) → printed (net.send s block w).1 ≡ printed w
  pub printed-recv : (w : net.World) (s : Option ℕ) (n : ℕ) → printed (net.recv s n w).1 ≡ printed w
  pub printed-close : (w : net.World) (s : Option ℕ) → printed (net.close s w) ≡ printed w

module _ (heap : Allocator) (net : Network)
    (getaddrinfo : List ℕ → List ℕ → net.World → Option (List net.Address) × net.World)
    (fread : ℕ → net.World → List ℕ × net.World) (fwrite : List ℕ → net.World → ℕ × net.World)
    (output : Output net fwrite) where
  open net use {World, send, recv, close}
  open output use {printed, printed-fwrite, printed-send, printed-recv, printed-close}

  -- fwrite prints nothing more of a value that is not printed as a whole, in a call that leads to the
  -- state `after`: the call that is given all of it, or, where that prints some, one of the calls
  -- that are given the rest.
  pub data Refused (after : World) : List ℕ → World → Type 0 where
    refused :
        {value : List ℕ} {w : World}
        → 0 < length value
        → (fwrite value w).0 ≡ 0
        → (fwrite value w).1 ≡ after
        → Refused after value w
    went_on :
        {value : List ℕ} {w : World}
        → 0 < (fwrite value w).0
        → Refused after (drop (fwrite value w).0 value) (fwrite value w).1
        → Refused after value w

  -- All of the value is printed, or fwrite has refused; the loop does not run out of fuel.
  abbrev pub Printed : List ℕ → World → Sent × World → Type 0
  Printed value w (all_sent, after) = printed after ≡ printed w ++ value
  Printed value w (failed, after) = Refused after value w
  Printed value w (stuck, after) = ⊥

  -- A call that prints some, and what comes of the rest.
  Printed-fwrite :
      (rest : List ℕ) (w : World) (r : Sent × World)
      → 0 < (fwrite rest w).0
      → Printed (drop (fwrite rest w).0 rest) (fwrite rest w).1 r
      → Printed rest w r
  Printed-fwrite rest w (all_sent, after) some_printed more =
      more
      ∙ ap (λ t. t ++ drop (fwrite rest w).0 rest) (printed-fwrite w rest).1
      ∙ append_assoc (printed w) (take (fwrite rest w).0 rest) (drop (fwrite rest w).0 rest)
      ∙ ap (λ t. printed w ++ t) (take-append-drop (fwrite rest w).0 rest)
  Printed-fwrite rest w (failed, after) some_printed more = went_on some_printed more
  Printed-fwrite rest w (stuck, after) some_printed more = more

  nothing_left :
      (value : List ℕ) (written : ℕ) (w : World)
      → length value ≤ written
      → printed w ≡ printed w ++ drop written value
  nothing_left value written w h = rw (drop_all written value h, append-nil) refl

  pub out_loop-Printed :
      (fuel : ℕ) (value : List ℕ) (written : ℕ) (w : World)
      → length value ≤ fuel + written
      → Printed
          (drop written value)
          w
          (out_loop heap net getaddrinfo fread fwrite fuel value (length value) written w)
  unfolding out_loop
  out_loop-Printed zero value written w h =
      let over : ltb written (length value) ≡ false = ground arith in
      rw over (nothing_left value written w (omega arith))
  out_loop-Printed (suc fuel) value written w h = elim (Bool-cases (ltb written (length value))) [
    | inr over ↦ rw over (nothing_left value written w (ground arith))
    | inl more ↦ rw more (elim (Bool-cases (ltb n 1)) [
      | inl none_printed ↦ rw none_printed (
          subst (λ b. Printed b w (failed, w')) all_of_rest
            (refused (ground (arith, size)) (ground arith) refl))
      | inr some_written ↦
          rw some_written (
            advanced _ (ground arith) (out_loop-Printed fuel value (written + n) w' (ground arith)))
    ])
  ]
    where
      rest : List ℕ
      rest = drop written value

      block : List ℕ
      block = take (length value - written) rest

      n : ℕ
      n = (fwrite block w).0

      w' : World
      w' = (fwrite block w).1

      size : length block ≡ length value - written
      size = omega (arith, length-take (length value - written) rest, length-drop written value)

      all_of_rest : block ≡ rest
      all_of_rest =
          take_all (length value - written) rest (omega (arith, length-drop written value))

      advanced :
          (r : Sent × World) → 0 < n → Printed (drop (written + n) value) w' r → Printed rest w r
      advanced r some_printed p =
          subst (λ b. Printed b w r) all_of_rest
            (Printed-fwrite block w r some_printed (
              subst (λ b. Printed b w' r)
                (sym (drop-drop n written value) ∙ ap (drop n) (sym all_of_rest)) p))
