-- ===== src/Transfer/Sending.antt =====
-- sendall of praxis2/src/util.c.
use rn.Prelude.{
  ℕ, zero, suc, ◌+◌, ◌-◌, ◌≤◌, ◌≡◌, refl, ap, ◌∙◌, sym, Option, some, List, ◌++◌, append_assoc,
  append-nil, arith, length, take, drop, length-drop, drop_all, take_all, take-append-drop,
  drop-drop, ltb, false, true, Bool-cases, inl, inr, Option-cases, ◌⊎◌, ◌<◌, none, ◌^◌, u32,
}
use mathlib.Core.Path.{subst}
use rn.Network.{Network, Stream}
use rn.Transfer.{Sent, all_sent, failed, stuck, int_of, send_loop, sendall}

module _ (net : Network) (s : Option ℕ) (stream : Stream net s) where
  open net use {World, send}
  open stream use {taken, taken-send}

  -- An answer of send below 1.
  abbrev pub Declines : Option ℕ → Type 0
  Declines n = (n ≡ none) ⊎ (n ≡ some 0)

  -- send declines some of the bytes, in a call that leads to the state `after`: the call that is given
  -- them all, or, where that takes some of them, one of the calls that are given the rest.
  pub data Refusal (after : World) : List ℕ → World → Type 0 where
    refused :
        {bytes : List ℕ} {w : World}
        → 0 < length bytes
        → Declines (send s bytes w).0
        → (send s bytes w).1 ≡ after
        → Refusal after bytes w
    went_on :
        {bytes : List ℕ} {w : World} (k : ℕ)
        → (send s bytes w).0 ≡ some k
        → 0 < k
        → Refusal after (drop k bytes) (send s bytes w).1
        → Refusal after bytes w

  -- All bytes are taken, or send declines some; the loop does not run out of fuel.
  abbrev pub Delivered : List ℕ → World → Sent × World → Type 0
  Delivered bytes w (all_sent, after) = taken after ≡ taken w ++ bytes
  Delivered bytes w (failed, after) = Refusal after bytes w
  Delivered bytes w (stuck, after) = ⊥

  int_of-error : (n : Option ℕ) → n ≡ none → int_of n ≡ none
  unfolding int_of
  int_of-error n e = rw e refl

  -- What send takes is an `int`.
  int_of-send :
      (bytes : List ℕ) (w : World) (k : ℕ)
      → (send s bytes w).0 ≡ some k
      → int_of (send s bytes w).0 ≡ some k
  unfolding int_of
  int_of-send bytes w k e =
      let fits : k < 2 ^ 31 = omega (arith, (taken-send w bytes k e).2) in
      let same : u32 k ≡ k = omega (arith, fits) in
      let below : ltb k (2 ^ 31) ≡ true = ground (arith, fits) in rw e (rw same (rw below refl))

  -- A call that takes `k` bytes, and what comes of the rest.
  Delivered-send :
      (rest : List ℕ) (w : World) (k : ℕ) (r : Sent × World)
      → (send s rest w).0 ≡ some k
      → 0 < k
      → Delivered (drop k rest) (send s rest w).1 r
      → Delivered rest w r
  Delivered-send rest w k (all_sent, after) e some_taken more =
      more
      ∙ ap (λ t. t ++ drop k rest) (taken-send w rest k e).1
      ∙ append_assoc (taken w) (take k rest) (drop k rest)
      ∙ ap (λ t. taken w ++ t) (take-append-drop k rest)
  Delivered-send rest w k (failed, after) e some_taken more = went_on k e some_taken more
  Delivered-send rest w k (stuck, after) e some_taken more = more

  nothing_left :
      (buffer : List ℕ) (sent : ℕ) (w : World)
      → length buffer ≤ sent
      → taken w ≡ taken w ++ drop sent buffer
  nothing_left buffer sent w h = rw (drop_all sent buffer h, append-nil) refl

  send_loop-Delivered :
      (fuel : ℕ) (buffer : List ℕ) (sent : ℕ) (w : World)
      → length buffer ≤ fuel + sent
      → Delivered (drop sent buffer) w (send_loop net fuel s buffer (length buffer) sent w)
  unfolding send_loop
  send_loop-Delivered zero buffer sent w h =
      let over : ltb sent (length buffer) ≡ false = ground arith in
      rw over (nothing_left buffer sent w (omega arith))
  send_loop-Delivered (suc fuel) buffer sent w h = elim (Bool-cases (ltb sent (length buffer))) [
    | inr over ↦ rw over (nothing_left buffer sent w (ground arith))
    | inl more ↦ rw more (elim (Option-cases answer.0) [
      | inl error ↦ rw (int_of-error answer.0 error) (refuses (ground arith) (inl error))
      | inr (k, took) ↦ rw (int_of-send block w k took) (elim (Bool-cases (ltb k 1)) [
        | inl none_taken ↦
            rw none_taken (refuses (ground arith) (inr (took ∙ ap some (ground arith))))
        | inr some_taken ↦ rw some_taken (
            advanced k _ took (ground arith)
              (send_loop-Delivered fuel buffer (sent + k) answer.1 (ground arith)))
      ])
    ])
  ]
    where
      rest : List ℕ
      rest = drop sent buffer

      block : List ℕ
      block = take (length buffer - sent) rest

      answer : Option ℕ × World
      answer = send s block w

      all_of_rest : block ≡ rest
      all_of_rest = take_all (length buffer - sent) rest (omega (arith, length-drop sent buffer))

      refuses : sent < length buffer → Declines answer.0 → Delivered rest w (failed, answer.1)
      refuses some_left declines =
          subst (λ b. Delivered b w (failed, answer.1)) all_of_rest
            (refused (omega (arith, some_left, ap length all_of_rest, length-drop sent buffer))
              declines refl)

      advanced :
          (k : ℕ) (r : Sent × World)
          → answer.0 ≡ some k
          → 0 < k
          → Delivered (drop (sent + k) buffer) answer.1 r
          → Delivered rest w r
      advanced k r took some_taken d =
          subst (λ b. Delivered b w r) all_of_rest
            (Delivered-send block w k r took some_taken (
              subst (λ b. Delivered b answer.1 r)
                (sym (drop-drop k sent buffer) ∙ ap (drop k) (sym all_of_rest)) d))

  -- sendall always ends. If it succeeds, the bytes of the buffer have been taken for sending, all of
  -- them, in order and once; and else a call of send, given the bytes that those before it have not
  -- taken, was answered by an error or by 0, and is the last.
  pub sendall_lem :
      (buffer : List ℕ) (w : World) → Delivered buffer w (sendall net s buffer (length buffer) w)
  unfolding sendall
  sendall_lem buffer w = send_loop-Delivered (length buffer) buffer 0 w (omega arith)

  no-Refusal :
      {after : World} {bytes : List ℕ} {w : World}
      → ((block : List ℕ) (u : World) → 0 < length block → ¬ Declines (send s block u).0)
      → ¬ Refusal after bytes w
  no-Refusal {bytes = bytes} {w = w} accepts (refused some_left declines at_last) =
      accepts bytes w some_left declines
  no-Refusal accepts (went_on k e some_taken more) = no-Refusal accepts more

  -- Where send declines nothing, sendall has all bytes taken.
  pub sendall-taken :
      (buffer : List ℕ) (w : World)
      → ((block : List ℕ) (u : World) → 0 < length block → ¬ Declines (send s block u).0)
      → taken (sendall net s buffer (length buffer) w).1 ≡ taken w ++ buffer
  sendall-taken buffer w accepts =
      by_result (sendall net s buffer (length buffer) w) (sendall_lem buffer w)
    where
      by_result : (r : Sent × World) → Delivered buffer w r → taken r.1 ≡ taken w ++ buffer
      by_result (all_sent, after) d = d
      by_result (failed, after) d = absurd (no-Refusal accepts d)
      by_result (stuck, after) d = elim d [ ]
