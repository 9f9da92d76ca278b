-- ===== src/Transfer/Behind.antt =====
-- sendall of praxis2/src/util.c looks at no byte behind those that it is told to send.
use rn.Prelude.{
  ℕ, zero, suc, ◌+◌, ◌-◌, ◌≡◌, refl, ◌∙◌, sym, Option, none, some, List, [], ◌∷◌, ◌++◌, arith,
  length, take, drop, take-length, take_all, ap₂, if◌then◌else◌, ltb,
}
use mathlib.Core.Path.{fun_ext}
use rn.Network.{Network}
use rn.Transfer.{Sent, all_sent, failed, int_of, send_loop, sendall}

take-drop-append :
    (bytes back : List ℕ) (sent : ℕ)
    → take (length bytes - sent) (drop sent (bytes ++ back))
      ≡ take (length bytes - sent) (drop sent bytes)
take-drop-append [] back sent =
    let no_room : length {A = ℕ} [] - sent ≡ 0 = omega arith in rw no_room refl
take-drop-append (b ∷ bytes) back zero =
    rw sub_zero
      (take-length (b ∷ bytes) back ∙ sym (take_all (length (b ∷ bytes)) (b ∷ bytes) (omega arith)))
  where
    sub_zero : length (b ∷ bytes) - 0 ≡ length (b ∷ bytes)
    sub_zero = omega arith
take-drop-append (b ∷ bytes) back (suc sent) =
    let one_less : length (b ∷ bytes) - suc sent ≡ length bytes - sent = omega arith in
    rw one_less (take-drop-append bytes back sent)

module _ (net : Network) (s : Option ℕ) (bytes back : List ℕ) where
  open net use {World, send}

  send_loop-append :
      (fuel sent : ℕ) (w : World)
      → send_loop net fuel s (bytes ++ back) (length bytes) sent w
        ≡ send_loop net fuel s bytes (length bytes) sent w
  unfolding send_loop
  send_loop-append zero sent w = refl
  send_loop-append (suc fuel) sent w =
      step (take-drop-append bytes back sent)
        (fun_ext (λ k. fun_ext (λ v. send_loop-append fuel (sent + k) v)))
    where
      -- A round, by what it sends and by the loop that goes on.
      round : List ℕ → (ℕ → World → Sent × World) → Sent × World
      round block next =
          let (n, w') = send s block w in
          if ltb sent (length bytes)
          then elim (int_of n) [
            | none ↦ (failed, w')
            | some k ↦ if ltb k 1 then (failed, w') else next k w'
          ]
          else (all_sent, w)

      step :
          {b b' : List ℕ} {next next' : ℕ → World → Sent × World}
          → b ≡ b'
          → next ≡ next'
          → round b next ≡ round b' next'
      step p q = ap₂ round p q

  pub sendall-append :
      (w : World)
      → sendall net s (bytes ++ back) (length bytes) w ≡ sendall net s bytes (length bytes) w
  unfolding sendall
  sendall-append w = send_loop-append (length bytes) 0 w
