-- ===== src/Transfer/Keeping.antt =====
-- What the calls on a socket in sendall and recvall of praxis2/src/util.c leave alone, they leave
-- alone too.
use rn.Prelude.{
  ℕ, zero, suc, ◌+◌, ◌-◌, ◌≡◌, refl, ◌∙◌, Option, none, some, List, Bool-cases, Option-cases, inl,
  inr, Exec, ok, Ensures, ends, faults, Ensures-if, Ensures-ok, Ensures-after, Allocator, length,
  take, drop, ltb, ◌==◌, splice,
}
use mathlib.Core.Path.{subst}
use rn.Network.{Network}
use rn.Transfer.{int_of, grow, send_loop, sendall, received, recv_loop, recvall}

module _ {A : Type 0} (net : Network) (seen : net.World → A)
    (kept-send : (w : net.World) (s : Option ℕ) (block : List ℕ)
      → seen (net.send s block w).1 ≡ seen w)
    (kept-recv : (w : net.World) (s : Option ℕ) (n : ℕ) → seen (net.recv s n w).1 ≡ seen w)
    (kept-close : (w : net.World) (s : Option ℕ) → seen (net.close s w) ≡ seen w)
    (heap : Allocator) where
  open net use {World, send, recv}

  send_loop-kept :
      (fuel : ℕ) (s : Option ℕ) (buffer : List ℕ) (size sent : ℕ) (w : World)
      → seen (send_loop net fuel s buffer size sent w).1 ≡ seen w
  unfolding send_loop
  send_loop-kept zero s buffer size sent w = refl
  send_loop-kept (suc fuel) s buffer size sent w = elim (Bool-cases (ltb sent size)) [
    | inr over ↦ rw over refl
    | inl more ↦ rw more (elim (Option-cases (int_of answer.0)) [
      | inl error ↦ rw error kept
      | inr (k, took) ↦ rw took (elim (Bool-cases (ltb k 1)) [
        | inl none_taken ↦ rw none_taken kept
        | inr some_taken ↦
            rw some_taken (send_loop-kept fuel s buffer size (sent + k) answer.1 ∙ kept)
      ])
    ])
  ]
    where
      answer : Option ℕ × World
      answer = send s (take (size - sent) (drop sent buffer)) w

      kept : seen answer.1 ≡ seen w
      kept = kept-send w s (take (size - sent) (drop sent buffer))

  abbrev Kept : A → Option (List ℕ × ℕ × World) → Type 0
  Kept before none = Unit
  Kept before (some (buffer, n, after)) = seen after ≡ before

  received-Kept :
      (again : List ℕ → ℕ → ℕ → World → Exec (Option (List ℕ × ℕ × World)))
      → ((b : List ℕ) (size pos : ℕ) (w : World) → Ensures (Kept (seen w)) (again b size pos w))
      → (s : Option ℕ) (buffer : List ℕ) (size pos : ℕ) (answer : Option (List ℕ)) (w : World)
      → Ensures (Kept (seen w)) (received net heap again s buffer size pos answer w)
  unfolding received
  received-Kept again kept s buffer size pos none w =
      Ensures-if (pos == 0) faults (kept buffer size (pos - 1) w)
  received-Kept again kept s buffer size pos (some bytes) w =
      Ensures-if (ltb (length bytes) 1) (ends (kept-close w s)) (
        Ensures-after (splice buffer pos bytes) (λ filled. kept filled size (pos + length bytes) w))

  recv_loop-Kept :
      (fuel : ℕ) (s : Option ℕ) (buffer : List ℕ) (size pos : ℕ) (w : World)
      → Ensures (Kept (seen w)) (recv_loop net heap fuel s buffer size pos w)
  unfolding recv_loop
  recv_loop-Kept zero s buffer size pos w = ends tt
  recv_loop-Kept (suc fuel) s buffer size pos w =
      subst
        (λ before.
          Ensures (Kept before)
            (received net heap (recv_loop net heap fuel s) s room.0 room.1 pos answer.0 answer.1))
        (kept-recv w s (room.1 - pos))
        (received-Kept (recv_loop net heap fuel s) (recv_loop-Kept fuel s) s room.0 room.1 pos
          answer.0 answer.1)
    where
      room : List ℕ × ℕ
      room = grow net heap buffer size pos

      answer : Option (List ℕ) × World
      answer = recv s (room.1 - pos) w

  pub sendall-kept :
      (s : Option ℕ) (buffer : List ℕ) (size : ℕ) (w : World)
      → seen (sendall net s buffer size w).1 ≡ seen w
  unfolding sendall
  sendall-kept s buffer size w = send_loop-kept size s buffer size 0 w

  pub recvall-kept :
      (fuel : ℕ) (s : Option ℕ) (w : World) (buffer : List ℕ) (n : ℕ) (after : World)
      → recvall net heap fuel s w ≡ ok (some (buffer, n, after))
      → seen after ≡ seen w
  unfolding recvall
  recvall-kept fuel s w buffer n after e =
      Ensures-ok
        (subst (Ensures (Kept (seen w))) e (recv_loop-Kept fuel s (heap.malloc 1024) 1024 0 w))
