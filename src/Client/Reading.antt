-- ===== src/Client/Reading.antt =====
-- read_stdin of praxis2/src/client.c: it is recvall with fread for recv, but that nothing is closed.
use rn.Prelude.{
  ℕ, zero, suc, ◌-◌, ◌^◌, ◌≤◌, ◌<◌, ◌≡◌, refl, ap, ◌∙◌, Option, none, some, List, [], ◌++◌, length,
  Exec, arith, ok, Allocator,
}
use mathlib.Core.Option.{some-injective}
use mathlib.Core.Path.{subst, fun_ext}
use rn.Network.{Network, Stream}
use rn.Transfer.{grow, received, recv_loop, recvall}
use rn.Transfer.Receiving.{recvall_lem}
use rn.Transfer.Keeping.{recvall-kept}
use rn.Client.{after_fread, stdin_loop, read_stdin}

-- What the C library promises of fread on stdin, told by the bytes that are still to be read: it
-- delivers the next part of them, and some where there is room for some and some are left.
pub record Input (net : Network) (fread : ℕ → net.World → List ℕ × net.World) : Type 0 where
  pub input : net.World → List ℕ
  pub input-fread :
      (w : net.World) (n : ℕ)
      → (length (fread n w).0 ≤ n)
        × (input w ≡ (fread n w).0 ++ input (fread n w).1)
        × (0 < n → (fread n w).0 ≡ [] → input w ≡ [])

module _ (heap : Allocator) (net : Network)
    (getaddrinfo : List ℕ → List ℕ → net.World → Option (List net.Address) × net.World)
    (fread : ℕ → net.World → List ℕ × net.World) (fwrite : List ℕ → net.World → ℕ × net.World) where
  open net use {World}

  -- stdin as a stream: fread answers in place of recv.
  abbrev pipe : Network
  pipe = record net {
    send = λ s block w. (none, w);
    recv = λ s n w. (some (fread n w).0, (fread n w).1);
    close = λ s w. w;
  }

  after_fread-received :
      (again : List ℕ → ℕ → ℕ → World → Exec (Option (List ℕ × ℕ × World))) (buffer : List ℕ)
      (size pos : ℕ) (answer : List ℕ × World)
      → after_fread heap net getaddrinfo fread fwrite again buffer size pos answer
        ≡ received pipe heap again none buffer size pos (some answer.0) answer.1
  unfolding after_fread received
  after_fread-received again buffer size pos (block, w) = refl

  stdin_loop-recv_loop :
      (fuel : ℕ) (buffer : List ℕ) (size pos : ℕ) (w : World)
      → stdin_loop heap net getaddrinfo fread fwrite fuel buffer size pos w
        ≡ recv_loop pipe heap fuel none buffer size pos w
  unfolding stdin_loop recv_loop grow
  stdin_loop-recv_loop zero buffer size pos w = refl
  stdin_loop-recv_loop (suc fuel) buffer size pos w =
      after_fread-received (stdin_loop heap net getaddrinfo fread fwrite fuel) room.0 room.1 pos
        (fread (room.1 - pos) w)
      ∙ ap
          (λ again.
            received pipe heap again none room.0 room.1 pos (some (fread (room.1 - pos) w).0)
              (fread (room.1 - pos) w).1)
          (fun_ext
            (λ b. fun_ext (λ n. fun_ext (λ p. fun_ext (λ u. stdin_loop-recv_loop fuel b n p u)))))
    where
      room : List ℕ × ℕ
      room = grow net heap buffer size pos

  read_stdin-recvall :
      (fuel : ℕ) (w : World)
      → read_stdin heap net getaddrinfo fread fwrite fuel w ≡ recvall pipe heap fuel none w
  unfolding read_stdin recvall
  read_stdin-recvall fuel w = stdin_loop-recv_loop fuel (heap.malloc 1024) 1024 0 w

  module _ (stdin : Input net fread) where
    open stdin use {input, input-fread}

    stdin_stream : Stream pipe none
    stdin_stream = record {
      taken = λ w. [];
      incoming = input;
      taken-send = λ w block n e. absurd (ground arith);
      incoming-recv = λ w n block e.
          subst
            (λ b.
              (length b ≤ n)
              × (input w ≡ b ++ input (fread n w).1)
              × (0 < n → b ≡ [] → input w ≡ []))
            (some-injective _ _ e) (input-fread w n);
    }

    -- All of stdin is read, and what fread leaves alone is left alone.
    pub read_stdin_lem :
        {A : Type 0} (seen : World → A) (fuel : ℕ) (w : World)
        → ((u : World) (n : ℕ) → seen (fread n u).1 ≡ seen u)
        → length (input w) < fuel
        → length (input w) < 2 ^ 61
        → (back : List ℕ) × (after : World) × (read_stdin heap net getaddrinfo fread fwrite fuel w
            ≡ ok (some (input w ++ back, length (input w), after)))
          × (seen after ≡ seen w)
    unfolding stdin_stream
    read_stdin_lem seen fuel w kept enough small =
        let (back, after, run) =
          recvall_lem pipe heap none stdin_stream (λ n u e. ground arith) fuel w enough small in
        (
          back,
          after,
          read_stdin-recvall fuel w ∙ run,
          recvall-kept pipe seen (λ u s block. refl) (λ u s n. kept u n) (λ u s. refl) heap fuel
              none w _ _ after run,
        )
