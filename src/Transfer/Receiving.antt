-- ===== src/Transfer/Receiving.antt =====
-- recvall of praxis2/src/util.c.
use rn.Prelude.{
  ℕ, zero, suc, ◌+◌, ◌-◌, ◌*◌, ◌%◌, ◌^◌, ◌≤◌, ◌<◌, ◌≡◌, ◌≢◌, refl, ap, Option, none, some, List, [],
  ◌∷◌, ◌++◌, append_assoc, append-nil, arith, length, drop, length-append, length-drop, Exec, ok,
  splice, splice-append, Allocator, ltb, leb, true, Bool-cases, inl, inr, Option-cases,
}
use native.Mathlib.Nat.{zero-add}
use rn.Network.{Network, Stream}
use rn.Transfer.{grow, received, recv_loop, recvall}

module _ (net : Network) (heap : Allocator) (s : Option ℕ) (stream : Stream net s) where
  open net use {World, recv}
  open stream use {incoming, incoming-recv}

  -- The loop's buffer is what it has got, and some room behind that.
  record Buffer (got rest : List ℕ) : Type 0 where
    not_nil : 0 < length got + length rest
    bounded : length got + length rest ≤ 1024 + 2 * length got

  grow_lem :
      (got rest : List ℕ)
      → Buffer got rest
      → length got < 2 ^ 61
      → (room : List ℕ) × (grow net heap (got ++ rest) (length got + length rest) (length got)
          ≡ (got ++ room, length got + length room))
        × (0 < length room)
        × Buffer got room
  unfolding grow
  grow_lem got [] v small = (
    heap.malloc (length got),
    rw (full, append-nil, doubled, added, heap.length-malloc (length got)) refl,
    omega (arith, heap.length-malloc (length got), v.not_nil),
    record {
      not_nil = omega (arith, v.not_nil);
      bounded = omega (arith, heap.length-malloc (length got));
    },
  )
    where
      full : leb (length got + 0) (length got) ≡ true
      full = ground arith

      doubled : (length got + 0) * 2 % 2 ^ 64 ≡ length got + length got
      doubled = omega arith

      added : length got + length got - (length got + 0) ≡ length got
      added = omega arith
  grow_lem got (x ∷ rest) v small = (x ∷ rest, ground arith, omega arith, v)

  -- What the loop leaves: the bytes received at the start of the buffer, and their number.
  abbrev pub Received : List ℕ → Exec (Option (List ℕ × ℕ × World)) → Type 0
  Received total r =
      (back : List ℕ) × (after : World) × (r ≡ ok (some (total ++ back, length total, after)))

  -- The claim for `fuel` rounds.
  abbrev Finishes : ℕ → Type 0
  Finishes fuel =
      (got rest : List ℕ) (w : World)
      → length (incoming w) < fuel
      → Buffer got rest
      → length got + length (incoming w) < 2 ^ 61
      → Received (got ++ incoming w)
          (recv_loop net heap fuel s (got ++ rest) (length got + length rest) (length got) w)

  nil_of_short : (bytes : List ℕ) → ltb (length bytes) 1 ≡ true → bytes ≡ []
  nil_of_short [] h = refl
  nil_of_short (b ∷ bs) h = absurd (ground arith)

  -- Behind `grow` there is room; recv answers with bytes, and by none at the end of the stream.
  round :
      (fuel : ℕ) (got rest room : List ℕ) (w : World) (bytes : List ℕ)
      → Finishes fuel
      → length (incoming w) < suc fuel
      → length got + length (incoming w) < 2 ^ 61
      → grow net heap (got ++ rest) (length got + length rest) (length got)
        ≡ (got ++ room, length got + length room)
      → 0 < length room
      → Buffer got room
      → (recv s (length got + length room - length got) w).0 ≡ some bytes
      → Received
          (got ++ incoming w)
          (recv_loop net heap (suc fuel) s (got ++ rest) (length got + length rest) (length got) w)
  unfolding recv_loop
  round fuel got rest room w bytes ih enough small grown space v e =
      rw (grown, e)
        (unfold received in
          elim (Bool-cases (ltb (length bytes) 1)) [
            | inl end ↦
                let at_end : incoming w ≡ [] =
                  law.2 (omega (arith, space)) (nil_of_short bytes end) in
                (room, net.close s w', rw (end, at_end, append-nil) refl)
            | inr more ↦
                let some_in : 0 < length bytes = ground arith in
                rw (more, written)
                  (restate (
                    ih (got ++ bytes) (drop (length bytes) room) w'
                      (omega (arith, some_in, ap length law.1, length-append bytes (incoming w')))
                      (record {
                        not_nil = omega (arith, sizes, v.not_nil);
                        bounded = omega (arith, sizes, length-append got bytes, v.bounded);
                      })
                      (omega (
                        arith,
                        ap length law.1,
                        length-append bytes (incoming w'),
                        length-append got bytes,
                      ))))
          ])
    where
      w' : World
      w' = (recv s (length got + length room - length got) w).1

      law :
          (length bytes ≤ length got + length room - length got)
          × (incoming w ≡ bytes ++ incoming w')
          × (0 < length got + length room - length got → bytes ≡ [] → incoming w ≡ [])
      law = incoming-recv w (length got + length room - length got) bytes e

      written :
          splice (got ++ room) (length got) bytes ≡ ok (got ++ (bytes ++ drop (length bytes) room))
      written = splice-append got room bytes (length got) refl (omega (arith, law.0))

      sizes : length (got ++ bytes) + length (drop (length bytes) room) ≡ length got + length room
      sizes = omega (arith, law.0, length-append got bytes, length-drop (length bytes) room)

      restate :
          Received ((got ++ bytes) ++ incoming w') (
            recv_loop net heap fuel s
              ((got ++ bytes) ++ drop (length bytes) room)
              (length (got ++ bytes) + length (drop (length bytes) room))
              (length (got ++ bytes))
              w')
          → Received (got ++ incoming w) (
              recv_loop net heap fuel s
                (got ++ (bytes ++ drop (length bytes) room))
                (length got + length room)
                (length got + length bytes)
                w')
      restate r =
          let (back, after, run) = r in
          (
            back,
            after,
            rw
                (
                  law.1,
                  ← append_assoc got bytes (incoming w'),
                  ← append_assoc got bytes (drop (length bytes) room),
                  ← sizes,
                  ← length-append got bytes,
                )
                run,
          )

  module _ (no_error : (n : ℕ) (w : World) → (recv s n w).0 ≢ none) where
    recv_loop-Finishes : (fuel : ℕ) → Finishes fuel
    recv_loop-Finishes zero got rest w enough v small = absurd (omega arith)
    recv_loop-Finishes (suc fuel) got rest w enough v small =
        after_grow (recv_loop-Finishes fuel) (grow_lem got rest v (omega arith))
      where
        after_grow :
            Finishes fuel
            → (room : List ℕ) × (grow net heap (got ++ rest) (length got + length rest) (length got)
                ≡ (got ++ room, length got + length room))
              × (0 < length room)
              × Buffer got room
            → Received (got ++ incoming w) (
                recv_loop net heap
                  (suc fuel)
                  s
                  (got ++ rest)
                  (length got + length rest)
                  (length got)
                  w)
        after_grow ih (room, grown, space, v') =
            elim (Option-cases (recv s (length got + length room - length got) w).0) [
              | inl error ↦ absurd (no_error _ w error)
              | inr (bytes, e) ↦ round fuel got rest room w bytes ih enough small grown space v' e
            ]

    -- Where recv makes no error, recvall returns, after at most one round more than there are bytes,
    -- with exactly the bytes of the stream at the start of its buffer and with their number.
    pub recvall_lem :
        (fuel : ℕ) (w : World)
        → length (incoming w) < fuel
        → length (incoming w) < 2 ^ 61
        → Received (incoming w) (recvall net heap fuel s w)
    unfolding recvall
    recvall_lem fuel w enough small =
        rw (heap.length-malloc 1024, zero-add) at
          (recv_loop-Finishes fuel [] (heap.malloc 1024) w enough fresh (omega arith))
      where
        fresh : Buffer [] (heap.malloc 1024)
        fresh = record {
          not_nil = omega (arith, heap.length-malloc 1024);
          bounded = omega (arith, heap.length-malloc 1024);
        }
