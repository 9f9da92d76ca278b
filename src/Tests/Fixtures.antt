-- ===== src/Tests/Fixtures.antt =====
-- What the tests run on: a heap of zeros, and a network that takes two bytes at a time and delivers
-- three at a time.
use rn.Prelude.{
  ℕ, zero, suc, ◌≤◌, ◌<◌, ◌%◌, ◌^◌, ◌≡◌, refl, sym, ap, ◌∙◌, true, Option, none, some, ◌⊎◌, inl,
  inr, List, [], ◌∷◌, ◌++◌, arith, length, take, drop, min, ◌==◌, replicate, length-replicate,
  Allocator, length-take, take-append-drop,
}
use rn.Network.{Network, Stream, timed_out}

abbrev pub zeros : Allocator
zeros = record {
  malloc = λ (n : ℕ). replicate n 0;
  length-malloc = λ (n : ℕ). length-replicate n 0;
}

-- What comes in, and what has gone out.
abbrev pub Pipe : Type 0
Pipe = List ℕ × List ℕ

abbrev pub pipe : Network
pipe = record {
  World = Pipe;
  Address = ℕ;
  blank = 0;
  ip_of = λ (a : ℕ). a % 2 ^ 32;
  inet_ntop = λ (ip : ℕ). ip ∷ [];
  getaddrinfo = λ (host : List ℕ) (port : ℕ) (w : Pipe). (some (port ∷ []), w);
  passive = λ (port : Option (List ℕ)) (w : Pipe). (some (1 ∷ 2 ∷ []), w);
  bind = λ (s : Option ℕ) (a : ℕ) (w : Pipe). (a == 2, w);
  listen = λ (s : Option ℕ) (w : Pipe). (true, w);
  socket = λ (w : Pipe). (some 9, w);
  connect = λ (s : Option ℕ) (a : ℕ) (w : Pipe). (true, w);
  send = λ (s : Option ℕ) (bytes : List ℕ) (w : Pipe).
      (some (min 2 (length bytes)), (w.0, w.1 ++ take (min 2 (length bytes)) bytes));
  recv =
      λ (s : Option ℕ) (n : ℕ) (w : Pipe). (some (take (min 3 n) w.0), (drop (min 3 n) w.0, w.1));
  accept = λ (s : Option ℕ) (w : Pipe). (some 5, w);
  poll = λ (fds : List (Option ℕ)) (w : Pipe). (timed_out, w);
  close = λ (s : Option ℕ) (w : Pipe). w;
}

nothing_taken : (k : ℕ) (bytes : List ℕ) → 0 < k → take k bytes ≡ [] → bytes ≡ []
nothing_taken k [] h e = refl
nothing_taken (suc k) (b ∷ bytes) h e = cc
nothing_taken zero (b ∷ bytes) h e = absurd (omega arith)

pub taken_two :
    (bytes out : List ℕ) (n : ℕ)
    → min 2 (length bytes) ≡ n
    → (n ≤ length bytes)
      × (out ++ take (min 2 (length bytes)) bytes ≡ out ++ take n bytes)
      × (n ≤ 0x7ffff000)
taken_two bytes out n e = (omega arith, ap (λ k. out ++ take k bytes) e, omega arith)

pub takes_some :
    (block : List ℕ)
    → 0 < length block
    → ¬ ((some (min 2 (length block)) ≡ none) ⊎ (some (min 2 (length block)) ≡ some 0))
takes_some block h (inl e) = cc
takes_some block h (inr e) = ground arith

pub delivered :
    (n : ℕ) (from bytes : List ℕ)
    → take (min 3 n) from ≡ bytes
    → (length bytes ≤ n) × (from ≡ bytes ++ drop (min 3 n) from) × (0 < n → bytes ≡ [] → from ≡ [])
delivered n from bytes e = (
  omega (arith, sym (ap (λ (l : List ℕ). length l) e), length-take (min 3 n) from),
  sym (take-append-drop (min 3 n) from) ∙ ap (λ l. l ++ drop (min 3 n) from) e,
  λ h nil. nothing_taken (min 3 n) from (omega arith) (e ∙ nil),
)

abbrev pub any_stream : (s : Option ℕ) → Stream pipe s
any_stream s = record {
  taken = λ (w : Pipe). w.1;
  incoming = λ (w : Pipe). w.0;
  taken-send = λ (w : Pipe) (bytes : List ℕ) (n : ℕ) (e : some (min 2 (length bytes)) ≡ some n).
      (taken_two bytes w.1 n cc);
  incoming-recv =
      λ (w : Pipe) (n : ℕ) (bytes : List ℕ) (e : some (take (min 3 n) w.0) ≡ some bytes).
        (delivered n w.0 bytes cc);
}

abbrev pub stream : Stream pipe (some 9)
stream = any_stream (some 9)
