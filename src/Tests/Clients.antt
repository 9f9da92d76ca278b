-- ===== src/Tests/Clients.antt =====
-- A test of client.c: main for a GET, on a desk with a connection, a stdin and a stdout.
use rn.Prelude.{ℕ, ◌≡◌, refl, true, Option, some, List, [], ◌∷◌, ◌++◌, length, take, drop, min}
use rn.Network.{Network, Stream, timed_out}
use rn.Client.Printing.{Output}
use rn.Client.Reading.{Input}
use rn.Client.Runs.{Apart}
use rn.Tests.Fixtures.{zeros, taken_two, delivered}

-- What comes in, what has gone out, what is left of stdin, and what has been printed.
abbrev pub Desk : Type 0
Desk = List ℕ × List ℕ × List ℕ × List ℕ

abbrev pub desk : Network
desk = record {
  World = Desk;
  Address = ℕ;
  blank = 0;
  ip_of = λ (a : ℕ). a;
  inet_ntop = λ (ip : ℕ). ip ∷ [];
  getaddrinfo = λ (host : List ℕ) (port : ℕ) (w : Desk). (some (port ∷ []), w);
  passive = λ (port : Option (List ℕ)) (w : Desk). (some [], w);
  bind = λ (s : Option ℕ) (a : ℕ) (w : Desk). (true, w);
  listen = λ (s : Option ℕ) (w : Desk). (true, w);
  socket = λ (w : Desk). (some 9, w);
  connect = λ (s : Option ℕ) (a : ℕ) (w : Desk). (true, w);
  send = λ (s : Option ℕ) (bytes : List ℕ) (w : Desk).
      (some (min 2 (length bytes)), (w.0, w.1 ++ take (min 2 (length bytes)) bytes, w.2, w.3));
  recv = λ (s : Option ℕ) (n : ℕ) (w : Desk).
      (some (take (min 3 n) w.0), (drop (min 3 n) w.0, w.1, w.2, w.3));
  accept = λ (s : Option ℕ) (w : Desk). (some 5, w);
  poll = λ (fds : List (Option ℕ)) (w : Desk). (timed_out, w);
  close = λ (s : Option ℕ) (w : Desk). w;
}

abbrev pub resolve : List ℕ → List ℕ → Desk → Option (List ℕ) × Desk
resolve host port w = (some (1 ∷ []), w)

abbrev pub fread : ℕ → Desk → List ℕ × Desk
fread n w = (take (min 3 n) w.2, (w.0, w.1, drop (min 3 n) w.2, w.3))

abbrev pub fwrite : List ℕ → Desk → ℕ × Desk
fwrite block w = (min 2 (length block), (w.0, w.1, w.2, w.3 ++ take (min 2 (length block)) block))

abbrev pub stdin : Input desk fread
stdin = record {
  input = λ (w : Desk). w.2;
  input-fread = λ (w : Desk) (n : ℕ). delivered n w.2 (take (min 3 n) w.2) refl;
}

abbrev pub stdout : Output desk fwrite
stdout = record {
  printed = λ (w : Desk). w.3;
  printed-fwrite = λ (w : Desk) (block : List ℕ).
      let (first, out, few) = taken_two block w.3 (min 2 (length block)) refl in (first, out);
  printed-send = λ (w : Desk) (s : Option ℕ) (block : List ℕ). refl;
  printed-recv = λ (w : Desk) (s : Option ℕ) (n : ℕ). refl;
  printed-close = λ (w : Desk) (s : Option ℕ). refl;
}

abbrev pub connection : Stream desk (some 9)
connection = record {
  taken = λ (w : Desk). w.1;
  incoming = λ (w : Desk). w.0;
  taken-send = λ (w : Desk) (bytes : List ℕ) (n : ℕ) (e : some (min 2 (length bytes)) ≡ some n).
      (taken_two bytes w.1 n cc);
  incoming-recv =
      λ (w : Desk) (n : ℕ) (bytes : List ℕ) (e : some (take (min 3 n) w.0) ≡ some bytes).
        (delivered n w.0 bytes cc);
}

-- The acknowledgement of a GET of the key 107, with three bytes for its value.
abbrev replied : Desk
replied = (12 ∷ 0 ∷ 1 ∷ 0 ∷ 0 ∷ 0 ∷ 3 ∷ 107 ∷ 7 ∷ 8 ∷ 9 ∷ [], [], [], [])

pub apart : Apart zeros desk resolve fread fwrite stdin stdout 9 connection
apart = record {
  printed-fread = λ (w : Desk) (n : ℕ). refl;
  taken-fread = λ (w : Desk) (n : ℕ). refl;
  incoming-fread = λ (w : Desk) (n : ℕ). refl;
}
