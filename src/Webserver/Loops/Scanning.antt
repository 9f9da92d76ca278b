-- ===== src/Webserver/Loops/Scanning.antt =====
-- The scan of the primary buffer in praxis1/webserver.c ends.
use rn.Prelude.{
  ℕ, zero, suc, ◌+◌, ◌<◌, ◌≡◌, refl, Bool, true, false, Option, none, some, List, arith, Exec,
  Settles, settled, faulted, print_text-Settles, strncmp_zero-Settles, if◌then◌else◌, ◌==◌,
  Bool-cases, inl, inr,
}
use mathlib.Core.Path.{subst}
use rn.Network.{Network}
use rn.Webserver.{Run, returns, exits, broken, ◌>>=◌, mem, terminator_at, process_request}
use rn.Webserver.Loops.{Web, in_reach, scan_hit, scan_round, scan_loop}

-- An outcome of the program, whatever the fuel; where it returns, the result has the property.
pub data Finishes {ℓ} {W : Type 0} {A : Type ℓ} (P : A → Type 0) : Run W A → Type ℓ where
  returned : {a : A} → P a → Finishes P (returns a)
  exited : {w : W} → Finishes P (exits w)
  broke : Finishes P broken

module _ {ℓ} {W : Type 0} {A : Type ℓ} {P : A → Type 0} where
  Finishes-if :
      (b : Bool) {m n : Run W A} → Finishes P m → Finishes P n → Finishes P (if b then m else n)
  Finishes-if true p q = p
  Finishes-if false p q = q

  Finishes-bind {κ} :
      {B : Type κ} {Q : B → Type 0} {m : Run W A} {f : A → Run W B}
      → Finishes P m
      → ((a : A) → P a → Finishes Q (f a))
      → Finishes Q (m >>= f)
  Finishes-bind (returned p) next = next _ p
  Finishes-bind exited next = exited
  Finishes-bind broke next = broke

  Finishes-mem {κ} :
      {B : Type κ} {e : Exec B} {f : B → Run W A}
      → Settles e
      → ((b : B) → Finishes P (f b))
      → Finishes P (mem e >>= f)
  Finishes-mem settled next = next _
  Finishes-mem faulted next = broke

terminator_at-Settles : (buffer : List ℕ) (i : ℕ) → Settles (terminator_at buffer i)
unfolding terminator_at
terminator_at-Settles buffer i = strncmp_zero-Settles _ _ 4

-- The same bytes are in use, and the scanner is at `i`.
abbrev At : {W : Type 0} → ℕ → ℕ → Web W → Type 0
At used i s = (s.recv_buf.used_space ≡ used) × (s.recv_buf.scanner_index ≡ i)

-- The scanner has left the `used` bytes in use.
abbrev pub ScannedPast : {W : Type 0} → ℕ → Web W → Type 0
ScannedPast used s = (s.recv_buf.used_space ≡ used) × (used < s.recv_buf.scanner_index + 4)

module _ (usable : ℕ → ℕ) (net : Network) (listener_fd connection_fd : Option ℕ) where
  open net use {World}

  At-if :
      (b : Bool) {used i : ℕ} (s t : Web World)
      → At used i s
      → At used i t
      → At used i (if b then s else t)
  At-if true s t p q = p
  At-if false s t p q = q

  process_request-Finishes :
      (request : List ℕ) (reply_socket : Option ℕ) (w : World)
      → Finishes (λ (w' : World). Unit {0}) (process_request usable net request reply_socket w)
  unfolding process_request
  process_request-Finishes request reply_socket w =
      Finishes-mem (print_text-Settles request) (λ printed. replied _ _)
    where
      replied :
          (n : Option ℕ) (w' : World)
          → Finishes (λ (w' : World). Unit {0}) (elim n [ none ↦ exits w' | some k ↦ returns w' ])
      replied none w' = exited
      replied (some k) w' = returned tt

  scan_hit-Finishes :
      (s : Web World)
      → Finishes
          (At s.recv_buf.used_space s.recv_buf.scanner_index)
          (scan_hit usable net listener_fd connection_fd s)
  unfolding scan_hit
  scan_hit-Finishes s =
      Finishes-if (s.recv_buf.scanner_index == s.recv_buf.req_begin_index) exited (
        Finishes-bind (process_request-Finishes s.recv_buf.buffer connection_fd s.world) (λ w sent.
          returned (
            At-if (s.recv_buf.scanner_index + 4 == s.recv_buf.used_space) _ _ (refl, refl)
              (refl, refl))))

  scan_round-Finishes :
      (s : Web World)
      → Finishes
          (At s.recv_buf.used_space (s.recv_buf.scanner_index + 1))
          (scan_round usable net listener_fd connection_fd s)
  unfolding scan_round
  scan_round-Finishes s =
      Finishes-mem (terminator_at-Settles s.recv_buf.buffer s.recv_buf.scanner_index) (λ present.
        Finishes-bind (Finishes-if present (scan_hit-Finishes s) (returned (refl, refl)))
          (λ after (used, i). returned (used, omega (arith, i))))

  scan_loop-Finishes :
      (rounds : ℕ) (s : Web World)
      → s.recv_buf.used_space < rounds + s.recv_buf.scanner_index + 4
      → Finishes
          (ScannedPast s.recv_buf.used_space)
          (scan_loop usable net listener_fd connection_fd rounds s)
  unfolding scan_loop
  scan_loop-Finishes zero s enough = rw past (returned (refl, omega (arith, enough)))
    where
      past : in_reach s.recv_buf ≡ false
      past = ground arith
  scan_loop-Finishes (suc rounds) s enough = elim (Bool-cases (in_reach s.recv_buf)) [
    | inl inside ↦
        rw (scan_loop, inside)
          (Finishes-bind (scan_round-Finishes s) (λ after (used, i).
            subst
              (λ u.
                Finishes (ScannedPast u)
                  (scan_loop usable net listener_fd connection_fd rounds after))
              used (scan_loop-Finishes rounds after (omega (arith, used, i)))))
    | inr past ↦ rw (scan_loop, past) (returned (refl, ground arith))
  ]

  -- The scan of the primary buffer ends within as many rounds as there are bytes in use: by exit, by
  -- undefined behaviour, or with the scanner behind the last place where a terminator fits.
  pub scan_loop_lem :
      (s : Web World)
      → Finishes
          (ScannedPast s.recv_buf.used_space)
          (scan_loop usable net listener_fd connection_fd s.recv_buf.used_space s)
  scan_loop_lem s = scan_loop-Finishes s.recv_buf.used_space s (omega arith)
