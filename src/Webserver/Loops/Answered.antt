-- ===== src/Webserver/Loops/Answered.antt =====
-- What the outer loop of praxis1/webserver.c answers: the first request, and nothing after it that is
-- not longer.
use rn.Prelude.{
  ℕ, zero, suc, ◌+◌, ◌≤◌, ◌<◌, ◌≡◌, ◌≢◌, refl, ap, ◌∙◌, true, false, Option, some, List, [], ◌∷◌,
  ◌++◌, arith, length, take, drop, drop-length, ap₂, strncmp_zero, strncmp_zero-append, splice,
  splice_fits, ok, print_text, leb, ◌==◌,
}
use native.Mathlib.Nat.{zero-add, suc-add}
use rn.Network.{Network}
use rn.Webserver.{
  returns, ◌>>=◌, http_terminator, reply_msg, reply_len, terminator_at, process_request,
}
use rn.Webserver.Loops.{
  Web, receive, take_in, scan_hit, scan_round, in_reach, scan_loop, scan_received, after_scan,
}

-- The state with the scanner at `i`.
abbrev pub at_index : {W : Type 0} → Web W → ℕ → Web W
at_index s i = record s { recv_buf = record (s.recv_buf) { scanner_index = i } }

module _ (usable : ℕ → ℕ) (net : Network) (listener_fd connection_fd : Option ℕ) where
  open net use {World, recv, send}

  pub scan_done :
      (rounds : ℕ) (s : Web World)
      → in_reach s.recv_buf ≡ false
      → scan_loop usable net listener_fd connection_fd rounds s ≡ returns s
  unfolding scan_loop
  scan_done zero s e = rw e refl
  scan_done (suc rounds) s e = rw (e, scan_loop) refl

  -- A position with no terminator is passed.
  scan_pass :
      (rounds i : ℕ) (s : Web World)
      → i + 4 ≤ s.recv_buf.used_space
      → terminator_at s.recv_buf.buffer i ≡ ok false
      → scan_loop usable net listener_fd connection_fd (suc rounds) (at_index s i)
        ≡ scan_loop usable net listener_fd connection_fd rounds (at_index s (i + 1))
  unfolding scan_loop scan_round
  scan_pass rounds i s h none_here =
      let inside : leb (i + 4) s.recv_buf.used_space ≡ true = ground arith in
      rw (inside, scan_loop) (rw none_here refl)

  -- And so is a stretch of them.
  pub scan_skip :
      (d rounds i : ℕ) (s : Web World)
      → i + d + 3 ≤ s.recv_buf.used_space
      → ((j : ℕ) → j < i + d → terminator_at s.recv_buf.buffer j ≡ ok false)
      → scan_loop usable net listener_fd connection_fd (d + rounds) (at_index s i)
        ≡ scan_loop usable net listener_fd connection_fd rounds (at_index s (i + d))
  scan_skip zero rounds i s h none_here =
      rw zero-add (
        ap (λ k. scan_loop usable net listener_fd connection_fd rounds (at_index s k))
          (omega arith))
  scan_skip (suc d) rounds i s h none_here = rw suc-add (
      scan_pass (d + rounds) i s (omega arith) (none_here i (omega arith))
      ∙ scan_skip d rounds (i + 1) s (omega arith) (λ j below. none_here j (omega arith))
      ∙ ap (λ k. scan_loop usable net listener_fd connection_fd rounds (at_index s k))
          (omega arith))

  -- The terminator at the end of what was received: a reply, and the scan is over.
  scan_last :
      (rounds m n : ℕ) (s : Web World)
      → m + 4 ≡ s.recv_buf.used_space
      → m ≢ s.recv_buf.req_begin_index
      → terminator_at s.recv_buf.buffer m ≡ ok true
      → print_text s.recv_buf.buffer ≡ ok tt
      → (send connection_fd (take reply_len reply_msg) s.world).0 ≡ some n
      → scan_loop usable net listener_fd connection_fd (suc rounds) (at_index s m)
        ≡ returns (record (at_index s (m + 1)) {
          recv_buf_fully_processed = true;
          world = (send connection_fd (take reply_len reply_msg) s.world).1;
        })
  unfolding scan_loop scan_round scan_hit process_request
  scan_last rounds m n s last ne here printable sent =
      let inside : leb (m + 4) s.recv_buf.used_space ≡ true = ground arith in
      let other : (m == s.recv_buf.req_begin_index) ≡ false = ground arith in
      let at_end : (m + 4 == s.recv_buf.used_space) ≡ true = ground arith in
      let outside : leb (m + 1 + 4) s.recv_buf.used_space ≡ false = ground arith in
      rw (inside, scan_loop)
        (rw (here, other, printable, sent, at_end) (scan_done rounds _ outside))

  -- The terminator in front of whatever follows.
  terminator_here :
      (request rest : List ℕ)
      → terminator_at (request ++ (13 ∷ 10 ∷ 13 ∷ 10 ∷ rest)) (length request) ≡ ok true
  unfolding terminator_at
  terminator_here request rest =
      ap (λ b. strncmp_zero b http_terminator 4) (drop-length request (13 ∷ 10 ∷ 13 ∷ 10 ∷ rest))
      ∙ strncmp_zero-append (13 ∷ 10 ∷ 13 ∷ 10 ∷ []) rest (0 ∷ [])

  -- A request that has been received as a whole, ends with its terminator and has no terminator
  -- before that, is answered with just one reply. From then on the buffer counts as processed, and
  -- the scanner stays behind the start of the terminator.
  pub first_request_lem :
      (s : Web World) (request rest : List ℕ) (n rounds more : ℕ)
      → s.recv_buf.buffer ≡ request ++ (13 ∷ 10 ∷ 13 ∷ 10 ∷ rest)
      → s.recv_buf.used_space ≡ length request + 4
      → s.recv_buf.scanner_index ≡ 0
      → s.recv_buf.req_begin_index ≡ 0
      → 0 < length request
      → ((i : ℕ) → i < length request → terminator_at s.recv_buf.buffer i ≡ ok false)
      → print_text s.recv_buf.buffer ≡ ok tt
      → (send connection_fd (take reply_len reply_msg) s.world).0 ≡ some n
      → scan_received usable net listener_fd connection_fd rounds (suc more) s
        ≡ returns (record (at_index s (length request + 1)) {
          recv_buf_fully_processed = true;
          world = (send connection_fd (take reply_len reply_msg) s.world).1;
        })
  unfolding scan_received after_scan
  first_request_lem s request rest n rounds more shape used start begin some_bytes none_before
        printable sent =
      rw (scanned) refl
    where
      m : ℕ
      m = length request

      at_start : s ≡ at_index s 0
      at_start = ap (at_index s) start

      scanned :
          scan_loop usable net listener_fd connection_fd s.recv_buf.used_space s
          ≡ returns (record (at_index s (m + 1)) {
            recv_buf_fully_processed = true;
            world = (send connection_fd (take reply_len reply_msg) s.world).1;
          })
      scanned =
          ap₂ (λ k t. scan_loop usable net listener_fd connection_fd k t) used at_start
          ∙ scan_skip m 4 0 s (omega (arith, used)) (λ j below. none_before j (omega arith))
          ∙ ap (λ k. scan_loop usable net listener_fd connection_fd 4 (at_index s k)) {x = 0 + m}
              {y = m} (omega arith)
          ∙ scan_last 3 m n s (omega (arith, used)) (ground (arith, begin, some_bytes))
              (ap (λ b. terminator_at b m) shape ∙ terminator_here request rest) printable sent

  -- The state when `bytes` have been received into the primary buffer.
  abbrev pub heard : Web World → List ℕ → Web World
  heard s bytes = record s {
    recv_buf = record (s.recv_buf) {
      buffer = bytes ++ drop (length bytes) s.recv_buf.buffer;
      used_space = length bytes;
    };
    world = (recv connection_fd s.recv_buf.available_space s.world).1;
  }

  pub receive_lem :
      (s : Web World) (bytes : List ℕ)
      → (recv connection_fd s.recv_buf.available_space s.world).0 ≡ some bytes
      → 0 < length bytes
      → length bytes ≤ length s.recv_buf.buffer
      → print_text (bytes ++ drop (length bytes) s.recv_buf.buffer) ≡ ok tt
      → receive usable net listener_fd connection_fd s ≡ returns (heard s bytes)
  unfolding receive take_in
  receive_lem s bytes got some_bytes fits printable =
      let some_there : (length bytes == 0) ≡ false = ground arith in
      rw (got, some_there, stored, printable) refl
    where
      stored :
          splice s.recv_buf.buffer 0 bytes ≡ ok (bytes ++ drop (length bytes) s.recv_buf.buffer)
      stored =
          splice_fits 0 s.recv_buf.buffer bytes (omega (arith, fits))
          ∙ ap (λ k. ok (bytes ++ drop k s.recv_buf.buffer)) (omega arith)

  -- Once the buffer counts as processed, a chunk that is received is answered by nothing, as long as
  -- it has no more bytes than leave the scanner's position out of reach. The scanner stays where it
  -- is, and the buffer counts as processed as before.
  pub deaf_lem :
      (s : Web World) (bytes : List ℕ) (rounds more : ℕ)
      → s.recv_buf_fully_processed ≡ true
      → (recv connection_fd s.recv_buf.available_space s.world).0 ≡ some bytes
      → 0 < length bytes
      → length bytes < s.recv_buf.scanner_index + 4
      → length bytes ≤ length s.recv_buf.buffer
      → print_text (bytes ++ drop (length bytes) s.recv_buf.buffer) ≡ ok tt
      → (receive usable net listener_fd connection_fd s
          >>= scan_received usable net listener_fd connection_fd rounds (suc more))
        ≡ returns (heard s bytes)
  unfolding scan_received after_scan
  deaf_lem s bytes rounds more processed got some_bytes short fits printable =
      let outside : leb (s.recv_buf.scanner_index + 4) (length bytes) ≡ false = ground arith in
      rw (receive_lem s bytes got some_bytes fits printable)
        (rw (scan_done (length bytes) (heard s bytes) outside, processed) refl)
