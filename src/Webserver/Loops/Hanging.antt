-- ===== src/Webserver/Loops/Hanging.antt =====
-- What praxis1/webserver.c does with a request that comes in two pieces.
use rn.Prelude.{
  ℕ, zero, suc, ◌+◌, ◌≤◌, ◌<◌, ◌≡◌, refl, ap, ap₂, ◌∙◌, ◌-◌, true, false, Option, some, List, ◌++◌,
  arith, length, length-append, length-take, length-drop, length-replicate, replicate, take, drop,
  strncpy_at, strncpy_at_lem, as_string, length-as_string, ok, print_text, ltb,
}
use native.Mathlib.Decide.{dec_le}
use rn.Network.{Network}
use rn.Webserver.{returns, endless, BufStruct, twice, terminator_at, buf_struct_init}
use rn.Webserver.Starting.{
  StartsElse, StartsElse-append, StartsElse-take, StartsElse-as_string, no_terminator,
}
use rn.Webserver.Loops.{
  Web, in_reach, scan_loop, start_request, append_received, request_scan, request_loop,
  scan_received, after_scan,
}
use rn.Webserver.Loops.Answered.{at_index, scan_done, scan_skip, heard, receive_lem}

module _ (usable : ℕ → ℕ) (net : Network) (listener_fd connection_fd : Option ℕ) where
  open net use {World, recv}

  -- The scan of the secondary buffer never goes on from a position without a terminator.
  pub request_scan_stays :
      (rounds : ℕ) (s : Web World) (req_buf : BufStruct)
      → in_reach req_buf ≡ true
      → terminator_at req_buf.buffer req_buf.scanner_index ≡ ok false
      → request_scan usable net listener_fd connection_fd rounds s req_buf ≡ endless s.world
  unfolding request_scan
  request_scan_stays zero s req_buf inside nothing = rw inside refl
  request_scan_stays (suc rounds) s req_buf inside nothing =
      rw (inside, request_scan) (rw nothing (request_scan_stays rounds s req_buf inside nothing))

  -- The primary buffer when a first piece of a request has been received.
  pub record FirstPiece (s : Web World) : Type 0 where
    pub available : s.recv_buf.available_space ≡ 100
    pub whole : length s.recv_buf.buffer ≡ 100
    pub some_used : 0 < s.recv_buf.used_space
    pub used : s.recv_buf.used_space ≤ 100
    pub unscanned : s.recv_buf.scanner_index ≡ 0
    pub unprocessed : s.recv_buf_fully_processed ≡ false
    pub starts_else : StartsElse s.recv_buf.buffer
    pub no_terminators :
        (i : ℕ) → i + 4 ≤ s.recv_buf.used_space → terminator_at s.recv_buf.buffer i ≡ ok false

  -- The secondary buffer that start_request makes of it.
  abbrev pub copied : Web World → BufStruct
  copied s = record {
    buffer =
        as_string (take s.recv_buf.used_space s.recv_buf.buffer)
        ++ drop s.recv_buf.used_space (replicate 200 0);
    available_space = 200;
    used_space = s.recv_buf.used_space;
    scanner_index = 0;
    req_begin_index = 0;
  }

  start_request_lem :
      (s : Web World) (k : ℕ)
      → FirstPiece s
      → 24 ≤ usable 8
      → start_request usable net listener_fd connection_fd (at_index s k) ≡ returns (copied s)
  unfolding start_request buf_struct_init twice
  start_request_lem s k v roomy =
      let enough : ltb (usable 8) 24 ≡ false = ground arith in rw (v.available, enough, stored) refl
    where
      stored :
          strncpy_at (replicate 200 0) 0 s.recv_buf.buffer s.recv_buf.used_space
          ≡ ok (copied s).buffer
      stored =
          strncpy_at_lem (replicate 200 0) 0 s.recv_buf.buffer s.recv_buf.used_space
            (omega (arith, v.used, length-replicate {A = ℕ} 200 0)) (omega (arith, v.used, v.whole))
          ∙ ap
              (λ n. ok (
                as_string (take s.recv_buf.used_space s.recv_buf.buffer)
                ++ drop n (replicate 200 0)))
              {x = 0 + s.recv_buf.used_space} {y = s.recv_buf.used_space} (omega arith)

  -- And when the next piece has been appended to it.
  abbrev extended : Web World → List ℕ → BufStruct
  extended s bytes = record (copied s) {
    buffer =
        take s.recv_buf.used_space (copied s).buffer
        ++ (as_string (take (length bytes) (bytes ++ drop (length bytes) s.recv_buf.buffer))
            ++ drop (s.recv_buf.used_space + length bytes) (copied s).buffer);
    used_space = s.recv_buf.used_space + length bytes;
  }

  length-copied : (s : Web World) → FirstPiece s → length (copied s).buffer ≡ 200
  length-copied s v =
      length-append (as_string (take s.recv_buf.used_space s.recv_buf.buffer))
        (drop s.recv_buf.used_space (replicate 200 0))
      ∙ omega (
        arith,
        length-as_string (take s.recv_buf.used_space s.recv_buf.buffer),
        length-take s.recv_buf.used_space s.recv_buf.buffer,
        length-drop s.recv_buf.used_space (replicate {A = ℕ} 200 0),
        length-replicate {A = ℕ} 200 0,
        v.used,
        v.whole,
      )

  append_lem :
      (s : Web World) (k : ℕ) (bytes : List ℕ)
      → FirstPiece s
      → length bytes ≤ 100
      → append_received usable net listener_fd connection_fd
          (heard usable net listener_fd connection_fd (at_index s k) bytes)
          (copied s)
        ≡ returns (extended s bytes)
  unfolding append_received
  append_lem s k bytes v fits =
      let roomy : ltb 200 (s.recv_buf.used_space + length bytes) ≡ false =
        ground (arith, v.used, fits) in
      rw
        (
          roomy,
          strncpy_at_lem (copied s).buffer s.recv_buf.used_space
              (bytes ++ drop (length bytes) s.recv_buf.buffer) (length bytes)
              (omega (arith, length-copied s v, v.used, fits))
              (omega (arith, length-append bytes (drop (length bytes) s.recv_buf.buffer))),
        )
        refl

  starts_else :
      (s : Web World) (bytes : List ℕ) → FirstPiece s → StartsElse (extended s bytes).buffer
  starts_else s bytes v = StartsElse-append (take s.recv_buf.used_space (copied s).buffer) _ (
      StartsElse-take s.recv_buf.used_space (copied s).buffer v.some_used (
        StartsElse-append (as_string (take s.recv_buf.used_space s.recv_buf.buffer)) _ (
          StartsElse-as_string (take s.recv_buf.used_space s.recv_buf.buffer)
            (StartsElse-take s.recv_buf.used_space s.recv_buf.buffer v.some_used v.starts_else))))

  -- The scan of the first piece finds nothing.
  scan_all :
      (s : Web World)
      → FirstPiece s
      → (k : ℕ) × (scan_loop usable net listener_fd connection_fd s.recv_buf.used_space s
          ≡ returns (at_index s k))
  scan_all s v = elim (dec_le 4 s.recv_buf.used_space) [
    | no short ↦ (
      0,
      ap (scan_loop usable net listener_fd connection_fd s.recv_buf.used_space) at_start
          ∙ scan_done usable net listener_fd connection_fd s.recv_buf.used_space (at_index s 0)
              (ground (arith, short)),
    )
    | yes long ↦
        let d : ℕ = s.recv_buf.used_space - 3 in
        let rounds : s.recv_buf.used_space ≡ d + 3 = omega (arith, long) in
        (
          0 + d,
          ap₂ (λ n t. scan_loop usable net listener_fd connection_fd n t) rounds at_start
              ∙ scan_skip usable net listener_fd connection_fd d 3 0 s (omega (arith, long))
                  (λ j below. v.no_terminators j (omega (arith, below)))
              ∙ scan_done usable net listener_fd connection_fd 3 (at_index s (0 + d))
                  (ground (arith, long)),
        )
  ]
    where
      at_start : s ≡ at_index s 0
      at_start = ap (at_index s) v.unscanned

  -- The state when the second piece has been received.
  abbrev pub behind : Web World → World
  behind s = (recv connection_fd s.recv_buf.available_space s.world).1

  request_loop_hangs :
      (s : Web World) (k : ℕ) (bytes : List ℕ) (rounds n : ℕ)
      → FirstPiece s
      → (recv connection_fd s.recv_buf.available_space s.world).0 ≡ some bytes
      → 0 < length bytes
      → length bytes ≤ 100
      → 4 ≤ s.recv_buf.used_space + length bytes
      → print_text (bytes ++ drop (length bytes) s.recv_buf.buffer) ≡ ok tt
      → request_loop usable net listener_fd connection_fd rounds (suc n) (at_index s k) (copied s)
        ≡ endless (behind s)
  unfolding request_loop
  request_loop_hangs s k bytes rounds n v got some_bytes fits enough printable =
      let inside : in_reach (extended s bytes) ≡ true = ground (arith, enough) in
      rw
        (
          receive_lem usable net listener_fd connection_fd (at_index s k) bytes got some_bytes
              (omega (arith, v.whole, fits)) printable,
          append_lem s k bytes v fits,
          request_scan_stays rounds
              (heard usable net listener_fd connection_fd (at_index s k) bytes) (extended s bytes)
              inside (no_terminator 0 (extended s bytes).buffer (starts_else s bytes v)),
        )
        refl

  -- The first piece of the first request has no terminator and does not start with a carriage return.
  -- A second piece comes, of at most 100 bytes, with which there are at least four; the server can print
  -- it, since a zero byte stands behind it in the buffer. Then the server sends nothing in answer: with
  -- any number of rounds, one at least, for its loops, the rounds run out, and the outside world
  -- is then as it was when the second piece had been received.
  pub split_request_lem :
      (s : Web World) (bytes : List ℕ) (rounds more : ℕ)
      → FirstPiece s
      → 24 ≤ usable 8
      → (recv connection_fd s.recv_buf.available_space s.world).0 ≡ some bytes
      → 0 < length bytes
      → length bytes ≤ 100
      → 4 ≤ s.recv_buf.used_space + length bytes
      → print_text (bytes ++ drop (length bytes) s.recv_buf.buffer) ≡ ok tt
      → scan_received usable net listener_fd connection_fd (suc rounds) (suc more) s
        ≡ endless (behind s)
  unfolding scan_received after_scan
  split_request_lem s bytes rounds more v roomy got some_bytes fits enough printable =
      finish (scan_all s v)
    where
      finish :
          (k : ℕ) × (scan_loop usable net listener_fd connection_fd s.recv_buf.used_space s
              ≡ returns (at_index s k))
          → scan_received usable net listener_fd connection_fd (suc rounds) (suc more) s
            ≡ endless (behind s)
      finish (k, scanned) = rw scanned (
          ap
            (λ b.
              after_scan usable net listener_fd connection_fd
                (scan_received usable net listener_fd connection_fd (suc rounds) more) (suc rounds)
                b (at_index s k))
            v.unprocessed
          ∙ rw
              (
                start_request_lem s k v roomy,
                request_loop_hangs s k bytes (suc rounds) rounds v got some_bytes fits enough
                    printable,
              )
              refl)
