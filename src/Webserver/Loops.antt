-- ===== src/Webserver/Loops.antt =====
-- The loops and main of praxis1/webserver.c. `listener_fd` and `connection_fd` are section parameters,
-- since they do not change; main is at the end. `rounds` bounds the loops that the client drives.
pub mod Answered
pub mod Hanging
pub mod Scanning
use rn.Prelude.{
  ℕ, zero, suc, ◌+◌, ◌-◌, Bool, true, false, Option, none, some, List, [], ◌∷◌, length, take, drop,
  splice, strncpy_at, print_text, ltb, leb, ◌==◌, if◌then◌else◌,
}
use rn.Network.{Network}
use rn.Webserver.{
  Run, returns, exits, broken, endless, ◌>>=◌, mem, BufStruct, twice, terminator_at,
  buf_struct_init, buf_struct_expand, process_request,
}

-- The variables of the receiving loop.
pub record Web (W : Type 0) : Type 0 where
  pub recv_buf : BufStruct
  pub recv_buf_fully_processed : Bool
  pub world : W

-- `scanner_index++`
abbrev pub advance_scanner : {W : Type 0} → Web W → Web W
advance_scanner s = record s {
  recv_buf = record (s.recv_buf) { scanner_index = s.recv_buf.scanner_index + 1 };
}

-- `scanner_index <= used_space - terminator_length`
abbrev pub in_reach : BufStruct → Bool
in_reach b = leb (b.scanner_index + 4) b.used_space

module _ (usable : ℕ → ℕ) (net : Network) (listener_fd connection_fd : Option ℕ) where
  open net use {World}

  -- Both descriptors are closed, and exit is called.
  abbrev pub quit {ℓ} : {A : Type ℓ} → World → Run World A
  quit w = exits (net.close listener_fd (net.close connection_fd w))

  -- What recv has written into the primary buffer, which is then printed.
  pub take_in : Web World → Option (List ℕ) → World → Run World (Web World)
  take_in s none w = quit w
  take_in s (some bytes) w = if length bytes == 0 then quit w else (do
    buffer ← mem (splice s.recv_buf.buffer 0 bytes)
    printed ← mem (print_text buffer)
    returns (record s {
      recv_buf = record (s.recv_buf) { buffer = buffer; used_space = length bytes };
      world = w;
    }))

  pub receive : Web World → Run World (Web World)
  receive s =
      let (answer, w) = net.recv connection_fd s.recv_buf.available_space s.world in
      take_in s answer w

  -- A terminator at the scanner's position: a request ends there.
  pub scan_hit : Web World → Run World (Web World)
  scan_hit s = if s.recv_buf.scanner_index == s.recv_buf.req_begin_index then quit s.world else (do
    w ← process_request usable net s.recv_buf.buffer connection_fd s.world
    returns (
        if s.recv_buf.scanner_index + 4 == s.recv_buf.used_space
        then record s { recv_buf_fully_processed = true; world = w }
        else record s {
          recv_buf = record (s.recv_buf) { req_begin_index = s.recv_buf.scanner_index + 4 };
          world = w;
        }))

  pub scan_round : Web World → Run World (Web World)
  scan_round s = do
    present ← mem (terminator_at s.recv_buf.buffer s.recv_buf.scanner_index)
    after ← (if present then scan_hit s else returns s)
    returns (advance_scanner after)

  -- The loop at RECV_SCAN. It takes at most as many rounds as there are bytes.
  pub scan_loop : ℕ → Web World → Run World (Web World)
  scan_loop zero s = if in_reach s.recv_buf then endless s.world else returns s
  scan_loop (suc rounds) s = elim (in_reach s.recv_buf) [
    | true ↦ (do after ← scan_round s; scan_loop rounds after)
    | false ↦ returns s
  ]

  -- The secondary buffer, with what has been received.
  pub start_request : Web World → Run World BufStruct
  start_request s = do
    size ← mem (twice s.recv_buf.available_space)
    req_buf ← buf_struct_init usable net size s.world
    buffer ← mem (strncpy_at req_buf.buffer 0 s.recv_buf.buffer s.recv_buf.used_space)
    returns (record req_buf { buffer = buffer; used_space = s.recv_buf.used_space })

  -- It is expanded if need be, and what has been received now is appended.
  pub append_received : Web World → BufStruct → Run World BufStruct
  append_received s req_buf = do
    roomy ←
        (if ltb req_buf.available_space (req_buf.used_space + s.recv_buf.used_space)
          then buf_struct_expand usable net req_buf s.world
          else returns req_buf)
    buffer ← mem (strncpy_at roomy.buffer roomy.used_space s.recv_buf.buffer s.recv_buf.used_space)
    returns
        (record roomy { buffer = buffer; used_space = roomy.used_space + s.recv_buf.used_space })

  -- A terminator in the secondary buffer: the number of bytes that remain behind the request, which
  -- are copied to the primary buffer.
  pub request_hit : Web World → BufStruct → Run World (ℕ × Web World)
  request_hit s req_buf = if req_buf.scanner_index == 0 then quit s.world else (do
    w ← process_request usable net req_buf.buffer connection_fd s.world
    let remaining = req_buf.used_space - (req_buf.scanner_index + 4)
    if remaining == 0 then returns (remaining, record s { world = w }) else (do
      buffer ← mem (
          strncpy_at s.recv_buf.buffer 0 (drop (req_buf.used_space - remaining) req_buf.buffer)
            remaining)
      returns (
        remaining,
        record s {
          recv_buf = record (s.recv_buf) { buffer = buffer; used_space = remaining };
          world = w;
        },
      )))

  -- The scan of the secondary buffer; `none` if it ends with no request. The scanner's position does
  -- not change.
  pub request_scan : ℕ → Web World → BufStruct → Run World (Option (ℕ × Web World))
  request_scan zero s req_buf = if in_reach req_buf then endless s.world else returns none
  request_scan (suc rounds) s req_buf = elim (in_reach req_buf) [
    | true ↦ (do
      present ← mem (terminator_at req_buf.buffer req_buf.scanner_index)
      elim present [
        | true ↦ (do hit ← request_hit s req_buf; returns (some hit))
        | false ↦ request_scan rounds s req_buf
      ])
    | false ↦ returns none
  ]

  -- The inner receiving loop.
  pub request_loop : ℕ → ℕ → Web World → BufStruct → Run World (ℕ × Web World)
  request_loop rounds zero s req_buf = endless s.world
  request_loop rounds (suc more) s req_buf = do
    received ← receive s
    extended ← append_received received req_buf
    found ← request_scan rounds received extended
    elim found [ none ↦ request_loop rounds more received extended | some hit ↦ returns hit ]

  -- Behind the scan, by recv_buf_fully_processed. `again` is the jump to RECV_SCAN.
  pub after_scan :
      (Web World → Run World (Web World)) → ℕ → Bool → Web World → Run World (Web World)
  after_scan again rounds true s = returns s
  after_scan again rounds false s = do
    req_buf ← start_request s
    (remaining, after) ← request_loop rounds rounds s req_buf
    if remaining == 0
        then returns (record after { recv_buf = record (after.recv_buf) { scanner_index = 0 } })
        else again after

  -- From RECV_SCAN to the end of the outer loop's body.
  pub scan_received : ℕ → ℕ → Web World → Run World (Web World)
  scan_received rounds zero s = endless s.world
  scan_received rounds (suc more) s = do
    scanned ← scan_loop s.recv_buf.used_space s
    after_scan (scan_received rounds more) rounds scanned.recv_buf_fully_processed scanned

  -- The outer receiving loop, which only exit leaves.
  pub serve : ℕ → ℕ → Web World → Run World (Web World)
  serve rounds zero s = endless s.world
  serve rounds (suc more) s = do
    received ← receive s
    scanned ← scan_received rounds rounds received
    serve rounds more scanned

module _ (usable : ℕ → ℕ) (net : Network) (rounds : ℕ) where
  open net use {World}

  accepted : Option ℕ → Option ℕ × World → Run World (Web World)
  accepted listener_fd (none, w) = exits w
  accepted listener_fd (some fd, w) = do
    recv_buf ← buf_struct_init usable net 100 w
    serve usable net listener_fd (some fd) rounds rounds
        (record { recv_buf = recv_buf; recv_buf_fully_processed = false; world = w })

  listening : Option ℕ → Bool × World → Run World (Web World)
  listening listener_fd (false, w) = exits w
  listening listener_fd (true, w) = accepted listener_fd (net.accept listener_fd w)

  bound : Option ℕ → Bool × World → Run World (Web World)
  bound listener_fd (false, w) = exits w
  bound listener_fd (true, w) = listening listener_fd (net.listen listener_fd w)

  listen_at : net.Address → Option ℕ × World → Run World (Web World)
  listen_at addr (none, w) = exits w
  listen_at addr (some fd, w) = bound (some fd) (net.bind (some fd) addr w)

  listen_on : Option (List net.Address) × World → Run World (Web World)
  listen_on (none, w) = exits w
  listen_on (some [], w) = broken
  listen_on (some (listener_addrinfo ∷ more), w) = listen_at listener_addrinfo (net.socket w)

  -- `port` is argv[1].
  pub main : Option (List ℕ) → World → Run World (Web World)
  main port w = listen_on (net.passive port w)
