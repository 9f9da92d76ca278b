-- ===== src/Tests/Webservers.antt =====
-- Tests of the web server of praxis1.
use rn.Prelude.{
  ℕ, ◌<◌, ◌+◌, ◌≡◌, ◌≢◌, ◌⊎◌, refl, List, [], ◌∷◌, some, true, false, arith, ok, replicate,
  print_text, print_text-zeros,
}
use rn.Webserver.{returns, endless, ◌>>=◌, BufStruct, buf_struct_expand, terminator_at}
use rn.Webserver.Terminator.{cmp_buffend_terminator, cmp_buffend_terminator_lem}
use rn.Webserver.Expanding.{buf_struct_expand_lem}
use rn.Webserver.Loops.{Web, receive, scan_loop, scan_received}
use rn.Webserver.Loops.Scanning.{Finishes, ScannedPast, scan_loop_lem}
use rn.Webserver.Loops.Answered.{at_index, heard, first_request_lem, deaf_lem}
use rn.Webserver.Loops.Hanging.{FirstPiece, split_request_lem}
use rn.Webserver.Starting.{no_terminator}
use rn.Tests.Fixtures.{Pipe, pipe}

-- A heap whose blocks have room for 24 bytes more than was asked for.
abbrev room : ℕ → ℕ
room n = n + 24

abbrev ending : List ℕ
ending = 13 ∷ 10 ∷ 13 ∷ 10 ∷ []

cmp_buffend_terminator_lem_example :
    ((cmp_buffend_terminator (71 ∷ 13 ∷ 10 ∷ 13 ∷ 10 ∷ 9 ∷ []) 5 ending 4 ≡ ok 1)
      × (ending ≡ ending))
    ⊎ ((cmp_buffend_terminator (71 ∷ 13 ∷ 10 ∷ 13 ∷ 10 ∷ 9 ∷ []) 5 ending 4 ≡ ok 0)
        × (ending ≢ ending))
cmp_buffend_terminator_lem_example =
    cmp_buffend_terminator_lem (71 ∷ 13 ∷ 10 ∷ 13 ∷ 10 ∷ 9 ∷ []) 5 ending (omega arith)
      (omega arith) (omega arith)

abbrev small : BufStruct
small = record {
  buffer = 71 ∷ 69 ∷ 0 ∷ [];
  available_space = 3;
  used_space = 2;
  scanner_index = 0;
  req_begin_index = 0;
}

small_printable : print_text small.buffer ≡ ok tt
small_printable = print_text-zeros (71 ∷ 69 ∷ []) 0

buf_struct_expand_lem_example :
    buf_struct_expand room pipe small ([], [])
    ≡ returns (record small { buffer = 71 ∷ 69 ∷ 0 ∷ 0 ∷ 0 ∷ 0 ∷ []; available_space = 6 })
buf_struct_expand_lem_example =
    buf_struct_expand_lem room pipe small ([], []) (omega arith) (omega arith) (omega arith) refl
      (omega arith) small_printable

-- "G", its terminator, and zeros.
abbrev whole : Web Pipe
whole = record {
  recv_buf = record {
    buffer = 71 ∷ 13 ∷ 10 ∷ 13 ∷ 10 ∷ replicate 95 0;
    available_space = 100;
    used_space = 5;
    scanner_index = 0;
    req_begin_index = 0;
  };
  recv_buf_fully_processed = false;
  world = (72 ∷ 73 ∷ 74 ∷ [], []);
}

none_before : (i : ℕ) → i < 1 → terminator_at whole.recv_buf.buffer i ≡ ok false
none_before i h =
    let first : 0 ≡ i = omega (arith, h) in
    rw (← first) (no_terminator 0 whole.recv_buf.buffer (omega arith))

first_request_lem_example :
    scan_received room pipe (some 4) (some 5) 9 1 whole
    ≡ returns (record (at_index whole 2) {
      recv_buf_fully_processed = true;
      world = (72 ∷ 73 ∷ 74 ∷ [], 82 ∷ 101 ∷ []);
    })
first_request_lem_example =
    first_request_lem room pipe (some 4) (some 5) whole (71 ∷ []) (replicate 95 0) 2 9 0 refl refl
      refl refl (omega arith) none_before (print_text-zeros (71 ∷ 13 ∷ 10 ∷ 13 ∷ 10 ∷ []) 94) refl

abbrev answered : Web Pipe
answered = record (at_index whole 2) { recv_buf_fully_processed = true }

deaf_lem_example :
    (receive room pipe (some 4) (some 5) answered >>= scan_received room pipe (some 4) (some 5) 9 1)
    ≡ returns (heard room pipe (some 4) (some 5) answered (72 ∷ 73 ∷ 74 ∷ []))
deaf_lem_example =
    deaf_lem room pipe (some 4) (some 5) answered (72 ∷ 73 ∷ 74 ∷ []) 9 0 refl refl (omega arith)
      (omega arith) (omega arith) (print_text-zeros (72 ∷ 73 ∷ 74 ∷ 13 ∷ 10 ∷ []) 94)

-- "GET" has been received, and "H" with two more bytes comes next.
abbrev piece : Web Pipe
piece = record whole {
  recv_buf = record (whole.recv_buf) { buffer = 71 ∷ 69 ∷ 84 ∷ replicate 97 0; used_space = 3 };
}

piece-FirstPiece : FirstPiece room pipe (some 4) (some 5) piece
piece-FirstPiece = record {
  available = refl;
  whole = refl;
  some_used = omega arith;
  used = omega arith;
  unscanned = refl;
  unprocessed = refl;
  starts_else = omega arith;
  no_terminators = λ i h. absurd (omega (arith, h));
}

split_request_lem_example : scan_received room pipe (some 4) (some 5) 50 50 piece ≡ endless ([], [])
split_request_lem_example =
    split_request_lem room pipe (some 4) (some 5) piece (72 ∷ 73 ∷ 74 ∷ []) 49 49 piece-FirstPiece
      (omega arith) refl (omega arith) (omega arith) (omega arith)
      (print_text-zeros (72 ∷ 73 ∷ 74 ∷ []) 96)

scan_loop_lem_example : Finishes (ScannedPast 5) (scan_loop room pipe (some 4) (some 5) 5 whole)
scan_loop_lem_example = scan_loop_lem room pipe (some 4) (some 5) whole
