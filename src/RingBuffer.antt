-- ===== src/RingBuffer.antt =====
-- praxis2/src/util.c and praxis2/include/util.h: the ring buffer in which the server collects the
-- bytes of a packet. One cell always stays free, so that equal positions mean empty.
pub mod Positions
pub mod Contents
pub mod Write
pub mod Read
use rn.Prelude.{
  ℕ, zero, suc, ◌+◌, ◌-◌, ◌%◌, ◌^◌, min, List, Exec, ok, ◌>>=◌, load, store, Allocator, u64, sub64,
  ltb, leb, if◌then◌else◌,
}

-- `struct _ring_buffer`
pub record RingBuffer : Type 0 where
  pub buffer : List ℕ
  pub bufsize : ℕ
  pub wpos : ℕ
  pub rpos : ℕ

unfoldable pub rb_new : Allocator → ℕ → RingBuffer
rb_new heap size = record {
  buffer = heap.malloc (u64 (size + 1));
  bufsize = u64 (size + 1);
  wpos = 0;
  rpos = 0;
}

pub rb_can_read : RingBuffer → ℕ
rb_can_read rb =
    if leb rb.rpos rb.wpos then sub64 rb.wpos rb.rpos else u64 (sub64 rb.bufsize rb.rpos + rb.wpos)

-- `rpos - 1` wraps at 0, and the sum wraps back.
pub rb_can_write : RingBuffer → ℕ
rb_can_write rb =
    if ltb rb.wpos rb.rpos
    then sub64 (sub64 rb.rpos rb.wpos) 1
    else u64 (sub64 rb.bufsize rb.wpos + sub64 rb.rpos 1)

-- `(pos + 1) % bufsize`
unfoldable pub advance : ℕ → ℕ → ℕ
advance bufsize pos = u64 (pos + 1) % bufsize

-- The loop at index `i`, with `left` rounds to go.
pub write_loop : ℕ → ℕ → List ℕ → RingBuffer → Exec RingBuffer
write_loop zero i src rb = ok rb
write_loop (suc left) i src rb = do
  byte ← load src i
  buffer ← store rb.buffer rb.wpos byte
  write_loop left (i + 1) src (record rb { buffer = buffer; wpos = advance rb.bufsize rb.wpos })

-- The number returned is the room that there was, not the number of bytes written.
pub rb_write : RingBuffer → List ℕ → ℕ → Exec (ℕ × RingBuffer)
rb_write rb src n = do
  let avail = rb_can_write rb
  written ← write_loop (min avail n) 0 src rb
  ok (avail, written)

pub read_loop : ℕ → ℕ → List ℕ → RingBuffer → Exec (List ℕ × RingBuffer)
read_loop zero i dst rb = ok (dst, rb)
read_loop (suc left) i dst rb = do
  byte ← load rb.buffer rb.rpos
  filled ← store dst i byte
  read_loop left (i + 1) filled (record rb { rpos = advance rb.bufsize rb.rpos })

-- The number of bytes that there were, the destination and the buffer.
pub rb_read : RingBuffer → List ℕ → ℕ → Exec (ℕ × List ℕ × RingBuffer)
rb_read rb dst n = do
  let avail = rb_can_read rb
  (filled, rest) ← read_loop (min avail n) 0 dst rb
  ok (avail, filled, rest)
