-- ===== src/RingBuffer/Contents.antt =====
-- The bytes that a ring holds, oldest first, and its representation invariant.
use libcutils.Base.{
  ℕ, ◌-◌, ◌^◌, ◌≤◌, ◌<◌, ◌≡◌, List, [], ◌++◌, ◌&&◌, not, ltb, ◌==◌, if◌then◌else◌, length,
}
use libcutils.Base.Memory.{slice}
use libcutils.Base.Words.{le_value}
use libcutils.RingBuffer.{RingBuffer, is_write_flag}

-- Equal indices mean an empty ring, unless the last operation was a write.
unfoldable pub contents : RingBuffer → List ℕ
contents rbuf =
    if r == w && not (is_write_flag rbuf.rw_flag)
    then []
    else if ltb r w
    then slice rbuf.buffer_addr r (w - r)
    else slice rbuf.buffer_addr r (rbuf.buffer_len - r) ++ slice rbuf.buffer_addr 0 w
  where
    open rbuf use {read_index as r, write_index as w}

-- The block holds `buffer_len` bytes, which an `int32_t` can count; an index may stand at the end.
pub record IsValid (rbuf : RingBuffer) : Type 0 where
  pub storage : rbuf.buffer_len ≤ length rbuf.buffer_addr
  pub small : rbuf.buffer_len < 2 ^ 31
  pub read_in : rbuf.read_index ≤ rbuf.buffer_len
  pub write_in : rbuf.write_index ≤ rbuf.buffer_len

-- A message begins with its own length, the four bytes of the length included.
pub record IsMessage (m : List ℕ) : Type 0 where
  pub has_head : 4 ≤ length m
  pub length_lem : le_value (slice m 0 4) ≡ length m
