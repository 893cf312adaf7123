-- ===== src/RingBuffer.antt =====
-- src/libdata_structure/ring_buffer/ring_buffer.c: a byte ring whose messages begin with their
-- length. Bytes are numbers, the block behind `buffer_addr` is a list of them, and an access
-- outside a block is the fault `none`. The host is little-endian.
pub mod Contents
pub mod Space
pub mod Write
pub mod Accept
pub mod Read
pub mod Faults
mod Tests
use Prim.Native.String.{String}
use text.Mathlib.Text.{◌==◌ as str_eq}
use libcutils.Base.{
  ℕ, ◌+◌, ◌-◌, ◌%◌, ◌^◌, List, [], ◌++◌, Bool, true, false, ◌&&◌, ◌||◌, Option, some, ltb, ◌==◌,
  if◌then◌else◌,
}
use libcutils.Base.Monad.{◌>>=◌}
use libcutils.Base.Memory.{load, store}
use libcutils.Base.Words.{le_value, add32, sub32}

-- `enum rw_flag_e`
pub data RwFlag : Type 0 where
  rw_flag_init rw_flag_read rw_flag_write : RwFlag

abbrev pub is_read_flag : RwFlag → Bool
is_read_flag rw_flag_read = true
is_read_flag _ = false

abbrev pub is_write_flag : RwFlag → Bool
is_write_flag rw_flag_write = true
is_write_flag _ = false

-- `ring_buffer_t`
pub record RingBuffer : Type 0 where
  pub buffer_addr : List ℕ
  pub buffer_len : ℕ
  pub write_index : ℕ
  pub read_index : ℕ
  pub rw_flag : RwFlag

-- What a `void *value` points at, read as a block and as a `uint32_t`.
pub record Pointee : Type 0 where
  pub block : List ℕ
  pub word : ℕ

set_buffer_addr : RingBuffer → Pointee → RingBuffer
set_buffer_addr rbuf value = record rbuf { buffer_addr = value.block }

set_buffer_len : RingBuffer → Pointee → RingBuffer
set_buffer_len rbuf value = record rbuf { buffer_len = value.word % 2 ^ 32 }

-- The result is 0 on every branch; an unknown attribute only logs.
unfoldable pub set : RingBuffer → String → Pointee → ℕ × RingBuffer
unfolding set_buffer_addr set_buffer_len
set rbuf attrib value =
    if str_eq attrib "buffer_addr"
    then (0, set_buffer_addr rbuf value)
    else if str_eq attrib "buffer_len"
    then (0, set_buffer_len rbuf value)
    else (0, rbuf)

-- The block and its length stay as they are.
unfoldable pub init : RingBuffer → RingBuffer
init rbuf = record rbuf { write_index = 0; read_index = 0; rw_flag = rw_flag_init }

unfoldable pub is_full : RingBuffer → ℕ → Bool
is_full rbuf len =
    if ltb
      (add32 (sub32 rbuf.read_index rbuf.write_index) rbuf.buffer_len % add32 rbuf.buffer_len 1) len
    then true
    else rbuf.read_index == rbuf.write_index && is_write_flag rbuf.rw_flag

unfoldable pub is_null : RingBuffer → Bool
is_null rbuf = rbuf.read_index == rbuf.write_index && is_read_flag rbuf.rw_flag

-- The two copies of a write that goes round the end.
write_round : RingBuffer → List ℕ → ℕ → Option (ℕ × RingBuffer)
write_round rbuf value len = do
  let first_write_len = sub32 rbuf.buffer_len rbuf.write_index
  let residue = sub32 len first_write_len
  head_part ← load value 0 first_write_len
  block ← store rbuf.buffer_addr rbuf.write_index head_part
  tail_part ← load value first_write_len residue
  block' ← store block 0 tail_part
  some (len, record rbuf { buffer_addr = block'; write_index = residue; rw_flag = rw_flag_write })

write_straight : RingBuffer → List ℕ → ℕ → Option (ℕ × RingBuffer)
write_straight rbuf value len = do
  part ← load value 0 len
  block ← store rbuf.buffer_addr rbuf.write_index part
  some (
    len,
    record rbuf {
      buffer_addr = block;
      write_index = add32 rbuf.write_index len;
      rw_flag = rw_flag_write;
    },
  )

-- The result beside the new ring is what the function returns: 0 when the ring is full.
unfoldable pub write : RingBuffer → List ℕ → Option (ℕ × RingBuffer)
unfolding is_full write_round write_straight
write rbuf value = do
  head ← load value 0 4
  let len = le_value head
  if is_full rbuf len
      then some (0, rbuf)
      else if ltb rbuf.buffer_len (add32 rbuf.write_index len)
      then write_round rbuf value len
      else write_straight rbuf value len

read_round : RingBuffer → ℕ → Option (ℕ × List ℕ × RingBuffer)
read_round rbuf len = do
  let first_read_len = sub32 rbuf.buffer_len rbuf.read_index
  let residue = sub32 len first_read_len
  head_part ← load rbuf.buffer_addr rbuf.read_index first_read_len
  tail_part ← load rbuf.buffer_addr 0 residue
  some (len, head_part ++ tail_part, record rbuf { read_index = residue; rw_flag = rw_flag_read })

read_straight : RingBuffer → ℕ → Option (ℕ × List ℕ × RingBuffer)
read_straight rbuf len = do
  part ← load rbuf.buffer_addr rbuf.read_index len
  some (len, part, record rbuf { read_index = add32 rbuf.read_index len; rw_flag = rw_flag_read })

-- The list is what is copied to `value_out`. The length is read before the test for emptiness.
unfoldable pub read : RingBuffer → Option (ℕ × List ℕ × RingBuffer)
unfolding is_null read_round read_straight
read rbuf = do
  head ← load rbuf.buffer_addr rbuf.read_index 4
  let len = le_value head
  if is_null rbuf
      then some (0, [], rbuf)
      else if ltb rbuf.buffer_len (add32 rbuf.read_index len)
      then read_round rbuf len
      else read_straight rbuf len
