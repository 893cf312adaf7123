-- ===== src/RingBuffer/Faults.antt =====
-- Two states in which `rbuf_read` goes wrong: a ring that was never written, and one whose reader
-- stands at the end of the block.
use libcutils.Base.{
  ℕ, ◌+◌, ◌^◌, ◌≤◌, ◌<◌, ◌≡◌, refl, sym, ap, ◌∙◌, List, [], none, some, arith, length, take,
}
use libcutils.Base.Memory.{
  slice, overwrite, load-some, load-none, length-overwrite, slice-overwrite_self, take-slice,
}
use libcutils.Base.Words.{le_value}
use libcutils.RingBuffer.{RingBuffer, rw_flag_read, init, is_null, read, write}
use libcutils.RingBuffer.Contents.{contents, IsValid, IsMessage}
use libcutils.RingBuffer.Space.{space, is_full-space}
use libcutils.RingBuffer.Write.{straight, write-straight}
use libcutils.RingBuffer.Read
use libcutils.RingBuffer.Read.{take-slice_whole}

-- An initialised ring holds nothing, yet a read of it copies out as many bytes of the block as its
-- first word happens to say, whenever that number is not larger than the ring.
pub read-init :
    (rbuf : RingBuffer)
    → rbuf.buffer_len < 2 ^ 31
    → rbuf.buffer_len ≤ length rbuf.buffer_addr
    → 4 ≤ rbuf.buffer_len
    → le_value (slice rbuf.buffer_addr 0 4) ≤ rbuf.buffer_len
    → let n = le_value (slice rbuf.buffer_addr 0 4) in
      (contents (init rbuf) ≡ [])
      × (read (init rbuf)
          ≡ some (
            n,
            slice rbuf.buffer_addr 0 n,
            record (init rbuf) { read_index = n; rw_flag = rw_flag_read },
          ))
unfolding init read contents
read-init rbuf small storage word fits = (
  ground arith,
  ground (
    arith,
    load-some rbuf.buffer_addr 0 4,
    load-some rbuf.buffer_addr 0 (le_value (slice rbuf.buffer_addr 0 4)),
  ),
)

-- A read whose reader stands fewer than four bytes before the end of the block faults.
read-eq-none :
    (rbuf : RingBuffer) → length rbuf.buffer_addr < rbuf.read_index + 4 → read rbuf ≡ none
unfolding read
read-eq-none rbuf h = ground (arith, load-none rbuf.buffer_addr rbuf.read_index 4)

-- A message as long as the block is written and read back, and the next read of the emptied ring
-- reads its length from behind the block.
pub fill_drain_faults :
    (rbuf : RingBuffer) (m : List ℕ)
    → rbuf.buffer_len ≡ length rbuf.buffer_addr
    → rbuf.buffer_len < 2 ^ 31
    → IsMessage m
    → length m ≡ rbuf.buffer_len
    → (sent : RingBuffer) × (drained : RingBuffer) × (write (init rbuf) m ≡ some (length m, sent))
      × (read sent ≡ some (length m, m, drained))
      × (contents drained ≡ [])
      × (read drained ≡ none)
unfolding init space contents
fill_drain_faults rbuf m e small k full = (
  sent,
  Read.straight sent (length m),
  write-straight (init rbuf) valid m k (ground (arith, is_full-space (init rbuf) valid (length m)))
      (omega arith),
  Read.read-straight sent valid' (length m) head (omega (arith, k.has_head))
        (unfold is_null in ground (arith)) (omega arith)
      ∙ ap (λ x. some (length m, x, Read.straight sent (length m))) whole,
  ground arith,
  read-eq-none (Read.straight sent (length m))
      (omega (arith, length-overwrite rbuf.buffer_addr 0 m)),
)
  where
    sent : RingBuffer
    sent = straight (init rbuf) m

    valid : IsValid (init rbuf)
    valid = omega arith

    valid' : IsValid sent
    valid' = omega (arith, length-overwrite rbuf.buffer_addr 0 m)

    whole : slice (overwrite rbuf.buffer_addr 0 m) 0 (length m) ≡ m
    whole = slice-overwrite_self rbuf.buffer_addr 0 (length m) m (omega arith) refl

    head : le_value (slice (overwrite rbuf.buffer_addr 0 m) 0 4) ≡ length m
    head =
        ap le_value (
          sym (
            take-slice (overwrite rbuf.buffer_addr 0 m) 0 (length m) 4 k.has_head
              (omega (arith, length-overwrite rbuf.buffer_addr 0 m)))
          ∙ ap (take 4) whole
          ∙ take-slice_whole m)
        ∙ k.length_lem
