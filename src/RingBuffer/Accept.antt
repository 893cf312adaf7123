-- ===== src/RingBuffer/Accept.antt =====
-- What `rbuf_write` leaves in the ring, as a queue of bytes.
use libcutils.Base.{
  ℕ, ◌+◌, ◌-◌, ◌≤◌, ◌<◌, ◌≡◌, false, List, ◌++◌, some, arith, length, append_assoc,
}
use libcutils.Base.Memory.{
  slice, overwrite, length-slice, slice-append, length-overwrite, slice-overwrite_self,
  slice-overwrite_before, slice-overwrite_after, slice-whole,
}
use native.Mathlib.Decide.{dec_le}
use libcutils.RingBuffer.{RingBuffer, is_full, write}
use libcutils.RingBuffer.Contents.{contents, IsValid, IsMessage}
use libcutils.RingBuffer.Space.{space, is_full-space, length-contents-space}
use libcutils.RingBuffer.Write.{straight, round, write-straight, write-round, write-full}

module _ (rbuf : RingBuffer) (v : IsValid rbuf) (m : List ℕ) (k : IsMessage m)
    (room : length m ≤ space rbuf) where
  open rbuf use {buffer_addr as buf, buffer_len as cap, write_index as w, read_index as r}

  contents-straight : w + length m ≤ cap → contents (straight rbuf m) ≡ contents rbuf ++ m
  unfolding contents space
  contents-straight le =
      let b : List ℕ = overwrite buf w m in
      ground (
        arith,
        room,
        slice-overwrite_self buf w (length m) m,
        slice-append b r (w - r) (length m) w (w + length m - r),
        slice-append b 0 w (length m) w (w + length m),
        slice-overwrite_before buf w m r (w - r),
        slice-overwrite_before buf w m 0 w,
        slice-overwrite_after buf w m r (cap - r),
        append_assoc (slice buf r (cap - r)) (slice buf 0 w) m,
      )

  contents-round : cap < w + length m → contents (round rbuf m) ≡ contents rbuf ++ m
  unfolding contents space
  contents-round lt =
      let first = cap - w in
      let residue = length m - first in
      let x = slice m 0 first in
      let y = slice m first residue in
      let b : List ℕ = overwrite buf w x in
      let lx : length x ≡ first = length-slice m 0 first (ground arith) in
      let ly : length y ≡ residue = length-slice m first residue (ground arith) in
      ground (
        arith,
        room,
        lx,
        ly,
        slice-append m 0 first residue first (length m),
        slice-whole m,
        slice-append b r (w - r) first w (cap - r),
        length-overwrite buf w x,
        slice-overwrite_self buf w first x,
        slice-overwrite_before buf w x r (w - r),
        slice-overwrite_self b 0 residue y,
        slice-overwrite_after b 0 y r (cap - r),
        append_assoc (slice buf r (w - r)) x y,
      )

  round-IsValid : length m ≤ cap → cap < w + length m → IsValid (round rbuf m)
  round-IsValid le lt =
      let x = slice m 0 (cap - w) in
      let y = slice m (cap - w) (length m - (cap - w)) in
      omega (
        arith,
        length-slice m 0 (cap - w),
        length-slice m (cap - w) (length m - (cap - w)),
        length-overwrite buf w x,
        length-overwrite (overwrite buf w x) 0 y,
      )

-- A message that fits is appended to the bytes held, its length is returned, and the ring stays
-- valid.
pub write_accepts :
    (rbuf : RingBuffer) (m : List ℕ)
    → IsValid rbuf
    → IsMessage m
    → length m ≤ space rbuf
    → (rbuf' : RingBuffer) × (write rbuf m ≡ some (length m, rbuf'))
      × (contents rbuf' ≡ contents rbuf ++ m)
      × IsValid rbuf'
write_accepts rbuf m v k room = elim (dec_le (w + length m) cap) [
  | yes p ↦ (
    straight rbuf m,
    write-straight rbuf v m k full p,
    contents-straight rbuf v m k room p,
    omega (arith, length-overwrite rbuf.buffer_addr w m),
  )
  | no p ↦ (
    round rbuf m,
    write-round rbuf v m k full (omega arith) small,
    contents-round rbuf v m k room (omega arith),
    round-IsValid rbuf v m k room small (omega arith),
  )
]
  where
    open rbuf use {buffer_len as cap, write_index as w}

    full : is_full rbuf (length m) ≡ false
    full = ground (arith, is_full-space rbuf v (length m))

    small : length m ≤ cap
    small = omega (arith, length-contents-space rbuf v)

-- A message that does not fit changes nothing, and the result is 0.
pub write_refuses :
    (rbuf : RingBuffer) (m : List ℕ)
    → IsValid rbuf
    → IsMessage m
    → space rbuf < length m
    → write rbuf m ≡ some (0, rbuf)
write_refuses rbuf m v k h = write-full rbuf v m k (ground (arith, is_full-space rbuf v (length m)))
