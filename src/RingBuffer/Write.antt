-- ===== src/RingBuffer/Write.antt =====
-- `rbuf_write`: what it accepts, and what it leaves in the ring.
use libcutils.Base.{ℕ, ◌+◌, ◌-◌, ◌%◌, ◌^◌, ◌≤◌, ◌<◌, ◌≡◌, true, false, List, some, arith, length}
use libcutils.Base.Memory.{
  slice, overwrite, load-some, store-some, length-slice, length-overwrite, slice-whole,
}
use libcutils.RingBuffer.{RingBuffer, rw_flag_write, is_full, write}
use libcutils.RingBuffer.Contents.{IsValid, IsMessage}

module _ (rbuf : RingBuffer) (m : List ℕ) where
  open rbuf use {buffer_addr as buf, buffer_len as cap, write_index as w}

  -- The ring after a write that does not reach the end, and after one that goes round it.
  abbrev pub straight : RingBuffer
  straight = record rbuf {
    buffer_addr = overwrite buf w m;
    write_index = w + length m;
    rw_flag = rw_flag_write;
  }

  abbrev pub first : ℕ
  first = cap - w

  abbrev pub residue : ℕ
  residue = length m - first

  abbrev pub round : RingBuffer
  round = record rbuf {
    buffer_addr = overwrite (overwrite buf w (slice m 0 first)) 0 (slice m first residue);
    write_index = residue;
    rw_flag = rw_flag_write;
  }

module _ (rbuf : RingBuffer) (v : IsValid rbuf) (m : List ℕ) (k : IsMessage m) where
  open rbuf use {buffer_addr as buf, buffer_len as cap, write_index as w, read_index as r}

  pub write-full : is_full rbuf (length m) ≡ true → write rbuf m ≡ some (0, rbuf)
  unfolding write
  write-full h = ground (arith, load-some m 0 4, k.length_lem)

  pub write-straight :
      is_full rbuf (length m) ≡ false
      → w + length m ≤ cap
      → write rbuf m ≡ some (length m, straight rbuf m)
  unfolding write
  write-straight h le = ground (
    arith,
    load-some m 0 4,
    k.length_lem,
    load-some m 0 (length m),
    slice-whole m,
    store-some buf w m,
  )

  pub write-round :
      is_full rbuf (length m) ≡ false
      → cap < w + length m
      → length m ≤ cap
      → write rbuf m ≡ some (length m, round rbuf m)
  unfolding write
  write-round h lt le =
      let first = cap - w in
      let residue = length m - first in
      let e : (cap + 2 ^ 32 - w) % 2 ^ 32 ≡ first = omega arith in
      let f : (length m + 2 ^ 32 - first) % 2 ^ 32 ≡ residue = omega arith in
      ground (
        arith,
        e,
        f,
        load-some m 0 4,
        k.length_lem,
        load-some m 0 first,
        load-some m first residue,
        length-slice m 0 first,
        length-slice m first residue,
        store-some buf w (slice m 0 first),
        length-overwrite buf w (slice m 0 first),
        store-some (overwrite buf w (slice m 0 first)) 0 (slice m first residue),
      )
