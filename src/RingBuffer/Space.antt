-- ===== src/RingBuffer/Space.antt =====
-- The room that a ring has left, against the test that `rbuf_write` makes.
use libcutils.Base.{
  ℕ, ◌+◌, ◌-◌, ◌%◌, ◌≤◌, ◌<◌, ◌≡◌, ◌&&◌, arith, length, length-append, ltb, ◌==◌, if◌then◌else◌,
  leb,
}
use libcutils.Base.Memory.{slice, length-slice}
use native.Mathlib.Nat.{mod-eq_of_lt, mod-eq-sub-mod}
use native.Mathlib.Decide.{dec_lt}
use libcutils.Base.Words.{add32, sub32}
use libcutils.RingBuffer.{RingBuffer, is_write_flag, is_full}
use libcutils.RingBuffer.Contents.{contents, IsValid}

-- The longest message that a ring takes: one byte less than is free once the writer went round.
unfoldable pub space : RingBuffer → ℕ
space rbuf =
    if r == w && is_write_flag rbuf.rw_flag
    then 0
    else if leb r w
    then rbuf.buffer_len - (w - r)
    else r - w - 1
  where
    open rbuf use {read_index as r, write_index as w}

module _ (rbuf : RingBuffer) (v : IsValid rbuf) where
  open rbuf use {buffer_len as cap, write_index as w, read_index as r}

  distance : add32 (sub32 r w) cap % add32 cap 1 ≡ (if leb r w then cap - (w - r) else r - w - 1)
  distance = elim (dec_lt w r) [
    | yes p ↦
        let e : add32 (sub32 r w) cap ≡ r - w + cap = omega arith in
        let f : add32 cap 1 ≡ cap + 1 = omega arith in
        ground (
          arith,
          e,
          f,
          mod-eq-sub-mod {n = r - w + cap} {m = cap + 1} (omega arith),
          mod-eq_of_lt {n = r - w + cap - (cap + 1)} {m = cap + 1} (omega arith),
        )
    | no p ↦
        let e : add32 (sub32 r w) cap ≡ cap - (w - r) = omega arith in
        let f : add32 cap 1 ≡ cap + 1 = omega arith in
        ground (arith, e, f, mod-eq_of_lt {n = cap - (w - r)} {m = cap + 1} (omega arith))
  ]

  pub is_full-space : (len : ℕ) → 0 < len → is_full rbuf len ≡ ltb (space rbuf) len
  unfolding is_full space
  is_full-space len h = ground (arith, distance)

  -- The bytes held and the room left make up the block, or all of it but one byte.
  pub length-contents-space :
      (length (contents rbuf) + space rbuf ≤ cap) × (cap ≤ length (contents rbuf) + space rbuf + 1)
  unfolding contents space
  length-contents-space = ground (
    arith,
    length-slice rbuf.buffer_addr r (w - r),
    length-slice rbuf.buffer_addr r (cap - r),
    length-slice rbuf.buffer_addr 0 w,
    length-append (slice rbuf.buffer_addr r (cap - r)) (slice rbuf.buffer_addr 0 w),
  )
