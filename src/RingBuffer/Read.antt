-- ===== src/RingBuffer/Read.antt =====
-- `rbuf_read`: the oldest message comes out, and the bytes behind it stay.
use libcutils.Base.{
  ℕ, ◌+◌, ◌-◌, ◌%◌, ◌^◌, ◌≤◌, ◌<◌, ◌≡◌, refl, sym, ap, ◌∙◌, false, List, ◌++◌, some, arith, length,
  length-append, take, drop, take-append, drop-append, take-append_le, drop-append_le,
  take-append_add, drop-append_add,
}
use libcutils.Base.Memory.{slice, load-some, length-slice, take-slice, drop-slice, slice-zero}
use native.Mathlib.Decide.{dec_le}
use libcutils.Base.Words.{le_value}
use libcutils.RingBuffer.{RingBuffer, rw_flag_read, is_null, read}
use libcutils.RingBuffer.Contents.{contents, IsValid, IsMessage}
use libcutils.RingBuffer.Space.{length-contents-space}

module _ (rbuf : RingBuffer) (len : ℕ) where
  open rbuf use {buffer_addr as buf, buffer_len as cap, read_index as r}

  abbrev pub straight : RingBuffer
  straight = record rbuf { read_index = r + len; rw_flag = rw_flag_read }

  abbrev round : RingBuffer
  round = record rbuf { read_index = len - (cap - r); rw_flag = rw_flag_read }

module _ (rbuf : RingBuffer) (v : IsValid rbuf) (len : ℕ) where
  open rbuf use {buffer_addr as buf, buffer_len as cap, write_index as w, read_index as r}

  module _ (head : le_value (slice buf r 4) ≡ len) (inside : r + 4 ≤ cap)
      (some_left : is_null rbuf ≡ false) where
    pub read-straight : r + len ≤ cap → read rbuf ≡ some (len, slice buf r len, straight rbuf len)
    unfolding read
    read-straight le = ground (arith, load-some buf r 4, head, load-some buf r len)

    read-round :
        cap < r + len
        → len ≤ cap
        → read rbuf
          ≡ some (len, slice buf r (cap - r) ++ slice buf 0 (len - (cap - r)), round rbuf len)
    unfolding read
    read-round lt le =
        let first = cap - r in
        let residue = len - first in
        let e : (cap + 2 ^ 32 - r) % 2 ^ 32 ≡ first = omega arith in
        let f : (len + 2 ^ 32 - first) % 2 ^ 32 ≡ residue = omega arith in
        ground
          (arith, e, f, load-some buf r 4, head, load-some buf r first, load-some buf 0 residue)

  module _ (some_left : is_null rbuf ≡ false) (pos : 0 < len)
      (held : len ≤ length (contents rbuf)) where
    take-contents-straight : r + len ≤ cap → take len (contents rbuf) ≡ slice buf r len
    unfolding contents
    take-contents-straight le = ground (
      arith,
      held,
      take-slice buf r (w - r) len,
      take-slice buf r (cap - r) len,
      length-slice buf r (w - r),
      length-slice buf r (cap - r),
      take-append_le len (slice buf r (cap - r)) (slice buf 0 w),
    )

    contents-straight : r + len ≤ cap → contents (straight rbuf len) ≡ drop len (contents rbuf)
    unfolding contents
    contents-straight le = ground (
      arith,
      held,
      drop-slice buf r (w - r) len (r + len) (w - (r + len)),
      drop-slice buf r (cap - r) len (r + len) (cap - (r + len)),
      length-slice buf r (w - r),
      length-slice buf r (cap - r),
      slice-zero buf (r + len),
      drop-append_le len (slice buf r (cap - r)) (slice buf 0 w),
    )

    take-contents-round :
        cap < r + len
        → take len (contents rbuf) ≡ slice buf r (cap - r) ++ slice buf 0 (len - (cap - r))
    unfolding contents
    take-contents-round lt = ground (
      arith,
      held,
      take-slice buf 0 w (len - (cap - r)),
      length-slice buf r (w - r),
      length-slice buf r (cap - r),
      length-slice buf 0 w,
      length-append (slice buf r (cap - r)) (slice buf 0 w),
      take-append_add (slice buf r (cap - r)) (slice buf 0 w) len (len - (cap - r)),
    )

    contents-round : cap < r + len → contents (round rbuf len) ≡ drop len (contents rbuf)
    unfolding contents
    contents-round lt = ground (
      arith,
      held,
      drop-slice buf 0 w (len - (cap - r)) (len - (cap - r)) (w - (len - (cap - r))),
      length-slice buf r (w - r),
      length-slice buf r (cap - r),
      length-slice buf 0 w,
      slice-zero buf (len - (cap - r)),
      length-append (slice buf r (cap - r)) (slice buf 0 w),
      drop-append_add (slice buf r (cap - r)) (slice buf 0 w) len (len - (cap - r)),
    )

    round_lt : cap < r + len → len - (cap - r) ≤ cap
    unfolding contents
    round_lt lt = ground (
      arith,
      held,
      length-slice buf r (w - r),
      length-slice buf r (cap - r),
      length-slice buf 0 w,
      length-append (slice buf r (cap - r)) (slice buf 0 w),
    )

is_null_of_contents : (rbuf : RingBuffer) → 0 < length (contents rbuf) → is_null rbuf ≡ false
unfolding contents is_null
is_null_of_contents rbuf h = ground arith

pub take-slice_whole : (m : List ℕ) → take 4 m ≡ slice m 0 4
unfolding slice
take-slice_whole m = refl

-- When the bytes held begin with a message whose length stands whole before the end of the
-- block, exactly that message is copied out, its length is returned, and the rest stays.
pub read_takes :
    (rbuf : RingBuffer) (m rest : List ℕ)
    → IsValid rbuf
    → IsMessage m
    → contents rbuf ≡ m ++ rest
    → rbuf.read_index + 4 ≤ rbuf.buffer_len
    → (rbuf' : RingBuffer) × (read rbuf ≡ some (length m, m, rbuf'))
      × (contents rbuf' ≡ rest)
      × IsValid rbuf'
read_takes rbuf m rest v k e inside = elim (dec_le (r + length m) cap) [
  | yes p ↦ (
    straight rbuf (length m),
    read-straight rbuf v (length m) head inside some_left p
        ∙ ap (λ x. some (length m, x, straight rbuf (length m)))
            (sym (take-contents-straight rbuf v (length m) some_left pos held p) ∙ taken),
    contents-straight rbuf v (length m) some_left pos held p ∙ dropped,
    omega arith,
  )
  | no p ↦
      let lt : cap < r + length m = omega arith in
      (
        round rbuf (length m),
        read-round rbuf v (length m) head inside some_left lt small
            ∙ ap (λ x. some (length m, x, round rbuf (length m)))
                (sym (take-contents-round rbuf v (length m) some_left pos held lt) ∙ taken),
        contents-round rbuf v (length m) some_left pos held lt ∙ dropped,
        omega (arith, round_lt rbuf v (length m) some_left pos held lt),
      )
]
  where
    open rbuf use {buffer_addr as buf, buffer_len as cap, read_index as r}

    pos : 0 < length m
    pos = omega (arith, k.has_head)

    total : length (contents rbuf) ≡ length m + length rest
    total = ap length e ∙ length-append m rest

    held : length m ≤ length (contents rbuf)
    held = omega (arith, total)

    small : length m ≤ cap
    small = omega (arith, total, length-contents-space rbuf v)

    some_left : is_null rbuf ≡ false
    some_left = is_null_of_contents rbuf (omega (arith, total, pos))

    taken : take (length m) (contents rbuf) ≡ m
    taken = ap (take (length m)) e ∙ take-append m rest

    dropped : drop (length m) (contents rbuf) ≡ rest
    dropped = ap (drop (length m)) e ∙ drop-append m rest

    head : le_value (slice buf r 4) ≡ length m
    head =
        ap le_value (
          sym (
            take-contents-straight rbuf v 4 some_left (omega arith)
              (omega (arith, held, k.has_head)) inside)
          ∙ (ap (take 4) e ∙ take-append_le 4 m rest k.has_head ∙ take-slice_whole m))
        ∙ k.length_lem
