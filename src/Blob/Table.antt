-- ===== src/Blob/Table.antt =====
-- `blob_add_table_end` gives the table the length of all that was added since it was started.
use libcutils.Base.{ℕ, ◌+◌, ◌-◌, ◌%◌, ◌^◌, ◌≤◌, ◌<◌, ◌≡◌, refl, sym, ap, ◌∙◌, some, arith, length}
use libcutils.Base.Memory.{
  slice, overwrite, load-some, store-some, length-overwrite, slice-overwrite_self,
  slice-overwrite_before, slice-overwrite_after,
}
use libcutils.Base.Words.{
  be_bytes, be_value, le_bytes, le_value, length-be_bytes, be_value-be_bytes, le_value-le_bytes,
}
use libcutils.ArrayStack
use libcutils.ArrayStack.{ArrayStack}
use libcutils.Blob.{Blob, add_table_end, get_len, next}

-- With the start of a table on top of the stack, ending it makes the table's length reach to the end
-- of the blob, so that the attribute next to the table is the one at the tail; the bytes outside the
-- length field stay, and the stack is the popped one.
pub add_table_end_lem :
    (blob : Blob) (start : ℕ) (stack : ArrayStack)
    → ArrayStack.pop blob.tbl_stack ≡ some (ArrayStack.done, le_bytes 8 start, stack)
    → start + 3 ≤ blob.tail
    → blob.tail ≤ length blob.head
    → blob.tail < start + 2 ^ 16
    → start < 2 ^ 64
    → (blob' : Blob) × (add_table_end blob ≡ some blob')
      × (get_len blob'.head start ≡ some (blob.tail - start))
      × (next blob'.head start ≡ some blob.tail)
      × (slice blob'.head 0 (start + 1) ≡ slice blob.head 0 (start + 1))
      × ((n : ℕ) → slice blob'.head (start + 3) n ≡ slice blob.head (start + 3) n)
      × (blob'.tbl_stack ≡ stack)
unfolding add_table_end get_len next
add_table_end_lem blob start stack popped low high near small =
    let len = blob.tail - start in
    let x = be_bytes 2 len in
    let lx : length x ≡ 2 = length-be_bytes 2 len in
    let b = overwrite blob.head (start + 1) x in
    let lb : length b ≡ length blob.head =
      length-overwrite blob.head (start + 1) x (omega (arith, lx)) in
    let e : le_value (le_bytes 8 start) ≡ start = le_value-le_bytes 8 start small in
    let m : len % 2 ^ 16 ≡ len = omega arith in
    let r : be_value (slice b (start + 1) 2) ≡ len =
      ap be_value (slice-overwrite_self blob.head (start + 1) 2 x (omega arith) (sym lx))
      ∙ be_value-be_bytes 2 len (omega arith) in
    let l = load-some b (start + 1) 2 (omega (arith, lb)) in
    let s : start + len ≡ blob.tail = omega arith in
    (
      record blob { head = b; tbl_stack = stack },
      rw (popped, e, m, store-some blob.head (start + 1) x (omega (arith, lx))) refl,
      rw (l, r) refl,
      rw (l, r, s) refl,
      slice-overwrite_before blob.head (start + 1) x 0 (start + 1) (omega arith),
      (λ n.
          slice-overwrite_after blob.head (start + 1) x (start + 3) n (omega (arith, lx))
            (omega (arith, lx))),
      refl,
    )
