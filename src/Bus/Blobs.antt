-- ===== src/Bus/Blobs.antt =====
-- What a blob keeps of its bytes when attributes and tables are added.
use mathlib.Core.Option.{some-injective}
use libcutils.Base.{
  ℕ, ◌+◌, ◌-◌, ◌%◌, ◌^◌, ◌<◌, ◌≤◌, ◌≡◌, refl, sym, ap, ◌∙◌, [], ◌∷◌, ◌++◌, Bool, true, false,
  Option, none, some, leb, leb→le, if◌then◌else◌, arith, length, take, drop, take-append,
  none_or_some,
}
use libcutils.Base.Monad.{◌>>=◌, bind_some}
use libcutils.Base.Memory.{
  load, store, slice, overwrite, overwrite-nil, take-slice, drop-slice, slice-whole, length-slice,
}
use libcutils.Base.Words.{be_bytes, le_bytes, length-le_bytes}
use libcutils.ArrayStack
use libcutils.ArrayStack.{ArrayStack, done}
use libcutils.ArrayStack.Refine.{IsValid, push-pop}
use libcutils.Blob
use libcutils.Blob.{Blob, Bytes, put_value, type_code, table, string}
use libcutils.Blob.Encode.{attr_len, encode, contents}
use libcutils.Blob.Append.{add_lem}

granted :
    {A : Type 0} (t : Bool) (y x : A) → (if t then some y else none) ≡ some x → (t ≡ true) × (y ≡ x)
granted true y x h = (refl, some-injective y x h)
granted false y x h = absurd (none_or_some x h)

put_value-nil :
    (head filled : Bytes) (at : ℕ) → put_value head at (some []) 0 ≡ some filled → head ≡ filled
unfolding put_value load store slice
put_value-nil head filled at h =
    sym (overwrite-nil head at)
    ∙ (granted (leb (at + 0) (length head)) (overwrite head at []) filled h).1

pub load_inside :
    (b cells : Bytes) (o n : ℕ)
    → load b o n ≡ some cells
    → (o + n ≤ length b) × (slice b o n ≡ cells)
unfolding load
load_inside b cells o n h =
    let (inside, same) = granted (leb (o + n) (length b)) (slice b o n) cells h in
    (leb→le (o + n) (length b) inside, same)

-- An attribute without a value, as the start of a table is.
add-none :
    (blob : Blob) (type : ℕ) (name : Bytes) (r : ℕ × Blob)
    → Blob.add blob type name (some []) 0 ≡ some r
    → Blob.add blob type name none 0 ≡ some r
unfolding Blob.add put_value
add-none blob type name r h =
    let name_len = (length name + 1) % 2 ^ 16 in
    let attr_len = (5 + name_len + 0) % 2 ^ 16 in
    let last = λ (filled : Bytes).
      store filled (blob.tail + 1) (be_bytes 2 attr_len)
      >>= (λ head. some (attr_len, record blob { head = head; tail = blob.tail + attr_len })) in
    let fill = λ (named : Bytes). put_value named (blob.tail + 5 + name_len) (some []) 0 >>= last in
    let put_name =
      λ (sized : Bytes). store sized (blob.tail + 5) (take name_len (name ++ (0 ∷ []))) >>= fill in
    let put_size =
      λ (typed : Bytes). store typed (blob.tail + 3) (be_bytes 2 name_len) >>= put_name in
    let (typed, e₁, h₁) = bind_some (store blob.head blob.tail ((type % 256) ∷ [])) put_size r h in
    let (sized, e₂, h₂) =
      bind_some (store typed (blob.tail + 3) (be_bytes 2 name_len)) put_name r h₁ in
    let (named, e₃, h₃) =
      bind_some (store sized (blob.tail + 5) (take name_len (name ++ (0 ∷ [])))) fill r h₂ in
    let (filled, e₄, h₄) =
      bind_some (put_value named (blob.tail + 5 + name_len) (some []) 0) last r h₃ in
    rw (e₁, e₂, e₃) (ap last (put_value-nil named filled (blob.tail + 5 + name_len) e₄) ∙ h₄)

-- Bytes that a longer run has in common.
pub slice_within :
    (h h' : Bytes) (n o k : ℕ)
    → slice h 0 n ≡ slice h' 0 n
    → o + k ≤ n
    → n ≤ length h
    → n ≤ length h'
    → slice h o k ≡ slice h' o k
slice_within h h' n o k same inside l l' =
    sym (part h l) ∙ ap (λ t. take k (drop o t)) same ∙ part h' l'
  where
    part : (b : Bytes) → n ≤ length b → take k (drop o (slice b 0 n)) ≡ slice b o k
    part b room =
        ap (take k) (
          drop-slice b 0 n o o (n - o) (omega (arith, inside)) (omega (arith, room)) (omega arith)
            (omega (arith, inside)))
        ∙ take-slice b o (n - o) k (omega (arith, inside)) (omega (arith, inside, room))

-- A blob that grows keeps what it held.
pub grown :
    (b b' : Blob) (x : Bytes)
    → b.tail ≤ length b.head
    → b'.tail ≤ length b'.head
    → b.tail ≤ b'.tail
    → contents b' ≡ contents b ++ x
    → slice b'.head 0 b.tail ≡ slice b.head 0 b.tail
unfolding contents
grown b b' x room room' more same =
    let own : length (slice b.head 0 b.tail) ≡ b.tail =
      length-slice b.head 0 b.tail (omega (arith, room)) in
    sym (take-slice b'.head 0 b'.tail b.tail more (omega (arith, room')))
    ∙ ap (take b.tail) same
    ∙ ap (λ n. take n (slice b.head 0 b.tail ++ x)) (sym own)
    ∙ take-append (slice b.head 0 b.tail) x

-- The stack of open tables is not touched by an attribute.
pub add_stack :
    (blob : Blob) (type : ℕ) (name : Bytes) (value : Option Bytes) (value_len n : ℕ) (b' : Blob)
    → Blob.add blob type name value value_len ≡ some (n, b')
    → b'.tbl_stack ≡ blob.tbl_stack
unfolding Blob.add
add_stack blob type name value value_len n b' h =
    let name_len = (length name + 1) % 2 ^ 16 in
    let attr_len = (5 + name_len + value_len) % 2 ^ 16 in
    let end =
      λ (head : Bytes). some (attr_len, record blob { head = head; tail = blob.tail + attr_len }) in
    let last = λ (filled : Bytes). store filled (blob.tail + 1) (be_bytes 2 attr_len) >>= end in
    let fill =
      λ (named : Bytes). put_value named (blob.tail + 5 + name_len) value value_len >>= last in
    let put_name =
      λ (sized : Bytes). store sized (blob.tail + 5) (take name_len (name ++ (0 ∷ []))) >>= fill in
    let put_size =
      λ (typed : Bytes). store typed (blob.tail + 3) (be_bytes 2 name_len) >>= put_name in
    let r : ℕ × Blob = (n, b') in
    let (typed, e₁, h₁) = bind_some (store blob.head blob.tail ((type % 256) ∷ [])) put_size r h in
    let (sized, e₂, h₂) =
      bind_some (store typed (blob.tail + 3) (be_bytes 2 name_len)) put_name r h₁ in
    let (named, e₃, h₃) =
      bind_some (store sized (blob.tail + 5) (take name_len (name ++ (0 ∷ [])))) fill r h₂ in
    let (filled, e₄, h₄) =
      bind_some (put_value named (blob.tail + 5 + name_len) value value_len) last r h₃ in
    let (head, e₅, h₅) = bind_some (store filled (blob.tail + 1) (be_bytes 2 attr_len)) end r h₄ in
    sym (
      ap (λ (x : ℕ × Blob). x.1.tbl_stack)
        (some-injective (attr_len, record blob { head = head; tail = blob.tail + attr_len }) r h₅))

-- The start of a table.
pub start_table :
    (b : Blob) (name : Bytes)
    → IsValid b.tbl_stack
    → b.tbl_stack.step ≡ 8
    → b.tbl_stack.cur + 8 < b.tbl_stack.size
    → b.tail + attr_len name [] ≤ length b.head
    → attr_len name [] < 2 ^ 16
    → (b' : Blob) × (stack : ArrayStack) × (Blob.add_table_start b name
        ≡ some (attr_len name [], b'))
      × (b'.tail ≡ b.tail + attr_len name [])
      × (length b'.head ≡ length b.head)
      × (slice b'.head 0 b.tail ≡ slice b.head 0 b.tail)
      × (ArrayStack.pop b'.tbl_stack ≡ some (done, le_bytes 8 b.tail, stack))
unfolding Blob.add_table_start
start_table b name valid step place room small =
    let start = le_bytes 8 b.tail in
    let width = length-le_bytes 8 b.tail in
    let (pushed, popped, push, valid', held, pop, left, valid₂) =
      push-pop b.tbl_stack start valid (omega (arith, step, place)) (omega (arith, step, width)) in
    let whole : slice start 0 b.tbl_stack.step ≡ start =
      ap (slice start 0) (step ∙ sym width) ∙ slice-whole start in
    let b₀ = record b { tbl_stack = pushed } in
    let (b', run, more, tail, size) = add_lem b₀ (type_code table) name [] room small in
    (
      b',
      popped,
      rw push (add-none b₀ (type_code table) name (attr_len name [], b') run),
      tail,
      size,
      grown b₀ b' (encode (type_code table) name []) (omega (arith, room))
          (omega (arith, room, tail, size)) (omega (arith, tail)) more,
      ap ArrayStack.pop (add_stack b₀ (type_code table) name (some []) 0 (attr_len name []) b' run)
          ∙ pop
          ∙ ap (λ x. some (done, x, popped)) whole,
    )
