-- ===== src/Bus/Resend.antt =====
-- A request of a client whose blob holds an earlier one.
use mathlib.Core.Option.{some-injective}
use libcutils.Base.{
  ℕ, ◌+◌, ◌-◌, ◌%◌, ◌^◌, ◌<◌, ◌≤◌, ◌≡◌, refl, ap, ◌∙◌, [], ◌∷◌, ◌++◌, true, some, leb, le→leb,
  arith, length, length-append,
}
use libcutils.Base.Monad.{bind_some}
use libcutils.Base.Memory.{load, slice, load-some}
use libcutils.Base.Words.{be_value}
use libcutils.ArrayStack
use libcutils.ArrayStack.{ArrayStack, done}
use libcutils.ArrayStack.Refine.{IsValid}
use libcutils.Blob
use libcutils.Blob.{Blob, Bytes, put_value, type_code, table, string}
use libcutils.Blob.Encode.{attr_len, encode}
use libcutils.Blob.Append.{add_lem}
use libcutils.Blob.Table.{add_table_end_lem}
use libcutils.HashMap.Chain.{Hlist}
use libcutils.Bus.{Bus, header, req_lookup, message, lookup}
use libcutils.Bus.Blobs.{load_inside, slice_within, grown, add_stack, start_table}

abbrev lookup_name : Bytes
lookup_name = 108 ∷ 111 ∷ 111 ∷ 107 ∷ 117 ∷ 112 ∷ []

abbrev object_name : Bytes
object_name = 111 ∷ 98 ∷ 106 ∷ 101 ∷ 99 ∷ 116 ∷ 95 ∷ 110 ∷ 97 ∷ 109 ∷ 101 ∷ []

front_len :
    (h : Bytes) (len : ℕ)
    → Blob.get_len h 0 ≡ some len
    → (3 ≤ length h) × (be_value (slice h 1 2) ≡ len)
unfolding Blob.get_len
front_len h len front =
    let (cells, run, value) = bind_some (load h 1 2) (λ cells. some (be_value cells)) len front in
    let (inside, same) = load_inside h cells 1 2 run in
    (inside, ap be_value same ∙ some-injective (be_value cells) len value)

get_len_inside : (h : Bytes) (at len : ℕ) → Blob.get_len h at ≡ some len → at + 3 ≤ length h
unfolding Blob.get_len
get_len_inside h at len found =
    let (cells, run, value) =
      bind_some (load h (at + 1) 2) (λ cells. some (be_value cells)) len found in
    omega (arith, (load_inside h cells (at + 1) 2 run).0)

get_len_front :
    (h : Bytes) (len : ℕ)
    → 3 ≤ length h
    → be_value (slice h 1 2) ≡ len
    → Blob.get_len h 0 ≡ some len
unfolding Blob.get_len
get_len_front h len inside value = rw (load-some h 1 2 inside) (ap (λ x. some x) value)

message_front :
    (type len : ℕ) (h : Bytes)
    → Blob.get_len h 0 ≡ some len
    → len ≤ length h
    → len ≤ 1014
    → message 1024 type h ≡ some (header type ++ slice h 0 len)
unfolding message
message_front type len h front inside fits =
    let room : leb (10 + len) 1024 ≡ true = le→leb (10 + len) 1024 (omega (arith, fits)) in
    rw (front, load-some h 0 len (omega (arith, inside)), room) refl

-- A client whose blob and stack of open tables have room, and whose blob begins with an attribute of at
-- most 1014 bytes that it holds whole, asks with the bytes of that attribute whatever name it looks up, and
-- its blob begins with it still: what an earlier request left there is sent again.
pub lookup_resends :
    {api : Hlist} (bus : Bus api) (key : Bytes) (len : ℕ)
    → Blob.get_len bus.blob.head 0 ≡ some len
    → len ≤ bus.blob.tail
    → 3 ≤ bus.blob.tail
    → len ≤ 1014
    → IsValid bus.blob.tbl_stack
    → bus.blob.tbl_stack.step ≡ 8
    → bus.blob.tbl_stack.cur + 8 < bus.blob.tbl_stack.size
    → bus.blob.tail + length key + 31 ≤ length bus.blob.head
    → length bus.blob.head < 2 ^ 16
    → (bus' : Bus api) × (lookup bus key
        ≡ some (header req_lookup ++ slice bus.blob.head 0 len, bus'))
      × (Blob.get_len bus'.blob.head 0 ≡ some len)
      × (slice bus'.blob.head 0 len ≡ slice bus.blob.head 0 len)
unfolding lookup message Blob.add_string
lookup_resends bus key len front held low fits valid step place room small =
    let b = bus.blob in
    let (b₁, stack, run₁, tail₁, size₁, same₁, pop₁) =
      start_table b lookup_name valid step place (omega (arith, room)) (omega arith) in
    let value = key ++ 0 ∷ [] in
    let longer : length value ≡ length key + 1 = length-append key (0 ∷ []) in
    let (b₂, run₂, more₂, tail₂, size₂) =
      add_lem b₁ (type_code string) object_name value (omega (arith, room, tail₁, size₁, longer))
        (omega (arith, room, small, longer)) in
    let pop₂ =
      ap ArrayStack.pop (
        add_stack b₁ (type_code string) object_name (some value) (length value)
          (attr_len object_name value) b₂ run₂)
      ∙ pop₁ in
    let (b₃, run₃, own, next, same₃, behind, left) =
      add_table_end_lem b₂ b.tail stack pop₂ (omega (arith, tail₁, tail₂))
        (omega (arith, room, tail₁, tail₂, size₁, size₂, longer))
        (omega (arith, room, small, tail₁, tail₂, longer)) (omega (arith, room, small)) in
    let size₃ = get_len_inside b₃.head b.tail (b₂.tail - b.tail) own in
    let same₂ =
      grown b₁ b₂ (encode (type_code string) object_name value) (omega (arith, room, tail₁, size₁))
        (omega (arith, room, tail₁, tail₂, size₁, size₂, longer)) (omega (arith, tail₂)) more₂ in
    let same : slice b₃.head 0 b.tail ≡ slice b.head 0 b.tail =
      slice_within b₃.head b₂.head (b.tail + 1) 0 b.tail same₃ (omega arith) (omega (arith, size₃))
        (omega (arith, room, size₁, size₂))
      ∙ slice_within b₂.head b₁.head b₁.tail 0 b.tail same₂ (omega (arith, tail₁))
          (omega (arith, room, tail₁, size₁, size₂)) (omega (arith, room, tail₁, size₁))
      ∙ same₁ in
    let part = λ (o k : ℕ) (inside : o + k ≤ b.tail).
      slice_within b₃.head b.head b.tail o k same inside (omega (arith, size₃))
        (omega (arith, room)) in
    let front₃ =
      get_len_front b₃.head len (omega (arith, low, size₃))
        (ap be_value (part 1 2 low) ∙ (front_len b.head len front).1) in
    let sent =
      message_front req_lookup len b₃.head front₃ (omega (arith, held, size₃)) fits
      ∙ ap (λ x. some (header req_lookup ++ x)) (part 0 len (omega (arith, held))) in
    let string_len : (length key + 1) % 2 ^ 16 ≡ length value =
      omega (arith, room, small, longer) in
    let run₂' = ap (Blob.add b₁ (type_code string) object_name (some value)) string_len ∙ run₂ in
    (
      record bus { blob = b₃ },
      rw (run₁, run₂', run₃, sent) refl,
      front₃,
      part 0 len (omega (arith, held)),
    )
