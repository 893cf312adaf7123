-- ===== src/Blob/Read.antt =====
-- Reading an attribute back: its length, its name, the next attribute, and its value.
use libcutils.Base.{
  ℕ, ◌+◌, ◌-◌, ◌*◌, ◌/◌, ◌%◌, ◌^◌, ◌≤◌, ◌<◌, ◌≡◌, refl, sym, ap, ◌∙◌, [], ◌∷◌, ◌++◌, some, arith,
  length, take, drop, length-append, take-append, drop-append_add, append_assoc,
}
use libcutils.Base.Memory.{slice, load-some, length-slice, slice-whole, take-slice, drop-slice}
use libcutils.Base.Words.{be_bytes, be_value, length-be_bytes, be_value-be_bytes}
use libcutils.Blob.{
  Blob, Bytes, type_code, int8, int16, int32, add, add_u8, add_u16, add_u32, get_len, get_name_len,
  next, get_data, get_data_len, get_uint,
}
use libcutils.Blob.Encode.{attr_len, body, encode, contents}
use libcutils.Blob.Append.{add_lem}

-- The encoding of an attribute stands at an offset of a block.
pub record IsAt (block : Bytes) (attr type : ℕ) (name value : Bytes) : Type 0 where
  pub inside : attr + attr_len name value ≤ length block
  pub small : attr_len name value < 2 ^ 16
  pub cells : slice block attr (attr_len name value) ≡ encode type name value

-- A slice of a slice.
slice-slice :
    (block : Bytes) (o n p k q : ℕ)
    → p + k ≤ n
    → o + n ≤ length block
    → q ≡ o + p
    → slice block q k ≡ slice (slice block o n) p k
slice-slice block o n p k q h l e =
    sym (take-slice block q (n - p) k (omega arith) (omega arith))
    ∙ ap (take k) (sym (drop-slice block o n p q (n - p) (omega arith) l e (omega arith)))
    ∙ cut (slice block o n)
  where
    cut : (xs : Bytes) → take k (drop p xs) ≡ slice xs p k
    cut xs = unfold slice in refl

-- Cutting behind a first part of known length.
slice-append_right :
    (xs ys : Bytes) (p k q : ℕ) → p ≡ length xs + q → slice (xs ++ ys) p k ≡ slice ys q k
unfolding slice
slice-append_right xs ys p k q e = ap (take k) (drop-append_add xs ys p q e)

slice-append_first : (xs ys : Bytes) (k : ℕ) → k ≡ length xs → slice (xs ++ ys) 0 k ≡ xs
unfolding slice
slice-append_first xs ys k e = ap (λ (n : ℕ). take n (xs ++ ys)) e ∙ take-append xs ys

module _ (type : ℕ) (name value : Bytes) where
  abbrev len_field : Bytes
  len_field = be_bytes 2 (attr_len name value)

  abbrev name_field : Bytes
  name_field = be_bytes 2 (length name + 1)

  field-len : slice (encode type name value) 1 2 ≡ len_field
  field-len =
      slice-append_right ((type % 256) ∷ []) (len_field ++ body name value) 1 2 0 refl
      ∙ slice-append_first len_field (body name value) 2
          (sym (length-be_bytes 2 (attr_len name value)))

  field-body :
      (p k q : ℕ) → p ≡ 3 + q → slice (encode type name value) p k ≡ slice (body name value) q k
  field-body p k q e =
      slice-append_right ((type % 256) ∷ []) (len_field ++ body name value) p k (2 + q)
        (omega arith)
      ∙ slice-append_right len_field (body name value) (2 + q) k q
          (omega (arith, length-be_bytes 2 (attr_len name value)))

  field-name_len : slice (encode type name value) 3 2 ≡ name_field
  field-name_len =
      field-body 3 2 0 refl
      ∙ ap (λ t. slice t 0 2) (append_assoc name_field (name ++ (0 ∷ [])) value)
      ∙ slice-append_first name_field ((name ++ (0 ∷ [])) ++ value) 2
          (sym (length-be_bytes 2 (length name + 1)))

  field-value : slice (encode type name value) (5 + (length name + 1)) (length value) ≡ value
  field-value =
      field-body (5 + (length name + 1)) (length value) (2 + (length name + 1)) (omega arith)
      ∙ slice-append_right (name_field ++ (name ++ (0 ∷ []))) value (2 + (length name + 1))
          (length value) 0
          (omega (
            arith,
            length-append name_field (name ++ (0 ∷ [])),
            length-append name (0 ∷ []),
            length-be_bytes 2 (length name + 1),
          ))
      ∙ slice-whole value

-- Of an attribute in a block the accessors give its length, the length of its name with the NUL,
-- the offset of the next attribute, and the offset of its value, where the value stands.
pub read_lem :
    (block : Bytes) (attr type : ℕ) (name value : Bytes)
    → IsAt block attr type name value
    → (get_len block attr ≡ some (attr_len name value))
      × (get_name_len block attr ≡ some (length name + 1))
      × (next block attr ≡ some (attr + attr_len name value))
      × (get_data block attr ≡ some (attr + 5 + (length name + 1)))
      × (slice block (attr + 5 + (length name + 1)) (length value) ≡ value)
unfolding get_len get_name_len next get_data
read_lem block attr type name value k =
    let l : be_value (slice block (attr + 1) 2) ≡ attr_len name value =
      ap be_value (
        slice-slice block attr (attr_len name value) 1 2 (attr + 1) (omega arith) k.inside refl
        ∙ ap (λ t. slice t 1 2) k.cells
        ∙ field-len type name value)
      ∙ be_value-be_bytes 2 (attr_len name value) k.small in
    let n : be_value (slice block (attr + 3) 2) ≡ length name + 1 =
      ap be_value (
        slice-slice block attr (attr_len name value) 3 2 (attr + 3) (omega arith) k.inside refl
        ∙ ap (λ t. slice t 3 2) k.cells
        ∙ field-name_len type name value)
      ∙ be_value-be_bytes 2 (length name + 1) (omega (arith, k.small)) in
    let a = load-some block (attr + 1) 2 (omega (arith, k.inside)) in
    let b = load-some block (attr + 3) 2 (omega (arith, k.inside)) in
    (
      ground (arith, a, l),
      ground (arith, b, n),
      ground (arith, a, l),
      ground (arith, b, n),
      slice-slice block attr (attr_len name value) (5 + (length name + 1)) (length value)
            (attr + 5 + (length name + 1)) (omega arith) k.inside (omega arith)
          ∙ ap (λ t. slice t (5 + (length name + 1)) (length value)) k.cells
          ∙ field-value type name value,
    )

-- The new attribute stands at the old tail.
pub add-IsAt :
    (blob : Blob) (type : ℕ) (name value : Bytes)
    → blob.tail + attr_len name value ≤ length blob.head
    → attr_len name value < 2 ^ 16
    → (blob' : Blob) × (add blob type name (some value) (length value)
        ≡ some (attr_len name value, blob'))
      × IsAt blob'.head blob.tail type name value
unfolding contents
add-IsAt blob type name value room small =
    let (blob', run, held, tail, size) = add_lem blob type name value room small in
    (
      blob',
      run,
      record {
        inside = omega (arith, size);
        small = small;
        cells =
            sym (
              drop-slice blob'.head 0 (blob.tail + attr_len name value) blob.tail blob.tail
                (attr_len name value) (omega arith) (omega (arith, size)) (omega arith) refl)
            ∙ ap (drop blob.tail) (ap (λ (n : ℕ). slice blob'.head 0 n) (sym tail) ∙ held)
            ∙ drop-append_add (slice blob.head 0 blob.tail) (encode type name value) blob.tail 0
                (omega (arith, length-slice blob.head 0 blob.tail (omega arith)));
      },
    )

get_uint-add :
    (blob : Blob) (type width val : ℕ) (name : Bytes)
    → blob.tail + (6 + length name + width) ≤ length blob.head
    → 6 + length name + width < 2 ^ 16
    → val < 256 ^ width
    → (blob' : Blob) × (ret : ℕ) × (add blob type name (some (be_bytes width val)) width
        ≡ some (ret, blob'))
      × (get_uint width blob'.head blob.tail ≡ some val)
unfolding get_uint
get_uint-add blob type width val name room small h =
    let v = be_bytes width val in
    let lv : length v ≡ width = length-be_bytes width val in
    let (blob', run, at) = add-IsAt blob type name v (omega (arith, lv)) (omega (arith, lv)) in
    let (_, _, _, addr, cells) = read_lem blob'.head blob.tail type name v at in
    (
      blob',
      attr_len name v,
      ap (λ (n : ℕ). add blob type name (some v) n) (sym lv) ∙ run,
      rw
          (
            addr,
            load-some blob'.head (blob.tail + 5 + (length name + 1)) width
                (omega (arith, lv, at.inside)),
          )
          (ap some (
            ap be_value (
              ap (λ (n : ℕ). slice blob'.head (blob.tail + 5 + (length name + 1)) n) (sym lv)
              ∙ cells)
            ∙ be_value-be_bytes width val h)),
    )

-- A number of 8, 16 or 32 bits that was added under a name is read back from the attribute at the
-- old end of the blob.
pub get_uint-add_uint :
    (blob : Blob) (name : Bytes) (val8 val16 val32 : ℕ)
    → blob.tail + (10 + length name) ≤ length blob.head
    → 10 + length name < 2 ^ 16
    → val8 < 2 ^ 8
    → val16 < 2 ^ 16
    → val32 < 2 ^ 32
    → ((b : Blob) × (ret : ℕ) × (add_u8 blob name val8 ≡ some (ret, b))
        × (get_uint 1 b.head blob.tail ≡ some val8))
      × ((b : Blob) × (ret : ℕ) × (add_u16 blob name val16 ≡ some (ret, b))
          × (get_uint 2 b.head blob.tail ≡ some val16))
      × ((b : Blob) × (ret : ℕ) × (add_u32 blob name val32 ≡ some (ret, b))
          × (get_uint 4 b.head blob.tail ≡ some val32))
unfolding add_u8 add_u16 add_u32
get_uint-add_uint blob name val8 val16 val32 room small h8 h16 h32 = (
  get_uint-add blob (type_code int8) 1 val8 name (omega arith) (omega arith) h8,
  get_uint-add blob (type_code int16) 2 val16 name (omega arith) (omega arith) h16,
  get_uint-add blob (type_code int32) 4 val32 name (omega arith) (omega arith) h32,
)

-- The length that `blob_get_data_len` gives is the value's only while the head of the attribute and
-- the name fit in a byte: every further 256 bytes of them are counted as part of the value.
pub get_data_len_lem :
    (block : Bytes) (attr type : ℕ) (name value : Bytes)
    → IsAt block attr type name value
    → get_data_len block attr ≡ some (length value + 256 * ((6 + length name) / 256))
unfolding get_data_len
get_data_len_lem block attr type name value k =
    let (l, _, _, addr, _) = read_lem block attr type name value k in
    let e : (attr_len name value + 2 ^ 32 - (attr + 5 + (length name + 1) - attr) % 2 ^ 8) % 2 ^ 32
        ≡ length value + 256 * ((6 + length name) / 256) =
      omega (arith, k.small) in
    rw (addr, l, e) refl
