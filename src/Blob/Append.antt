-- ===== src/Blob/Append.antt =====
-- `blob_add` appends the encoding of one attribute.
use libcutils.Base.{
  ℕ, ◌+◌, ◌%◌, ◌^◌, ◌≤◌, ◌<◌, ◌≡◌, refl, sym, ap, ap₂, ◌∙◌, [], ◌∷◌, ◌++◌, some, arith, length,
  length-append, take_all,
}
use libcutils.Base.Memory.{
  slice, overwrite, load-some, store-some, length-overwrite, slice-append, slice-overwrite_self,
  slice-overwrite_before, overwrite-overwrite_left, overwrite-overwrite_right, slice-whole,
}
use libcutils.Base.Words.{be_bytes, length-be_bytes}
use libcutils.Blob.{Blob, Bytes, put_value, add}
use libcutils.Blob.Encode.{attr_len, encode, contents}

module _ (head : Bytes) (t type : ℕ) (name value : Bytes)
    (room : t + attr_len name value ≤ length head) (small : attr_len name value < 2 ^ 16) where
  abbrev typed : Bytes
  typed = overwrite head t ((type % 256) ∷ [])

  abbrev sized : Bytes
  sized = overwrite typed (t + 3) (be_bytes 2 (length name + 1))

  abbrev named : Bytes
  named = overwrite sized (t + 5) (name ++ (0 ∷ []))

  abbrev filled : Bytes
  filled = overwrite named (t + 5 + (length name + 1)) value

  abbrev written : Bytes
  written = overwrite filled (t + 1) (be_bytes 2 (attr_len name value))

  length-typed : length typed ≡ length head
  length-typed = length-overwrite head t ((type % 256) ∷ []) (omega arith)

  length-sized : length sized ≡ length head
  length-sized = omega (
    arith,
    length-typed,
    length-be_bytes 2 (length name + 1),
    length-overwrite typed (t + 3) (be_bytes 2 (length name + 1)),
  )

  length-name : length (name ++ (0 ∷ [])) ≡ length name + 1
  length-name = length-append name (0 ∷ [])

  length-named : length named ≡ length head
  length-named =
      omega (arith, length-sized, length-name, length-overwrite sized (t + 5) (name ++ (0 ∷ [])))

  length-filled : length filled ≡ length head
  length-filled =
      omega (arith, length-named, length-overwrite named (t + 5 + (length name + 1)) value)

  length-written : length written ≡ length head
  length-written = omega (
    arith,
    length-filled,
    length-be_bytes 2 (attr_len name value),
    length-overwrite filled (t + 1) (be_bytes 2 (attr_len name value)),
  )

  -- The five writes are one.
  written-encode : written ≡ overwrite head t (encode type name value)
  written-encode =
      let l = be_bytes 2 (length name + 1) in
      let ll : length l ≡ 2 = length-be_bytes 2 (length name + 1) in
      let m = be_bytes 2 (attr_len name value) in
      let lm : length m ≡ 2 = length-be_bytes 2 (attr_len name value) in
      let z = name ++ (0 ∷ []) in
      let lz : length z ≡ length name + 1 = length-name in
      ap (λ b. overwrite (overwrite b (t + 5 + (length name + 1)) value) (t + 1) m)
        (overwrite-overwrite_left typed (t + 3) (t + 5) l z (omega (arith, ll))
          (omega (arith, lz, length-typed)))
      ∙ ap (λ b. overwrite b (t + 1) m)
          (overwrite-overwrite_left typed (t + 3) (t + 5 + (length name + 1)) (l ++ z) value
            (omega (arith, length-append l z, ll, lz)) (omega (arith, length-typed)))
      ∙ overwrite-overwrite_right typed (t + 1) (t + 3) m ((l ++ z) ++ value) (omega (arith, lm))
          (omega (arith, length-typed, length-append (l ++ z) value, length-append l z, ll, lz))
      ∙ overwrite-overwrite_left head t (t + 1) ((type % 256) ∷ []) (m ++ ((l ++ z) ++ value)) refl
          (omega (
            arith,
            length-append m ((l ++ z) ++ value),
            lm,
            length-append (l ++ z) value,
            length-append l z,
            ll,
            lz,
          ))

pub length-encode :
    (type : ℕ) (name value : Bytes) → length (encode type name value) ≡ attr_len name value
length-encode type name value =
    let l = be_bytes 2 (length name + 1) in
    let m = be_bytes 2 (attr_len name value) in
    omega (
      arith,
      length-be_bytes 2 (length name + 1),
      length-be_bytes 2 (attr_len name value),
      length-append m ((l ++ (name ++ (0 ∷ []))) ++ value),
      length-append (l ++ (name ++ (0 ∷ []))) value,
      length-append l (name ++ (0 ∷ [])),
      length-append name (0 ∷ []),
    )

-- With room in the block, an attribute whose length fits in 16 bits is appended to the bytes that
-- the blob holds in its encoding, its length is returned, and the size of the block stays.
pub add_lem :
    (blob : Blob) (type : ℕ) (name value : Bytes)
    → blob.tail + attr_len name value ≤ length blob.head
    → attr_len name value < 2 ^ 16
    → (blob' : Blob) × (add blob type name (some value) (length value)
        ≡ some (attr_len name value, blob'))
      × (contents blob' ≡ contents blob ++ encode type name value)
      × (blob'.tail ≡ blob.tail + attr_len name value)
      × (length blob'.head ≡ length blob.head)
unfolding add put_value contents
add_lem blob type name value room small = (
  record blob {
    head = written blob.head blob.tail type name value room small;
    tail = blob.tail + attr_len name value;
  },
  (let a : (length name + 1) % 2 ^ 16 ≡ length name + 1 = omega arith in
      let b : attr_len name value % 2 ^ 16 ≡ attr_len name value = omega arith in
      let lz = length-append name (0 ∷ []) in
      rw
        (
          store-some head t ((type % 256) ∷ []) (omega arith),
          a,
          store-some (typed head t type name value room small) (t + 3)
              (be_bytes 2 (length name + 1))
              (omega (
                arith,
                length-be_bytes 2 (length name + 1),
                length-typed head t type name value room small,
              )),
          take_all (length name + 1) (name ++ (0 ∷ [])) (omega (arith, lz)),
          store-some (sized head t type name value room small) (t + 5) (name ++ (0 ∷ []))
              (omega (arith, lz, length-sized head t type name value room small)),
          load-some value 0 (length value) (omega arith),
          slice-whole value,
          store-some (named head t type name value room small) (t + 5 + (length name + 1)) value
              (omega (arith, length-named head t type name value room small)),
          b,
          store-some (filled head t type name value room small) (t + 1)
              (be_bytes 2 (attr_len name value))
              (omega (
                arith,
                length-be_bytes 2 (attr_len name value),
                length-filled head t type name value room small,
              )),
        )
        refl),
  ap (λ b. slice b 0 (t + attr_len name value)) (written-encode head t type name value room small)
      ∙ sym (
          slice-append (overwrite head t x) 0 t (attr_len name value) t (t + attr_len name value)
            (omega arith) refl)
      ∙ ap₂ ◌++◌ (slice-overwrite_before head t x 0 t (omega arith))
          (slice-overwrite_self head t (attr_len name value) x (omega arith) (sym lx)),
  refl,
  length-written blob.head blob.tail type name value room small,
)
  where
    open blob use {head, tail as t}

    x : Bytes
    x = encode type name value

    lx : length x ≡ attr_len name value
    lx = length-encode type name value
