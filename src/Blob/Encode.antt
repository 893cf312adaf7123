-- ===== src/Blob/Encode.antt =====
-- The bytes of an attribute, and the bytes that a blob holds.
use libcutils.Base.{ℕ, ◌+◌, ◌%◌, ◌∷◌, ◌++◌, [], length}
use libcutils.Base.Memory.{slice}
use libcutils.Base.Words.{be_bytes}
use libcutils.Blob.{Blob, Bytes}

-- The length of an attribute with a name and a value of so many bytes.
abbrev pub attr_len : Bytes → Bytes → ℕ
attr_len name value = 5 + (length name + 1) + length value

-- Name length, name and value.
abbrev pub body : Bytes → Bytes → Bytes
body name value = be_bytes 2 (length name + 1) ++ (name ++ (0 ∷ [])) ++ value

abbrev pub encode : ℕ → Bytes → Bytes → Bytes
encode type name value =
    ((type % 256) ∷ []) ++ (be_bytes 2 (attr_len name value) ++ body name value)

unfoldable pub contents : Blob → Bytes
contents blob = slice blob.head 0 blob.tail
