-- ===== src/Blob.antt =====
-- src/libblob/blob.c and src/include/libblob/blob.h: typed, named attributes packed one after the
-- other, in network byte order. An attribute is five bytes (type, length, name length), the name
-- with its NUL, and the value. Addresses are offsets into the block; an access outside it is `none`.
-- A name is the bytes before its NUL. The host is little-endian.
pub mod Encode
pub mod Append
pub mod Read
pub mod Table
mod Tests
use libcutils.Base.{
  ℕ, zero, suc, ◌+◌, ◌-◌, ◌%◌, ◌^◌, List, [], ◌∷◌, ◌++◌, Bool, true, false, Option, none, some, leb,
  ltb, ◌==◌, if◌then◌else◌, length, take, replicate, get_elem?, set,
}
use libcutils.Base.Monad.{◌>>=◌}
use libcutils.Base.Memory.{load, store}
use libcutils.Base.Words.{le_bytes, le_value, be_bytes, be_value}
use libcutils.ArrayStack
use libcutils.ArrayStack.{ArrayStack}

abbrev pub Bytes : Type 0
Bytes = List ℕ

-- `enum msgblob_type`
pub data BlobType : Type 0 where
  unspec array table string buffer int64 int32 int16 int8 : BlobType

abbrev pub type_code : BlobType → ℕ
type_code unspec = 0
type_code array = 1
type_code table = 2
type_code string = 3
type_code buffer = 4
type_code int64 = 5
type_code int32 = 6
type_code int16 = 7
type_code int8 = 8

-- `blob_t`
pub record Blob : Type 0 where
  pub head : Bytes
  pub tail : ℕ
  pub len : ℕ
  pub tbl_stack : ArrayStack

-- `blob_init`; the two functions are what the allocator returns for the block and for the stack's.
-- The result is -1 if there is no block.
unfoldable pub init : Blob → (ℕ → Option Bytes) → (ℕ → Option Bytes) → Option Blob
init blob block stack_block = do
  blob' ←
      (if blob.len == 0
        then (do
          head ← block 512
          head' ← store head 0 (replicate 512 0)
          some (record blob { head = head'; tail = 0; len = 512 }))
        else some blob)
  let stack : ArrayStack = record ArrayStack.alloc { step = 8 }
  some (record blob' { tbl_stack = (ArrayStack.init stack stack_block).1 })

unfoldable pub reset : Blob → Option Blob
reset blob = do
  head ← store blob.head 0 (replicate blob.len 0)
  some (record blob { head = head; tail = 0 })

-- `memcpy` of the value, unless the pointer is null.
unfoldable pub put_value : Bytes → ℕ → Option Bytes → ℕ → Option Bytes
put_value head at none value_len = some head
put_value head at (some value) value_len = do cells ← load value 0 value_len; store head at cells

-- `blob_add`: the fields are written in the order of the code, the length last.
unfoldable pub add : Blob → ℕ → Bytes → Option Bytes → ℕ → Option (ℕ × Blob)
add blob type name value value_len = do
  let name_len = (length name + 1) % 2 ^ 16
  typed ← store blob.head blob.tail ((type % 256) ∷ [])
  sized ← store typed (blob.tail + 3) (be_bytes 2 name_len)
  named ← store sized (blob.tail + 5) (take name_len (name ++ (0 ∷ [])))
  filled ← put_value named (blob.tail + 5 + name_len) value value_len
  let attr_len = (5 + name_len + value_len) % 2 ^ 16
  head ← store filled (blob.tail + 1) (be_bytes 2 attr_len)
  some (attr_len, record blob { head = head; tail = blob.tail + attr_len })

unfoldable pub add_u8 : Blob → Bytes → ℕ → Option (ℕ × Blob)
add_u8 blob name val = add blob (type_code int8) name (some (be_bytes 1 val)) 1

unfoldable pub add_u16 : Blob → Bytes → ℕ → Option (ℕ × Blob)
add_u16 blob name val = add blob (type_code int16) name (some (be_bytes 2 val)) 2

unfoldable pub add_u32 : Blob → Bytes → ℕ → Option (ℕ × Blob)
add_u32 blob name val = add blob (type_code int32) name (some (be_bytes 4 val)) 4

unfoldable pub add_u64 : Blob → Bytes → ℕ → Option (ℕ × Blob)
add_u64 blob name val = add blob (type_code int64) name (some (be_bytes 8 val)) 8

-- The string is given by the bytes before its NUL.
unfoldable pub add_string : Blob → Bytes → Bytes → Option (ℕ × Blob)
add_string blob name str =
    add blob (type_code string) name (some (str ++ (0 ∷ []))) ((length str + 1) % 2 ^ 16)

unfoldable pub add_buffer : Blob → Bytes → Bytes → ℕ → Option (ℕ × Blob)
add_buffer blob name buf len = add blob (type_code buffer) name (some buf) (len % 2 ^ 16)

-- The stack holds the start of the table as a pointer of eight bytes; its result is not looked at.
unfoldable pub add_table_start : Blob → Bytes → Option (ℕ × Blob)
add_table_start blob name = do
  (_, stack) ← ArrayStack.push blob.tbl_stack (le_bytes 8 blob.tail)
  add (record blob { tbl_stack = stack }) (type_code table) name none 0

-- An empty stack leaves the pointer null, which is written through.
unfoldable pub add_table_end : Blob → Option Blob
add_table_end blob = do
  (outcome, cells, stack) ← ArrayStack.pop blob.tbl_stack
  table_start ← elim outcome [ ArrayStack.done ↦ some (le_value cells) | ArrayStack.failed ↦ none ]
  head ← store blob.head (table_start + 1) (be_bytes 2 ((blob.tail - table_start) % 2 ^ 16))
  some (record blob { head = head; tbl_stack = stack })

-- The attribute that starts at an offset of a block.
unfoldable pub get_len : Bytes → ℕ → Option ℕ
get_len block attr = do cells ← load block (attr + 1) 2; some (be_value cells)

unfoldable pub get_name_len : Bytes → ℕ → Option ℕ
get_name_len block attr = do cells ← load block (attr + 3) 2; some (be_value cells)

unfoldable pub next : Bytes → ℕ → Option ℕ
next block attr = do len ← get_len block attr; some (attr + len)

unfoldable pub get_data : Bytes → ℕ → Option ℕ
get_data block attr = do name_len ← get_name_len block attr; some (attr + 5 + name_len)

-- The distance to the value is cut to a byte; the difference is an `int` that becomes `uint32_t`.
unfoldable pub get_data_len : Bytes → ℕ → Option ℕ
get_data_len block attr = do
  data_addr ← get_data block attr
  len ← get_len block attr
  some ((len + 2 ^ 32 - (data_addr - attr) % 2 ^ 8) % 2 ^ 32)

-- An unsigned value of some bytes in network order: `blob_get_u8`, `blob_get_u16`, `blob_get_u32`.
unfoldable pub get_uint : ℕ → Bytes → ℕ → Option ℕ
get_uint width block attr = do
  body_addr ← get_data block attr
  cells ← load block body_addr width
  some (be_value cells)

unfoldable pub catenate : Blob → Bytes → Option Blob
catenate blob attr = do
  len ← get_len attr 0
  cells ← load attr 0 len
  head ← store blob.head blob.tail cells
  some (record blob { head = head; tail = blob.tail + len })

-- Whether `strncmp(name, prefix, strlen(prefix))` is 0 for the name at an offset.
unfoldable pub has_prefix : Bytes → ℕ → Bytes → Option Bool
has_prefix block at [] = some true
has_prefix block at (c ∷ cs) = do
  b ← get_elem? block at
  let rest = has_prefix block (at + 1) cs
  if b == c then rest else some false

-- The inner loop of `blob_parse_to_attr`: every policy that the name begins with is given the
-- attribute.
unfoldable pub match_policies :
    Bytes → ℕ → List Bytes → ℕ → List (Option ℕ) → Option (List (Option ℕ))
match_policies block pos [] i tb = some tb
match_policies block pos (name ∷ policy) i tb = do
  found ← has_prefix block (pos + 5) name
  match_policies block pos policy (i + 1) (if found then set tb i (some pos) else tb)

-- The outer loop, on fuel; the attributes fill the block from `pos` up to `len`.
unfoldable pub parse_loop :
    ℕ → Bytes → List Bytes → List (Option ℕ) → ℕ → ℕ → Option (List (Option ℕ))
parse_loop zero block policy tb pos len = none
parse_loop (suc fuel) block policy tb pos len = elim (ltb pos len) [
  | false ↦ some tb
  | true ↦ do
    tb' ← match_policies block pos policy 0 tb
    pos' ← next block pos
    parse_loop fuel block policy tb' pos' len
]
