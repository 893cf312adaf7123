-- ===== src/Blob/Tests.antt =====
-- A blob of 40 bytes: runs, and the theorems at it.
use libcutils.Base.{ℕ, ◌≡◌, refl, List, [], ◌∷◌, ◌++◌, Option, none, some, arith, length, replicate}
use libcutils.Base.Monad.{◌>>=◌}
use libcutils.Base.Memory.{slice, overwrite, load, store}
use libcutils.Base.Words.{le_bytes, le_value, be_bytes, be_value}
use libcutils.ArrayStack
use libcutils.ArrayStack.{ArrayStack}
use libcutils.Blob.{
  Blob, Bytes, init, reset, put_value, add, add_u8, add_u16, add_u32, add_u64, add_string,
  add_buffer, add_table_start, add_table_end, get_len, get_name_len, next, get_data, get_data_len,
  get_uint, catenate, has_prefix, match_policies, parse_loop,
}
use libcutils.Blob.Encode.{encode, contents}
use libcutils.Blob.Append.{add_lem}
use libcutils.Blob.Read.{IsAt, get_uint-add_uint, get_data_len_lem}
use libcutils.Blob.Table.{add_table_end_lem}

abbrev stack : ArrayStack
stack = record { top = replicate 24 0; step = 8; cur = 0; size = 24 }

abbrev blob : Blob
blob = record { head = replicate 40 0; tail = 4; len = 40; tbl_stack = stack }

-- "u"
abbrev name : Bytes
name = b'u' ∷ []

-- One attribute of nine bytes, at offset 4.
abbrev block : Bytes
block = 0 ∷ 0 ∷ 0 ∷ 0 ∷ 7 ∷ 0 ∷ 9 ∷ 0 ∷ 2 ∷ b'u' ∷ 0 ∷ 1 ∷ 2 ∷ 0 ∷ []

program : Unit {0}
unfolding slice overwrite load store le_bytes le_value be_bytes be_value ArrayStack.alloc
    ArrayStack.init ArrayStack.push ArrayStack.pop init reset put_value add add_u8 add_u16 add_u32
    add_u64 add_string add_buffer add_table_start add_table_end get_len get_name_len next get_data
    get_data_len get_uint catenate has_prefix match_policies parse_loop
program = tt

block-IsAt : IsAt block 4 7 name (1 ∷ 2 ∷ [])
unfolding program
block-IsAt = record { inside = omega arith; small = omega arith; cells = refl }

-- A table with one number in it; the policies "t" and "tab" both take the table.
session : Option (Option ℕ × Option (List (Option ℕ)))
unfolding program
session = do
  (_, b₁) ← add_table_start (record blob { tail = 0 }) (b't' ∷ b'a' ∷ b'b' ∷ [])
  (_, b₂) ← add_u8 b₁ name 5
  b₃ ← add_table_end b₂
  some (
    get_len b₃.head 0,
    parse_loop 2 b₃.head ((b't' ∷ []) ∷ (b't' ∷ b'a' ∷ b'b' ∷ []) ∷ name ∷ [])
        (none ∷ none ∷ none ∷ []) 0 b₃.tail,
  )

session_lem : session ≡ some (some 17, some (some 0 ∷ some 0 ∷ none ∷ []))
unfolding session program
session_lem = refl

add_lem_example :
    (blob' : Blob) × (add blob 7 name (some (1 ∷ 2 ∷ [])) 2 ≡ some (9, blob'))
    × (contents blob' ≡ contents blob ++ encode 7 name (1 ∷ 2 ∷ []))
    × (blob'.tail ≡ 13)
    × (length blob'.head ≡ 40)
add_lem_example = add_lem blob 7 name (1 ∷ 2 ∷ []) (omega arith) (omega arith)

get_data_len_lem_example : get_data_len block 4 ≡ some 2
get_data_len_lem_example = get_data_len_lem block 4 7 name (1 ∷ 2 ∷ []) block-IsAt

get_uint-add_uint_example :
    ((b : Blob) × (ret : ℕ) × (add_u8 blob name 200 ≡ some (ret, b))
      × (get_uint 1 b.head 4 ≡ some 200))
    × ((b : Blob) × (ret : ℕ) × (add_u16 blob name 50_000 ≡ some (ret, b))
        × (get_uint 2 b.head 4 ≡ some 50_000))
    × ((b : Blob) × (ret : ℕ) × (add_u32 blob name 70_000 ≡ some (ret, b))
        × (get_uint 4 b.head 4 ≡ some 70_000))
get_uint-add_uint_example =
    get_uint-add_uint blob name 200 50_000 70_000 (omega arith) (omega arith) (omega arith)
      (omega arith) (omega arith)

-- The table began at offset 4.
abbrev open_table : Blob
open_table = record blob {
  tail = 13;
  tbl_stack = record stack { top = 4 ∷ replicate 23 0; cur = 8 };
}

popped :
    ArrayStack.pop open_table.tbl_stack
    ≡ some (ArrayStack.done, le_bytes 8 4, record open_table.tbl_stack { cur = 0 })
unfolding program
popped = refl

add_table_end_lem_example :
    (blob' : Blob) × (add_table_end open_table ≡ some blob')
    × (get_len blob'.head 4 ≡ some 9)
    × (next blob'.head 4 ≡ some 13)
    × (slice blob'.head 0 5 ≡ slice open_table.head 0 5)
    × ((n : ℕ) → slice blob'.head 7 n ≡ slice open_table.head 7 n)
    × (blob'.tbl_stack ≡ record open_table.tbl_stack { cur = 0 })
add_table_end_lem_example =
    add_table_end_lem open_table 4 (record open_table.tbl_stack { cur = 0 }) popped (omega arith)
      (omega arith) (omega arith) (omega arith)
