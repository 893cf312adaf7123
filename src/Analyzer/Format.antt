-- ===== src/Analyzer/Format.antt =====
-- src/libproto_analyzer/protocol_format_set.c with protocol_format_set.h: the fields of a message and
-- the set of message formats. `atoi` is the C library's. A string is the bytes before its NUL. A
-- result of `none` is a fault: an access outside a block or a null pointer used.
use Prim.Native.Nat.{◌/◌, bit_or}
use Prim.Native.String.{String}
use text.Mathlib.Text.{◌==◌ as str_eq}
use libcutils.Base.{
  ℕ, ◌+◌, ◌-◌, ◌*◌, ◌%◌, ◌^◌, List, [], ◌∷◌, Bool, true, false, ◌&&◌, ◌||◌, Option, none, some, ltb,
  leb, ◌==◌, if◌then◌else◌, get_elem?, set, length, replicate,
}
use libcutils.Base.Monad.{◌>>=◌}
use libcutils.Base.Words.{add32}

abbrev pub Bytes : Type 0
Bytes = List ℕ

-- `proto_info_list_t`, without its link in the list and the pointers that are not used.
pub record InfoList : Type 0 where
  pub name : Bytes
  pub vlenth_index : Bytes
  pub vlenth_flag : Bool
  pub vlenth_flag_bak : Bool
  pub vlenth_value_flag : Bool
  pub vlenth_value_assigned_flag : Bool
  pub byte_pos : ℕ
  pub byte_pos_bak : ℕ
  pub bit_pos : ℕ
  pub bit_pos_bak : ℕ
  pub len : ℕ
  pub len_unit : ℕ
  pub bit_len : ℕ
  pub value : ℕ
  pub buf_len : ℕ
  pub buf_data : Option Bytes

-- `protocol_format_set_t`; a format is the list of its fields, `none` for a null pointer.
pub record FormatSet : Type 0 where
  pub list_head_p2 : List (Option (List InfoList))
  pub proto_total_num : ℕ
  pub proto_max_num : ℕ
  pub proto_base_addr : ℕ

-- A character of a hexadecimal number: `*str - 55` for an upper-case letter, and else `*str - 48`.
unfoldable pub hex_digit : ℕ → ℕ
hex_digit c = if leb 65 c && leb c 70 then c - 55 else (c + 2 ^ 32 - 48) % 2 ^ 32

-- The loop of `hexstr2num`.
unfoldable pub hex_loop : ℕ → Bytes → ℕ
unfolding hex_digit
hex_loop ret [] = ret
hex_loop ret (c ∷ cs) = hex_loop (bit_or (ret * 2 ^ 4 % 2 ^ 32) (hex_digit c)) cs

-- `none` is -1: no `0x` or `0X` in front, or more than ten characters.
unfoldable pub hexstr2num : Bytes → Option ℕ
unfolding hex_loop
hexstr2num [] = none
hexstr2num (c ∷ []) = none
hexstr2num (c ∷ d ∷ cs) =
    if c == 48 && (d == 120 || d == 88)
    then if ltb 10 (length cs + 2) then none else some (hex_loop 0 cs)
    else none

-- The new list takes its place in the table. The number is compared with 200, not with the table's
-- size.
unfoldable pub add_proto_link_list :
    ℕ → Option (List InfoList) → FormatSet → Option (Bool × FormatSet)
add_proto_link_list llist_num new_proto_llist pfs =
    if ltb 200 llist_num then some (false, pfs) else elim new_proto_llist [
      | none ↦ some (false, pfs)
      | some fields ↦ do
        old ← get_elem? pfs.list_head_p2 llist_num
        some (
          true,
          record pfs {
            list_head_p2 = set pfs.list_head_p2 llist_num (some fields);
            proto_total_num = add32 pfs.proto_total_num 1;
          },
        )
    ]

-- The table of formats is granted by the allocator or not.
unfoldable pub init_proto_format_set : ℕ → ℕ → Bool → FormatSet → Option FormatSet
init_proto_format_set base max false pfs = none
init_proto_format_set base max true pfs = some (record pfs {
  proto_base_addr = base;
  list_head_p2 = replicate max none;
  proto_total_num = 0;
  proto_max_num = max;
})

-- A field of 20 bytes.
abbrev pub copy_name : Bytes → Option Bytes
copy_name s = if ltb (length s) 20 then some s else none

module _ (atoi : Bytes → ℕ) where
  -- `set_proto_info_attribs`; a null value is taken for an index alone.
  unfoldable pub set_proto_info_attribs : String → Option Bytes → InfoList → Option InfoList
  set_proto_info_attribs name attr_value info =
      if str_eq name "name"
      then (do s ← attr_value; n ← copy_name s; some (record info { name = n }))
      else if str_eq name "byte_pos"
      then (do
        s ← attr_value
        some (record info { byte_pos = atoi s % 2 ^ 8; byte_pos_bak = atoi s % 2 ^ 8 }))
      else if str_eq name "bit_pos"
      then (do
        s ← attr_value
        some (record info { bit_pos = atoi s % 2 ^ 8; bit_pos_bak = atoi s % 2 ^ 8 }))
      else if str_eq name "len"
      then (do s ← attr_value; some (record info { len = atoi s % 2 ^ 16 }))
      else if str_eq name "len_unit"
      then (do s ← attr_value; some (record info { len_unit = atoi s % 2 ^ 8 }))
      else if str_eq name "vlenth_index"
      then elim attr_value [
        | none ↦ some info
        | some s ↦ do
          index ← copy_name s
          some (
              if length s == 0
              then record info { vlenth_index = 78 ∷ 47 ∷ 65 ∷ [] }
              else record info { vlenth_index = index; vlenth_flag = true; vlenth_flag_bak = true })
      ]
      else if str_eq name "value"
      then (let bits = info.len * info.len_unit in
          if leb (bits / 8) 4
          then (do s ← attr_value; some (record info { bit_len = bits; value = atoi s % 2 ^ 32 }))
          else some (record info { bit_len = bits; buf_data = none }))
      else some info
