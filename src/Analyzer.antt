-- ===== src/Analyzer.antt =====
-- src/libproto_analyzer/protocol_analyzer.c with protocol_analyzer.h: a message is generated from the
-- values of its fields, and the values are parsed from a message. The fields are a list, and the
-- address of a field is its place in it; a table finds it by its name. Memory for the table's nodes and
-- for values is granted. A result of `none` is a fault: an access outside a block, a null pointer used,
-- or a variable read that was never written. The locks are left out.
pub mod Codec
pub mod Format
pub mod Chunks
pub mod BitFields
pub mod ByteFields
pub mod Frame
pub mod ByteFrame
pub mod Fields
pub mod Layout
pub mod Rounds
pub mod Message
pub mod Registry
pub mod KeyBlocks
pub mod KeyChains
pub mod Keys
mod Tests
use Prim.Native.Nat.{◌/◌}
use mathlib.Core.Option
use libcutils.Base.{
  ℕ, zero, suc, ◌+◌, ◌-◌, ◌*◌, ◌%◌, ◌^◌, List, [], ◌∷◌, ◌++◌, Bool, true, false, not, ◌&&◌, ◌||◌,
  Option, none, some, ltb, leb, ◌==◌, if◌then◌else◌, get_elem?, set, length, take, map,
}
use libcutils.Base.Monad.{◌>>=◌}
use libcutils.Base.Memory.{load, store}
use libcutils.Base.Words.{be_bytes, be_value}
use libcutils.HashMap
use libcutils.HashMap.{HashMap}
use libcutils.HashMap.Chain.{Hlist}
use libcutils.HashMap.Keys.{Pair, create_pair, make_pair}
use libcutils.Analyzer.Format.{Bytes, InfoList, FormatSet}
use libcutils.Analyzer.Codec.{
  set_protocol_byte_data, set_protocol_buf, set_protocol_bit_data, get_protocol_byte_data,
  get_protocol_bit_data,
}

module _ (api : Hlist) where
  -- `protocol_analyzer_t`
  pub record Analyzer : Type 0 where
    pub pfs : FormatSet
    pub protocol_data : Bytes
    pub protocol_data_len : ℕ
    pub protocol_num : ℕ
    pub pf_list : Option (List InfoList)
    pub pa_list : Option (List InfoList)
    pub hmap : HashMap api

-- An address as eight bytes, the highest first: `pa_addr_to_buffer` and `pa_buffer_to_addr`.
unfoldable pub addr_to_buffer : ℕ → Bytes
addr_to_buffer addr = be_bytes 8 addr

unfoldable pub buffer_to_addr : Bytes → Option ℕ
buffer_to_addr buffer = do cells ← load buffer 0 8; some (be_value cells)

-- Whether a pointer to fields is not null.
abbrev pub is_present : Option (List InfoList) → Bool
is_present none = false
is_present (some fields) = true

module _ {api : Hlist} where
  unfoldable pub check_protocol_num : Analyzer api → Bool
  check_protocol_num pa = not (
      ltb ((pa.pfs.proto_base_addr + pa.pfs.proto_max_num) % 2 ^ 32) pa.protocol_num
      || ltb pa.protocol_num pa.pfs.proto_base_addr)

  unfoldable pub find_protocol_format : Analyzer api → Option (Bool × Analyzer api)
  unfolding check_protocol_num
  find_protocol_format pa =
      if check_protocol_num pa
      then (do
        format ← get_elem? pa.pfs.list_head_p2 (pa.protocol_num - pa.pfs.proto_base_addr)
        some (is_present format, record pa { pf_list = format }))
      else some (false, pa)

  -- The copies have the contents of the fields, and the buffers in common.
  unfoldable pub copy_protocol_format : Analyzer api → Bool × Analyzer api
  copy_protocol_format pa = elim pa.pf_list [
    | none ↦ (false, pa)
    | some fields ↦ (true, record pa { pa_list = some fields })
  ]

  -- The loop of `pa_create_hash_table`: the fields from a place on, and the addresses that the
  -- allocator gives to the nodes.
  unfoldable pub insert_fields :
      HashMap api → Pair → List InfoList → ℕ → (ℕ → ℕ) → Option (HashMap api)
  unfolding addr_to_buffer
  insert_fields hmap pair [] i mnode = some hmap
  insert_fields hmap pair (info ∷ infos) i mnode = do
    pair' ← make_pair pair info.name (addr_to_buffer i)
    (status, hmap') ← HashMap.insert_data hmap pair'.bytes (some (mnode i))
    insert_fields hmap' pair' infos (i + 1) mnode

  unfoldable pub create_hash_table :
      Analyzer api → HashMap api → (ℕ → ℕ) → Option (Bool × Analyzer api)
  unfolding insert_fields
  create_hash_table pa fresh mnode =
      let (status, hmap) = HashMap.init fresh 15 8 10 true in
      elim pa.pa_list [
        | none ↦ some (false, pa)
        | some infos ↦ do
          hmap' ← insert_fields hmap (create_pair 15 8) infos 0 mnode
          some (true, record pa { hmap = hmap' })
      ]

  -- A key as long as its field leaves the copy unwritten; and when the search finds nothing, the
  -- position is what was on the stack.
  unfoldable pub find_key : Analyzer api → Bytes → Option ℕ
  unfolding buffer_to_addr
  find_key pa key =
      if ltb (length key) pa.hmap.key_size
      then (do
        (status, pos) ← HashMap.search pa.hmap key
        map_pos ← pos
        addr ← HashMap.get_pointer pa.hmap map_pos
        buffer_to_addr addr)
      else none

  -- The results are looked at through the pointer that was found.
  unfoldable pub set_value : Analyzer api → Bytes → ℕ → Option (Analyzer api)
  unfolding find_key
  set_value pa key value = do
    n ← find_key pa key
    infos ← pa.pa_list
    info ← get_elem? infos n
    some (record pa { pa_list = some (set infos n (record info { value = value })) })

  unfoldable pub get_value : Analyzer api → Bytes → Option ℕ
  unfolding find_key
  get_value pa key = do
    n ← find_key pa key
    infos ← pa.pa_list
    info ← get_elem? infos n
    some info.value

  unfoldable pub set_variable_length_value : Analyzer api → Bytes → ℕ → Option (Analyzer api)
  unfolding find_key
  set_variable_length_value pa key value = do
    n ← find_key pa key
    infos ← pa.pa_list
    info ← get_elem? infos n
    some (record pa {
      pa_list =
          some (set infos n (record info { value = value; vlenth_value_assigned_flag = true }));
    })

  -- A buffer that is long enough is kept, with its length.
  unfoldable pub set_buf : Analyzer api → Bytes → Bytes → ℕ → Option (Analyzer api)
  unfolding find_key
  set_buf pa key block len = do
    n ← find_key pa key
    infos ← pa.pa_list
    info ← get_elem? infos n
    cells ← load block 0 len
    info' ← elim info.buf_data [
      | none ↦ some (record info { buf_data = some cells; buf_len = len % 2 ^ 16 })
      | some old ↦
          if leb len info.buf_len
          then (do kept ← store old 0 cells; some (record info { buf_data = some kept }))
          else some (record info { buf_data = some cells; buf_len = len % 2 ^ 16 })
    ]
    some (record pa { pa_list = some (set infos n info') })

-- `byte_pos` moves on by some bytes.
abbrev pub moved : ℕ → InfoList → InfoList
moved n info = record info { byte_pos = (info.byte_pos + n) % 2 ^ 8 }

-- The fields behind a place.
unfoldable pub move_behind : ℕ → ℕ → List InfoList → List InfoList
move_behind n i [] = []
move_behind n zero (info ∷ infos) = info ∷ map (moved n) infos
move_behind n (suc i) (info ∷ infos) = info ∷ move_behind n i infos

module _ {api : Hlist} where
  -- The field at the place takes its length from the field that its index names.
  unfoldable pub recompute_byte_pos : ℕ → List InfoList → Analyzer api → Option (List InfoList)
  unfolding find_key move_behind
  recompute_byte_pos i infos pa = do
    info ← get_elem? infos i
    n ← find_key pa info.vlenth_index
    found ← get_elem? infos n
    let bit_len = found.value * info.len_unit % 2 ^ 32
    some (move_behind (bit_len / 8) i (set infos i (record info { len = found.value % 2 ^ 16 })))

  -- The loop of `pa_set_variable_length_flag`, from a place on.
  unfoldable pub set_variable_length_flags :
      ℕ → ℕ → List InfoList → Analyzer api → Option (List InfoList)
  unfolding find_key
  set_variable_length_flags zero i infos pa = some infos
  set_variable_length_flags (suc more) i infos pa = do
    info ← get_elem? infos i
    infos' ← elim info.vlenth_flag [
      | false ↦ some infos
      | true ↦ do
        n ← find_key pa info.vlenth_index
        found ← get_elem? infos n
        some (set infos n (record found { vlenth_value_flag = true }))
    ]
    set_variable_length_flags more (i + 1) infos' pa

  -- A field of variable length is laid out first.
  unfoldable pub lay_out : ℕ → InfoList → List InfoList → Analyzer api → Option (List InfoList)
  unfolding recompute_byte_pos
  lay_out i info infos pa = elim info.vlenth_flag [
    | false ↦ some infos
    | true ↦ do
      infos' ← recompute_byte_pos i infos pa
      info' ← get_elem? infos' i
      some (set infos' i (record info' { vlenth_flag = false }))
  ]

-- One field is written into the message. A null buffer is read only if the position is not refused.
unfoldable pub write_field : InfoList → Bytes → Option Bytes
write_field info dp =
    if info.len_unit == 8
    then if leb info.len 4
      then set_protocol_byte_data info.value info.byte_pos info.len dp
      else elim info.buf_data [
        | none ↦ if info.bit_pos == 0 then none else some dp
        | some buf ↦ set_protocol_buf buf info.len info.byte_pos info.bit_pos dp
      ]
    else if info.len_unit == 1
    then set_protocol_bit_data info.value info.byte_pos info.bit_pos info.len dp
    else some dp

-- One field is read from the message; a buffer that is long enough is kept, with its length.
unfoldable pub read_field : InfoList → Bytes → Option InfoList
read_field info dp =
    if info.len_unit == 8
    then if leb info.len 4
      then (do
        v ← get_protocol_byte_data info.byte_pos info.len dp
        some (record info { value = v }))
      else (do
        cells ← load dp info.byte_pos info.len
        elim info.buf_data [
          | none ↦ some (record info { buf_data = some cells; buf_len = info.len })
          | some old ↦
              if leb info.len info.buf_len
              then (do kept ← store old 0 cells; some (record info { buf_data = some kept }))
              else some (record info { buf_data = some cells; buf_len = info.len })
        ])
    else if info.len_unit == 1
    then (do
      v ← get_protocol_bit_data info.byte_pos info.bit_pos info.len dp
      some (record info { value = v }))
    else some info

module _ {api : Hlist} where
  -- The loop of `pa_generate_protocol_data` from a place on; the last result is the end of the last
  -- field, which is unwritten before the first. The position, the value and the place in the byte are
  -- those of before the layout.
  unfoldable pub generate_loop :
      ℕ
      → ℕ
      → List InfoList
      → Analyzer api
      → Bytes
      → Option ℕ
      → Option (List InfoList × Bytes × Option ℕ)
  unfolding lay_out write_field
  generate_loop zero i infos pa dp end = some (infos, dp, end)
  generate_loop (suc more) i infos pa dp end = do
    info ← get_elem? infos i
    infos' ← lay_out i info infos pa
    info' ← get_elem? infos' i
    dp' ← write_field (record info { len = info'.len; len_unit = info'.len_unit }) dp
    generate_loop more (i + 1) infos' pa dp' (some ((info.byte_pos + info'.len) % 2 ^ 16))

  unfoldable pub generate_protocol_data : Analyzer api → Option (Bool × Analyzer api)
  unfolding generate_loop set_variable_length_flags
  generate_protocol_data pa = elim pa.pa_list [
    | none ↦ some (false, pa)
    | some infos ↦ do
      infos₁ ← set_variable_length_flags (length infos) 0 infos pa
      (infos₂, dp, end) ← generate_loop (length infos) 0 infos₁ pa pa.protocol_data none
      data_len ← end
      some (
        true,
        record pa { pa_list = some infos₂; protocol_data = dp; protocol_data_len = data_len },
      )
  ]

  -- The loop of `pa_parse_protocol_data` from a place on.
  unfoldable pub parse_loop : ℕ → ℕ → List InfoList → Analyzer api → Option (List InfoList)
  unfolding lay_out read_field
  parse_loop zero i infos pa = some infos
  parse_loop (suc more) i infos pa = do
    info ← get_elem? infos i
    infos' ← lay_out i info infos pa
    info' ← get_elem? infos' i
    read ← read_field info' pa.protocol_data
    parse_loop more (i + 1) (set infos' i read) pa

  unfoldable pub parse_protocol_data : Analyzer api → Option (Bool × Analyzer api)
  unfolding parse_loop
  parse_protocol_data pa = elim pa.pa_list [
    | none ↦ some (false, pa)
    | some infos ↦ if pa.protocol_data_len == 0 then some (false, pa) else (do
      infos' ← parse_loop (length infos) 0 infos pa
      some (true, record pa { pa_list = some infos' }))
  ]

-- One field as it was configured.
unfoldable pub restored : InfoList → InfoList
restored info = record info {
  vlenth_flag = info.vlenth_flag_bak || info.vlenth_flag;
  byte_pos = info.byte_pos_bak;
  bit_pos = info.bit_pos_bak;
}

module _ {api : Hlist} where
  unfoldable pub reset_vlen_flag : Analyzer api → Bool × Analyzer api
  unfolding restored
  reset_vlen_flag pa = elim pa.pa_list [
    | none ↦ (false, pa)
    | some infos ↦ (true, record pa { pa_list = some (map restored infos) })
  ]
