-- ===== src/Analyzer/Tests.antt =====
-- A message of three fields, a table of two formats, and the theorems at them.
use libcutils.Base.{
  ℕ, ◌%◌, ◌^◌, ◌<◌, ◌≡◌, inl, inr, refl, List, [], ◌∷◌, true, false, none, some, ◌==◌,
  if◌then◌else◌, get_elem?, arith, map, replicate,
}
use libcutils.HashMap.{HashMap}
use libcutils.HashMap.Chain.{Hlist, remove}
use libcutils.HashMap.Keys.{create_pair, default_key_cmp_func, same_bytes}
use libcutils.Analyzer.Codec.{
  Bytes, pa_pow, get_bit_data, take_len, get_bits, get_bytes, set_protocol_bit_data,
  get_protocol_bit_data, get_protocol_byte_data,
}
use libcutils.Analyzer.Format.{
  InfoList, FormatSet, add_proto_link_list, hex_loop, hex_digit, hexstr2num,
}
use libcutils.Analyzer.{
  Analyzer, read_field, generate_protocol_data, parse_protocol_data, create_hash_table, find_key,
  find_protocol_format,
}
use libcutils.Analyzer.BitFields.{get_protocol_bit_data-set_protocol_bit_data}
use libcutils.Analyzer.Fields.{with_value, masked, first_bit, bits}
use libcutils.Analyzer.Frame.{start}
use libcutils.Analyzer.Layout.{IsFrame}
use libcutils.Analyzer.Message.{with_fields, parse_protocol_data-generate_protocol_data}
use libcutils.Analyzer.Registry.{
  entry, find_protocol_format-add_proto_link_list, find_protocol_format_faults,
}
use libcutils.Analyzer.Keys.{Refuses, find_key-create_hash_table}

abbrev lists : Hlist
lists = record {
  Head = List ℕ;
  nodes = λ h. h;
  empty = [];
  add_head = λ n h. n ∷ h;
  del = remove;
  nodes-empty = refl;
  nodes-add_head = λ n h. refl;
  nodes-del = λ n h. refl;
}

abbrev fresh : HashMap lists
fresh = record {
  bucket_size = 0;
  data_size = 0;
  key_size = 0;
  hash_func = none;
  key_cmp_func = none;
  hlist = [];
  cells = λ n. [];
  begin = record { node = none; bucket_pos = 0 };
  end = record { node = none; bucket_pos = 0 };
  node_count = 0;
  pair = create_pair 0 0;
}

abbrev field : Bytes → ℕ → ℕ → ℕ → ℕ → ℕ → InfoList
field name byte_pos bit_pos len len_unit value = record {
  name = name;
  vlenth_index = [];
  vlenth_flag = false;
  vlenth_flag_bak = false;
  vlenth_value_flag = false;
  vlenth_value_assigned_flag = false;
  byte_pos = byte_pos;
  byte_pos_bak = byte_pos;
  bit_pos = bit_pos;
  bit_pos_bak = bit_pos;
  len = len;
  len_unit = len_unit;
  bit_len = len;
  value = value;
  buf_len = 0;
  buf_data = none;
}

-- Three bits, then twelve over two bytes, a bit between, and two bytes.
abbrev fields : List InfoList
fields =
    field (118 ∷ []) 0 7 3 1 13
    ∷ field (105 ∷ 100 ∷ []) 0 4 12 1 2748
    ∷ field (105 ∷ 110 ∷ []) 2 7 2 8 74565
    ∷ []

abbrev table : FormatSet
table = record {
  list_head_p2 = replicate 3 none;
  proto_total_num = 0;
  proto_max_num = 3;
  proto_base_addr = 16;
}

abbrev analyzer : ℕ → Analyzer lists
analyzer protocol_num = record {
  pfs = table;
  protocol_data = 0 ∷ 0 ∷ 0 ∷ 0 ∷ [];
  protocol_data_len = 0;
  protocol_num = protocol_num;
  pf_list = none;
  pa_list = some fields;
  hmap = fresh;
}

hexstr2num_lower : hexstr2num (48 ∷ 120 ∷ 97 ∷ []) ≡ some 49
unfolding hexstr2num hex_loop hex_digit
hexstr2num_lower = refl

fields_fit : IsFrame (0 ∷ 0 ∷ 0 ∷ 0 ∷ []) 0 fields
unfolding IsFrame first_bit bits start read_field get_protocol_bit_data get_bits take_len
    get_bit_data pa_pow get_protocol_byte_data get_bytes
fields_fit = (
  (refl, omega arith, omega arith, inr (refl, omega arith, omega arith)),
  omega arith,
  refl,
  (
    (refl, omega arith, omega arith, inr (refl, omega arith, omega arith)),
    omega arith,
    refl,
    ((refl, omega arith, omega arith, inl (refl, omega arith)), omega arith, refl, tt),
  ),
)

parse_protocol_data-generate_protocol_data_example :
    (pa' : Analyzer lists) × (generate_protocol_data (analyzer 17) ≡ some (true, pa'))
    × (parse_protocol_data (with_fields (map (with_value 9) fields) pa')
        ≡ some (true, with_fields (map masked fields) pa'))
parse_protocol_data-generate_protocol_data_example =
    parse_protocol_data-generate_protocol_data (analyzer 17) fields 9 refl (omega arith) fields_fit

get_protocol_bit_data-set_protocol_bit_data_example :
    (dp' : Bytes) × (set_protocol_bit_data 2748 0 4 12 (224 ∷ 0 ∷ []) ≡ some dp')
    × (get_protocol_bit_data 0 4 12 dp' ≡ some (2748 % 2 ^ 12))
    × ((i : ℕ) → i < 0 → get_elem? dp' i ≡ get_elem? (224 ∷ 0 ∷ []) i)
unfolding get_protocol_bit_data get_bits take_len get_bit_data pa_pow
get_protocol_bit_data-set_protocol_bit_data_example =
    get_protocol_bit_data-set_protocol_bit_data 2748 0 4 12 (224 ∷ 0 ∷ []) (omega arith)
      (omega arith) (omega arith) refl

find_protocol_format-add_proto_link_list_example :
    (pfs' : FormatSet) × (add_proto_link_list 1 (some fields) table ≡ some (true, pfs'))
    × (find_protocol_format (record (analyzer 17) { pfs = pfs' })
        ≡ some (true, record (analyzer 17) { pfs = pfs'; pf_list = some fields }))
    × ((j : ℕ) → entry pfs' j ≡ (if j == 1 then some (some fields) else entry table j))
    × (pfs'.proto_total_num ≡ 1)
find_protocol_format-add_proto_link_list_example =
    find_protocol_format-add_proto_link_list (analyzer 17) 1 fields (refl, omega arith)
      (omega arith) (omega arith) refl

find_protocol_format_faults_example : find_protocol_format (analyzer 19) ≡ none
find_protocol_format_faults_example =
    find_protocol_format_faults (analyzer 19) (refl, omega arith) refl

names_differ : Refuses (105 ∷ 100 ∷ []) (field (105 ∷ 110 ∷ []) 2 7 2 8 74565 ∷ [])
unfolding Refuses default_key_cmp_func same_bytes
names_differ = (refl, tt)

find_key-create_hash_table_example :
    (pa' : Analyzer lists) × (create_hash_table (analyzer 17) fresh (λ i. i) ≡ some (true, pa'))
    × (pa'.pa_list ≡ some fields)
    × (find_key pa' (105 ∷ 100 ∷ []) ≡ some 1)
find_key-create_hash_table_example =
    find_key-create_hash_table (analyzer 17) fields fresh (λ i. i) 1
      (field (105 ∷ 100 ∷ []) 0 4 12 1 2748) (λ x y e. e) refl refl refl refl (omega arith)
      names_differ (omega arith)
