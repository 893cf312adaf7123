-- ===== src/HashMap/Tests.antt =====
-- Chains as lists of nodes, a map of three chains, and the theorems at it.
use libcutils.Base.{
  ℕ, ◌-◌, ◌<◌, ◌≡◌, refl, List, [], ◌∷◌, Option, none, some, true, arith, get_elem?,
}
use libcutils.Base.Memory.{slice, overwrite, load, store}
use mathlib.Core.Option
use libcutils.HashMap.Chain.{Hlist, remove}
use libcutils.HashMap.Keys.{
  Status, ret, Bytes, create_pair, make_pair, default_hash_func, default_key_cmp_func, same_bytes,
}
use libcutils.HashMap.Layout.{IsPair}
use libcutils.HashMap.{
  Pos, HashMap, same_node, pos_equal, next_node, find_node, find_head, init, insert, insert_data,
  insert_wb, insert_data_wb, search, pos_next, delete, destroy_loop, get_pointer, get_kpointer,
}
use libcutils.HashMap.Order.{IsValid, walk}
use libcutils.HashMap.Insert.{insert_data_wb_lem}
use libcutils.HashMap.Search.{insert-search, search_prefix}

abbrev lists : Hlist
lists = record {
  Head = List ℕ;
  nodes = λ h. h;
  empty = [];
  add_head = λ n h. n ∷ h;
  del = remove;
  nodes-empty = refl;
  nodes-add_head = λ n h. refl;
  nodes-del = λ n h. refl;
}

abbrev raw : HashMap lists
raw = record {
  bucket_size = 0;
  data_size = 0;
  key_size = 0;
  hash_func = none;
  key_cmp_func = none;
  hlist = [];
  cells = λ n. [];
  begin = record { node = none; bucket_pos = 0 };
  end = record { node = none; bucket_pos = 0 };
  node_count = 0;
  pair = record { data_len = 0; key_len = 0; value_len = 0; bytes = [] };
}

-- Keys of three bytes, values of two, three chains.
abbrev map : HashMap lists
map = record {
  bucket_size = 3;
  data_size = 5;
  key_size = 3;
  hash_func = some default_hash_func;
  key_cmp_func = some default_key_cmp_func;
  hlist = [] ∷ [] ∷ [] ∷ [];
  cells = λ n. [];
  begin = record { node = none; bucket_pos = 0 };
  end = record { node = none; bucket_pos = 2 };
  node_count = 0;
  pair = record { data_len = 5; key_len = 3; value_len = 2; bytes = 0 ∷ 0 ∷ 0 ∷ 0 ∷ 0 ∷ [] };
}

init_lem : init raw 3 2 3 true ≡ (ret 0, map)
unfolding init create_pair
init_lem = refl

map-IsValid : IsValid lists map
unfolding find_head walk
map-IsValid = record {
  buckets = refl;
  positive = omega arith;
  small = omega arith;
  first = refl;
  counted = refl;
  end_none = refl;
}

map-IsPair : IsPair map.pair
map-IsPair = omega arith

abbrev key : Bytes
key = b'a' ∷ b'b' ∷ []

abbrev long_key : Bytes
long_key = b'a' ∷ b'b' ∷ b'c' ∷ []

-- A hash function of the client's own.
abbrev last_chain : Bytes → ℕ → ℕ → ℕ
last_chain bytes size n = n - 1

abbrev custom : HashMap lists
custom = record map { hash_func = some last_chain; bucket_size = 3 }

below : (bytes : Bytes) (size : ℕ) → last_chain bytes size 3 < 3
below bytes size = omega arith

custom-IsValid : IsValid lists custom
unfolding find_head walk
custom-IsValid = record {
  buckets = refl;
  positive = omega arith;
  small = omega arith;
  first = refl;
  counted = refl;
  end_none = refl;
}

insert_data_wb_lem_example :
    (map' : HashMap lists) × (head : List ℕ) × (head' : List ℕ) × (insert_data_wb custom
        (1 ∷ 2 ∷ 3 ∷ 4 ∷ 5 ∷ [])
        (some 40)
      ≡ some (ret 0, some (record { node = some 40; bucket_pos = 2 }), map'))
    × IsValid lists map'
    × (get_elem? custom.hlist 2 ≡ some head)
    × (get_elem? map'.hlist 2 ≡ some head')
    × (head' ≡ 40 ∷ head)
insert_data_wb_lem_example =
    insert_data_wb_lem custom (1 ∷ 2 ∷ 3 ∷ 4 ∷ 5 ∷ []) 40 last_chain custom-IsValid refl below
      (omega arith) (omega arith)

insert-search_example :
    (pos : Pos) × (map' : HashMap lists) × (insert_wb map key (7 ∷ 8 ∷ []) (some 40)
      ≡ some (ret 0, some pos, map'))
    × (pos.node ≡ some 40)
    × (search map' key ≡ some (ret 1, some pos))
    × IsValid lists map'
insert-search_example =
    insert-search map key (7 ∷ 8 ∷ []) 40 map-IsValid refl refl map-IsPair refl refl (omega arith)
      (omega arith)

-- The key "abc" alone in its chain: 'c' is 99, so "ab" falls into the same one.
abbrev one : HashMap lists
one = record map {
  hlist = (40 ∷ []) ∷ [] ∷ [] ∷ [];
  cells = λ n. b'a' ∷ b'b' ∷ b'c' ∷ 7 ∷ 8 ∷ [];
  begin = record { node = some 40; bucket_pos = 0 };
  node_count = 1;
}

program : Unit {0}
unfolding same_node pos_equal next_node find_node find_head init insert insert_data insert_wb
    insert_data_wb search pos_next delete destroy_loop get_pointer get_kpointer make_pair
    create_pair default_hash_func default_key_cmp_func same_bytes load store slice overwrite walk
program = tt

hash_one : default_hash_func key 2 3 ≡ 0
unfolding program
hash_one = refl

search_prefix_example :
    search one key
    ≡ some (ret 1, some (record { node = some 40; bucket_pos = default_hash_func key 2 3 }))
search_prefix_example =
    search_prefix one key (b'c' ∷ 7 ∷ 8 ∷ []) 40 (40 ∷ []) [] refl refl (omega arith) (omega arith)
      (unfold program in refl) refl refl

-- Two insertions, a walk, a deletion and the end.
session : Option (Status × Option Pos × Option Pos × Option Bytes × Option (ℕ × List ℕ))
unfolding program
session =
    Option.map
      (λ r.
        let m = r.1 in
        (
          r.0,
          pos_next m m.begin,
          Option.bind (pos_next m m.begin) (pos_next m),
          get_pointer m m.begin,
          Option.map (λ n. (n.node_count, walk lists n.hlist)) (delete m m.begin),
        ))
      (Option.bind (insert map long_key (7 ∷ 8 ∷ []) (some 40))
        (λ r. insert r.1 (b'd' ∷ []) (9 ∷ 9 ∷ []) (some 50)))

session_lem :
    session
    ≡ some (
      ret 1,
      some (record { node = some 50; bucket_pos = 1 }),
      some (record { node = none; bucket_pos = 2 }),
      some (7 ∷ 8 ∷ []),
      some (1, 50 ∷ []),
    )
unfolding session program Option.bind
session_lem = refl

destroyed : Option.map (λ m. m.node_count) (destroy_loop 5 one) ≡ some 0
unfolding program
destroyed = refl
