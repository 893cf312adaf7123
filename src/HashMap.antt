-- ===== src/HashMap.antt =====
-- src/libdata_structure/hash_map/hash_list.c with src/include/libdata_structure/hash_list.h and
-- map_pair.h: a table of chains that keeps the position of its first node.
-- Nodes are addresses; `cells` holds the bytes of each, the key before the value. The allocator's
-- answer is an argument, `none` for a null pointer. A key is the bytes before its NUL. A result of
-- `none` is a fault: an access outside a block, a null pointer used, or a failed `assert`.
-- The locks are left out: each call runs alone.
pub mod Chain
pub mod Keys
pub mod Order
pub mod Search
pub mod Insert
pub mod Layout
mod Tests
use libcutils.HashMap.Chain.{Hlist}
use libcutils.HashMap.Keys.{
  Status, failed, ret, assert, Bytes, default_key_cmp_func, default_hash_func, Pair, create_pair,
  make_pair, or_default,
}
use mathlib.Core.List.{head?}
use mathlib.Core.Option
use libcutils.Base.{
  ℕ, zero, suc, ◌+◌, ◌-◌, ◌*◌, ◌%◌, ◌^◌, List, [], ◌∷◌, ◌++◌, Bool, true, false, ◌||◌, Option, none,
  some, ltb, leb, ◌==◌, if◌then◌else◌, get_elem?, set, take, drop, replicate, length,
}
use libcutils.Base.Monad.{◌>>=◌, ◌>>◌}
use libcutils.Base.Memory.{load}
use libcutils.Base.Words.{add32, sub32}

-- `hash_map_pos_t`, but for the pointers back to the table and the map.
pub record Pos : Type 0 where
  pub node : Option ℕ
  pub bucket_pos : ℕ

-- `hash_map_pos_equal` compares the node pointers alone.
unfoldable pub same_node : Option ℕ → Option ℕ → Bool
same_node none none = true
same_node none (some b) = false
same_node (some a) none = false
same_node (some a) (some b) = a == b

unfoldable pub pos_equal : Pos → Pos → Bool
unfolding same_node
pos_equal p q = same_node p.node q.node

-- The node behind a node in its chain: `pos->hlist_node_p->next`.
unfoldable pub next_node : ℕ → List ℕ → Option ℕ
next_node n [] = none
next_node n (x ∷ xs) = if x == n then head? xs else next_node n xs

-- `hlist_for_each_safe` up to the first node that the test accepts.
unfoldable pub find_node : (ℕ → Bool) → List ℕ → Option ℕ
find_node test [] = none
find_node test (x ∷ xs) = if test x then some x else find_node test xs

module _ (api : Hlist) where
  open api use {Head, nodes, empty, add_head, del}

  -- `hash_map_t`; a node's `value_pos` is the low byte of `key_size`.
  pub record HashMap : Type 0 where
    pub bucket_size : ℕ
    pub data_size : ℕ
    pub key_size : ℕ
    pub hash_func : Option (Bytes → ℕ → ℕ → ℕ)
    pub key_cmp_func : Option (Bytes → Bytes → ℕ → Bool)
    pub hlist : List Head
    pub cells : ℕ → Bytes
    pub begin : Pos
    pub end : Pos
    pub node_count : ℕ
    pub pair : Pair

  -- The first node in the heads from an index on: the loop of `hash_map_pos_next`.
  unfoldable pub find_head : List Head → ℕ → Option Pos
  find_head [] bucket_pos = none
  find_head (h ∷ hs) bucket_pos = elim (head? (nodes h)) [
    | some n ↦ some (record { node = some n; bucket_pos = bucket_pos })
    | none ↦ find_head hs (bucket_pos + 1)
  ]

module _ {api : Hlist} where
  open api use {Head, nodes, empty, add_head, del}

  -- `table` says whether the allocator returns the table of heads.
  unfoldable pub init : HashMap api → ℕ → ℕ → ℕ → Bool → Status × HashMap api
  init map key_size value_size bucket_size table =
      let size = if bucket_size == 0 then 20 else bucket_size in
      let map' : HashMap api = record map {
        data_size = add32 value_size key_size;
        key_size = key_size;
        bucket_size = size;
        node_count = 0;
        pair = create_pair key_size value_size;
        key_cmp_func = some (or_default default_key_cmp_func map.key_cmp_func);
        hash_func = some (or_default default_hash_func map.hash_func);
      } in
      if table
      then (
        ret 0,
        record map' {
          hlist = replicate size empty;
          begin = record { node = none; bucket_pos = 0 };
          end = record { node = none; bucket_pos = sub32 size 1 };
        },
      )
      else (failed, map')

  -- The code that `hash_map_insert_data` and its variant share: the new node goes to the head of
  -- its chain, and the first position moves there if the chain does not lie behind it.
  unfoldable pub insert_data_wb :
      HashMap api → Bytes → Option ℕ → Option (Status × Option Pos × HashMap api)
  insert_data_wb map block none = some (failed, none, map)
  insert_data_wb map block (some mnode) = do
    key ← load block 0 map.data_size
    hash ← map.hash_func
    let bucket_pos = hash key map.key_size map.bucket_size
    assert (leb bucket_pos map.bucket_size)
    head ← get_elem? map.hlist bucket_pos
    let first : Pos = record { node = some mnode; bucket_pos = bucket_pos }
    some (
      ret map.node_count,
      some first,
      record map {
        hlist = set map.hlist bucket_pos (add_head mnode head);
        cells = λ n. if n == mnode then key else map.cells n;
        begin =
            if same_node map.begin.node none || leb bucket_pos map.begin.bucket_pos
            then first
            else map.begin;
        node_count = add32 map.node_count 1;
      },
    )

  unfoldable pub insert_data : HashMap api → Bytes → Option ℕ → Option (Status × HashMap api)
  insert_data map block mnode = do
    (status, out, map') ← insert_data_wb map block mnode
    some (status, map')

  unfoldable pub insert_wb :
      HashMap api → Bytes → Bytes → Option ℕ → Option (Status × Option Pos × HashMap api)
  insert_wb map key value mnode = do
    pair ← make_pair map.pair key value
    insert_data_wb (record map { pair = pair }) pair.bytes mnode

  unfoldable pub insert : HashMap api → Bytes → Bytes → Option ℕ → Option (Status × HashMap api)
  insert map key value mnode = do
    pair ← make_pair map.pair key value
    insert_data (record map { pair = pair }) pair.bytes mnode

  -- A key that is shorter than its field is hashed and compared over its own bytes only.
  unfoldable pub search : HashMap api → Bytes → Option (Status × Option Pos)
  search map key = do
    let key_size = if ltb (length key) map.key_size then length key else map.key_size
    hash ← map.hash_func
    let bucket_pos = hash key key_size map.bucket_size
    assert (leb bucket_pos map.bucket_size)
    elim map.key_cmp_func [
      | none ↦ some (failed, none)
      | some cmp ↦ do
        head ← get_elem? map.hlist bucket_pos
        elim (find_node (λ n. cmp (map.cells n) key key_size) (nodes head)) [
          | none ↦ some (failed, none)
          | some n ↦ some (ret 1, some (record { node = some n; bucket_pos = bucket_pos }))
        ]
    ]

  -- `none` leaves the next position unwritten.
  unfoldable pub pos_next : HashMap api → Pos → Option Pos
  pos_next map pos = do
    n ← pos.node
    head ← get_elem? map.hlist pos.bucket_pos
    elim (next_node n (nodes head)) [
      | some m ↦ some (record { node = some m; bucket_pos = pos.bucket_pos })
      | none ↦
          if ltb pos.bucket_pos (sub32 map.bucket_size 1)
          then some (
              Option.get_or
                (find_head api (drop (pos.bucket_pos + 1) map.hlist) (pos.bucket_pos + 1))
                (record { node = none; bucket_pos = sub32 map.bucket_size 1 }))
          else if pos.bucket_pos == sub32 map.bucket_size 1
          then some (record { node = none; bucket_pos = pos.bucket_pos })
          else none
    ]

  -- Deleting at the first position moves that position on before the node is unlinked.
  unfoldable pub delete : HashMap api → Pos → Option (HashMap api)
  delete map pos = do
    n ← pos.node
    begin ← if pos_equal pos map.begin then pos_next map pos else some map.begin
    head ← get_elem? map.hlist pos.bucket_pos
    some (record map {
      hlist = set map.hlist pos.bucket_pos (del n head);
      begin = begin;
      node_count = sub32 map.node_count 1;
    })

  -- The loop of `hash_map_destroy`, on fuel: the map that is left when `begin` meets `end`.
  unfoldable pub destroy_loop : ℕ → HashMap api → Option (HashMap api)
  destroy_loop zero map = none
  destroy_loop (suc fuel) map = elim (pos_equal map.begin map.end) [
    | true ↦ some map
    | false ↦ do map' ← delete map map.begin; destroy_loop fuel map'
  ]

  -- What the pointers of `hash_map_pos_get_kpointer` and `hash_map_pos_get_pointer` point at.
  unfoldable pub get_kpointer : HashMap api → Pos → Option Bytes
  get_kpointer map pos = do n ← pos.node; some (map.cells n)

  unfoldable pub get_pointer : HashMap api → Pos → Option Bytes
  get_pointer map pos = do n ← pos.node; some (drop (map.key_size % 2 ^ 8) (map.cells n))
