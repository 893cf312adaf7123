-- ===== src/RbtreeMap.antt =====
-- src/libdata_structure/rbtree_map/rbtree_map.c with src/include/libdata_structure/rbtree_map.h and
-- map_pair.h: an ordered map over the kernel's red-black tree, which keeps the position of its first
-- node. Nodes are addresses and `cells` holds the bytes of each, the key before the value. The
-- allocator's answer is an argument, `none` for a null pointer; a result of `none` is a fault. A
-- position is its node, `none` for a null pointer. The locks are left out: each call runs alone.
pub mod Tree
pub mod Keys
pub mod Order
pub mod Descend
pub mod Insert
pub mod Update
pub mod Delete
mod Tests
use Prim.Native.Nat.{Ordering}
use Prim.Native.Nat.Ordering.{lt, eq, gt}
use mathlib.Core.Option
use libcutils.Base.{
  ℕ, zero, suc, ◌+◌, ◌-◌, ◌%◌, ◌^◌, List, [], ◌∷◌, Bool, true, false, Option, none, some, ◌==◌,
  if◌then◌else◌, drop,
}
use libcutils.Base.Monad.{◌>>=◌}
use libcutils.Base.Memory.{load}
use libcutils.Base.Words.{add32}
use libcutils.HashMap.Keys.{Pair, create_pair, make_pair, or_default}
use libcutils.RbtreeMap.Tree.{Shape, leaf, node, Turn, to_left, to_right, KernelTree}
use libcutils.RbtreeMap.Keys.{Bytes, Sign, default_key_cmp_func}

-- The loop of `__rbtree_map_search`, down from a node.
unfoldable pub search_from : (ℕ → Sign) → Shape → Option ℕ
search_from sign leaf = none
search_from sign (node l m r) = elim (sign m) [
  | lt ↦ search_from sign l
  | gt ↦ search_from sign r
  | eq ↦ some m
]

-- The loop of `__rbtree_map_insert`: the way to the link for the new node, `none` at an equal key.
unfoldable pub find_link : (ℕ → Sign) → Shape → Option (List Turn)
find_link sign leaf = some []
find_link sign (node l m r) = elim (sign m) [
  | lt ↦ Option.map (λ (way : List Turn). to_left ∷ way) (find_link sign l)
  | gt ↦ Option.map (λ (way : List Turn). to_right ∷ way) (find_link sign r)
  | eq ↦ none
]

unfoldable pub pos_equal : Option ℕ → Option ℕ → Bool
pos_equal none none = true
pos_equal none (some q) = false
pos_equal (some p) none = false
pos_equal (some p) (some q) = p == q

-- The bytes of a new node.
abbrev pub update : (ℕ → Bytes) → ℕ → Bytes → ℕ → Bytes
update cells p block q = if q == p then block else cells q

module _ (api : KernelTree) where
  open api use {Root}

  -- `rbtree_map_t`; a node's `value_pos` is the low byte of `key_size`.
  pub record RbtreeMap : Type 0 where
    pub data_size : ℕ
    pub key_size : ℕ
    pub key_cmp_func : Option (Bytes → Bytes → ℕ → Sign)
    pub tree_root : Root
    pub cells : ℕ → Bytes
    pub begin : Option ℕ
    pub end : Option ℕ
    pub pair : Pair

module _ {api : KernelTree} where
  open api use {Root, shape, empty, link_and_color, erase, first, next}

  -- Whether the allocator grants the root, which is written through.
  unfoldable pub init : RbtreeMap api → ℕ → ℕ → Bool → Option (RbtreeMap api)
  init map key_size value_size false = none
  init map key_size value_size true = some (record map {
    pair = create_pair key_size value_size;
    key_cmp_func = some (or_default default_key_cmp_func map.key_cmp_func);
    data_size = add32 key_size value_size;
    key_size = key_size;
    tree_root = empty;
    begin = none;
    end = none;
  })

  -- How the comparison of the map places a key beside the key of a node.
  unfoldable pub sign_of : RbtreeMap api → (Bytes → Bytes → ℕ → Sign) → Bytes → ℕ → Sign
  sign_of map cmp key n = cmp key (map.cells n) (map.key_size % 2 ^ 8)

  -- The result of `__rbtree_map_insert`, which says whether the node was linked, is not looked at.
  unfoldable pub insert_data : RbtreeMap api → Bytes → Option ℕ → Option (Bool × RbtreeMap api)
  unfolding sign_of
  insert_data map value none = some (false, map)
  insert_data map value (some mnode) = do
    block ← load value 0 map.data_size
    cmp ← map.key_cmp_func
    let map' : RbtreeMap api = record map { cells = update map.cells mnode block }
    let root : Root = elim (find_link (sign_of map' cmp block) (shape map.tree_root)) [
      | none ↦ map.tree_root
      | some way ↦ link_and_color mnode way map.tree_root
    ]
    some (true, record map' { tree_root = root; begin = first root })

  unfoldable pub insert : RbtreeMap api → Bytes → Bytes → Option ℕ → Option (Bool × RbtreeMap api)
  unfolding insert_data
  insert map key value mnode = do
    pair ← make_pair map.pair key value
    insert_data (record map { pair = pair }) pair.bytes mnode

  unfoldable pub search : RbtreeMap api → Bytes → Option (Option ℕ)
  unfolding sign_of
  search map key = do
    cmp ← map.key_cmp_func
    some (search_from (sign_of map cmp key) (shape map.tree_root))

  unfoldable pub pos_next : RbtreeMap api → Option ℕ → Option ℕ
  pos_next map none = none
  pos_next map (some p) = next p map.tree_root

  -- A null position is dereferenced, by the macro or by `rb_erase`.
  unfoldable pub delete : RbtreeMap api → Option ℕ → Option (RbtreeMap api)
  unfolding pos_equal pos_next
  delete map none = none
  delete map (some p) = some (record map {
    begin = if pos_equal (some p) map.begin then pos_next map (some p) else map.begin;
    tree_root = erase p map.tree_root;
  })

  unfoldable pub pos_get_pointer : RbtreeMap api → Option ℕ → Option Bytes
  pos_get_pointer map pos = do p ← pos; some (drop (map.key_size % 2 ^ 8) (map.cells p))

  -- The loop of `rbtree_map_destroy`, on fuel: the nodes freed, in order, and the map that is left.
  unfoldable pub destroy_loop : ℕ → RbtreeMap api → Option (List ℕ × RbtreeMap api)
  unfolding pos_equal delete
  destroy_loop zero map = none
  destroy_loop (suc fuel) map = elim (pos_equal map.begin map.end) [
    | true ↦ some ([], map)
    | false ↦ do
      p ← map.begin
      map' ← delete map (some p)
      (freed, left) ← destroy_loop fuel map'
      some (p ∷ freed, left)
  ]
