-- ===== src/HashMap/Insert.antt =====
-- `hash_map_insert_data`: the invariant, the result, and where the node goes.
use libcutils.Base.{
  ℕ, zero, suc, ◌+◌, ◌^◌, ◌≤◌, ◌<◌, ◌≡◌, refl, sym, ap, ◌∙◌, List, [], ◌∷◌, ◌||◌, none, some, arith,
  length, set, get_elem?, leb, if◌then◌else◌, length-set, get_elem?-set_self, ◌==◌,
}
use libcutils.Base.Memory.{slice, load-some}
use libcutils.Base.Words.{add32}
use libcutils.HashMap.Chain.{Hlist}
use libcutils.HashMap.Keys.{ret, Bytes}
use libcutils.HashMap.{Pos, HashMap, same_node, insert_data_wb}
use libcutils.HashMap.Order.{here, IsValid, moved, find_head-set, length-walk-set}

begin-inserted :
    (p : Pos) (b n : ℕ)
    → here (
        if same_node p.node none || leb b p.bucket_pos
        then record { node = some n; bucket_pos = b }
        else p)
      ≡ moved n b (here p)
unfolding same_node
begin-inserted p b n = ground arith

pub get_elem?-some :
    {A : Type 0} (hs : List A) (b : ℕ) → b < length hs → (head : A) × (get_elem? hs b ≡ some head)
get_elem?-some [] b h = absurd (omega arith)
get_elem?-some (g ∷ hs) zero h = (g, refl)
get_elem?-some (g ∷ hs) (suc b) h = get_elem?-some hs b (omega arith)

module _ {api : Hlist} where
  open api use {Head, nodes, add_head}

  -- The map with the node at the head of chain `b`.
  abbrev pub inserted : HashMap api → Bytes → ℕ → ℕ → Head → HashMap api
  inserted map block mnode b head = record map {
    hlist = set map.hlist b (add_head mnode head);
    cells = λ n. if n == mnode then slice block 0 map.data_size else map.cells n;
    begin =
        if same_node map.begin.node none || leb b map.begin.bucket_pos
        then record { node = some mnode; bucket_pos = b }
        else map.begin;
    node_count = add32 map.node_count 1;
  }

  pub inserted-IsValid :
      (map : HashMap api) (block : Bytes) (mnode b : ℕ) (head : Head)
      → IsValid api map
      → get_elem? map.hlist b ≡ some head
      → map.node_count + 1 < 2 ^ 32
      → IsValid api (inserted map block mnode b head)
  inserted-IsValid map block mnode b head k e few = record {
    buckets = length-set map.hlist b (add_head mnode head) ∙ k.buckets;
    positive = k.positive;
    small = k.small;
    first =
        begin-inserted map.begin b mnode
        ∙ ap (moved mnode b) k.first
        ∙ sym (find_head-set api map.hlist 0 b b mnode head e (omega arith));
    counted = omega (arith, k.counted, length-walk-set api map.hlist b mnode head e);
    end_none = k.end_none;
  }

  pub insert_data_wb-some :
      (map : HashMap api) (block : Bytes) (mnode b : ℕ) (hash : Bytes → ℕ → ℕ → ℕ) (head : Head)
      → map.hash_func ≡ some hash
      → hash (slice block 0 map.data_size) map.key_size map.bucket_size ≡ b
      → map.data_size ≤ length block
      → b ≤ map.bucket_size
      → get_elem? map.hlist b ≡ some head
      → insert_data_wb map block (some mnode)
        ≡ some (
          ret map.node_count,
          some (record { node = some mnode; bucket_pos = b }),
          inserted map block mnode b head,
        )
  unfolding insert_data_wb
  insert_data_wb-some map block mnode b hash head f e l le g =
      ground (arith, f, e, g, load-some block 0 map.data_size)

-- With a hash function that stays below the number of chains, an insertion of a whole block into
-- memory that the allocator granted succeeds: the result is the old count, the position written
-- back is that of the new node at the head of its chain, and the map stays valid, its first
-- position and its count included.
pub insert_data_wb_lem :
    {api : Hlist} (map : HashMap api) (block : Bytes) (mnode : ℕ) (hash : Bytes → ℕ → ℕ → ℕ)
    → IsValid api map
    → map.hash_func ≡ some hash
    → ((key : Bytes) (size : ℕ) → hash key size map.bucket_size < map.bucket_size)
    → map.data_size ≤ length block
    → map.node_count + 1 < 2 ^ 32
    → let b = hash (slice block 0 map.data_size) map.key_size map.bucket_size in
      (map' : HashMap api) × (head : api.Head) × (head' : api.Head) × (insert_data_wb map block
          (some mnode)
        ≡ some (ret map.node_count, some (record { node = some mnode; bucket_pos = b }), map'))
      × IsValid api map'
      × (get_elem? map.hlist b ≡ some head)
      × (get_elem? map'.hlist b ≡ some head')
      × (api.nodes head' ≡ mnode ∷ api.nodes head)
insert_data_wb_lem {api} map block mnode hash k f below l few =
    let b = hash (slice block 0 map.data_size) map.key_size map.bucket_size in
    let lt : b < map.bucket_size = below (slice block 0 map.data_size) map.key_size in
    let (head, e) = get_elem?-some map.hlist b (omega (arith, lt, k.buckets)) in
    (
      inserted map block mnode b head,
      head,
      api.add_head mnode head,
      insert_data_wb-some map block mnode b hash head f refl l (omega (arith, lt)) e,
      inserted-IsValid map block mnode b head k e few,
      e,
      get_elem?-set_self map.hlist b (api.add_head mnode head) (omega (arith, lt, k.buckets)),
      api.nodes-add_head mnode head,
    )
