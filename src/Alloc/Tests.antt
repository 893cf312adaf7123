-- ===== src/Alloc/Tests.antt =====
-- An allocator of three classes over lists of addresses, and the theorems at it.
use libcutils.Base.{
  ℕ, ◌+◌, ◌-◌, ◌≤◌, ◌≡◌, refl, List, [], ◌∷◌, true, Option, none, some, arith, get_elem?,
}
use libcutils.Base.Words.{sub32}
use libcutils.Alloc.Chain.{KernelList, remove}
use libcutils.Alloc.Classes.{IsClass, get_slab_index_lem}
use libcutils.Alloc.Carve.{alloc_slab_list_lem}
use libcutils.Alloc.Reuse.{alloc-free}
use libcutils.Alloc.Setup.{ArePools, alloc_slab_list-init}
use libcutils.Alloc.{
  init, CtrAlloc, HeadList, Slab, pow, as_size, less_int, slab_index_from, init_head_list,
  attach_list, detach_list, at_index, get_slab_index, get_real_alloc_mem_size,
  detach_front_from_free_slabs, attach_to_used_slabs, detach_from_used_slabs, attach_to_free_slabs,
  find_pool, find_appropriate_pool, create_list, attach_made, or_new, carve, alloc_slab_list,
  alloc_huge_slab, alloc_normal_slab, alloc, free_huge_slab, free_normal_slab, free,
}

abbrev lists : KernelList
lists = record {
  Head = List ℕ;
  members = λ h. h;
  empty = [];
  add = λ n h. n ∷ h;
  del = remove;
  members-empty = refl;
  members-add = λ n h. refl;
  members-del = λ n h. refl;
}

abbrev no_members : HeadList lists
no_members = record { count = 0; list_head = [] }

abbrev idle : Slab
idle = record { size = 0; data_size = 0; slab_size = 0; stat_flag = 0 }

-- No pool yet: the first request makes one.
abbrev start_state : CtrAlloc lists
start_state = record {
  slab_array_max_num = 3;
  mempool_capacity = 200;
  data_min_size = 8;
  empty_pool = no_members;
  pool = no_members;
  used_huge_slabs = no_members;
  free_slabs = no_members ∷ no_members ∷ no_members ∷ [];
  used_slabs = no_members ∷ no_members ∷ no_members ∷ [];
  alloc_count = 0;
  slabs = λ p. idle;
  mempools = λ p. record { start = 0; depth = 0; min_depth = 0; size = 0 };
}

program : Unit {0}
unfolding pow as_size less_int slab_index_from init_head_list attach_list detach_list at_index
    get_slab_index get_real_alloc_mem_size detach_front_from_free_slabs attach_to_used_slabs
    detach_from_used_slabs attach_to_free_slabs find_pool find_appropriate_pool create_list
    attach_made or_new carve alloc_slab_list alloc_huge_slab alloc_normal_slab alloc free_huge_slab
    free_normal_slab free IsClass
program = tt

-- The address and the count after a request for a number of bytes, with a new pool at 1000 if one is
-- needed, a huge slab at 5000 if that is.
abbrev request : CtrAlloc lists → ℕ → Option (Option ℕ × CtrAlloc lists)
request a size = alloc a size (some 5000) (some 900) (some 1000)

-- The second slab begins where the first one of 16 bytes ends.
abbrev two_requests : Option (Option ℕ × Option ℕ × ℕ)
two_requests = elim (request start_state 10) [
  | none ↦ none
  | some (first, a) ↦ elim (request a 32) [
    | none ↦ none
    | some (second, b) ↦ some (first, second, b.alloc_count)
  ]
]

two_requests_lem : two_requests ≡ some (some 1064, some 1144, 2)
unfolding program
two_requests_lem = refl

-- 33 bytes are above the largest class.
abbrev huge_request : Option (Option ℕ × List ℕ)
huge_request = elim (request start_state 33) [
  | none ↦ none
  | some (p, a) ↦ some (p, a.used_huge_slabs.list_head)
]

huge_request_lem : huge_request ≡ some (some 5064, 5000 ∷ [])
unfolding program
huge_request_lem = refl

classes : get_slab_index start_state 17 ≡ some (some 2)
unfolding program
classes = refl

get_slab_index_lem_example : IsClass 3 8 17 (get_slab_index start_state 17)
get_slab_index_lem_example =
    get_slab_index_lem start_state 17 (omega arith) (omega arith) (omega arith)

alloc_slab_list_lem_example :
    (p : ℕ) × (slab : ℕ) × (a' : CtrAlloc lists) × (alloc_slab_list start_state 17
        (some 900)
        (some 1000)
      ≡ some (some slab, a'))
    × (17 ≤ (a'.slabs slab).size)
    × ((a'.slabs slab).stat_flag ≡ 1)
    × ((a'.mempools p).start ≤ slab)
    × ((a'.mempools p).start + ((a'.mempools p).size - (a'.mempools p).depth)
        ≡ slab + 64 + (a'.slabs slab).size)
    × (slab + 64 + (a'.slabs slab).size ≤ (a'.mempools p).start + (a'.mempools p).size)
alloc_slab_list_lem_example =
    alloc_slab_list_lem start_state 17 2 900 1000 (omega arith) (omega arith) (omega arith) classes
      (omega arith) (omega arith) (λ p. omega arith) (λ p. omega arith) (λ p. omega arith)
      (omega arith)

-- A slab of 16 bytes in use at 1000.
abbrev one_used : CtrAlloc lists
one_used = record start_state {
  used_slabs = no_members ∷ record { count = 1; list_head = 1000 ∷ [] } ∷ no_members ∷ [];
  slabs = λ p. record { size = 16; data_size = 10; slab_size = 80; stat_flag = 1 };
  alloc_count = 1;
}

slab_class : get_slab_index one_used 16 ≡ some (some 1)
unfolding program
slab_class = refl

small_class : get_slab_index one_used 12 ≡ some (some 1)
unfolding program
small_class = refl

alloc-free_example :
    (a₁ : CtrAlloc lists) × (a₂ : CtrAlloc lists) × (f₂ : HeadList lists) × (free one_used
        (some 1064)
      ≡ some a₁)
    × (free a₁ (some 1064) ≡ some a₁)
    × (a₁.alloc_count ≡ sub32 1 1)
    × (alloc a₁ 12 none none none ≡ some (some 1064, a₂))
    × (a₂.alloc_count ≡ 1)
    × ((a₂.slabs 1000).stat_flag ≡ 1)
    × (get_elem? a₂.free_slabs 1 ≡ some f₂)
    × (f₂.list_head ≡ [])
    × (f₂.count ≡ 0)
alloc-free_example =
    alloc-free one_used 1000 1 12 (record { count = 1; list_head = 1000 ∷ [] }) no_members none none
      none refl slab_class (omega arith) refl refl small_class (omega arith) (omega arith)
      (omega arith)

-- Nothing configured.
abbrev zeroed : CtrAlloc lists
zeroed = record start_state { slab_array_max_num = 0; mempool_capacity = 0; data_min_size = 0 }

zeroed-ArePools : ArePools zeroed.mempools
zeroed-ArePools = record {
  top = λ p. omega arith;
  word = λ p. omega arith;
  space = λ p. omega arith;
}

alloc_slab_list-init_example :
    (a₁ : CtrAlloc lists) × (a₂ : CtrAlloc lists) × (o : ℕ) × (slab : ℕ) × (init zeroed true
        (some 900)
        (some 1000)
      ≡ (0, some 900, a₁))
    × (a₁.pool.list_head ≡ 900 ∷ [])
    × (alloc_slab_list a₁ 100 (some 901) (some 40000) ≡ some (some slab, a₂))
    × (100 ≤ (a₂.slabs slab).size)
    × ((a₂.slabs slab).stat_flag ≡ 1)
    × ((a₂.mempools o).start ≤ slab)
    × (slab + 64 + (a₂.slabs slab).size ≤ (a₂.mempools o).start + (a₂.mempools o).size)
alloc_slab_list-init_example =
    alloc_slab_list-init zeroed 900 1000 100 901 40000 refl refl refl zeroed-ArePools (omega arith)
      (omega arith) (omega arith)
