-- ===== src/Alloc/Slabs.antt =====
-- src/liballoc/ctr_alloc/allocator_ctr_slab_list.c with the records of allocator_ctr_alloc.h: the
-- class of a size, and the lists of free and used slabs.
use libcutils.Alloc.Chain.{KernelList}
use mathlib.Core.List.{head?}
use libcutils.Base.{
  ℕ, zero, suc, ◌+◌, ◌-◌, ◌*◌, ◌/◌, ◌%◌, ◌^◌, List, Bool, true, false, ◌&&◌, ◌||◌, Option, none,
  some, ltb, ◌==◌, if◌then◌else◌, get_elem?, set,
}
use libcutils.Base.Monad.{◌>>=◌}
use libcutils.Base.Words.{add32, sub32}

-- `sizeof(ctr_slab_t)` with pointers of eight bytes
abbrev pub sizeof_slab : ℕ
sizeof_slab = 64

-- An `int` as a `size_t`, and the order of two of them.
unfoldable pub as_size : ℕ → ℕ
as_size n = if ltb n (2 ^ 31) then n else n + 2 ^ 64 - 2 ^ 32

unfoldable pub less_int : ℕ → ℕ → Bool
less_int a b = ltb ((a + 2 ^ 31) % 2 ^ 32) ((b + 2 ^ 31) % 2 ^ 32)

-- `____pow`
unfoldable pub pow : ℕ → ℕ → ℕ
pow x zero = 1
pow x (suc y) = (pow x y * x) % 2 ^ 32

-- `ctr_slab_t`, but for the tag and the list link
pub record Slab : Type 0 where
  pub size : ℕ
  pub data_size : ℕ
  pub slab_size : ℕ
  pub stat_flag : ℕ

-- `ctr_mempool_t`
pub record Mempool : Type 0 where
  pub start : ℕ
  pub depth : ℕ
  pub min_depth : ℕ
  pub size : ℕ

-- The entry for an address.
abbrev pub update : {A : Type 0} → (ℕ → A) → ℕ → A → ℕ → A
update f p v q = if q == p then v else f q

-- The loop of `slab_get_slab_index` from an index on, over the rounds left: the first class that
-- holds the size; the inner `none` is -1, the outer one a division by zero.
unfoldable pub slab_index_from : ℕ → ℕ → ℕ → ℕ → Option (Option ℕ)
slab_index_from zero i min size = some none
slab_index_from (suc rounds) i min size =
    let bound = (pow 2 i * min) % 2 ^ 32 in
    let rest = slab_index_from rounds (i + 1) min size in
    if bound == 0
    then none
    else if size / bound == 0 || (size / bound == 1 && size % bound == 0)
    then some (some i)
    else rest

-- An `int` index that is -1.
abbrev pub is_negative : Option ℕ → Bool
is_negative none = true
is_negative (some i) = false

module _ (api : KernelList) where
  open api use {Head}

  -- `ctr_slab_head_list_t` and `ctr_mempool_head_list_t`
  pub record HeadList : Type 0 where
    pub count : ℕ
    pub list_head : Head

  -- `ctr_alloc_t` with the count of the allocator around it
  pub record CtrAlloc : Type 0 where
    pub slab_array_max_num : ℕ
    pub mempool_capacity : ℕ
    pub data_min_size : ℕ
    pub empty_pool : HeadList
    pub pool : HeadList
    pub used_huge_slabs : HeadList
    pub free_slabs : List HeadList
    pub used_slabs : List HeadList
    pub alloc_count : ℕ
    pub slabs : ℕ → Slab
    pub mempools : ℕ → Mempool

module _ {api : KernelList} where
  open api use {members, empty, add, del}

  -- `slab_init_head_list`, `mempool_init_head_list`
  unfoldable pub init_head_list : HeadList api
  init_head_list = record { count = 0; list_head = empty }

  -- `slab_attach_list`, `mempool_attach_list`
  unfoldable pub attach_list : ℕ → HeadList api → HeadList api
  attach_list new hl = record { count = add32 hl.count 1; list_head = add new hl.list_head }

  -- `slab_detach_list`, `mempool_detach_list`
  unfoldable pub detach_list : ℕ → HeadList api → HeadList api
  detach_list old hl = record { count = sub32 hl.count 1; list_head = del old hl.list_head }

  -- An index of -1 is outside the array.
  unfoldable pub at_index : Option ℕ → List (HeadList api) → Option (HeadList api)
  at_index none lists = none
  at_index (some i) lists = get_elem? lists i

  abbrev pub put_index : Option ℕ → List (HeadList api) → HeadList api → List (HeadList api)
  put_index none lists hl = lists
  put_index (some i) lists hl = set lists i hl

  unfoldable pub get_slab_index : CtrAlloc api → ℕ → Option (Option ℕ)
  get_slab_index a size = slab_index_from a.slab_array_max_num 0 a.data_min_size size

  -- `____pow(2, -1)` is 0.
  unfoldable pub get_real_alloc_mem_size : CtrAlloc api → ℕ → Option ℕ
  get_real_alloc_mem_size a size = do
    index ← get_slab_index a size
    some (elim index [ none ↦ 0 | some i ↦ (pow 2 i * a.data_min_size) % 2 ^ 32 ])

  -- The list keeps its other members; the slab taken is marked as used.
  unfoldable pub detach_front_from_free_slabs : CtrAlloc api → ℕ → Option (Option ℕ × CtrAlloc api)
  detach_front_from_free_slabs a size = do
    index ← get_slab_index a size
    hl ← at_index index a.free_slabs
    elim (head? (members hl.list_head)) [
      | none ↦ some (none, a)
      | some slab ↦ some (
        some slab,
        record a {
          free_slabs = put_index index a.free_slabs (detach_list slab hl);
          slabs = update a.slabs slab (record (a.slabs slab) { stat_flag = 1 });
        },
      )
    ]

  unfoldable pub attach_to_used_slabs : CtrAlloc api → ℕ → ℕ → Option (CtrAlloc api)
  attach_to_used_slabs a slab size = do
    index ← get_slab_index a size
    hl ← at_index index a.used_slabs
    some (record a { used_slabs = put_index index a.used_slabs (attach_list slab hl) })

  unfoldable pub detach_from_used_slabs : CtrAlloc api → ℕ → ℕ → Option (CtrAlloc api)
  detach_from_used_slabs a slab size = do
    index ← get_slab_index a size
    hl ← at_index index a.used_slabs
    some (record a { used_slabs = put_index index a.used_slabs (detach_list slab hl) })

  unfoldable pub attach_to_free_slabs : CtrAlloc api → ℕ → ℕ → Option (CtrAlloc api)
  attach_to_free_slabs a slab size = do
    index ← get_slab_index a size
    hl ← at_index index a.free_slabs
    some (record a { free_slabs = put_index index a.free_slabs (attach_list slab hl) })
