-- ===== src/Alloc.antt =====
-- src/liballoc/ctr_alloc: the allocator that carves slabs of a few sizes from pools and keeps the
-- released ones in a list for each size. Slabs and pools are named by their addresses, and `slabs`
-- and `mempools` hold their headers. The answers of `malloc` are arguments, `none` for a null pointer;
-- a result of `none` is a fault. Signed numbers are kept as 32-bit patterns. The locks are left out.
pub mod Chain
pub mod Slabs
pub mod Classes
pub mod Reuse
pub mod Pools
pub mod Carve
pub mod Setup
mod Tests
unfoldable pub use Slabs.*
use libcutils.Alloc.Chain.{KernelList}
use libcutils.Base.{
  ℕ, ◌+◌, ◌-◌, ◌*◌, ◌%◌, ◌^◌, List, [], ◌∷◌, Bool, ◌||◌, Option, none, some, ltb, leb, ◌==◌,
  if◌then◌else◌, replicate,
}
use libcutils.Base.Monad.{◌>>=◌}
use libcutils.Base.Words.{add32, sub32}

module _ {api : KernelList} where
  open api use {members}

  -- The loop of `mempool_find_appropriate_pool` over the pools: those that are used up move to the
  -- list of empty ones on the way.
  unfoldable pub find_pool : List ℕ → ℕ → CtrAlloc api → Option ℕ × CtrAlloc api
  find_pool [] need a = (none, a)
  find_pool (p ∷ ps) need a =
      let moved : CtrAlloc api = record a {
        pool = detach_list p a.pool;
        empty_pool = attach_list p a.empty_pool;
      } in
      let rest =
        find_pool ps need
          (if less_int (a.mempools p).depth (a.mempools p).min_depth then moved else a) in
      if leb need (as_size (a.mempools p).depth) then (some p, a) else rest

  unfoldable pub find_appropriate_pool : CtrAlloc api → ℕ → Option (Option ℕ × CtrAlloc api)
  find_appropriate_pool a size = do
    real ← get_real_alloc_mem_size a size
    some (find_pool (members a.pool.list_head) (real + sizeof_slab) a)

  -- The header of a pool and its block are two calls of `malloc`.
  unfoldable pub create_list : CtrAlloc api → Option ℕ → Option ℕ → Option ℕ × CtrAlloc api
  create_list a none start = (none, a)
  create_list a (some p) none = (none, a)
  create_list a (some p) (some start) = (
    some p,
    record a {
      mempools = update a.mempools p (record {
        start = start;
        depth = a.mempool_capacity;
        min_depth = add32 a.data_min_size sizeof_slab;
        size = a.mempool_capacity;
      });
    },
  )

  unfoldable pub attach_made : Option ℕ × CtrAlloc api → Option ℕ × CtrAlloc api
  attach_made (none, a) = (none, a)
  attach_made (some p, a) = (some p, record a { pool = attach_list p a.pool })

  -- The pool found, or else a new one.
  unfoldable pub or_new : Option ℕ → Option ℕ → Option ℕ × CtrAlloc api → Option ℕ × CtrAlloc api
  or_new header start (some p, a) = (some p, a)
  or_new header start (none, a) = attach_made (create_list a header start)

  -- A slab is cut from the unused end of the pool; the fault is the failed `assert`.
  unfoldable pub carve : ℕ → Option ℕ × CtrAlloc api → Option (Option ℕ × CtrAlloc api)
  carve size (none, a) = some (none, a)
  carve size (some p, a) = do
    real ← get_real_alloc_mem_size a size
    let m = a.mempools p
    let slab = (m.start + as_size m.size + 2 ^ 64 - as_size m.depth) % 2 ^ 64
    let slab_size = add32 real sizeof_slab
    if ltb real size
        then none
        else some (
          some slab,
          record a {
            slabs =
                update a.slabs slab
                  (record { size = real; data_size = size; slab_size = slab_size; stat_flag = 1 });
            mempools = update a.mempools p (record m { depth = sub32 m.depth slab_size });
          },
        )

  unfoldable pub alloc_slab_list :
      CtrAlloc api → ℕ → Option ℕ → Option ℕ → Option (Option ℕ × CtrAlloc api)
  alloc_slab_list a size header start = do
    found ← find_appropriate_pool a size
    carve size (or_new header start found)

  -- `__init`: the status, where 2 ^ 32 - 1 is -1, and the first pool. `tables` says whether the two
  -- tables of lists are granted; the list heads are taken to be. Without a first pool the code
  -- leaves `pool` null, which the middle result tells.
  unfoldable pub init : CtrAlloc api → Bool → Option ℕ → Option ℕ → ℕ × Option ℕ × CtrAlloc api
  init a tables header start =
      let max = if a.slab_array_max_num == 0 then 12 else a.slab_array_max_num in
      let min = if a.data_min_size == 0 then 8 else a.data_min_size in
      let a₁ : CtrAlloc api = record a {
        slab_array_max_num = max;
        data_min_size = min;
        mempool_capacity =
            if a.mempool_capacity == 0 then (pow 2 max * min) % 2 ^ 32 else a.mempool_capacity;
        alloc_count = 0;
      } in
      let a₂ : CtrAlloc api = record a₁ {
        used_slabs = replicate max init_head_list;
        free_slabs = replicate max init_head_list;
        used_huge_slabs = init_head_list;
        pool = init_head_list;
      } in
      let (first, a₃) = attach_made (create_list a₂ header start) in
      if tables
      then (0, first, record a₃ { empty_pool = init_head_list })
      else (2 ^ 32 - 1, none, a₁)

  -- The count goes up even where `malloc` fails.
  unfoldable pub alloc_huge_slab : CtrAlloc api → ℕ → Option ℕ → Option ℕ × CtrAlloc api
  alloc_huge_slab a size none = (none, record a { alloc_count = add32 a.alloc_count 1 })
  alloc_huge_slab a size (some slab) = (
    some (slab + sizeof_slab),
    record a {
      alloc_count = add32 a.alloc_count 1;
      slabs = update a.slabs slab (record {
        size = size;
        data_size = size;
        slab_size = add32 size sizeof_slab;
        stat_flag = 1;
      });
      used_huge_slabs = attach_list slab a.used_huge_slabs;
    },
  )

  -- The address returned is that of the data behind the slab's header.
  unfoldable pub alloc_normal_slab :
      CtrAlloc api → ℕ → Option ℕ → Option ℕ → Option (Option ℕ × CtrAlloc api)
  alloc_normal_slab a size header start = do
    (old, a₁) ← detach_front_from_free_slabs a size
    (slab, a₂) ← elim old [
      | some s ↦ some (some s, a₁)
      | none ↦ alloc_slab_list a₁ size header start
    ]
    elim slab [
      | none ↦ some (none, a₂)
      | some s ↦ do
        a₃ ← attach_to_used_slabs a₂ s size
        some (some (s + sizeof_slab), record a₃ { alloc_count = add32 a₃.alloc_count 1 })
    ]

  -- `__alloc`; `huge` answers the call for a huge slab, the other two those for a new pool.
  unfoldable pub alloc :
      CtrAlloc api → ℕ → Option ℕ → Option ℕ → Option ℕ → Option (Option ℕ × CtrAlloc api)
  alloc a size huge header start = do
    index ← get_slab_index a size
    if ltb a.mempool_capacity size || is_negative index
        then some (alloc_huge_slab a size huge)
        else alloc_normal_slab a size header start

  unfoldable pub free_huge_slab : CtrAlloc api → ℕ → CtrAlloc api
  free_huge_slab a slab = record a {
    used_huge_slabs = detach_list slab a.used_huge_slabs;
    alloc_count = sub32 a.alloc_count 1;
  }

  unfoldable pub free_normal_slab : CtrAlloc api → ℕ → Option (CtrAlloc api)
  free_normal_slab a slab = do
    let size = (a.slabs slab).size
    a₁ ← detach_from_used_slabs a slab size
    let a₂ : CtrAlloc api = record a₁ {
      slabs = update a₁.slabs slab (record (a₁.slabs slab) { stat_flag = 0 });
    }
    a₃ ← attach_to_free_slabs a₂ slab size
    some (record a₃ { alloc_count = sub32 a₃.alloc_count 1 })

  -- `__free`; `none` is the null pointer.
  unfoldable pub free : CtrAlloc api → Option ℕ → Option (CtrAlloc api)
  free a none = some a
  free a (some addr) =
      let slab = addr - sizeof_slab in
      if (a.slabs slab).stat_flag == 0 then some a else (do
        index ← get_slab_index a (a.slabs slab).size
        if leb a.mempool_capacity (a.slabs slab).size || is_negative index
            then some (free_huge_slab a slab)
            else free_normal_slab a slab)
