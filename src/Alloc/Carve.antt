-- ===== src/Alloc/Carve.antt =====
-- `mempool_alloc_slab_list`: a slab is cut from the unused end of a pool that has room for it.
use libcutils.Base.{
  ℕ, ◌+◌, ◌-◌, ◌*◌, ◌%◌, ◌^◌, ◌≤◌, ◌<◌, ◌≡◌, refl, ap, ap₂, ◌∙◌, subst, true, false, Option, none,
  some, arith, ◌==◌, ltb,
}
use libcutils.Base.Monad.{◌>>=◌}
use libcutils.Base.Words.{add32, sub32}
use libcutils.Alloc.Chain.{KernelList}
use libcutils.Alloc.Classes.{IsClass, get_slab_index_lem, bound_mono, bound_lem}
use libcutils.Alloc.Pools.{HasRoom, Served, find_pool_lem, or_new-room, as_size-small}
use libcutils.Alloc.{
  CtrAlloc, slab_index_from, sizeof_slab, update, pow, get_slab_index, get_real_alloc_mem_size,
  find_pool, find_appropriate_pool, or_new, as_size, carve, alloc_slab_list,
}

module _ {api : KernelList} where
  real_lem :
      (a : CtrAlloc api) (size i : ℕ)
      → 0 < a.slab_array_max_num
      → 0 < a.data_min_size
      → 2 ^ a.slab_array_max_num * a.data_min_size < 2 ^ 32
      → get_slab_index a size ≡ some (some i)
      → (get_real_alloc_mem_size a size ≡ some (2 ^ i * a.data_min_size))
        × (size ≤ 2 ^ i * a.data_min_size)
  unfolding get_real_alloc_mem_size IsClass
  real_lem a size i pos h b class =
      let max = a.slab_array_max_num in
      let k = subst (IsClass max a.data_min_size size) class (get_slab_index_lem a size pos h b) in
      let small : 2 ^ i * a.data_min_size < 2 ^ 32 =
        omega (arith, b, bound_mono (max - i) i max a.data_min_size (omega (arith, k.0))) in
      (rw class (ap (λ n. some n) (bound_lem i a.data_min_size h small)), k.1)

  -- The allocator after a slab was cut at an address.
  abbrev carved : CtrAlloc api → ℕ → ℕ → ℕ → ℕ → CtrAlloc api
  carved b size real p slab = record b {
    slabs = update b.slabs slab (record {
      size = real;
      data_size = size;
      slab_size = add32 real sizeof_slab;
      stat_flag = 1;
    });
    mempools =
        update b.mempools p
          (record (b.mempools p) { depth = sub32 (b.mempools p).depth (add32 real sizeof_slab) });
  }

  carve-some :
      (b : CtrAlloc api) (size real p : ℕ)
      → get_real_alloc_mem_size b size ≡ some real
      → size ≤ real
      → HasRoom (real + sizeof_slab) (b.mempools p)
      → (b.mempools p).start + (b.mempools p).size < 2 ^ 64
      → let m = b.mempools p in
        let slab = m.start + (m.size - m.depth) in
        carve size (some p, b) ≡ some (some slab, carved b size real p slab)
  unfolding carve HasRoom
  carve-some b size real p e holds (room, top, word) space =
      let m = b.mempools p in
      let slab = m.start + (m.size - m.depth) in
      let d = as_size-small m.depth (omega (arith, top, word)) in
      let w = as_size-small m.size word in
      let at : (m.start + as_size m.size + 2 ^ 64 - as_size m.depth) % 2 ^ 64 ≡ slab =
        rw (d, w) (omega (arith, space, top)) in
      let t : ltb real size ≡ false = ground arith in rw (e, at, t) refl

  carved-inside :
      (b : CtrAlloc api) (size real p : ℕ)
      → HasRoom (real + sizeof_slab) (b.mempools p)
      → let m = b.mempools p in
        let slab = m.start + (m.size - m.depth) in
        let a' = carved b size real p slab in
        ((a'.slabs slab).size ≡ real)
        × ((a'.slabs slab).stat_flag ≡ 1)
        × ((a'.mempools p).start + ((a'.mempools p).size - (a'.mempools p).depth)
            ≡ slab + sizeof_slab + real)
        × (slab + sizeof_slab + real ≤ (a'.mempools p).start + (a'.mempools p).size)
  unfolding HasRoom
  carved-inside b size real p (room, top, word) =
      let m = b.mempools p in
      let slab = m.start + (m.size - m.depth) in
      let q : (p == p) ≡ true = ground arith in
      let r : (slab == slab) ≡ true = ground arith in
      rw (q, r) (refl, refl, omega (arith, room, top, word), omega (arith, room, top, word))

  -- The size of a slab depends on two fields alone.
  same_real :
      (a b : CtrAlloc api) (size : ℕ)
      → b.slab_array_max_num ≡ a.slab_array_max_num
      → b.data_min_size ≡ a.data_min_size
      → get_real_alloc_mem_size b size ≡ get_real_alloc_mem_size a size
  unfolding get_real_alloc_mem_size get_slab_index
  same_real a b size max min =
      ap₂
        (λ (mx : ℕ) (mn : ℕ). slab_index_from mx 0 mn size >>= λ index.
          some (elim index [ none ↦ 0 | some i ↦ (pow 2 i * mn) % 2 ^ 32 ]))
        max min

  -- The request for a class whose slabs, with their headers, fit a new pool.
  serve :
      (a : CtrAlloc api) (size real : ℕ) (r : Option ℕ × CtrAlloc api)
      → Served (real + sizeof_slab) a r
      → get_real_alloc_mem_size a size ≡ some real
      → size ≤ real
      → (p : ℕ) × (slab : ℕ) × (a' : CtrAlloc api) × (carve size r ≡ some (some slab, a'))
        × (size ≤ (a'.slabs slab).size)
        × ((a'.slabs slab).stat_flag ≡ 1)
        × ((a'.mempools p).start ≤ slab)
        × ((a'.mempools p).start + ((a'.mempools p).size - (a'.mempools p).depth)
            ≡ slab + sizeof_slab + (a'.slabs slab).size)
        × (slab + sizeof_slab + (a'.slabs slab).size ≤ (a'.mempools p).start + (a'.mempools p).size)
  unfolding Served
  serve a size real (none, b) ok e holds = absurd ok
  serve a size real (some p, b) (room, space, max, min) e holds =
      let m = b.mempools p in
      let slab = m.start + (m.size - m.depth) in
      let q : (p == p) ≡ true = ground arith in
      let f : get_real_alloc_mem_size b size ≡ some real = same_real a b size max min ∙ e in
      let (sized, flag, next, inside) = carved-inside b size real p room in
      (
        p,
        slab,
        carved b size real p slab,
        carve-some b size real p f holds room space,
        rw sized holds,
        flag,
        rw q (omega arith),
        rw sized next,
        rw sized inside,
      )

  -- With pools whose use stays within them, below 2 GB and within the address space, and classes, at
  -- least one, whose sizes start above zero and stay below 2 ^ 32, a request of a class whose slab
  -- with its header fits a new pool, of less than 2 GB and within the address space, is always served, whether a pool has room or
  -- `malloc` must grant a new one. The slab is marked as used and holds the request; it lies inside
  -- one pool, header and data, and the unused part of that pool begins where the slab ends.
  pub alloc_slab_list_lem :
      (a : CtrAlloc api) (size i q start : ℕ)
      → 0 < a.slab_array_max_num
      → 0 < a.data_min_size
      → 2 ^ a.slab_array_max_num * a.data_min_size < 2 ^ 32
      → get_slab_index a size ≡ some (some i)
      → 2 ^ i * a.data_min_size + sizeof_slab ≤ a.mempool_capacity
      → a.mempool_capacity < 2 ^ 31
      → ((p : ℕ) → (a.mempools p).depth ≤ (a.mempools p).size)
      → ((p : ℕ) → (a.mempools p).size < 2 ^ 31)
      → ((p : ℕ) → (a.mempools p).start + (a.mempools p).size < 2 ^ 64)
      → start + a.mempool_capacity < 2 ^ 64
      → (p : ℕ) × (slab : ℕ) × (a' : CtrAlloc api) × (alloc_slab_list a size (some q) (some start)
          ≡ some (some slab, a'))
        × (size ≤ (a'.slabs slab).size)
        × ((a'.slabs slab).stat_flag ≡ 1)
        × ((a'.mempools p).start ≤ slab)
        × ((a'.mempools p).start + ((a'.mempools p).size - (a'.mempools p).depth)
            ≡ slab + sizeof_slab + (a'.slabs slab).size)
        × (slab + sizeof_slab + (a'.slabs slab).size ≤ (a'.mempools p).start + (a'.mempools p).size)
  unfolding alloc_slab_list find_appropriate_pool
  alloc_slab_list_lem a size i q start pos h b class room top within short space fresh =
      let real = 2 ^ i * a.data_min_size in
      let need = real + sizeof_slab in
      let (e, holds) = real_lem a size i pos h b class in
      let r = find_pool (api.members a.pool.list_head) need a in
      let ok =
        or_new-room a need q start r (find_pool_lem (api.members a.pool.list_head) need a) room top
          within short space fresh in
      rw e (serve a size real (or_new (some q) (some start) r) ok e holds)
