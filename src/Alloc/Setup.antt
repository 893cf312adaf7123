-- ===== src/Alloc/Setup.antt =====
-- `__init` with nothing configured, and the requests that are served from then on.
use libcutils.Base.{
  ℕ, ◌+◌, ◌-◌, ◌*◌, ◌^◌, ◌≤◌, ◌<◌, ◌≡◌, refl, ap, ◌∙◌, [], ◌∷◌, true, false, Option, none, some,
  arith, ◌==◌, if◌then◌else◌, replicate,
}
use libcutils.Alloc.Chain.{KernelList}
use libcutils.Alloc.Classes.{IsClass, get_slab_index_lem, pow2_mono}
use libcutils.Alloc.Carve.{alloc_slab_list_lem}
use libcutils.Alloc.{
  CtrAlloc, Mempool, sizeof_slab, update, pow, init, create_list, attach_made, attach_list,
  init_head_list, get_slab_index, alloc_slab_list,
}

-- A size up to the largest default class has a class, whose slab fits a pool with its header.
default_class :
    (size : ℕ) (o : Option (Option ℕ))
    → IsClass 12 8 size o
    → size ≤ 2 ^ 14
    → (i : ℕ) × (o ≡ some (some i)) × (2 ^ i * 8 + sizeof_slab ≤ 2 ^ 15)
unfolding IsClass
default_class size none k h = absurd k
default_class size (some none) k h = absurd (omega (arith, k))
default_class size (some (some i)) k h =
    let m : 2 ^ i ≤ 2 ^ 11 = pow2_mono (11 - i) i 11 (omega (arith, k.0)) in
    (i, refl, omega (arith, m))

-- The pools lie within the address space, none used beyond its end.
pub record ArePools (m : ℕ → Mempool) : Type 0 where
  pub top : (p : ℕ) → (m p).depth ≤ (m p).size
  pub word : (p : ℕ) → (m p).size < 2 ^ 31
  pub space : (p : ℕ) → (m p).start + (m p).size < 2 ^ 64

updated-ArePools :
    (m : ℕ → Mempool) (p : ℕ) (v : Mempool)
    → ArePools m
    → v.depth ≤ v.size
    → v.size < 2 ^ 31
    → v.start + v.size < 2 ^ 64
    → ArePools (update m p v)
updated-ArePools m p v k t w s = record {
  top = λ q. elim (q == p) as (λ b. (if b then v else m q).depth ≤ (if b then v else m q).size) [
    | true ↦ t
    | false ↦ k.top q
  ];
  word = λ q. elim (q == p) as (λ b. (if b then v else m q).size < 2 ^ 31) [
    | true ↦ w
    | false ↦ k.word q
  ];
  space = λ q.
      elim (q == p) as (λ b. (if b then v else m q).start + (if b then v else m q).size < 2 ^ 64) [
        | true ↦ s
        | false ↦ k.space q
      ];
}

module _ {api : KernelList} where
  open api use {members, members-add, members-empty}

  -- The allocator with the default sizes and one empty pool.
  abbrev started : CtrAlloc api → ℕ → ℕ → CtrAlloc api
  started a p start = record {
    slab_array_max_num = 12;
    mempool_capacity = 2 ^ 15;
    data_min_size = 8;
    empty_pool = init_head_list;
    pool = attach_list p init_head_list;
    used_huge_slabs = init_head_list;
    free_slabs = replicate 12 init_head_list;
    used_slabs = replicate 12 init_head_list;
    alloc_count = 0;
    slabs = a.slabs;
    mempools =
        update a.mempools p
          (record { start = start; depth = 2 ^ 15; min_depth = 72; size = 2 ^ 15 });
  }

  init-started :
      (a : CtrAlloc api) (p start : ℕ)
      → a.slab_array_max_num ≡ 0
      → a.data_min_size ≡ 0
      → a.mempool_capacity ≡ 0
      → init a true (some p) (some start) ≡ (0, some p, started a p start)
  unfolding init attach_made create_list pow
  init-started a p start max min capacity = rw (max, min, capacity) refl

  -- With nothing configured, memory whose pools are in order, and two grants of it that lie within the
  -- address space, `__init` returns 0 and a pool list of one pool,
  -- and every request up to 16384 bytes is then served: the slab holds it, is marked as used and
  -- lies in a pool, header and data.
  pub alloc_slab_list-init :
      (a : CtrAlloc api) (p start size q fresh : ℕ)
      → a.slab_array_max_num ≡ 0
      → a.data_min_size ≡ 0
      → a.mempool_capacity ≡ 0
      → ArePools a.mempools
      → start + 2 ^ 15 < 2 ^ 64
      → fresh + 2 ^ 15 < 2 ^ 64
      → size ≤ 2 ^ 14
      → (a₁ : CtrAlloc api) × (a₂ : CtrAlloc api) × (o : ℕ) × (slab : ℕ) × (init a true
            (some p)
            (some start)
          ≡ (0, some p, a₁))
        × (members a₁.pool.list_head ≡ p ∷ [])
        × (alloc_slab_list a₁ size (some q) (some fresh) ≡ some (some slab, a₂))
        × (size ≤ (a₂.slabs slab).size)
        × ((a₂.slabs slab).stat_flag ≡ 1)
        × ((a₂.mempools o).start ≤ slab)
        × (slab + sizeof_slab + (a₂.slabs slab).size ≤ (a₂.mempools o).start + (a₂.mempools o).size)
  unfolding attach_list init_head_list
  alloc_slab_list-init a p start size q fresh max min capacity ok low low' fits =
      let s = started a p start in
      let pools =
        updated-ArePools a.mempools p
          (record { start = start; depth = 2 ^ 15; min_depth = 72; size = 2 ^ 15 }) ok (omega arith)
          (omega arith) low in
      let (i, class, room) =
        default_class size (get_slab_index s size)
          (get_slab_index_lem s size (omega arith) (omega arith) (omega arith)) fits in
      let (o, slab, a₂, e, holds, flag, after, _, inside) =
        alloc_slab_list_lem s size i q fresh (omega arith) (omega arith) (omega arith) class room
          (omega arith) pools.top pools.word pools.space low' in
      (
        s,
        a₂,
        o,
        slab,
        init-started a p start max min capacity,
        members-add p api.empty ∙ ap (λ xs. p ∷ xs) members-empty,
        e,
        holds,
        flag,
        after,
        inside,
      )
