-- ===== src/Alloc/Pools.antt =====
-- `mempool_find_appropriate_pool` and `mempool_create_list`: a pool that has room, an old or a new one.
use libcutils.Base.{
  ℕ, ◌+◌, ◌^◌, ◌≤◌, ◌<◌, ◌≡◌, refl, ap, List, [], ◌∷◌, true, false, Option, none, some, arith, ◌==◌,
  if◌then◌else◌, leb,
}
use native.Mathlib.Decide.{dec_le}
use libcutils.Alloc.Chain.{KernelList}
use libcutils.Alloc.{
  CtrAlloc, Mempool, find_pool, create_list, or_new, attach_made, as_size, less_int, attach_list,
  detach_list,
}

-- A pool with room for a number of bytes, none of them counted beyond its end.
unfoldable pub HasRoom : ℕ → Mempool → Type 0
HasRoom need m = (need ≤ m.depth) × (m.depth ≤ m.size) × (m.size < 2 ^ 31)

pub as_size-small : (n : ℕ) → n < 2 ^ 31 → as_size n ≡ n
unfolding as_size
as_size-small n h = ground arith

module _ {api : KernelList} where
  -- The pools and the sizes are those of another state.
  pub record Kept (a b : CtrAlloc api) : Type 0 where
    mempools : b.mempools ≡ a.mempools
    max : b.slab_array_max_num ≡ a.slab_array_max_num
    min : b.data_min_size ≡ a.data_min_size
    capacity : b.mempool_capacity ≡ a.mempool_capacity

  -- An outcome names a pool with room, if any, and keeps the pools.
  unfoldable pub Outcome : ℕ → CtrAlloc api → Option ℕ × CtrAlloc api → Type 0
  Outcome need a (none, b) = Kept a b
  Outcome need a (some p, b) = Kept a b × (need ≤ as_size (a.mempools p).depth)

  kept : (a : CtrAlloc api) → Kept a a
  kept a = record { mempools = refl; max = refl; min = refl; capacity = refl }

  -- Moving a pool to the empty ones keeps the pools.
  after_move :
      (need p : ℕ) (a : CtrAlloc api) (r : Option ℕ × CtrAlloc api)
      → Outcome need
          (record a { pool = detach_list p a.pool; empty_pool = attach_list p a.empty_pool })
          r
      → Outcome need a r
  unfolding Outcome
  after_move need p a (none, b) k = record {
    mempools = k.mempools;
    max = k.max;
    min = k.min;
    capacity = k.capacity;
  }
  after_move need p a (some q, b) (k, le) =
      (record { mempools = k.mempools; max = k.max; min = k.min; capacity = k.capacity }, le)

  pub find_pool_lem :
      (ps : List ℕ) (need : ℕ) (a : CtrAlloc api) → Outcome need a (find_pool ps need a)
  unfolding find_pool Outcome
  find_pool_lem [] need a = kept a
  find_pool_lem (p ∷ ps) need a =
      let moved : CtrAlloc api = record a {
        pool = detach_list p a.pool;
        empty_pool = attach_list p a.empty_pool;
      } in
      let stay = find_pool_lem ps need a in
      let move = find_pool_lem ps need moved in
      elim (dec_le need (as_size (a.mempools p).depth)) [
        | yes le ↦
            let t : leb need (as_size (a.mempools p).depth) ≡ true = ground arith in
            rw t (kept a, le)
        | no over ↦
            let t : leb need (as_size (a.mempools p).depth) ≡ false = ground arith in
            rw t
              (elim (less_int (a.mempools p).depth (a.mempools p).min_depth)
                as (λ x. Outcome need a (find_pool ps need (if x then moved else a))) [
                  | true ↦ after_move need p a (find_pool ps need moved) move
                  | false ↦ stay
                ])
      ]

  -- A pool that is found or made has room.
  unfoldable pub Served : ℕ → CtrAlloc api → Option ℕ × CtrAlloc api → Type 0
  Served need a (none, b) = ⊥
  Served need a (some p, b) =
      HasRoom need (b.mempools p)
      × ((b.mempools p).start + (b.mempools p).size < 2 ^ 64)
      × (b.slab_array_max_num ≡ a.slab_array_max_num)
      × (b.data_min_size ≡ a.data_min_size)

  pub or_new-room :
      (a : CtrAlloc api) (need q start : ℕ) (r : Option ℕ × CtrAlloc api)
      → Outcome need a r
      → need ≤ a.mempool_capacity
      → a.mempool_capacity < 2 ^ 31
      → ((p : ℕ) → (a.mempools p).depth ≤ (a.mempools p).size)
      → ((p : ℕ) → (a.mempools p).size < 2 ^ 31)
      → ((p : ℕ) → (a.mempools p).start + (a.mempools p).size < 2 ^ 64)
      → start + a.mempool_capacity < 2 ^ 64
      → Served need a (or_new (some q) (some start) r)
  unfolding or_new attach_made create_list HasRoom Outcome Served
  or_new-room a need q start (some p, b) (k, le) room top within short space fresh =
      let d : as_size (a.mempools p).depth ≡ (a.mempools p).depth =
        as_size-small (a.mempools p).depth (omega (arith, within p, short p)) in
      let same : b.mempools p ≡ a.mempools p = ap (λ (f : ℕ → Mempool). f p) k.mempools in
      (rw same (omega (arith, le, d), within p, short p), rw same (space p), k.max, k.min)
  or_new-room a need q start (none, b) k room top within short space fresh =
      let t : (q == q) ≡ true = ground arith in
      (
        rw t (omega (arith, k.capacity), omega arith, omega (arith, k.capacity)),
        rw t (omega (arith, fresh, k.capacity)),
        k.max,
        k.min,
      )
