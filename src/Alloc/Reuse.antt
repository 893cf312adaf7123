-- ===== src/Alloc/Reuse.antt =====
-- `__free` and the `__alloc` after it: a released slab is marked, listed and handed out again.
use mathlib.Core.List.{head?}
use libcutils.Base.{
  ℕ, zero, suc, ◌+◌, ◌-◌, ◌^◌, ◌≤◌, ◌<◌, ◌≡◌, refl, ap, ◌∙◌, List, [], ◌∷◌, true, false, Option,
  some, arith, ◌==◌, leb, ltb, set, get_elem?,
}
use libcutils.Base.Words.{add32, sub32}
use libcutils.Alloc.Chain.{KernelList, remove}
use libcutils.Alloc.{
  CtrAlloc, HeadList, Slab, sizeof_slab, update, get_slab_index, attach_list, detach_list, at_index,
  detach_front_from_free_slabs, attach_to_used_slabs, detach_from_used_slabs, attach_to_free_slabs,
  alloc_normal_slab, alloc, free_normal_slab, free,
}

set-found :
    {A : Type 0} (xs : List A) (i : ℕ) (x v : A)
    → get_elem? xs i ≡ some x
    → get_elem? (set xs i v) i ≡ some v
set-found [] i x v e = ground arith
set-found (y ∷ ys) zero x v e = refl
set-found (y ∷ ys) (suc i) x v e = set-found ys i x v e

update_self : {A : Type 0} (f : ℕ → A) (p : ℕ) (v : A) → update f p v p ≡ v
update_self f p v = let t : (p == p) ≡ true = ground arith in rw t refl

remove_front : (s : ℕ) (xs : List ℕ) → remove s (s ∷ xs) ≡ xs
remove_front s xs = let t : (s == s) ≡ true = ground arith in rw t refl

module _ {api : KernelList} where
  open api use {members, members-add, members-del}

  -- The allocator after the slab went from the used to the free list of class `i`.
  abbrev freed : CtrAlloc api → ℕ → ℕ → HeadList api → HeadList api → CtrAlloc api
  freed a s i u f = record a {
    used_slabs = set a.used_slabs i (detach_list s u);
    slabs = update a.slabs s (record (a.slabs s) { stat_flag = 0 });
    free_slabs = set a.free_slabs i (attach_list s f);
    alloc_count = sub32 a.alloc_count 1;
  }

  free-some :
      (a : CtrAlloc api) (s i : ℕ) (u f : HeadList api)
      → (a.slabs s).stat_flag ≡ 1
      → get_slab_index a (a.slabs s).size ≡ some (some i)
      → (a.slabs s).size < a.mempool_capacity
      → get_elem? a.used_slabs i ≡ some u
      → get_elem? a.free_slabs i ≡ some f
      → free a (some (s + sizeof_slab)) ≡ some (freed a s i u f)
  unfolding free free_normal_slab detach_from_used_slabs attach_to_free_slabs at_index
      get_slab_index
  free-some a s i u f used class below eu ef =
      let back : s + 64 - 64 ≡ s = omega arith in
      let c : leb a.mempool_capacity (a.slabs s).size ≡ false = ground arith in
      rw (back, used, class, c, eu) (rw (class, ef) refl)

  free-idle :
      (a : CtrAlloc api) (s : ℕ)
      → (a.slabs s).stat_flag ≡ 0
      → free a (some (s + sizeof_slab)) ≡ some a
  unfolding free
  free-idle a s idle = let back : s + 64 - 64 ≡ s = omega arith in rw (back, idle) refl

  -- The allocator after the slab went from the free to the used list of class `i`.
  abbrev reused : CtrAlloc api → ℕ → ℕ → HeadList api → HeadList api → CtrAlloc api
  reused a s i u f = record a {
    free_slabs = set a.free_slabs i (detach_list s f);
    slabs = update a.slabs s (record (a.slabs s) { stat_flag = 1 });
    used_slabs = set a.used_slabs i (attach_list s u);
    alloc_count = add32 a.alloc_count 1;
  }

  alloc-some :
      (a : CtrAlloc api) (s i size : ℕ) (u f : HeadList api) (huge header start : Option ℕ)
      → get_slab_index a size ≡ some (some i)
      → size ≤ a.mempool_capacity
      → get_elem? a.used_slabs i ≡ some u
      → get_elem? a.free_slabs i ≡ some f
      → head? (members f.list_head) ≡ some s
      → alloc a size huge header start ≡ some (some (s + sizeof_slab), reused a s i u f)
  unfolding alloc alloc_normal_slab detach_front_from_free_slabs attach_to_used_slabs at_index
      get_slab_index
  alloc-some a s i size u f huge header start class fits eu ef front =
      let c : ltb a.mempool_capacity size ≡ false = ground arith in
      ground (arith, class, ef, eu, front)

  -- A slab in use, of a class and smaller than a pool, is released once: the call counts it out, and
  -- the same call again changes nothing. A request of that class is then answered by the same
  -- address, whatever `malloc` would answer; the count is back, the slab is marked as used, and the
  -- free list of the class has the members and the count it had before the two calls.
  pub alloc-free :
      (a : CtrAlloc api) (s i size : ℕ) (u f : HeadList api) (huge header start : Option ℕ)
      → (a.slabs s).stat_flag ≡ 1
      → get_slab_index a (a.slabs s).size ≡ some (some i)
      → (a.slabs s).size < a.mempool_capacity
      → get_elem? a.used_slabs i ≡ some u
      → get_elem? a.free_slabs i ≡ some f
      → get_slab_index a size ≡ some (some i)
      → size ≤ a.mempool_capacity
      → a.alloc_count < 2 ^ 32
      → f.count < 2 ^ 32
      → (a₁ : CtrAlloc api) × (a₂ : CtrAlloc api) × (f₂ : HeadList api) × (free a
            (some (s + sizeof_slab))
          ≡ some a₁)
        × (free a₁ (some (s + sizeof_slab)) ≡ some a₁)
        × (a₁.alloc_count ≡ sub32 a.alloc_count 1)
        × (alloc a₁ size huge header start ≡ some (some (s + sizeof_slab), a₂))
        × (a₂.alloc_count ≡ a.alloc_count)
        × ((a₂.slabs s).stat_flag ≡ 1)
        × (get_elem? a₂.free_slabs i ≡ some f₂)
        × (members f₂.list_head ≡ members f.list_head)
        × (f₂.count ≡ f.count)
  unfolding attach_list detach_list get_slab_index
  alloc-free a s i size u f huge header start used class below eu ef again fits few short =
      let u₁ = detach_list s u in
      let f₁ = attach_list s f in
      let a₁ = freed a s i u f in
      (
        a₁,
        reused a₁ s i u₁ f₁,
        detach_list s f₁,
        free-some a s i u f used class below eu ef,
        free-idle a₁ s (
            ap (λ (b : Slab). b.stat_flag)
              (update_self a.slabs s (record (a.slabs s) { stat_flag = 0 }))),
        refl,
        alloc-some a₁ s i size u₁ f₁ huge header start again fits (set-found a.used_slabs i u u₁ eu)
            (set-found a.free_slabs i f f₁ ef) (ap (λ xs. head? xs) (members-add s f.list_head)),
        ground arith,
        ap (λ (b : Slab). b.stat_flag)
            (update_self a₁.slabs s (record (a₁.slabs s) { stat_flag = 1 })),
        set-found (set a.free_slabs i f₁) i f₁ (detach_list s f₁)
            (set-found a.free_slabs i f f₁ ef),
        members-del s (api.add s f.list_head)
            ∙ ap (λ xs. remove s xs) (members-add s f.list_head)
            ∙ remove_front s (members f.list_head),
        ground arith,
      )
