-- ===== src/RbtreeMap/Delete.antt =====
-- `rbtree_map_delete` and the loop of `rbtree_map_destroy`.
use Prim.Native.Nat.Ordering.{lt}
use mathlib.Core.List.{head?}
use libcutils.Base.{
  ℕ, suc, ◌%◌, ◌^◌, ◌≡◌, refl, ap, ap₂, ◌∙◌, subst, List, [], ◌∷◌, true, false, Option, none, some,
  arith, ◌==◌, if◌then◌else◌, length,
}
use libcutils.Base.Nodes.{has, remove, eq_self}
use libcutils.RbtreeMap.Keys.{Bytes, Sign}
use libcutils.RbtreeMap.Tree.{KernelTree, inorder, follower}
use libcutils.RbtreeMap.Order.{All, IsSorted}
use libcutils.RbtreeMap.Insert.{IsMap, rel_of}
use libcutils.RbtreeMap.{RbtreeMap, pos_equal, pos_next, delete, destroy_loop}

All-remove : (P : ℕ → Type 0) (p : ℕ) (xs : List ℕ) → All P xs → All P (remove p xs)
All-remove P p [] a = tt
All-remove P p (x ∷ xs) a = elim (x == p) as (λ b. All P (if b then xs else x ∷ remove p xs)) [
  | true ↦ a.1
  | false ↦ (a.0, All-remove P p xs a.1)
]

remove-IsSorted :
    (rel : ℕ → ℕ → Sign) (p : ℕ) (xs : List ℕ) → IsSorted rel xs → IsSorted rel (remove p xs)
remove-IsSorted rel p [] s = tt
remove-IsSorted rel p (x ∷ xs) s =
    elim (x == p) as (λ b. IsSorted rel (if b then xs else x ∷ remove p xs)) [
      | true ↦ s.1
      | false ↦ (All-remove (λ y. rel x y ≡ lt) p xs s.0, remove-IsSorted rel p xs s.1)
    ]

-- The first of the nodes when one is taken out.
first-remove :
    (p x : ℕ) (xs : List ℕ) (b next : Option ℕ)
    → b ≡ some x
    → next ≡ follower p (x ∷ xs)
    → (if pos_equal (some p) b then next else b) ≡ head? (remove p (x ∷ xs))
unfolding pos_equal
first-remove p x xs b next e f = ground (arith, e, f)

module _ {api : KernelTree} where
  -- From a map in the order of its keys, deleting at the position of a node takes exactly that node out: the others keep their order, and
  -- the first position moves on if it was there.
  pub delete-IsMap :
      (map : RbtreeMap api) (cmp : Bytes → Bytes → ℕ → Sign) (p x : ℕ) (xs : List ℕ)
      → IsMap api map cmp (x ∷ xs)
      → has p (x ∷ xs) ≡ true
      → (map' : RbtreeMap api) × (delete map (some p) ≡ some map')
        × IsMap api map' cmp (remove p (x ∷ xs))
        × (map'.cells ≡ map.cells)
  unfolding delete pos_next
  delete-IsMap map cmp p x xs k here =
      let root = map.tree_root in
      let there : has p (inorder (api.shape root)) ≡ true = rw k.walk here in
      let walk' = api.inorder-erase p root there ∙ ap (remove p) k.walk in
      (
        record map {
          begin = if pos_equal (some p) map.begin then api.next p root else map.begin;
          tree_root = api.erase p root;
        },
        refl,
        record {
          comparing = k.comparing;
          ordered = k.ordered;
          walk = walk';
          sorted =
              remove-IsSorted (rel_of cmp (map.key_size % 2 ^ 8) map.cells) p (x ∷ xs) k.sorted;
          first =
              first-remove p x xs map.begin (api.next p root) k.first
                (api.next-inorder p root there ∙ ap (follower p) k.walk);
          end_none = k.end_none;
        },
        refl,
      )

  destroy_loop-step :
      (fuel : ℕ) (map map' left : RbtreeMap api) (p : ℕ) (freed : List ℕ)
      → map.begin ≡ some p
      → map.end ≡ none
      → delete map (some p) ≡ some map'
      → destroy_loop fuel map' ≡ some (freed, left)
      → destroy_loop (suc fuel) map ≡ some (p ∷ freed, left)
  unfolding destroy_loop pos_equal
  destroy_loop-step fuel map map' left p freed b e gone run =
      let t : pos_equal map.begin map.end ≡ false = ap₂ pos_equal b e in
      ground (arith, t, b, gone, run)

  destroy_loop-end :
      (map : RbtreeMap api)
      → map.begin ≡ none
      → map.end ≡ none
      → destroy_loop 1 map ≡ some ([], map)
  unfolding destroy_loop pos_equal
  destroy_loop-end map b e =
      let t : pos_equal map.begin map.end ≡ true = ap₂ pos_equal b e in rw (t, destroy_loop) refl

  -- With one round more than there are nodes, the loop of `rbtree_map_destroy` ends: it frees every
  -- node once, in the order of the keys, and leaves a map without a node.
  pub destroy_loop_lem :
      (map : RbtreeMap api) (cmp : Bytes → Bytes → ℕ → Sign) (xs : List ℕ)
      → IsMap api map cmp xs
      → (left : RbtreeMap api) × (destroy_loop (suc (length xs)) map ≡ some (xs, left))
        × IsMap api left cmp []
  destroy_loop_lem map cmp [] k = (map, destroy_loop-end map k.first k.end_none, k)
  destroy_loop_lem map cmp (x ∷ xs) k =
      let (map', gone, k', _) = delete-IsMap map cmp x x xs k (rw (eq_self x) refl) in
      let rest : remove x (x ∷ xs) ≡ xs = rw (eq_self x) refl in
      let (left, run, done) = destroy_loop_lem map' cmp xs (subst (IsMap api map' cmp) rest k') in
      (
        left,
        destroy_loop-step (suc (length xs)) map map' left x xs k.first k.end_none gone run,
        done,
      )
