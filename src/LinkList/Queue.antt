-- ===== src/LinkList/Queue.antt =====
-- `llist_push_back` with `llist_detach_front`: the list as a queue.
use libcutils.Base.{
  ℕ, ◌+◌, ◌^◌, ◌≤◌, ◌<◌, ◌≡◌, refl, ap, ◌∙◌, List, [], ◌∷◌, ◌++◌, true, false, some, length, drop,
  subst,
}
use libcutils.Base.Memory.{slice}
use libcutils.Base.Nodes.{has, remove, first_or, eq_self}
use libcutils.LinkList.Circle.{KernelRing}
use libcutils.LinkList.{Llist, begin_field, push_back, detach_front, pos_get_pointer, update}
use libcutils.LinkList.Order.{IsList}
use libcutils.LinkList.Insert.{push_back_list}
use libcutils.LinkList.Delete.{detach_list}

-- A list that is not empty, by its first element.
first_or-drop : (n : ℕ) (xs : List ℕ) → xs ++ n ∷ [] ≡ first_or n xs ∷ drop 1 (xs ++ n ∷ [])
first_or-drop n [] = refl
first_or-drop n (x ∷ xs) = refl

module _ {api : KernelRing} where
  detach_front-first :
      (llist : Llist api) (x : ℕ) (xs : List ℕ)
      → IsList api llist (x ∷ xs)
      → (llist' : Llist api) × (detach_front llist ≡ (some x, llist'))
        × IsList api llist' xs
        × (llist'.cells ≡ llist.cells)
  unfolding detach_front
  detach_front-first llist x xs k =
      let there : has llist.begin (x ∷ xs) ≡ true = rw k.first (rw (eq_self x) refl) in
      let (llist', run, left, same) = detach_list llist begin_field x xs k there in
      let gone : remove llist.begin (x ∷ xs) ≡ xs = rw k.first (rw (eq_self x) refl) in
      (
        llist',
        run ∙ ap (λ (p : ℕ). (some p, llist')) k.first,
        subst (IsList api llist') gone left,
        same,
      )

  -- A queue: on a list in order, with the block as long as an element and memory granted at an address
  -- of its own, and a count that fits 32 bits, `llist_detach_front` after `llist_push_back` hands out the node that has been in the
  -- list longest, the new one if there was none; the others stay in order, and every node keeps its
  -- bytes, the new one those pushed.
  pub detach_front-push_back :
      (llist : Llist api) (block : List ℕ) (n : ℕ) (xs : List ℕ)
      → IsList api llist xs
      → has n (llist.head ∷ xs) ≡ false
      → llist.data_size ≤ length block
      → length xs + 1 < 2 ^ 32
      → (llist₁ : Llist api) × (llist₂ : Llist api) × (push_back llist block (some n) ≡ some llist₁)
        × (detach_front llist₁ ≡ (some (first_or n xs), llist₂))
        × IsList api llist₂ (drop 1 (xs ++ n ∷ []))
        × (pos_get_pointer llist₂
            ≡ update (pos_get_pointer llist) n (slice block 0 llist.data_size))
  unfolding pos_get_pointer
  detach_front-push_back llist block n xs k fresh long few =
      let (llist₁, pushed, k₁, cells) = push_back_list llist block n xs k fresh long few in
      let (llist₂, run, k₂, same) =
        detach_front-first llist₁ (first_or n xs) (drop 1 (xs ++ n ∷ []))
          (subst (IsList api llist₁) (first_or-drop n xs) k₁) in
      (llist₁, llist₂, pushed, run, k₂, same ∙ cells)
