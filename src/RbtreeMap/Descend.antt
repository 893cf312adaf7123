-- ===== src/RbtreeMap/Descend.antt =====
-- The two loops that go down the tree, whatever its shape: what they find, on the nodes in order.
use Prim.Native.Nat.Ordering.{lt, eq, gt}
use mathlib.Core.Option
use libcutils.Base.{
  ℕ, ◌≡◌, refl, sym, ap, ◌∙◌, List, ◌∷◌, ◌++◌, Option, none, some, arith, inl, inr, ◌⊎◌,
}
use libcutils.RbtreeMap.Keys.{Sign}
use libcutils.RbtreeMap.Tree.{Shape, leaf, node, Turn, to_left, to_right, inorder, graft}
use libcutils.RbtreeMap.Order.{
  All, All-imp, placed, find_equal, placed-append_lt, placed-append_gt, placed-eq, placed-gt,
  find_equal-none, find_equal-append_none, find_equal-append_left, IsSorted, IsSorted-split,
  IsConsistent, Sign-cases,
}
use libcutils.RbtreeMap.{search_from, find_link}

-- The nodes in order after the loop of `__rbtree_map_insert`.
abbrev pub linked : ℕ → Shape → Option (List Turn) → List ℕ
linked n s none = inorder s
linked n s (some way) = inorder (graft n way s)

linked-left :
    (n : ℕ) (l r : Shape) (m : ℕ) (o : Option (List Turn))
    → linked n (node l m r) (Option.map (λ (way : List Turn). to_left ∷ way) o)
      ≡ linked n l o ++ m ∷ inorder r
linked-left n l r m none = refl
linked-left n l r m (some way) = refl

linked-right :
    (n : ℕ) (l r : Shape) (m : ℕ) (o : Option (List Turn))
    → linked n (node l m r) (Option.map (λ (way : List Turn). to_right ∷ way) o)
      ≡ inorder l ++ m ∷ linked n r o
linked-right n l r m none = refl
linked-right n l r m (some way) = refl

module _ (rel : ℕ → ℕ → Sign) (sign : ℕ → Sign) (c : IsConsistent rel sign) where
  every_above :
      (m : ℕ) (xs : List ℕ)
      → (sign m ≡ gt) ⊎ (sign m ≡ eq)
      → All (λ x. rel x m ≡ lt) xs
      → All (λ x. sign x ≡ gt) xs
  every_above m xs (inl e) a =
      All-imp (λ x. rel x m ≡ lt) (λ x. sign x ≡ gt) xs (λ x h. c.above m x e h) a
  every_above m xs (inr e) a =
      All-imp (λ x. rel x m ≡ lt) (λ x. sign x ≡ gt) xs (λ x h. c.equal_above m x e h) a

  pub linked-find_link :
      (n : ℕ) (s : Shape)
      → IsSorted rel (inorder s)
      → linked n s (find_link sign s) ≡ placed sign n (inorder s)
  unfolding find_link
  linked-find_link n leaf k = refl
  linked-find_link n (node l m r) k =
      let (low, left, high, right) = IsSorted-split rel (inorder l) m (inorder r) k in
      elim (Sign-cases (sign m)) [
        | inl e ↦
            rw (e, find_link)
              (linked-left n l r m (find_link sign l)
                ∙ ap (λ xs. xs ++ m ∷ inorder r) (linked-find_link n l left)
                ∙ sym (placed-append_lt sign n m (inorder l) (inorder r) e))
        | inr (inl e) ↦
            rw (e, find_link)
              (sym (
                placed-append_gt sign n (inorder l) (m ∷ inorder r)
                  (every_above m (inorder l) (inr e) low)
                ∙ ap (λ ys. inorder l ++ ys) (placed-eq sign n m (inorder r) e)))
        | inr (inr e) ↦
            rw (e, find_link)
              (linked-right n l r m (find_link sign r)
                ∙ ap (λ xs. inorder l ++ m ∷ xs) (linked-find_link n r right)
                ∙ sym (
                    placed-append_gt sign n (inorder l) (m ∷ inorder r)
                      (every_above m (inorder l) (inl e) low)
                    ∙ ap (λ ys. inorder l ++ ys) (placed-gt sign n m (inorder r) e)))
      ]

  pub search_from-find_equal :
      (s : Shape) → IsSorted rel (inorder s) → search_from sign s ≡ find_equal sign (inorder s)
  unfolding search_from
  search_from-find_equal leaf k = refl
  search_from-find_equal (node l m r) k =
      let (low, left, high, right) = IsSorted-split rel (inorder l) m (inorder r) k in
      elim (Sign-cases (sign m)) [
        | inl e ↦
            (let over =
                All-imp (λ y. rel m y ≡ lt) (λ y. sign y ≡ lt) (inorder r) (λ y h. c.below m y e h)
                  high in
              rw (e, search_from)
                (search_from-find_equal l left
                  ∙ sym (
                      find_equal-append_left sign (inorder l) (m ∷ inorder r)
                        (find_equal-none sign lt (m ∷ inorder r) (λ q. cc) (e, over)))))
        | inr (inl e) ↦
            rw (e, search_from)
              (sym (
                find_equal-append_none sign (inorder l) (m ∷ inorder r) (
                  find_equal-none sign gt (inorder l) (λ q. cc)
                    (every_above m (inorder l) (inr e) low))
                ∙ ground (arith, e)))
        | inr (inr e) ↦
            rw (e, search_from)
              (search_from-find_equal r right
                ∙ sym (
                    find_equal-append_none sign (inorder l) (m ∷ inorder r) (
                      find_equal-none sign gt (inorder l) (λ q. cc)
                        (every_above m (inorder l) (inl e) low))
                    ∙ ground (arith, e)))
      ]
