-- ===== src/RbtreeMap/Insert.antt =====
-- `rbtree_map_insert_data` and `rbtree_map_search`: the invariant, and what a search finds.
use Prim.Native.Nat.Ordering.{lt}
use mathlib.Core.List.{head?}
use libcutils.Base.{ℕ, ◌%◌, ◌^◌, ◌≡◌, refl, ap, ◌∙◌, List, [], ◌∷◌, false, none, some, arith, ◌==◌}
use libcutils.Base.Nodes.{has}
use libcutils.RbtreeMap.Keys.{Bytes, Sign, flip, IsOrder}
use libcutils.RbtreeMap.Tree.{KernelTree, inorder}
use libcutils.RbtreeMap.Order.{All, placed, find_equal, IsSorted, IsConsistent}
use libcutils.RbtreeMap.Descend.{search_from-find_equal}
use libcutils.RbtreeMap.{RbtreeMap, update, sign_of, search}

-- How the nodes' keys lie beside one another.
abbrev pub rel_of : (Bytes → Bytes → ℕ → Sign) → ℕ → (ℕ → Bytes) → ℕ → ℕ → Sign
rel_of cmp size cells a b = cmp (cells a) (cells b) size

pub IsConsistent-of :
    (cmp : Bytes → Bytes → ℕ → Sign) (size : ℕ) (cells : ℕ → Bytes) (key : Bytes)
    → IsOrder cmp size
    → IsConsistent (rel_of cmp size cells) (λ x. cmp key (cells x) size)
IsConsistent-of cmp size cells key o = record {
  below = λ a b e h. o.trans key (cells a) (cells b) e h;
  above = λ a b e h.
      o.flipped (cells b) key
      ∙ ap flip (o.trans (cells b) (cells a) key h (o.flipped key (cells a) ∙ ap flip e));
  equal_below = λ a b e h. o.same key (cells a) (cells b) e ∙ h;
  equal_above =
      λ a b e h. o.same key (cells a) (cells b) e ∙ o.flipped (cells b) (cells a) ∙ ap flip h;
}

pub update_fresh :
    (cells : ℕ → Bytes) (n : ℕ) (block : Bytes) (xs : List ℕ)
    → has n xs ≡ false
    → All (λ x. update cells n block x ≡ cells x) xs
update_fresh cells n block [] f = tt
update_fresh cells n block (x ∷ xs) f =
    let t : (x == n) ≡ false = ground arith in
    (rw t refl, update_fresh cells n block xs (ground arith))

pub placed-ext :
    (f g : ℕ → Sign) (n : ℕ) (xs : List ℕ) → All (λ x. f x ≡ g x) xs → placed f n xs ≡ placed g n xs
placed-ext f g n [] a = refl
placed-ext f g n (x ∷ xs) a = ground (arith, a.0, placed-ext f g n xs a.1)

pub find_equal-ext :
    (f g : ℕ → Sign) (xs : List ℕ) → All (λ x. f x ≡ g x) xs → find_equal f xs ≡ find_equal g xs
find_equal-ext f g [] a = refl
find_equal-ext f g (x ∷ xs) a = ground (arith, a.0, find_equal-ext f g xs a.1)

All-lt_ext :
    (cmp : Bytes → Bytes → ℕ → Sign) (size : ℕ) (c d : ℕ → Bytes) (a : Bytes) (xs : List ℕ)
    → All (λ x. d x ≡ c x) xs
    → All (λ y. cmp a (c y) size ≡ lt) xs
    → All (λ y. cmp a (d y) size ≡ lt) xs
All-lt_ext cmp size c d a [] e h = tt
All-lt_ext cmp size c d a (x ∷ xs) e h = (rw e.0 h.0, All-lt_ext cmp size c d a xs e.1 h.1)

pub IsSorted-ext :
    (cmp : Bytes → Bytes → ℕ → Sign) (size : ℕ) (c d : ℕ → Bytes) (xs : List ℕ)
    → All (λ x. d x ≡ c x) xs
    → IsSorted (rel_of cmp size c) xs
    → IsSorted (rel_of cmp size d) xs
IsSorted-ext cmp size c d [] e s = tt
IsSorted-ext cmp size c d (x ∷ xs) e s =
    (rw e.0 (All-lt_ext cmp size c d (c x) xs e.1 s.0), IsSorted-ext cmp size c d xs e.1 s.1)

pub signs_ext :
    (cmp : Bytes → Bytes → ℕ → Sign) (size : ℕ) (c d : ℕ → Bytes) (key : Bytes) (xs : List ℕ)
    → All (λ x. d x ≡ c x) xs
    → All (λ x. cmp key (d x) size ≡ cmp key (c x) size) xs
signs_ext cmp size c d key [] e = tt
signs_ext cmp size c d key (x ∷ xs) e =
    (ap (λ (b : Bytes). cmp key b size) e.0, signs_ext cmp size c d key xs e.1)

-- The map holds these nodes, in the order of their keys, and its first position is the first one's.
pub record IsMap (api : KernelTree) (map : RbtreeMap api) (cmp : Bytes → Bytes → ℕ → Sign)
    (xs : List ℕ) : Type 0 where
  pub comparing : map.key_cmp_func ≡ some cmp
  pub ordered : IsOrder cmp (map.key_size % 2 ^ 8)
  pub walk : inorder (api.shape map.tree_root) ≡ xs
  pub sorted : IsSorted (rel_of cmp (map.key_size % 2 ^ 8) map.cells) xs
  pub first : map.begin ≡ head? xs
  pub end_none : map.end ≡ none

module _ {api : KernelTree} where
  pub search-find_equal :
      (map : RbtreeMap api) (cmp : Bytes → Bytes → ℕ → Sign) (key : Bytes) (xs : List ℕ)
      → IsMap api map cmp xs
      → search map key ≡ some (find_equal (sign_of map cmp key) xs)
  unfolding search sign_of
  search-find_equal map cmp key xs k =
      let size = map.key_size % 2 ^ 8 in
      let sign = λ (x : ℕ). cmp key (map.cells x) size in
      rw k.comparing (
        ap (λ o. some o)
          (search_from-find_equal (rel_of cmp size map.cells) sign
              (IsConsistent-of cmp size map.cells key k.ordered) (api.shape map.tree_root)
              (rw k.walk k.sorted)
            ∙ ap (find_equal sign) k.walk))
