-- ===== src/RbtreeMap/Update.antt =====
-- `rbtree_map_insert_data` as a change of the map: where the node goes, and what every search finds.
use Prim.Native.Nat.Ordering.{lt, eq, gt}
use mathlib.Core.List.{head?}
use libcutils.Base.{
  ℕ, ◌%◌, ◌^◌, ◌≤◌, ◌≡◌, refl, sym, ap, ap₂, ◌∙◌, subst, List, [], ◌∷◌, true, false, Option, none,
  some, arith, inl, inr, length,
}
use libcutils.Base.Memory.{slice, load-some}
use libcutils.Base.Nodes.{has, eq_self}
use libcutils.RbtreeMap.Keys.{Bytes, Sign}
use libcutils.RbtreeMap.Tree.{KernelTree, inorder, Turn}
use libcutils.RbtreeMap.Order.{
  All, All-imp, placed, placed-lt, placed-eq, placed-gt, find_equal, find_equal-none, IsSorted,
  IsConsistent, placed-IsSorted, Sign-cases,
}
use libcutils.RbtreeMap.Descend.{linked, linked-find_link}
use libcutils.RbtreeMap.Insert.{
  IsMap, rel_of, IsConsistent-of, update_fresh, placed-ext, find_equal-ext, IsSorted-ext, signs_ext,
  search-find_equal,
}
use libcutils.RbtreeMap.{RbtreeMap, update, sign_of, find_link, insert_data, search}

-- What was found before, or else the new node if its key is equal.
abbrev pub or_new : Option ℕ → Sign → ℕ → Option ℕ
or_new (some p) s n = some p
or_new none lt n = none
or_new none eq n = some n
or_new none gt n = none

find_equal-none_below :
    (f : ℕ → Sign) (xs : List ℕ) → All (λ x. f x ≡ lt) xs → find_equal f xs ≡ none
find_equal-none_below f xs a = find_equal-none f lt xs (λ q. cc) a

or_new_idle : (o : Option ℕ) (s : Sign) (n : ℕ) → (s ≡ eq → ⊥) → or_new o s n ≡ o
or_new_idle (some p) s n h = refl
or_new_idle none lt n h = refl
or_new_idle none eq n h = absurd (h refl)
or_new_idle none gt n h = refl

-- A new node in front of keys that are all above it.
find_equal-front :
    (f : ℕ → Sign) (n : ℕ) (xs : List ℕ)
    → (f n ≡ eq → find_equal f xs ≡ none)
    → find_equal f (n ∷ xs) ≡ or_new (find_equal f xs) (f n) n
find_equal-front f n xs h = elim (Sign-cases (f n)) [
  | inl e ↦ rw (e, find_equal) (sym (or_new_idle (find_equal f xs) lt n (λ q. cc)))
  | inr (inl e) ↦ rw (h e, e, find_equal) refl
  | inr (inr e) ↦ rw (e, find_equal) (sym (or_new_idle (find_equal f xs) gt n (λ q. cc)))
]

find_equal-equal :
    (f : ℕ → Sign) (n x : ℕ) (xs : List ℕ)
    → (f n ≡ eq → f x ≡ eq)
    → find_equal f (x ∷ xs) ≡ or_new (find_equal f (x ∷ xs)) (f n) n
find_equal-equal f n x xs h = elim (Sign-cases (f n)) [
  | inl e ↦ sym (or_new_idle (find_equal f (x ∷ xs)) (f n) n (λ q. cc))
  | inr (inl e) ↦ let t = h e in rw (t, find_equal) refl
  | inr (inr e) ↦ sym (or_new_idle (find_equal f (x ∷ xs)) (f n) n (λ q. cc))
]

find_equal-cons :
    (f : ℕ → Sign) (n x : ℕ) (xs ys : List ℕ)
    → find_equal f ys ≡ or_new (find_equal f xs) (f n) n
    → find_equal f (x ∷ ys) ≡ or_new (find_equal f (x ∷ xs)) (f n) n
find_equal-cons f n x xs ys h = elim (Sign-cases (f x)) [
  | inl e ↦ rw (e, find_equal) h
  | inr (inl e) ↦ rw (e, find_equal) refl
  | inr (inr e) ↦ rw (e, find_equal) h
]

find_equal-placed :
    (rel : ℕ → ℕ → Sign) (f g : ℕ → Sign) (n : ℕ) (xs : List ℕ)
    → IsConsistent rel g
    → (f n ≡ eq → (x : ℕ) → f x ≡ g x)
    → IsSorted rel xs
    → find_equal f (placed g n xs) ≡ or_new (find_equal f xs) (f n) n
find_equal-placed rel f g n [] c same s = ground arith
find_equal-placed rel f g n (x ∷ xs) c same s = elim (Sign-cases (g x)) [
  | inl e ↦
      ap (find_equal f) (placed-lt g n x xs e)
      ∙ find_equal-front f n (x ∷ xs) (λ q. find_equal-none_below f (x ∷ xs) (
        same q x ∙ e,
        All-imp (λ y. rel x y ≡ lt) (λ y. f y ≡ lt) xs (λ y h. same q y ∙ c.below x y e h) s.0,
      ))
  | inr (inl e) ↦
      ap (find_equal f) (placed-eq g n x xs e) ∙ find_equal-equal f n x xs (λ q. same q x ∙ e)
  | inr (inr e) ↦
      ap (find_equal f) (placed-gt g n x xs e)
      ∙ find_equal-cons f n x xs (placed g n xs) (find_equal-placed rel f g n xs c same s.1)
]

inorder-linked :
    (api : KernelTree) (n : ℕ) (root : api.Root) (o : Option (List Turn))
    → inorder (api.shape (elim o [ none ↦ root | some way ↦ api.link_and_color n way root ]))
      ≡ linked n (api.shape root) o
inorder-linked api n root none = refl
inorder-linked api n root (some way) = api.inorder-link_and_color n way root

module _ {api : KernelTree} where
  -- On a map in the order of its keys, with memory granted at an address of its own and a block as
  -- long as an entry, the insertion
  -- reports success: the node stands in the order of the keys, unless a node with an equal key is
  -- there, which then leaves the order alone; the other nodes keep their bytes and the first position
  -- is right.
  pub insert_data-IsMap :
      (map : RbtreeMap api) (cmp : Bytes → Bytes → ℕ → Sign) (value : Bytes) (n : ℕ) (xs : List ℕ)
      → IsMap api map cmp xs
      → has n xs ≡ false
      → map.data_size ≤ length value
      → let block = slice value 0 map.data_size in
        (map' : RbtreeMap api) × (insert_data map value (some n) ≡ some (true, map'))
        × IsMap api map' cmp (placed (sign_of map cmp block) n xs)
        × (map'.cells ≡ update map.cells n block)
        × (map'.key_size ≡ map.key_size)
  unfolding insert_data sign_of
  insert_data-IsMap map cmp value n xs k fresh long =
      let block = slice value 0 map.data_size in
      let size = map.key_size % 2 ^ 8 in
      let cells' = update map.cells n block in
      let kept = update_fresh map.cells n block xs fresh in
      let sign' = λ (x : ℕ). cmp block (cells' x) size in
      let rel' = rel_of cmp size cells' in
      let c = IsConsistent-of cmp size cells' block k.ordered in
      let sorted' = IsSorted-ext cmp size map.cells cells' xs kept k.sorted in
      let way = find_link sign' (api.shape map.tree_root) in
      let root' : api.Root = elim way [
        | none ↦ map.tree_root
        | some way' ↦ api.link_and_color n way' map.tree_root
      ] in
      let own : cells' n ≡ block = rw (eq_self n) refl in
      let same =
        placed-ext sign' (λ (x : ℕ). cmp block (map.cells x) size) n xs
          (signs_ext cmp size map.cells cells' block xs kept) in
      let walk' : inorder (api.shape root') ≡ placed sign' n xs =
        inorder-linked api n map.tree_root way
        ∙ linked-find_link rel' sign' c n (api.shape map.tree_root) (rw k.walk sorted')
        ∙ ap (placed sign' n) k.walk in
      let order' : IsSorted rel' (placed sign' n xs) =
        placed-IsSorted rel' sign' n xs c (λ x. ap (λ (b : Bytes). cmp b (cells' x) size) own)
          (λ x. ap (λ (b : Bytes). cmp (cells' x) b size) own ∙ k.ordered.flipped block (cells' x))
          sorted' in
      (
        record map { cells = cells'; tree_root = root'; begin = api.first root' },
        rw (load-some value 0 map.data_size (omega (arith, long)), k.comparing) refl,
        record {
          comparing = k.comparing;
          ordered = k.ordered;
          walk = walk' ∙ same;
          sorted = subst (IsSorted rel') same order';
          first = api.first-inorder root' ∙ ap (λ ys. head? ys) (walk' ∙ same);
          end_none = k.end_none;
        },
        refl,
        refl,
      )

  -- After an insertion of a block as long as an entry into a map in the order of its keys, with memory
  -- granted at an address of its own, a search for any key finds what it found before, or else, if the key is equal
  -- to the inserted one, the new node: an equal key that is already there keeps its node.
  pub search-insert_data :
      (map : RbtreeMap api) (cmp : Bytes → Bytes → ℕ → Sign) (value key : Bytes) (n : ℕ)
      (xs : List ℕ)
      → IsMap api map cmp xs
      → has n xs ≡ false
      → map.data_size ≤ length value
      → (map' : RbtreeMap api) × (old : Option ℕ) × (insert_data map value (some n)
          ≡ some (true, map'))
        × (search map key ≡ some old)
        × (search map' key
            ≡ some (or_new old (cmp key (slice value 0 map.data_size) (map.key_size % 2 ^ 8)) n))
  unfolding sign_of
  search-insert_data map cmp value key n xs k fresh long =
      let block = slice value 0 map.data_size in
      let size = map.key_size % 2 ^ 8 in
      let (map', run, k', cells', sized) = insert_data-IsMap map cmp value n xs k fresh long in
      let cells'' = update map.cells n block in
      let kept = update_fresh map.cells n block xs fresh in
      let f = λ (x : ℕ). cmp key (map.cells x) size in
      let f' = λ (x : ℕ). cmp key (cells'' x) size in
      let g = λ (x : ℕ). cmp block (map.cells x) size in
      let g' = λ (x : ℕ). cmp block (cells'' x) size in
      let own : cells'' n ≡ block = rw (eq_self n) refl in
      let alike : f' n ≡ cmp key block size = ap (λ (b : Bytes). cmp key b size) own in
      let found =
        find_equal-placed (rel_of cmp size cells'') f' g' n xs
          (IsConsistent-of cmp size cells'' block k.ordered)
          (λ e x. k.ordered.same key block (cells'' x) (sym alike ∙ e))
          (IsSorted-ext cmp size map.cells cells'' xs kept k.sorted) in
      (
        map',
        find_equal f xs,
        run,
        search-find_equal map cmp key xs k,
        search-find_equal map' cmp key (placed g n xs) k'
            ∙ ap₂
                (λ (c : ℕ → Bytes) (s : ℕ).
                  some (find_equal (λ (x : ℕ). cmp key (c x) (s % 2 ^ 8)) (placed g n xs)))
                cells' sized
            ∙ ap (λ (ys : List ℕ). some (find_equal f' ys))
                (sym (placed-ext g' g n xs (signs_ext cmp size map.cells cells'' block xs kept)))
            ∙ ap (λ (o : Option ℕ). some o) found
            ∙ ap₂ (λ (o : Option ℕ) (s : Sign). some (or_new o s n))
                (find_equal-ext f' f xs (signs_ext cmp size map.cells cells'' key xs kept)) alike,
      )
