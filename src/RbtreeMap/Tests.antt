-- ===== src/RbtreeMap/Tests.antt =====
-- A tree that is never turned, and the theorems at it.
use mathlib.Core.List.{head?}
use libcutils.Base.{ℕ, ◌*◌, ◌≡◌, refl, ap, List, [], ◌∷◌, true, Option, none, some, arith}
use libcutils.Base.Memory.{slice, overwrite, load, store}
use libcutils.Base.Nodes.{remove}
use libcutils.HashMap.Keys.{create_pair, make_pair}
use libcutils.RbtreeMap.Keys.{default_key_cmp_func, default_key_cmp_func-IsOrder}
use libcutils.RbtreeMap.Tree.{Shape, leaf, node, inorder, graft, follower, KernelTree}
use libcutils.RbtreeMap.Order.{placed}
use libcutils.RbtreeMap.Insert.{IsMap}
use libcutils.RbtreeMap.Update.{or_new, insert_data-IsMap, search-insert_data}
use libcutils.RbtreeMap.Delete.{delete-IsMap}
use libcutils.RbtreeMap.{
  RbtreeMap, update, sign_of, search_from, find_link, pos_equal, pos_next, init, insert_data,
  insert, search, delete, destroy_loop, pos_get_pointer,
}

-- A tree of right links alone: erasing rebuilds it.
spine : List ℕ → Shape
spine [] = leaf
spine (x ∷ xs) = node leaf x (spine xs)

inorder-spine : (xs : List ℕ) → inorder (spine xs) ≡ xs
unfolding spine
inorder-spine [] = refl
inorder-spine (x ∷ xs) = ap (λ ys. x ∷ ys) (inorder-spine xs)

abbrev trees : KernelTree
trees = record {
  Root = Shape;
  shape = λ s. s;
  empty = leaf;
  link_and_color = graft;
  erase = λ n s. spine (remove n (inorder s));
  first = λ s. head? (inorder s);
  next = λ n s. follower n (inorder s);
  shape-empty = refl;
  inorder-link_and_color = λ n way r. refl;
  inorder-erase = λ n r h. inorder-spine (remove n (inorder r));
  first-inorder = λ r. refl;
  next-inorder = λ n r h. refl;
}

-- Keys of one byte and values of one: the keys 20 and 40 at the nodes 2 and 4.
abbrev two : RbtreeMap trees
two = record {
  data_size = 2;
  key_size = 1;
  key_cmp_func = some default_key_cmp_func;
  tree_root = node (node leaf 2 leaf) 4 leaf;
  cells = λ n. (n * 10) ∷ 0 ∷ [];
  begin = some 2;
  end = none;
  pair = create_pair 1 1;
}

program : Unit {0}
unfolding sign_of search_from find_link pos_equal pos_next init insert_data insert search delete
    destroy_loop pos_get_pointer default_key_cmp_func load store slice overwrite create_pair
    make_pair spine
program = tt

two-IsMap : IsMap trees two default_key_cmp_func (2 ∷ 4 ∷ [])
unfolding default_key_cmp_func
two-IsMap = record {
  comparing = refl;
  ordered = default_key_cmp_func-IsOrder 1;
  walk = refl;
  sorted = ((refl, tt), (tt, tt));
  first = refl;
  end_none = refl;
}

insert_data-IsMap_example :
    (map' : RbtreeMap trees) × (insert_data two (30 ∷ 7 ∷ []) (some 3) ≡ some (true, map'))
    × IsMap trees map' default_key_cmp_func
        (placed (sign_of two default_key_cmp_func (30 ∷ 7 ∷ [])) 3 (2 ∷ 4 ∷ []))
    × (map'.cells ≡ update two.cells 3 (30 ∷ 7 ∷ []))
    × (map'.key_size ≡ 1)
unfolding slice
insert_data-IsMap_example =
    insert_data-IsMap two default_key_cmp_func (30 ∷ 7 ∷ []) 3 (2 ∷ 4 ∷ []) two-IsMap refl
      (omega arith)

place_runs : placed (sign_of two default_key_cmp_func (30 ∷ 7 ∷ [])) 3 (2 ∷ 4 ∷ []) ≡ 2 ∷ 3 ∷ 4 ∷ []
unfolding program
place_runs = refl

search-insert_data_example :
    (map' : RbtreeMap trees) × (old : Option ℕ) × (insert_data two (30 ∷ 7 ∷ []) (some 3)
      ≡ some (true, map'))
    × (search two (30 ∷ []) ≡ some old)
    × (search map' (30 ∷ []) ≡ some (or_new old (default_key_cmp_func (30 ∷ []) (30 ∷ 7 ∷ []) 1) 3))
unfolding slice
search-insert_data_example =
    search-insert_data two default_key_cmp_func (30 ∷ 7 ∷ []) (30 ∷ []) 3 (2 ∷ 4 ∷ []) two-IsMap
      refl (omega arith)

-- The key 20 is there already.
duplicate_runs :
    elim (insert_data two (20 ∷ 9 ∷ []) (some 3)) [
      | none ↦ none
      | some (ok, map) ↦ search map (20 ∷ [])
    ]
    ≡ some (some 2)
unfolding program
duplicate_runs = refl

delete-IsMap_example :
    (map' : RbtreeMap trees) × (delete two (some 2) ≡ some map')
    × IsMap trees map' default_key_cmp_func (4 ∷ [])
    × (map'.cells ≡ two.cells)
delete-IsMap_example = delete-IsMap two default_key_cmp_func 2 2 (4 ∷ []) two-IsMap refl
