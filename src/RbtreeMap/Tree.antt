-- ===== src/RbtreeMap/Tree.antt =====
-- What the map uses of the kernel's red-black tree (src/include/libdata_structure/rbtree.h and
-- src/libdata_structure/rbtree_map/rbtree.c): the shape that `rb_left` and `rb_right` give, and the
-- documented effect of each function on the nodes in order.
use mathlib.Core.List.{head?}
use libcutils.Base.{ℕ, ◌≡◌, List, [], ◌∷◌, ◌++◌, true, Option, none, ◌==◌, if◌then◌else◌}
use libcutils.Base.Nodes.{has, remove}

pub data Shape : Type 0 where
  leaf : Shape
  node : Shape → ℕ → Shape → Shape

abbrev pub inorder : Shape → List ℕ
inorder leaf = []
inorder (node l n r) = inorder l ++ n ∷ inorder r

-- The way from the root to a link.
pub data Turn : Type 0 where
  to_left to_right : Turn

-- A node linked at the end of a way.
abbrev pub graft : ℕ → List Turn → Shape → Shape
graft n way leaf = node leaf n leaf
graft n [] (node l m r) = node l m r
graft n (to_left ∷ way) (node l m r) = node (graft n way l) m r
graft n (to_right ∷ way) (node l m r) = node l m (graft n way r)

-- The node behind a member.
abbrev pub follower : ℕ → List ℕ → Option ℕ
follower p [] = none
follower p (x ∷ xs) = if x == p then head? xs else follower p xs

pub record KernelTree : Type 1 where
  -- `struct rb_root` with the tree that hangs from it
  pub Root : Type 0
  pub shape : Root → Shape
  -- `rb_node = NULL`
  pub empty : Root
  -- `rb_link_node` at a link, then `rb_insert_color`
  pub link_and_color : ℕ → List Turn → Root → Root
  -- `rb_erase`
  pub erase : ℕ → Root → Root
  -- `rb_first`, `rb_next`
  pub first : Root → Option ℕ
  pub next : ℕ → Root → Option ℕ
  pub shape-empty : shape empty ≡ leaf
  pub inorder-link_and_color :
      (n : ℕ) (way : List Turn) (r : Root)
      → inorder (shape (link_and_color n way r)) ≡ inorder (graft n way (shape r))
  pub inorder-erase :
      (n : ℕ) (r : Root)
      → has n (inorder (shape r)) ≡ true
      → inorder (shape (erase n r)) ≡ remove n (inorder (shape r))
  pub first-inorder : (r : Root) → first r ≡ head? (inorder (shape r))
  pub next-inorder :
      (n : ℕ) (r : Root)
      → has n (inorder (shape r)) ≡ true
      → next n r ≡ follower n (inorder (shape r))
