-- ===== src/HashMap/Chain.antt =====
-- What the hash map uses of the kernel's `struct hlist_head` (src/include/libdata_structure/list.h):
-- chains of node addresses, with the documented effect of each macro on the nodes of a chain.
use libcutils.Base.{ℕ, ◌≡◌, List, [], ◌∷◌, ◌==◌, if◌then◌else◌}

-- The chain without a node.
abbrev pub remove : ℕ → List ℕ → List ℕ
remove n [] = []
remove n (x ∷ xs) = if x == n then xs else x ∷ remove n xs

pub record Hlist : Type 1 where
  -- `struct hlist_head`, with the nodes that hang from it
  pub Head : Type 0
  -- the nodes from `first` along `next`
  pub nodes : Head → List ℕ
  -- a head of zero bytes
  pub empty : Head
  -- `hlist_add_head`
  pub add_head : ℕ → Head → Head
  -- `hlist_del`, at the head of the chain that holds the node
  pub del : ℕ → Head → Head
  pub nodes-empty : nodes empty ≡ []
  pub nodes-add_head : (n : ℕ) (h : Head) → nodes (add_head n h) ≡ n ∷ nodes h
  pub nodes-del : (n : ℕ) (h : Head) → nodes (del n h) ≡ remove n (nodes h)
