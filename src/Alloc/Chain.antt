-- ===== src/Alloc/Chain.antt =====
-- What the allocator uses of the kernel's circular `struct list_head` (src/include/liballoc/list.h):
-- the documented effect of each macro on the members of a list.
use libcutils.Base.{ℕ, ◌≡◌, List, [], ◌∷◌, ◌==◌, if◌then◌else◌}

-- The list without a member.
abbrev pub remove : ℕ → List ℕ → List ℕ
remove n [] = []
remove n (x ∷ xs) = if x == n then xs else x ∷ remove n xs

pub record KernelList : Type 1 where
  -- a list head, with the members that hang from it
  pub Head : Type 0
  -- the members from `head->next` on
  pub members : Head → List ℕ
  -- `INIT_LIST_HEAD`
  pub empty : Head
  -- `list_add`
  pub add : ℕ → Head → Head
  -- `list_del`, at the head of the list that holds the member
  pub del : ℕ → Head → Head
  pub members-empty : members empty ≡ []
  pub members-add : (n : ℕ) (h : Head) → members (add n h) ≡ n ∷ members h
  pub members-del : (n : ℕ) (h : Head) → members (del n h) ≡ remove n (members h)
