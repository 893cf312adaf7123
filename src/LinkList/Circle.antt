-- ===== src/LinkList/Circle.antt =====
-- What the linked list uses of the kernel's circular `struct list_head`
-- (src/include/libdata_structure/list.h): the documented effect of each macro on the circle of nodes,
-- read from the head on, the head first.
use libcutils.Base.{ℕ, ◌≡◌, List, [], ◌∷◌, ◌++◌, true}
use libcutils.Base.Nodes.{has, remove, put_behind, last_or, behind}

pub record KernelRing : Type 1 where
  -- the links between the nodes
  pub Links : Type 0
  -- the nodes along `next`, for the address of the head
  pub circle : ℕ → Links → List ℕ
  -- `INIT_LIST_HEAD`
  pub init_head : ℕ → Links → Links
  -- `list_add(n, p)`
  pub add : ℕ → ℕ → Links → Links
  -- `list_add_tail(n, h)`
  pub add_tail : ℕ → ℕ → Links → Links
  -- `list_del`
  pub del : ℕ → Links → Links
  -- `->next`, `->prev`
  pub next : ℕ → Links → ℕ
  pub prev : ℕ → Links → ℕ
  pub circle-init_head : (h : ℕ) (k : Links) → circle h (init_head h k) ≡ h ∷ []
  pub circle-add :
      (h n p : ℕ) (k : Links)
      → has p (circle h k) ≡ true
      → circle h (add n p k) ≡ put_behind n p (circle h k)
  pub circle-add_tail :
      (h n : ℕ) (xs : List ℕ) (k : Links)
      → circle h k ≡ h ∷ xs
      → circle h (add_tail n h k) ≡ h ∷ (xs ++ n ∷ [])
  pub circle-del :
      (h p : ℕ) (xs : List ℕ) (k : Links)
      → circle h k ≡ h ∷ xs
      → has p xs ≡ true
      → circle h (del p k) ≡ h ∷ remove p xs
  pub next-circle :
      (h p : ℕ) (xs : List ℕ) (k : Links)
      → circle h k ≡ h ∷ xs
      → has p (h ∷ xs) ≡ true
      → next p k ≡ behind h p (h ∷ xs)
  pub prev-circle :
      (h : ℕ) (xs : List ℕ) (k : Links) → circle h k ≡ h ∷ xs → prev h k ≡ last_or h xs
