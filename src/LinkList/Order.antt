-- ===== src/LinkList/Order.antt =====
-- The nodes of a linked list in order, and what holds of them between two calls.
use libcutils.Base.{ℕ, ◌^◌, ◌<◌, ◌≡◌, List, ◌∷◌, length}
use libcutils.Base.Nodes.{first_or, IsDistinct}
use libcutils.LinkList.Circle.{KernelRing}
use libcutils.LinkList.{Llist}

-- The list holds these nodes: they stand behind the head, the first position is that of the first of
-- them or of the head, and they are counted.
pub record IsList (api : KernelRing) (llist : Llist api) (xs : List ℕ) : Type 0 where
  pub walk : api.circle llist.head llist.links ≡ llist.head ∷ xs
  pub first : llist.begin ≡ first_or llist.head xs
  pub apart : IsDistinct (llist.head ∷ xs)
  pub counted : llist.list_count ≡ length xs
  pub short : length xs < 2 ^ 32
