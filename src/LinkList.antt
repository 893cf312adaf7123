-- ===== src/LinkList.antt =====
-- src/libdata_structure/link_list/link_list.c with src/include/libdata_structure/link_list.h: a
-- circular list behind a head node, which keeps the position of its first node. Nodes are addresses
-- and `cells` holds the bytes of each. The allocator's answer is an argument, `none` for a null
-- pointer; a result of `none` is a fault. The locks are left out: each call runs alone.
pub mod Circle
pub mod Order
pub mod Insert
pub mod Delete
pub mod Walk
pub mod Queue
mod Tests
use Prim.Native.String.{String}
use text.Mathlib.Text.{◌==◌ as str_eq}
use libcutils.LinkList.Circle.{KernelRing}
use libcutils.Base.{
  ℕ, zero, suc, ◌+◌, ◌-◌, ◌%◌, ◌^◌, List, [], ◌∷◌, Bool, true, false, Option, none, some, ◌==◌,
  if◌then◌else◌,
}
use libcutils.Base.Monad.{◌>>=◌}
use libcutils.Base.Memory.{load}
use libcutils.Base.Words.{add32, sub32}

-- The `list_pos_t *` that an operation is given: a position field of the list itself, or one that
-- stands elsewhere.
pub data PosRef : Type 0 where
  begin_field head_field : PosRef
  local : ℕ → PosRef

unfoldable pub pos_equal : ℕ → ℕ → Bool
pos_equal pos1 pos2 = pos1 == pos2

-- The bytes of a new node.
abbrev pub update : (ℕ → List ℕ) → ℕ → List ℕ → ℕ → List ℕ
update cells p block q = if q == p then block else cells q

module _ (api : KernelRing) where
  open api use {Links}

  -- `llist_t`; a position is the address of its node, without the pointer back to the list.
  pub record Llist : Type 0 where
    pub list_count : ℕ
    pub data_size : ℕ
    pub lock_type : ℕ
    pub begin : ℕ
    pub head : ℕ
    pub links : Links
    pub cells : ℕ → List ℕ

module _ {api : KernelRing} where
  open api use {init_head, add, add_tail, del, next, prev}

  -- What a position holds now.
  abbrev pub deref : Llist api → PosRef → ℕ
  deref llist begin_field = llist.begin
  deref llist head_field = llist.head
  deref llist (local p) = p

  -- The value is read as an `int`.
  unfoldable pub set : Llist api → String → ℕ → Bool × Llist api
  set llist attrib value =
      if str_eq attrib "data_size"
      then (true, record llist { data_size = value % 2 ^ 32 })
      else if str_eq attrib "lock_type"
      then (true, record llist { lock_type = value % 2 ^ 8 })
      else (false, llist)

  -- A null head is written through.
  unfoldable pub init : Llist api → Option ℕ → Option (Llist api)
  init llist none = none
  init llist (some p) =
      some (record llist { list_count = 0; links = init_head p llist.links; begin = p; head = p })

  unfoldable pub pos_next : Llist api → ℕ → ℕ
  pos_next llist pos = next pos llist.links

  unfoldable pub pos_prev : Llist api → ℕ → ℕ
  pos_prev llist pos = prev pos llist.links

  unfoldable pub insert : Llist api → PosRef → List ℕ → Option ℕ → Option (Llist api)
  unfolding pos_equal
  insert llist pos block p = do
    p' ← p
    bytes ← load block 0 llist.data_size
    some (record llist {
      links = add p' (deref llist pos) llist.links;
      cells = update llist.cells p' bytes;
      begin = if pos_equal (deref llist pos) llist.head then p' else llist.begin;
      list_count = add32 llist.list_count 1;
    })

  -- `pos` is read again after `begin` has moved on. The result is -1 on an empty list, and else the
  -- address that is freed.
  unfoldable pub delete : Llist api → PosRef → Option ℕ × Llist api
  unfolding pos_equal pos_next
  delete llist pos =
      let p = deref llist pos in
      let moved : Llist api =
        if pos_equal p llist.begin then record llist { begin = pos_next llist p } else llist in
      if pos_equal llist.begin llist.head then (none, llist) else (
        some p,
        record moved {
          links = del (deref moved pos) moved.links;
          list_count = sub32 moved.list_count 1;
        },
      )

  -- `pos` is read before `begin` changes. `none` is a null pointer.
  unfoldable pub detach : Llist api → PosRef → Option ℕ × Llist api
  unfolding pos_equal pos_next
  detach llist pos =
      let p = deref llist pos in
      let cut : Llist api = record llist { links = del p llist.links } in
      if pos_equal llist.begin llist.head then (none, llist) else (
        some p,
        record cut {
          begin = if pos_equal p cut.begin then pos_next cut cut.head else cut.begin;
          list_count = sub32 cut.list_count 1;
        },
      )

  unfoldable pub push_back : Llist api → List ℕ → Option ℕ → Option (Llist api)
  unfolding pos_equal pos_next
  push_back llist block p = do
    p' ← p
    bytes ← load block 0 llist.data_size
    let linked : Llist api = record llist {
      links = add_tail p' llist.head llist.links;
      cells = update llist.cells p' bytes;
    }
    some (record linked {
      begin =
          if pos_equal linked.head linked.begin then pos_next linked linked.head else linked.begin;
      list_count = add32 linked.list_count 1;
    })

  -- `llist_detach_back`; `llist_pop_back` frees the node that this returns.
  unfoldable pub detach_back : Llist api → Option ℕ × Llist api
  unfolding pos_equal pos_prev
  detach_back llist =
      let p = pos_prev llist llist.head in
      let count = sub32 llist.list_count 1 in
      if pos_equal llist.begin llist.head then (none, llist) else (
        some p,
        record llist {
          links = del p llist.links;
          list_count = count;
          begin = if count == 0 then llist.head else llist.begin;
        },
      )

  unfoldable pub pop_back : Llist api → Option ℕ × Llist api
  unfolding detach_back
  pop_back llist = detach_back llist

  unfoldable pub push_front : Llist api → List ℕ → Option ℕ → Option (Llist api)
  push_front llist block p = insert llist head_field block p

  unfoldable pub pop_front : Llist api → Option ℕ × Llist api
  pop_front llist = delete llist begin_field

  unfoldable pub detach_front : Llist api → Option ℕ × Llist api
  detach_front llist = detach llist begin_field

  unfoldable pub get_count : Llist api → ℕ
  get_count llist = llist.list_count

  unfoldable pub pos_get_pointer : Llist api → ℕ → List ℕ
  pos_get_pointer llist pos = llist.cells pos

  -- The loop of `llist_destroy` at a position and the one behind it, on fuel: the addresses freed, in
  -- order, and the list that is left.
  unfoldable pub destroy_loop : ℕ → Llist api → ℕ → ℕ → Option (List (Option ℕ) × Llist api)
  unfolding pos_equal pos_next
  destroy_loop zero llist pos next = none
  destroy_loop (suc fuel) llist pos next = elim (pos_equal pos llist.head) [
    | true ↦ some ([], llist)
    | false ↦ do
      let (out, llist') = delete llist (local pos)
      (freed, left) ← destroy_loop fuel llist' next (pos_next llist' next)
      some (out ∷ freed, left)
  ]

  -- Before it frees the list, the head is freed too if no node is left.
  unfoldable pub destroy : ℕ → Llist api → Option (List (Option ℕ) × Bool)
  unfolding pos_equal pos_next
  destroy fuel llist = do
    (freed, left) ← destroy_loop fuel llist llist.begin (pos_next llist llist.begin)
    some (freed, pos_equal left.head left.begin)

  -- The loop of `llist_for_each_with_arg`, on fuel, over a callback that changes the argument alone.
  unfoldable pub for_each_loop {κ} :
      {S : Type κ} → ℕ → Llist api → (S → ℕ → List ℕ → S) → S → ℕ → ℕ → Option S
  unfolding pos_equal pos_next
  for_each_loop zero llist func s pos next = none
  for_each_loop (suc fuel) llist func s pos next = elim (pos_equal pos llist.head) [
    | true ↦ some s
    | false ↦
        for_each_loop fuel llist func (func s pos (llist.cells pos)) next (pos_next llist next)
  ]

  unfoldable pub for_each {κ} : {S : Type κ} → ℕ → Llist api → (S → ℕ → List ℕ → S) → S → Option S
  unfolding pos_next
  for_each fuel llist func s =
      for_each_loop fuel llist func s llist.begin (pos_next llist llist.begin)
