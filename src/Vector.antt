-- ===== src/Vector.antt =====
-- src/libdata_structure/vector/vector.c and src/include/libdata_structure/vector.h: a growing array
-- of elements of one size. One cell of a block is one element of `step` bytes, moved as a whole; an
-- access outside a block is the fault `none`. Positions are `uint32_t`. The locks are left out:
-- each call runs alone.
pub mod Contents
pub mod Copy
pub mod Insert
pub mod Append
pub mod Iterate
pub mod Bounds
mod Tests
use libcutils.Base.{
  ℕ, zero, suc, ◌+◌, ◌-◌, ◌*◌, ◌%◌, ◌^◌, List, [], ◌∷◌, Bool, true, false, ◌&&◌, Option, none, some,
  ltb, ◌==◌, if◌then◌else◌, get_elem?,
}
use libcutils.Base.Monad.{◌>>=◌}
use libcutils.Base.Memory.{load, store}
use libcutils.Base.Words.{add32, sub32}

-- `vector_t`; a position `vector_pos_t` is its `vector_pos`.
pub record Vector {ℓ} (A : Type ℓ) : Type ℓ where
  pub vector_head : List A
  pub data_size : ℕ
  pub step : ℕ
  pub capacity : ℕ
  pub lock_type : ℕ
  pub begin : ℕ
  pub end : ℕ

unfoldable pub pos_next : ℕ → ℕ
pos_next it = add32 it 1

unfoldable pub pos_prev : ℕ → ℕ
pos_prev it = if ltb 1 it then sub32 it 1 else 0

-- `count - num_per > 0 ? num_per : count` is unsigned: it only asks whether the two differ.
unfoldable pub round_size : ℕ → ℕ → ℕ
round_size count num_per = if sub32 count num_per == 0 then count else num_per

module _ {ℓ} {A : Type ℓ} where
  -- The loop of `vector_copy_backward`, on fuel.
  unfoldable pub backward_loop : ℕ → List A → ℕ → ℕ → ℕ → ℕ → Option (List A)
  backward_loop zero head to_pos from_pos count num_per = if count == 0 then some head else none
  backward_loop (suc fuel) head to_pos from_pos count num_per = elim (count == 0) [
    | true ↦ some head
    | false ↦ do
      let to_pos' = sub32 to_pos num_per
      let from_pos' = sub32 from_pos num_per
      let count' = sub32 count num_per
      let num_per' = round_size count' num_per
      cells ← load head from_pos' num_per'
      head' ← store head to_pos' cells
      backward_loop fuel head' to_pos' from_pos' count' num_per'
  ]

  -- The loop of `vector_copy_forward`.
  unfoldable pub forward_loop : ℕ → List A → ℕ → ℕ → ℕ → ℕ → Option (List A)
  forward_loop zero head to_pos from_pos count num_per = if count == 0 then some head else none
  forward_loop (suc fuel) head to_pos from_pos count num_per = elim (count == 0) [
    | true ↦ some head
    | false ↦ do
      let num_per' = round_size count num_per
      cells ← load head from_pos num_per'
      head' ← store head to_pos cells
      forward_loop fuel head' (add32 to_pos num_per') (add32 from_pos num_per')
          (sub32 count num_per') num_per'
  ]

  unfoldable pub copy_backward : Vector A → ℕ → ℕ → ℕ → Option (Vector A)
  copy_backward vector to from count = do
    let from_pos = add32 from count
    let to_pos = add32 to count
    head ← backward_loop count vector.vector_head to_pos from_pos count (sub32 to_pos from_pos)
    some (record vector { vector_head = head })

  unfoldable pub copy_forward : Vector A → ℕ → ℕ → ℕ → Option (Vector A)
  copy_forward vector to from count = do
    head ← forward_loop count vector.vector_head to from count (sub32 from to)
    some (record vector { vector_head = head })

  unfoldable pub copy : Vector A → ℕ → ℕ → ℕ → Option (Vector A)
  copy vector to from count =
      if ltb to from then copy_forward vector to from count else copy_backward vector to from count

  -- The block is what the allocator returns for `capacity * step` bytes; `none` is a null pointer,
  -- which `vector_init` stores without a word: a vector with no cells.
  unfoldable pub init : Vector A → ℕ → ℕ → Option (List A) → Vector A
  init vector data_size capacity alloc = record {
    vector_head = elim alloc [ some block ↦ block | none ↦ [] ];
    data_size = data_size;
    step = data_size;
    capacity = capacity;
    lock_type = vector.lock_type;
    begin = 0;
    end = 0;
  }

  -- `alloc` is what the allocator returns for `2 * capacity * step` bytes, if it is asked.
  unfoldable pub push_back : Vector A → A → Option (List A) → Option (Vector A)
  push_back vector x alloc =
      if ltb vector.end vector.capacity
      then (do
        head ← store vector.vector_head vector.end (x ∷ [])
        some (record vector { vector_head = head; end = add32 vector.end 1 }))
      else (do
        block ← alloc
        let capacity' = (2 * vector.capacity) % 2 ^ 32
        cells ← load vector.vector_head 0 vector.capacity
        block' ← store block 0 cells
        head ← store block' vector.end (x ∷ [])
        some (record vector { vector_head = head; capacity = capacity'; end = add32 vector.end 1 }))

  -- An empty vector is left alone.
  unfoldable pub pop_back : Vector A → Vector A
  pop_back vector =
      if vector.begin == vector.end then vector else record vector { end = sub32 vector.end 1 }

  unfoldable pub insert : Vector A → ℕ → A → Option (Vector A)
  insert vector it x = do
    let count = sub32 vector.end it
    vector' ← copy vector (add32 it 1) it count
    head ← store vector'.vector_head it (x ∷ [])
    some (record vector' { vector_head = head; end = add32 vector.end 1 })

  unfoldable pub delete : Vector A → ℕ → Option (Vector A)
  delete vector it =
      if it == vector.end
      then some vector
      else if it == vector.begin && add32 it 1 == vector.end
      then some vector
      else (do
        vector' ← copy vector it (add32 it 1) (sub32 vector.end it)
        some (record vector' { end = sub32 vector.end 1 }))

  unfoldable pub set : Vector A → ℕ → A → Option (Vector A)
  set vector set_pos x = do
    head ← store vector.vector_head set_pos (x ∷ [])
    some (record vector {
      vector_head = head;
      end = if ltb vector.end set_pos then set_pos else vector.end;
    })

  -- What the pointer that `vector_get` returns points at.
  unfoldable pub get : Vector A → ℕ → Option A
  get vector get_pos = get_elem? vector.vector_head get_pos

  -- The loop of `vector_for_each`, on fuel, over what the callback does to a state of its own and to the
  -- vector, whose end is read again in each round.
  unfoldable pub for_each_loop {κ} :
      {S : Type κ}
      → ℕ
      → (S × Vector A → ℕ → S × Vector A)
      → S × Vector A
      → ℕ
      → Option (S × Vector A)
  for_each_loop zero func (s, vector) pos = if pos == vector.end then some (s, vector) else none
  for_each_loop (suc fuel) func (s, vector) pos = elim (pos == vector.end) [
    | true ↦ some (s, vector)
    | false ↦ for_each_loop fuel func (func (s, vector) pos) (add32 pos 1)
  ]

  -- `2 ^ 32` rounds pass through every position.
  unfoldable pub for_each {κ} :
      {S : Type κ} → ℕ → Vector A → (S × Vector A → ℕ → S × Vector A) → S → Option (S × Vector A)
  for_each fuel vector func s = for_each_loop fuel func (s, vector) 0
