-- ===== src/ArrayStack.antt =====
-- src/libdata_structure/array_stack/array_stack.c: a stack of elements of `step` bytes in one block
-- that never grows. `cur` is the offset of the first free byte; `none` is an access outside the
-- block or before it.
pub mod Refine
mod Tests
use libcutils.Base.{
  ℕ, ◌+◌, ◌-◌, List, [], Option, none, some, ltb, leb, ◌==◌, if◌then◌else◌, replicate,
}
use libcutils.Base.Monad.{◌>>=◌}
use libcutils.Base.Memory.{load, store}

-- `array_stack_t`
pub record ArrayStack : Type 0 where
  pub top : List ℕ
  pub step : ℕ
  pub cur : ℕ
  pub size : ℕ

-- The results 0 and -1.
pub data Outcome : Type 0 where
  done failed : Outcome

-- A cleared record.
unfoldable pub alloc : ArrayStack
alloc = record { top = []; step = 0; cur = 0; size = 0 }

-- `block` is what the allocator returns for the size asked for.
unfoldable pub init : ArrayStack → (ℕ → Option (List ℕ)) → Outcome × ArrayStack
init stack block =
    let size = if stack.size == 0 then 100 else stack.size in
    let step = if stack.step == 0 then 8 else stack.step in
    let stack' : ArrayStack = record stack { size = size; step = step } in
    elim (block size) [
      | none ↦ (failed, stack')
      | some top ↦ (done, record stack' { top = top; cur = 0 })
    ]

unfoldable pub push : ArrayStack → List ℕ → Option (Outcome × ArrayStack)
push stack bytes =
    if ltb (stack.cur + stack.step) stack.size
    then (do
      cleared ← store stack.top stack.cur (replicate stack.step 0)
      element ← load bytes 0 stack.step
      top ← store cleared stack.cur element
      some (done, record stack { top = top; cur = stack.cur + stack.step }))
    else some (failed, stack)

-- The list is what is copied out; it stays empty when the stack is.
unfoldable pub pop : ArrayStack → Option (Outcome × List ℕ × ArrayStack)
pop stack =
    if ltb 0 stack.cur
    then (if leb stack.step stack.cur
        then (do
          element ← load stack.top (stack.cur - stack.step) stack.step
          some (done, element, record stack { cur = stack.cur - stack.step }))
        else none)
    else some (failed, [], stack)
