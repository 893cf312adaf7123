-- ===== src/ArrayStack/Refine.antt =====
-- A stack against the bytes of its elements, the newest last.
use libcutils.Base.{
  ℕ, ◌+◌, ◌-◌, ◌≤◌, ◌<◌, ◌≡◌, refl, sym, ap, ◌∙◌, ap₂, List, ◌++◌, some, arith, length, replicate,
  length-replicate,
}
use libcutils.Base.Memory.{
  slice, overwrite, load-some, store-some, length-slice, length-overwrite, slice-append,
  slice-overwrite_self, slice-overwrite_before,
}
use libcutils.ArrayStack.{ArrayStack, done, failed, push, pop}

-- The bytes in use.
unfoldable pub contents : ArrayStack → List ℕ
contents stack = slice stack.top 0 stack.cur

pub record IsValid (stack : ArrayStack) : Type 0 where
  pub storage : stack.size ≤ length stack.top
  pub used : stack.cur ≤ stack.size
  pub stepping : 0 < stack.step

-- A push with room puts the element on top of the others, and a pop then gives it back and leaves
-- the others stack they were.
pub push-pop :
    (stack : ArrayStack) (bytes : List ℕ)
    → IsValid stack
    → stack.cur + stack.step < stack.size
    → stack.step ≤ length bytes
    → (pushed : ArrayStack) × (popped : ArrayStack) × (push stack bytes ≡ some (done, pushed))
      × IsValid pushed
      × (contents pushed ≡ contents stack ++ slice bytes 0 stack.step)
      × (pop pushed ≡ some (done, slice bytes 0 stack.step, popped))
      × (contents popped ≡ contents stack)
      × IsValid popped
unfolding push pop contents
push-pop stack bytes k room enough =
    let x = slice bytes 0 stack.step in
    let z : List ℕ = replicate stack.step 0 in
    let lx : length x ≡ stack.step = length-slice bytes 0 stack.step (omega arith) in
    let lz : length z ≡ stack.step = length-replicate {A = ℕ} stack.step 0 in
    let b = overwrite stack.top stack.cur z in
    let lb : length b ≡ length stack.top =
      length-overwrite stack.top stack.cur z (omega (arith, lz)) in
    let c = overwrite b stack.cur x in
    let lc : length c ≡ length b = length-overwrite b stack.cur x (omega (arith, lx, lb)) in
    let below : slice c 0 stack.cur ≡ slice stack.top 0 stack.cur =
      slice-overwrite_before b stack.cur x 0 stack.cur (omega arith)
      ∙ slice-overwrite_before stack.top stack.cur z 0 stack.cur (omega arith) in
    let self : slice c stack.cur stack.step ≡ x =
      slice-overwrite_self b stack.cur stack.step x (omega (arith, lb)) (omega (arith, lx)) in
    (
      record stack { top = c; cur = stack.cur + stack.step },
      record stack { top = c; cur = stack.cur + stack.step - stack.step },
      ground (
        arith,
        lx,
        lz,
        lb,
        store-some stack.top stack.cur z,
        load-some bytes 0 stack.step,
        store-some b stack.cur x,
      ),
      omega (arith, lb, lc),
      sym (
            slice-append c 0 stack.cur stack.step stack.cur (stack.cur + stack.step) (omega arith)
              refl)
          ∙ ap₂ ◌++◌ below self,
      (let e : stack.cur + stack.step - stack.step ≡ stack.cur = omega arith in
          ground (arith, e, self, lb, lc, load-some c stack.cur stack.step)),
      ap (λ (n : ℕ). slice c 0 n) (omega arith) ∙ below,
      omega (arith, lb, lc),
    )

-- The last slot of a block whose size is a multiple of the step is never used: the push that would
-- fill the block exactly is refused, and changes nothing.
pub push_last_refused :
    (stack : ArrayStack) (bytes : List ℕ)
    → stack.cur + stack.step ≡ stack.size
    → push stack bytes ≡ some (failed, stack)
unfolding push
push_last_refused stack bytes e = ground arith
