-- ===== src/ArrayStack/Tests.antt =====
-- A stack of three slots of two bytes.
use libcutils.Base.{◌≡◌, refl, [], ◌∷◌, ◌++◌, some, arith, replicate}
use libcutils.Base.Memory.{slice, overwrite, load, store}
use libcutils.ArrayStack.{ArrayStack, done, alloc, init, push, pop}
use libcutils.ArrayStack.Refine.{contents, IsValid, push-pop}

abbrev three : ArrayStack
three = record { top = 1 ∷ 2 ∷ 0 ∷ 0 ∷ 0 ∷ 0 ∷ []; step = 2; cur = 2; size = 6 }

init_lem : (init alloc (λ n. some (replicate n 7))).1.cur ≡ 0
unfolding init alloc
init_lem = refl

push_runs :
    push three (8 ∷ 9 ∷ [])
    ≡ some (done, record three { top = 1 ∷ 2 ∷ 8 ∷ 9 ∷ 0 ∷ 0 ∷ []; cur = 4 })
unfolding push load store slice overwrite
push_runs = refl

push-pop_example :
    (pushed : ArrayStack) × (popped : ArrayStack) × (push three (8 ∷ 9 ∷ []) ≡ some (done, pushed))
    × IsValid pushed
    × (contents pushed ≡ contents three ++ slice (8 ∷ 9 ∷ []) 0 2)
    × (pop pushed ≡ some (done, slice (8 ∷ 9 ∷ []) 0 2, popped))
    × (contents popped ≡ contents three)
    × IsValid popped
push-pop_example = push-pop three (8 ∷ 9 ∷ []) (omega arith) (omega arith) (omega arith)
