-- ===== src/Vector/Tests.antt =====
-- A vector of numbers with room for four: runs, and the theorems at concrete vectors.
use libcutils.Base.{ℕ, ◌+◌, ◌≡◌, refl, List, [], ◌∷◌, ◌++◌, some, arith, take, drop}
use libcutils.Base.Memory.{slice, overwrite, load, store}
use mathlib.Core.List.{foldl}
use libcutils.Vector.{
  Vector, round_size, backward_loop, forward_loop, copy_backward, copy_forward, copy, init,
  push_back, insert, delete, get, for_each, for_each_loop, pos_next, pos_prev,
}
use libcutils.Vector.Contents.{contents, IsValid}
use libcutils.Vector.Insert.{insert_lem, delete_lem}
use libcutils.Vector.Append.{push_back_lem}
use libcutils.Vector.Iterate.{count_from, for_each_lem}

abbrev three : Vector ℕ
three = record {
  vector_head = 10 ∷ 20 ∷ 30 ∷ 0 ∷ [];
  data_size = 8;
  step = 8;
  capacity = 4;
  lock_type = 0;
  begin = 0;
  end = 3;
}

abbrev full : Vector ℕ
full = record three { vector_head = 10 ∷ 20 ∷ 30 ∷ 40 ∷ []; end = 4 }

abbrev eight : List ℕ
eight = 0 ∷ 0 ∷ 0 ∷ 0 ∷ 0 ∷ 0 ∷ 0 ∷ 0 ∷ []

init_lem : init three 8 4 (some (10 ∷ 20 ∷ 30 ∷ 0 ∷ [])) ≡ record three { end = 0 }
unfolding init
init_lem = refl

insert_runs :
    insert three 1 15 ≡ some (record three { vector_head = 10 ∷ 15 ∷ 20 ∷ 30 ∷ []; end = 4 })
unfolding insert copy copy_backward backward_loop round_size load store slice overwrite
insert_runs = refl

delete_runs : delete three 0 ≡ some (record three { vector_head = 20 ∷ 30 ∷ 0 ∷ 0 ∷ []; end = 2 })
unfolding delete copy copy_forward forward_loop round_size load store slice overwrite
delete_runs = refl

positions : (get three 2 ≡ some 30) × (pos_next 2 ≡ 3) × (pos_prev 2 ≡ 1) × (pos_prev 0 ≡ 0)
unfolding get pos_next pos_prev
positions = (refl, refl, refl, refl)

three-IsValid : IsValid three
three-IsValid = omega arith

full-IsValid : IsValid full
full-IsValid = omega arith

insert_lem_example :
    (v' : Vector ℕ) × (insert three 1 15 ≡ some v')
    × (contents v' ≡ take 1 (contents three) ++ (15 ∷ drop 1 (contents three)))
    × IsValid v'
insert_lem_example = insert_lem three 1 15 three-IsValid (omega arith) (omega arith)

delete_lem_example :
    (v' : Vector ℕ) × (delete three 1 ≡ some v')
    × (contents v' ≡ take 1 (contents three) ++ drop 2 (contents three))
    × IsValid v'
delete_lem_example = delete_lem three 1 three-IsValid (omega arith) (omega arith) (omega arith)

push_back_lem_example :
    (v' : Vector ℕ) × (push_back full 50 (some eight) ≡ some v')
    × (contents v' ≡ contents full ++ (50 ∷ []))
    × IsValid v'
    × (v'.capacity ≡ 8)
    × (v'.vector_head ≡ overwrite (overwrite eight 0 (slice full.vector_head 0 4)) 4 (50 ∷ []))
push_back_lem_example = push_back_lem full 50 eight full-IsValid (omega arith) (omega arith) refl

abbrev single : Vector ℕ
single = record three { end = 1 }

single_runs : delete single 0 ≡ some single
unfolding delete
single_runs = refl

-- A callback that adds up the positions and writes each into its cell.
abbrev number : ℕ × Vector ℕ → ℕ → ℕ × Vector ℕ
number (s, v) i = (s + i, record v { vector_head = overwrite v.vector_head i (i ∷ []) })

number_runs :
    for_each 9 three number 0 ≡ some (3, record three { vector_head = 0 ∷ 1 ∷ 2 ∷ 0 ∷ [] })
unfolding for_each for_each_loop overwrite
number_runs = refl

for_each_lem_example : for_each 9 three number 0 ≡ some (foldl number (0, three) (count_from 0 3))
for_each_lem_example = for_each_lem 9 three number 0 three-IsValid (omega arith) (λ x i. refl)
