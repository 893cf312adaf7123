-- ===== src/Vector/Iterate.antt =====
-- `vector_for_each` and the positions that it passes to its callback.
use libcutils.Base.{
  ℕ, zero, suc, refl, ◌∙◌, ◌+◌, ◌^◌, ◌≤◌, ◌<◌, ◌≡◌, List, [], ◌∷◌, true, false, some, arith, ◌==◌,
}
use mathlib.Core.List.{foldl}
use libcutils.Base.Words.{add32}
use libcutils.Vector.{Vector, for_each_loop, for_each}
use libcutils.Vector.Contents.{IsValid}

-- The `n` numbers from `i` on.
unfoldable pub count_from : ℕ → ℕ → List ℕ
count_from i zero = []
count_from i (suc n) = i ∷ count_from (i + 1) n

for_each_loop_lem {ℓ κ} :
    {A : Type ℓ} {S : Type κ} (n fuel end : ℕ) (func : S × Vector A → ℕ → S × Vector A)
    (x : S × Vector A) (pos : ℕ)
    → ((y : S × Vector A) (i : ℕ) → (func y i).1.end ≡ y.1.end)
    → n ≤ fuel
    → x.1.end ≡ end
    → pos + n ≡ end
    → end < 2 ^ 31
    → for_each_loop fuel func x pos ≡ some (foldl func x (count_from pos n))
unfolding for_each_loop count_from
for_each_loop_lem zero zero end func x pos keeps l same e h =
    let t : (pos == x.1.end) ≡ true = ground (arith, same, e) in ground (arith, t)
for_each_loop_lem zero (suc fuel) end func x pos keeps l same e h =
    let t : (pos == x.1.end) ≡ true = ground (arith, same, e) in ground (arith, t)
for_each_loop_lem (suc n) zero end func x pos keeps l same e h = absurd (omega arith)
for_each_loop_lem (suc n) (suc fuel) end func x pos keeps l same e h =
    let t : (pos == x.1.end) ≡ false = ground (arith, same, e) in
    let a : add32 pos 1 ≡ pos + 1 = omega arith in
    ground (
      arith,
      t,
      a,
      for_each_loop_lem n fuel end func (func x pos) (pos + 1) keeps (omega (arith, l))
          (keeps x pos ∙ same) (omega (arith, e)) h,
    )

-- In a valid vector, with as many rounds as there are elements, the callback, which may change a state of
-- its own and the vector but not the vector's end, runs once at each position from 0 up to the end, in
-- order, and the loop ends.
pub for_each_lem {ℓ κ} :
    {A : Type ℓ} {S : Type κ} (fuel : ℕ) (v : Vector A) (func : S × Vector A → ℕ → S × Vector A)
    (s : S)
    → IsValid v
    → v.end ≤ fuel
    → ((x : S × Vector A) (i : ℕ) → (func x i).1.end ≡ x.1.end)
    → for_each fuel v func s ≡ some (foldl func (s, v) (count_from 0 v.end))
unfolding for_each
for_each_lem fuel v func s k h keeps =
    for_each_loop_lem v.end fuel v.end func (s, v) 0 keeps h refl (omega arith) (omega arith)
