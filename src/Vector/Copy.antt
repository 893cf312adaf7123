-- ===== src/Vector/Copy.antt =====
-- The overlapping copies of `vector_copy`, by one cell up or down, cell by cell.
use libcutils.Base.{
  ℕ, zero, suc, ◌+◌, ◌^◌, ◌≤◌, ◌<◌, ◌≡◌, refl, sym, ap, ◌∙◌, List, some, arith, length,
}
use libcutils.Base.Memory.{
  slice, overwrite, load-some, store-some, length-slice, length-overwrite, slice-append,
  slice-overwrite_before, slice-overwrite_after, overwrite-nil, overwrite-overwrite_left,
  overwrite-overwrite_right, slice-zero,
}
use libcutils.Base.Words.{add32, sub32}
use libcutils.Vector.{backward_loop, forward_loop, round_size}

pub round_size_one : (count : ℕ) → count < 2 ^ 32 → round_size count 1 ≡ 1
unfolding round_size
round_size_one count h = ground arith

module _ {ℓ} {A : Type ℓ} where
  backward_step :
      (fuel : ℕ) (b : List A) (p count to from : ℕ)
      → to ≡ p + 1 + suc count
      → from ≡ p + suc count
      → to ≤ length b
      → length b < 2 ^ 32
      → backward_loop (suc fuel) b to from (suc count) 1
        ≡ backward_loop fuel
            (overwrite b (p + 1 + count) (slice b (p + count) 1))
            (p + 1 + count)
            (p + count)
            count
            1
  unfolding backward_loop
  backward_step fuel b p count to from e f h k =
      let t : sub32 to 1 ≡ p + 1 + count = omega arith in
      let u : sub32 from 1 ≡ p + count = omega arith in
      let c : sub32 (suc count) 1 ≡ count = omega arith in
      ground (
        arith,
        t,
        u,
        c,
        round_size_one count,
        load-some b (p + count) 1,
        length-slice b (p + count) 1,
        store-some b (p + 1 + count) (slice b (p + count) 1),
      )

  pub backward_loop_lem :
      (count fuel : ℕ) (b : List A) (p to from : ℕ)
      → count ≤ fuel
      → to ≡ p + 1 + count
      → from ≡ p + count
      → to ≤ length b
      → length b < 2 ^ 32
      → backward_loop fuel b to from count 1 ≡ some (overwrite b (p + 1) (slice b p count))
  unfolding backward_loop
  backward_loop_lem zero zero b p to from l e f h k =
      ap some (sym (ap (overwrite b (p + 1)) (slice-zero b p) ∙ overwrite-nil b (p + 1)))
  backward_loop_lem zero (suc fuel) b p to from l e f h k =
      ap some (sym (ap (overwrite b (p + 1)) (slice-zero b p) ∙ overwrite-nil b (p + 1)))
  backward_loop_lem (suc count) zero b p to from l e f h k = absurd (omega arith)
  backward_loop_lem (suc count) (suc fuel) b p to from l e f h k =
      let x = slice b (p + count) 1 in
      let lx : length x ≡ 1 = length-slice b (p + count) 1 (omega arith) in
      let b' = overwrite b (p + 1 + count) x in
      let lb : length b' ≡ length b = length-overwrite b (p + 1 + count) x (omega (arith, lx)) in
      let ls : length (slice b p count) ≡ count = length-slice b p count (omega arith) in
      backward_step fuel b p count to from e f h k
      ∙ backward_loop_lem count fuel b' p (p + 1 + count) (p + count) (omega arith) refl refl
          (omega (arith, lb)) (omega (arith, lb))
      ∙ ap (λ t. some (overwrite b' (p + 1) t))
          (slice-overwrite_before b (p + 1 + count) x p count (omega arith))
      ∙ ap some (
          overwrite-overwrite_right b (p + 1) (p + 1 + count) (slice b p count) x
            (omega (arith, ls)) (omega (arith, lx)))
      ∙ ap (λ t. some (overwrite b (p + 1) t))
          (slice-append b p count 1 (p + count) (suc count) refl (omega arith))

  pub forward_step :
      (fuel : ℕ) (b : List A) (p count from : ℕ)
      → from ≡ p + 1
      → p + 2 ≤ length b
      → suc count ≤ length b
      → length b < 2 ^ 32
      → forward_loop (suc fuel) b p from (suc count) 1
        ≡ forward_loop fuel (overwrite b p (slice b (p + 1) 1)) (p + 1) (p + 2) count 1
  unfolding forward_loop
  forward_step fuel b p count from f h l k =
      let t : add32 p 1 ≡ p + 1 = omega arith in
      let u : add32 (p + 1) 1 ≡ p + 2 = omega arith in
      let c : sub32 (suc count) 1 ≡ count = omega arith in
      let n : round_size (suc count) 1 ≡ 1 = round_size_one (suc count) (omega arith) in
      ground (
        arith,
        t,
        u,
        c,
        f,
        n,
        load-some b (p + 1) 1,
        length-slice b (p + 1) 1,
        store-some b p (slice b (p + 1) 1),
      )

  pub forward_loop_lem :
      (count fuel : ℕ) (b : List A) (p from : ℕ)
      → count ≤ fuel
      → from ≡ p + 1
      → p + 1 + count ≤ length b
      → length b < 2 ^ 32
      → forward_loop fuel b p from count 1 ≡ some (overwrite b p (slice b (p + 1) count))
  unfolding forward_loop
  forward_loop_lem zero zero b p from l f h k =
      ap some (sym (ap (overwrite b p) (slice-zero b (p + 1)) ∙ overwrite-nil b p))
  forward_loop_lem zero (suc fuel) b p from l f h k =
      ap some (sym (ap (overwrite b p) (slice-zero b (p + 1)) ∙ overwrite-nil b p))
  forward_loop_lem (suc count) zero b p from l f h k = absurd (omega arith)
  forward_loop_lem (suc count) (suc fuel) b p from l f h k =
      let x = slice b (p + 1) 1 in
      let lx : length x ≡ 1 = length-slice b (p + 1) 1 (omega arith) in
      let b' = overwrite b p x in
      let lb : length b' ≡ length b = length-overwrite b p x (omega (arith, lx)) in
      let q : p + 1 + 1 ≡ p + 2 = omega arith in
      let ls : length (slice b (p + 2) count) ≡ count =
        length-slice b (p + 2) count (omega arith) in
      forward_step fuel b p count from f (omega arith) (omega arith) k
      ∙ forward_loop_lem count fuel b' (p + 1) (p + 2) (omega arith) (omega arith)
          (omega (arith, lb)) (omega (arith, lb))
      ∙ ap (λ (j : ℕ). some (overwrite b' (p + 1) (slice b' j count))) q
      ∙ ap (λ t. some (overwrite b' (p + 1) t))
          (slice-overwrite_after b p x (p + 2) count (omega (arith, lx)) (omega (arith, lx)))
      ∙ ap some (
          overwrite-overwrite_left b p (p + 1) x (slice b (p + 2) count) (omega (arith, lx))
            (omega (arith, ls)))
      ∙ ap (λ t. some (overwrite b p t))
          (slice-append b (p + 1) 1 count (p + 2) (suc count) (omega arith) (omega arith))
