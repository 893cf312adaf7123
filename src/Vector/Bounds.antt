-- ===== src/Vector/Bounds.antt =====
-- What `vector_insert` and `vector_delete` do at the edges that they do not test for.
use libcutils.Base.{
  ℕ, zero, suc, ◌+◌, ◌-◌, ◌^◌, ◌≤◌, ◌<◌, ◌≡◌, refl, ◌∙◌, List, [], ◌∷◌, true, false, ◌&&◌, none,
  some, arith, length, ◌==◌, ltb,
}
use libcutils.Base.Memory.{
  slice, overwrite, load-some, load-none, store-none, length-slice, length-overwrite,
}
use native.Mathlib.Decide.{dec_lt}
use libcutils.Base.Words.{add32, sub32}
use libcutils.Vector.{
  Vector, backward_loop, forward_loop, copy_backward, copy_forward, copy, insert, delete,
}
use libcutils.Vector.Contents.{IsValid}
use libcutils.Vector.Copy.{round_size_one, forward_step}

module _ {ℓ} {A : Type ℓ} where
  -- A copy down of a run that ends with the block reads the cell behind the block.
  forward_loop-none :
      (count fuel : ℕ) (b : List A) (p from : ℕ)
      → suc count ≤ fuel
      → from ≡ p + 1
      → p + suc count ≡ length b
      → length b < 2 ^ 32
      → forward_loop fuel b p from (suc count) 1 ≡ none
  unfolding forward_loop
  forward_loop-none count zero b p from l f e k = absurd (omega arith)
  forward_loop-none zero (suc fuel) b p from l f e k =
      ground (arith, round_size_one 1, load-none b from 1)
  forward_loop-none (suc count) (suc fuel) b p from l f e k =
      let lx : length (slice b (p + 1) 1) ≡ 1 = length-slice b (p + 1) 1 (omega arith) in
      let lb = length-overwrite b p (slice b (p + 1) 1) (omega (arith, lx)) in
      forward_step fuel b p (suc count) from f (omega arith) (omega arith) k
      ∙ forward_loop-none count fuel (overwrite b p (slice b (p + 1) 1)) (p + 1) (p + 2)
          (omega arith) (omega arith) (omega (arith, lb)) (omega (arith, lb))

  -- Deleting from a vector that is full reads the cell behind the block, unless it holds a single
  -- element: `count` is one more than the elements that have to move.
  pub delete_full_faults :
      (v : Vector A) (it : ℕ)
      → IsValid v
      → v.end ≡ v.capacity
      → it < v.end
      → 1 < v.end
      → delete v it ≡ none
  unfolding delete copy copy_forward
  delete_full_faults v it k full h more =
      let e : (it == v.end) ≡ false = ground arith in
      let f : (it == v.begin && add32 it 1 == v.end) ≡ false = ground arith in
      let t : add32 it 1 ≡ it + 1 = omega arith in
      let c : sub32 v.end it ≡ suc (v.end - it - 1) = omega arith in
      let n : sub32 (it + 1) it ≡ 1 = omega arith in
      let le : ltb it (it + 1) ≡ true = ground arith in
      rw (
        e,
        f,
        t,
        c,
        le,
        n,
        forward_loop-none (v.end - it - 1) (suc (v.end - it - 1)) v.vector_head it (it + 1)
            (omega arith) refl (omega arith) (omega arith),
      )

  -- The only element of a vector is never deleted.
  pub delete_single : (v : Vector A) → IsValid v → v.end ≡ 1 → delete v 0 ≡ some v
  unfolding delete
  delete_single v k e =
      let a : (0 == v.end) ≡ false = ground arith in
      let b : (0 == v.begin && add32 0 1 == v.end) ≡ true = ground arith in rw (a, b) refl

  backward_loop-none :
      (fuel count : ℕ) (b : List A) (to from : ℕ)
      → from ≡ length b
      → to ≡ length b + 1
      → 0 < length b
      → length b < 2 ^ 31
      → suc count ≤ length b
      → backward_loop (suc fuel) b to from (suc count) 1 ≡ none
  unfolding backward_loop
  backward_loop-none fuel count b to from e f pos small h =
      let t : sub32 to 1 ≡ length b = omega arith in
      let u : sub32 from 1 ≡ length b - 1 = omega arith in
      let c : sub32 (suc count) 1 ≡ count = omega arith in
      ground (
        arith,
        t,
        u,
        c,
        round_size_one count,
        load-some b (length b - 1) 1,
        length-slice b (length b - 1) 1,
        store-none b (length b) (slice b (length b - 1) 1),
      )

  backward_loop-zero :
      (fuel : ℕ) (b : List A) (to from n : ℕ) → backward_loop fuel b to from 0 n ≡ some b
  unfolding backward_loop
  backward_loop-zero zero b to from n = refl
  backward_loop-zero (suc fuel) b to from n = refl

  -- Inserting into a full vector writes behind the block, wherever the position is.
  pub insert_full_faults :
      (v : Vector A) (it : ℕ) (x : A)
      → IsValid v
      → v.end ≡ v.capacity
      → it ≤ v.end
      → insert v it x ≡ none
  unfolding insert copy copy_backward
  insert_full_faults v it x k full h =
      let t : add32 it 1 ≡ it + 1 = omega arith in
      let le : ltb (it + 1) it ≡ false = ground arith in
      elim (dec_lt it v.end) [
        | no p ↦
            let c : sub32 v.end it ≡ 0 = omega arith in
            rw (
              t,
              le,
              c,
              backward_loop-zero 0 v.vector_head (add32 (it + 1) 0) (add32 it 0)
                  (sub32 (add32 (it + 1) 0) (add32 it 0)),
              store-none v.vector_head it (x ∷ []) (omega arith),
            )
        | yes p ↦
            let n = v.end - it - 1 in
            let c : sub32 v.end it ≡ suc n = omega arith in
            let a : add32 it (suc n) ≡ v.end = omega arith in
            let b : add32 (it + 1) (suc n) ≡ v.end + 1 = omega arith in
            let d : sub32 (v.end + 1) v.end ≡ 1 = omega arith in
            rw (
              t,
              le,
              c,
              a,
              b,
              d,
              backward_loop-none n n v.vector_head (v.end + 1) v.end (omega arith) (omega arith)
                  (omega arith) (omega arith) (omega arith),
            )
      ]
