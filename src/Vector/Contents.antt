-- ===== src/Vector/Contents.antt =====
-- The elements that a vector holds, and its representation invariant.
use libcutils.Base.{◌^◌, ◌≤◌, ◌<◌, ◌≡◌, List, arith, length}
use libcutils.Base.Memory.{slice, length-slice}
use libcutils.Vector.{Vector}

module _ {ℓ} {A : Type ℓ} where
  unfoldable pub contents : Vector A → List A
  contents vector = slice vector.vector_head 0 vector.end

  -- The block holds `capacity` elements, and twice as many can still be counted.
  pub record IsValid (vector : Vector A) : Type 0 where
    pub storage : length vector.vector_head ≡ vector.capacity
    pub small : vector.capacity < 2 ^ 31
    pub begin_zero : vector.begin ≡ 0
    pub end_in : vector.end ≤ vector.capacity

  pub length-contents : (v : Vector A) → IsValid v → length (contents v) ≡ v.end
  unfolding contents
  length-contents v k = length-slice v.vector_head 0 v.end (omega arith)
