-- ===== src/Alloc/Classes.antt =====
-- The size class of a request: the first power of two times the smallest size that holds it.
use libcutils.Base.{
  ℕ, zero, suc, ◌+◌, ◌*◌, ◌/◌, ◌%◌, ◌^◌, ◌≤◌, ◌<◌, ◌≡◌, refl, ap, ◌∙◌, subst, ◌⊎◌, inl, inr, true,
  false, ◌&&◌, ◌||◌, Option, none, some, arith, ◌==◌, if◌then◌else◌, leb,
}
use native.Mathlib.Nat.{pow-suc, mul-le-mul_right, mod-eq_of_lt, div-add-mod, mod-lt}
use native.Mathlib.Decide.{dec_le}
use libcutils.Alloc.Chain.{KernelList}
use libcutils.Alloc.{CtrAlloc, pow, slab_index_from, get_slab_index}

pub pow2_mono : (k i m : ℕ) → k + i ≡ m → 2 ^ i ≤ 2 ^ m
pow2_mono zero i m e = let f : i ≡ m = omega arith in omega (arith, ap (λ (j : ℕ). 2 ^ j) f)
pow2_mono (suc k) i zero e = absurd (omega arith)
pow2_mono (suc k) i (suc m) e =
    let p : 2 ^ suc m ≡ 2 ^ m * 2 = pow-suc 2 m in omega (arith, p, pow2_mono k i m (omega arith))

pow_two : (i : ℕ) → 2 ^ i < 2 ^ 32 → pow 2 i ≡ 2 ^ i
unfolding pow
pow_two zero h = refl
pow_two (suc i) h =
    let p : 2 ^ suc i ≡ 2 ^ i * 2 = pow-suc 2 i in
    let ih : pow 2 i ≡ 2 ^ i = pow_two i (omega (arith, p)) in omega (arith, p, ih)

times_two : (a n : ℕ) → (a * 2) * n ≡ 2 * (a * n)
times_two a n = omega arith

le-times : (a n : ℕ) → 0 < n → a ≤ a * n
le-times a zero h = absurd (omega arith)
le-times a (suc n) h = let p : a * suc n ≡ a * n + a = omega arith in omega (arith, p)

-- The test of the loop, with its quotient and remainder, asks whether the size fits.
fits-le :
    (q r size bound : ℕ)
    → bound * q + r ≡ size
    → r < bound
    → (q == 0 || (q == 1 && r == 0)) ≡ leb size bound
fits-le zero r size bound e h = ground arith
fits-le (suc zero) r size bound e h = ground arith
fits-le (suc (suc q)) r size bound e h =
    let p : bound * suc (suc q) ≡ bound * q + (bound + bound) = omega arith in ground (arith, p)

pow2-positive : (i : ℕ) → 0 < 2 ^ i
pow2-positive zero = omega arith
pow2-positive (suc i) =
    let p : 2 ^ suc i ≡ 2 ^ i * 2 = pow-suc 2 i in omega (arith, p, pow2-positive i)

-- What the loop answers: a class that holds the size, with less than a half of it unused from the
-- second class on; or none, where the size is above half of the largest class's next one.
unfoldable pub IsClass : ℕ → ℕ → ℕ → Option (Option ℕ) → Type 0
IsClass max min size none = ⊥
IsClass max min size (some none) = 2 ^ max * min < 2 * size
IsClass max min size (some (some j)) =
    (j < max) × (size ≤ 2 ^ j * min) × (j ≡ 0 ⊎ 2 ^ j * min < 2 * size)

pub bound_mono : (k i max min : ℕ) → k + i ≡ max → 2 ^ i * min ≤ 2 ^ max * min
bound_mono k i max min e = mul-le-mul_right min (pow2_mono k i max e)

double : (i min : ℕ) → 2 ^ (i + 1) * min ≡ 2 * (2 ^ i * min)
double i min =
    let p : 2 ^ (i + 1) ≡ 2 ^ i * 2 = ap (λ (x : ℕ). 2 ^ x) (omega arith) ∙ pow-suc 2 i in
    ap (λ (x : ℕ). x * min) p ∙ times_two (2 ^ i) min

pub bound_lem :
    (i min : ℕ) → 0 < min → 2 ^ i * min < 2 ^ 32 → (pow 2 i * min) % 2 ^ 32 ≡ 2 ^ i * min
bound_lem i min h b =
    let p : pow 2 i ≡ 2 ^ i = pow_two i (omega (arith, le-times (2 ^ i) min h)) in
    ap (λ (x : ℕ). (x * min) % 2 ^ 32) p ∙ mod-eq_of_lt b

slab_index_from-suc :
    (rounds i min size : ℕ)
    → 0 < min
    → 2 ^ i * min < 2 ^ 32
    → slab_index_from (suc rounds) i min size
      ≡ (if leb size (2 ^ i * min) then some (some i) else slab_index_from rounds (i + 1) min size)
unfolding slab_index_from
slab_index_from-suc rounds i min size h b =
    let n = 2 ^ i * min in
    let low : 0 < n = omega (arith, h, le-times min (2 ^ i) (pow2-positive i)) in
    let f = fits-le (size / n) (size % n) size n (div-add-mod size n) (mod-lt size {m = n} low) in
    let z : (n == 0) ≡ false = ground arith in rw (bound_lem i min h b, z, f) refl

from_lem :
    (rounds i max min size : ℕ)
    → rounds + i ≡ max
    → 0 < max
    → 0 < min
    → 2 ^ max * min < 2 ^ 32
    → (i ≡ 0 ⊎ 2 ^ i * min < 2 * size)
    → IsClass max min size (slab_index_from rounds i min size)
unfolding IsClass slab_index_from
from_lem zero i max min size e pos h b (inl o) = absurd (omega arith)
from_lem zero i max min size e pos h b (inr o) =
    let same : i ≡ max = omega arith in subst (λ (m : ℕ). 2 ^ m * min < 2 * size) same o
from_lem (suc rounds) i max min size e pos h b s =
    let n = 2 ^ i * min in
    let small : n < 2 ^ 32 = omega (arith, bound_mono (suc rounds) i max min e) in
    rw (slab_index_from-suc rounds i min size h small) (elim (dec_le size n) [
      | yes le ↦ let t : leb size n ≡ true = ground arith in rw t (omega arith, le, s)
      | no over ↦
          let t : leb size n ≡ false = ground arith in
          let half : 2 ^ (i + 1) * min < 2 * size = omega (arith, double i min) in
          rw t (from_lem rounds (i + 1) max min size (omega arith) pos h b (inr half))
    ])

-- With sizes that fit 32 bits, the search for the class of a request always gives an answer: the
-- index of a class in the arrays, which holds the request and, but for the smallest, is less than
-- twice as large; or -1, and then the request is larger than the largest class, by which no class
-- holds it.
pub get_slab_index_lem :
    {api : KernelList} (a : CtrAlloc api) (size : ℕ)
    → 0 < a.slab_array_max_num
    → 0 < a.data_min_size
    → 2 ^ a.slab_array_max_num * a.data_min_size < 2 ^ 32
    → IsClass a.slab_array_max_num a.data_min_size size (get_slab_index a size)
unfolding get_slab_index
get_slab_index_lem a size pos h b =
    from_lem a.slab_array_max_num 0 a.slab_array_max_num a.data_min_size size (omega arith) pos h b
      (inl refl)
