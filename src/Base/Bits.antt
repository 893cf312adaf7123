-- ===== src/Base/Bits.antt =====
-- Binary digits: masks, shifts, and `|` on numbers.
use Prim.Native.Nat.{
  ℕ, zero, suc, ◌+◌, ◌-◌, ◌*◌, ◌/◌, ◌%◌, ◌^◌, ◌≤◌, ◌<◌, min, max, bit_and, bit_or, digits,
  bit_and-bitwise, bit_or-bitwise,
}
use mathlib.Core.Path.{◌≡◌, refl, sym, ap, ap₂, ◌∙◌}
use native.Mathlib.Nat.{
  pow-suc, pow-succ', pow-le-pow_right, div-div-eq-div-mul, mod_def, mul_assoc, div-add-mod',
  div-one,
}
use native.Mathlib.Omega.{arith}

-- What holds of 0, and of a number if it does of its half, holds of all numbers.
by_halves : (P : ℕ → Type 0) → P 0 → ((a : ℕ) → P (a / 2) → P a) → (a : ℕ) → P a
by_halves P start next a = below a a (omega arith)
  where
    below : (bound x : ℕ) → x ≤ bound → P x
    below bound zero h = start
    below zero (suc x) h = absurd (omega (arith, h))
    below (suc bound) (suc x) h = next (suc x) (below bound (suc x / 2) (omega (arith, h)))

-- An operation digit by digit, from the definition that the native ones stand for.
module _ (rest : ℕ → ℕ) (digit : ℕ → ℕ → ℕ) where
  one_more_round :
      (rounds x y : ℕ)
      → x ≤ rounds
      → digits rest digit (suc rounds) x y ≡ digits rest digit rounds x y
  one_more_round zero zero y h = refl
  one_more_round (suc rounds) zero y h = refl
  one_more_round zero (suc x) y h = absurd (omega (arith, h))
  one_more_round (suc rounds) (suc x) y h =
      ap (λ high. high * 2 + digit (suc x % 2) (y % 2))
        (one_more_round rounds (suc x / 2) (y / 2) (omega (arith, h)))

  more_rounds :
      (rounds extra x y : ℕ)
      → x ≤ rounds
      → digits rest digit (extra + rounds) x y ≡ digits rest digit rounds x y
  more_rounds rounds zero x y h = ap (λ k. digits rest digit k x y) (omega arith)
  more_rounds rounds (suc extra) x y h =
      let longer : suc extra + rounds ≡ suc (extra + rounds) = omega arith in
      ap (λ k. digits rest digit k x y) longer
      ∙ one_more_round (extra + rounds) x y (omega (arith, h))
      ∙ more_rounds rounds extra x y h

  lowest_digit :
      (x y : ℕ)
      → digits rest digit (suc x) (suc x) y
        ≡ digits rest digit (suc x / 2) (suc x / 2) (y / 2) * 2 + digit (suc x % 2) (y % 2)
  lowest_digit x y =
      let half = suc x / 2 in
      let split : x ≡ x - half + half = omega arith in
      ap (λ high. high * 2 + digit (suc x % 2) (y % 2))
        (ap (λ k. digits rest digit k half (y / 2)) split
          ∙ more_rounds half (x - half) half (y / 2) (omega arith))

pub zero_bit_or : (b : ℕ) → bit_or 0 b ≡ b
zero_bit_or b = bit_or-bitwise 0 b

-- The lowest digit and the others.
bit_and_digit : (a b : ℕ) → bit_and a b ≡ bit_and (a / 2) (b / 2) * 2 + min (a % 2) (b % 2)
bit_and_digit zero b =
    let none_set : (y : ℕ) → bit_and 0 y ≡ 0 = λ y. bit_and-bitwise 0 y in
    omega (arith, none_set b, none_set (b / 2))
bit_and_digit (suc a) b =
    bit_and-bitwise (suc a) b
    ∙ lowest_digit (λ y. zero) min a b
    ∙ sym (ap (λ high. high * 2 + min (suc a % 2) (b % 2)) (bit_and-bitwise (suc a / 2) (b / 2)))

bit_or_digit : (a b : ℕ) → bit_or a b ≡ bit_or (a / 2) (b / 2) * 2 + max (a % 2) (b % 2)
bit_or_digit zero b = omega (arith, zero_bit_or b, zero_bit_or (b / 2))
bit_or_digit (suc a) b =
    bit_or-bitwise (suc a) b
    ∙ lowest_digit (λ y. y) max a b
    ∙ sym (ap (λ high. high * 2 + max (suc a % 2) (b % 2)) (bit_or-bitwise (suc a / 2) (b / 2)))

pub power_positive : (k : ℕ) → 0 < 2 ^ k
power_positive zero = omega arith
power_positive (suc k) = omega (arith, pow-suc 2 k, power_positive k)

pub power_le : (i j : ℕ) → i ≤ j → 2 ^ i ≤ 2 ^ j
power_le i j h = pow-le-pow_right {n = 2} (omega arith) {i = i} {j = j} h

pub power_add : (i j k : ℕ) → k ≡ i + j → 2 ^ k ≡ 2 ^ i * 2 ^ j
power_add i zero k e = let same : k ≡ i = omega (arith, e) in ap (λ x. 2 ^ x) same ∙ omega arith
power_add i (suc j) zero e = absurd (omega (arith, e))
power_add i (suc j) (suc k) e =
    pow-suc 2 k
    ∙ ap (λ x. x * 2) (power_add i j k (omega (arith, e)))
    ∙ mul_assoc (2 ^ i) (2 ^ j) 2
    ∙ sym (ap (λ x. 2 ^ i * x) (pow-suc 2 j))

pub shift_suc : (a k : ℕ) → a / 2 ^ suc k ≡ a / 2 / 2 ^ k
shift_suc a k = ap (λ p. a / p) (pow-succ' 2 k) ∙ sym (div-div-eq-div-mul a 2 (2 ^ k))

pub mask_suc : (a k : ℕ) → a % 2 ^ suc k ≡ a / 2 % 2 ^ k * 2 + a % 2
mask_suc a k =
    let q = a / 2 / 2 ^ k in
    let whole : 2 ^ suc k * (a / 2 ^ suc k) ≡ 2 * (2 ^ k * q) =
      ap₂ (λ x y. x * y) (pow-succ' 2 k) (shift_suc a k) ∙ mul_assoc 2 (2 ^ k) q in
    omega
      (arith, whole, mod_def a (2 ^ suc k), mod_def (a / 2) (2 ^ k), div-add-mod' (a / 2) (2 ^ k))

bit_and-none : (a : ℕ) → bit_and a 0 ≡ 0
bit_and-none = by_halves (λ a. bit_and a 0 ≡ 0) refl (λ a h. omega (arith, bit_and_digit a 0, h))

pub bit_or_zero : (a : ℕ) → bit_or a 0 ≡ a
bit_or_zero = by_halves (λ a. bit_or a 0 ≡ a) refl (λ a h. omega (arith, bit_or_digit a 0, h))

-- A mask keeps the low digits.
pub bit_and_mask : (a k : ℕ) → bit_and a (2 ^ k - 1) ≡ a % 2 ^ k
bit_and_mask a zero = omega (arith, bit_and-none a)
bit_and_mask a (suc k) =
    let half : (2 ^ suc k - 1) / 2 ≡ 2 ^ k - 1 = omega (arith, pow-suc 2 k, power_positive k) in
    let odd : (2 ^ suc k - 1) % 2 ≡ 1 = omega (arith, pow-suc 2 k, power_positive k) in
    bit_and_digit a (2 ^ suc k - 1)
    ∙ ap₂ (λ h o. bit_and (a / 2) h * 2 + min (a % 2) o) half odd
    ∙ omega (arith, bit_and_mask (a / 2) k, mask_suc a k)

-- Numbers without a digit in common are added.
pub bit_or_add : (a x k : ℕ) → x < 2 ^ k → bit_or (a * 2 ^ k) x ≡ a * 2 ^ k + x
bit_or_add a x zero h =
    let none_set : x ≡ 0 = omega (arith, h) in
    ap (bit_or (a * 2 ^ 0)) none_set ∙ omega (arith, bit_or_zero (a * 2 ^ 0), none_set)
bit_or_add a x (suc k) h =
    let twice : a * 2 ^ suc k ≡ a * 2 ^ k * 2 =
      ap (λ p. a * p) (pow-suc 2 k) ∙ sym (mul_assoc a (2 ^ k) 2) in
    let less : x / 2 < 2 ^ k = omega (arith, h, pow-suc 2 k) in
    let half : a * 2 ^ suc k / 2 ≡ a * 2 ^ k = omega (arith, twice) in
    let even : a * 2 ^ suc k % 2 ≡ 0 = omega (arith, twice) in
    bit_or_digit (a * 2 ^ suc k) x
    ∙ ap₂ (λ h o. bit_or h (x / 2) * 2 + max o (x % 2)) half even
    ∙ omega (arith, bit_or_add a (x / 2) k less, twice)

pub bit_or_shift : (a b k : ℕ) → bit_or a b / 2 ^ k ≡ bit_or (a / 2 ^ k) (b / 2 ^ k)
bit_or_shift a b zero = div-one (bit_or a b) ∙ sym (ap₂ bit_or (div-one a) (div-one b))
bit_or_shift a b (suc k) =
    let half : bit_or a b / 2 ≡ bit_or (a / 2) (b / 2) = omega (arith, bit_or_digit a b) in
    shift_suc (bit_or a b) k
    ∙ ap (λ h. h / 2 ^ k) half
    ∙ bit_or_shift (a / 2) (b / 2) k
    ∙ sym (ap₂ bit_or (shift_suc a k) (shift_suc b k))

pub bit_or_low : (a b k : ℕ) → bit_or a b % 2 ^ k ≡ bit_or (a % 2 ^ k) (b % 2 ^ k)
bit_or_low a b zero =
    let x : a % 2 ^ 0 ≡ 0 = omega arith in
    let y : b % 2 ^ 0 ≡ 0 = omega arith in omega (arith, ap₂ bit_or x y, zero_bit_or 0)
bit_or_low a b (suc k) =
    let half : bit_or a b / 2 ≡ bit_or (a / 2) (b / 2) = omega (arith, bit_or_digit a b) in
    let x = a / 2 % 2 ^ k in
    let y = b / 2 % 2 ^ k in
    let low = bit_or_digit (x * 2 + a % 2) (y * 2 + b % 2) in
    let halves : bit_or ((x * 2 + a % 2) / 2) ((y * 2 + b % 2) / 2) ≡ bit_or x y =
      ap₂ bit_or (omega arith) (omega arith) in
    mask_suc (bit_or a b) k
    ∙ omega (
      arith,
      ap (λ h. h % 2 ^ k) half,
      bit_or_low (a / 2) (b / 2) k,
      bit_or_digit a b,
      low,
      halves,
    )
    ∙ sym (ap₂ bit_or (mask_suc a k) (mask_suc b k))

-- The low digits of low digits.
low_low : (x n m : ℕ) → n ≤ m → x % 2 ^ m % 2 ^ n ≡ x % 2 ^ n
low_low x zero m h = omega arith
low_low x (suc n) zero h = absurd (omega arith)
low_low x (suc n) (suc m) h =
    let half : x % 2 ^ suc m / 2 ≡ x / 2 % 2 ^ m = omega (arith, mask_suc x m) in
    mask_suc (x % 2 ^ suc m) n
    ∙ omega (
      arith,
      ap (λ y. y % 2 ^ n) half,
      low_low (x / 2) n m (omega (arith, h)),
      mask_suc x m,
      mask_suc x n,
    )

pub shift_low : (x p n m : ℕ) → p + n ≤ m → x % 2 ^ m / 2 ^ p % 2 ^ n ≡ x / 2 ^ p % 2 ^ n
shift_low x zero n m h =
    ap (λ y. y % 2 ^ n) (div-one (x % 2 ^ m))
    ∙ low_low x n m (omega (arith, h))
    ∙ sym (ap (λ y. y % 2 ^ n) (div-one x))
shift_low x (suc p) n zero h = absurd (omega arith)
shift_low x (suc p) n (suc m) h =
    let half : x % 2 ^ suc m / 2 ≡ x / 2 % 2 ^ m = omega (arith, mask_suc x m) in
    ap (λ y. y % 2 ^ n) (shift_suc (x % 2 ^ suc m) p ∙ ap (λ y. y / 2 ^ p) half)
    ∙ shift_low (x / 2) p n m (omega (arith, h))
    ∙ sym (ap (λ y. y % 2 ^ n) (shift_suc x p))

-- Low digits as two runs, the higher one shifted.
pub mask_split : (v n k : ℕ) → v % 2 ^ (n + k) ≡ v / 2 ^ k % 2 ^ n * 2 ^ k + v % 2 ^ k
mask_split v n zero =
    let exponent : n + 0 ≡ n = omega arith in
    ap (λ j. v % 2 ^ j) exponent ∙ omega (arith, ap (λ y. y % 2 ^ n) (div-one v))
mask_split v n (suc k) =
    let high = v / 2 / 2 ^ k % 2 ^ n in
    let shifted : v / 2 ^ suc k % 2 ^ n * 2 ^ suc k ≡ high * 2 ^ k * 2 =
      ap₂ (λ x y. x % 2 ^ n * y) (shift_suc v k) (pow-suc 2 k) ∙ sym (mul_assoc high (2 ^ k) 2) in
    let exponent : n + suc k ≡ suc (n + k) = omega arith in
    ap (λ j. v % 2 ^ j) exponent
    ∙ mask_suc v (n + k)
    ∙ omega (arith, mask_split (v / 2) n k, shifted, mask_suc v k)
