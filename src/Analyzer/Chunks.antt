-- ===== src/Analyzer/Chunks.antt =====
-- The bits that a value has in one byte: they are written and read there, a chunk per round of the loops.
use Prim.Native.Nat.{◌/◌, bit_and, bit_or}
use native.Mathlib.Nat.{
  pow-suc, mod-eq_of_lt, mod-lt, mul_assoc, mul-lt-mul_of_pos_right, add-mul, mul-le-mul_left,
  div-eq_of_eq-mul_left,
}
use mathlib.Core.Option.{some-injective}
use libcutils.Base.{
  none_or_some, ℕ, zero, suc, ◌+◌, ◌-◌, ◌*◌, ◌%◌, ◌^◌, ◌<◌, ◌≤◌, ◌≡◌, refl, sym, ap, ap₂, ◌∙◌, List,
  [], ◌∷◌, none, some, ltb, if◌then◌else◌, get_elem?, set, arith, ◌≢◌, Bool-cases, Option-cases,
  inl, inr, ltb→lt,
}
use libcutils.Base.Bits.{
  power_add, power_le, shift_low, power_positive, bit_and_mask, bit_or_add, bit_or_shift,
  bit_or_low, zero_bit_or,
}
use libcutils.Analyzer.Codec.{
  Bytes, pa_pow, get_bit_data, set_bit_data, take_len, set_bits, get_bits,
}

pa_pow_lem : (n : ℕ) → n < 32 → pa_pow 2 n ≡ 2 ^ n
unfolding pa_pow
pa_pow_lem zero h = refl
pa_pow_lem (suc n) h =
    let p : 2 ^ suc n ≤ 2 ^ 31 = power_le (suc n) 31 (omega (arith, h)) in
    omega (arith, pa_pow_lem n (omega (arith, h)), pow-suc 2 n, p)

pub get_bit_data_lem : (value p n : ℕ) → n ≤ 8 → get_bit_data value p n ≡ value / 2 ^ p % 2 ^ n
unfolding get_bit_data
get_bit_data_lem value p n h =
    let q : 2 ^ n ≤ 2 ^ 8 = power_le n 8 h in
    ap (λ m. bit_and (value / 2 ^ p) (m - 1) % 2 ^ 8) (pa_pow_lem n (omega (arith, h)))
    ∙ ap (λ x. x % 2 ^ 8) (bit_and_mask (value / 2 ^ p) n)
    ∙ mod-eq_of_lt (omega (arith, q, mod-lt (value / 2 ^ p) (power_positive n)))

pub set_bit_data_lem :
    (b d p n : ℕ) → n ≤ 8 → d < 2 ^ n → set_bit_data b d p n ≡ bit_or b (d * 2 ^ p) % 2 ^ 8
unfolding set_bit_data
set_bit_data_lem b d p n h low =
    ap (λ x. bit_or b (x * 2 ^ p) % 2 ^ 8)
      (ap (λ m. bit_and d (m - 1)) (pa_pow_lem n (omega (arith, h)))
        ∙ bit_and_mask d n
        ∙ mod-eq_of_lt low)

-- Written into clear bits of a byte, a value is read back.
pub get_bit_data-set_bit_data :
    (b d p n : ℕ)
    → p + n ≤ 8
    → d < 2 ^ n
    → b / 2 ^ p % 2 ^ n ≡ 0
    → get_bit_data (set_bit_data b d p n) p n ≡ d
get_bit_data-set_bit_data b d p n h low clear =
    let n_small : n ≤ 8 = omega (arith, h) in
    let y = d * 2 ^ p in
    let y_shift : y / 2 ^ p ≡ d = div-eq_of_eq-mul_left (power_positive p) refl in
    get_bit_data_lem (set_bit_data b d p n) p n n_small
    ∙ ap (λ x. x / 2 ^ p % 2 ^ n) (set_bit_data_lem b d p n n_small low)
    ∙ shift_low (bit_or b y) p n 8 h
    ∙ ap (λ x. x % 2 ^ n) (bit_or_shift b y p)
    ∙ bit_or_low (b / 2 ^ p) (y / 2 ^ p) n
    ∙ ap₂ bit_or clear (ap (λ x. x % 2 ^ n) y_shift ∙ mod-eq_of_lt low)
    ∙ zero_bit_or d

-- The bits of a field that stand in one byte.
abbrev pub chunk : ℕ → ℕ → ℕ → ℕ
chunk b pos n = b / 2 ^ (pos % 8 + 1 - n) % 2 ^ n

pub take_len_range :
    (t pos : ℕ)
    → 0 < t
    → (0 < take_len t pos) × (take_len t pos ≤ t) × (take_len t pos ≤ pos % 8 + 1)
unfolding take_len
take_len_range t pos h = ground arith

-- What is read before and what is read next, as one number.
pub joined :
    (a c t n : ℕ)
    → n ≤ t
    → t ≤ 32
    → c < 2 ^ n
    → bit_or (a * 2 ^ t) (c * 2 ^ (t - n) % 2 ^ 32) ≡ (a * 2 ^ n + c) * 2 ^ (t - n)
joined a c t n h l low =
    let whole : 2 ^ t ≡ 2 ^ n * 2 ^ (t - n) = power_add n (t - n) t (omega (arith, h)) in
    let part : c * 2 ^ (t - n) < 2 ^ t = omega (
      arith,
      whole,
      mul-lt-mul_of_pos_right {m = c} {n = 2 ^ n} {k = 2 ^ (t - n)} low (power_positive (t - n)),
    ) in
    let word : c * 2 ^ (t - n) % 2 ^ 32 ≡ c * 2 ^ (t - n) =
      mod-eq_of_lt (omega (arith, part, power_le t 32 l)) in
    ap (bit_or (a * 2 ^ t)) word
    ∙ bit_or_add a (c * 2 ^ (t - n)) t part
    ∙ omega (
      arith,
      ap (λ x. a * x) whole,
      mul_assoc a (2 ^ n) (2 ^ (t - n)),
      add-mul (a * 2 ^ n) c (2 ^ (t - n)),
    )

pub get_bits_step :
    (f a k pos at b : ℕ) (dp : Bytes)
    → suc k ≤ 32
    → get_elem? dp at ≡ some b
    → let n = take_len (suc k) pos in
      get_bits (suc f) (a * 2 ^ suc k) (suc k) pos at dp
      ≡ get_bits f
          ((a * 2 ^ n + chunk b pos n) * 2 ^ (suc k - n))
          (suc k - n)
          ((pos + 2 ^ 8 - n) % 2 ^ 8)
          (at + 1)
          dp
unfolding get_bits
get_bits_step f a k pos at b dp l here =
    let n = take_len (suc k) pos in
    let (more, fits, inside) = take_len_range (suc k) pos (omega arith) in
    let read = get_bit_data_lem b (pos % 8 + 1 - n) n (omega (arith, inside)) in
    let next = λ (acc : ℕ). get_bits f acc (suc k - n) ((pos + 2 ^ 8 - n) % 2 ^ 8) (at + 1) dp in
    rw here (
      ap (λ c. next (bit_or (a * 2 ^ suc k) (c * 2 ^ (suc k - n) % 2 ^ 32))) read
      ∙ ap next (
          joined a (chunk b pos n) (suc k) n fits l
            (mod-lt (b / 2 ^ (pos % 8 + 1 - n)) (power_positive n))))

pub get_bits-end : (f a pos at : ℕ) (dp : Bytes) → get_bits (suc f) (a * 2 ^ 0) 0 pos at dp ≡ some a
unfolding get_bits
get_bits-end f a pos at dp = ap (λ x. some x) (omega arith)

pub get_bits-none :
    (f v k pos at : ℕ) (dp : Bytes)
    → get_elem? dp at ≡ none
    → get_bits (suc f) v (suc k) pos at dp ≡ none
unfolding get_bits
get_bits-none f v k pos at dp h = rw h refl

-- Reading on never makes the number smaller.
pub get_bits_grows :
    (f a t pos at r : ℕ) (dp : Bytes)
    → t ≤ 32
    → get_bits f (a * 2 ^ t) t pos at dp ≡ some r
    → a * 2 ^ t ≤ r
unfolding get_bits
get_bits_grows zero a t pos at r dp l h = absurd (none_or_some r h)
get_bits_grows (suc f) a zero pos at r dp l h =
    let same : a ≡ r = some-injective a r (sym (get_bits-end f a pos at dp) ∙ h) in
    omega (arith, same)
get_bits_grows (suc f) a (suc k) pos at r dp l h = elim (Option-cases (get_elem? dp at)) [
  | inl out ↦ absurd (none_or_some r (sym (get_bits-none f (a * 2 ^ suc k) k pos at dp out) ∙ h))
  | inr (b, here) ↦
      let n = take_len (suc k) pos in
      let c = chunk b pos n in
      let (more, fits, inside) = take_len_range (suc k) pos (omega arith) in
      let rest =
        get_bits_grows f (a * 2 ^ n + c) (suc k - n) ((pos + 2 ^ 8 - n) % 2 ^ 8) (at + 1) r dp
          (omega (arith, l)) (sym (get_bits_step f a k pos at b dp l here) ∙ h) in
      omega (
        arith,
        rest,
        add-mul (a * 2 ^ n) c (2 ^ (suc k - n)),
        mul_assoc a (2 ^ n) (2 ^ (suc k - n)),
        ap (λ x. a * x) (power_add n (suc k - n) (suc k) (omega (arith, fits))),
      )
]

-- Only the bytes from the index on are read.
pub get_bits_ext :
    (f v t pos at : ℕ) (dp dp' : Bytes)
    → ((i : ℕ) → at ≤ i → get_elem? dp i ≡ get_elem? dp' i)
    → get_bits f v t pos at dp ≡ get_bits f v t pos at dp'
unfolding get_bits
get_bits_ext zero v t pos at dp dp' same = refl
get_bits_ext (suc f) v zero pos at dp dp' same = refl
get_bits_ext (suc f) v (suc k) pos at dp dp' same =
    let n = take_len (suc k) pos in
    elim (Option-cases (get_elem? dp' at)) [
      | inl out ↦ rw (same at (omega arith), out) refl
      | inr (b, here) ↦
          rw (same at (omega arith), here)
            (get_bits_ext f
              (bit_or v (get_bit_data b (pos % 8 + 1 - n) n * 2 ^ (suc k - n) % 2 ^ 32)) (suc k - n)
              ((pos + 2 ^ 8 - n) % 2 ^ 8) (at + 1) dp dp' (λ i h. same i (omega (arith, h))))
    ]

pub get_elem?-set_other :
    {A : Type 0} (xs : List A) (i j : ℕ) (v : A) → i ≢ j → get_elem? (set xs j v) i ≡ get_elem? xs i
get_elem?-set_other [] i j v h = refl
get_elem?-set_other (x ∷ xs) zero zero v h = absurd (h refl)
get_elem?-set_other (x ∷ xs) (suc i) zero v h = refl
get_elem?-set_other (x ∷ xs) zero (suc j) v h = refl
get_elem?-set_other (x ∷ xs) (suc i) (suc j) v h = get_elem?-set_other xs i j v (λ e. h (ap suc e))

pub get_elem?-set_here :
    (xs : Bytes) (j b v : ℕ) → get_elem? xs j ≡ some b → get_elem? (set xs j v) j ≡ some v
get_elem?-set_here [] j b v h = absurd (none_or_some b h)
get_elem?-set_here (x ∷ xs) zero b v h = refl
get_elem?-set_here (x ∷ xs) (suc j) b v h = get_elem?-set_here xs j b v h

pub set_bits_step :
    (f v k pos pos' at b : ℕ) (dp : Bytes)
    → pos % 8 ≡ pos' % 8
    → get_elem? dp at ≡ some b
    → let n = take_len (suc k) pos' in
      let d = v / 2 ^ (suc k - n) % 2 ^ n in
      set_bits (suc f) v (suc k) pos at dp
      ≡ set_bits f v
          (suc k - n)
          (if ltb pos n then 7 else pos - n)
          (at + 1)
          (set dp at (set_bit_data b d (pos' % 8 + 1 - n) n))
unfolding set_bits take_len
set_bits_step f v k pos pos' at b dp e here =
    let n = take_len (suc k) pos' in
    let (more, fits, inside) = take_len_range (suc k) pos' (omega arith) in
    let d = get_bit_data_lem v (suc k - n) n (omega (arith, inside)) in
    let at_mod = λ (r : ℕ).
      let m = if ltb (r + 1) (suc k) then r + 1 else suc k in
      set_bits f v (suc k - m) (if ltb pos m then 7 else pos - m) (at + 1)
        (set dp at (set_bit_data b (get_bit_data v (suc k - m) m) (r + 1 - m) m)) in
    rw here (
      ap at_mod e
      ∙ ap
          (λ x.
            set_bits f v (suc k - n) (if ltb pos n then 7 else pos - n) (at + 1)
              (set dp at (set_bit_data b x (pos' % 8 + 1 - n) n)))
          d)

pub ne_of_lt : (at i : ℕ) → at + 1 ≤ i → i ≢ at
ne_of_lt at i h e = absurd (omega (arith, h, e))

pub ne_of_gt : (at i : ℕ) → i < at → i ≢ at
ne_of_gt at i h e = absurd (omega (arith, h, e))

pub next_mod :
    (pos pos' n : ℕ)
    → pos % 8 ≡ pos' % 8
    → 0 < n
    → n ≤ pos' % 8 + 1
    → (if ltb pos n then 7 else pos - n) % 8 ≡ (pos' + 2 ^ 8 - n) % 2 ^ 8 % 8
next_mod pos pos' n e more inside = elim (Bool-cases (ltb pos n)) [
  | inl less ↦ rw less (omega (arith, ltb→lt pos n less, e, more, inside))
  | inr enough ↦
      rw enough
        (let fits : n ≤ pos = ground (arith, enough) in omega (arith, fits, e, more, inside))
]

pub no_bits : (c t : ℕ) → c * 2 ^ t ≤ 0 → c ≡ 0
no_bits c t h = omega (arith, h, mul-le-mul_left {m = 1} {n = 2 ^ t} c (power_positive t))
