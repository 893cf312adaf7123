-- ===== src/Analyzer/Frame.antt =====
-- Writing a field leaves the bits of all others alone. Bits are numbered through the message, the
-- highest of a byte first.
use mathlib.Core.Option
use mathlib.Core.Option.{some-injective}
use Prim.Native.Nat.{◌/◌, bit_or}
use native.Mathlib.Nat.{
  mod-eq_of_lt, mod-lt, div-eq_of_lt, mul-lt-mul_of_pos_right, mul_assoc, add-mul-mod_self_right,
  div-eq_of_eq-mul_left,
}
use libcutils.Base.{
  none_or_some, ℕ, zero, suc, ◌+◌, ◌-◌, ◌*◌, ◌%◌, ◌^◌, ◌<◌, ◌≤◌, ◌≡◌, ◌⊎◌, inl, inr, refl, sym, ap,
  ◌∙◌, subst, Option, none, some, ltb, ◌==◌, if◌then◌else◌, get_elem?, set, arith, Bool-cases,
  Option-cases,
}
use libcutils.Base.Nodes.{ne_of_eq}
use libcutils.Base.Bits.{
  power_positive, power_le, power_add, shift_low, bit_or_shift, bit_or_low, bit_or_zero,
}
use libcutils.Analyzer.Codec.{Bytes, get_bit_data, set_bit_data, take_len, set_bits, get_bits}
use libcutils.Analyzer.Chunks.{
  take_len_range, set_bits_step, next_mod, get_elem?-set_other, get_elem?-set_here,
  get_bit_data_lem, set_bit_data_lem,
}

-- Some bits of a byte that may be missing.
abbrev bits_of : Bytes → ℕ → ℕ → ℕ → Option ℕ
bits_of dp i p n = Option.map (λ (b : ℕ). b / 2 ^ p % 2 ^ n) (get_elem? dp i)

-- Two messages have the same bits from one number up to another, and the same whole bytes there.
unfoldable pub Agree : Bytes → Bytes → ℕ → ℕ → Type 0
Agree dp dp' lo hi =
    ((i p n : ℕ)
      → 0 < n
      → p + n ≤ 8
      → lo + (p + n) ≤ i * 8 + 8
      → i * 8 + 8 ≤ hi + p
      → bits_of dp i p n ≡ bits_of dp' i p n)
    × ((i : ℕ) → lo ≤ i * 8 → i * 8 + 8 ≤ hi → get_elem? dp i ≡ get_elem? dp' i)

-- Shifted above or below a run of digits, a number has none of them.
no_digits :
    (d p n p' n' : ℕ) → d < 2 ^ n → (p' + n' ≤ p) ⊎ (p + n ≤ p') → d * 2 ^ p / 2 ^ p' % 2 ^ n' ≡ 0
no_digits d p n p' n' low (inl above) =
    let r = p - (p' + n') in
    let outer : 2 ^ p ≡ 2 ^ (r + n') * 2 ^ p' = power_add (r + n') p' p (omega (arith, above)) in
    let inner : 2 ^ (r + n') ≡ 2 ^ r * 2 ^ n' = power_add r n' (r + n') refl in
    let product : d * 2 ^ p ≡ d * 2 ^ r * 2 ^ n' * 2 ^ p' =
      ap (λ x. d * x) (outer ∙ ap (λ x. x * 2 ^ p') inner)
      ∙ sym (mul_assoc d (2 ^ r * 2 ^ n') (2 ^ p'))
      ∙ ap (λ x. x * 2 ^ p') (sym (mul_assoc d (2 ^ r) (2 ^ n'))) in
    ap (λ x. x / 2 ^ p' % 2 ^ n') product
    ∙ ap (λ x. x % 2 ^ n') (div-eq_of_eq-mul_left (power_positive p') refl)
    ∙ ap (λ x. x % 2 ^ n') (omega arith)
    ∙ add-mul-mod_self_right 0 (d * 2 ^ r) (2 ^ n')
    ∙ mod-eq_of_lt (power_positive n')
no_digits d p n p' n' low (inr below) =
    let size = mul-lt-mul_of_pos_right {m = d} {n = 2 ^ n} {k = 2 ^ p} low (power_positive p) in
    let whole : 2 ^ (n + p) ≡ 2 ^ n * 2 ^ p = power_add n p (n + p) refl in
    let more : 2 ^ (n + p) ≤ 2 ^ p' = power_le (n + p) p' (omega (arith, below)) in
    ap (λ x. x % 2 ^ n') (div-eq_of_lt (omega (arith, size, whole, more)))
    ∙ mod-eq_of_lt (power_positive n')

-- Setting digits leaves the others.
chunk-set_bit_data :
    (b d p n p' n' : ℕ)
    → n ≤ 8
    → p' + n' ≤ 8
    → d < 2 ^ n
    → (p' + n' ≤ p) ⊎ (p + n ≤ p')
    → set_bit_data b d p n / 2 ^ p' % 2 ^ n' ≡ b / 2 ^ p' % 2 ^ n'
chunk-set_bit_data b d p n p' n' small inside low apart =
    let y = d * 2 ^ p in
    ap (λ x. x / 2 ^ p' % 2 ^ n') (set_bit_data_lem b d p n small low)
    ∙ shift_low (bit_or b y) p' n' 8 inside
    ∙ ap (λ x. x % 2 ^ n') (bit_or_shift b y p')
    ∙ bit_or_low (b / 2 ^ p') (y / 2 ^ p') n'
    ∙ ap (bit_or (b / 2 ^ p' % 2 ^ n')) (no_digits d p n p' n' low apart)
    ∙ bit_or_zero (b / 2 ^ p' % 2 ^ n')

pub Agree-refl : (dp : Bytes) (lo hi : ℕ) → Agree dp dp lo hi
unfolding Agree
Agree-refl dp lo hi = (λ i p n more inside from upto. refl, λ i from upto. refl)

pub Agree-trans :
    (dp dp₁ dp₂ : Bytes) (lo hi : ℕ) → Agree dp dp₁ lo hi → Agree dp₁ dp₂ lo hi → Agree dp dp₂ lo hi
unfolding Agree
Agree-trans dp dp₁ dp₂ lo hi (bits, whole) (bits', whole') = (
  λ i p n more inside from upto.
      bits i p n more inside from upto ∙ bits' i p n more inside from upto,
  λ i from upto. whole i from upto ∙ whole' i from upto,
)

-- A part of the bits.
pub Agree-within :
    (dp dp' : Bytes) (lo hi lo' hi' : ℕ)
    → Agree dp dp' lo hi
    → (hi' ≤ lo') ⊎ (lo ≤ lo') × (hi' ≤ hi)
    → Agree dp dp' lo' hi'
unfolding Agree
Agree-within dp dp' lo hi lo' hi' h (inl empty) = (
  λ i p n more inside from upto. absurd (omega (arith, more, from, upto, empty)),
  λ i from upto. absurd (omega (arith, from, upto, empty)),
)
Agree-within dp dp' lo hi lo' hi' (bits, whole) (inr (below, above)) = (
  λ i p n more inside from upto.
      bits i p n more inside (omega (arith, from, below)) (omega (arith, upto, above)),
  λ i from upto. whole i (omega (arith, from, below)) (omega (arith, upto, above)),
)

-- A byte of which only some bits change.
pub set-Agree :
    (dp : Bytes) (at b b' first last lo hi : ℕ)
    → get_elem? dp at ≡ some b
    → (hi ≤ first) ⊎ (last ≤ lo)
    → (at * 8 ≤ first) × (first < last) × (last ≤ at * 8 + 8)
    → ((p n : ℕ)
        → 0 < n
        → p + n ≤ 8
        → (at * 8 + 8 ≤ first + p) ⊎ (last + (p + n) ≤ at * 8 + 8)
        → b' / 2 ^ p % 2 ^ n ≡ b / 2 ^ p % 2 ^ n)
    → Agree dp (set dp at b') lo hi
unfolding Agree
set-Agree dp at b b' first last lo hi here apart (above, some_bits, below) same = (
  λ i p n more inside from upto. elim (Bool-cases (i == at)) [
    | inl true_test ↦
        let e : i ≡ at = ground arith in
        let read : get_elem? dp i ≡ some b = ap (get_elem? dp) e ∙ here in
        let read' : get_elem? (set dp at b') i ≡ some b' =
          ap (get_elem? (set dp at b')) e ∙ get_elem?-set_here dp at b b' here in
        let side : (at * 8 + 8 ≤ first + p) ⊎ (last + (p + n) ≤ at * 8 + 8) = elim apart [
          | inl before ↦ inl (omega (arith, before, upto, e))
          | inr behind ↦ inr (omega (arith, behind, from, e))
        ] in
        rw (read, read') (ap (λ x. some x) (sym (same p n more inside side)))
    | inr differ ↦
        let ne = ne_of_eq i at differ in
        ap (Option.map (λ (x : ℕ). x / 2 ^ p % 2 ^ n)) (sym (get_elem?-set_other dp i at b' ne))
  ],
  λ i from upto. sym (
      get_elem?-set_other dp i at b' (λ e. elim apart [
        | inl before ↦ absurd (omega (arith, e, before, below, some_bits, upto))
        | inr behind ↦ absurd (omega (arith, e, behind, above, some_bits, from))
      ])),
)

unfoldable pub start : ℕ → ℕ → ℕ
start pos at = at * 8 + 7 - pos % 8

-- The last byte, or up to its end.
take_len_cases : (t pos : ℕ) → (take_len t pos ≡ t) ⊎ (take_len t pos ≡ pos % 8 + 1)
unfolding take_len
take_len_cases t pos = elim (Bool-cases (ltb (pos % 8 + 1) t)) [
  | inl less ↦ rw less (inr refl)
  | inr not_less ↦ rw not_less (inl refl)
]

next_start :
    (pos next n at : ℕ) → n ≡ pos % 8 + 1 → next % 8 ≡ 7 → start next (at + 1) ≡ start pos at + n
unfolding start
next_start pos next n at e last = omega (arith, e, last)

Agree-here :
    (dp dp' : Bytes) (lo t n pos at : ℕ)
    → Agree dp dp' lo (lo + t)
    → lo ≡ start pos at
    → 0 < n
    → n ≤ t
    → n ≤ pos % 8 + 1
    → bits_of dp at (pos % 8 + 1 - n) n ≡ bits_of dp' at (pos % 8 + 1 - n) n
unfolding Agree start
Agree-here dp dp' lo t n pos at (h, whole) e more fits inside =
    h at (pos % 8 + 1 - n) n more (omega (arith, inside)) (omega (arith, e, inside))
      (omega (arith, e, inside, fits))

map_cases :
    (g : ℕ → ℕ) (o o' : Option ℕ)
    → Option.map g o ≡ Option.map g o'
    → (o ≡ none) × (o' ≡ none) ⊎ ((b : ℕ) × (b' : ℕ) × (o ≡ some b) × (o' ≡ some b') × (g b ≡ g b'))
map_cases g none none h = inl (refl, refl)
map_cases g none (some b') h = absurd (none_or_some (g b') h)
map_cases g (some b) none h = absurd (none_or_some (g b) (sym h))
map_cases g (some b) (some b') h = inr (b, b', refl, refl, some-injective (g b) (g b') h)

-- What is read depends on the bits of the field alone.
pub get_bits-Agree :
    (f v t pos at : ℕ) (dp dp' : Bytes)
    → Agree dp dp' (start pos at) (start pos at + t)
    → get_bits f v t pos at dp ≡ get_bits f v t pos at dp'
unfolding get_bits
get_bits-Agree zero v t pos at dp dp' h = refl
get_bits-Agree (suc f) v zero pos at dp dp' h = refl
get_bits-Agree (suc f) v (suc k) pos at dp dp' h =
    let n = take_len (suc k) pos in
    let p = pos % 8 + 1 - n in
    let next = (pos + 2 ^ 8 - n) % 2 ^ 8 in
    let (more, fits, inside) = take_len_range (suc k) pos (omega arith) in
    let here = Agree-here dp dp' (start pos at) (suc k) n pos at h refl more fits inside in
    let rest =
      Agree-within dp dp' (start pos at) (start pos at + suc k) (start next (at + 1))
        (start next (at + 1) + (suc k - n)) h
        (elim (take_len_cases (suc k) pos) [
          | inl whole ↦ inl (omega (arith, whole))
          | inr end ↦
              let e = next_start pos next n at end (omega (arith, end)) in
              inr (omega (arith, e), omega (arith, e, fits))
        ]) in
    elim (map_cases (λ b. b / 2 ^ p % 2 ^ n) (get_elem? dp at) (get_elem? dp' at) here) [
      | inl (out, out') ↦ rw (out, out') refl
      | inr (b, b', at_b, at_b', same) ↦
          let acc = λ (x : ℕ). bit_or v (x * 2 ^ (suc k - n) % 2 ^ 32) in
          let small : n ≤ 8 = omega (arith, inside) in
          let read = get_bit_data_lem b p n small ∙ same ∙ sym (get_bit_data_lem b' p n small) in
          rw (at_b, at_b')
            (ap (λ x. get_bits f (acc x) (suc k - n) next (at + 1) dp) read
              ∙ get_bits-Agree f (acc (get_bit_data b' p n)) (suc k - n) next (at + 1) dp dp' rest)
    ]

set_bits-none :
    (f v k pos at : ℕ) (dp : Bytes)
    → get_elem? dp at ≡ none
    → set_bits (suc f) v (suc k) pos at dp ≡ none
unfolding set_bits
set_bits-none f v k pos at dp h = rw h refl

byte-Agree :
    (dp : Bytes) (at b d n pos lo hi : ℕ)
    → get_elem? dp at ≡ some b
    → 0 < n
    → n ≤ pos % 8 + 1
    → d < 2 ^ n
    → (hi ≤ start pos at) ⊎ (start pos at + n ≤ lo)
    → Agree dp (set dp at (set_bit_data b d (pos % 8 + 1 - n) n)) lo hi
unfolding start
byte-Agree dp at b d n pos lo hi here more inside low apart =
    let p = pos % 8 + 1 - n in
    set-Agree dp at b (set_bit_data b d p n) (start pos at) (start pos at + n) lo hi here apart
      (omega arith, omega (arith, more), omega (arith, inside))
      (λ p' n' more' inside' side.
        chunk-set_bit_data b d p n p' n' (omega (arith, inside)) inside' low (elim side [
          | inl above ↦ inr (omega (arith, above, inside))
          | inr below ↦ inl (omega (arith, below, inside))
        ]))

-- Writing a field leaves the bits of the others.
pub set_bits-Agree :
    (f v t pos at lo hi : ℕ) (dp dp' : Bytes)
    → set_bits f v t pos at dp ≡ some dp'
    → (t ≡ 0) ⊎ (hi ≤ start pos at) ⊎ (start pos at + t ≤ lo)
    → Agree dp dp' lo hi
unfolding set_bits
set_bits-Agree zero v t pos at lo hi dp dp' run apart = absurd (none_or_some dp' run)
set_bits-Agree (suc f) v zero pos at lo hi dp dp' run apart =
    subst (λ (x : Bytes). Agree dp x lo hi) (some-injective dp dp' run) (Agree-refl dp lo hi)
set_bits-Agree (suc f) v (suc k) pos at lo hi dp dp' run (inl e) = absurd (omega (arith, e))
set_bits-Agree (suc f) v (suc k) pos at lo hi dp dp' run (inr apart) =
    elim (Option-cases (get_elem? dp at)) [
      | inl out ↦ absurd (none_or_some dp' (sym (set_bits-none f v k pos at dp out) ∙ run))
      | inr (b, here) ↦
          let n = take_len (suc k) pos in
          let (more, fits, inside) = take_len_range (suc k) pos (omega arith) in
          let p = pos % 8 + 1 - n in
          let next = if ltb pos n then 7 else pos - n in
          let d = v / 2 ^ (suc k - n) % 2 ^ n in
          let b' = set_bit_data b d p n in
          let dp₁ = set dp at b' in
          let low = mod-lt (v / 2 ^ (suc k - n)) (power_positive n) in
          let one = byte-Agree dp at b d n pos lo hi here more inside low (elim apart [
            | inl before ↦ inl before
            | inr behind ↦ inr (omega (arith, behind, fits))
          ]) in
          let more_run = sym (set_bits_step f v k pos pos at b dp refl here) ∙ run in
          let others : (suc k - n ≡ 0)
              ⊎ (hi ≤ start next (at + 1))
              ⊎ (start next (at + 1) + (suc k - n) ≤ lo) =
            elim (take_len_cases (suc k) pos) [
              | inl whole ↦ inl (omega (arith, whole))
              | inr end ↦
                  let e =
                    next_start pos next n at end
                      (next_mod pos pos n refl more inside ∙ omega (arith, end)) in
                  inr (elim apart [
                    | inl before ↦ inl (omega (arith, before, e))
                    | inr behind ↦ inr (omega (arith, behind, e, fits))
                  ])
            ] in
          Agree-trans dp dp₁ dp' lo hi one
            (set_bits-Agree f v (suc k - n) next (at + 1) lo hi dp₁ dp' more_run others)
    ]
