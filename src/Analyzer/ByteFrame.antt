-- ===== src/Analyzer/ByteFrame.antt =====
-- Writing bytes leaves the bits of other fields alone, and reading bytes depends on them alone.
use mathlib.Core.Option.{some-injective}
use Prim.Native.Nat.{◌/◌, bit_or}
use libcutils.Base.{
  none_or_some, ℕ, zero, suc, ◌+◌, ◌*◌, ◌%◌, ◌^◌, ◌<◌, ◌≤◌, ◌≡◌, ◌⊎◌, inl, inr, refl, sym, ◌∙◌,
  subst, [], ◌∷◌, false, none, some, ltb, lt→ltb, get_elem?, set, arith, length, Option-cases,
}
use libcutils.Analyzer.Codec.{Bytes, put, set_bytes, get_bytes}
use libcutils.Analyzer.Frame.{Agree, Agree-refl, Agree-trans, Agree-within, set-Agree}

get_elem?_inside : (xs : Bytes) (i b : ℕ) → get_elem? xs i ≡ some b → i < length xs
get_elem?_inside [] i b h = absurd (none_or_some b h)
get_elem?_inside (x ∷ xs) zero b h = omega arith
get_elem?_inside (x ∷ xs) (suc i) b h = omega (arith, get_elem?_inside xs i b h)

get_elem?_outside : (xs : Bytes) (i : ℕ) → get_elem? xs i ≡ none → length xs ≤ i
get_elem?_outside [] i h = omega arith
get_elem?_outside (x ∷ xs) zero h = absurd (none_or_some x (sym h))
get_elem?_outside (x ∷ xs) (suc i) h = omega (arith, get_elem?_outside xs i h)

set_bytes-none :
    (n v at : ℕ) (dp : Bytes) → get_elem? dp at ≡ none → set_bytes (suc n) v at dp ≡ none
unfolding set_bytes put
set_bytes-none n v at dp h =
    let over = get_elem?_outside dp at h in
    let out : ltb at (length dp) ≡ false = ground arith in rw out refl

set_bytes_step :
    (n v at b : ℕ) (dp : Bytes)
    → get_elem? dp at ≡ some b
    → set_bytes (suc n) v at dp ≡ set_bytes n v (at + 1) (set dp at (v / 2 ^ (8 * n) % 2 ^ 8))
unfolding set_bytes put
set_bytes_step n v at b dp here = rw (lt→ltb at (length dp) (get_elem?_inside dp at b here)) refl

-- Writing bytes leaves the bits of the others.
pub set_bytes-Agree :
    (n v at lo hi : ℕ) (dp dp' : Bytes)
    → set_bytes n v at dp ≡ some dp'
    → (n ≡ 0) ⊎ (hi ≤ at * 8) ⊎ (at * 8 + 8 * n ≤ lo)
    → Agree dp dp' lo hi
unfolding set_bytes
set_bytes-Agree zero v at lo hi dp dp' run apart =
    subst (λ (x : Bytes). Agree dp x lo hi) (some-injective dp dp' run) (Agree-refl dp lo hi)
set_bytes-Agree (suc n) v at lo hi dp dp' run (inl e) = absurd (omega (arith, e))
set_bytes-Agree (suc n) v at lo hi dp dp' run (inr apart) = elim (Option-cases (get_elem? dp at)) [
  | inl out ↦ absurd (none_or_some dp' (sym (set_bytes-none n v at dp out) ∙ run))
  | inr (b, here) ↦
      let b' = v / 2 ^ (8 * n) % 2 ^ 8 in
      let one =
        set-Agree dp at b b' (at * 8) (at * 8 + 8) lo hi here
          (elim apart [ inl before ↦ inl before | inr behind ↦ inr (omega (arith, behind)) ])
          (omega arith, omega arith, omega arith)
          (λ p k more inside side. elim side [
            | inl above ↦ absurd (omega (arith, above, more, inside))
            | inr below ↦ absurd (omega (arith, below, more))
          ]) in
      Agree-trans dp (set dp at b') dp' lo hi one (
        set_bytes-Agree n v (at + 1) lo hi (set dp at b') dp'
          (sym (set_bytes_step n v at b dp here) ∙ run)
          (inr (elim apart [
            | inl before ↦ inl (omega (arith, before))
            | inr behind ↦ inr (omega (arith, behind))
          ])))
]

-- What is read depends on the bytes of the field alone.
pub get_bytes-Agree :
    (n v at : ℕ) (dp dp' : Bytes)
    → Agree dp dp' (at * 8) (at * 8 + 8 * n)
    → get_bytes n v at dp ≡ get_bytes n v at dp'
unfolding get_bytes Agree
get_bytes-Agree zero v at dp dp' h = refl
get_bytes-Agree (suc n) v at dp dp' (bits, whole) =
    let same = whole at (omega arith) (omega arith) in
    let rest =
      Agree-within dp dp' (at * 8) (at * 8 + 8 * suc n) ((at + 1) * 8) ((at + 1) * 8 + 8 * n)
        (bits, whole) (inr (omega arith, omega arith)) in
    elim (Option-cases (get_elem? dp' at)) [
      | inl out ↦ rw (same, out) refl
      | inr (b, here) ↦
          rw (same, here)
            (get_bytes-Agree n (bit_or v (b * 2 ^ (8 * n) % 2 ^ 32)) (at + 1) dp dp' rest)
    ]

zero_or_more : (n : ℕ) → (n ≡ 0) ⊎ (0 < n)
zero_or_more zero = inl refl
zero_or_more (suc n) = inr (omega arith)

get_bytes-none :
    (n v at : ℕ) (dp : Bytes) → get_elem? dp at ≡ none → get_bytes (suc n) v at dp ≡ none
unfolding get_bytes
get_bytes-none n v at dp h = rw h refl

get_bytes_step :
    (n v at b : ℕ) (dp : Bytes)
    → get_elem? dp at ≡ some b
    → get_bytes (suc n) v at dp ≡ get_bytes n (bit_or v (b * 2 ^ (8 * n) % 2 ^ 32)) (at + 1) dp
unfolding get_bytes
get_bytes_step n v at b dp here = rw here refl

-- Bytes that are read are in the message.
pub get_bytes_inside :
    (n v at r : ℕ) (dp : Bytes) → get_bytes n v at dp ≡ some r → 0 < n → at + n ≤ length dp
get_bytes_inside zero v at r dp h more = absurd (omega (arith, more))
get_bytes_inside (suc n) v at r dp h more = elim (Option-cases (get_elem? dp at)) [
  | inl out ↦ absurd (none_or_some r (sym (get_bytes-none n v at dp out) ∙ h))
  | inr (b, here) ↦
      let rest = sym (get_bytes_step n v at b dp here) ∙ h in
      let here_inside = get_elem?_inside dp at b here in
      elim (zero_or_more n) [
        | inl last ↦ omega (arith, here_inside, last)
        | inr longer ↦ omega (
          arith,
          get_bytes_inside n (bit_or v (b * 2 ^ (8 * n) % 2 ^ 32)) (at + 1) r dp rest longer,
        )
      ]
]
