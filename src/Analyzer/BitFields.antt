-- ===== src/Analyzer/BitFields.antt =====
-- A value in bits is read back as it was written.
use Prim.Native.Nat.{◌/◌}
use native.Mathlib.Nat.{mod-lt, mul_assoc, add-mul}
use libcutils.Base.{
  none_or_some, ℕ, zero, suc, ◌+◌, ◌-◌, ◌*◌, ◌%◌, ◌^◌, ◌<◌, ◌≤◌, ◌≡◌, refl, sym, ap, ◌∙◌, Bool,
  true, none, some, ltb, ◌==◌, if◌then◌else◌, get_elem?, set, arith, ◌≢◌, Option-cases, inl, inr,
  lt→ltb,
}
use libcutils.Base.Bits.{power_add, mask_split, power_positive}
use libcutils.Analyzer.Codec.{
  Bytes, set_bit_data, take_len, set_bits, get_bits, set_protocol_bit_data, get_protocol_bit_data,
}
use libcutils.Analyzer.Chunks.{
  get_bit_data_lem, get_bit_data-set_bit_data, chunk, take_len_range, get_bits_step, get_bits-end,
  get_bits-none, get_bits_grows, get_bits_ext, get_elem?-set_other, get_elem?-set_here,
  set_bits_step, ne_of_lt, ne_of_gt, next_mod, no_bits,
}

-- Where a field reads as 0, its bits can be written; then it reads as them, and the bytes before it are
-- as they were.
bits_lem :
    (f v t pos pos' at : ℕ) (dp : Bytes)
    → t < f
    → t ≤ 32
    → pos % 8 ≡ pos' % 8
    → pos' < 256
    → get_bits f (0 * 2 ^ t) t pos' at dp ≡ some 0
    → (dp' : Bytes) × (set_bits f v t pos at dp ≡ some dp')
      × ((i : ℕ) → i < at → get_elem? dp' i ≡ get_elem? dp i)
      × ((a : ℕ) → get_bits f (a * 2 ^ t) t pos' at dp' ≡ some (a * 2 ^ t + v % 2 ^ t))
unfolding set_bits get_bits
bits_lem zero v t pos pos' at dp less l e low clear = absurd (omega (arith, less))
bits_lem (suc f) v zero pos pos' at dp less l e low clear =
    (dp, refl, λ i h. refl, λ a. get_bits-end f a pos' at dp ∙ ap (λ x. some x) (omega arith))
bits_lem (suc f) v (suc k) pos pos' at dp less l e low clear =
    elim (Option-cases (get_elem? dp at)) [
      | inl out ↦
          absurd (none_or_some 0 (sym (get_bits-none f (0 * 2 ^ suc k) k pos' at dp out) ∙ clear))
      | inr (b, here) ↦
          let n = take_len (suc k) pos' in
          let (more, fits, inside) = take_len_range (suc k) pos' (omega arith) in
          let c = chunk b pos' n in
          let t' = suc k - n in
          let p = pos' % 8 + 1 - n in
          let next = if ltb pos n then 7 else pos - n in
          let next' = (pos' + 2 ^ 8 - n) % 2 ^ 8 in
          let plain : 0 * 2 ^ n + c ≡ c = omega arith in
          let found =
            ap (λ x. get_bits f (x * 2 ^ t') t' next' (at + 1) dp) (sym plain)
            ∙ sym (get_bits_step f 0 k pos' at b dp l here)
            ∙ clear in
          let none_set : c ≡ 0 =
            no_bits c t' (get_bits_grows f c t' next' (at + 1) 0 dp (omega (arith, l)) found) in
          let d = v / 2 ^ t' % 2 ^ n in
          let b' = set_bit_data b d p n in
          let dp₁ = set dp at b' in
          let other : (i : ℕ) → i ≢ at → get_elem? dp₁ i ≡ get_elem? dp i =
            λ i ne. get_elem?-set_other dp i at b' ne in
          let rest =
            get_bits_ext f (0 * 2 ^ t') t' next' (at + 1) dp₁ dp (λ i h. other i (ne_of_lt at i h))
            ∙ ap (λ x. get_bits f (x * 2 ^ t') t' next' (at + 1) dp) (sym none_set)
            ∙ found in
          let (dp', run, before, reads) =
            bits_lem f v t' next next' (at + 1) dp₁ (omega (arith, less, more)) (omega (arith, l))
              (next_mod pos pos' n e more inside) (omega arith) rest in
          let mine : chunk b' pos' n ≡ d =
            sym (get_bit_data_lem b' p n (omega (arith, inside)))
            ∙ get_bit_data-set_bit_data b d p n (omega (arith, inside))
                (mod-lt (v / 2 ^ t') (power_positive n)) none_set in
          let exponent : n + t' ≡ suc k = omega (arith, fits) in
          (
            dp',
            set_bits_step f v k pos pos' at b dp e here ∙ run,
            λ i h. before i (omega (arith, h)) ∙ other i (ne_of_gt at i h),
            λ a.
                get_bits_step f a k pos' at b' dp' l
                  (before at (omega arith) ∙ get_elem?-set_here dp at b b' here)
                ∙ ap (λ x. get_bits f ((a * 2 ^ n + x) * 2 ^ t') t' next' (at + 1) dp') mine
                ∙ reads (a * 2 ^ n + d)
                ∙ ap (λ x. some x)
                    (omega (
                      arith,
                      add-mul (a * 2 ^ n) d (2 ^ t'),
                      mul_assoc a (2 ^ n) (2 ^ t'),
                      ap (λ x. a * x) (power_add n t' (suc k) (sym exponent)),
                      mask_split v n t',
                      ap (λ j. v % 2 ^ j) exponent,
                    )),
          )
    ]

-- A field of at most 32 bits that reads as 0 can be written, whatever its position in the byte; it then
-- reads as the low bits of the value, and the bytes before it are as they were.
pub get_protocol_bit_data-set_protocol_bit_data :
    (value byte_pos bit_pos len : ℕ) (dp : Bytes)
    → len ≤ 32
    → byte_pos < 128
    → bit_pos < 128
    → get_protocol_bit_data byte_pos bit_pos len dp ≡ some 0
    → (dp' : Bytes) × (set_protocol_bit_data value byte_pos bit_pos len dp ≡ some dp')
      × (get_protocol_bit_data byte_pos bit_pos len dp' ≡ some (value % 2 ^ len))
      × ((i : ℕ) → i < byte_pos → get_elem? dp' i ≡ get_elem? dp i)
unfolding get_protocol_bit_data set_protocol_bit_data
get_protocol_bit_data-set_protocol_bit_data value byte_pos bit_pos len dp l near inside clear =
    let short : ltb len (2 ^ 15) ≡ true = lt→ltb len (2 ^ 15) (omega (arith, l)) in
    let index : ltb byte_pos 128 ≡ true = lt→ltb byte_pos 128 near in
    let position : ltb bit_pos 128 ≡ true = lt→ltb bit_pos 128 inside in
    let read = λ (b : Bytes).
      let length_of = λ (short : Bool). if short then len else 0 in
      if ltb byte_pos 128
      then get_bits (len + 1) 0 (length_of (ltb len (2 ^ 15))) bit_pos byte_pos b
      else if length_of (ltb len (2 ^ 15)) == 0
      then some 0
      else none in
    let reads : (b : Bytes) → read b ≡ get_bits (len + 1) (0 * 2 ^ len) len bit_pos byte_pos b =
      λ b.
        rw (short, index) (ap (λ v. get_bits (len + 1) v len bit_pos byte_pos b) (omega arith)) in
    let (dp', run, before, result) =
      bits_lem (len + 1) value len bit_pos bit_pos byte_pos dp (omega arith) l refl
        (omega (arith, inside)) (sym (reads dp) ∙ clear) in
    (dp', rw (short, position) run, reads dp' ∙ result 0 ∙ ap (λ x. some x) (omega arith), before)
