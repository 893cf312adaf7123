-- ===== src/Analyzer/ByteFields.antt =====
-- A value in bytes is read back as it was written.
use Prim.Native.Nat.{◌/◌, bit_or}
use native.Mathlib.Nat.{mod-lt, add-mul, mul_assoc}
use libcutils.Base.{
  ℕ, zero, suc, ◌+◌, ◌-◌, ◌*◌, ◌%◌, ◌^◌, ◌<◌, ◌≤◌, ◌≡◌, refl, sym, ap, ◌∙◌, some, get_elem?, set,
  arith, length, length-set, lt→ltb, get_elem?-set_self,
}
use libcutils.Base.Bits.{power_positive, power_add, mask_split}
use libcutils.Analyzer.Codec.{
  Bytes, put, set_bytes, get_bytes, set_protocol_byte_data, get_protocol_byte_data,
}
use libcutils.Analyzer.Chunks.{joined, get_elem?-set_other, ne_of_gt}

set_bytes_step :
    (n v at : ℕ) (dp : Bytes)
    → at < length dp
    → set_bytes (suc n) v at dp ≡ set_bytes n v (at + 1) (set dp at (v / 2 ^ (8 * n) % 2 ^ 8))
unfolding set_bytes put
set_bytes_step n v at dp h = rw (lt→ltb at (length dp) h) refl

get_bytes_step :
    (n a at b : ℕ) (dp : Bytes)
    → suc n ≤ 4
    → b < 2 ^ 8
    → get_elem? dp at ≡ some b
    → get_bytes (suc n) (a * 2 ^ (8 * suc n)) at dp
      ≡ get_bytes n ((a * 2 ^ 8 + b) * 2 ^ (8 * n)) (at + 1) dp
unfolding get_bytes
get_bytes_step n a at b dp h low here =
    let less : 8 * suc n - 8 ≡ 8 * n = omega arith in
    rw here (
      ap (λ x. get_bytes n x (at + 1) dp)
        (ap (λ j. bit_or (a * 2 ^ (8 * suc n)) (b * 2 ^ j % 2 ^ 32)) (sym less)
          ∙ joined a b (8 * suc n) 8 (omega arith) (omega (arith, h)) low
          ∙ ap (λ j. (a * 2 ^ 8 + b) * 2 ^ j) less))

bytes_lem :
    (n v at : ℕ) (dp : Bytes)
    → n ≤ 4
    → at + n ≤ length dp
    → (dp' : Bytes) × (set_bytes n v at dp ≡ some dp')
      × ((i : ℕ) → i < at → get_elem? dp' i ≡ get_elem? dp i)
      × ((a : ℕ) → get_bytes n (a * 2 ^ (8 * n)) at dp' ≡ some (a * 2 ^ (8 * n) + v % 2 ^ (8 * n)))
unfolding set_bytes get_bytes
bytes_lem zero v at dp h room = (dp, refl, λ i less. refl, λ a. ap (λ x. some x) (omega arith))
bytes_lem (suc n) v at dp h room =
    let b = v / 2 ^ (8 * n) % 2 ^ 8 in
    let dp₁ = set dp at b in
    let inside : at < length dp = omega (arith, room) in
    let (dp', run, before, reads) =
      bytes_lem n v (at + 1) dp₁ (omega (arith, h)) (omega (arith, room, length-set dp at b)) in
    let exponent : 8 + 8 * n ≡ 8 * suc n = omega arith in
    (
      dp',
      set_bytes_step n v at dp inside ∙ run,
      λ i less. before i (omega (arith, less)) ∙ get_elem?-set_other dp i at b (ne_of_gt at i less),
      λ a.
          get_bytes_step n a at b dp' h (mod-lt (v / 2 ^ (8 * n)) (power_positive 8))
            (before at (omega arith) ∙ get_elem?-set_self dp at b inside)
          ∙ reads (a * 2 ^ 8 + b)
          ∙ ap (λ x. some x)
              (omega (
                arith,
                add-mul (a * 2 ^ 8) b (2 ^ (8 * n)),
                mul_assoc a (2 ^ 8) (2 ^ (8 * n)),
                ap (λ x. a * x) (power_add 8 (8 * n) (8 * suc n) (sym exponent)),
                mask_split v 8 (8 * n),
                ap (λ j. v % 2 ^ j) exponent,
              )),
    )

-- Inside the message, a value of at most four bytes is written, and read back but for what does not
-- fit; the bytes before it are as they were.
pub get_protocol_byte_data-set_protocol_byte_data :
    (value byte_pos len : ℕ) (dp : Bytes)
    → len ≤ 4
    → byte_pos + len ≤ length dp
    → (dp' : Bytes) × (set_protocol_byte_data value byte_pos len dp ≡ some dp')
      × (get_protocol_byte_data byte_pos len dp' ≡ some (value % 2 ^ (8 * len)))
      × ((i : ℕ) → i < byte_pos → get_elem? dp' i ≡ get_elem? dp i)
unfolding set_protocol_byte_data get_protocol_byte_data
get_protocol_byte_data-set_protocol_byte_data value byte_pos len dp h room =
    let (dp', run, before, reads) = bytes_lem len value byte_pos dp h room in
    (
      dp',
      run,
      ap (λ v. get_bytes len v byte_pos dp') (omega arith)
          ∙ reads 0
          ∙ ap (λ x. some x) (omega arith),
      before,
    )
