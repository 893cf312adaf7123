-- ===== src/Analyzer/Fields.antt =====
-- One field of fixed length in a message: where its bits are, and that it is written there and nowhere
-- else.
use mathlib.Core.Option.{some-injective}
use libcutils.Base.{
  none_or_some, ℕ, ◌+◌, ◌*◌, ◌%◌, ◌^◌, ◌<◌, ◌≤◌, ◌≡◌, ◌⊎◌, inl, inr, refl, sym, ap, ◌∙◌, true,
  false, Option, none, some, ltb, leb, lt→ltb, ◌==◌, if◌then◌else◌, arith, length,
}
use libcutils.Base.Monad.{◌>>=◌}
use libcutils.Analyzer.Codec.{
  Bytes, set_bits, set_protocol_byte_data, get_protocol_byte_data, set_protocol_bit_data,
  get_protocol_bit_data,
}
use libcutils.Analyzer.Format.{InfoList}
use libcutils.Analyzer.{read_field, write_field}
use libcutils.Analyzer.BitFields.{get_protocol_bit_data-set_protocol_bit_data}
use libcutils.Analyzer.ByteFields.{get_protocol_byte_data-set_protocol_byte_data}
use libcutils.Analyzer.Frame.{Agree, Agree-within, get_bits-Agree, set_bits-Agree, start}
use libcutils.Analyzer.ByteFrame.{set_bytes-Agree, get_bytes-Agree, get_bytes_inside}

-- The number of the first bit of a field in the message, and how many it has.
unfoldable pub first_bit : InfoList → ℕ
unfolding start
first_bit info = if info.len_unit == 8 then info.byte_pos * 8 else start info.bit_pos info.byte_pos

unfoldable pub bits : InfoList → ℕ
bits info = if info.len_unit == 8 then 8 * info.len else info.len

-- A field of fixed length that is held in its value, in bytes or in bits.
abbrev pub IsPlain : InfoList → Type 0
IsPlain info =
    (info.vlenth_flag ≡ false)
    × (0 < info.len)
    × (info.byte_pos < 128)
    × ((info.len_unit ≡ 8) × (info.len ≤ 4)
        ⊎ (info.len_unit ≡ 1) × (info.len ≤ 32) × (info.bit_pos < 128))

abbrev pub with_value : ℕ → InfoList → InfoList
with_value v info = record info { value = v }

-- What remains of a value in the bits of its field.
unfoldable pub masked : InfoList → InfoList
masked info = with_value (info.value % 2 ^ bits info) info

field_bytes :
    (info : InfoList) (dp : Bytes)
    → info.len_unit ≡ 8
    → info.len ≤ 4
    → (read_field info dp
        ≡ get_protocol_byte_data info.byte_pos info.len dp >>= (λ v. some (with_value v info)))
      × (write_field info dp ≡ set_protocol_byte_data info.value info.byte_pos info.len dp)
      × (first_bit info ≡ info.byte_pos * 8)
      × (bits info ≡ 8 * info.len)
unfolding read_field write_field first_bit bits
field_bytes info dp unit small =
    let fits : leb info.len 4 ≡ true = ground arith in
    (rw (unit, fits) refl, rw (unit, fits) refl, rw unit refl, rw unit refl)

field_bits :
    (info : InfoList) (dp : Bytes)
    → info.len_unit ≡ 1
    → (read_field info dp
        ≡ get_protocol_bit_data info.byte_pos info.bit_pos info.len dp
          >>= (λ v. some (with_value v info)))
      × (write_field info dp
          ≡ set_protocol_bit_data info.value info.byte_pos info.bit_pos info.len dp)
      × (first_bit info ≡ start info.bit_pos info.byte_pos)
      × (bits info ≡ info.len)
unfolding read_field write_field first_bit bits
field_bits info dp unit = (rw unit refl, rw unit refl, rw unit refl, rw unit refl)

-- The value that was read.
value_read :
    (info : InfoList) (v : ℕ) (o : Option ℕ)
    → o >>= (λ v. some (with_value v info)) ≡ some (with_value v info)
    → o ≡ some v
value_read info v none h = absurd (none_or_some (with_value v info) h)
value_read info v (some w) h =
    ap (λ x. some x)
      (ap (λ (i : InfoList). i.value) (some-injective (with_value w info) (with_value v info) h))

bytes_inside :
    (byte_pos len r : ℕ) (dp : Bytes)
    → get_protocol_byte_data byte_pos len dp ≡ some r
    → 0 < len
    → byte_pos + len ≤ length dp
unfolding get_protocol_byte_data
bytes_inside byte_pos len r dp h more = get_bytes_inside len 0 byte_pos r dp h more

bits-Agree :
    (value byte_pos bit_pos len lo hi : ℕ) (dp dp' : Bytes)
    → len ≤ 32
    → bit_pos < 128
    → set_protocol_bit_data value byte_pos bit_pos len dp ≡ some dp'
    → (hi ≤ start bit_pos byte_pos) ⊎ (start bit_pos byte_pos + len ≤ lo)
    → Agree dp dp' lo hi
unfolding set_protocol_bit_data
bits-Agree value byte_pos bit_pos len lo hi dp dp' small inside run apart =
    let short : ltb len (2 ^ 15) ≡ true = lt→ltb len (2 ^ 15) (omega (arith, small)) in
    let position : ltb bit_pos 128 ≡ true = lt→ltb bit_pos 128 inside in
    let same : set_protocol_bit_data value byte_pos bit_pos len dp
        ≡ set_bits (len + 1) value len bit_pos byte_pos dp =
      rw (short, position) refl in
    set_bits-Agree (len + 1) value len bit_pos byte_pos lo hi dp dp' (sym same ∙ run) (inr apart)

bits_same :
    (byte_pos bit_pos len : ℕ) (dp dp' : Bytes)
    → len ≤ 32
    → Agree dp dp' (start bit_pos byte_pos) (start bit_pos byte_pos + len)
    → get_protocol_bit_data byte_pos bit_pos len dp ≡ get_protocol_bit_data byte_pos bit_pos len dp'
unfolding get_protocol_bit_data
bits_same byte_pos bit_pos len dp dp' small h =
    let short : ltb len (2 ^ 15) ≡ true = lt→ltb len (2 ^ 15) (omega (arith, small)) in
    rw short (
      ap (λ o. if ltb byte_pos 128 then o else if len == 0 then some 0 else none)
        (get_bits-Agree (len + 1) 0 len bit_pos byte_pos dp dp' h))

-- Two runs of bits without one in common.
abbrev Apart : InfoList → ℕ → ℕ → Type 0
Apart info lo hi = (hi ≤ first_bit info) ⊎ (first_bit info + bits info ≤ lo)

-- A field that reads as 0 is written and read back, and the bits of no other field change.
pub write_field_lem :
    (info : InfoList) (dp : Bytes)
    → IsPlain info
    → read_field info dp ≡ some (with_value 0 info)
    → (dp' : Bytes) × (write_field info dp ≡ some dp')
      × (read_field info dp' ≡ some (masked info))
      × ((lo hi : ℕ) → Apart info lo hi → Agree dp dp' lo hi)
unfolding masked set_protocol_byte_data
write_field_lem info dp (fixed, more, near, inl (unit, small)) clear =
    let (read, write, first, size) = field_bytes info dp unit small in
    let get =
      value_read info 0 (get_protocol_byte_data info.byte_pos info.len dp) (sym read ∙ clear) in
    let room = bytes_inside info.byte_pos info.len 0 dp get more in
    let (dp', run, back, before) =
      get_protocol_byte_data-set_protocol_byte_data info.value info.byte_pos info.len dp small
        room in
    let (read', write', first', size') = field_bytes info dp' unit small in
    (
      dp',
      write ∙ run,
      read'
          ∙ ap (λ o. o >>= (λ v. some (with_value v info))) back
          ∙ ap (λ k. some (with_value (info.value % 2 ^ k) info)) (sym size),
      λ lo hi apart. set_bytes-Agree info.len info.value info.byte_pos lo hi dp dp' run (
          inr (elim apart [
            | inl before ↦ inl (omega (arith, before, first))
            | inr behind ↦ inr (omega (arith, behind, first, size))
          ])),
    )
write_field_lem info dp (fixed, more, near, inr (unit, small, inside)) clear =
    let (read, write, first, size) = field_bits info dp unit in
    let get =
      value_read info 0 (get_protocol_bit_data info.byte_pos info.bit_pos info.len dp)
        (sym read ∙ clear) in
    let (dp', run, back, before) =
      get_protocol_bit_data-set_protocol_bit_data info.value info.byte_pos info.bit_pos info.len dp
        small near inside get in
    let (read', write', first', size') = field_bits info dp' unit in
    (
      dp',
      write ∙ run,
      read'
          ∙ ap (λ o. o >>= (λ v. some (with_value v info))) back
          ∙ ap (λ k. some (with_value (info.value % 2 ^ k) info)) (sym size),
      λ lo hi apart.
          bits-Agree info.value info.byte_pos info.bit_pos info.len lo hi dp dp' small inside run
            (elim apart [
              | inl before ↦ inl (omega (arith, before, first))
              | inr behind ↦ inr (omega (arith, behind, first, size))
            ]),
    )

-- What is read from a field depends on its bits alone, and not on the value it had.
pub read_field-Agree :
    (info : InfoList) (v : ℕ) (dp dp' : Bytes)
    → IsPlain info
    → Agree dp dp' (first_bit info) (first_bit info + bits info)
    → read_field info dp ≡ read_field (with_value v info) dp'
unfolding get_protocol_byte_data get_protocol_bit_data
read_field-Agree info v dp dp' (fixed, more, near, inl (unit, small)) same =
    let (read, write, first, size) = field_bytes info dp unit small in
    let (read', write', first', size') = field_bytes (with_value v info) dp' unit small in
    let own =
      Agree-within dp dp' (first_bit info) (first_bit info + bits info) (info.byte_pos * 8)
        (info.byte_pos * 8 + 8 * info.len) same
        (inr (omega (arith, first), omega (arith, first, size))) in
    read
    ∙ ap (λ o. o >>= (λ v. some (with_value v info)))
        (get_bytes-Agree info.len 0 info.byte_pos dp dp' own)
    ∙ sym read'
read_field-Agree info v dp dp' (fixed, more, near, inr (unit, small, inside)) same =
    let (read, write, first, size) = field_bits info dp unit in
    let (read', write', first', size') = field_bits (with_value v info) dp' unit in
    let own =
      Agree-within dp dp' (first_bit info) (first_bit info + bits info)
        (start info.bit_pos info.byte_pos) (start info.bit_pos info.byte_pos + info.len) same
        (inr (omega (arith, first), omega (arith, first, size))) in
    read
    ∙ ap (λ o. o >>= (λ v. some (with_value v info)))
        (bits_same info.byte_pos info.bit_pos info.len dp dp' small own)
    ∙ sym read'
