-- ===== src/Analyzer/Message.antt =====
-- A whole message of fields of fixed length: what is generated is parsed back.
use libcutils.Base.{
  ℕ, suc, ◌+◌, ◌%◌, ◌^◌, ◌<◌, ◌≤◌, ◌≡◌, inl, inr, refl, ap, ◌∙◌, List, [], ◌∷◌, true, false, none,
  some, ◌==◌, arith, length, map,
}
use libcutils.HashMap.Chain.{Hlist}
use libcutils.Analyzer.Codec.{Bytes}
use libcutils.Analyzer.Format.{InfoList}
use libcutils.Analyzer.{Analyzer, generate_protocol_data, parse_protocol_data}
use libcutils.Analyzer.Fields.{with_value, masked, first_bit, bits}
use libcutils.Analyzer.Layout.{IsFrame, Reads, write_fields-Reads}
use libcutils.Analyzer.Rounds.{
  last_end, set_variable_length_flags_fixed, generate_loop_fixed, parse_loop_fixed,
}

-- A message that has a field has a length.
last_end_positive :
    (infos : List InfoList) (dp : Bytes) (lo e : ℕ)
    → 0 < e
    → IsFrame dp lo infos
    → (n : ℕ) × (0 < n) × (last_end infos (some e) ≡ some n)
unfolding IsFrame last_end
last_end_positive [] dp lo e positive frame = (e, positive, refl)
last_end_positive (info ∷ infos) dp lo e positive ((fixed, more, near, kind), from, clear, frame) =
    let small : info.len ≤ 32 = elim kind [
      | inl (unit, len) ↦ omega (arith, len)
      | inr (unit, len, inside) ↦ len
    ] in
    last_end_positive infos dp (first_bit info + bits info) ((info.byte_pos + info.len) % 2 ^ 16)
      (omega (arith, more, near, small)) frame

data_len_positive :
    (infos : List InfoList) (dp : Bytes)
    → 0 < length infos
    → IsFrame dp 0 infos
    → (n : ℕ) × (0 < n) × (last_end infos none ≡ some n)
unfolding IsFrame last_end
data_len_positive [] dp some_field frame = absurd (omega (arith, some_field))
data_len_positive (info ∷ infos) dp some_field ((fixed, more, near, kind), from, clear, frame) =
    last_end_positive (info ∷ infos) dp 0 1 (omega arith)
      ((fixed, more, near, kind), from, clear, frame)

length-map : (v : ℕ) (infos : List InfoList) → length (map (with_value v) infos) ≡ length infos
length-map v [] = refl
length-map v (info ∷ infos) = ap suc (length-map v infos)

module _ {api : Hlist} where
  -- The fields of an analyzer replaced.
  abbrev pub with_fields : List InfoList → Analyzer api → Analyzer api
  with_fields infos pa = record pa { pa_list = some infos }

  generate_fields :
      (pa : Analyzer api) (infos : List InfoList)
      → 0 < length infos
      → IsFrame pa.protocol_data 0 infos
      → (dp : Bytes) × (n : ℕ) × (0 < n)
        × Reads dp infos
        × (generate_protocol_data (with_fields infos pa)
            ≡ some (
              true,
              record pa { pa_list = some infos; protocol_data = dp; protocol_data_len = n },
            ))
  unfolding generate_protocol_data
  generate_fields pa infos some_field frame =
      let pa₀ = with_fields infos pa in
      let flags = set_variable_length_flags_fixed pa₀ [] infos pa.protocol_data 0 0 refl frame in
      let loop =
        generate_loop_fixed pa₀ [] infos pa.protocol_data pa.protocol_data none 0 0 refl frame in
      let (dp, run, reads, kept) = write_fields-Reads infos 0 pa.protocol_data frame in
      let (n, positive, data_len) = data_len_positive infos pa.protocol_data some_field frame in
      (dp, n, positive, reads, rw (flags, loop, run, data_len) refl)

  parse_fields :
      (pa : Analyzer api) (infos : List InfoList) (dp : Bytes) (v : ℕ)
      → 0 < pa.protocol_data_len
      → IsFrame dp 0 infos
      → Reads pa.protocol_data infos
      → parse_protocol_data (with_fields (map (with_value v) infos) pa)
        ≡ some (true, with_fields (map masked infos) pa)
  unfolding parse_protocol_data
  parse_fields pa infos dp v positive frame reads =
      let pa₀ = with_fields (map (with_value v) infos) pa in
      let loop = parse_loop_fixed pa₀ [] infos dp 0 0 v refl frame reads in
      let some_len : (pa.protocol_data_len == 0) ≡ false = ground arith in
      rw (some_len, length-map v infos, loop) refl

  -- From the values of one or more fields of fixed length, one behind the other in a message in which they
  -- read as 0, a message is generated; from it, fields of the same layout that hold any one value are parsed
  -- to the values that were sent, but for what does not fit the width of a field.
  pub parse_protocol_data-generate_protocol_data :
      (pa : Analyzer api) (infos : List InfoList) (v : ℕ)
      → pa.pa_list ≡ some infos
      → 0 < length infos
      → IsFrame pa.protocol_data 0 infos
      → (pa' : Analyzer api) × (generate_protocol_data pa ≡ some (true, pa'))
        × (parse_protocol_data (with_fields (map (with_value v) infos) pa')
            ≡ some (true, with_fields (map masked infos) pa'))
  parse_protocol_data-generate_protocol_data pa infos v e some_field frame =
      let (dp, n, positive, reads, run) = generate_fields pa infos some_field frame in
      let pa' = record pa { pa_list = some infos; protocol_data = dp; protocol_data_len = n } in
      (
        pa',
        ap (λ l. generate_protocol_data (record pa { pa_list = l })) e ∙ run,
        parse_fields pa' infos pa.protocol_data v positive frame reads,
      )
