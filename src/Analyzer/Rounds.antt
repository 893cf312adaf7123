-- ===== src/Analyzer/Rounds.antt =====
-- The loops of generating and parsing, for fields of fixed length.
use libcutils.Base.{
  ℕ, zero, suc, ◌+◌, ◌%◌, ◌^◌, ◌≡◌, inl, inr, refl, sym, ap, ◌∙◌, List, [], ◌∷◌, ◌++◌, false,
  Option, some, get_elem?, set, arith, length, map, Option-cases,
}
use libcutils.Base.Monad.{◌>>=◌}
use libcutils.HashMap.Chain.{Hlist}
use libcutils.Analyzer.Codec.{Bytes}
use libcutils.Analyzer.Format.{InfoList}
use libcutils.Analyzer.{
  Analyzer, read_field, write_field, lay_out, set_variable_length_flags, generate_loop, parse_loop,
}
use libcutils.Analyzer.Fields.{with_value, masked, first_bit, bits}
use libcutils.Analyzer.Layout.{IsFrame, write_fields, Reads}

-- Fields behind the ones that are done.
get_elem?_here :
    (done rest : List InfoList) (info : InfoList) (i : ℕ)
    → i ≡ length done
    → get_elem? (done ++ info ∷ rest) i ≡ some info
get_elem?_here [] rest info zero e = refl
get_elem?_here [] rest info (suc i) e = absurd (omega (arith, e))
get_elem?_here (d ∷ done) rest info zero e = absurd (omega (arith, e))
get_elem?_here (d ∷ done) rest info (suc i) e = get_elem?_here done rest info i (omega (arith, e))

set_here :
    (done rest : List InfoList) (info new : InfoList) (i : ℕ)
    → i ≡ length done
    → set (done ++ info ∷ rest) i new ≡ done ++ new ∷ rest
set_here [] rest info new zero e = refl
set_here [] rest info new (suc i) e = absurd (omega (arith, e))
set_here (d ∷ done) rest info new zero e = absurd (omega (arith, e))
set_here (d ∷ done) rest info new (suc i) e =
    ap (λ xs. d ∷ xs) (set_here done rest info new i (omega (arith, e)))

one_more :
    (done rest : List InfoList) (info : InfoList)
    → (done ++ info ∷ []) ++ rest ≡ done ++ info ∷ rest
one_more [] rest info = refl
one_more (d ∷ done) rest info = ap (λ xs. d ∷ xs) (one_more done rest info)

one_longer :
    (done : List InfoList) (info : InfoList) (i : ℕ)
    → i ≡ length done
    → i + 1 ≡ length (done ++ info ∷ [])
one_longer [] info i e = omega (arith, e)
one_longer (d ∷ done) info zero e = absurd (omega (arith, e))
one_longer (d ∷ done) info (suc i) e = omega (arith, one_longer done info i (omega (arith, e)))

-- The end of the last field.
unfoldable pub last_end : List InfoList → Option ℕ → Option ℕ
last_end [] end = end
last_end (info ∷ infos) end = last_end infos (some ((info.byte_pos + info.len) % 2 ^ 16))

module _ {api : Hlist} (pa : Analyzer api) where
  lay_out_fixed :
      (i : ℕ) (info : InfoList) (infos : List InfoList)
      → info.vlenth_flag ≡ false
      → lay_out i info infos pa ≡ some infos
  unfolding lay_out
  lay_out_fixed i info infos fixed = rw fixed refl

  flags_step :
      (more i : ℕ) (info : InfoList) (infos : List InfoList)
      → get_elem? infos i ≡ some info
      → info.vlenth_flag ≡ false
      → set_variable_length_flags (suc more) i infos pa
        ≡ set_variable_length_flags more (i + 1) infos pa
  unfolding set_variable_length_flags
  flags_step more i info infos here fixed = rw (here, fixed) refl

  generate_step :
      (more i : ℕ) (info : InfoList) (infos : List InfoList) (dp : Bytes) (end : Option ℕ)
      → get_elem? infos i ≡ some info
      → info.vlenth_flag ≡ false
      → generate_loop (suc more) i infos pa dp end
        ≡ write_field info dp >>= (λ dp'.
          generate_loop more (i + 1) infos pa dp' (some ((info.byte_pos + info.len) % 2 ^ 16)))
  unfolding generate_loop
  generate_step more i info infos dp end here fixed =
      rw (here, lay_out_fixed i info infos fixed, here) refl

  parse_step :
      (more i : ℕ) (info read : InfoList) (infos : List InfoList)
      → get_elem? infos i ≡ some info
      → info.vlenth_flag ≡ false
      → read_field info pa.protocol_data ≡ some read
      → parse_loop (suc more) i infos pa ≡ parse_loop more (i + 1) (set infos i read) pa
  unfolding parse_loop
  parse_step more i info read infos here fixed found =
      rw (here, lay_out_fixed i info infos fixed, here, found) refl

  pub set_variable_length_flags_fixed :
      (done rest : List InfoList) (dp : Bytes) (lo i : ℕ)
      → i ≡ length done
      → IsFrame dp lo rest
      → set_variable_length_flags (length rest) i (done ++ rest) pa ≡ some (done ++ rest)
  unfolding set_variable_length_flags IsFrame
  set_variable_length_flags_fixed done [] dp lo i e frame = refl
  set_variable_length_flags_fixed done (info ∷ rest) dp lo i e
        ((fixed, more, near, kind), from, clear, frame) =
      flags_step (length rest) i info (done ++ info ∷ rest) (get_elem?_here done rest info i e)
        fixed
      ∙ ap (λ xs. set_variable_length_flags (length rest) (i + 1) xs pa)
          (sym (one_more done rest info))
      ∙ set_variable_length_flags_fixed (done ++ info ∷ []) rest dp (first_bit info + bits info)
          (i + 1) (one_longer done info i e) frame
      ∙ ap (λ xs. some xs) (one_more done rest info)

  pub generate_loop_fixed :
      (done rest : List InfoList) (dp₀ dp : Bytes) (end : Option ℕ) (lo i : ℕ)
      → i ≡ length done
      → IsFrame dp₀ lo rest
      → generate_loop (length rest) i (done ++ rest) pa dp end
        ≡ write_fields rest dp >>= (λ dp'. some (done ++ rest, dp', last_end rest end))
  unfolding generate_loop IsFrame write_fields last_end
  generate_loop_fixed done [] dp₀ dp end lo i e frame = refl
  generate_loop_fixed done (info ∷ rest) dp₀ dp end lo i e
        ((fixed, more, near, kind), from, clear, frame) =
      let end' = some ((info.byte_pos + info.len) % 2 ^ 16) in
      let next = λ (dp' : Bytes).
        ap (λ xs. generate_loop (length rest) (i + 1) xs pa dp' end')
          (sym (one_more done rest info))
        ∙ generate_loop_fixed (done ++ info ∷ []) rest dp₀ dp' end' (first_bit info + bits info)
            (i + 1) (one_longer done info i e) frame
        ∙ ap (λ xs. write_fields rest dp' >>= (λ dp''. some (xs, dp'', last_end rest end')))
            (one_more done rest info) in
      generate_step (length rest) i info (done ++ info ∷ rest) dp end
        (get_elem?_here done rest info i e) fixed
      ∙ elim (Option-cases (write_field info dp)) [
        | inl out ↦ rw out refl
        | inr (dp', run) ↦ rw run (next dp')
      ]

  pub parse_loop_fixed :
      (done rest : List InfoList) (dp : Bytes) (lo i v : ℕ)
      → i ≡ length done
      → IsFrame dp lo rest
      → Reads pa.protocol_data rest
      → parse_loop (length rest) i (done ++ map (with_value v) rest) pa
        ≡ some (done ++ map masked rest)
  unfolding parse_loop IsFrame Reads
  parse_loop_fixed done [] dp lo i v e frame reads = refl
  parse_loop_fixed done (info ∷ rest) dp lo i v e ((fixed, more, near, kind), from, clear, frame)
        (read, reads) =
      let now = with_value v info in
      let tail = map (with_value v) rest in
      parse_step (length rest) i now (masked info) (done ++ now ∷ tail)
        (get_elem?_here done tail now i e) fixed (read v)
      ∙ ap (λ xs. parse_loop (length rest) (i + 1) xs pa)
          (set_here done tail now (masked info) i e ∙ sym (one_more done tail (masked info)))
      ∙ parse_loop_fixed (done ++ masked info ∷ []) rest dp (first_bit info + bits info) (i + 1) v
          (one_longer done (masked info) i e) frame reads
      ∙ ap (λ xs. some xs) (one_more done (map masked rest) (masked info))
