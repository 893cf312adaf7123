-- ===== src/Analyzer/Layout.antt =====
-- Fields of fixed length one behind the other in a message, written and read without the loops.
use libcutils.Base.{ℕ, ◌+◌, ◌≤◌, ◌≡◌, inl, inr, refl, sym, ◌∙◌, List, [], ◌∷◌, Option, some, arith}
use libcutils.Base.Monad.{◌>>=◌}
use libcutils.Analyzer.Codec.{Bytes}
use libcutils.Analyzer.Format.{InfoList}
use libcutils.Analyzer.{read_field, write_field}
use libcutils.Analyzer.Fields.{
  IsPlain, with_value, masked, first_bit, bits, write_field_lem, read_field-Agree,
}
use libcutils.Analyzer.Frame.{Agree, Agree-refl, Agree-trans, Agree-within}

-- Plain fields one behind the other, from a bit on, that read as 0.
unfoldable pub IsFrame : Bytes → ℕ → List InfoList → Type 0
IsFrame dp lo [] = Unit
IsFrame dp lo (info ∷ infos) =
    IsPlain info
    × (lo ≤ first_bit info)
    × (read_field info dp ≡ some (with_value 0 info))
    × IsFrame dp (first_bit info + bits info) infos

-- The fields one after the other.
unfoldable pub write_fields : List InfoList → Bytes → Option Bytes
write_fields [] dp = some dp
write_fields (info ∷ infos) dp = write_field info dp >>= write_fields infos

-- Every field reads as what is left of its value, whatever it held before.
unfoldable pub Reads : Bytes → List InfoList → Type 0
Reads dp [] = Unit
Reads dp (info ∷ infos) =
    ((v : ℕ) → read_field (with_value v info) dp ≡ some (masked info)) × Reads dp infos

IsFrame-within :
    (dp dp' : Bytes) (lo : ℕ) (infos : List InfoList)
    → ((lo' hi : ℕ) → lo ≤ lo' → Agree dp dp' lo' hi)
    → IsFrame dp lo infos
    → IsFrame dp' lo infos
unfolding IsFrame
IsFrame-within dp dp' lo [] same frame = tt
IsFrame-within dp dp' lo (info ∷ infos) same (plain, from, clear, rest) = (
  plain,
  from,
  sym (
        read_field-Agree info info.value dp dp' plain
          (same (first_bit info) (first_bit info + bits info) from))
      ∙ clear,
  IsFrame-within dp dp' (first_bit info + bits info) infos
      (λ lo' hi behind. same lo' hi (omega (arith, from, behind))) rest,
)

pub write_fields-Reads :
    (infos : List InfoList) (lo : ℕ) (dp : Bytes)
    → IsFrame dp lo infos
    → (dp' : Bytes) × (write_fields infos dp ≡ some dp') × Reads dp' infos × Agree dp dp' 0 lo
unfolding IsFrame write_fields Reads
write_fields-Reads [] lo dp frame = (dp, refl, tt, Agree-refl dp 0 lo)
write_fields-Reads (info ∷ infos) lo dp (plain, from, clear, frame) =
    let (dp₁, run, back, others) = write_field_lem info dp plain clear in
    let end = first_bit info + bits info in
    let frame₁ =
      IsFrame-within dp dp₁ end infos (λ lo' hi behind. others lo' hi (inr behind)) frame in
    let (dp', run', reads, kept) = write_fields-Reads infos end dp₁ frame₁ in
    (
      dp',
      rw run run',
      (
        λ v.
            sym (
              read_field-Agree info v dp₁ dp' plain (
                Agree-within dp₁ dp' 0 end (first_bit info) end kept
                  (inr (omega arith, omega arith))))
            ∙ back,
        reads,
      ),
      Agree-trans dp dp₁ dp' 0 lo (others 0 lo (inl from))
          (Agree-within dp₁ dp' 0 end 0 lo kept (inr (omega arith, omega (arith, from)))),
    )
