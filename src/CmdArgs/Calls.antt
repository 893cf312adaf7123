-- ===== src/CmdArgs/Calls.antt =====
-- The calls that an argument vector stands for.
use Prim.Native.String.{String}
use text.Mathlib.Text.{◌==◌ as str_eq}
use text.Mathlib.TextEquality.{eq_iff}
use mathlib.Core.Option.{some-injective}
use libcutils.Base.{
  ℕ, zero, suc, ◌<◌, ◌≡◌, refl, sym, ap, ◌∙◌, List, [], ◌∷◌, ◌++◌, false, none, some, Bool-cases,
  arith, length, drop, length-drop, Option-cases, inl, inr, ◌≢◌,
}
use libcutils.CmdArgs.{CmdConfig, find_entry, parse_args}

some_or_none {ℓ} : {A : Type ℓ} (x : A) → some x ≡ none → ⊥
some_or_none x h = cc

differs : (s t : String) → str_eq s t ≡ false → s ≢ t
differs s t other same = cc ((eq_iff s t).1 same)

module _ {ℓ} {S : Type ℓ} where
  -- No entry of the list has the argument as its name.
  abbrev pub NoneNamed : String → List (CmdConfig S) → Type 0
  NoneNamed arg [] = Unit
  NoneNamed arg (c ∷ cs) = (arg ≢ c.cmd) × NoneNamed arg cs

  -- The arguments as commands: one that no entry of the table has as its name is skipped, and any other
  -- calls the first entry of that name with all that follows, of which the entry then takes its own.
  pub data IsRead (cs : List (CmdConfig S))
      : List String → List (CmdConfig S × List String) → Type ℓ where
    nothing : IsRead cs [] []
    skipped :
        {argv : List String} {calls : List (CmdConfig S × List String)} (arg : String)
        → NoneNamed arg cs
        → IsRead cs argv calls
        → IsRead cs (arg ∷ argv) calls
    called :
        {argv : List String} {calls : List (CmdConfig S × List String)} (arg : String)
        (before after : List (CmdConfig S)) (c : CmdConfig S)
        → cs ≡ before ++ c ∷ after
        → NoneNamed arg before
        → arg ≡ c.cmd
        → IsRead cs (drop c.args_count argv) calls
        → IsRead cs (arg ∷ argv) ((c, argv) ∷ calls)

  -- The calls made one after the other.
  abbrev pub performed : S → List (CmdConfig S × List String) → S
  performed base [] = base
  performed base ((c, argv) ∷ calls) = performed (c.fn base (length argv) argv).1 calls

  find_entry_unknown :
      (cs : List (CmdConfig S)) (arg : String) → find_entry cs arg ≡ none → NoneNamed arg cs
  unfolding find_entry
  find_entry_unknown [] arg h = tt
  find_entry_unknown (c ∷ cs) arg h = elim (Bool-cases (str_eq arg c.cmd)) [
    | inl same ↦ absurd (some_or_none c (rw (sym h, same, find_entry) refl))
    | inr other ↦
        (differs arg c.cmd other, find_entry_unknown cs arg (rw (sym h, other, find_entry) refl))
  ]

  find_entry_known :
      (cs : List (CmdConfig S)) (arg : String) (c : CmdConfig S)
      → find_entry cs arg ≡ some c
      → (before after : List (CmdConfig S)) × (cs ≡ before ++ c ∷ after)
        × NoneNamed arg before
        × (arg ≡ c.cmd)
  unfolding find_entry
  find_entry_known [] arg c h = absurd (some_or_none c (sym h))
  find_entry_known (d ∷ cs) arg c h = elim (Bool-cases (str_eq arg d.cmd)) [
    | inl same ↦
        (let e : d ≡ c = some-injective d c (rw (sym h, same, find_entry) refl) in
          (
            [],
            cs,
            ap (λ x. x ∷ cs) e,
            tt,
            (eq_iff arg d.cmd).0 same ∙ ap (λ (x : CmdConfig S). x.cmd) e,
          ))
    | inr other ↦
        (let (before, after, split, differ, named) =
            find_entry_known cs arg c (rw (sym h, other, find_entry) refl) in
          (d ∷ before, after, ap (λ xs. d ∷ xs) split, (differs arg d.cmd other, differ), named))
  ]

  -- With one round more than there are arguments, `args_parse_args` ends, and what it has done is the
  -- calls that the arguments stand for, in their order: an argument that is the name of no entry of the
  -- table is passed over, any other calls the first entry of that name with the arguments behind it, and
  -- as many of them as the entry takes are passed over then.
  pub parse_args-IsRead :
      (fuel : ℕ) (cs : List (CmdConfig S)) (base : S) (argv : List String)
      → length argv < fuel
      → (calls : List (CmdConfig S × List String)) × IsRead cs argv calls
        × (parse_args fuel cs base argv ≡ some (performed base calls))
  unfolding parse_args
  parse_args-IsRead zero cs base argv enough = absurd (omega arith)
  parse_args-IsRead (suc fuel) cs base [] enough = ([], nothing, refl)
  parse_args-IsRead (suc fuel) cs base (arg ∷ argv) enough =
      elim (Option-cases (find_entry cs arg)) [
        | inl unknown ↦
            (let less : length argv < fuel = omega (arith, enough) in
              let (calls, read, run) = parse_args-IsRead fuel cs base argv less in
              (
                calls,
                skipped arg (find_entry_unknown cs arg unknown) read,
                rw (unknown, parse_args) run,
              ))
        | inr (c, known) ↦
            (let less : length (drop c.args_count argv) < fuel =
                omega (arith, enough, length-drop c.args_count argv) in
              let (calls, read, run) =
                parse_args-IsRead fuel cs (c.fn base (length argv) argv).1 (drop c.args_count argv)
                  less in
              let (before, after, split, differ, named) = find_entry_known cs arg c known in
              (
                (c, argv) ∷ calls,
                called arg before after c split differ named read,
                rw (known, parse_args) run,
              ))
      ]
