-- ===== src/CmdArgs.antt =====
-- src/libargs/cmd_args.c with src/include/libargs/cmd_args.h: a table of commands, each with a function
-- and the number of arguments it takes, and the loop that reads an argument vector. The table ends at
-- the first entry without a name, which is the end of the list here. What the functions do to the base
-- is part of the table.
pub mod Calls
mod Tests
use mathlib.Core.Option
use Prim.Native.String.{String}
use text.Mathlib.Text.{◌==◌ as str_eq}
use libcutils.Base.{
  ℕ, zero, suc, List, [], ◌∷◌, Bool, true, false, Option, none, some, length, drop,
}

-- `cmd_config_t`, but for the texts of the help.
pub record CmdConfig {ℓ} (S : Type ℓ) : Type ℓ where
  pub cmd : String
  pub fn : S → ℕ → List String → ℕ × S
  pub args_count : ℕ

module _ {ℓ} {S : Type ℓ} where
  unfoldable pub find_entry : List (CmdConfig S) → String → Option (CmdConfig S)
  find_entry [] cmd = none
  find_entry (c ∷ cs) cmd = elim (str_eq cmd c.cmd) [ true ↦ some c | false ↦ find_entry cs cmd ]

  -- The loop on fuel over the arguments from `i` on. The count that a function returns is only logged.
  unfoldable pub parse_args : ℕ → List (CmdConfig S) → S → List String → Option S
  unfolding find_entry
  parse_args zero cs base argv = none
  parse_args (suc fuel) cs base [] = some base
  parse_args (suc fuel) cs base (arg ∷ argv) = elim (find_entry cs arg) [
    | none ↦ parse_args fuel cs base argv
    | some c ↦ parse_args fuel cs (c.fn base (length argv) argv).1 (drop c.args_count argv)
  ]
