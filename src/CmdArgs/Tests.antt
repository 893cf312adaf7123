-- ===== src/CmdArgs/Tests.antt =====
-- A command that counts its arguments, and the theorem at it.
use Prim.Native.String.{String}
use libcutils.Base.{ℕ, ◌+◌, ◌≡◌, refl, List, [], ◌∷◌, some, arith}
use libcutils.CmdArgs.{CmdConfig, find_entry, parse_args}
use libcutils.CmdArgs.Calls.{IsRead, performed, parse_args-IsRead}

abbrev table : List (CmdConfig ℕ)
table = record { cmd = "add"; fn = λ s n argv. (1, s + n); args_count = 1 } ∷ []

abbrev line : List String
line = "what" ∷ "add" ∷ "add" ∷ "add" ∷ []

-- The second `add` is the argument of the first.
line_runs : parse_args 5 table 0 line ≡ some 2
unfolding parse_args find_entry
line_runs = refl

parse_args-IsRead_example :
    (calls : List (CmdConfig ℕ × List String)) × IsRead table line calls
    × (parse_args 5 table 0 line ≡ some (performed 0 calls))
parse_args-IsRead_example = parse_args-IsRead 5 table 0 line (omega arith)
