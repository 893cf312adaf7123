-- ===== src/Bus/Attrs.antt =====
-- What the handlers of src/libbus/bus.c and busd.c read of an attribute. A string ends at its NUL.
use libcutils.Base.{ℕ, ◌+◌, List, [], ◌∷◌, Option, none, some, ◌==◌, if◌then◌else◌, get_elem?, drop}
use libcutils.Base.Monad.{◌>>=◌}
use libcutils.Blob
use libcutils.Blob.{Bytes}

-- The bytes of a string before its NUL.
unfoldable pub until_nul : Bytes → Option Bytes
until_nul [] = none
until_nul (c ∷ cs) =
    let rest = until_nul cs in if c == 0 then some [] else (do s ← rest; some (c ∷ s))

-- `blob_get_name` and `blob_get_string` of the attribute at an offset.
unfoldable pub get_name : Bytes → ℕ → Option Bytes
unfolding until_nul
get_name block attr = until_nul (drop (attr + 5) block)

unfoldable pub get_string : Bytes → ℕ → Option Bytes
unfolding until_nul
get_string block attr = do at ← Blob.get_data block attr; until_nul (drop at block)

-- The attribute that a policy was given.
unfoldable pub attr_of : List (Option ℕ) → ℕ → Option ℕ
attr_of tb i = do o ← get_elem? tb i; o
