-- ===== src/HashMap/Keys.antt =====
-- Keys as bytes: the default comparison and hash of hash_list.c, and the pair of map_pair.h in which
-- a key and a value are laid out.
use libcutils.Base.{
  ℕ, ◌+◌, ◌%◌, ◌^◌, List, [], ◌∷◌, Bool, true, false, ◌&&◌, Option, none, some, leb, ◌==◌,
  if◌then◌else◌, take, replicate, length,
}
use libcutils.Base.Monad.{◌>>=◌}
use libcutils.Base.Memory.{load, store}
use libcutils.Base.Words.{add32}

-- An `int` result: -1, or a number that is not negative.
pub data Status : Type 0 where
  failed : Status
  ret : ℕ → Status

-- `assert`
abbrev pub assert : Bool → Option (Unit {0})
assert true = some tt
assert false = none

abbrev pub Bytes : Type 0
Bytes = List ℕ

-- Equal runs of bytes, as `memcmp` compares them.
unfoldable pub same_bytes : Bytes → Bytes → Bool
same_bytes [] [] = true
same_bytes [] (y ∷ ys) = false
same_bytes (x ∷ xs) [] = false
same_bytes (x ∷ xs) (y ∷ ys) = x == y && same_bytes xs ys

-- Whether `memcmp(key1, key2, size)` is 0.
unfoldable pub default_key_cmp_func : Bytes → Bytes → ℕ → Bool
default_key_cmp_func key1 key2 size = same_bytes (take size key1) (take size key2)

unfoldable pub sum_bytes : ℕ → Bytes → ℕ
sum_bytes acc [] = acc
sum_bytes acc (b ∷ bs) = sum_bytes (add32 acc (b % 256)) bs

unfoldable pub default_hash_func : Bytes → ℕ → ℕ → ℕ
unfolding sum_bytes
default_hash_func key key_size bucket_size = sum_bytes 0 (take key_size key) % bucket_size

-- `pair_t`; the block behind it holds `key_len + value_len` bytes.
pub record Pair : Type 0 where
  pub data_len : ℕ
  pub key_len : ℕ
  pub value_len : ℕ
  pub bytes : Bytes

unfoldable pub create_pair : ℕ → ℕ → Pair
create_pair key_len value_len = record {
  data_len = (key_len + value_len) % 2 ^ 16;
  key_len = key_len;
  value_len = value_len;
  bytes = replicate (key_len + value_len) 0;
}

-- A key that is longer than its field is cut, a shorter one is padded by the cleared bytes.
unfoldable pub make_pair : Pair → Bytes → Bytes → Option Pair
make_pair p key value = do
  cleared ← store p.bytes 0 (replicate p.data_len 0)
  let prefix = if leb p.key_len (length key) then take p.key_len key else key
  keyed ← store cleared 0 prefix
  tail ← load value 0 p.value_len
  whole ← store keyed p.key_len tail
  some (record p { bytes = whole })

-- A function pointer, or the default where it is null.
abbrev pub or_default : {A : Type 0} → A → Option A → A
or_default d none = d
or_default d (some f) = f
