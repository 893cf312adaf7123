-- ===== src/HashMap/Layout.antt =====
-- `make_pair`: how a key and a value lie in the pair's block, and what that does to the hash.
use libcutils.Base.{
  ℕ, zero, suc, ◌+◌, ◌-◌, ◌%◌, ◌^◌, ◌≤◌, ◌<◌, ◌≡◌, refl, sym, ap, ap₂, ◌∙◌, [], ◌∷◌, ◌++◌, true,
  false, some, arith, length, leb, if◌then◌else◌, take, replicate, length-take, length-replicate,
  take_all, length-append,
}
use libcutils.Base.Memory.{
  slice, overwrite, load-some, store-some, length-slice, length-overwrite, slice-append,
  slice-replicate, slice-overwrite_self, slice-overwrite_before, slice-overwrite_after, slice-whole,
}
use libcutils.Base.Words.{add32}
use native.Mathlib.Decide.{dec_le}
use libcutils.HashMap.Keys.{Bytes, Pair, make_pair, default_hash_func, sum_bytes}

-- The block of a pair as `create_pair` makes it, with sizes that its 16-bit field can hold.
pub record IsPair (p : Pair) : Type 0 where
  pub whole : p.data_len ≡ p.key_len + p.value_len
  pub storage : length p.bytes ≡ p.data_len

-- What is stored of a key.
abbrev pub stored : ℕ → Bytes → Bytes
stored key_len key = take key_len key

prefix_lem : (n : ℕ) (key : Bytes) → (if leb n (length key) then take n key else key) ≡ stored n key
prefix_lem n key = elim (dec_le n (length key)) [
  | yes h ↦ let t : leb n (length key) ≡ true = ground arith in rw t refl
  | no h ↦
      let t : leb n (length key) ≡ false = ground arith in rw t (sym (take_all n key (omega arith)))
]

module _ (p : Pair) (k : IsPair p) (key value : Bytes) (enough : p.value_len ≤ length value) where
  abbrev pre : Bytes
  pre = stored p.key_len key

  abbrev zeros : Bytes
  zeros = replicate p.data_len 0

  abbrev tail : Bytes
  tail = slice value 0 p.value_len

  -- The block after the three writes of `make_pair`.
  abbrev cleared : Bytes
  cleared = overwrite p.bytes 0 zeros

  abbrev keyed : Bytes
  keyed = overwrite cleared 0 pre

  abbrev filled : Bytes
  filled = overwrite keyed p.key_len tail

  length-pre : length pre ≤ p.key_len
  length-pre = omega (arith, length-take p.key_len key)

  length-tail : length tail ≡ p.value_len
  length-tail = length-slice value 0 p.value_len (omega arith)

  length-cleared : length cleared ≡ p.data_len
  length-cleared =
      omega
        (arith, k.storage, length-replicate {A = ℕ} p.data_len 0, length-overwrite p.bytes 0 zeros)

  length-keyed : length keyed ≡ p.data_len
  length-keyed = omega (arith, length-cleared, length-pre, k.whole, length-overwrite cleared 0 pre)

  length-filled : length filled ≡ p.data_len
  length-filled =
      omega (arith, length-keyed, length-tail, k.whole, length-overwrite keyed p.key_len tail)

  cleared-zeros : cleared ≡ zeros
  cleared-zeros =
      sym (slice-whole cleared)
      ∙ slice-overwrite_self p.bytes 0 (length cleared) zeros
          (omega (arith, length-cleared, k.storage))
          (omega (arith, length-cleared, length-replicate {A = ℕ} p.data_len 0))

  make_pair-some : make_pair p key value ≡ some (record p { bytes = filled })
  unfolding make_pair
  make_pair-some =
      let q : (if leb p.key_len (length key) then take p.key_len key else key) ≡ pre =
        prefix_lem p.key_len key in
      ground (
        arith,
        q,
        length-cleared,
        length-keyed,
        length-pre,
        length-tail,
        k.whole,
        k.storage,
        length-replicate {A = ℕ} p.data_len 0,
        store-some p.bytes 0 zeros,
        store-some cleared 0 pre,
        load-some value 0 p.value_len,
        store-some keyed p.key_len tail,
      )

  filled-key : slice filled 0 p.key_len ≡ pre ++ replicate (p.key_len - length pre) 0
  filled-key =
      let n = length pre in
      slice-overwrite_before keyed p.key_len tail 0 p.key_len (omega arith)
      ∙ sym (
          slice-append keyed 0 n (p.key_len - n) n p.key_len (omega arith)
            (omega (arith, length-pre)))
      ∙ ap₂ ◌++◌
          (slice-overwrite_self cleared 0 n pre (omega (arith, length-cleared, length-pre, k.whole))
            refl)
          (slice-overwrite_after cleared 0 pre n (p.key_len - n) (omega arith)
              (omega (arith, length-cleared, length-pre, k.whole))
            ∙ ap (λ t. slice t n (p.key_len - n)) cleared-zeros
            ∙ slice-replicate p.data_len n (p.key_len - n) 0 (omega (arith, length-pre, k.whole)))

  filled-value : slice filled p.key_len p.value_len ≡ tail
  filled-value =
      slice-overwrite_self keyed p.key_len p.value_len tail (omega (arith, length-keyed, k.whole))
        (omega (arith, length-tail))

-- The pair's block holds the key, cut to its field or padded with zeros up to its length, and the
-- value behind it, whatever the block held before.
pub make_pair_lem :
    (p : Pair) (key value : Bytes)
    → IsPair p
    → p.value_len ≤ length value
    → (p' : Pair) × (make_pair p key value ≡ some p')
      × (slice p'.bytes 0 p.key_len
          ≡ stored p.key_len key ++ replicate (p.key_len - length (stored p.key_len key)) 0)
      × (slice p'.bytes p.key_len p.value_len ≡ slice value 0 p.value_len)
      × (length p'.bytes ≡ p.data_len)
      × IsPair p'
make_pair_lem p key value k enough = (
  record p { bytes = filled p k key value enough },
  make_pair-some p k key value enough,
  filled-key p k key value enough,
  filled-value p k key value enough,
  length-filled p k key value enough,
  record { whole = k.whole; storage = length-filled p k key value enough },
)

sum_bytes-append :
    (acc : ℕ) (xs ys : Bytes) → sum_bytes acc (xs ++ ys) ≡ sum_bytes (sum_bytes acc xs) ys
unfolding sum_bytes
sum_bytes-append acc [] ys = refl
sum_bytes-append acc (x ∷ xs) ys = sum_bytes-append (add32 acc (x % 256)) xs ys

sum_bytes-lt : (acc : ℕ) (xs : Bytes) → acc < 2 ^ 32 → sum_bytes acc xs < 2 ^ 32
unfolding sum_bytes
sum_bytes-lt acc [] h = h
sum_bytes-lt acc (x ∷ xs) h = sum_bytes-lt (add32 acc (x % 256)) xs (omega arith)

sum_bytes-zeros : (acc n : ℕ) → acc < 2 ^ 32 → sum_bytes acc (replicate n 0) ≡ acc
unfolding sum_bytes
sum_bytes-zeros acc zero h = refl
sum_bytes-zeros acc (suc n) h =
    ap (λ (a : ℕ). sum_bytes a (replicate n 0)) (omega arith) ∙ sum_bytes-zeros acc n h

-- The padding of a short key adds nothing to the default hash.
pub default_hash_func-pad :
    (xs : Bytes) (n size bucket_size : ℕ)
    → size ≡ length xs + n
    → default_hash_func (xs ++ replicate n 0) size bucket_size
      ≡ default_hash_func xs (length xs) bucket_size
unfolding default_hash_func
default_hash_func-pad xs n size bucket_size e =
    ap (λ (t : ℕ). t % bucket_size)
      (ap (sum_bytes 0) (
          take_all size (xs ++ replicate n 0)
            (omega (arith, length-append xs (replicate n 0), length-replicate {A = ℕ} n 0)))
        ∙ sum_bytes-append 0 xs (replicate n 0)
        ∙ sum_bytes-zeros (sum_bytes 0 xs) n (sum_bytes-lt 0 xs (omega arith))
        ∙ ap (sum_bytes 0) (sym (take_all (length xs) xs (omega arith))))
