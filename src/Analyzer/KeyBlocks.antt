-- ===== src/Analyzer/KeyBlocks.antt =====
-- The blocks that `pa_create_hash_table` puts into the table, and what a search makes of one.
use mathlib.Core.Option.{some-injective}
use libcutils.Base.{
  ℕ, ◌-◌, ◌<◌, ◌≡◌, inl, inr, refl, sym, ap, ap₂, ◌∙◌, subst, List, [], ◌∷◌, ◌++◌, Bool, true,
  false, some, leb, lt→ltb, if◌then◌else◌, arith, length, take, replicate, Bool-cases,
}
use libcutils.Base.Monad.{bind_some, ◌>>=◌}
use libcutils.Base.Memory.{slice, slice-whole, take-slice, load, store}
use libcutils.Base.Words.{be_bytes, length-be_bytes}
use libcutils.HashMap.Keys.{Pair, make_pair, default_key_cmp_func, same_bytes}
use libcutils.HashMap.Layout.{IsPair, stored, make_pair_lem}
use libcutils.HashMap.Search.{size_of}
use libcutils.HashMap.{find_node}
use libcutils.Analyzer.Format.{Bytes}
use libcutils.Analyzer.{addr_to_buffer}

-- What the table holds of a name.
abbrev pub padded : Bytes → Bytes
padded name = stored 15 name ++ replicate (15 - length (stored 15 name)) 0

-- A block with a name and a place in the list.
abbrev pub IsBlock : Bytes → Bytes → ℕ → Type 0
IsBlock block name i =
    (slice block 0 15 ≡ padded name) × (slice block 15 8 ≡ be_bytes 8 i) × (length block ≡ 23)

-- The pair that the blocks are made in.
abbrev pub IsKeyPair : Pair → Type 0
IsKeyPair p = IsPair p × (p.key_len ≡ 15) × (p.value_len ≡ 8) × (p.data_len ≡ 23)

-- A pair keeps its sizes.
make_pair_sizes :
    (p p' : Pair) (key value : Bytes)
    → make_pair p key value ≡ some p'
    → (p'.key_len ≡ p.key_len) × (p'.value_len ≡ p.value_len) × (p'.data_len ≡ p.data_len)
unfolding make_pair
make_pair_sizes p p' key value made =
    let prefix = if leb p.key_len (length key) then take p.key_len key else key in
    let with_tail = λ (keyed tail : Bytes).
      store keyed p.key_len tail >>= (λ whole. some (record p { bytes = whole })) in
    let with_key = λ (keyed : Bytes). load value 0 p.value_len >>= with_tail keyed in
    let with_room = λ (cleared : Bytes). store cleared 0 prefix >>= with_key in
    let (cleared, e₁, h₁) =
      bind_some (store p.bytes 0 (replicate p.data_len 0)) with_room p' made in
    let (keyed, e₂, h₂) = bind_some (store cleared 0 prefix) with_key p' h₁ in
    let (tail, e₃, h₃) = bind_some (load value 0 p.value_len) (with_tail keyed) p' h₂ in
    let (whole, e₄, h₄) =
      bind_some (store keyed p.key_len tail) (λ whole. some (record p { bytes = whole })) p' h₃ in
    let same = some-injective (record p { bytes = whole }) p' h₄ in
    (
      ap (λ (q : Pair). q.key_len) (sym same),
      ap (λ (q : Pair). q.value_len) (sym same),
      ap (λ (q : Pair). q.data_len) (sym same),
    )

pub make_pair-IsBlock :
    (p : Pair) (name : Bytes) (i : ℕ)
    → IsKeyPair p
    → (p' : Pair) × (make_pair p name (addr_to_buffer i) ≡ some p')
      × IsBlock p'.bytes name i
      × IsKeyPair p'
unfolding addr_to_buffer
make_pair-IsBlock p name i (pair, key_len, value_len, data_len) =
    let (p', made, key, value, size, pair') =
      make_pair_lem p name (be_bytes 8 i) pair (omega (arith, value_len, length-be_bytes 8 i)) in
    let (keys, values, datas) = make_pair_sizes p p' name (be_bytes 8 i) made in
    (
      p',
      made,
      (
        subst
            (λ (n : ℕ).
              slice p'.bytes 0 n ≡ stored n name ++ replicate (n - length (stored n name)) 0)
            key_len key,
        ap₂ (slice p'.bytes) (sym key_len) (sym value_len)
            ∙ value
            ∙ ap (slice (be_bytes 8 i) 0) (value_len ∙ sym (length-be_bytes 8 i))
            ∙ slice-whole (be_bytes 8 i),
        size ∙ data_len,
      ),
      (pair', keys ∙ key_len, values ∙ value_len, datas ∙ data_len),
    )

pub find_node_first :
    (test : ℕ → Bool) (x : ℕ) (xs : List ℕ) → test x ≡ true → find_node test (x ∷ xs) ≡ some x
unfolding find_node
find_node_first test x xs h = rw h refl

pub find_node_next :
    (test : ℕ → Bool) (x : ℕ) (xs : List ℕ)
    → test x ≡ false
    → find_node test (x ∷ xs) ≡ find_node test xs
unfolding find_node
find_node_next test x xs h = rw h refl

-- A test that refuses as much, and answers the same of what was found, finds it.
pub find_node_kept :
    (test test' : ℕ → Bool) (xs : List ℕ) (n : ℕ)
    → find_node test xs ≡ some n
    → ((x : ℕ) → test x ≡ false → test' x ≡ false)
    → test' n ≡ test n
    → find_node test' xs ≡ some n
unfolding find_node
find_node_kept test test' [] n h refuses same = h
find_node_kept test test' (x ∷ xs) n h refuses same = elim (Bool-cases (test x)) [
  | inl accepted ↦
      let e : x ≡ n = some-injective x n (sym (find_node_first test x xs accepted) ∙ h) in
      find_node_first test' x xs (ap test' e ∙ same ∙ ap test (sym e) ∙ accepted)
      ∙ ap (λ y. some y) e
  | inr refused ↦
      find_node_next test' x xs (refuses x refused)
      ∙ find_node_kept test test' xs n (sym (find_node_next test x xs refused) ∙ h) refuses same
]

-- The test of a search.
abbrev pub test : (ℕ → Bytes) → Bytes → ℕ → Bool
test cells key x = default_key_cmp_func (cells x) key (size_of 15 key)

-- A block under a name is refused by a search for a key.
pub refused :
    (block name key : Bytes) (i : ℕ)
    → IsBlock block name i
    → length key < 15
    → default_key_cmp_func (padded name) key (length key) ≡ false
    → default_key_cmp_func block key (size_of 15 key) ≡ false
unfolding default_key_cmp_func slice
refused block name key i (laid, address, size) short apart =
    let own : size_of 15 key ≡ length key = rw (lt→ltb (length key) 15 short) refl in
    ap (default_key_cmp_func block key) own
    ∙ ap (λ t. same_bytes t (take (length key) key))
        (sym (take-slice block 0 15 (length key) (omega (arith, short)) (omega (arith, size)))
          ∙ ap (take (length key)) laid)
    ∙ apart
