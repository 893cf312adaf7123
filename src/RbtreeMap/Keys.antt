-- ===== src/RbtreeMap/Keys.antt =====
-- The order of keys: what the map asks of a comparison, and `memcmp`.
use Prim.Native.Nat.{compare, Ordering}
use Prim.Native.Nat.Ordering.{lt, eq, gt}
use libcutils.Base.{ℕ, ◌≡◌, refl, List, [], ◌∷◌, arith, take}

abbrev pub Bytes : Type 0
Bytes = List ℕ

-- An `int` below, equal to or above zero.
abbrev pub Sign : Type 0
Sign = Ordering

abbrev pub flip : Sign → Sign
flip lt = gt
flip eq = eq
flip gt = lt

abbrev then_compare : Sign → Sign → Sign
then_compare lt s = lt
then_compare eq s = s
then_compare gt s = gt

abbrev lex : Bytes → Bytes → Sign
lex [] [] = eq
lex [] (y ∷ ys) = lt
lex (x ∷ xs) [] = gt
lex (x ∷ xs) (y ∷ ys) = then_compare (compare x y) (lex xs ys)

-- `memcmp`, by which `default_key_cmp_func` compares. It is meant for blocks of at least `size` bytes: of
-- a shorter one the code compares what lies behind it, and here it is the smaller one.
unfoldable pub default_key_cmp_func : Bytes → Bytes → ℕ → Sign
default_key_cmp_func key1 key2 size = lex (take size key1) (take size key2)

-- A comparison of keys of one size is a total order of what it tells apart.
pub record IsOrder (cmp : Bytes → Bytes → ℕ → Sign) (size : ℕ) : Type 0 where
  pub flipped : (a b : Bytes) → cmp b a size ≡ flip (cmp a b size)
  pub trans : (a b c : Bytes) → cmp a b size ≡ lt → cmp b c size ≡ lt → cmp a c size ≡ lt
  pub same : (a b c : Bytes) → cmp a b size ≡ eq → cmp a c size ≡ cmp b c size

lex-flip : (a b : Bytes) → lex b a ≡ flip (lex a b)
lex-flip [] [] = refl
lex-flip [] (y ∷ ys) = refl
lex-flip (x ∷ xs) [] = refl
lex-flip (x ∷ xs) (y ∷ ys) = ground (arith, lex-flip xs ys)

lex_trans : (a b c : Bytes) → lex a b ≡ lt → lex b c ≡ lt → lex a c ≡ lt
lex_trans [] [] c h k = k
lex_trans [] (y ∷ ys) [] h k = ground arith
lex_trans [] (y ∷ ys) (z ∷ zs) h k = refl
lex_trans (x ∷ xs) [] c h k = absurd (ground arith)
lex_trans (x ∷ xs) (y ∷ ys) [] h k = k
lex_trans (x ∷ xs) (y ∷ ys) (z ∷ zs) h k = ground (arith, lex_trans xs ys zs)

lex_same : (a b c : Bytes) → lex a b ≡ eq → lex a c ≡ lex b c
lex_same [] [] c h = refl
lex_same [] (y ∷ ys) c h = absurd (ground arith)
lex_same (x ∷ xs) [] c h = absurd (ground arith)
lex_same (x ∷ xs) (y ∷ ys) [] h = refl
lex_same (x ∷ xs) (y ∷ ys) (z ∷ zs) h = ground (arith, lex_same xs ys zs)

pub default_key_cmp_func-IsOrder : (size : ℕ) → IsOrder default_key_cmp_func size
unfolding default_key_cmp_func
default_key_cmp_func-IsOrder size = record {
  flipped = λ a b. lex-flip (take size a) (take size b);
  trans = λ a b c. lex_trans (take size a) (take size b) (take size c);
  same = λ a b c. lex_same (take size a) (take size b) (take size c);
}
