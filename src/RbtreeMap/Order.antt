-- ===== src/RbtreeMap/Order.antt =====
-- Nodes in the order of their keys: sorted lists, the place of a new key, and what a search finds.
use Prim.Native.Nat.Ordering.{lt, eq, gt}
use libcutils.Base.{
  ℕ, ◌≡◌, refl, sym, ap, subst, ◌∙◌, List, [], ◌∷◌, ◌++◌, Option, none, some, arith, ◌⊎◌, inl, inr,
}
use libcutils.RbtreeMap.Keys.{Sign, flip}

abbrev pub All : (ℕ → Type 0) → List ℕ → Type 0
All P [] = Unit
All P (x ∷ xs) = P x × All P xs

pub All-append : (P : ℕ → Type 0) (xs ys : List ℕ) → All P xs → All P ys → All P (xs ++ ys)
All-append P [] ys a b = b
All-append P (x ∷ xs) ys a b = (a.0, All-append P xs ys a.1 b)

pub All-split : (P : ℕ → Type 0) (xs ys : List ℕ) → All P (xs ++ ys) → All P xs × All P ys
All-split P [] ys a = (tt, a)
All-split P (x ∷ xs) ys a = let (l, r) = All-split P xs ys a.1 in ((a.0, l), r)

pub All-imp : (P Q : ℕ → Type 0) (xs : List ℕ) → ((x : ℕ) → P x → Q x) → All P xs → All Q xs
All-imp P Q [] f a = tt
All-imp P Q (x ∷ xs) f a = (f x a.0, All-imp P Q xs f a.1)

-- A node put in its place by the signs of a key beside the others; an equal key leaves them alone.
abbrev pub placed : (ℕ → Sign) → ℕ → List ℕ → List ℕ
placed sign n [] = n ∷ []
placed sign n (x ∷ xs) = elim (sign x) [ lt ↦ n ∷ x ∷ xs | gt ↦ x ∷ placed sign n xs | eq ↦ x ∷ xs ]

-- The node whose key is equal.
abbrev pub find_equal : (ℕ → Sign) → List ℕ → Option ℕ
find_equal sign [] = none
find_equal sign (x ∷ xs) = elim (sign x) [
  | lt ↦ find_equal sign xs
  | gt ↦ find_equal sign xs
  | eq ↦ some x
]

pub placed-append_lt :
    (sign : ℕ → Sign) (n m : ℕ) (xs ys : List ℕ)
    → sign m ≡ lt
    → placed sign n (xs ++ m ∷ ys) ≡ placed sign n xs ++ m ∷ ys
placed-append_lt sign n m [] ys e = ground (arith, e)
placed-append_lt sign n m (x ∷ xs) ys e = ground (arith, placed-append_lt sign n m xs ys e)

pub placed-append_gt :
    (sign : ℕ → Sign) (n : ℕ) (xs ys : List ℕ)
    → All (λ x. sign x ≡ gt) xs
    → placed sign n (xs ++ ys) ≡ xs ++ placed sign n ys
placed-append_gt sign n [] ys a = refl
placed-append_gt sign n (x ∷ xs) ys a = ground (arith, a.0, placed-append_gt sign n xs ys a.1)

pub find_equal-append_none :
    (sign : ℕ → Sign) (xs ys : List ℕ)
    → find_equal sign xs ≡ none
    → find_equal sign (xs ++ ys) ≡ find_equal sign ys
find_equal-append_none sign [] ys e = refl
find_equal-append_none sign (x ∷ xs) ys e = ground (arith, find_equal-append_none sign xs ys)

pub find_equal-none :
    (sign : ℕ → Sign) (s : Sign) (xs : List ℕ)
    → (s ≡ eq → ⊥)
    → All (λ x. sign x ≡ s) xs
    → find_equal sign xs ≡ none
find_equal-none sign s [] ne a = refl
find_equal-none sign s (x ∷ xs) ne a = ground (arith, a.0, find_equal-none sign s xs ne a.1)

pub find_equal-append_left :
    (sign : ℕ → Sign) (xs ys : List ℕ)
    → find_equal sign ys ≡ none
    → find_equal sign (xs ++ ys) ≡ find_equal sign xs
find_equal-append_left sign [] ys e = e
find_equal-append_left sign (x ∷ xs) ys e = ground (arith, find_equal-append_left sign xs ys e)

-- Every node's key is below those of the nodes behind it.
abbrev pub IsSorted : (ℕ → ℕ → Sign) → List ℕ → Type 0
IsSorted rel [] = Unit
IsSorted rel (x ∷ xs) = All (λ y. rel x y ≡ lt) xs × IsSorted rel xs

pub IsSorted-split :
    (rel : ℕ → ℕ → Sign) (xs : List ℕ) (m : ℕ) (ys : List ℕ)
    → IsSorted rel (xs ++ m ∷ ys)
    → All (λ x. rel x m ≡ lt) xs × IsSorted rel xs × All (λ y. rel m y ≡ lt) ys × IsSorted rel ys
IsSorted-split rel [] m ys s = (tt, tt, s.0, s.1)
IsSorted-split rel (x ∷ xs) m ys s =
    let (below, left, above, right) = IsSorted-split rel xs m ys s.1 in
    let (near, far) = All-split (λ y. rel x y ≡ lt) xs (m ∷ ys) s.0 in
    ((far.0, below), (near, left), above, right)

-- The signs of a key fit the order of the nodes.
pub record IsConsistent (rel : ℕ → ℕ → Sign) (sign : ℕ → Sign) : Type 0 where
  pub below : (a b : ℕ) → sign a ≡ lt → rel a b ≡ lt → sign b ≡ lt
  pub above : (a b : ℕ) → sign a ≡ gt → rel b a ≡ lt → sign b ≡ gt
  pub equal_below : (a b : ℕ) → sign a ≡ eq → rel a b ≡ lt → sign b ≡ lt
  pub equal_above : (a b : ℕ) → sign a ≡ eq → rel b a ≡ lt → sign b ≡ gt

pub placed-lt :
    (sign : ℕ → Sign) (n x : ℕ) (xs : List ℕ) → sign x ≡ lt → placed sign n (x ∷ xs) ≡ n ∷ x ∷ xs
placed-lt sign n x xs e = rw (e, placed) refl

pub placed-eq :
    (sign : ℕ → Sign) (n x : ℕ) (xs : List ℕ) → sign x ≡ eq → placed sign n (x ∷ xs) ≡ x ∷ xs
placed-eq sign n x xs e = rw (e, placed) refl

pub placed-gt :
    (sign : ℕ → Sign) (n x : ℕ) (xs : List ℕ)
    → sign x ≡ gt
    → placed sign n (x ∷ xs) ≡ x ∷ placed sign n xs
placed-gt sign n x xs e = rw (e, placed) refl

pub Sign-cases : (s : Sign) → (s ≡ lt) ⊎ ((s ≡ eq) ⊎ (s ≡ gt))
Sign-cases lt = inl refl
Sign-cases eq = inr (inl refl)
Sign-cases gt = inr (inr refl)

All-placed :
    (P : ℕ → Type 0) (sign : ℕ → Sign) (n : ℕ) (xs : List ℕ)
    → P n
    → All P xs
    → All P (placed sign n xs)
All-placed P sign n [] p a = (p, tt)
All-placed P sign n (x ∷ xs) p a =
    elim (sign x)
      as (λ s.
        All P
          (elim s as (λ s. List ℕ) [ lt ↦ n ∷ x ∷ xs | gt ↦ x ∷ placed sign n xs | eq ↦ x ∷ xs ])) [
            | lt ↦ (p, a)
            | gt ↦ (a.0, All-placed P sign n xs p a.1)
            | eq ↦ a
          ]

pub placed-IsSorted :
    (rel : ℕ → ℕ → Sign) (sign : ℕ → Sign) (n : ℕ) (xs : List ℕ)
    → IsConsistent rel sign
    → ((x : ℕ) → rel n x ≡ sign x)
    → ((x : ℕ) → rel x n ≡ flip (sign x))
    → IsSorted rel xs
    → IsSorted rel (placed sign n xs)
placed-IsSorted rel sign n [] c l r s = (tt, tt)
placed-IsSorted rel sign n (x ∷ xs) c l r s = elim (Sign-cases (sign x)) [
  | inl e ↦ subst (IsSorted rel) (sym (placed-lt sign n x xs e)) (
    (
      l x ∙ e,
      All-imp (λ y. rel x y ≡ lt) (λ y. rel n y ≡ lt) xs (λ y h. l y ∙ c.below x y e h) s.0,
    ),
    s,
  )
  | inr (inl e) ↦ subst (IsSorted rel) (sym (placed-eq sign n x xs e)) s
  | inr (inr e) ↦ subst (IsSorted rel) (sym (placed-gt sign n x xs e)) (
    All-placed (λ y. rel x y ≡ lt) sign n xs (r x ∙ ap flip e) s.0,
    placed-IsSorted rel sign n xs c l r s.1,
  )
]
