-- ===== src/Base/Memory.antt =====
-- Blocks of memory as lists of cells, with `memcpy` from and into a block.
-- A block is a list of bytes, or of the fixed-size elements that the code moves as wholes.
use libcutils.Base.Tests.{leb, if◌then◌else◌}
use libcutils.Base.Lists.{
  length, take, drop, replicate, length-append, length-take, length-drop, take-append, drop-drop,
  take-take-drop, drop-append_add, take-append_add, nil_of_length, take_all, drop_all,
}
use Prim.Native.Nat.{ℕ, zero, suc, ◌+◌, ◌-◌, ◌≤◌, ◌<◌}
use mathlib.Core.Path.{◌≡◌, refl, sym, ap, ◌∙◌}
use mathlib.Core.List.{List, [], ◌∷◌, ◌++◌, append-nil, append_assoc}
use mathlib.Core.Option.{Option, none, some}
use native.Mathlib.Omega.{arith}

module _ {ℓ} {A : Type ℓ} where
  -- The `n` cells from index `o` on.
  unfoldable pub slice : List A → ℕ → ℕ → List A
  slice b o n = take n (drop o b)

  -- The block with the cells of `x` put over those from index `o` on.
  unfoldable pub overwrite : List A → ℕ → List A → List A
  overwrite [] o x = []
  overwrite (c ∷ b) zero x = x ++ drop (length x) (c ∷ b)
  overwrite (c ∷ b) (suc o) x = c ∷ overwrite b o x

  -- `memcpy` out of a block; `none` is a read outside it.
  unfoldable pub load : List A → ℕ → ℕ → Option (List A)
  load b o n = if leb (o + n) (length b) then some (slice b o n) else none

  -- `memcpy` into a block; `none` is a write outside it.
  unfoldable pub store : List A → ℕ → List A → Option (List A)
  store b o x = if leb (o + length x) (length b) then some (overwrite b o x) else none

  pub load-some : (b : List A) (o n : ℕ) → o + n ≤ length b → load b o n ≡ some (slice b o n)
  unfolding load
  load-some b o n h = ground arith

  pub load-none : (b : List A) (o n : ℕ) → length b < o + n → load b o n ≡ none
  unfolding load
  load-none b o n h = ground arith

  pub store-some :
      (b : List A) (o : ℕ) (x : List A)
      → o + length x ≤ length b
      → store b o x ≡ some (overwrite b o x)
  unfolding store
  store-some b o x h = ground arith

  pub store-none : (b : List A) (o : ℕ) (x : List A) → length b < o + length x → store b o x ≡ none
  unfolding store
  store-none b o x h = ground arith

  pub length-slice : (b : List A) (o n : ℕ) → o + n ≤ length b → length (slice b o n) ≡ n
  unfolding slice
  length-slice b o n h = omega (arith, length-take n (drop o b), length-drop o b)

  pub slice-zero : (b : List A) (o : ℕ) → slice b o 0 ≡ []
  unfolding slice
  slice-zero b o = refl

  -- Two neighbouring slices are one.
  pub slice-append :
      (b : List A) (o m n p k : ℕ)
      → p ≡ o + m
      → k ≡ m + n
      → slice b o m ++ slice b p n ≡ slice b o k
  unfolding slice
  slice-append b o m n p k e f =
      ap (λ t. take m (drop o b) ++ take n t) (sym (drop-drop o m p b e))
      ∙ take-take-drop m n k (drop o b) f

  pub length-overwrite :
      (b : List A) (o : ℕ) (x : List A)
      → o + length x ≤ length b
      → length (overwrite b o x) ≡ length b
  unfolding overwrite
  length-overwrite [] o x h = refl
  length-overwrite (c ∷ b) zero x h =
      omega (arith, length-append x (drop (length x) (c ∷ b)), length-drop (length x) (c ∷ b))
  length-overwrite (c ∷ b) (suc o) x h = ap suc (length-overwrite b o x (omega arith))

  -- Reading back what was written.
  pub slice-overwrite_self :
      (b : List A) (o n : ℕ) (x : List A)
      → o + n ≤ length b
      → n ≡ length x
      → slice (overwrite b o x) o n ≡ x
  unfolding slice overwrite
  slice-overwrite_self [] zero zero x h e = sym (nil_of_length x (omega arith))
  slice-overwrite_self [] (suc o) n x h e = absurd (omega arith)
  slice-overwrite_self [] zero (suc n) x h e = absurd (omega arith)
  slice-overwrite_self (c ∷ b) zero n x h e =
      ap (λ (j : ℕ). take j (x ++ drop (length x) (c ∷ b))) e
      ∙ take-append x (drop (length x) (c ∷ b))
  slice-overwrite_self (c ∷ b) (suc o) n x h e = slice-overwrite_self b o n x (omega arith) e

  -- A slice below what was written is unchanged.
  pub slice-overwrite_before :
      (b : List A) (o : ℕ) (x : List A) (p n : ℕ)
      → p + n ≤ o
      → slice (overwrite b o x) p n ≡ slice b p n
  unfolding slice overwrite
  slice-overwrite_before [] o x p n h = refl
  slice-overwrite_before (c ∷ b) zero x zero zero h = refl
  slice-overwrite_before (c ∷ b) zero x zero (suc n) h = absurd (omega arith)
  slice-overwrite_before (c ∷ b) zero x (suc p) n h = absurd (omega arith)
  slice-overwrite_before (c ∷ b) (suc o) x zero zero h = refl
  slice-overwrite_before (c ∷ b) (suc o) x zero (suc n) h =
      ap (λ t. c ∷ t) (slice-overwrite_before b o x zero n (omega arith))
  slice-overwrite_before (c ∷ b) (suc o) x (suc p) n h =
      slice-overwrite_before b o x p n (omega arith)

  -- A slice above what was written is unchanged.
  pub slice-overwrite_after :
      (b : List A) (o : ℕ) (x : List A) (p n : ℕ)
      → o + length x ≤ p
      → o + length x ≤ length b
      → slice (overwrite b o x) p n ≡ slice b p n
  unfolding slice overwrite
  slice-overwrite_after [] o x p n h k = refl
  slice-overwrite_after (c ∷ b) zero x p n h k =
      ap (λ t. take n t)
        (drop-append_add x (drop (length x) (c ∷ b)) p (p - length x) (omega arith)
          ∙ drop-drop (length x) (p - length x) p (c ∷ b) (omega arith))
  slice-overwrite_after (c ∷ b) (suc o) x zero n h k = absurd (omega arith)
  slice-overwrite_after (c ∷ b) (suc o) x (suc p) n h k =
      slice-overwrite_after b o x p n (omega arith) (omega arith)

  pub take-slice :
      (b : List A) (o n k : ℕ) → k ≤ n → o + n ≤ length b → take k (slice b o n) ≡ slice b o k
  take-slice b o n k h l =
      ap (take k) (sym (slice-append b o k (n - k) (o + k) n refl (omega arith)))
      ∙ (take-append_add (slice b o k) (slice b (o + k) (n - k)) k 0
            (omega (arith, length-slice b o k (omega arith)))
          ∙ append-nil (slice b o k))

  pub drop-slice :
      (b : List A) (o n k p m : ℕ)
      → k ≤ n
      → o + n ≤ length b
      → p ≡ o + k
      → n ≡ k + m
      → drop k (slice b o n) ≡ slice b p m
  drop-slice b o n k p m h l e f =
      ap (drop k) (sym (slice-append b o k m p n e f))
      ∙ drop-append_add (slice b o k) (slice b p m) k 0
          (omega (arith, length-slice b o k (omega arith)))

  pub slice-whole : (b : List A) → slice b 0 (length b) ≡ b
  unfolding slice
  slice-whole b = take_all (length b) b (omega arith)

  -- A write at the start of a block, and one behind a given first part.
  overwrite-zero :
      (b : List A) (x : List A) → length x ≤ length b → overwrite b 0 x ≡ x ++ drop (length x) b
  unfolding overwrite
  overwrite-zero [] x h = let z : x ≡ [] = nil_of_length x (omega arith) in rw z refl
  overwrite-zero (c ∷ b) x h = refl

  overwrite-append :
      (x b y : List A) (p : ℕ) → p ≡ length x → overwrite (x ++ b) p y ≡ x ++ overwrite b 0 y
  unfolding overwrite
  overwrite-append [] b y p e = ap (λ (j : ℕ). overwrite b j y) e
  overwrite-append (c ∷ x) b y zero e = absurd (omega arith)
  overwrite-append (c ∷ x) b y (suc p) e = ap (λ t. c ∷ t) (overwrite-append x b y p (omega arith))

  drop-overwrite :
      (b : List A) (o : ℕ) (x : List A) (p : ℕ)
      → p ≡ o + length x
      → p ≤ length b
      → drop o (overwrite b o x) ≡ x ++ drop p b
  unfolding overwrite
  drop-overwrite [] zero x p e h =
      let z : x ≡ [] = nil_of_length x (omega arith) in rw z (sym (drop_all p [] (omega arith)))
  drop-overwrite [] (suc o) x p e h = absurd (omega arith)
  drop-overwrite (c ∷ b) zero x p e h = ap (λ (j : ℕ). x ++ drop j (c ∷ b)) (omega arith)
  drop-overwrite (c ∷ b) (suc o) x zero e h = absurd (omega arith)
  drop-overwrite (c ∷ b) (suc o) x (suc p) e h = drop-overwrite b o x p (omega arith) (omega arith)

  -- Two writes side by side are one, in either order.
  pub overwrite-overwrite_right :
      (b : List A) (o p : ℕ) (x y : List A)
      → p ≡ o + length x
      → p + length y ≤ length b
      → overwrite (overwrite b p y) o x ≡ overwrite b o (x ++ y)
  unfolding overwrite
  overwrite-overwrite_right [] o p x y e h = refl
  overwrite-overwrite_right (c ∷ b) zero p x y e h =
      let l : length (overwrite (c ∷ b) p y) ≡ suc (length b) = length-overwrite (c ∷ b) p y h in
      let n : length (x ++ y) ≡ p + length y = omega (arith, length-append x y) in
      overwrite-zero (overwrite (c ∷ b) p y) x (omega (arith, l))
      ∙ ap (λ t. x ++ t)
          (ap (λ (j : ℕ). drop j (overwrite (c ∷ b) p y)) (omega arith)
            ∙ drop-overwrite (c ∷ b) p y (length (x ++ y)) n (omega (arith, n)))
      ∙ sym (append_assoc x y (drop (length (x ++ y)) (c ∷ b)))
  overwrite-overwrite_right (c ∷ b) (suc o) zero x y e h = absurd (omega arith)
  overwrite-overwrite_right (c ∷ b) (suc o) (suc p) x y e h =
      ap (λ t. c ∷ t) (overwrite-overwrite_right b o p x y (omega arith) (omega arith))

  pub overwrite-overwrite_left :
      (b : List A) (o p : ℕ) (x y : List A)
      → p ≡ o + length x
      → p + length y ≤ length b
      → overwrite (overwrite b o x) p y ≡ overwrite b o (x ++ y)
  unfolding overwrite
  overwrite-overwrite_left [] o p x y e h = refl
  overwrite-overwrite_left (c ∷ b) zero p x y e h =
      let d = drop (length x) (c ∷ b) in
      overwrite-append x d y p (omega arith)
      ∙ ap (λ t. x ++ t)
          (overwrite-zero d y (omega (arith, length-drop (length x) (c ∷ b)))
            ∙ ap (λ t. y ++ t)
                (drop-drop (length x) (length y) (length (x ++ y)) (c ∷ b) (length-append x y)))
      ∙ sym (append_assoc x y (drop (length (x ++ y)) (c ∷ b)))
  overwrite-overwrite_left (c ∷ b) (suc o) zero x y e h = absurd (omega arith)
  overwrite-overwrite_left (c ∷ b) (suc o) (suc p) x y e h =
      ap (λ t. c ∷ t) (overwrite-overwrite_left b o p x y (omega arith) (omega arith))

  pub overwrite-nil : (b : List A) (o : ℕ) → overwrite b o [] ≡ b
  unfolding overwrite
  overwrite-nil [] o = refl
  overwrite-nil (c ∷ b) zero = refl
  overwrite-nil (c ∷ b) (suc o) = ap (λ t. c ∷ t) (overwrite-nil b o)

  pub slice-replicate : (k o n : ℕ) (a : A) → o + n ≤ k → slice (replicate k a) o n ≡ replicate n a
  unfolding slice
  slice-replicate zero zero zero a h = refl
  slice-replicate zero zero (suc n) a h = absurd (omega arith)
  slice-replicate zero (suc o) n a h = absurd (omega arith)
  slice-replicate (suc k) zero zero a h = refl
  slice-replicate (suc k) zero (suc n) a h =
      ap (λ t. a ∷ t) (slice-replicate k zero n a (omega arith))
  slice-replicate (suc k) (suc o) n a h = slice-replicate k o n a (omega arith)
