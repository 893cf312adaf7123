-- ===== src/Base/Nodes.antt =====
-- Lists of the addresses of nodes, as the intrusive lists of the C code link them.
use libcutils.Base.Tests.{◌==◌, if◌then◌else◌}
use Prim.Native.Nat.{ℕ, ◌+◌}
use mathlib.Core.Path.{◌≡◌, refl}
use mathlib.Core.Logic.{◌≢◌}
use mathlib.Core.Bool.{Bool, true, false}
use mathlib.Core.List.{List, [], ◌∷◌, ◌++◌}
use libcutils.Base.Lists.{length}
use native.Mathlib.Omega.{arith}

abbrev pub has : ℕ → List ℕ → Bool
has n [] = false
has n (x ∷ xs) = if x == n then true else has n xs

-- The list without a member.
abbrev pub remove : ℕ → List ℕ → List ℕ
remove n [] = []
remove n (x ∷ xs) = if x == n then xs else x ∷ remove n xs

-- A node put behind a member.
abbrev pub put_behind : ℕ → ℕ → List ℕ → List ℕ
put_behind n p [] = []
put_behind n p (x ∷ xs) = if x == p then x ∷ n ∷ xs else x ∷ put_behind n p xs

abbrev pub first_or : ℕ → List ℕ → ℕ
first_or e [] = e
first_or e (x ∷ xs) = x

abbrev pub last_or : ℕ → List ℕ → ℕ
last_or e [] = e
last_or e (x ∷ xs) = last_or x xs

abbrev pub drop_last : List ℕ → List ℕ
drop_last [] = []
drop_last (x ∷ []) = []
drop_last (x ∷ y ∷ xs) = x ∷ drop_last (y ∷ xs)

-- The node behind a member, or the other node behind the last.
abbrev pub behind : ℕ → ℕ → List ℕ → ℕ
behind e p [] = e
behind e p (x ∷ xs) = if x == p then first_or e xs else behind e p xs

pub eq_self : (n : ℕ) → (n == n) ≡ true
eq_self n = ground arith

pub eq-false : (a b : ℕ) → a ≢ b → (a == b) ≡ false
eq-false a b h = ground arith

pub ne_of_eq : (a b : ℕ) → (a == b) ≡ false → a ≢ b
ne_of_eq a b h = ground arith

abbrev pub IsDistinct : List ℕ → Type 0
IsDistinct [] = Unit
IsDistinct (x ∷ xs) = (has x xs ≡ false) × IsDistinct xs

pub has-put_behind :
    (q n p : ℕ) (xs : List ℕ)
    → has q xs ≡ false
    → (n == q) ≡ false
    → has q (put_behind n p xs) ≡ false
has-put_behind q n p [] h e = refl
has-put_behind q n p (x ∷ xs) h e = ground (arith, has-put_behind q n p xs)

pub put_behind-IsDistinct :
    (n p : ℕ) (xs : List ℕ) → has n xs ≡ false → IsDistinct xs → IsDistinct (put_behind n p xs)
put_behind-IsDistinct n p [] h d = tt
put_behind-IsDistinct n p (x ∷ xs) h d =
    ground (arith, put_behind-IsDistinct n p xs, has-put_behind x n p xs)

pub length-put_behind :
    (n p : ℕ) (xs : List ℕ) → has p xs ≡ true → length (put_behind n p xs) ≡ length xs + 1
length-put_behind n p [] h = absurd (ground arith)
length-put_behind n p (x ∷ xs) h = ground (arith, length-put_behind n p xs)

pub has-remove : (q p : ℕ) (xs : List ℕ) → has q xs ≡ false → has q (remove p xs) ≡ false
has-remove q p [] h = refl
has-remove q p (x ∷ xs) h = ground (arith, has-remove q p xs)

pub remove-IsDistinct : (p : ℕ) (xs : List ℕ) → IsDistinct xs → IsDistinct (remove p xs)
remove-IsDistinct p [] d = tt
remove-IsDistinct p (x ∷ xs) d = ground (arith, remove-IsDistinct p xs, has-remove x p xs)

pub length-remove : (p : ℕ) (xs : List ℕ) → has p xs ≡ true → length xs ≡ length (remove p xs) + 1
length-remove p [] h = absurd (ground arith)
length-remove p (x ∷ xs) h = ground (arith, length-remove p xs)

pub has-append :
    (q n : ℕ) (xs : List ℕ) → has q xs ≡ false → (n == q) ≡ false → has q (xs ++ n ∷ []) ≡ false
has-append q n [] h e = ground arith
has-append q n (x ∷ xs) h e = ground (arith, has-append q n xs)

pub append-IsDistinct :
    (n : ℕ) (xs : List ℕ) → has n xs ≡ false → IsDistinct xs → IsDistinct (xs ++ n ∷ [])
append-IsDistinct n [] h d = ground arith
append-IsDistinct n (x ∷ xs) h d = ground (arith, append-IsDistinct n xs, has-append x n xs)

pub has-last_or : (e x : ℕ) (xs : List ℕ) → has (last_or e (x ∷ xs)) (x ∷ xs) ≡ true
has-last_or e x [] = ground arith
has-last_or e x (y ∷ ys) = ground (arith, has-last_or x y ys)

-- Of distinct nodes, the last is the one without which the others are left.
pub remove-last_or :
    (e x : ℕ) (xs : List ℕ)
    → IsDistinct (x ∷ xs)
    → remove (last_or e (x ∷ xs)) (x ∷ xs) ≡ drop_last (x ∷ xs)
remove-last_or e x [] d = ground arith
remove-last_or e x (y ∷ ys) d = ground (arith, remove-last_or x y ys, has-last_or x y ys)
