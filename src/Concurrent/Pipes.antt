-- ===== src/Concurrent/Pipes.antt =====
-- The bytes that wait in the slaves' pipes.
use libcutils.Base.{
  ℕ, zero, suc, ◌+◌, ◌<◌, ◌≡◌, refl, sym, ap, ◌∙◌, subst, List, [], ◌∷◌, ◌++◌, Option, some, arith,
  get_elem?, set, length, replicate, ◌⊎◌, inl, inr,
}
use mathlib.Core.Option.{some-injective}

abbrev pub total : List (List ℕ) → ℕ
total [] = 0
total (p ∷ ps) = length p + total ps

pub total-set :
    (ps : List (List ℕ)) (i : ℕ) (p q : List ℕ)
    → get_elem? ps i ≡ some p
    → total (set ps i q) + length p ≡ total ps + length q
total-set [] i p q h = absurd (ground arith)
total-set (x ∷ ps) zero p q h =
    let e : length x ≡ length p = ap length (some-injective x p h) in omega (arith, e)
total-set (x ∷ ps) (suc i) p q h = omega (arith, total-set ps i p q h)

pub get_elem?-lt :
    (ps : List (List ℕ)) (i : ℕ) → i < length ps → (p : List ℕ) × (get_elem? ps i ≡ some p)
get_elem?-lt [] i h = absurd (omega arith)
get_elem?-lt (x ∷ ps) zero h = (x, refl)
get_elem?-lt (x ∷ ps) (suc i) h = get_elem?-lt ps i (omega arith)

-- A byte that waits stands in some pipe.
pub waiting_pipe :
    (ps : List (List ℕ))
    → 0 < total ps
    → (i : ℕ) × (b : ℕ) × (rest : List ℕ) × (i < length ps) × (get_elem? ps i ≡ some (b ∷ rest))
waiting_pipe [] h = absurd (omega arith)
waiting_pipe ((b ∷ rest) ∷ ps) h = (0, b, rest, omega arith, refl)
waiting_pipe ([] ∷ ps) h =
    let more : 0 < total ps = omega (arith, h) in
    let (i, b, rest, less, e) = waiting_pipe ps more in (suc i, b, rest, omega (arith, less), e)

-- Nothing but `c` is written.
abbrev pub AreCommands : List ℕ → Type 0
AreCommands [] = Unit
AreCommands (b ∷ bs) = (b ≡ 99) × AreCommands bs

pub AreCommands-push : (bs : List ℕ) → AreCommands bs → AreCommands (bs ++ 99 ∷ [])
AreCommands-push [] a = (refl, tt)
AreCommands-push (b ∷ bs) a = (a.0, AreCommands-push bs a.1)

abbrev pub AllCommands : List (List ℕ) → Type 0
AllCommands [] = Unit
AllCommands (p ∷ ps) = AreCommands p × AllCommands ps

-- The pipes at first.
abbrev pub empty_pipes : ℕ → List (List ℕ)
empty_pipes n = replicate n []

pub empty_pipes_lem :
    (n : ℕ)
    → (length (empty_pipes n) ≡ n) × (total (empty_pipes n) ≡ 0) × AllCommands (empty_pipes n)
empty_pipes_lem zero = (refl, refl, tt)
empty_pipes_lem (suc n) =
    let (count, bytes, commands) = empty_pipes_lem n in
    (ap suc count, omega (arith, bytes), (tt, commands))

pub AllCommands-get :
    (ps : List (List ℕ)) (i : ℕ) (p : List ℕ)
    → AllCommands ps
    → get_elem? ps i ≡ some p
    → AreCommands p
AllCommands-get [] i p a h = absurd (ground arith)
AllCommands-get (x ∷ ps) zero p a h = subst AreCommands (some-injective x p h) a.0
AllCommands-get (x ∷ ps) (suc i) p a h = AllCommands-get ps i p a.1 h

pub AllCommands-set :
    (ps : List (List ℕ)) (i : ℕ) (q : List ℕ)
    → AllCommands ps
    → AreCommands q
    → AllCommands (set ps i q)
AllCommands-set [] i q a h = tt
AllCommands-set (x ∷ ps) zero q a h = (h, a.1)
AllCommands-set (x ∷ ps) (suc i) q a h = (a.0, AllCommands-set ps i q a.1 h)

pub List-cases {ℓ} :
    {A : Type ℓ} (xs : List A) → (xs ≡ []) ⊎ ((x : A) × (ys : List A) × (xs ≡ x ∷ ys))
List-cases [] = inl refl
List-cases (x ∷ ys) = inr (x, ys, refl)

pub cons-injective : (x y : ℕ) (xs ys : List ℕ) → x ∷ xs ≡ y ∷ ys → (x ≡ y) × (xs ≡ ys)
cons-injective x y xs ys h = (cc, cc)

-- A result that is known is the result.
pub same_result :
    {A : Type 0} (P : A → Type 0) (o : Option A) (x y : A) → o ≡ some x → o ≡ some y → P x → P y
same_result P o x y p q k = subst P (some-injective x y (sym p ∙ q)) k

pub append-cancel_left : (xs ys zs : List ℕ) → xs ++ ys ≡ xs ++ zs → ys ≡ zs
append-cancel_left [] ys zs h = h
append-cancel_left (x ∷ xs) ys zs h =
    append-cancel_left xs ys zs (cons-injective x x (xs ++ ys) (xs ++ zs) h).1
