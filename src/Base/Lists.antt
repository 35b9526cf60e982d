-- ===== src/Base/Lists.antt =====
-- Lists measured by native numbers, Boolean filters and predicates over lists.
use Prim.Native.Nat.{ℕ, zero, suc, ◌+◌, ◌≤◌}
use mathlib.Core.Path.{◌≡◌, refl}
use mathlib.Core.Logic.{◌⊎◌, inl, inr}
use mathlib.Core.Bool.{Bool, true, false, ◌&&◌, ◌||◌}
use mathlib.Core.List.{List, [], ◌∷◌, ◌++◌}
use native.Mathlib.Omega.{arith}
use recordlane.Base.Tests.{if◌then◌else◌, ◌==◌, Bool-cases}

module _ {ℓ} {A : Type ℓ} where
  abbrev pub length : List A → ℕ
  length [] = 0
  length (x ∷ xs) = suc (length xs)

  -- `limit(n)` of a query
  abbrev pub take : ℕ → List A → List A
  take zero xs = []
  take (suc n) [] = []
  take (suc n) (x ∷ xs) = x ∷ take n xs

  -- `where(...)` of a query
  abbrev pub select : (A → Bool) → List A → List A
  select p [] = []
  select p (x ∷ xs) = let rest = select p xs in if p x then x ∷ rest else rest

  abbrev pub any : (A → Bool) → List A → Bool
  any p [] = false
  any p (x ∷ xs) = p x || any p xs

  abbrev pub all : (A → Bool) → List A → Bool
  all p [] = true
  all p (x ∷ xs) = p x && all p xs

  pub length-append : (xs ys : List A) → length (xs ++ ys) ≡ length xs + length ys
  length-append [] ys = omega arith
  length-append (x ∷ xs) ys = omega (arith, length-append xs ys)

  pub length-take-le : (n : ℕ) (xs : List A) → length (take n xs) ≤ n
  length-take-le zero xs = omega arith
  length-take-le (suc n) [] = omega arith
  length-take-le (suc n) (x ∷ xs) = omega (arith, length-take-le n xs)

  pub select-append :
      (p : A → Bool) (xs ys : List A) → select p (xs ++ ys) ≡ select p xs ++ select p ys
  select-append p [] ys = refl
  select-append p (x ∷ xs) ys = ground (arith, select-append p xs ys)

  pub any-append : (p : A → Bool) (xs ys : List A) → any p (xs ++ ys) ≡ (any p xs || any p ys)
  any-append p [] ys = refl
  any-append p (x ∷ xs) ys = ground (arith, any-append p xs ys)

  pub length-select-le : (p : A → Bool) (xs : List A) → length (select p xs) ≤ length xs
  length-select-le p [] = omega arith
  length-select-le p (x ∷ xs) = ground (arith, length-select-le p xs)

abbrev pub Every {ℓ κ} : {A : Type ℓ} → (A → Type κ) → List A → Type κ
Every P [] = Unit
Every P (x ∷ xs) = P x × Every P xs

abbrev pub contains : ℕ → List ℕ → Bool
contains n = any (λ m. m == n)

-- `{…}` of a list of identifiers
abbrev pub distinct : List ℕ → List ℕ
distinct [] = []
distinct (n ∷ l) = if contains n l then distinct l else n ∷ distinct l

module _ {A : Type 0} where
  -- Membership that keeps the place, and computes to a `⊎`.
  abbrev pub In : A → List A → Type 0
  In x [] = ⊥
  In x (y ∷ l) = (x ≡ y) ⊎ In x l

  module _ (p : A → Bool) where
    In-tail : {x y : A} (l : List A) → In x l × (p x ≡ true) → In x (y ∷ l) × (p x ≡ true)
    In-tail l (m, e) = (inr m, e)

    In-cons :
        {x y : A} (l : List A)
        → p y ≡ true
        → (In x (select p l) → In x l × (p x ≡ true))
        → In x (y ∷ select p l)
        → In x (y ∷ l) × (p x ≡ true)
    In-cons l e ih (inl q) = (inl q, rw q e)
    In-cons l e ih (inr m) = In-tail l (ih m)

    pub In-select : (x : A) (l : List A) → In x (select p l) → In x l × (p x ≡ true)
    In-select x [] h = absurd h
    In-select x (y ∷ l) h = elim (Bool-cases (p y)) [
      | inl e ↦ In-cons l e (In-select x l) (rw e at h)
      | inr e ↦ In-tail l (In-select x l (rw e at h))
    ]

    pub select-In : (x : A) (l : List A) → In x l → p x ≡ true → In x (select p l)
    select-In x [] h e = absurd h
    select-In x (y ∷ l) (inl q) e = let e' : p y ≡ true = rw (← q) e in rw e' (inl q)
    select-In x (y ∷ l) (inr m) e = elim (Bool-cases (p y)) [
      | inl e' ↦ rw e' (inr (select-In x l m e))
      | inr e' ↦ rw e' (select-In x l m e)
    ]

  pub In-append : (x : A) (xs ys : List A) → In x (xs ++ ys) → In x xs ⊎ In x ys
  In-append x [] ys m = inr m
  In-append x (y ∷ xs) ys (inl q) = inl (inl q)
  In-append x (y ∷ xs) ys (inr m) = elim (In-append x xs ys m) [
    | inl here ↦ inl (inr here)
    | inr there ↦ inr there
  ]

  pub In-take : (x : A) (n : ℕ) (l : List A) → In x (take n l) → In x l
  In-take x zero l m = absurd m
  In-take x (suc n) [] m = absurd m
  In-take x (suc n) (y ∷ l) (inl q) = inl q
  In-take x (suc n) (y ∷ l) (inr m) = inr (In-take x n l m)
