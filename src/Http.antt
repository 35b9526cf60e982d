-- ===== src/Http.antt =====
-- What an HTTP handler or a service method returns: a value, or an HTTPException with its status and
-- the `code` of its detail. An exception that nothing handles is status 500 with its type's name.
use recordlane.Base.{
  ◌≢◌, ap, ℕ, String, ◌≡◌, ◌⊎◌, refl, inl, inr, Bool, true, false, Option, none, some, arith,
}

pub data Result {ℓ} (A : Type ℓ) : Type ℓ where
  ok : A → Result A
  err : ℕ → String → Result A

infixl 5 ◌>>=◌
abbrev pub ◌>>=◌ {ℓ κ} : {A : Type ℓ} {B : Type κ} → Result A → (A → Result B) → Result B
ok a >>= f = f a
err status code >>= f = err status code

infixl 5 ◌>>◌
abbrev pub ◌>>◌ {ℓ} : {B : Type ℓ} → Result (Unit {0}) → Result B → Result B
m >> k = m >>= λ _. k

-- `if test: raise HTTPException(status, code)`
abbrev pub raise_if : Bool → ℕ → String → Result (Unit {0})
raise_if true status code = err status code
raise_if false status code = ok tt

-- `if not row: raise HTTPException(status, code)`
abbrev pub required {ℓ} : {A : Type ℓ} → Option A → ℕ → String → Result A
required none status code = err status code
required (some a) status code = ok a

pub Result-cases {ℓ} :
    {A : Type ℓ} (r : Result A)
    → ((status : ℕ) × (code : String) × (r ≡ err status code)) ⊎ ((a : A) × (r ≡ ok a))
Result-cases (ok a) = inr (a, refl)
Result-cases (err status code) = inl (status, code, refl)

-- What a chain that ends well went through.
pub >>=-ok {ℓ κ} :
    {A : Type ℓ} {B : Type κ} (m : Result A) (f : A → Result B) (b : B)
    → (m >>= f) ≡ ok b
    → (a : A) × (m ≡ ok a) × (f a ≡ ok b)
>>=-ok (ok a) f b e = (a, refl, e)
>>=-ok (err status code) f b e = ground arith

pub ok-eq {ℓ} : {A : Type ℓ} {a : A} {b : A} → ok a ≡ ok b → a ≡ b
ok-eq {A} {a} e =
    let value : Result A → A = λ r. elim r [ ok x ↦ x | err status code ↦ a ] in ap value e

pub required-ok {ℓ} :
    {A : Type ℓ} (o : Option A) (status : ℕ) (code : String) (a : A)
    → required o status code ≡ ok a
    → o ≡ some a
required-ok none status code a e = ground arith
required-ok (some b) status code a e = ap some (ok-eq e)

pub ok-err {ℓ} : {A : Type ℓ} {a : A} {status : ℕ} {code : String} → err status code ≢ ok a
ok-err e = ground arith
