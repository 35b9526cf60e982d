-- ===== src/Auth/Paging.antt =====
-- The SCIM list of users: _filter and the page of list_users.
use Prim.Native.Char.{Char}
use Prim.Native.String.{◌++◌ as concat}
use Prim.Native.String.append.{nil, cons}
use native.Mathlib.Numerals.{unary_clauses}
use recordlane.Base.{
  ℕ, zero, suc, ◌+◌, ◌-◌, String, ◌≡◌, refl, sym, ap, inl, inr, false, some, List, [], ◌∷◌, ◌++◌,
  arith, Bool-cases, str_eq, str_eq_iff, take,
}
use recordlane.Http.{ok}
use recordlane.Auth.Credentials.{after_prefix, text_length}
use recordlane.Auth.Users.{skip, page, before_quote, filter_value}

take-skip : {A : Type 0} (n m : ℕ) (l : List A) → take n l ++ take m (skip n l) ≡ take (n + m) l
take-skip zero m l = let e : 0 + m ≡ m = omega arith in rw e refl
take-skip (suc n) zero [] = simp unary_clauses refl
take-skip (suc n) (suc m) [] = simp unary_clauses refl
take-skip (suc n) m (x ∷ l) =
    let e : suc n + m ≡ suc (n + m) = omega arith in rw e (ap (λ r. x ∷ r) (take-skip n m l))

skip-skip : {A : Type 0} (a b : ℕ) (l : List A) → skip b (skip a l) ≡ skip (a + b) l
skip-skip zero b l = let e : 0 + b ≡ b = omega arith in rw e refl
skip-skip (suc a) zero [] = simp unary_clauses refl
skip-skip (suc a) (suc b) [] = simp unary_clauses refl
skip-skip (suc a) b (x ∷ l) =
    let e : suc a + b ≡ suc (a + b) = omega arith in rw e (skip-skip a b l)

-- A page and the one that starts where it ends are one longer page: nothing is left out between two
-- pages and nothing comes twice.
pub pages_join :
    {A : Type 0} (rows : List A) (start n m : ℕ)
    → page rows (suc start) n ++ page rows (suc start + n) m ≡ page rows (suc start) (n + m)
unfolding page
pages_join rows start n m =
    let first : suc start - 1 ≡ start = omega arith in
    let second : suc start + n - 1 ≡ start + n = omega arith in
    rw (first, second, sym (skip-skip start n rows)) (take-skip n m (skip start rows))

after_prefix-concat : (p s : String) → after_prefix p (concat p s) ≡ some s
after_prefix-concat String.[] s = ap some (nil s)
after_prefix-concat (String.◌∷◌ c p) s = rw (cons c p s) (ground (arith, after_prefix-concat p s))

before_quote-concat : (v : String) → before_quote (concat v "\"") ≡ some v
before_quote-concat String.[] = refl
before_quote-concat (String.◌∷◌ c v) = rw (cons c v "\"") (ground (arith, before_quote-concat v))

cons-nonempty : (c : Char) (s : String) → str_eq (String.◌∷◌ c s) "" ≡ false
cons-nonempty c s = elim (Bool-cases (str_eq (String.◌∷◌ c s) "")) [
  | inl e ↦ let length_eq = ap text_length ((str_eq_iff (String.◌∷◌ c s) "").0 e) in ground arith
  | inr e ↦ e
]

concat-nonempty : (a b : String) → str_eq b "" ≡ false → str_eq (concat a b) "" ≡ false
concat-nonempty String.[] b e = rw (nil b) e
concat-nonempty (String.◌∷◌ c a) b e = rw (cons c a b) (cons-nonempty c (concat a b))

-- A filter that asks for a value, whatever characters are in it, is read as that value.
pub filter_value_roundtrip :
    (field value : String)
    → filter_value (some (concat (concat field " eq \"") (concat value "\""))) field
      ≡ ok (some value)
unfolding filter_value
filter_value_roundtrip field value =
    let rest = concat value "\"" in
    let start = concat field " eq \"" in
    let e = concat-nonempty value "\"" refl in
    let f = concat-nonempty start rest e in
    rw (f, after_prefix-concat start rest, e, before_quote-concat value) refl
