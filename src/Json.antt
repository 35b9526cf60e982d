-- ===== src/Json.antt =====
-- JSON values as the Python code holds them (the `Any` of its dictionaries, and the JSON columns
-- of models/tables.py). An integer is unbounded. A float is finite, so it is a whole number of
-- 2^-e parts: `float m e` is m / 2^e. Booleans are numbers to Python's `==`.
use Prim.Native.Nat.{◌^◌}
use recordlane.Base.{
  ◌≡◌, refl, ℕ, zero, suc, ◌+◌, ◌*◌, String, Bool, true, false, ◌&&◌, Option, none, some, List, [],
  ◌∷◌, ◌==◌, str_eq, if◌then◌else◌,
}
use recordlane.Json.Int.{ℤ, pos, negsuc, int_eq, scale}
mod Int
pub use Int.{ℤ, pos, negsuc}

mutual
  pub data Value : Type 0 where
    str : String → Value
    int : ℤ → Value
    float : ℤ → ℕ → Value
    bool : Bool → Value
    null : Value
    list : Elements → Value
    dict : Members → Value

  pub data Elements : Type 0 where
    no_elements : Elements
    element : Value → Elements → Elements

  pub data Members : Type 0 where
    no_members : Members
    member : String → Value → Members → Members

-- The number that a value is to `==`: its numerator and the exponent of its denominator.
abbrev as_number : Value → Option (ℤ × ℕ)
as_number (bool true) = some (pos 1, 0)
as_number (bool false) = some (pos 0, 0)
as_number (int n) = some (n, 0)
as_number (float m e) = some (m, e)
as_number _ = none

-- m / 2^e == n / 2^f
abbrev number_eq : Option (ℤ × ℕ) → Option (ℤ × ℕ) → Bool
number_eq (some (m, e)) (some (n, f)) = int_eq (scale m (2 ^ f)) (scale n (2 ^ e))
number_eq _ _ = false

abbrev count_members : Members → ℕ
count_members no_members = 0
count_members (member _ _ fs) = suc (count_members fs)

abbrev get_member : String → Members → Option Value
get_member k no_members = none
get_member k (member j v fs) = if str_eq j k then some v else get_member k fs

-- Python's `==`. Two objects are equal if they have the same keys with equal values.
unfoldable mutual
  pub value_eq : Value → Value → Bool
  value_eq null null = true
  value_eq (str s) (str t) = str_eq s t
  value_eq (list xs) (list ys) = elements_eq xs ys
  value_eq (dict fs) (dict gs) = (count_members fs == count_members gs) && members_eq fs gs
  value_eq (bool a) w = number_eq (as_number (bool a)) (as_number w)
  value_eq (int n) w = number_eq (as_number (int n)) (as_number w)
  value_eq (float m e) w = number_eq (as_number (float m e)) (as_number w)
  value_eq _ _ = false

  pub elements_eq : Elements → Elements → Bool
  elements_eq no_elements no_elements = true
  elements_eq (element x xs) (element y ys) = value_eq x y && elements_eq xs ys
  elements_eq _ _ = false

  pub members_eq : Members → Members → Bool
  members_eq no_members gs = true
  members_eq (member k v fs) gs = elim (get_member k gs) [
    | none ↦ false
    | some w ↦ value_eq v w && members_eq fs gs
  ]

one_is_true : value_eq (int (pos 1)) (bool true) ≡ true
unfolding value_eq
one_is_true = refl
