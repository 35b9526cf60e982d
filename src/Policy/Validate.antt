-- ===== src/Policy/Validate.antt =====
-- CompiledPolicy.validate of policy.py: the errors of a record's values, attribute by attribute.
use Prim.Native.String.{count}
use recordlane.Base.{
  inl, inr, String, ◌≡◌, sym, refl, Bool, true, false, not, ◌&&◌, ◌↔◌, Option, none, some, List, [],
  ◌∷◌, ◌++◌, arith, ltb, if◌then◌else◌, Dict, lookup, str_eq, any, Option-cases, Every,
}
use recordlane.Json.{Value, str, int, bool, null, value_eq}
use recordlane.Policy.{
  Library, Kind, string, reference, integer, boolean, identifier, enum, Attribute,
}
use recordlane.Policy.Normalize.{kind_of}

pub data Code : Type 0 where
  is_required not_allowed bad_pattern bad_type : Code

-- The message is the code's text after `name`; for a type error, with the kind.
pub record ValidationError : Type 0 where
  pub attribute : String
  pub code : Code
  pub name : String
  pub expected_kind : Option Kind

-- PolicyError, or the re.error of a pattern that does not compile.
pub data Validated : Type 0 where
  errors : List ValidationError → Validated
  pattern_too_long : String → Validated
  pattern_invalid : Validated

-- `key not in values or value is None or value == ""`
abbrev pub is_missing : Option Value → Bool
is_missing none = true
is_missing (some null) = true
is_missing (some (str s)) = str_eq s ""
is_missing (some _) = false

-- `values.get(key) is not None`
abbrev pub present : Option Value → Option Value
present none = none
present (some null) = none
present (some v) = some v

-- isinstance(value, expected); a bool is an int.
abbrev pub has_type : Kind → Value → Bool
has_type string (str _) = true
has_type string _ = false
has_type reference (str _) = true
has_type reference _ = false
has_type identifier (str _) = true
has_type identifier _ = false
has_type enum (str _) = true
has_type enum _ = false
has_type integer (int _) = true
has_type integer (bool _) = true
has_type integer _ = false
has_type boolean (bool _) = true
has_type boolean _ = false
has_type _ _ = true

-- The errors of two checks, or the exception of the first that raises one.
abbrev pub and_then : Validated → Validated → Validated
and_then (errors es) (errors fs) = errors (es ++ fs)
and_then (errors es) r = r
and_then r _ = r

module _ (lib : Library) where
  -- `not isinstance(value, str) or not re.fullmatch(pattern, value)`, where there is a value.
  abbrev mismatches : String → Option Value → Option Bool
  mismatches pattern none = some false
  mismatches pattern (some (str s)) = elim (lib.fullmatch pattern s) [
    | none ↦ none
    | some b ↦ some (not b)
  ]
  mismatches pattern (some _) = some true

  abbrev error_of : Attribute → Code → ValidationError
  error_of a code = record { attribute = a.key; code = code; name = a.name; expected_kind = none }

  abbrev allowed_errors : Attribute → Option Value → List ValidationError
  allowed_errors a none = []
  allowed_errors a (some v) = elim a.allowed_values [
    | none ↦ []
    | some allowed ↦ if any (λ w. value_eq v w) allowed then [] else error_of a not_allowed ∷ []
  ]

  abbrev type_errors : Attribute → Option Value → List ValidationError
  type_errors a none = []
  type_errors a (some v) =
      if has_type (kind_of a) v
      then []
      else record {
        attribute = a.key;
        code = bad_type;
        name = a.name;
        expected_kind = some (kind_of a);
      }
        ∷ []

  -- `attribute.get("pattern")` if it is neither missing nor empty
  abbrev pattern_of : Attribute → Option String
  pattern_of a = elim a.pattern [ none ↦ none | some p ↦ if str_eq p "" then none else some p ]

  abbrev with_pattern : Attribute → Option Value → Validated
  with_pattern a v = elim (pattern_of a) [
    | none ↦ errors (allowed_errors a v ++ type_errors a v)
    | some p ↦ if ltb 256 (count p) then pattern_too_long a.key else elim (mismatches p v) [
      | none ↦ pattern_invalid
      | some false ↦ errors (allowed_errors a v ++ type_errors a v)
      | some true ↦ errors (allowed_errors a v ++ (error_of a bad_pattern ∷ type_errors a v))
    ]
  ]

  unfoldable pub validate_attribute : Attribute → Dict Value → Validated
  validate_attribute a values =
      let value = lookup a.key values in
      if a.required && is_missing value
      then errors (error_of a is_required ∷ [])
      else with_pattern a (present value)

  unfoldable pub validate : List Attribute → Dict Value → Validated
  unfolding validate_attribute
  validate [] values = errors []
  validate (a ∷ rest) values = and_then (validate_attribute a values) (validate rest values)

abbrev pub is_str : Value → Bool
is_str (str _) = true
is_str _ = false

-- What an attribute asks of a record's values, without reference to the order of the checks.
pub record Accepts (lib : Library) (a : Attribute) (values : Dict Value) : Type 0 where
  pub required_present : a.required ≡ true → is_missing (lookup a.key values) ≡ false
  pub is_allowed :
      (v : Value) (allowed : List Value)
      → present (lookup a.key values) ≡ some v
      → a.allowed_values ≡ some allowed
      → any (λ w. value_eq v w) allowed ≡ true
  pub well_typed :
      (v : Value) → present (lookup a.key values) ≡ some v → has_type (kind_of a) v ≡ true
  pub matches :
      (p s : String)
      → pattern_of lib a ≡ some p
      → present (lookup a.key values) ≡ some (str s)
      → lib.fullmatch p s ≡ some true
  pub pattern_on_text :
      (p : String) (v : Value)
      → pattern_of lib a ≡ some p
      → present (lookup a.key values) ≡ some v
      → is_str v ≡ true
  pub pattern_short : (p : String) → pattern_of lib a ≡ some p → ltb 256 (count p) ≡ false

module _ (lib : Library) where
  validate_attribute-Accepts :
      (a : Attribute) (values : Dict Value)
      → validate_attribute lib a values ≡ errors []
      → Accepts lib a values
  unfolding validate_attribute
  validate_attribute-Accepts a values h = record {
    required_present = λ r. ground arith;
    is_allowed = λ v allowed p q. ground arith;
    well_typed = λ v p. ground arith;
    matches = λ p s q r. ground arith;
    pattern_on_text = λ p v q r. ground arith;
    pattern_short = λ p q. ground arith;
  }

  no_mismatch :
      (p : String) (o : Option Value)
      → ((s : String) → o ≡ some (str s) → lib.fullmatch p s ≡ some true)
      → ((v : Value) → o ≡ some v → is_str v ≡ true)
      → mismatches lib p o ≡ some false
  no_mismatch p none h k = refl
  no_mismatch p (some (str s)) h k = rw (h s refl, mismatches)
  no_mismatch p (some v) h k = absurd (cc (k v refl))

  module _ (a : Attribute) (values : Dict Value) (acc : Accepts lib a values) where
    accepted_value :
        (v : Value)
        → present (lookup a.key values) ≡ some v
        → (allowed_errors lib a (some v) ≡ []) × (type_errors lib a (some v) ≡ [])
    accepted_value v p = elim (Option-cases a.allowed_values) [
      | inl e ↦ (ground arith, ground (arith, acc.well_typed v p))
      | inr (allowed, e) ↦
          (ground (arith, acc.is_allowed v allowed p e), ground (arith, acc.well_typed v p))
    ]

    accepted_pattern :
        (p : String)
        → pattern_of lib a ≡ some p
        → mismatches lib p (present (lookup a.key values)) ≡ some false
    accepted_pattern p q =
        no_mismatch p (present (lookup a.key values)) (λ s r. acc.matches p s q r)
          (λ v r. acc.pattern_on_text p v q r)

    accepted_with_pattern :
        (o : Option Value) → o ≡ present (lookup a.key values) → with_pattern lib a o ≡ errors []
    accepted_with_pattern none e = elim (Option-cases (pattern_of lib a)) [
      | inl q ↦ ground arith
      | inr (p, q) ↦ ground (arith, acc.pattern_short p q)
    ]
    accepted_with_pattern (some v) e =
        let clean = accepted_value v (sym e) in
        elim (Option-cases (pattern_of lib a)) [
          | inl q ↦ ground (arith, clean)
          | inr (p, q) ↦ ground (arith, clean, acc.pattern_short p q, accepted_pattern p q)
        ]

    Accepts-validate_attribute : validate_attribute lib a values ≡ errors []
    unfolding validate_attribute
    Accepts-validate_attribute =
        ground
          (arith, acc.required_present, accepted_with_pattern (present (lookup a.key values)) refl)

  and_then-errors : (r s : Validated) → and_then r s ≡ errors [] → (r ≡ errors []) × (s ≡ errors [])
  and_then-errors (errors []) (errors m) h = (refl, h)
  and_then-errors (errors []) (pattern_too_long k) h = absurd (cc)
  and_then-errors (errors []) pattern_invalid h = absurd (cc)
  and_then-errors (errors (x ∷ l)) (errors m) h = absurd (cc)
  and_then-errors (errors (x ∷ l)) (pattern_too_long k) h = absurd (cc)
  and_then-errors (errors (x ∷ l)) pattern_invalid h = absurd (cc)
  and_then-errors (pattern_too_long k) s h = absurd (cc)
  and_then-errors pattern_invalid s h = absurd (cc)

  -- validate finds no error exactly when every attribute's requirements hold of the values:
  -- required values are there, values with allowed values are one of them, values have the type of
  -- the attribute, and a value under a pattern is a text that the pattern, of at most 256
  -- characters, matches.
  pub validate_exact :
      (attributes : List Attribute) (values : Dict Value)
      → (validate lib attributes values ≡ errors []) ↔ Every (λ a. Accepts lib a values) attributes
  unfolding validate
  validate_exact [] values = (λ h. tt, λ h. refl)
  validate_exact (a ∷ rest) values = (
    λ h.
        let parts =
          and_then-errors (validate_attribute lib a values) (validate lib rest values) h in
        (validate_attribute-Accepts a values parts.0, (validate_exact rest values).0 parts.1),
    λ h. rw (Accepts-validate_attribute a values h.0, (validate_exact rest values).1 h.1),
  )
