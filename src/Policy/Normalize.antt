-- ===== src/Policy/Normalize.antt =====
-- _text and CompiledPolicy.normalize of policy.py.
use recordlane.Base.{
  keys, ap, String, ◌≡◌, refl, Bool, true, false, Option, none, some, List, [], ◌∷◌, arith, str_eq,
  if◌then◌else◌, Dict, lookup, str_eq_iff,
}
use recordlane.Json.{Value, Elements, str, null, list, no_elements, element}
use recordlane.Policy.{
  Library, Kind, string, reference, decimal, Normalizer, preserve, uppercase_trim, unicode_casefold,
  Attribute,
}

-- `{item["key"]: item for item in attributes}.get(key)`: the last attribute of a key counts.
abbrev pub attribute_of : String → List Attribute → Option Attribute
attribute_of key [] = none
attribute_of key (a ∷ rest) = elim (attribute_of key rest) [
  | some b ↦ some b
  | none ↦ if str_eq a.key key then some a else none
]

module _ (lib : Library) where
  unfoldable pub text : String → Normalizer → String
  text value mode =
      let cleaned = lib.collapse (lib.strip (lib.nfkc value)) in
      elim mode [
        | preserve ↦ cleaned
        | uppercase_trim ↦ lib.upper cleaned
        | unicode_casefold ↦ lib.casefold cleaned
      ]

  unfoldable pub text_elements : Normalizer → Elements → Elements
  unfolding text
  text_elements mode no_elements = no_elements
  text_elements mode (element (str s) rest) = element (str (text s mode)) (text_elements mode rest)
  text_elements mode (element v rest) = element v (text_elements mode rest)

-- `attribute.get("type", "string")`
abbrev pub kind_of : Attribute → Kind
kind_of a = elim a.type [ none ↦ string | some k ↦ k ]

abbrev is_text : Kind → Bool
is_text string = true
is_text reference = true
is_text _ = false

abbrev pub is_decimal : Kind → Bool
is_decimal decimal = true
is_decimal _ = false

-- The normalizer of a text, and of a list of texts.
abbrev pub text_mode : Attribute → Normalizer
text_mode a = elim a.normalizer [
  | some n ↦ n
  | none ↦ if is_text (kind_of a) then unicode_casefold else preserve
]

abbrev pub list_mode : Attribute → Normalizer
list_mode a = elim a.normalizer [ some n ↦ n | none ↦ unicode_casefold ]

module _ (lib : Library) where
  abbrev normalize_plain : Attribute → Value → Value
  unfolding text text_elements
  normalize_plain a (str s) = str (text lib s (text_mode a))
  normalize_plain a (list xs) = list (text_elements lib (list_mode a) xs)
  normalize_plain a v = v

  abbrev normalize_decimal : Value → Value
  normalize_decimal v = elim (lib.decimal (lib.to_text v)) [ none ↦ v | some s ↦ str s ]

  -- One value, under its attribute if the policy has one for its key.
  unfoldable pub normalize_value : Option Attribute → Value → Value
  unfolding text text_elements
  normalize_value o null = null
  normalize_value none v = v
  normalize_value (some a) v =
      if is_decimal (kind_of a) then normalize_decimal v else normalize_plain a v

  unfoldable pub normalize : List Attribute → Dict Value → Dict Value
  unfolding normalize_value
  normalize attributes [] = []
  normalize attributes (entry ∷ rest) =
      (entry.0, normalize_value (attribute_of entry.0 attributes) entry.1)
      ∷ normalize attributes rest

  lookup-normalize :
      (attributes : List Attribute) (key : String) (values : Dict Value)
      → lookup key (normalize attributes values) ≡ elim (lookup key values) [
        | none ↦ none
        | some v ↦ some (normalize_value (attribute_of key attributes) v)
      ]
  unfolding normalize
  lookup-normalize attributes key [] = refl
  lookup-normalize attributes key (entry ∷ rest) =
      ground (arith, lookup-normalize attributes key rest, str_eq_iff entry.0 key)

  keys-normalize :
      (attributes : List Attribute) (values : Dict Value)
      → keys (normalize attributes values) ≡ keys values
  unfolding normalize
  keys-normalize attributes [] = refl
  keys-normalize attributes (entry ∷ rest) =
      ap (λ ks. entry.0 ∷ ks) (keys-normalize attributes rest)

  -- normalize keeps the keys in their order and treats each value by itself: a lookup of the result
  -- is the lookup of the original, normalized under the attribute of its key; a missing key stays
  -- missing and a null stays a null.
  pub normalize_pointwise :
      (attributes : List Attribute) (key : String) (values : Dict Value)
      → (keys (normalize attributes values) ≡ keys values)
        × (lookup key (normalize attributes values) ≡ elim (lookup key values) [
          | none ↦ none
          | some v ↦ some (normalize_value (attribute_of key attributes) v)
        ])
        × (lookup key values ≡ some null → lookup key (normalize attributes values) ≡ some null)
  unfolding normalize_value
  normalize_pointwise attributes key values = (
    keys-normalize attributes values,
    lookup-normalize attributes key values,
    λ e. rw (lookup-normalize attributes key values, e) refl,
  )
