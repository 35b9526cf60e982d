-- ===== src/Policy/Tests.antt =====
-- The policy at small inputs, and the theorems there. The library functions are stood in for by
-- simple ones, and the floats by the natural numbers.
use recordlane.Base.{ℕ, ◌≡◌, ◌↔◌, refl, true, none, some, [], ◌∷◌, Dict, In}
use recordlane.Json.{Value, value_eq, str, null}
use recordlane.Policy.{Attribute, Identifier, Strategy, exact, weighted_score, Matching}
use recordlane.Policy.Samples.{plain, counting, tax_id}
use recordlane.Policy.Validate.{errors, validate, validate_exact, Accepts}
use recordlane.Policy.Blocking.{blocking_keys}
use recordlane.Policy.Compare.{keep_separate, compare}
use recordlane.Policy.Decision.{HardConflict, keep_separate_exact}

abbrev name_attribute : Attribute
name_attribute = record {
  key = "name";
  name = "Name";
  type = none;
  required = true;
  allowed_values = none;
  pattern = some "ACME";
  normalizer = none;
  read_roles = [];
  write_roles = [];
}

abbrev supplier : Dict Value
supplier = ("name", str "ACME") ∷ ("tax_id", str "1") ∷ ("city", null) ∷ []

validate_exact_example :
    (validate plain (name_attribute ∷ []) supplier ≡ errors [])
    ↔ (Accepts plain name_attribute supplier × Unit {0})
validate_exact_example = validate_exact plain (name_attribute ∷ []) supplier

supplier_is_valid : validate plain (name_attribute ∷ []) supplier ≡ errors []
unfolding validate
supplier_is_valid = refl

abbrev by_tax_id : Strategy
by_tax_id = record { fields = "tax_id" ∷ []; prefix = some (record { field = "name"; length = 2 }) }

abbrev other_city : Dict Value
other_city = ("name", str "ACME") ∷ ("tax_id", str "1") ∷ ("city", str "Oslo") ∷ []

supplier_key : blocking_keys plain (by_tax_id ∷ []) supplier ≡ "p0|tax_id=1|name^=AC" ∷ []
unfolding blocking_keys
supplier_key = refl

abbrev nameless : Dict Value
nameless = ("name", null) ∷ []

abbrev nameless_city : Dict Value
nameless_city = ("name", null) ∷ ("city", str "Oslo") ∷ []

abbrev matching : Matching ℕ
matching = record {
  algorithm = weighted_score;
  prior_match_probability = 0;
  blocking = by_tax_id ∷ [];
  comparisons =
      record {
        field = "name";
        comparator = exact;
        weight = 1;
        missing_score = none;
        m_probability = 0;
        u_probability = 0;
      }
      ∷ [];
  review = 2;
  auto_link = 2;
}

abbrev other_tax : Dict Value
other_tax = ("name", str "ACME") ∷ ("tax_id", str "2") ∷ []

keep_separate_exact_example :
    ((compare plain counting (tax_id ∷ []) matching supplier other_tax).decision ≡ keep_separate)
    ↔ ((i : Identifier) × In i (tax_id ∷ []) × HardConflict i supplier other_tax)
keep_separate_exact_example =
    keep_separate_exact plain counting (tax_id ∷ []) matching supplier other_tax

taxes_conflict :
    (compare plain counting (tax_id ∷ []) matching supplier other_tax).decision ≡ keep_separate
unfolding compare value_eq
taxes_conflict = refl
