-- ===== src/Mastering/Survivor.antt =====
-- _master_values of mastering/service.py: for every attribute, the value that survives among the
-- entity's current records, and where it comes from. An exception of the source is `none`.
use Prim.Native.String.{◌++◌ as concat}
use recordlane.Base.{
  insert_text, ℕ, suc, ◌+◌, String, Bool, true, false, Option, none, some, List, [], ◌∷◌, ltb, ◌==◌,
  if◌then◌else◌, str_eq, length, Dict, lookup, insert,
}
use recordlane.Json.{Value, null}
use recordlane.Policy.{
  SurvivorStrategy, source_priority_then_observation_time,
  verified_then_source_priority_then_observation_time, SurvivorRule, named, detailed,
}
use recordlane.Policy.Blocking.{truncate}
use recordlane.Mastering.{Source, SourceObject, SourceRecord}
use recordlane.Mastering.Objects.{current_records}

abbrev pub Survivorship : Type 0
Survivorship = Dict SurvivorRule

-- `strategy.startswith("verified")`
abbrev pub verified_first : SurvivorStrategy → Bool
verified_first source_priority_then_observation_time = false
verified_first verified_then_source_priority_then_observation_time = true

abbrev pub rank_of : SurvivorStrategy → ℕ
rank_of s = if verified_first s then 1 else 0

abbrev pub strategy_of : SurvivorRule → SurvivorStrategy
strategy_of (named s) = s
strategy_of (detailed s _) = s

-- The rule that the provenance names: the attribute's, or the default.
unfoldable pub rule_name : Survivorship → String → SurvivorStrategy
rule_name rules field = elim (lookup field rules) [
  | some r ↦ strategy_of r
  | none ↦ elim (lookup "default" rules) [
    | some r ↦ strategy_of r
    | none ↦ source_priority_then_observation_time
  ]
]

-- `field_rule.get("source_precedence", [])`, of the attribute's own rule only
abbrev pub precedence_of : Option SurvivorRule → List String
precedence_of (some (detailed _ p)) = p
precedence_of _ = []

-- What the rank of a source is negated from: its place in the precedence, or else its priority
-- after all of those. The lowest is preferred.
unfoldable pub source_cost : List String → ℕ → Source → ℕ
source_cost [] passed source = passed + source.priority
source_cost (key ∷ rest) passed source =
    let later = source_cost rest (suc passed) source in
    if str_eq key source.key then passed else later

-- The strategy whose name is tested for a verified value. There is none to test, and the test
-- raises, where the attribute has no rule and the default is an object.
unfoldable pub verified_rank : Survivorship → String → Bool → Option ℕ
verified_rank rules field false = some 0
verified_rank rules field true = elim (lookup field rules) [
  | some r ↦ some (rank_of (strategy_of r))
  | none ↦ elim (lookup "default" rules) [
    | none ↦ some 0
    | some (named s) ↦ some (rank_of s)
    | some (detailed _ _) ↦ none
  ]
]

-- A value that may survive, with what ranks it.
pub record Choice : Type 0 where
  pub verified_rank : ℕ
  pub cost : ℕ
  pub value : Value
  pub origin : SourceRecord
  pub source : Source

abbrev pub find_source : ℕ → List Source → Option Source
find_source id [] = none
find_source id (s ∷ rest) = if s.id == id then some s else find_source id rest

-- `bool(record.verification.get(field))`
abbrev pub is_verified : SourceRecord → String → Bool
is_verified r field = elim (lookup field r.verification) [ none ↦ false | some b ↦ b ]

-- `record.original[field]`, unless it is missing or null
abbrev pub value_for : SourceRecord → String → Option Value
value_for r field = elim (lookup field r.original) [
  | none ↦ none
  | some null ↦ none
  | some v ↦ some v
]

-- The choice that a record with a value is.
unfoldable pub choice : List Source → Survivorship → String → SourceRecord → Value → Option Choice
unfolding source_cost verified_rank
choice sources rules field r v = elim (find_source r.source_id sources) [
  | none ↦ none
  | some source ↦ elim (verified_rank rules field (is_verified r field)) [
    | none ↦ none
    | some rank ↦ some (record {
      verified_rank = rank;
      cost = source_cost (precedence_of (lookup field rules)) 0 source;
      value = v;
      origin = r;
      source = source;
    })
  ]
]

-- The loop over the records: `options`.
unfoldable pub choices :
    List Source → Survivorship → String → List SourceRecord → Option (List Choice)
unfolding choice
choices sources rules field [] = some []
choices sources rules field (r ∷ rest) =
    let more = choices sources rules field rest in
    elim (value_for r field) [
      | none ↦ more
      | some v ↦ elim (choice sources rules field r v) [
        | none ↦ none
        | some c ↦ elim more [ none ↦ none | some cs ↦ some (c ∷ cs) ]
      ]
    ]

-- The key of `b` is greater than the key of `a`: verified first, then the source, then the later
-- observation, then the record's identifier.
unfoldable pub is_better : Choice → Choice → Bool
is_better b a =
    if ltb a.verified_rank b.verified_rank
    then true
    else if ltb b.verified_rank a.verified_rank
    then false
    else if ltb b.cost a.cost
    then true
    else if ltb a.cost b.cost
    then false
    else if ltb a.origin.observed_at b.origin.observed_at
    then true
    else if ltb b.origin.observed_at a.origin.observed_at
    then false
    else ltb a.origin.id b.origin.id

-- `max(options, key=…)`, the first of equals
unfoldable pub best : Choice → List Choice → Choice
unfolding is_better
best c [] = c
best c (d ∷ rest) = best (if is_better d c then d else c) rest

pub record Provenance : Type 0 where
  pub source : String
  pub source_key : String
  pub source_record_id : ℕ
  pub source_version : String
  pub verified : Bool
  pub rule : SurvivorStrategy
  pub rule_version : String
  pub observed_at : ℕ
  pub alternatives : ℕ

-- `policy:{version}:{checksum[:12]}`
abbrev pub rule_version_of : String → String → String
rule_version_of version checksum =
    concat "policy:" (concat version (concat ":" (truncate 12 checksum)))

-- `observed_at` is the time that isoformat writes.
unfoldable pub provenance_of : Survivorship → String → String → String → Choice → ℕ → Provenance
unfolding rule_name
provenance_of rules version checksum field c alternatives = record {
  source = c.source.name;
  source_key = c.source.key;
  source_record_id = c.origin.id;
  source_version = c.origin.source_version;
  verified = is_verified c.origin field;
  rule = rule_name rules field;
  rule_version = rule_version_of version checksum;
  observed_at = c.origin.observed_at;
  alternatives = alternatives;
}

-- What the loop body adds for one attribute.
unfoldable pub survivor :
    Survivorship
    → String
    → String
    → List Source
    → List SourceRecord
    → String
    → Option (Option (Value × Provenance))
unfolding choices best provenance_of
survivor rules version checksum sources records field = elim (choices sources rules field records) [
  | none ↦ none
  | some [] ↦ some none
  | some (c ∷ rest) ↦
      let winner = best c rest in
      some (some (winner.value, provenance_of rules version checksum field winner (length rest)))
]

-- `sorted({…})`, with one record's keys more
abbrev pub insert_texts : Dict Value → List String → List String
insert_texts [] l = l
insert_texts (entry ∷ rest) l = insert_text entry.0 (insert_texts rest l)

unfoldable pub fields_of : List SourceRecord → List String
fields_of [] = []
fields_of (r ∷ rest) = insert_texts r.original (fields_of rest)

unfoldable pub add_fields :
    (String → Option (Option (Value × Provenance)))
    → Dict Value
    → Dict Provenance
    → List String
    → Option (Dict Value × Dict Provenance)
add_fields find values provenance [] = some (values, provenance)
add_fields find values provenance (f ∷ rest) =
    let skipped = add_fields find values provenance rest in
    elim (find f) [
      | none ↦ none
      | some none ↦ skipped
      | some (some (v, p)) ↦ add_fields find (insert f v values) (insert f p provenance) rest
    ]

-- The master values of an entity and their provenance.
unfoldable pub master_values :
    Survivorship
    → String
    → String
    → List Source
    → List SourceRecord
    → List SourceObject
    → ℕ
    → Option (Dict Value × Dict Provenance)
unfolding survivor fields_of add_fields current_records
master_values rules version checksum sources all_records objects entity_id =
    let records = current_records all_records objects (some entity_id) in
    add_fields (survivor rules version checksum sources records) [] [] (fields_of records)
