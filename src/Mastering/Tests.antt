-- ===== src/Mastering/Tests.antt =====
-- The theorems about mastering at the observations of Samples.
use recordlane.Base.{
  ℕ, String, ◌≡◌, ◌≢◌, refl, sym, ap, ◌∙◌, inl, inr, true, false, Option, none, some, List, [], ◌∷◌,
  arith, leb, Dict, lookup, In,
}
use recordlane.Json.{Value, str, value_eq}
use recordlane.Policy.{verified_then_source_priority_then_observation_time, named, detailed}
use recordlane.Policy.Samples.{plain, counting}
use recordlane.Policy.Compare.{auto_link, compare}
use recordlane.Mastering.{SourceObject, SourceRecord, full, IncomingRecord, CannotLink, Entity}
use recordlane.Mastering.Samples.{
  erp, crm, values, erp_record, crm_record, erp_object, crm_object, membership, bergen_record,
  bergen_object, supplier, block, policy,
}
use recordlane.Mastering.Objects.{set_membership, is_cannot_link, current_records}
use recordlane.Mastering.Membership.{IsTracked, set_membership-IsTracked}
use recordlane.Mastering.Ordering.{Observation, observe_all, sequence_is_highest}
use recordlane.Mastering.Survivor.{
  Survivorship, Choice, Provenance, best, provenance_of, master_values,
}
use recordlane.Mastering.Winner.{winner_ignores_order}
use recordlane.Mastering.Master.{master_values_complete}
use recordlane.Mastering.Raises.{detailed_default_raises}
use recordlane.Mastering.Resolve.{
  CandidateRow, candidate_rows, compare_records, resolve, resolved, linked, created, bump, eligible,
  Best,
}
use recordlane.Mastering.Candidates.{IsCandidateRow}
use recordlane.Mastering.Linking.{linked_is_safe}
use recordlane.Mastering.Highest.{ScoreOrder, IdsAreUnique, linked_is_highest}

set_membership-IsTracked_example :
    let (o', history') = set_membership 9 2 "reviewer" 6 "split" erp_object (membership ∷ []) in
    (o'.entity_id ≡ some 6) × IsTracked o' history'
set_membership-IsTracked_example =
    set_membership-IsTracked 9 2 "reviewer" 6 "split" erp_object (membership ∷ [])
      (membership, refl, refl)

abbrev update_of : Option ℕ → IncomingRecord
update_of sequence = record {
  local_id = "A";
  version = "2";
  values = values;
  verification = [];
  effective_from = none;
  sequence = sequence;
  update_mode = full;
  deleted = false;
}

abbrev fourth : Observation
fourth = record { record_id = 31; has_errors = false; item = update_of (some 4) }

abbrev seventh : Observation
seventh = record { record_id = 32; has_errors = false; item = update_of (some 7) }

abbrev unsequenced : Observation
unsequenced = record { record_id = 33; has_errors = false; item = update_of none }

sequence_is_highest_example :
    (observe_all erp_object (seventh ∷ fourth ∷ [])).current_sequence ≡ some 7
sequence_is_highest_example =
    sequence_is_highest erp_object 3 (seventh ∷ fourth ∷ []) refl ((λ e. cc), ((λ e. cc), tt))

abbrev rules : Survivorship
rules = ("default", named verified_then_source_priority_then_observation_time) ∷ []

abbrev all_records : List SourceRecord
all_records = erp_record ∷ crm_record ∷ []

abbrev all_objects : List SourceObject
all_objects = erp_object ∷ crm_object ∷ []

-- The second source's record contributes to the entity.
crm_is_current : In crm_record (current_records all_records all_objects (some 5))
unfolding current_records
crm_is_current = inr (inl refl)

-- The choice of the second source for a field that only it has, or has verified.
abbrev chosen : ℕ → Value → Choice
chosen rank v = record {
  verified_rank = rank;
  cost = 60;
  value = v;
  origin = crm_record;
  source = crm;
}

abbrev origin : String → ℕ → Choice → Provenance
origin field n c = provenance_of rules "1" "0123456789abcdef" field c n

-- The verified name survives, though its source comes later.
survivors :
    master_values rules "1" "0123456789abcdef" (erp ∷ crm ∷ []) all_records all_objects 5
    ≡ some (
      ("city", str "Oslo") ∷ ("name", str "ACME Ltd") ∷ [],
      ("city", origin "city" 0 (chosen 0 (str "Oslo")))
          ∷ ("name", origin "name" 1 (chosen 1 (str "ACME Ltd")))
          ∷ [],
    )
unfolding master_values
survivors = refl

abbrev master_of : Dict Value
master_of = ("city", str "Oslo") ∷ ("name", str "ACME Ltd") ∷ []

abbrev provenance : Dict Provenance
provenance =
    ("city", origin "city" 0 (chosen 0 (str "Oslo")))
    ∷ ("name", origin "name" 1 (chosen 1 (str "ACME Ltd")))
    ∷ []

abbrev current : List SourceRecord
current = current_records all_records all_objects (some 5)

master_values_complete_example : lookup "city" master_of ≢ none
master_values_complete_example =
    master_values_complete rules "1" "0123456789abcdef" (erp ∷ crm ∷ []) all_records all_objects 5
      master_of provenance "city" crm_record (str "Oslo") survivors crm_is_current refl

abbrev detailed_rules : Survivorship
detailed_rules =
    ("default", detailed verified_then_source_priority_then_observation_time ("erp" ∷ [])) ∷ []

detailed_default_raises_example :
    master_values detailed_rules "1" "0123456789abcdef" (erp ∷ crm ∷ []) all_records all_objects 5
    ≡ none
detailed_default_raises_example =
    detailed_default_raises detailed_rules "1" "0123456789abcdef" (erp ∷ crm ∷ []) all_records
      all_objects 5 "name" crm_record (str "ACME Ltd")
      verified_then_source_priority_then_observation_time ("erp" ∷ []) refl refl crm_is_current refl
      refl

abbrev erp_choice : Choice
erp_choice = record (chosen 0 (str "Acme")) { cost = 10; origin = erp_record; source = erp }

swap : {A : Type 0} {a b : A} (x : A) → In x (a ∷ b ∷ []) → In x (b ∷ a ∷ [])
swap x (inl e) = inr (inl e)
swap x (inr (inl e)) = inl e
swap x (inr (inr e)) = absurd e

-- Of two rows with different numbers, the number tells which.
pair_apart :
    {A : Type 0} (id : A → ℕ) (a b x y : A)
    → id a ≢ id b
    → In x (a ∷ b ∷ [])
    → In y (a ∷ b ∷ [])
    → id x ≡ id y
    → x ≡ y
pair_apart id a b x y ne (inl e) (inl f) q = e ∙ sym f
pair_apart id a b x y ne (inr (inl e)) (inr (inl f)) q = e ∙ sym f
pair_apart id a b x y ne (inl e) (inr (inl f)) q = absurd (ne (sym (ap id e) ∙ q ∙ ap id f))
pair_apart id a b x y ne (inr (inl e)) (inl f) q = absurd (ne (sym (ap id f) ∙ sym q ∙ ap id e))
pair_apart id a b x y ne (inr (inr e)) n q = absurd e
pair_apart id a b x y ne m (inr (inr f)) q = absurd f

winner_ignores_order_example :
    best erp_choice (chosen 0 (str "ACME Ltd") ∷ [])
    ≡ best (chosen 0 (str "ACME Ltd")) (erp_choice ∷ [])
winner_ignores_order_example =
    winner_ignores_order erp_choice (chosen 0 (str "ACME Ltd")) (chosen 0 (str "ACME Ltd") ∷ [])
      (erp_choice ∷ []) (λ x. (swap x, swap x))
      (λ x y.
        pair_apart (λ c. c.origin.id) erp_choice (chosen 0 (str "ACME Ltd")) x y (λ e. omega arith))

-- Numbers are ordered scores.
counting-ScoreOrder : ScoreOrder counting
counting-ScoreOrder = record {
  le_refl = λ a. ground arith;
  le_trans = λ a b c p q. ground arith;
  le_total = λ a b p. ground arith;
}

supplier_is_linked :
    resolve plain counting policy [] all_objects all_records bergen_record bergen_object 6 "rl_2"
      ("p0|name=acme" ∷ [])
      (block ∷ [])
      (supplier ∷ [])
    ≡ resolved 5 linked (bump 5 (supplier ∷ []))
unfolding resolve compare value_eq current_records is_cannot_link
supplier_is_linked = refl

linked_is_safe_example :
    ((c : SourceRecord) × (o : SourceObject) × IsCandidateRow
        ("p0|name=acme" ∷ [])
        (block ∷ [])
        all_objects
        all_records
        bergen_record
        (c, o)
      × (o.entity_id ≡ some 5)
      × (is_cannot_link [] 23 o.id ≡ false)
      × ((compare_records plain counting policy bergen_record c).decision ≡ auto_link))
    × ((m : SourceRecord)
        → In m current
        → (compare_records plain counting policy bergen_record m).contradictions ≡ [])
    × (bump 5 (supplier ∷ []) ≡ bump 5 (supplier ∷ []))
linked_is_safe_example =
    linked_is_safe plain counting policy [] all_objects all_records bergen_record bergen_object 6
      "rl_2" ("p0|name=acme" ∷ []) (block ∷ []) (supplier ∷ []) 5 (bump 5 (supplier ∷ []))
      supplier_is_linked

ids_are_unique : IdsAreUnique all_objects all_records
ids_are_unique = (
  λ o p. pair_apart (λ x. x.id) erp_object crm_object o p (λ e. omega arith),
  λ r s. pair_apart (λ x. x.id) erp_record crm_record r s (λ e. omega arith),
)

linked_is_highest_example :
    let rows =
      candidate_rows ("p0|name=acme" ∷ []) (block ∷ []) all_objects all_records bergen_record in
    let offer =
      eligible plain counting policy [] all_objects all_records bergen_record bergen_object in
    (row : CandidateRow) × (b : Best ℕ) × In row rows
    × (offer row ≡ some b)
    × (b.entity_id ≡ 5)
    × ((other : CandidateRow) (d : Best ℕ)
        → In other rows
        → offer other ≡ some d
        → leb d.pair.score b.pair.score ≡ true)
linked_is_highest_example =
    linked_is_highest plain counting policy [] all_objects all_records bergen_record bergen_object 6
      "rl_2" ("p0|name=acme" ∷ []) (block ∷ []) (supplier ∷ []) 5 (bump 5 (supplier ∷ []))
      counting-ScoreOrder ids_are_unique supplier_is_linked

abbrev kept_apart : List CannotLink
kept_apart =
    record {
      left_object_id = 21;
      right_object_id = 23;
      reason = "not the same";
      created_by = "reviewer";
    }
    ∷ []

abbrev bergen : Entity
bergen = record supplier { id = 6; stable_key = "rl_2" }

supplier_is_created :
    resolve plain counting policy kept_apart all_objects all_records bergen_record bergen_object 6
      "rl_2"
      ("p0|name=acme" ∷ [])
      (block ∷ [])
      (supplier ∷ [])
    ≡ resolved 6 created (supplier ∷ bergen ∷ [])
unfolding resolve compare value_eq current_records is_cannot_link
supplier_is_created = refl

erp_is_candidate :
    In
      (erp_record, erp_object)
      (candidate_rows ("p0|name=acme" ∷ []) (block ∷ []) all_objects all_records bergen_record)
unfolding candidate_rows
erp_is_candidate = inl refl
