-- ===== src/Mastering/Raises.antt =====
-- Where _master_values raises.
use recordlane.Base.{
  ℕ, String, ◌≡◌, refl, sym, ap, ◌∙◌, inl, inr, true, none, some, List, [], ◌∷◌, arith, lookup,
  Option-cases, In,
}
use recordlane.Json.{Value}
use recordlane.Policy.{SurvivorStrategy, detailed}
use recordlane.Mastering.{Source, SourceObject, SourceRecord}
use recordlane.Mastering.Objects.{current_records}
use recordlane.Mastering.Survivor.{
  Survivorship, choice, choices, survivor, value_for, is_verified, verified_rank, find_source,
  add_fields, fields_of, master_values,
}
use recordlane.Mastering.Fields.{add_fields-found, has_text-fields_of}

choices-raise :
    (sources : List Source) (rules : Survivorship) (field : String) (records : List SourceRecord)
    (r : SourceRecord) (v : Value)
    → In r records
    → value_for r field ≡ some v
    → choice sources rules field r v ≡ none
    → choices sources rules field records ≡ none
unfolding choices
choices-raise sources rules field [] r v m e f = absurd m
choices-raise sources rules field (s ∷ rest) r v (inl here) e f =
    let e' : value_for s field ≡ some v = ap (λ x. value_for x field) (sym here) ∙ e in
    let f' : choice sources rules field s v ≡ none =
      ap (λ x. choice sources rules field x v) (sym here) ∙ f in
    rw (e', f', choices) refl
choices-raise sources rules field (s ∷ rest) r v (inr m) e f =
    let ih = choices-raise sources rules field rest r v m e f in
    elim (Option-cases (value_for s field)) [
      | inl q ↦ rw (q, choices) ih
      | inr (w, q) ↦ elim (Option-cases (choice sources rules field s w)) [
        | inl g ↦ rw (q, g, choices) refl
        | inr (c, g) ↦ rw (q, g, ih, choices) refl
      ]
    ]

choice-raise :
    (sources : List Source) (rules : Survivorship) (field : String) (r : SourceRecord) (v : Value)
    (strategy : SurvivorStrategy) (precedence : List String)
    → lookup field rules ≡ none
    → lookup "default" rules ≡ some (detailed strategy precedence)
    → is_verified r field ≡ true
    → choice sources rules field r v ≡ none
unfolding choice verified_rank
choice-raise sources rules field r v strategy precedence e d q =
    elim (Option-cases (find_source r.source_id sources)) [
      | inl f ↦ ground arith
      | inr (s, f) ↦ ground arith
    ]

-- Where the default rule is an object, a verified value of a current record for an attribute
-- without a rule of its own makes the whole computation raise.
pub detailed_default_raises :
    (rules : Survivorship) (version checksum : String) (sources : List Source)
    (all_records : List SourceRecord) (objects : List SourceObject) (entity_id : ℕ) (field : String)
    (r : SourceRecord) (v : Value) (strategy : SurvivorStrategy) (precedence : List String)
    → lookup field rules ≡ none
    → lookup "default" rules ≡ some (detailed strategy precedence)
    → In r (current_records all_records objects (some entity_id))
    → value_for r field ≡ some v
    → is_verified r field ≡ true
    → master_values rules version checksum sources all_records objects entity_id ≡ none
unfolding master_values survivor
detailed_default_raises rules version checksum sources all_records objects entity_id field r v
      strategy precedence e d m has verified =
    let records = current_records all_records objects (some entity_id) in
    let find = survivor rules version checksum sources records in
    let raised =
      choices-raise sources rules field records r v m has
        (choice-raise sources rules field r v strategy precedence e d verified) in
    let raised' : find field ≡ none = rw (raised, survivor) refl in
    elim (Option-cases (add_fields find [] [] (fields_of records))) [
      | inl q ↦ q
      | inr (result, q) ↦ absurd (
          add_fields-found find (fields_of records) [] [] result field q
            (has_text-fields_of field records r v m has) raised')
    ]
