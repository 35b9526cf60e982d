-- ===== src/Mastering/Master.antt =====
-- The master values of an entity and their provenance, as a whole (_master_values).
use recordlane.Base.{
  ℕ, String, ◌≡◌, ◌≢◌, inl, inr, Bool, true, false, none, some, List, [], ◌∷◌, arith, Dict, lookup,
  Option-cases, In,
}
use recordlane.Json.{Value}
use recordlane.Mastering.{Source, SourceObject, SourceRecord}
use recordlane.Mastering.Objects.{current_records}
use recordlane.Mastering.Survivor.{
  Survivorship, Provenance, choices, survivor, value_for, add_fields, fields_of, master_values,
}
use recordlane.Mastering.Fields.{lookup-add_fields, add_fields-found, has_text-fields_of}
use recordlane.Mastering.Winner.{choices-all}

abbrev pub has_value : String → SourceRecord → Bool
has_value field r = elim (value_for r field) [ none ↦ false | some v ↦ true ]

module _ (sources : List Source) (rules : Survivorship) (field : String) where
  module _ (version checksum : String) (records : List SourceRecord) where
    survivor-none :
        survivor rules version checksum sources records field ≡ some none
        → choices sources rules field records ≡ some []
    unfolding survivor
    survivor-none e = elim (Option-cases (choices sources rules field records)) [
      | inl q ↦ ground arith
      | inr ([], q) ↦ q
      | inr (c ∷ rest, q) ↦ ground arith
    ]

module _ (rules : Survivorship) (version checksum : String) (sources : List Source)
    (records : List SourceRecord) (values : Dict Value) (provenance : Dict Provenance)
    (field : String)
    (e : add_fields (survivor rules version checksum sources records) [] [] (fields_of records)
      ≡ some (values, provenance)) where
  -- Without a value in the result, an attribute has no choices.
  lookup-no_survivor :
      (r : SourceRecord) (w : Value)
      → In r records
      → value_for r field ≡ some w
      → lookup field values ≡ none
      → choices sources rules field records ≡ some []
  lookup-no_survivor r w member has missing =
      let find = survivor rules version checksum sources records in
      let (of_values, of_provenance) =
        lookup-add_fields find (fields_of records) [] [] values provenance field e in
      let listed = has_text-fields_of field records r w member has in
      elim (Option-cases (find field)) [
        | inl q ↦
            absurd (
              add_fields-found find (fields_of records) [] [] (values, provenance) field e listed q)
        | inr (none, q) ↦ survivor-none sources rules field version checksum records q
        | inr (some (v', p), q) ↦ ground (arith, of_values, listed)
      ]

-- An attribute is missing from the master values only if no current record of the entity has a value
-- for it.
pub master_values_complete :
    (rules : Survivorship) (version checksum : String) (sources : List Source)
    (all_records : List SourceRecord) (objects : List SourceObject) (entity_id : ℕ)
    (values : Dict Value) (provenance : Dict Provenance) (field : String) (r : SourceRecord)
    (w : Value)
    → master_values rules version checksum sources all_records objects entity_id
      ≡ some (values, provenance)
    → In r (current_records all_records objects (some entity_id))
    → value_for r field ≡ some w
    → lookup field values ≢ none
unfolding master_values
master_values_complete rules version checksum sources all_records objects entity_id values
      provenance field r w e member has missing =
    let records = current_records all_records objects (some entity_id) in
    let none_chosen =
      lookup-no_survivor rules version checksum sources records values provenance field e r w member
        has missing in
    let (c, in_none, chosen) =
      choices-all sources rules field records [] r w none_chosen member has in
    in_none
