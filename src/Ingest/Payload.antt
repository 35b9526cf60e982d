-- ===== src/Ingest/Payload.antt =====
-- What the body of ingest's loop reads of an observation: its source object, the record of its
-- version, and its values; _get_or_create_source_object.
use recordlane.Base.{
  ℕ, suc, String, Bool, true, false, not, ◌&&◌, ◌||◌, Option, none, some, List, [], ◌∷◌, ◌++◌, ◌==◌,
  ltb, opt_eq, if◌then◌else◌, str_eq, Dict, lookup, update_dict, length, all,
}
use recordlane.Http.{Result, ok, err}
use recordlane.Json.{Value, value_eq}
use recordlane.Policy.Validate.{
  ValidationError, Validated, errors, pattern_too_long, pattern_invalid,
}
use recordlane.Mastering.{
  RecordState, valid, superseded, quarantine, deleted, SourceObject, SourceRecord, IncomingRecord,
  UpdateMode, full, partial, CandidateBlock, MembershipHistory,
}
use recordlane.Mastering.Objects.{is_valid}
use recordlane.Review.{Store, change_where, find_first}
use recordlane.Ingest.{SourceObservationMeta, Digests}

-- The record or the object is one of this local identifier.
abbrev pub is_object : ℕ → String → String → SourceObject → Bool
is_object source_id domain_key local_id o =
    o.source_id == source_id && str_eq o.domain_key domain_key && str_eq o.local_id local_id

abbrev pub is_observation : ℕ → String → String → SourceRecord → Bool
is_observation source_id domain_key local_id r =
    r.source_id == source_id && str_eq r.domain_key domain_key && str_eq r.local_id local_id

-- `order_by(observed_at.desc(), id.desc())`, the first: the latest record that the test picks.
abbrev pub latest : (SourceRecord → Bool) → List SourceRecord → Option SourceRecord
latest p [] = none
latest p (r ∷ rest) = elim (latest p rest) [
  | none ↦ if p r then some r else none
  | some s ↦
      if p r
        && (ltb s.observed_at r.observed_at || (s.observed_at == r.observed_at && ltb s.id r.id))
      then some r
      else some s
]

abbrev pub is_deleted : RecordState → Bool
is_deleted deleted = true
is_deleted _ = false

-- The object of a local identifier that has none yet, from its latest record if there is one.
abbrev pub new_object : ℕ → ℕ → String → String → Option SourceRecord → SourceObject
new_object id source_id domain_key local_id legacy = record {
  id = id;
  source_id = source_id;
  domain_key = domain_key;
  local_id = local_id;
  entity_id = elim legacy [ none ↦ none | some r ↦ r.entity_id ];
  current_record_id = elim legacy [
    | none ↦ none
    | some r ↦ if is_valid r.state then some r.id else none
  ];
  latest_record_id = elim legacy [ none ↦ none | some r ↦ some r.id ];
  current_sequence = none;
  current_effective_from = none;
  retired = elim legacy [ none ↦ false | some r ↦ is_deleted r.state ];
}

-- The row of the history that an object with an entity starts with.
abbrev pub backfill : ℕ → ℕ → SourceObject → List MembershipHistory
backfill now id o = elim o.entity_id [
  | none ↦ []
  | some e ↦
      record {
        id = id;
        source_object_id = o.id;
        entity_id = e;
        valid_from = now;
        valid_to = none;
        reason = "legacy_backfill";
        changed_by = "recordlane-migration";
      }
      ∷ []
]

unfoldable pub get_or_create_source_object :
    {F : Type 0} → ℕ → ℕ → String → String → Store F → SourceObject × Store F
get_or_create_source_object now source_id domain_key local_id store =
    elim (find_first (is_object source_id domain_key local_id) store.objects) [
      | some o ↦ (o, store)
      | none ↦
          let legacy = latest (is_observation source_id domain_key local_id) store.records in
          let o = new_object store.next source_id domain_key local_id legacy in
          (
            o,
            record store {
              next = suc (suc store.next);
              objects = store.objects ++ o ∷ [];
              history = store.history ++ backfill now (suc store.next) o;
            },
          )
    ]

-- `a == b` of dicts, of optional numbers and of Booleans
abbrev pub same_values : Dict Value → Dict Value → Bool
same_values a b =
    (length a == length b)
    && all (λ e. elim (lookup e.0 b) [ none ↦ false | some v ↦ value_eq e.1 v ]) a

abbrev pub same_bool : Bool → Bool → Bool
same_bool true b = b
same_bool false b = not b

abbrev pub same_verification : Dict Bool → Dict Bool → Bool
same_verification a b =
    (length a == length b)
    && all (λ e. elim (lookup e.0 b) [ none ↦ false | some v ↦ same_bool e.1 v ]) a

abbrev pub is_partial : UpdateMode → Bool
is_partial partial = true
is_partial full = false

-- `same_legacy_payload`, of a record that has no meta row
abbrev pub same_legacy : SourceRecord → IncomingRecord → Bool
same_legacy r item =
    not (is_partial item.update_mode)
    && same_values r.original item.values
    && same_verification r.verification item.verification
    && opt_eq r.effective_from item.effective_from
    && same_bool (is_deleted r.state) item.deleted

abbrev pub find_meta : ℕ → List SourceObservationMeta → Option SourceObservationMeta
find_meta record_id metas = find_first (λ m. m.record_id == record_id) metas

-- The record of the same version has the same payload.
unfoldable pub same_payload :
    Digests → IncomingRecord → SourceRecord → List SourceObservationMeta → Bool
same_payload digests item r metas = elim (find_meta r.id metas) [
  | some m ↦ str_eq m.payload_hash (digests.payload_hash item)
  | none ↦ same_legacy r item
]

abbrev pub is_version : ℕ → String → IncomingRecord → SourceRecord → Bool
is_version source_id domain_key item r =
    is_observation source_id domain_key item.local_id r && str_eq r.source_version item.version

-- The values of the current record, if there is one.
abbrev pub current_values : SourceObject → List SourceRecord → Dict Value
current_values o records = elim o.current_record_id [
  | none ↦ []
  | some id ↦ elim (find_first (λ r. r.id == id) records) [ none ↦ [] | some r ↦ r.original ]
]

-- The values of the observation: a partial one changes those of the current record.
unfoldable pub merged_values : SourceObject → IncomingRecord → List SourceRecord → Dict Value
merged_values o item records =
    update_dict (if is_partial item.update_mode then current_values o records else []) item.values

abbrev pub has_errors : List ValidationError → Bool
has_errors [] = false
has_errors (_ ∷ _) = true

-- Whether there are quality errors, or the exception of a pattern.
abbrev pub failed : Validated → Result Bool
failed (errors es) = ok (has_errors es)
failed (pattern_too_long key) = err 500 "PolicyError"
failed pattern_invalid = err 500 "error"

abbrev pub state_of : IncomingRecord → Bool → Bool → RecordState
state_of item failed is_current =
    if item.deleted
    then deleted
    else if failed
    then quarantine
    else if is_current
    then valid
    else superseded

abbrev pub blocks_of : ℕ → ℕ → List String → List CandidateBlock
blocks_of object_id record_id [] = []
blocks_of object_id record_id (k ∷ rest) =
    record { source_object_id = object_id; record_id = record_id; block_key = k }
    ∷ blocks_of object_id record_id rest

abbrev pub write_object : SourceObject → List SourceObject → List SourceObject
write_object o objects = change_where (λ p. p.id == o.id) (λ p. o) objects

-- `record.entity_id = …`
abbrev pub assign : ℕ → Option ℕ → List SourceRecord → List SourceRecord
assign record_id entity_id records =
    change_where (λ r. r.id == record_id) (λ r. record r { entity_id = entity_id }) records
