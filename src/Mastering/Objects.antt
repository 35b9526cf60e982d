-- ===== src/Mastering/Objects.antt =====
-- _observation_is_current, _set_membership, _is_cannot_link and _current_records of
-- mastering/service.py, and the lines of ingest that make an observation the current one.
use recordlane.Base.{
  ℕ, String, Bool, true, false, not, ◌&&◌, Option, none, some, List, [], ◌∷◌, ◌++◌, ltb, leb, ◌==◌,
  if◌then◌else◌, any, select, opt_eq,
}
use recordlane.Mastering.{
  RecordState, valid, SourceObject, SourceRecord, IncomingRecord, MembershipHistory, CannotLink,
}

-- Sequence numbers decide where both sides have one, effective times where the observation has no
-- sequence number.
unfoldable pub observation_is_current : SourceObject → IncomingRecord → Bool
observation_is_current o item = elim item.sequence [
  | some s ↦ elim o.current_sequence [ some c ↦ ltb c s | none ↦ true ]
  | none ↦ elim item.effective_from [
    | none ↦ true
    | some e ↦ elim o.current_effective_from [ some c ↦ ltb c e | none ↦ true ]
  ]
]

-- What ingest writes to the object of an observation, by whether it is current: its position, and
-- the record, or the retirement if the observation is a deletion.
unfoldable pub make_current : ℕ → IncomingRecord → SourceObject → SourceObject
make_current record_id item o = record o {
  latest_record_id = some record_id;
  current_sequence = item.sequence;
  current_effective_from = item.effective_from;
  current_record_id = if item.deleted then none else some record_id;
  retired = item.deleted;
}

-- The object after an observation, by whether its values have errors.
unfoldable pub observe : SourceObject → ℕ → Bool → IncomingRecord → SourceObject
unfolding observation_is_current make_current
observe o record_id has_errors item =
    if not item.deleted && has_errors
    then record o { latest_record_id = some record_id }
    else if observation_is_current o item
    then make_current record_id item o
    else record o { latest_record_id = some record_id }

-- The open row of a source object's history.
abbrev pub is_open : ℕ → MembershipHistory → Bool
is_open object_id h =
    h.source_object_id == object_id && elim h.valid_to [ none ↦ true | some _ ↦ false ]

-- The latest of the open rows, `order_by(valid_from.desc())`; the first of equals.
abbrev pub latest_open : ℕ → List MembershipHistory → Option MembershipHistory
latest_open object_id [] = none
latest_open object_id (h ∷ rest) = elim (latest_open object_id rest) [
  | none ↦ if is_open object_id h then some h else none
  | some k ↦ if is_open object_id h && leb k.valid_from h.valid_from then some h else some k
]

abbrev pub close : ℕ → ℕ → List MembershipHistory → List MembershipHistory
close now id [] = []
close now id (h ∷ rest) =
    (if h.id == id then record h { valid_to = some now } else h) ∷ close now id rest

-- `previous.valid_to = now()`, if there is an open row.
unfoldable pub close_open : ℕ → ℕ → List MembershipHistory → List MembershipHistory
close_open now object_id history = elim (latest_open object_id history) [
  | none ↦ history
  | some h ↦ close now h.id history
]

-- The row that opens when an object joins an entity.
abbrev pub joined : ℕ → ℕ → String → ℕ → String → SourceObject → MembershipHistory
joined now new_id by entity_id reason o = record {
  id = new_id;
  source_object_id = o.id;
  entity_id = entity_id;
  valid_from = now;
  valid_to = none;
  reason = reason;
  changed_by = by;
}

-- The object and the history after `source_object` is made a member of the entity. `new_id` is the
-- new row's, `by` the principal's subject.
unfoldable pub set_membership :
    ℕ
    → ℕ
    → String
    → ℕ
    → String
    → SourceObject
    → List MembershipHistory
    → SourceObject × List MembershipHistory
unfolding close_open
set_membership now new_id by entity_id reason o history =
    if opt_eq o.entity_id (some entity_id) then (o, history) else (
      record o { entity_id = some entity_id },
      close_open now o.id history ++ joined now new_id by entity_id reason o ∷ [],
    )

-- `a, b = sorted((left, right))`, and the row that has both.
unfoldable pub is_cannot_link : List CannotLink → ℕ → ℕ → Bool
is_cannot_link rows left right =
    let a = if leb left right then left else right in
    let b = if leb left right then right else left in
    any (λ r. r.left_object_id == a && r.right_object_id == b) rows

-- The row that decide_task adds when a match is kept separate.
unfoldable pub keep_apart : String → String → ℕ → ℕ → List CannotLink → List CannotLink
keep_apart reason by left right rows =
    rows
    ++ record {
      left_object_id = if leb left right then left else right;
      right_object_id = if leb left right then right else left;
      reason = reason;
      created_by = by;
    }
      ∷ []

-- `state == "valid"`
abbrev pub is_valid : RecordState → Bool
is_valid valid = true
is_valid _ = false

-- The join of _current_records: the object whose current record this is, of the entity if one is
-- asked for, and not retired.
abbrev pub contributes : Option ℕ → SourceRecord → SourceObject → Bool
contributes entity_id r o =
    opt_eq o.current_record_id (some r.id)
    && not o.retired
    && elim entity_id [ none ↦ true | some e ↦ opt_eq o.entity_id (some e) ]

unfoldable pub current_records :
    List SourceRecord → List SourceObject → Option ℕ → List SourceRecord
current_records records objects entity_id =
    select (λ r. is_valid r.state && any (contributes entity_id r) objects) records
