-- ===== src/Review/Merge.antt =====
-- _apply_merge, _apply_split and _link_match of mastering/service.py: what an approved decision does
-- to entities and memberships. An error leaves the caller's transaction uncommitted.
use recordlane.Base.{
  ℕ, ◌+◌, suc, String, Bool, true, false, not, ◌&&◌, Option, none, some, List, [], ◌∷◌, ◌++◌, ◌==◌,
  opt_eq, if◌then◌else◌, str_eq, select, length, contains,
}
use recordlane.Http.{Result, ok, ◌>>=◌, ◌>>◌, raise_if, required}
use recordlane.Policy.{Library, Floats}
use recordlane.Mastering.{
  SourceObject, SourceRecord, MembershipHistory, Entity, EntityStatus, candidate, merged,
}
use recordlane.Mastering.Objects.{set_membership, is_cannot_link}
use recordlane.Mastering.Resolve.{find_entity, bump, compare_records, contradicted}
use recordlane.Review.{
  MatchPayload, task_open, downstream_repair, ReviewTask, Relationship, EventType,
  identity_was_merged, identity_was_split, Store, change_where, find_first,
}
use recordlane.Review.Draft.{draft}

abbrev pub is_merged : EntityStatus → Bool
is_merged merged = true
is_merged _ = false

-- `_set_membership` of every object that a test picks. The rows of the history are numbered from
-- `next`.
unfoldable pub move_members :
    ℕ
    → String
    → ℕ
    → String
    → (SourceObject → Bool)
    → ℕ
    → List SourceObject
    → List MembershipHistory
    → List SourceObject × List MembershipHistory
unfolding set_membership
move_members now by entity_id reason p next [] history = ([], history)
move_members now by entity_id reason p next (o ∷ rest) history =
    let moved =
      if p o then set_membership now next by entity_id reason o history else (o, history) in
    let others = move_members now by entity_id reason p (suc next) rest moved.1 in
    (moved.0 ∷ others.0, others.1)

-- The store after the objects have moved.
unfoldable pub move :
    {F : Type 0} → ℕ → String → ℕ → String → (SourceObject → Bool) → Store F → Store F
unfolding move_members
move now by entity_id reason p store =
    let moved = move_members now by entity_id reason p store.next store.objects store.history in
    record store { next = store.next + length store.objects; objects = moved.0; history = moved.1 }

abbrev pub is_member : ℕ → SourceObject → Bool
is_member entity_id o = opt_eq o.entity_id (some entity_id)

-- `rel.from_entity_id = primary.id`, then the same for the other end
abbrev pub redirect : ℕ → ℕ → List Relationship → List Relationship
redirect old new relationships =
    change_where (λ r. r.to_entity_id == old) (λ r. record r { to_entity_id = new })
      (change_where (λ r. r.from_entity_id == old) (λ r. record r { from_entity_id = new })
        relationships)

abbrev pub mark_merged : ℕ → List Entity → List Entity
mark_merged id entities =
    change_where (λ e. e.id == id) (λ e. record e { status = merged }) entities

-- `bound_versions.get(id)`
abbrev pub bound_version : ℕ → List (ℕ × ℕ) → Option ℕ
bound_version id [] = none
bound_version id ((key, v) ∷ rest) = if key == id then some v else bound_version id rest

abbrev pub find_unmerged : ℕ → List Entity → Option Entity
find_unmerged id entities = find_first (λ e. e.id == id && not (is_merged e.status)) entities

-- A new event, and one number more.
abbrev pub add_event : {F : Type 0} → ℕ → ℕ → EventType → String → Store F → Store F
add_event entity_id version event_type reason store = record store {
  next = suc store.next;
  events =
      store.events
      ++ record {
        id = store.next;
        entity_id = entity_id;
        entity_version = version;
        event_type = event_type;
        reason = some reason;
      }
        ∷ [];
}

-- `entity.version += 1` and the new draft. The callers have found the entity.
unfoldable pub redraft : {F : Type 0} → ℕ → Store F → Result (Store F × ℕ)
unfolding draft
redraft id store =
    let bumped = record store { entities = bump id store.entities } in
    required (find_entity id bumped.entities) 409 "entity_missing" >>= λ entity. draft entity bumped

-- The task that asks the consumers' operators to repair what they received.
abbrev pub repair_task : ℕ → ℕ → ℕ → ℕ → ℕ → ReviewTask
repair_task id event_id split_id original_id version = record {
  id = id;
  kind = downstream_repair event_id split_id;
  entity_id = some original_id;
  status = task_open;
  priority = "high";
  proposed_by = "correction-engine";
  bound_entity_version = some version;
  sensitive = false;
  decision_reason = none;
  decided_by = none;
}

abbrev pub is_leaving : ℕ → List ℕ → SourceObject → Bool
is_leaving entity_id ids o = is_member entity_id o && contains o.id ids

abbrev pub new_entity : ℕ → String → String → Entity
new_entity id domain_key stable_key = record {
  id = id;
  domain_key = domain_key;
  stable_key = stable_key;
  status = candidate;
  version = 1;
}

module _ {F : Type 0} (now : ℕ) (by : String) where
  -- The body of the loop over the merged entities.
  unfoldable pub merge_one : ℕ → List (ℕ × ℕ) → ℕ → Store F → Result (Store F)
  unfolding move
  merge_one primary bound id store = do
    entity ← required (find_unmerged id store.entities) 409 "merge_entity_changed"
    raise_if (not (opt_eq (bound_version id bound) (some entity.version))) 409
        "merge_entity_changed"
    let moved = move now by primary "approved_merge" (is_member id) store
    ok (record moved {
      relationships = redirect id primary moved.relationships;
      entities = mark_merged id moved.entities;
    })

  unfoldable pub merge_all : ℕ → List (ℕ × ℕ) → List ℕ → Store F → Result (Store F)
  unfolding merge_one
  merge_all primary bound [] store = ok store
  merge_all primary bound (id ∷ rest) store =
      merge_one primary bound id store >>= λ store'. merge_all primary bound rest store'

  unfoldable pub apply_merge : ℕ → List ℕ → List (ℕ × ℕ) → String → Store F → Result (Store F)
  unfolding merge_all redraft
  apply_merge primary_id merged_ids bound reason store = do
    primary ← required (find_entity primary_id store.entities) 409 "primary_entity_missing"
    raise_if (not (opt_eq (bound_version primary_id bound) (some primary.version))) 409
        "merge_entity_changed"
    store' ← merge_all primary_id bound merged_ids store
    drafted ← redraft primary_id store'
    ok (add_event primary_id drafted.1 (identity_was_merged merged_ids) reason drafted.0)

  -- `stable_key` is that of the new entity.
  unfoldable pub apply_split :
      String → Option ℕ → List ℕ → List ℕ → String → Store F → Result (Store F)
  unfolding redraft draft
  apply_split stable_key entity_id record_ids object_ids reason store = do
    id ← required entity_id 409 "entity_missing"
    original ← required (find_entity id store.entities) 409 "entity_missing"
    let split_id = store.next
    let split = new_entity split_id original.domain_key stable_key
    raise_if (not (length (select (is_leaving id object_ids) store.objects) == length object_ids))
        409 "split_membership_changed"
    let added = record store { next = suc store.next; entities = store.entities ++ split ∷ [] }
    let moved = move now by split_id "approved_split" (is_leaving id object_ids) added
    redrafted ← redraft id moved
    drafted ← draft split redrafted.0
    let version = original.version + 1
    let announced =
        add_event id version (identity_was_split split_id record_ids drafted.1) reason drafted.0
    ok (record announced {
      next = suc announced.next;
      tasks = announced.tasks ++ repair_task announced.next drafted.0.next split_id id version ∷ [];
    })

module _ (lib : Library) (fl : Floats) (now : ℕ) (by : String) where
  open fl use {Float}

  -- The records that a match was proposed for.
  abbrev pub find_record : ℕ → List SourceRecord → Option SourceRecord
  find_record id records = find_first (λ r. r.id == id) records

  unfoldable pub link_match : Option ℕ → MatchPayload → Store Float → Result (Store Float)
  unfolding move redraft
  link_match entity_id payload store = do
    source_id ← required entity_id 409 "entity_unavailable"
    source ← required (find_entity source_id store.entities) 409 "entity_unavailable"
    target ← required (find_entity payload.target_entity_id store.entities) 409 "entity_unavailable"
    raise_if (not (str_eq source.domain_key target.domain_key)) 409 "cross_domain_merge_forbidden"
    raise_if (not (opt_eq payload.bound_target_entity_version (some target.version))) 409
        "stale_target_entity"
    left_object ← required payload.left_source_object_id 500 "KeyError"
    right_object ← required payload.right_source_object_id 500 "KeyError"
    raise_if (is_cannot_link store.cannot_links left_object right_object) 409
        "cannot_link_constraint"
    left ←
        required (find_record payload.left_record_id store.records) 409 "match_evidence_unavailable"
    right ←
        required (find_record payload.right_record_id store.records) 409
          "match_evidence_unavailable"
    domain ←
        required (find_first (λ d. str_eq d.key source.domain_key) store.domains) 409
          "match_evidence_unavailable"
    raise_if (contradicted (compare_records lib fl domain.definition left right).contradictions) 409
        "match_contradiction"
    let moved = move now by target.id "approved_match" (is_member source.id) store
    let merged_away = record moved { entities = mark_merged source.id moved.entities }
    drafted ← redraft target.id merged_away
    ok drafted.0
