-- ===== src/Review/Propose.antt =====
-- propose_merge and propose_split of mastering/service.py.
use recordlane.Base.{
  ℕ, suc, String, Bool, true, false, not, ◌&&◌, ◌||◌, Option, none, some, List, [], ◌∷◌, ◌++◌, ◌==◌,
  if◌then◌else◌, select, length, contains, distinct, sorted_set,
}
use recordlane.Http.{Result, ok, ◌>>=◌, ◌>>◌, raise_if, required}
use recordlane.Mastering.{SourceObject, Entity}
use recordlane.Review.{
  task_open, TaskKind, merge_approval, split_approval, ReviewTask, Relationship, Store, find_first,
}
use recordlane.Review.Merge.{is_merged, is_member, find_unmerged}

-- What propose_merge answers, with the task unless it is a dry run.
pub record MergeImpact : Type 0 where
  pub primary_entity_id : ℕ
  pub merged_entity_ids : List ℕ
  pub bound_entity_versions : List (ℕ × ℕ)
  pub source_contributions : ℕ
  pub relationships : ℕ
  pub consumer_corrections : ℕ
  pub dry_run : Bool
  pub review_task_id : Option ℕ

abbrev pub versions_of : List Entity → List (ℕ × ℕ)
versions_of [] = []
versions_of (e ∷ rest) = (e.id, e.version) ∷ versions_of rest

abbrev pub domain_keys : List Entity → List String
domain_keys [] = []
domain_keys (e ∷ rest) = e.domain_key ∷ domain_keys rest

-- An object that counts as a contribution to one of the entities.
abbrev pub is_contribution : List ℕ → SourceObject → Bool
is_contribution ids o = elim o.entity_id [ none ↦ false | some e ↦ contains e ids ] && not o.retired

-- A task with high priority that its proposer cannot decide.
abbrev pub proposal : ℕ → TaskKind → ℕ → String → ℕ → ReviewTask
proposal id kind entity_id by version = record {
  id = id;
  kind = kind;
  entity_id = some entity_id;
  status = task_open;
  priority = "high";
  proposed_by = by;
  bound_entity_version = some version;
  sensitive = true;
  decision_reason = none;
  decided_by = none;
}

abbrev pub add_proposal : {F : Type 0} → TaskKind → ℕ → String → ℕ → String → Store F → Store F
add_proposal kind entity_id by version action store = record store {
  next = suc store.next;
  tasks = store.tasks ++ proposal store.next kind entity_id by version ∷ [];
  audit = store.audit ++ (action, store.next) ∷ [];
}

-- The impact of a merge, and the primary entity.
unfoldable pub merge_impact :
    {F : Type 0} → ℕ → List ℕ → Bool → Store F → Result (MergeImpact × Entity)
merge_impact primary_id merged_ids dry_run store = do
  let ids = primary_id ∷ merged_ids
  let entities = select (λ e. contains e.id ids && not (is_merged e.status)) store.entities
  raise_if (not (length entities == length (distinct ids))) 404 "entity_not_found"
  raise_if (not (length (sorted_set (domain_keys entities)) == 1)) 409
      "cross_domain_merge_forbidden"
  primary ← required (find_first (λ e. e.id == primary_id) entities) 500 "StopIteration"
  let touches : Relationship → Bool =
      λ r. contains r.from_entity_id ids || contains r.to_entity_id ids
  ok (
    record {
      primary_entity_id = primary_id;
      merged_entity_ids = merged_ids;
      bound_entity_versions = versions_of entities;
      source_contributions = length (select (is_contribution ids) store.objects);
      relationships = length (select touches store.relationships);
      consumer_corrections = length merged_ids;
      dry_run = dry_run;
      review_task_id = none;
    },
    primary,
  )

-- The objects of the entity whose current records are asked for.
abbrev pub is_asked : ℕ → List ℕ → SourceObject → Bool
is_asked entity_id record_ids o =
    is_member entity_id o
    && elim o.current_record_id [ none ↦ false | some r ↦ contains r record_ids ]

abbrev pub ids_of : List SourceObject → List ℕ
ids_of [] = []
ids_of (o ∷ rest) = o.id ∷ ids_of rest

module _ {F : Type 0} (by : String) where
  unfoldable pub propose_merge : ℕ → List ℕ → Bool → Store F → Result (Store F × MergeImpact)
  unfolding merge_impact
  propose_merge primary_id merged_ids dry_run store = do
    (impact, primary) ← merge_impact primary_id merged_ids dry_run store
    let kind = merge_approval primary_id merged_ids impact.bound_entity_versions
    if dry_run
        then ok (store, impact)
        else ok (
          add_proposal kind primary_id by primary.version "merge.proposed" store,
          record impact { review_task_id = some store.next },
        )

  unfoldable pub propose_split : ℕ → List ℕ → Store F → Result (Store F × ℕ)
  propose_split entity_id record_ids store = do
    entity ← required (find_unmerged entity_id store.entities) 404 "entity_not_found"
    let members = select (is_asked entity.id record_ids) store.objects
    raise_if (not (length members == length (distinct record_ids))) 409
        "source_record_not_in_entity"
    let kind = split_approval record_ids (ids_of members)
    ok (add_proposal kind entity.id by entity.version "split.proposed" store, store.next)
