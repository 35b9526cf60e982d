-- ===== src/Review.antt =====
-- Review decisions of mastering/service.py: the tasks that people decide, and what a decision does to
-- entities, memberships and master versions.
--   Draft     _draft_master
--   Merge     _apply_merge, _apply_split and _link_match
--   Decide    decide_task
--   Propose   propose_merge and propose_split
-- Tasks of the kind configuration_approval belong to the configuration and are not here. A domain's
-- definition stands for the policy that compile_policy makes of it. Due dates, times of creation and
-- the details of audit rows are left out, and so are the parts of an event's payload that repeat its
-- columns.
use recordlane.Base.{
  ℕ, String, Bool, true, false, Option, List, Dict, ◌==◌, if◌then◌else◌, none, some, [], ◌∷◌,
}
use recordlane.Json.{Value}
use recordlane.Policy.{CompiledPolicy}
use recordlane.Mastering.{Source, SourceObject, SourceRecord, MembershipHistory, Entity, CannotLink}
use recordlane.Mastering.Survivor.{Provenance}
pub mod Draft
pub mod Merge
pub mod Decide
pub mod Propose
mod Moved
mod Decided
pub mod Samples
mod Tests

pub data TaskStatus : Type 0 where
  task_open task_stale task_approved task_rejected : TaskStatus

pub data TaskDecision : Type 0 where
  approve reject keep_separate link : TaskDecision

pub record MatchPayload : Type 0 where
  pub left_record_id : ℕ
  pub right_record_id : ℕ
  pub left_source_object_id : Option ℕ
  pub right_source_object_id : Option ℕ
  pub target_entity_id : ℕ
  pub bound_target_entity_version : Option ℕ

-- The kind of a task, with the payload of that kind.
pub data TaskKind : Type 0 where
  duplicate_match : MatchPayload → TaskKind
  -- the version of the draft, which has the values and the provenance
  master_approval : ℕ → TaskKind
  -- the primary entity, the merged ones, and the versions that they are bound to
  merge_approval : ℕ → List ℕ → List (ℕ × ℕ) → TaskKind
  -- the records and the source objects that leave the entity
  split_approval : List ℕ → List ℕ → TaskKind
  -- the event and the entity of a split
  downstream_repair : ℕ → ℕ → TaskKind

pub record ReviewTask : Type 0 where
  pub id : ℕ
  pub kind : TaskKind
  pub entity_id : Option ℕ
  pub status : TaskStatus
  pub priority : String
  pub proposed_by : String
  pub bound_entity_version : Option ℕ
  pub sensitive : Bool
  pub decision_reason : Option String
  pub decided_by : Option String

pub data MasterStatus : Type 0 where
  draft_master approved_master : MasterStatus

pub record MasterVersion : Type 0 where
  pub id : ℕ
  pub entity_id : ℕ
  pub version : ℕ
  pub status : MasterStatus
  pub values : Dict Value
  pub provenance : Dict Provenance
  pub reason : Option String
  pub approved_by : Option String

pub record Relationship : Type 0 where
  pub id : ℕ
  pub from_entity_id : ℕ
  pub to_entity_id : ℕ

-- A row of cannot_links, between records.
pub record RecordCannotLink : Type 0 where
  pub left_record_id : ℕ
  pub right_record_id : ℕ
  pub reason : String
  pub created_by : String

-- The type of an event, with what its payload adds.
pub data EventType : Type 0 where
  master_was_approved : Dict Value → EventType
  -- the merged entities
  identity_was_merged : List ℕ → EventType
  -- the new entity, its records and its first version
  identity_was_split : ℕ → List ℕ → ℕ → EventType

pub record IdentityEvent : Type 0 where
  pub id : ℕ
  pub entity_id : ℕ
  pub entity_version : ℕ
  pub event_type : EventType
  pub reason : Option String

pub record Domain (F : Type 0) : Type 0 where
  pub key : String
  pub definition : CompiledPolicy F

-- The tables of a workspace. A new row takes the next number.
pub record Store (F : Type 0) : Type 0 where
  pub next : ℕ
  pub domains : List (Domain F)
  pub sources : List Source
  pub entities : List Entity
  pub objects : List SourceObject
  pub records : List SourceRecord
  pub history : List MembershipHistory
  pub cannot_links : List CannotLink
  pub record_cannot_links : List RecordCannotLink
  pub relationships : List Relationship
  pub masters : List MasterVersion
  pub tasks : List ReviewTask
  pub events : List IdentityEvent
  -- action and subject
  pub audit : List (String × ℕ)

-- The rows that a test picks are changed.
abbrev pub change_where {ℓ} : {A : Type ℓ} → (A → Bool) → (A → A) → List A → List A
change_where p f [] = []
change_where p f (x ∷ rest) = (if p x then f x else x) ∷ change_where p f rest

abbrev pub find_first {ℓ} : {A : Type ℓ} → (A → Bool) → List A → Option A
find_first p [] = none
find_first p (x ∷ rest) = let later = find_first p rest in if p x then some x else later
