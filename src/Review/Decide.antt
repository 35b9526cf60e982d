-- ===== src/Review/Decide.antt =====
-- decide_task of mastering/service.py. `by` is the principal's
-- subject.
use recordlane.Base.{
  ℕ, String, Bool, true, false, not, ◌&&◌, Option, none, some, List, [], ◌∷◌, ◌++◌, ◌==◌, leb,
  opt_eq, if◌then◌else◌, str_eq, any,
}
use recordlane.Http.{Result, ok, err, ◌>>=◌, required}
use recordlane.Policy.{Library, Floats}
use recordlane.Mastering.{approved}
use recordlane.Mastering.Objects.{is_cannot_link, keep_apart}
use recordlane.Mastering.Resolve.{find_entity}
use recordlane.Review.{
  TaskDecision, approve, reject, keep_separate, link, TaskStatus, task_stale, task_approved,
  task_rejected, TaskKind, duplicate_match, master_approval, merge_approval, split_approval,
  downstream_repair, MatchPayload, ReviewTask, draft_master, approved_master, MasterVersion,
  RecordCannotLink, master_was_approved, Store, change_where, find_first,
}
use recordlane.Review.Draft.{is_task_open}
use recordlane.Review.Merge.{apply_merge, apply_split, link_match, add_event}

-- ALLOWED_TASK_DECISIONS; a kind that is not in the table allows none.
unfoldable pub is_allowed_decision : TaskKind → TaskDecision → Bool
is_allowed_decision (duplicate_match _) approve = false
is_allowed_decision (duplicate_match _) _ = true
is_allowed_decision (downstream_repair _ _) _ = false
is_allowed_decision _ approve = true
is_allowed_decision _ reject = true
is_allowed_decision _ _ = false

abbrev pub find_task : ℕ → List ReviewTask → Option ReviewTask
find_task id tasks = find_first (λ t. t.id == id) tasks

abbrev pub change_task : {F : Type 0} → ℕ → (ReviewTask → ReviewTask) → Store F → Store F
change_task id f store = record store { tasks = change_where (λ t. t.id == id) f store.tasks }

abbrev pub set_status : TaskStatus → ReviewTask → ReviewTask
set_status status t = record t { status = status }

-- A row of cannot_links that names the pair.
abbrev pub has_record_pair : ℕ → ℕ → List RecordCannotLink → Bool
has_record_pair a b rows = any (λ r. r.left_record_id == a && r.right_record_id == b) rows

abbrev pub is_draft : ℕ → ℕ → MasterVersion → Bool
is_draft entity_id version m =
    m.entity_id == entity_id
    && m.version == version
    && elim m.status [ draft_master ↦ true | _ ↦ false ]

module _ {F : Type 0} (by : String) where
  -- The constraint that keeps two objects apart; a second one for the pair violates a constraint.
  unfoldable pub separate_objects : ℕ → ℕ → String → Store F → Result (Store F)
  separate_objects left right reason store =
      if is_cannot_link store.cannot_links left right
      then err 500 "IntegrityError"
      else ok (record store { cannot_links = keep_apart reason by left right store.cannot_links })

  unfoldable pub separate_records : ℕ → ℕ → String → Store F → Result (Store F)
  separate_records left right reason store =
      let a = if leb left right then left else right in
      let b = if leb left right then right else left in
      if has_record_pair a b store.record_cannot_links
      then err 500 "IntegrityError"
      else ok (record store {
        record_cannot_links =
            store.record_cannot_links
            ++ record { left_record_id = a; right_record_id = b; reason = reason; created_by = by }
              ∷ [];
      })

  -- A match that is kept separate, by its objects if the task names both.
  unfoldable pub separate : MatchPayload → String → Store F → Result (Store F)
  unfolding separate_objects separate_records
  separate payload reason store = elim payload.left_source_object_id [
    | none ↦ separate_records payload.left_record_id payload.right_record_id reason store
    | some l ↦ elim payload.right_source_object_id [
      | none ↦ separate_records payload.left_record_id payload.right_record_id reason store
      | some r ↦ separate_objects l r reason store
    ]
  ]

  -- The approval of a draft: the version, its entity and the event.
  unfoldable pub approve_master : Option ℕ → ℕ → String → Store F → Result (Store F)
  approve_master entity_id version reason store = do
    id ← required entity_id 409 "draft_unavailable"
    found ← required (find_first (is_draft id version) store.masters) 409 "draft_unavailable"
    entity ← required (find_entity id store.entities) 500 "AttributeError"
    ok (
        add_event id found.version (master_was_approved found.values) reason (record store {
          masters =
              change_where (λ m. m.id == found.id)
                (λ m. record m {
                  status = approved_master;
                  approved_by = some by;
                  reason = some reason;
                })
                store.masters;
          entities =
              change_where (λ e. e.id == entity.id) (λ e. record e { status = approved })
                store.entities;
        }))

-- `task.status = "approved" if decision in {"approve", "link"} else "rejected"`
abbrev pub status_after : TaskDecision → TaskStatus
status_after approve = task_approved
status_after link = task_approved
status_after _ = task_rejected

abbrev pub action_of : TaskDecision → String
action_of approve = "review.approve"
action_of reject = "review.reject"
action_of keep_separate = "review.keep_separate"
action_of link = "review.link"

-- `task.bound_entity_version != entity.version`, if the task has an entity that is there
unfoldable pub is_outdated : {F : Type 0} → ReviewTask → Store F → Bool
is_outdated task store = elim task.entity_id [
  | none ↦ false
  | some id ↦ elim (find_entity id store.entities) [
    | none ↦ false
    | some e ↦ not (opt_eq task.bound_entity_version (some e.version))
  ]
]

-- The task as decided.
abbrev pub decided_task : TaskDecision → String → String → ReviewTask → ReviewTask
decided_task decision reason by t = record t {
  status = status_after decision;
  decision_reason = some reason;
  decided_by = some by;
}

-- The decided task and the audit row.
abbrev pub finish_task : {F : Type 0} → ℕ → TaskDecision → String → String → Store F → Store F
finish_task task_id decision reason by store =
    let done = change_task task_id (decided_task decision reason by) store in
    record done { audit = done.audit ++ (action_of decision, task_id) ∷ [] }

module _ (lib : Library) (fl : Floats) (now : ℕ) (by : String) (stable_key : String) where
  open fl use {Float}

  -- What a decision does, by the kind of the task.
  unfoldable pub effect : ReviewTask → TaskDecision → String → Store Float → Result (Store Float)
  unfolding separate approve_master apply_merge apply_split link_match
  effect task decision reason store = elim task.kind [
    | duplicate_match payload ↦ elim decision [
      | link ↦ link_match lib fl now by task.entity_id payload store
      | approve ↦ ok store
      | _ ↦ separate by payload reason store
    ]
    | master_approval version ↦ elim decision [
      | approve ↦ approve_master by task.entity_id version reason store
      | _ ↦ ok store
    ]
    | merge_approval primary merged bound ↦ elim decision [
      | approve ↦ apply_merge now by primary merged bound reason store
      | _ ↦ ok store
    ]
    | split_approval record_ids object_ids ↦ elim decision [
      | approve ↦ apply_split now by stable_key task.entity_id record_ids object_ids reason store
      | _ ↦ ok store
    ]
    | downstream_repair _ _ ↦ ok store
  ]

  -- The tables as committed, and the answer. Only a stale task is committed with an error.
  unfoldable pub decide_task :
      ℕ → TaskDecision → String → Store Float → Store Float × Result (Unit {0})
  unfolding effect is_outdated
  decide_task task_id decision reason store = elim (find_task task_id store.tasks) [
    | none ↦ (store, err 404 "task_not_found")
    | some task ↦
        if not (is_task_open task.status)
        then (store, err 409 "task_not_open")
        else if not (is_allowed_decision task.kind decision)
        then (store, err 409 "invalid_task_decision")
        else if is_outdated task store
        then (change_task task_id (set_status task_stale) store, err 409 "stale_approval")
        else if task.sensitive && str_eq task.proposed_by by
        then (store, err 403 "separation_of_duties")
        else elim (effect task decision reason store) [
          | err status code ↦ (store, err status code)
          | ok store' ↦ (finish_task task_id decision reason by store', ok tt)
        ]
  ]
