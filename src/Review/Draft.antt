-- ===== src/Review/Draft.antt =====
-- _draft_master of mastering/service.py: a new draft of an entity's master values, and its task.
use recordlane.Base.{
  ℕ, suc, Bool, true, false, ◌&&◌, ◌||◌, none, some, List, [], ◌∷◌, ◌++◌, ltb, ◌==◌, opt_eq,
  if◌then◌else◌, str_eq, Dict, has_key,
}
use recordlane.Http.{Result, ok, ◌>>=◌, required}
use recordlane.Json.{Value}
use recordlane.Mastering.{Entity}
use recordlane.Mastering.Survivor.{Provenance, master_values}
use recordlane.Review.{
  TaskStatus, task_open, task_stale, TaskKind, master_approval, ReviewTask, MasterVersion,
  draft_master, Store, change_where, find_first,
}

-- The highest version of the entity's masters, or 0.
abbrev pub latest_version : ℕ → List MasterVersion → ℕ
latest_version entity_id [] = 0
latest_version entity_id (m ∷ rest) =
    let later = latest_version entity_id rest in
    if m.entity_id == entity_id then if ltb later m.version then m.version else later else later

abbrev pub is_task_open : TaskStatus → Bool
is_task_open task_open = true
is_task_open _ = false

abbrev pub is_master_approval : TaskKind → Bool
is_master_approval (master_approval _) = true
is_master_approval _ = false

abbrev pub is_open_approval : ℕ → ReviewTask → Bool
is_open_approval entity_id t =
    opt_eq t.entity_id (some entity_id) && is_master_approval t.kind && is_task_open t.status

abbrev pub make_stale : ReviewTask → ReviewTask
make_stale t = record t {
  status = task_stale;
  decision_reason = some "A new source contribution changed the bound entity version";
}

-- The open task of an earlier draft, if there is one, becomes stale.
unfoldable pub stale_earlier : ℕ → List ReviewTask → List ReviewTask
stale_earlier entity_id tasks = elim (find_first (is_open_approval entity_id) tasks) [
  | none ↦ tasks
  | some t ↦ change_where (λ u. u.id == t.id) make_stale tasks
]

abbrev pub approval_task : ℕ → Entity → ℕ → Dict Value → ReviewTask
approval_task id entity version values = record {
  id = id;
  kind = master_approval version;
  entity_id = some entity.id;
  status = task_open;
  priority = if has_key "tax_id" values then "high" else "normal";
  proposed_by = "mastering-engine";
  bound_entity_version = some entity.version;
  sensitive = has_key "tax_id" values || has_key "bank_account" values;
  decision_reason = none;
  decided_by = none;
}

abbrev pub new_draft : ℕ → ℕ → ℕ → Dict Value → Dict Provenance → MasterVersion
new_draft id entity_id version values provenance = record {
  id = id;
  entity_id = entity_id;
  version = version;
  status = draft_master;
  values = values;
  provenance = provenance;
  reason = none;
  approved_by = none;
}

-- What the draft adds to the tables.
abbrev pub add_draft : {F : Type 0} → Entity → ℕ → Dict Value → Dict Provenance → Store F → Store F
unfolding stale_earlier
add_draft entity version values provenance store = record store {
  next = suc (suc store.next);
  masters = store.masters ++ new_draft store.next entity.id version values provenance ∷ [];
  tasks =
      stale_earlier entity.id store.tasks
      ++ approval_task (suc store.next) entity version values ∷ [];
}

-- The store and the version of the draft.
unfoldable pub draft : {F : Type 0} → Entity → Store F → Result (Store F × ℕ)
unfolding stale_earlier master_values
draft entity store = do
  domain ←
      required (find_first (λ d. str_eq d.key entity.domain_key) store.domains) 409
        "entity_domain_missing"
  let policy = domain.definition
  master ←
      required
        (master_values policy.survivorship policy.version policy.checksum store.sources
          store.records store.objects entity.id)
        500 "AttributeError"
  let version = suc (latest_version entity.id store.masters)
  ok (add_draft entity version master.0 master.1 store, version)
