-- ===== src/Review/Tests.antt =====
-- Runs of review decisions: a merge of two suppliers, and an approval.
use recordlane.Base.{
  ℕ, String, ◌≡◌, ◌⊎◌, refl, true, false, ◌&&◌, none, some, List, [], ◌∷◌, str_eq, any,
}
use recordlane.Http.{Result, ok, err}
use recordlane.Mastering.{Entity, approved}
use recordlane.Mastering.Samples.{
  erp, crm, erp_record, crm_record, erp_object, crm_object, membership, supplier, policy, values,
}
use recordlane.Mastering.Resolve.{find_entity}
use recordlane.Policy.Samples.{plain, counting}
use recordlane.Review.{
  approve, reject, task_open, merge_approval, master_approval, ReviewTask, draft_master, Store,
}
use recordlane.Review.Draft.{is_task_open}
use recordlane.Review.Merge.{apply_merge, is_member, find_unmerged}
use recordlane.Review.Decide.{decide_task, find_task, is_allowed_decision}
use recordlane.Review.Moved.{merge_moves_all, merge_into_itself, touches}
use recordlane.Review.Decided.{decided_is_due, decided_once, approval_revives}

abbrev merge_task : ReviewTask
merge_task = record {
  id = 30;
  kind = merge_approval 5 (6 ∷ []) ((5, 1) ∷ (6, 1) ∷ []);
  entity_id = some 5;
  status = task_open;
  priority = "high";
  proposed_by = "ann";
  bound_entity_version = some 1;
  sensitive = true;
  decision_reason = none;
  decided_by = none;
}

abbrev approval : ReviewTask
approval = record merge_task {
  id = 31;
  kind = master_approval 1;
  entity_id = some 6;
  proposed_by = "mastering-engine";
  sensitive = false;
}

abbrev two_suppliers : Store ℕ
two_suppliers = record {
  next = 50;
  domains = record { key = "supplier"; definition = policy } ∷ [];
  sources = erp ∷ crm ∷ [];
  entities = supplier ∷ record supplier { id = 6; stable_key = "rl_2" } ∷ [];
  objects = erp_object ∷ record crm_object { entity_id = some 6 } ∷ [];
  records = erp_record ∷ crm_record ∷ [];
  history = membership ∷ record membership { id = 2; source_object_id = 22; entity_id = 6 } ∷ [];
  cannot_links = [];
  record_cannot_links = [];
  relationships = record { id = 1; from_entity_id = 6; to_entity_id = 7 } ∷ [];
  masters =
      record {
        id = 40;
        entity_id = 6;
        version = 1;
        status = draft_master;
        values = values;
        provenance = [];
        reason = none;
        approved_by = none;
      }
      ∷ [];
  tasks = merge_task ∷ approval ∷ [];
  events = [];
  audit = [];
}

-- The store after a result.
abbrev store_of : Result (Store ℕ) → Store ℕ
store_of (ok s) = s
store_of (err status code) = two_suppliers

abbrev merged_store : List ℕ → Store ℕ
merged_store ids =
    store_of (apply_merge 200 "bob" 5 ids ((5, 1) ∷ (6, 1) ∷ []) "same" two_suppliers)

merge_moves_all_example :
    (any (is_member 6) (merged_store (6 ∷ [])).objects ≡ false)
    × (any (touches 6) (merged_store (6 ∷ [])).relationships ≡ false)
    × (find_unmerged 6 (merged_store (6 ∷ [])).entities ≡ none)
unfolding apply_merge
merge_moves_all_example =
    merge_moves_all 200 "bob" 5 (6 ∷ []) ((5, 1) ∷ (6, 1) ∷ []) "same" two_suppliers
      (merged_store (6 ∷ [])) 6 refl refl refl

merge_into_itself_example : find_unmerged 5 (merged_store (5 ∷ [])).entities ≡ none
unfolding apply_merge
merge_into_itself_example =
    merge_into_itself 200 "bob" 5 (5 ∷ []) ((5, 1) ∷ (6, 1) ∷ []) "same" two_suppliers
      (merged_store (5 ∷ [])) refl refl

abbrev after_decision : Store ℕ
after_decision = (decide_task plain counting 200 "bob" "rl_3" 30 approve "same" two_suppliers).0

decided_is_due_example :
    (task : ReviewTask) × (find_task 30 two_suppliers.tasks ≡ some task)
    × (is_task_open task.status ≡ true)
    × (is_allowed_decision task.kind approve ≡ true)
    × ((task.sensitive && str_eq task.proposed_by "bob") ≡ false)
    × ((task.entity_id ≡ none)
        ⊎ ((entity_id : ℕ) × (task.entity_id ≡ some entity_id)
            × ((find_entity entity_id two_suppliers.entities ≡ none)
                ⊎ ((e : Entity) × (find_entity entity_id two_suppliers.entities ≡ some e)
                    × (task.bound_entity_version ≡ some e.version)))))
unfolding decide_task is_allowed_decision
decided_is_due_example =
    decided_is_due plain counting 200 "bob" "rl_3" 30 approve "same" two_suppliers after_decision
      refl

decided_once_example :
    (status : ℕ) × (code : String) × (decide_task plain counting 201 "eve" "rl_4" 30 reject
        "not the same" after_decision
      ≡ (after_decision, err status code))
unfolding decide_task is_allowed_decision
decided_once_example =
    decided_once plain counting 200 "bob" "rl_3" 30 approve "same" two_suppliers after_decision 201
      "eve" "rl_4" reject "not the same" refl

-- The approval of the draft of the entity that the decision has merged away.
abbrev revived : Store ℕ
revived = (decide_task plain counting 202 "bob" "rl_5" 31 approve "fine" after_decision).0

merged_away : find_unmerged 6 after_decision.entities ≡ none
unfolding decide_task is_allowed_decision
merged_away = refl

approval_revives_example :
    (e : Entity) × (find_entity 6 revived.entities ≡ some e) × (e.status ≡ approved)
unfolding decide_task is_allowed_decision
approval_revives_example =
    approval_revives plain counting 202 "bob" "rl_5" 31 "fine" after_decision revived approval 6 1
      refl refl refl refl
