-- ===== src/Review/Decided.antt =====
-- When a decision takes effect: decide_task.
use recordlane.Base.{
  ℕ, String, ◌≡◌, ◌⊎◌, refl, sym, ap, ◌∙◌, subst, inl, inr, true, false, ◌&&◌, none, some, some-eq,
  List, [], ◌∷◌, arith, ◌==◌, ==_iff, opt_eq, opt_eq_iff, str_eq, Bool-cases, Option-cases,
}
use recordlane.Http.{ok, err, Result-cases, ok-err, ok-eq, >>=-ok, required, required-ok}
use recordlane.Policy.{Library, Floats}
use recordlane.Review.{
  TaskDecision, approve, reject, keep_separate, link, ReviewTask, Store, change_where, find_first,
  master_approval,
}
use recordlane.Review.Draft.{is_task_open}
use recordlane.Mastering.{Entity, approved}
use recordlane.Mastering.Resolve.{find_entity}
use recordlane.Review.Decide.{
  decide_task, find_task, is_allowed_decision, is_outdated, effect, finish_task, decided_task,
  status_after, approve_master, is_draft,
}

-- A task that is found after a change of all with its identifier is a changed one.
find_task-change :
    (id : ℕ) (f : ReviewTask → ReviewTask) (tasks : List ReviewTask)
    → ((t : ReviewTask) → (f t).id ≡ t.id)
    → (find_task id (change_where (λ t. t.id == id) f tasks) ≡ none)
      ⊎ ((t : ReviewTask) × (find_task id (change_where (λ t. t.id == id) f tasks) ≡ some (f t)))
find_task-change id f [] same = inl refl
find_task-change id f (t ∷ rest) same = elim (Bool-cases (t.id == id)) [
  | inl q ↦
      let found : ((f t).id == id) ≡ true = ap (λ i. i == id) (same t) ∙ q in
      inr (t, rw (q, found) refl)
  | inr q ↦ rw (q, q) (find_task-change id f rest same)
]

find_entity-id :
    (id : ℕ) (entities : List Entity) (e : Entity) → find_entity id entities ≡ some e → e.id ≡ id
find_entity-id id [] e f = ground arith
find_entity-id id (x ∷ rest) e f = elim (Bool-cases (x.id == id)) [
  | inl q ↦
      let same : x ≡ e = some-eq (rw q at f) in ap (λ y. y.id) (sym same) ∙ (==_iff x.id id).0 q
  | inr q ↦ find_entity-id id rest e (rw q at f)
]

-- The entity that is found is the one that a change by its identifier changes.
find_entity-change :
    (id : ℕ) (e : Entity) (f : Entity → Entity) (entities : List Entity)
    → find_entity id entities ≡ some e
    → ((x : Entity) → (f x).id ≡ x.id)
    → find_entity id (change_where (λ x. x.id == e.id) f entities) ≡ some (f e)
find_entity-change id e f [] g same = ground arith
find_entity-change id e f (x ∷ rest) g same =
    let its_id = find_entity-id id (x ∷ rest) e g in
    elim (Bool-cases (x.id == id)) [
      | inl q ↦
          let here : x ≡ e = some-eq (rw q at g) in
          let picked : (x.id == e.id) ≡ true = ap (λ i. x.id == i) its_id ∙ q in
          let found : ((f x).id == id) ≡ true = ap (λ i. i == id) (same x) ∙ q in
          rw (picked, found) (ap (λ y. some (f y)) here)
      | inr q ↦
          let passed : (x.id == e.id) ≡ false = ap (λ i. x.id == i) its_id ∙ q in
          rw (passed, q) (find_entity-change id e f rest (rw q at g) same)
    ]

-- What a task that is not outdated is bound to.
is_outdated_lem :
    {F : Type 0} (task : ReviewTask) (store : Store F)
    → is_outdated task store ≡ false
    → (task.entity_id ≡ none)
      ⊎ ((entity_id : ℕ) × (task.entity_id ≡ some entity_id)
          × ((find_entity entity_id store.entities ≡ none)
              ⊎ ((e : Entity) × (find_entity entity_id store.entities ≡ some e)
                  × (task.bound_entity_version ≡ some e.version))))
unfolding is_outdated
is_outdated_lem task store k = elim (Option-cases task.entity_id) [
  | inl e ↦ inl e
  | inr (id, e) ↦ elim (Option-cases (find_entity id store.entities)) [
    | inl f ↦ inr (id, e, inl f)
    | inr (entity, f) ↦
        let same : opt_eq task.bound_entity_version (some entity.version) ≡ true = ground arith in
        inr (
          id,
          e,
          inr (entity, f, (opt_eq_iff task.bound_entity_version (some entity.version)).0 same),
        )
  ]
]

closed : (decision : TaskDecision) → is_task_open (status_after decision) ≡ false
closed approve = refl
closed reject = refl
closed keep_separate = refl
closed link = refl

module _ (lib : Library) (fl : Floats) where
  open fl use {Float}

  -- The branches of a decision.
  decide_task-ok :
      (now : ℕ) (by stable_key : String) (id : ℕ) (decision : TaskDecision) (reason : String)
      (store store' : Store Float)
      → decide_task lib fl now by stable_key id decision reason store ≡ (store', ok tt)
      → (task : ReviewTask) × (t : Store Float) × (find_task id store.tasks ≡ some task)
        × (is_task_open task.status ≡ true)
        × (is_allowed_decision task.kind decision ≡ true)
        × (is_outdated task store ≡ false)
        × ((task.sensitive && str_eq task.proposed_by by) ≡ false)
        × (effect lib fl now by stable_key task decision reason store ≡ ok t)
        × (store' ≡ finish_task id decision reason by t)
  unfolding decide_task
  decide_task-ok now by stable_key id decision reason store store' e =
      elim (Option-cases (find_task id store.tasks)) [
        | inl f ↦ absurd (ok-err (ap (λ x. x.1) (rw (f, decide_task) at e)))
        | inr (task, f) ↦ elim (Bool-cases (is_task_open task.status)) [
          | inr g ↦ absurd (ok-err (ap (λ x. x.1) (rw (f, g, decide_task) at e)))
          | inl g ↦ elim (Bool-cases (is_allowed_decision task.kind decision)) [
            | inr h ↦ absurd (ok-err (ap (λ x. x.1) (rw (f, g, h, decide_task) at e)))
            | inl h ↦ elim (Bool-cases (is_outdated task store)) [
              | inl k ↦ absurd (ok-err (ap (λ x. x.1) (rw (f, g, h, k, decide_task) at e)))
              | inr k ↦ elim (Bool-cases (task.sensitive && str_eq task.proposed_by by)) [
                | inl m ↦ absurd (ok-err (ap (λ x. x.1) (rw (f, g, h, k, m, decide_task) at e)))
                | inr m ↦
                    elim (Result-cases
                      (effect lib fl now by stable_key task decision reason store)) [
                        | inl (status, code, n) ↦
                            absurd
                              (ok-err (ap (λ x. x.1) (rw (f, g, h, k, m, n, decide_task) at e)))
                        | inr (t, n) ↦ (
                          task,
                          t,
                          f,
                          g,
                          h,
                          k,
                          m,
                          n,
                          ap (λ x. x.0) (sym (rw (f, g, h, k, m, n, decide_task) at e)),
                        )
                      ]
              ]
            ]
          ]
        ]
      ]

  -- A decision takes effect only on an open task whose kind allows it, and, if the task is
  -- sensitive, not by the one who proposed it. The task's entity, if it has one that is there, has
  -- the version that the task is bound to.
  pub decided_is_due :
      (now : ℕ) (by stable_key : String) (id : ℕ) (decision : TaskDecision) (reason : String)
      (store store' : Store Float)
      → decide_task lib fl now by stable_key id decision reason store ≡ (store', ok tt)
      → (task : ReviewTask) × (find_task id store.tasks ≡ some task)
        × (is_task_open task.status ≡ true)
        × (is_allowed_decision task.kind decision ≡ true)
        × ((task.sensitive && str_eq task.proposed_by by) ≡ false)
        × ((task.entity_id ≡ none)
            ⊎ ((entity_id : ℕ) × (task.entity_id ≡ some entity_id)
                × ((find_entity entity_id store.entities ≡ none)
                    ⊎ ((e : Entity) × (find_entity entity_id store.entities ≡ some e)
                        × (task.bound_entity_version ≡ some e.version)))))
  decided_is_due now by stable_key id decision reason store store' e =
      let (task, _, f, g, h, k, m, _, _) =
        decide_task-ok now by stable_key id decision reason store store' e in
      (task, f, g, h, m, is_outdated_lem task store k)

  closed-refused :
      (now : ℕ) (by stable_key : String) (id : ℕ) (decision : TaskDecision) (reason : String)
      (store : Store Float) (t : ReviewTask)
      → find_task id store.tasks ≡ some t
      → is_task_open t.status ≡ false
      → decide_task lib fl now by stable_key id decision reason store
        ≡ (store, err 409 "task_not_open")
  unfolding decide_task
  closed-refused now by stable_key id decision reason store t f g = rw (f, g, decide_task) refl

  -- A task is decided once: a second decision of it, by whomever and whatever it is, fails and
  -- changes nothing.
  pub decided_once :
      (now : ℕ) (by stable_key : String) (id : ℕ) (decision : TaskDecision) (reason : String)
      (store store' : Store Float) (now' : ℕ) (by' stable_key' : String) (decision' : TaskDecision)
      (reason' : String)
      → decide_task lib fl now by stable_key id decision reason store ≡ (store', ok tt)
      → (status : ℕ) × (code : String) × (decide_task lib fl now' by' stable_key' id decision'
            reason' store'
          ≡ (store', err status code))
  unfolding decide_task
  decided_once now by stable_key id decision reason store store' now' by' stable_key' decision'
        reason' e =
      let (_, t, _, _, _, _, _, _, same) =
        decide_task-ok now by stable_key id decision reason store store' e in
      let change_of = decided_task decision reason by in
      elim (find_task-change id change_of t.tasks (λ u. refl)) [
        | inl f ↦
            let missing : find_task id store'.tasks ≡ none =
              ap (λ s. find_task id s.tasks) same ∙ f in
            (404, "task_not_found", rw (missing, decide_task) refl)
        | inr (u, f) ↦
            let found : find_task id store'.tasks ≡ some (change_of u) =
              ap (λ s. find_task id s.tasks) same ∙ f in
            (
              409,
              "task_not_open",
              closed-refused now' by' stable_key' id decision' reason' store' (change_of u) found
                  (closed decision),
            )
      ]

  approve_master-entity :
      (by : String) (entity_id version : ℕ) (reason : String) (store t : Store Float)
      → approve_master by (some entity_id) version reason store ≡ ok t
      → (e : Entity) × (find_entity entity_id store.entities ≡ some e)
        × (t.entities
            ≡ change_where (λ x. x.id == e.id) (λ x. record x { status = approved }) store.entities)
  unfolding approve_master
  approve_master-entity by entity_id version reason store t e =
      let (found, _, f) =
        >>=-ok
          (required (find_first (is_draft entity_id version) store.masters) 409 "draft_unavailable")
          _ _ e in
      let (entity, g, h) =
        >>=-ok (required (find_entity entity_id store.entities) 500 "AttributeError") _ _ f in
      (
        entity,
        required-ok (find_entity entity_id store.entities) 500 "AttributeError" entity g,
        ap (λ s. s.entities) (sym (ok-eq h)),
      )

  effect-approval :
      (now : ℕ) (by stable_key : String) (task : ReviewTask) (version : ℕ) (reason : String)
      (store : Store Float)
      → task.kind ≡ master_approval version
      → effect lib fl now by stable_key task approve reason store
        ≡ approve_master by task.entity_id version reason store
  unfolding effect
  effect-approval now by stable_key task version reason store kind = rw (kind, effect) refl

  -- The approval of a draft that takes effect makes the entity an approved one, whatever status it
  -- had: an entity that was merged into another is not merged any more.
  pub approval_revives :
      (now : ℕ) (by stable_key : String) (id : ℕ) (reason : String) (store store' : Store Float)
      (task : ReviewTask) (entity_id version : ℕ)
      → decide_task lib fl now by stable_key id approve reason store ≡ (store', ok tt)
      → find_task id store.tasks ≡ some task
      → task.kind ≡ master_approval version
      → task.entity_id ≡ some entity_id
      → (e : Entity) × (find_entity entity_id store'.entities ≡ some e) × (e.status ≡ approved)
  approval_revives now by stable_key id reason store store' task entity_id version e found kind
        of_it =
      let (task', t, f, _, _, _, _, done, same) =
        decide_task-ok now by stable_key id approve reason store store' e in
      let same_task : task' ≡ task = some-eq (sym f ∙ found) in
      let moved : effect lib fl now by stable_key task approve reason store ≡ ok t =
        subst (λ x. effect lib fl now by stable_key x approve reason store ≡ ok t) same_task done in
      let approval : approve_master by (some entity_id) version reason store ≡ ok t =
        ap (λ x. approve_master by x version reason store) (sym of_it)
        ∙ sym (effect-approval now by stable_key task version reason store kind)
        ∙ moved in
      let (entity, g, h) = approve_master-entity by entity_id version reason store t approval in
      let now_approved : Entity → Entity = λ x. record x { status = approved } in
      (
        now_approved entity,
        ap (λ s. find_entity entity_id s.entities) same
            ∙ ap (find_entity entity_id) h
            ∙ find_entity-change entity_id entity now_approved store.entities g (λ x. refl),
        refl,
      )
