-- ===== src/Config/Machine.antt =====
-- Every sequence of what the functions of Config do, each by some principal. An error leaves what the
-- function commits.
use recordlane.Base.{
  ℕ, String, ◌≡◌, refl, sym, ap, ◌∙◌, subst, inl, inr, true, false, not, some, List, [], ◌∷◌, ◌++◌,
  ◌==◌, str_eq, Bool-cases, Option-cases,
}
use recordlane.Http.{Result, ok, err, ok-err, ok-eq, Result-cases}
use recordlane.Policy.{CompiledPolicy}
use recordlane.Review.{TaskDecision, approve, reject, keep_separate, link, find_first}
use recordlane.Review.Draft.{is_task_open}
use recordlane.Config.{
  ConfigurationVersion, Document, Simulation, ConfigurationTask, Settings, Compiler,
}
use recordlane.Config.Snapshot.{Snapshot}
use recordlane.Config.Drafts.{create_config, revert_config, configuration_policies, new_config}
use recordlane.Config.Impact.{simulate_all}
use recordlane.Config.Approval.{
  activate, is_active_status, simulate, propose_config, decide_config, approve_config,
  activate_config, snapshot_hash, is_config_draft, is_simulation_of,
}
use recordlane.Config.Active.{ActiveIs, activate-ActiveIs, added-ActiveIs, activate_config-configs}

pub data Command (D : Type 0) : Type 0 where
  creates : Document D → Command D
  reverts : ℕ → Command D
  simulates : ℕ → Command D
  proposes : ℕ → ℕ → Command D
  decides : ℕ → TaskDecision → String → Command D

-- The tables after a result, which an error leaves.
abbrev pub after : {D F A : Type 0} → Settings D F → Result (Settings D F × A) → Settings D F
after s (ok x) = x.0
after s (err status code) = s

module _ {D F : Type 0} (compiler : Compiler D F) (definition_hash : CompiledPolicy F → String)
    (hash : Snapshot → String) where
  unfoldable pub run : String → Command D → Settings D F → Settings D F
  unfolding create_config revert_config simulate propose_config decide_config
  run by (creates document) s = after s (create_config compiler by document s)
  run by (reverts id) s = after s (revert_config compiler by id s)
  run by (simulates id) s = after s (simulate compiler definition_hash hash by id s)
  run by (proposes config_id simulation_id) s =
      after s (propose_config compiler definition_hash hash by config_id simulation_id s)
  run by (decides id decision reason) s =
      (decide_config compiler definition_hash hash by id decision reason s).0

  unfoldable pub run_all : List (String × Command D) → Settings D F → Settings D F
  unfolding run
  run_all [] s = s
  run_all ((by, c) ∷ rest) s = run_all rest (run by c s)

  -- What an operation does to the configurations: nothing, a draft more, or an activation.
  data Change (s t : Settings D F) : Type 0 where
    kept : t.configs ≡ s.configs → Change s t
    drafted :
        (c : ConfigurationVersion D)
        → is_active_status c.status ≡ false
        → t.configs ≡ s.configs ++ c ∷ []
        → Change s t
    activates : (id : ℕ) → t.configs ≡ activate id s.configs → Change s t

  same_configs : (s t u : Settings D F) → u.configs ≡ t.configs → Change s t → Change s u
  same_configs s t u e (kept q) = kept (e ∙ q)
  same_configs s t u e (drafted c idle q) = drafted c idle (e ∙ q)
  same_configs s t u e (activates id q) = activates id (e ∙ q)

  after-Change :
      {A : Type 0} (s : Settings D F) (r : Result (Settings D F × A))
      → ((x : Settings D F × A) → r ≡ ok x → Change s x.0)
      → Change s (after s r)
  after-Change s (ok x) good = good x refl
  after-Change s (err status code) good = kept refl

  create_config-Change :
      (by : String) (document : Document D) (s : Settings D F)
      (x : Settings D F × ConfigurationVersion D)
      → create_config compiler by document s ≡ ok x
      → Change s x.0
  unfolding create_config
  create_config-Change by document s x e = elim (Bool-cases (compiler.has_secret document)) [
    | inl secret ↦ absurd (ok-err (rw (create_config, secret) at e))
    | inr plain ↦ elim (Option-cases (configuration_policies compiler s.store.domains document)) [
      | inl n ↦ absurd (ok-err (rw (create_config, plain, n) at e))
      | inr (policies, found) ↦
          drafted (new_config compiler by document s) refl
            (ap (λ y. y.0.configs) (sym (ok-eq (rw (create_config, plain, found) at e))))
    ]
  ]

  revert_config-Change :
      (by : String) (id : ℕ) (s : Settings D F) (x : Settings D F × ConfigurationVersion D)
      → revert_config compiler by id s ≡ ok x
      → Change s x.0
  unfolding revert_config
  revert_config-Change by id s x e = elim (Option-cases (find_first (λ c. c.id == id) s.configs)) [
    | inl n ↦ absurd (ok-err (rw (revert_config, n) at e))
    | inr (source, found) ↦ elim (Result-cases (create_config compiler by source.document s)) [
      | inl (status, code, q) ↦ absurd (ok-err (rw (revert_config, found, q) at e))
      | inr (y, q) ↦
          same_configs s y.0 x.0
            (ap (λ z. z.0.configs) (sym (ok-eq (rw (revert_config, found, q) at e))))
            (create_config-Change by source.document s y q)
    ]
  ]

  simulate-Change :
      (by : String) (id : ℕ) (s : Settings D F) (x : Settings D F × Simulation)
      → simulate compiler definition_hash hash by id s ≡ ok x
      → Change s x.0
  unfolding simulate
  simulate-Change by id s x e = elim (Option-cases (find_first (λ c. c.id == id) s.configs)) [
    | inl n ↦ absurd (ok-err (rw (simulate, n) at e))
    | inr (config, found) ↦
        elim (Option-cases (configuration_policies compiler s.store.domains config.document)) [
          | inl n ↦ absurd (ok-err (rw (simulate, found, n) at e))
          | inr (policies, compiled) ↦
              elim (Result-cases (simulate_all compiler.library s.store policies)) [
                | inl (status, code, raised) ↦
                    absurd (ok-err (rw (simulate, found, compiled, raised) at e))
                | inr (_, there) ↦ kept (
                    ap (λ y. y.0.configs)
                      (sym (ok-eq (rw (simulate, found, compiled, there) at e))))
              ]
        ]
  ]

  propose_config-Change :
      (by : String) (id simulation_id : ℕ) (s : Settings D F) (x : Settings D F × ConfigurationTask)
      → propose_config compiler definition_hash hash by id simulation_id s ≡ ok x
      → Change s x.0
  unfolding propose_config
  propose_config-Change by id simulation_id s x e =
      elim (Option-cases (find_first (is_config_draft id) s.configs)) [
        | inl n ↦ absurd (ok-err (rw (propose_config, n) at e))
        | inr (config, found) ↦
            elim (Option-cases (find_first (is_simulation_of simulation_id id) s.simulations)) [
              | inl n ↦ absurd (ok-err (rw (propose_config, found, n) at e))
              | inr (simulation, is_run) ↦
                  elim (Bool-cases (
                    not (
                      str_eq (snapshot_hash compiler definition_hash hash by s.store)
                        simulation.snapshot_hash))) [
                          | inl late ↦
                              absurd (ok-err (rw (propose_config, found, is_run, late) at e))
                          | inr current ↦ kept (
                              ap (λ y. y.0.configs)
                                (sym (ok-eq (rw (propose_config, found, is_run, current) at e))))
                        ]
            ]
      ]

  approve_config-Change :
      (by : String) (task : ConfigurationTask) (reason : String) (s : Settings D F)
      → Change s (approve_config compiler definition_hash hash by task reason s).0
  unfolding approve_config
  approve_config-Change by task reason s =
      elim (Option-cases (find_first (is_config_draft task.config_id) s.configs)) [
        | inl n ↦ rw (approve_config, n) (kept refl)
        | inr (config, found) ↦
            elim (Option-cases
              (find_first (is_simulation_of task.simulation_id task.config_id) s.simulations)) [
                | inl n ↦ rw (approve_config, found, n) (kept refl)
                | inr (simulation, is_run) ↦
                    elim (Bool-cases (str_eq config.checksum task.checksum)) [
                      | inr other ↦ rw (approve_config, found, is_run, other) (kept refl)
                      | inl same ↦
                          elim (Bool-cases (
                            str_eq (snapshot_hash compiler definition_hash hash by s.store)
                              simulation.snapshot_hash)) [
                                | inr late ↦
                                    rw (approve_config, found, is_run, same, late) (kept refl)
                                | inl current ↦
                                    elim (Result-cases
                                      (activate_config compiler definition_hash hash by config s)) [
                                        | inl (status, code, q) ↦
                                            rw (approve_config, found, is_run, same, current, q)
                                              (kept refl)
                                        | inr (t, q) ↦
                                            rw (approve_config, found, is_run, same, current, q)
                                              (activates config.id (
                                                activate_config-configs compiler definition_hash
                                                  hash by config s t q))
                                      ]
                              ]
                    ]
              ]
      ]

  open_task-Change :
      (by : String) (id : ℕ) (decision : TaskDecision) (reason : String) (s : Settings D F)
      (task : ConfigurationTask)
      → find_first (λ u. u.id == id) s.proposals ≡ some task
      → is_task_open task.status ≡ true
      → Change s (decide_config compiler definition_hash hash by id decision reason s).0
  unfolding decide_config
  open_task-Change by id keep_separate reason s task found live =
      rw (decide_config, found, live) (kept refl)
  open_task-Change by id link reason s task found live = rw (decide_config, found, live) (kept refl)
  open_task-Change by id reject reason s task found live =
      elim (Bool-cases (str_eq task.proposed_by by)) [
        | inl own ↦ rw (decide_config, found, live, own) (kept refl)
        | inr another ↦ rw (decide_config, found, live, another) (kept refl)
      ]
  open_task-Change by id approve reason s task found live =
      elim (Bool-cases (str_eq task.proposed_by by)) [
        | inl own ↦ rw (decide_config, found, live, own) (kept refl)
        | inr another ↦
            rw (decide_config, found, live, another) (approve_config-Change by task reason s)
      ]

  decide_config-Change :
      (by : String) (id : ℕ) (decision : TaskDecision) (reason : String) (s : Settings D F)
      → Change s (decide_config compiler definition_hash hash by id decision reason s).0
  unfolding decide_config
  decide_config-Change by id decision reason s =
      elim (Option-cases (find_first (λ u. u.id == id) s.proposals)) [
        | inl n ↦ rw (decide_config, n) (kept refl)
        | inr (task, found) ↦ elim (Bool-cases (is_task_open task.status)) [
          | inr shut ↦ rw (decide_config, found, shut) (kept refl)
          | inl live ↦ open_task-Change by id decision reason s task found live
        ]
      ]

  run-Change : (by : String) (c : Command D) (s : Settings D F) → Change s (run by c s)
  unfolding run
  run-Change by (creates document) s = after-Change s _ (create_config-Change by document s)
  run-Change by (reverts id) s = after-Change s _ (revert_config-Change by id s)
  run-Change by (simulates id) s = after-Change s _ (simulate-Change by id s)
  run-Change by (proposes config_id simulation_id) s =
      after-Change s _ (propose_config-Change by config_id simulation_id s)
  run-Change by (decides id decision reason) s = decide_config-Change by id decision reason s

  Change-ActiveIs :
      (s t : Settings D F) (id : ℕ)
      → Change s t
      → ActiveIs id s.configs
      → (j : ℕ) × ActiveIs j t.configs
  Change-ActiveIs s t id (kept q) all = (id, subst (ActiveIs id) (sym q) all)
  Change-ActiveIs s t id (drafted c idle q) all =
      (id, subst (ActiveIs id) (sym q) (added-ActiveIs id c s.configs idle all))
  Change-ActiveIs s t id (activates j q) all =
      (j, subst (ActiveIs j) (sym q) (activate-ActiveIs j s.configs))

  -- From tables where the active configurations are all one, every sequence of creations, reverts,
  -- simulations, proposals and decisions, by any principals and with or without success, leads to
  -- tables where they are all one.
  pub one_active :
      (commands : List (String × Command D)) (s : Settings D F) (id : ℕ)
      → ActiveIs id s.configs
      → (j : ℕ) × ActiveIs j (run_all commands s).configs
  unfolding run_all
  one_active [] s id all = (id, all)
  one_active ((by, c) ∷ rest) s id all =
      let (j, next) = Change-ActiveIs s (run by c s) id (run-Change by c s) all in
      one_active rest (run by c s) j next
