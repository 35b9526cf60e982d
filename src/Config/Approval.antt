-- ===== src/Config/Approval.antt =====
-- simulate, propose_config, and decide_task for a configuration_approval task. The result of a
-- simulation is its hash and checkpoint here; the changes that it lists are not modelled, but their
-- computation may raise.
use recordlane.Base.{
  ℕ, suc, String, Bool, true, false, not, ◌&&◌, none, some, List, [], ◌∷◌, ◌++◌, ◌==◌,
  if◌then◌else◌, str_eq, length,
}
use recordlane.Http.{Result, ok, err, ◌>>=◌, ◌>>◌, raise_if, required}
use recordlane.Policy.{CompiledPolicy}
use recordlane.Review.{
  TaskDecision, approve, reject, task_open, task_stale, Domain, Store, find_first, change_where,
}
use recordlane.Review.Draft.{is_task_open}
use recordlane.Review.Decide.{status_after, action_of}
use recordlane.Config.{
  ConfigurationVersion, ConfigurationStatus, draft_configuration, active, retired_configuration,
  Simulation, ConfigurationTask, RemasterJob, Settings, Compiler,
}
use recordlane.Config.Drafts.{configuration_policies, find_domain, add_audit}
use recordlane.Config.Impact.{simulate_all}
use recordlane.Config.Snapshot.{Snapshot, snapshot}

abbrev pub is_draft_status : ConfigurationStatus → Bool
is_draft_status draft_configuration = true
is_draft_status _ = false

abbrev pub is_active_status : ConfigurationStatus → Bool
is_active_status active = true
is_active_status _ = false

abbrev pub is_config_draft : {D : Type 0} → ℕ → ConfigurationVersion D → Bool
is_config_draft id c = c.id == id && is_draft_status c.status

abbrev pub is_simulation_of : ℕ → ℕ → Simulation → Bool
is_simulation_of id config_id s = s.id == id && s.config_id == config_id

-- The status of the configurations when one is activated.
abbrev pub activate :
    {D : Type 0} → ℕ → List (ConfigurationVersion D) → List (ConfigurationVersion D)
activate id configs =
    change_where (λ c. c.id == id) (λ c. record c { status = active })
      (change_where (λ c. is_active_status c.status)
        (λ c. record c { status = retired_configuration }) configs)

-- `configuration_approval` in ALLOWED_TASK_DECISIONS
abbrev pub decides_configuration : TaskDecision → Bool
decides_configuration approve = true
decides_configuration reject = true
decides_configuration _ = false

abbrev pub supersede : ConfigurationTask → ConfigurationTask
supersede t = record t {
  status = task_stale;
  decision_reason = some "Superseded by a newer configuration proposal";
}

-- The open proposal, if there is one, becomes stale.
abbrev pub supersede_open : List ConfigurationTask → List ConfigurationTask
supersede_open proposals = elim (find_first (λ t. is_task_open t.status) proposals) [
  | none ↦ proposals
  | some t ↦ change_where (λ u. u.id == t.id) supersede proposals
]

module _ {D F : Type 0} (compiler : Compiler D F) (definition_hash : CompiledPolicy F → String)
    (hash : Snapshot → String) (by : String) where
  abbrev pub snapshot_hash : Store F → String
  snapshot_hash store = hash (snapshot definition_hash store)

  abbrev pub new_simulation : ConfigurationVersion D → Settings D F → Simulation
  new_simulation config s = record {
    id = s.store.next;
    config_id = config.id;
    data_checkpoint = length s.store.records;
    snapshot_hash = snapshot_hash s.store;
  }

  unfoldable pub simulate : ℕ → Settings D F → Result (Settings D F × Simulation)
  unfolding configuration_policies snapshot simulate_all
  simulate config_id s = do
    config ← required (find_first (λ c. c.id == config_id) s.configs) 404 "configuration_not_found"
    policies ←
        required (configuration_policies compiler s.store.domains config.document) 500 "PolicyError"
    _ ← simulate_all compiler.library s.store policies
    ok (
      record s {
        store = record s.store { next = suc s.store.next };
        simulations = s.simulations ++ new_simulation config s ∷ [];
      },
      new_simulation config s,
    )

  abbrev pub new_proposal : ConfigurationVersion D → Simulation → Settings D F → ConfigurationTask
  new_proposal config simulation s = record {
    id = s.store.next;
    status = task_open;
    proposed_by = by;
    config_id = config.id;
    checksum = config.checksum;
    simulation_id = simulation.id;
    decision_reason = none;
    decided_by = none;
  }

  unfoldable pub propose_config : ℕ → ℕ → Settings D F → Result (Settings D F × ConfigurationTask)
  unfolding snapshot
  propose_config config_id simulation_id s = do
    config ←
        required (find_first (is_config_draft config_id) s.configs) 404
          "configuration_draft_not_found"
    simulation ←
        required (find_first (is_simulation_of simulation_id config_id) s.simulations) 409
          "matching_simulation_required"
    raise_if (not (str_eq (snapshot_hash s.store) simulation.snapshot_hash)) 409 "stale_simulation"
    ok (
      record s {
        store =
            add_audit compiler "configuration.proposed" s.store.next
              (record s.store { next = suc s.store.next });
        proposals = supersede_open s.proposals ++ new_proposal config simulation s ∷ [];
      },
      new_proposal config simulation s,
    )

  abbrev pub set_definition : String → CompiledPolicy F → List (Domain F) → List (Domain F)
  set_definition key p domains =
      change_where (λ d. str_eq d.key key) (λ d. record d { definition = p }) domains

  abbrev pub new_job : ℕ → ℕ → String → CompiledPolicy F → RemasterJob
  new_job id config_id key p = record {
    id = id;
    domain_key = key;
    policy_checksum = p.checksum;
    configuration_id = config_id;
  }

  -- The definition of every domain of the configuration, and its job.
  unfoldable pub install :
      ℕ → List (String × CompiledPolicy F) → Settings D F → Result (Settings D F)
  install config_id [] s = ok s
  install config_id ((key, p) ∷ rest) s =
      required (find_domain key s.store.domains) 409 "configuration_domain_missing" >>= λ _.
      install config_id rest (record s {
        store = record s.store {
          next = suc s.store.next;
          domains = set_definition key p s.store.domains;
        };
        jobs = s.jobs ++ new_job s.store.next config_id key p ∷ [];
      })

  -- What the approval of a proposal that is in force does.
  unfoldable pub activate_config : ConfigurationVersion D → Settings D F → Result (Settings D F)
  unfolding install configuration_policies
  activate_config config s = do
    policies ←
        required (configuration_policies compiler s.store.domains config.document) 500 "PolicyError"
    installed ← install config.id policies (record s { configs = activate config.id s.configs })
    ok (record installed {
      store = add_audit compiler "configuration.activated" config.id installed.store;
    })

  abbrev pub decide_proposal : TaskDecision → String → ConfigurationTask → ConfigurationTask
  decide_proposal decision reason t = record t {
    status = status_after decision;
    decision_reason = some reason;
    decided_by = some by;
  }

  abbrev pub change_proposal :
      ℕ → (ConfigurationTask → ConfigurationTask) → Settings D F → Settings D F
  change_proposal id f s = record s { proposals = change_where (λ t. t.id == id) f s.proposals }

  abbrev pub finish_proposal : ℕ → TaskDecision → String → Settings D F → Settings D F
  finish_proposal task_id decision reason s =
      let done = change_proposal task_id (decide_proposal decision reason) s in
      record done { store = add_audit compiler (action_of decision) task_id done.store }

  -- The approval of a proposal. Only a stale one is committed with an error.
  unfoldable pub approve_config :
      ConfigurationTask → String → Settings D F → Settings D F × Result (Unit {0})
  unfolding activate_config snapshot
  approve_config task reason s = elim (find_first (is_config_draft task.config_id) s.configs) [
    | none ↦ (s, err 409 "configuration_changed")
    | some config ↦
        elim (find_first (is_simulation_of task.simulation_id task.config_id) s.simulations) [
          | none ↦ (s, err 409 "configuration_changed")
          | some simulation ↦
              if not (str_eq config.checksum task.checksum)
              then (s, err 409 "configuration_changed")
              else if not (str_eq (snapshot_hash s.store) simulation.snapshot_hash)
              then (
                change_proposal task.id (λ t. record t { status = task_stale }) s,
                err 409 "stale_simulation",
              )
              else elim (activate_config config s) [
                | err status code ↦ (s, err status code)
                | ok s' ↦ (finish_proposal task.id approve reason s', ok tt)
              ]
        ]
  ]

  -- decide_task, for a task of kind configuration_approval, which is sensitive and has no entity.
  unfoldable pub decide_config :
      ℕ → TaskDecision → String → Settings D F → Settings D F × Result (Unit {0})
  unfolding approve_config
  decide_config task_id decision reason s = elim (find_first (λ t. t.id == task_id) s.proposals) [
    | none ↦ (s, err 404 "task_not_found")
    | some task ↦
        if not (is_task_open task.status)
        then (s, err 409 "task_not_open")
        else if not (decides_configuration decision)
        then (s, err 409 "invalid_task_decision")
        else if str_eq task.proposed_by by
        then (s, err 403 "separation_of_duties")
        else elim decision [
          | approve ↦ approve_config task reason s
          | other ↦ (finish_proposal task_id other reason s, ok tt)
        ]
  ]
