-- ===== src/Config/Active.antt =====
-- The configurations that are active.
use recordlane.Base.{
  ℕ, suc, String, ◌≡◌, refl, sym, ap, ◌∙◌, subst, inl, inr, Bool, true, false, some, List, [], ◌∷◌,
  ◌++◌, arith, ◌==◌, ==_iff, In, In-append, str_eq, Bool-cases, Option-cases, if◌then◌else◌,
}
use recordlane.Http.{Result, ok, err, ◌>>=◌, >>=-ok, ok-eq, ok-err, Result-cases, required}
use recordlane.Policy.{CompiledPolicy}
use recordlane.Review.{approve, find_first, change_where}
use recordlane.Review.Draft.{is_task_open}
use recordlane.Config.{
  ConfigurationVersion, Simulation, ConfigurationTask, Settings, Compiler, active,
  retired_configuration,
}
use recordlane.Config.Snapshot.{Snapshot}
use recordlane.Config.Drafts.{configuration_policies, find_domain, add_audit}
use recordlane.Config.Approval.{
  activate, is_active_status, decide_config, approve_config, activate_config, install,
  snapshot_hash, is_config_draft, is_simulation_of, finish_proposal, set_definition, new_job,
}

-- Every active configuration has this identifier.
abbrev pub ActiveIs : {D : Type 0} → ℕ → List (ConfigurationVersion D) → Type 0
ActiveIs id configs =
    (c : ConfigurationVersion _) → In c configs → is_active_status c.status ≡ true → c.id ≡ id

pub In-change_where :
    {A : Type 0} (p : A → Bool) (f : A → A) (x : A) (l : List A)
    → In x (change_where p f l)
    → (y : A) × In y l × (x ≡ (if p y then f y else y))
In-change_where p f x [] m = absurd m
In-change_where p f x (y ∷ l) (inl q) = (y, inl refl, q)
In-change_where p f x (y ∷ l) (inr m) = let (z, n, q) = In-change_where p f x l m in (z, inr n, q)

pub activate-ActiveIs :
    {D : Type 0} (id : ℕ) (configs : List (ConfigurationVersion D))
    → ActiveIs id (activate id configs)
activate-ActiveIs id configs c m live =
    let (d, n, q) = In-change_where (λ c. c.id == id) (λ c. record c { status = active }) c _ m in
    let (b, k, r) =
      In-change_where (λ c. is_active_status c.status)
        (λ c. record c { status = retired_configuration }) d configs n in
    elim (Bool-cases (d.id == id)) [
      | inl same ↦
          let h : c ≡ record d { status = active } = rw same at q in
          ap (λ x. x.id) h ∙ (==_iff d.id id).0 same
      | inr other ↦
          let h : c ≡ d = rw other at q in
          let live' : is_active_status d.status ≡ true = rw h at live in
          elim (Bool-cases (is_active_status b.status)) [
            | inl was ↦
                let g : d ≡ record b { status = retired_configuration } = rw was at r in
                let e : false ≡ true = ap (λ x. is_active_status x.status) (sym g) ∙ live' in
                ground arith
            | inr was ↦
                let g : d ≡ b = rw was at r in
                let e : false ≡ true =
                  sym was ∙ ap (λ x. is_active_status x.status) (sym g) ∙ live' in
                ground arith
          ]
    ]

pub added-ActiveIs :
    {D : Type 0} (id : ℕ) (new : ConfigurationVersion D) (configs : List (ConfigurationVersion D))
    → is_active_status new.status ≡ false
    → ActiveIs id configs
    → ActiveIs id (configs ++ new ∷ [])
added-ActiveIs id new configs idle all c m live = elim (In-append c configs (new ∷ []) m) [
  | inl old ↦ all c old live
  | inr (inl q) ↦
      let e : false ≡ true = sym idle ∙ ap (λ x. is_active_status x.status) (sym q) ∙ live in
      ground arith
  | inr (inr z) ↦ absurd z
]

module _ {D F : Type 0} (compiler : Compiler D F) (definition_hash : CompiledPolicy F → String)
    (hash : Snapshot → String) (by : String) where
  install-configs :
      (config_id : ℕ) (policies : List (String × CompiledPolicy F)) (s t : Settings D F)
      → install compiler definition_hash hash by config_id policies s ≡ ok t
      → t.configs ≡ s.configs
  unfolding install
  install-configs config_id [] s t e = ap (λ x. x.configs) (sym (ok-eq e))
  install-configs config_id ((key, p) ∷ rest) s t e =
      let next : Settings D F = record s {
        store = record s.store {
          next = suc s.store.next;
          domains = set_definition compiler definition_hash hash by key p s.store.domains;
        };
        jobs = s.jobs ++ new_job compiler definition_hash hash by s.store.next config_id key p ∷ [];
      } in
      let (_, _, f) =
        >>=-ok (required (find_domain key s.store.domains) 409 "configuration_domain_missing")
          (λ _. install compiler definition_hash hash by config_id rest next) t e in
      install-configs config_id rest next t f

  pub activate_config-configs :
      (config : ConfigurationVersion D) (s t : Settings D F)
      → activate_config compiler definition_hash hash by config s ≡ ok t
      → t.configs ≡ activate config.id s.configs
  unfolding activate_config
  activate_config-configs config s t e =
      let activated = record s { configs = activate config.id s.configs } in
      let audited : Settings D F → Settings D F =
        λ i. record i { store = add_audit compiler "configuration.activated" config.id i.store } in
      let (policies, _, f) =
        >>=-ok
          (required (configuration_policies compiler s.store.domains config.document) 500
            "PolicyError")
          (λ p.
            install compiler definition_hash hash by config.id p activated >>= λ i. ok (audited i))
          t e in
      let (i, g, h) =
        >>=-ok (install compiler definition_hash hash by config.id policies activated)
          (λ i. ok (audited i)) t f in
      ap (λ x. x.configs) (sym (ok-eq h)) ∙ install-configs config.id policies activated i g

  -- The tables after an activation that may fail.
  abbrev committed :
      ConfigurationTask
      → String
      → Settings D F
      → Result (Settings D F)
      → Settings D F × Result (Unit {0})
  committed task reason s (err status code) = (s, err status code)
  committed task reason s (ok s') =
      (finish_proposal compiler definition_hash hash by task.id approve reason s', ok tt)

  -- What an approval of a proposal that takes effect rests on.
  pub record Activated (task : ConfigurationTask) (s t : Settings D F) : Type 0 where
    pub config : ConfigurationVersion D
    pub simulation : Simulation
    pub is_draft : find_first (is_config_draft task.config_id) s.configs ≡ some config
    pub is_simulated :
        find_first (is_simulation_of task.simulation_id task.config_id) s.simulations
        ≡ some simulation
    pub unchanged : str_eq config.checksum task.checksum ≡ true
    pub current :
        str_eq (snapshot_hash compiler definition_hash hash by s.store) simulation.snapshot_hash
        ≡ true
    pub configs : t.configs ≡ activate config.id s.configs

  -- The last step of the approval.
  activated :
      (task : ConfigurationTask) (reason : String) (config : ConfigurationVersion D)
      (simulation : Simulation) (s t : Settings D F)
      → find_first (is_config_draft task.config_id) s.configs ≡ some config
      → find_first (is_simulation_of task.simulation_id task.config_id) s.simulations
        ≡ some simulation
      → str_eq config.checksum task.checksum ≡ true
      → str_eq (snapshot_hash compiler definition_hash hash by s.store) simulation.snapshot_hash
        ≡ true
      → committed task reason s (activate_config compiler definition_hash hash by config s)
        ≡ (t, ok tt)
      → Activated task s t
  activated task reason config simulation s t found run same current e =
      elim (Result-cases (activate_config compiler definition_hash hash by config s)) [
        | inl (status, code, q) ↦ absurd (ok-err (ap (λ x. x.1) (rw q at e)))
        | inr (s', q) ↦ record {
          config = config;
          simulation = simulation;
          is_draft = found;
          is_simulated = run;
          unchanged = same;
          current = current;
          configs = ap (λ x. x.0.configs) (sym (rw q at e)) ∙ activate_config-configs config s s' q;
        }
      ]

  approve_config-Activated :
      (task : ConfigurationTask) (reason : String) (s t : Settings D F)
      → approve_config compiler definition_hash hash by task reason s ≡ (t, ok tt)
      → Activated task s t
  unfolding approve_config
  approve_config-Activated task reason s t e =
      elim (Option-cases (find_first (is_config_draft task.config_id) s.configs)) [
        | inl n ↦ absurd (ok-err (ap (λ x. x.1) (rw (approve_config, n) at e)))
        | inr (config, found) ↦
            elim (Option-cases
              (find_first (is_simulation_of task.simulation_id task.config_id) s.simulations)) [
                | inl n ↦ absurd (ok-err (ap (λ x. x.1) (rw (approve_config, found, n) at e)))
                | inr (simulation, run) ↦ elim (Bool-cases (str_eq config.checksum task.checksum)) [
                  | inr other ↦
                      absurd (ok-err (ap (λ x. x.1) (rw (approve_config, found, run, other) at e)))
                  | inl same ↦
                      elim (Bool-cases (
                        str_eq (snapshot_hash compiler definition_hash hash by s.store)
                          simulation.snapshot_hash)) [
                            | inr late ↦ absurd (
                                ok-err (
                                  ap (λ x. x.1) (rw (approve_config, found, run, same, late) at e)))
                            | inl current ↦
                                activated task reason config simulation s t found run same current
                                  (rw (approve_config, found, run, same, current) at e)
                          ]
                ]
              ]
      ]

  -- When the approval of a configuration succeeds, its open task was proposed by another principal,
  -- the draft of the task has the task's checksum, the task's simulation of that draft has the hash
  -- of the rows as they are at the approval, and every configuration that is active then is the one
  -- approved.
  pub approval_is_current :
      (task_id : ℕ) (reason : String) (s t : Settings D F)
      → decide_config compiler definition_hash hash by task_id approve reason s ≡ (t, ok tt)
      → (task : ConfigurationTask) × (find_first (λ u. u.id == task_id) s.proposals ≡ some task)
        × (is_task_open task.status ≡ true)
        × (str_eq task.proposed_by by ≡ false)
        × (a : Activated task s t) × ActiveIs a.config.id t.configs
  unfolding decide_config
  approval_is_current task_id reason s t e =
      elim (Option-cases (find_first (λ u. u.id == task_id) s.proposals)) [
        | inl n ↦ absurd (ok-err (ap (λ x. x.1) (rw (decide_config, n) at e)))
        | inr (task, found) ↦ elim (Bool-cases (is_task_open task.status)) [
          | inr shut ↦ absurd (ok-err (ap (λ x. x.1) (rw (decide_config, found, shut) at e)))
          | inl live ↦ elim (Bool-cases (str_eq task.proposed_by by)) [
            | inl own ↦ absurd (ok-err (ap (λ x. x.1) (rw (decide_config, found, live, own) at e)))
            | inr another ↦
                let a =
                  approve_config-Activated task reason s t
                    (rw (decide_config, found, live, another) at e) in
                (
                  task,
                  found,
                  live,
                  another,
                  a,
                  subst (ActiveIs a.config.id) (sym a.configs)
                      (activate-ActiveIs a.config.id s.configs),
                )
          ]
        ]
      ]
