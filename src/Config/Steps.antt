-- ===== src/Config/Steps.antt =====
-- The steps of a configuration that succeed.
use recordlane.Base.{
  suc, String, ◌≡◌, refl, true, false, some, List, [], ◌∷◌, ◌++◌, ◌==◌, str_eq, str_eq_iff,
}
use recordlane.Http.{ok}
use recordlane.Policy.{CompiledPolicy}
use recordlane.Review.{approve, find_first}
use recordlane.Config.{ConfigurationVersion, Simulation, ConfigurationTask, Settings, Compiler}
use recordlane.Config.Snapshot.{Snapshot}
use recordlane.Config.Drafts.{configuration_policies, add_audit}
use recordlane.Config.Active.{activate_config-configs}
use recordlane.Review.Draft.{is_task_open}
use recordlane.Config.Impact.{simulate_all}
use recordlane.Config.Approval.{
  activate, simulate, propose_config, decide_config, approve_config, activate_config, snapshot_hash,
  is_config_draft, is_simulation_of, new_simulation, new_proposal, supersede_open, finish_proposal,
}
use recordlane.Config.Installed.{configuration_policies-have_domains, install-ok}

module _ {D F : Type 0} (compiler : Compiler D F) (definition_hash : CompiledPolicy F → String)
    (hash : Snapshot → String) (by : String) where
  -- The tables when a draft is made, simulated and proposed.
  abbrev pub simulated : ConfigurationVersion D → Settings D F → Settings D F
  simulated c s = record s {
    store = record s.store { next = suc s.store.next };
    simulations = s.simulations ++ new_simulation compiler definition_hash hash by c s ∷ [];
  }

  -- A configuration that is found among the rows is simulated.
  pub simulate-ok :
      (s : Settings D F) (c : ConfigurationVersion D) (policies : List (String × CompiledPolicy F))
      → find_first (λ d. d.id == c.id) s.configs ≡ some c
      → configuration_policies compiler s.store.domains c.document ≡ some policies
      → simulate_all compiler.library s.store policies ≡ ok tt
      → simulate compiler definition_hash hash by c.id s
        ≡ ok (simulated c s, new_simulation compiler definition_hash hash by c s)
  unfolding simulate
  simulate-ok s c policies found compiled there = rw (simulate, found, compiled, there) refl

  abbrev pub proposed : ConfigurationVersion D → Simulation → Settings D F → Settings D F
  proposed c x s = record s {
    store =
        add_audit compiler "configuration.proposed" s.store.next
          (record s.store { next = suc s.store.next });
    proposals =
        supersede_open s.proposals ++ new_proposal compiler definition_hash hash by c x s ∷ [];
  }

  -- A draft with a simulation of the rows as they are is proposed.
  pub propose_config-ok :
      (s : Settings D F) (c : ConfigurationVersion D) (x : Simulation)
      → find_first (is_config_draft c.id) s.configs ≡ some c
      → find_first (is_simulation_of x.id c.id) s.simulations ≡ some x
      → snapshot_hash compiler definition_hash hash by s.store ≡ x.snapshot_hash
      → propose_config compiler definition_hash hash by c.id x.id s
        ≡ ok (proposed c x s, new_proposal compiler definition_hash hash by c x s)
  unfolding propose_config
  propose_config-ok s c x found run same =
      let current =
        (str_eq_iff (snapshot_hash compiler definition_hash hash by s.store) _).1 same in
      rw (propose_config, found, run, current) refl

  -- A configuration whose document has policies is activated.
  activate_config-ok :
      (s : Settings D F) (c : ConfigurationVersion D) (policies : List (String × CompiledPolicy F))
      → configuration_policies compiler s.store.domains c.document ≡ some policies
      → (t : Settings D F) × (activate_config compiler definition_hash hash by c s ≡ ok t)
  unfolding activate_config
  activate_config-ok s c policies compiled =
      let there =
        configuration_policies-have_domains compiler definition_hash hash by s.store.domains
          c.document policies compiled in
      let (t, done, _) =
        install-ok compiler definition_hash hash by c.id policies
          (record s { configs = activate c.id s.configs }) there in
      (
        record t { store = add_audit compiler "configuration.activated" c.id t.store },
        rw (activate_config, compiled, done) refl,
      )

  -- An open proposal of another principal is approved.
  pub decide_config-ok :
      (s : Settings D F) (task : ConfigurationTask) (c : ConfigurationVersion D) (x : Simulation)
      (reason : String) (policies : List (String × CompiledPolicy F))
      → find_first (λ u. u.id == task.id) s.proposals ≡ some task
      → is_task_open task.status ≡ true
      → str_eq task.proposed_by by ≡ false
      → find_first (is_config_draft task.config_id) s.configs ≡ some c
      → find_first (is_simulation_of task.simulation_id task.config_id) s.simulations ≡ some x
      → c.checksum ≡ task.checksum
      → snapshot_hash compiler definition_hash hash by s.store ≡ x.snapshot_hash
      → configuration_policies compiler s.store.domains c.document ≡ some policies
      → (t : Settings D F) × (decide_config compiler definition_hash hash by task.id approve reason
            s
          ≡ (t, ok tt))
        × (t.configs ≡ activate c.id s.configs)
  unfolding decide_config approve_config
  decide_config-ok s task c x reason policies found live another draft run same_checksum same
        compiled =
      let checksum = (str_eq_iff c.checksum task.checksum).1 same_checksum in
      let current =
        (str_eq_iff (snapshot_hash compiler definition_hash hash by s.store) _).1 same in
      let (t, done) = activate_config-ok s c policies compiled in
      (
        finish_proposal compiler definition_hash hash by task.id approve reason t,
        rw
            (
              decide_config, approve_config, found, live, another, draft, run, checksum, current,
              done,
            )
            refl,
        activate_config-configs compiler definition_hash hash by c s t done,
      )
