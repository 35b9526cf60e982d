-- ===== src/Config/Live.antt =====
-- A configuration from its draft to its activation.
use recordlane.Base.{
  ℕ, ◌<◌, String, ◌≡◌, refl, ap, subst, inl, inr, Bool, true, false, some, List, [], ◌∷◌, ◌++◌,
  arith, ◌==◌, In, In-append, str_eq, Bool-cases, Option-cases,
}
use recordlane.Http.{ok, ok-err, ok-eq}
use recordlane.Policy.{CompiledPolicy}
use recordlane.Review.{approve, find_first}
use recordlane.Config.{
  ConfigurationVersion, Document, Simulation, ConfigurationTask, Settings, Compiler,
}
use recordlane.Config.Snapshot.{Snapshot, snapshot}
use recordlane.Config.Drafts.{create_config, created_settings, configuration_policies, new_config}
use recordlane.Config.Active.{In-change_where}
use recordlane.Review.Draft.{is_task_open}
use recordlane.Config.Impact.{simulate_all}
use recordlane.Config.Approval.{
  activate, simulate, propose_config, decide_config, is_config_draft, is_simulation_of,
  new_simulation, new_proposal, supersede_open, supersede,
}
use recordlane.Config.Steps.{simulated, proposed, simulate-ok, propose_config-ok, decide_config-ok}

-- A row that is added is found, when no earlier one is picked.
find_first-added :
    {A : Type 0} (p : A → Bool) (x : A) (l : List A)
    → ((y : A) → In y l → p y ≡ false)
    → p x ≡ true
    → find_first p (l ++ x ∷ []) ≡ some x
find_first-added p x [] others here = rw here refl
find_first-added p x (y ∷ l) others here =
    rw (others y (inl refl), find_first-added p x l (λ z m. others z (inr m)) here) refl

-- The numbers of the rows are below the next one.
pub record Numbered {D F : Type 0} (s : Settings D F) : Type 0 where
  pub configs : (c : ConfigurationVersion D) → In c s.configs → c.id < s.store.next
  pub simulations : (x : Simulation) → In x s.simulations → x.id < s.store.next
  pub proposals : (t : ConfigurationTask) → In t s.proposals → t.id < s.store.next

not_next : (m n : ℕ) → m < n → (m == n) ≡ false
not_next m n h = ground (arith, h)

supersede_open-id :
    (t : ConfigurationTask) (l : List ConfigurationTask)
    → In t (supersede_open l)
    → (u : ConfigurationTask) × In u l × (t.id ≡ u.id)
supersede_open-id t l m = elim (Option-cases (find_first (λ u. is_task_open u.status) l)) [
  | inl n ↦ (t, rw (supersede_open, n) at m, refl)
  | inr (v, found) ↦
      let (u, n, q) =
        In-change_where (λ u. u.id == v.id) supersede t l (rw (supersede_open, found) at m) in
      elim (Bool-cases (u.id == v.id)) [
        | inl r ↦ let h : t ≡ supersede u = rw r at q in (u, n, ap (λ y. y.id) h)
        | inr r ↦ let h : t ≡ u = rw r at q in (u, n, ap (λ y. y.id) h)
      ]
]

module _ {D F : Type 0} (compiler : Compiler D F) (definition_hash : CompiledPolicy F → String)
    (hash : Snapshot → String) where
  -- The way of a new draft to its activation.
  pub record GoesLive (by other reason : String) (x : Settings D F × ConfigurationVersion D)
      : Type 0 where
    pub simulated : Settings D F × Simulation
    pub simulates : simulate compiler definition_hash hash by x.1.id x.0 ≡ ok simulated
    pub proposed : Settings D F × ConfigurationTask
    pub proposes :
        propose_config compiler definition_hash hash by x.1.id simulated.1.id simulated.0
        ≡ ok proposed
    pub approved : Settings D F
    pub approves :
        decide_config compiler definition_hash hash other proposed.1.id approve reason proposed.0
        ≡ (approved, ok tt)
    pub configs : approved.configs ≡ activate x.1.id x.0.configs

  draft-GoesLive :
      (by other reason : String) (c : ConfigurationVersion D) (s : Settings D F)
      (policies : List (String × CompiledPolicy F))
      → Numbered s
      → str_eq by other ≡ false
      → find_first (λ d. d.id == c.id) s.configs ≡ some c
      → find_first (is_config_draft c.id) s.configs ≡ some c
      → configuration_policies compiler s.store.domains c.document ≡ some policies
      → simulate_all compiler.library s.store policies ≡ ok tt
      → GoesLive by other reason (s, c)
  unfolding snapshot
  draft-GoesLive by other reason c s policies numbered another found draft compiled calm =
      let x = new_simulation compiler definition_hash hash by c s in
      let s2 = simulated compiler definition_hash hash by c s in
      let run : find_first (is_simulation_of x.id c.id) s2.simulations ≡ some x =
        find_first-added (is_simulation_of x.id c.id) x s.simulations
          (λ y m. let below = not_next y.id x.id (numbered.simulations y m) in rw below refl)
          (ground arith) in
      let task = new_proposal compiler definition_hash hash by c x s2 in
      let s3 = proposed compiler definition_hash hash by c x s2 in
      let asked : find_first (λ u. u.id == task.id) s3.proposals ≡ some task =
        find_first-added (λ u. u.id == task.id) task (supersede_open s.proposals)
          (λ u m.
            let (v, n, q) = supersede_open-id u s.proposals m in
            not_next u.id task.id (omega (arith, q, numbered.proposals v n)))
          (ground arith) in
      let (t, decided, configs) =
        decide_config-ok compiler definition_hash hash other s3 task c x reason policies asked refl
          another draft run refl refl compiled in
      record {
        simulated = (s2, x);
        simulates = simulate-ok compiler definition_hash hash by s c policies found compiled calm;
        proposed = (s3, task);
        proposes = propose_config-ok compiler definition_hash hash by s2 c x draft run refl;
        approved = t;
        approves = decided;
        configs = configs;
      }

  created-Numbered :
      (by : String) (document : Document D) (s : Settings D F)
      → Numbered s
      → Numbered (created_settings compiler by document s)
  created-Numbered by document s numbered = record {
    configs = λ c m. elim (In-append c s.configs (new_config compiler by document s ∷ []) m) [
      | inl old ↦ omega (arith, numbered.configs c old)
      | inr (inl q) ↦ let h : c.id ≡ s.store.next = ap (λ y. y.id) q in omega (arith, h)
      | inr (inr z) ↦ absurd z
    ];
    simulations = λ x m. omega (arith, numbered.simulations x m);
    proposals = λ t m. omega (arith, numbered.proposals t m);
  }

  -- In tables whose rows are numbered below the next number: a configuration that is created with
  -- success, simulated and proposed at once, and approved by another principal than the proposer,
  -- is activated, and every step succeeds, if the simulation of none of its policies raises.
  pub change-GoesLive :
      (by other reason : String) (document : Document D) (s : Settings D F)
      (x : Settings D F × ConfigurationVersion D)
      → Numbered s
      → str_eq by other ≡ false
      → create_config compiler by document s ≡ ok x
      → ((policies : List (String × CompiledPolicy F))
          → configuration_policies compiler x.0.store.domains x.1.document ≡ some policies
          → simulate_all compiler.library x.0.store policies ≡ ok tt)
      → GoesLive by other reason x
  unfolding create_config
  change-GoesLive by other reason document s x numbered another e calm =
      elim (Bool-cases (compiler.has_secret document)) [
        | inl secret ↦ absurd (ok-err (rw (create_config, secret) at e))
        | inr plain ↦
            elim (Option-cases (configuration_policies compiler s.store.domains document)) [
              | inl n ↦ absurd (ok-err (rw (create_config, plain, n) at e))
              | inr (policies, compiled) ↦
                  let c = new_config compiler by document s in
                  let others : (p : ConfigurationVersion D → Bool)
                      → ((d : ConfigurationVersion D) → (d.id == c.id) ≡ false → p d ≡ false)
                      → p c ≡ true
                      → find_first p (s.configs ++ c ∷ []) ≡ some c =
                    λ p not_other here.
                      find_first-added p c s.configs
                        (λ d m. not_other d (not_next d.id c.id (numbered.configs d m))) here in
                  let made = ok-eq (rw (create_config, plain, compiled) at e) in
                  let still : simulate_all compiler.library
                        (created_settings compiler by document s).store policies
                      ≡ ok tt =
                    (rw (← made) at calm) policies compiled in
                  subst (GoesLive by other reason) made (
                    draft-GoesLive by other reason c (created_settings compiler by document s)
                      policies (created-Numbered by document s numbered) another
                      (others (λ d. d.id == c.id) (λ d h. h) (ground arith))
                      (others (is_config_draft c.id) (λ d h. rw h refl) (ground arith)) compiled
                      still)
            ]
      ]
