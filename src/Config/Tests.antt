-- ===== src/Config/Tests.antt =====
-- A configuration that is drafted, simulated, proposed and approved.
use recordlane.Base.{
  ℕ, String, ◌≡◌, refl, subst, some-eq, true, false, some, List, [], ◌∷◌, ◌==◌, str_eq,
}
use recordlane.Http.{Result, ok, err}
use recordlane.Mastering.Samples.{policy}
use recordlane.Policy.Samples.{plain}
use recordlane.Review.{approve, find_first}
use recordlane.Review.Draft.{is_task_open}
use recordlane.Review.Samples.{one_supplier}
use recordlane.Config.{
  Settings, Compiler, ConfigurationVersion, ConfigurationTask, domains_mapping, other_document,
}
use recordlane.Config.Snapshot.{Snapshot}
use recordlane.Config.Approval.{decide_config}
use recordlane.Config.Active.{ActiveIs, Activated, approval_is_current}
use recordlane.Config.Drafts.{create_config, configuration_policies, new_config}
use recordlane.Config.Impact.{simulate_all}
use recordlane.Policy.{CompiledPolicy}
use recordlane.Config.Live.{GoesLive, change-GoesLive}
use recordlane.Config.Machine.{Command, creates, simulates, proposes, run_all, one_active}

abbrev compiler : Compiler ℕ ℕ
compiler = record {
  compile = λ d. some policy;
  adapt = λ d p. d;
  document_hash = λ d. "1f";
  has_secret = λ d. false;
  library = plain;
}

abbrev settings : Settings ℕ ℕ
settings = record {
  store = one_supplier;
  configs = [];
  simulations = [];
  proposals = [];
  jobs = [];
}

abbrev hash : Snapshot → String
hash s = elim s.objects [ [] ↦ "empty" | _ ∷ _ ↦ "objects" ]

-- The draft is 50, its simulation 51 and its task 52.
abbrev proposal : List (String × Command ℕ)
proposal =
    ("ann", creates (domains_mapping (("supplier", 7) ∷ [])))
    ∷ ("ann", simulates 50)
    ∷ ("ann", proposes 50 51)
    ∷ []

abbrev proposed : Settings ℕ ℕ
proposed = run_all compiler (λ p. p.checksum) hash proposal settings

abbrev approved : Settings ℕ ℕ
approved = (decide_config compiler (λ p. p.checksum) hash "bob" 52 approve "ok" proposed).0

abbrev drafted : Result (Settings ℕ ℕ × ConfigurationVersion ℕ)
drafted = create_config compiler "ann" (domains_mapping (("supplier", 7) ∷ [])) settings

-- What a result holds.
abbrev held :
    Settings ℕ ℕ
    → Result (Settings ℕ ℕ × ConfigurationVersion ℕ)
    → Settings ℕ ℕ × ConfigurationVersion ℕ
held s (ok x) = x
held s (err status code) = (s, new_config compiler "ann" other_document s)

approval_is_current_example :
    (task : ConfigurationTask) × (find_first (λ u. u.id == 52) proposed.proposals ≡ some task)
    × (is_task_open task.status ≡ true)
    × (str_eq task.proposed_by "bob" ≡ false)
    × (a : Activated compiler (λ p. p.checksum) hash "bob" task proposed approved) × ActiveIs
        a.config.id approved.configs
unfolding run_all decide_config
approval_is_current_example =
    approval_is_current compiler (λ p. p.checksum) hash "bob" 52 "ok" proposed approved refl

one_active_example :
    (j : ℕ) × ActiveIs j (run_all compiler (λ p. p.checksum) hash proposal settings).configs
one_active_example =
    one_active compiler (λ p. p.checksum) hash proposal settings 0 (λ c m e. absurd m)

no_impact :
    (policies : List (String × CompiledPolicy ℕ))
    → configuration_policies compiler
        (held settings drafted).0.store.domains
        (held settings drafted).1.document
      ≡ some policies
    → simulate_all plain (held settings drafted).0.store policies ≡ ok tt
unfolding create_config configuration_policies simulate_all
no_impact policies e = subst (λ ps. simulate_all plain one_supplier ps ≡ ok tt) (some-eq e) refl

change-GoesLive_example :
    GoesLive compiler (λ p. p.checksum) hash "ann" "bob" "ok" (held settings drafted)
unfolding create_config
change-GoesLive_example =
    change-GoesLive compiler (λ p. p.checksum) hash "ann" "bob" "ok"
      (domains_mapping (("supplier", 7) ∷ [])) settings (held settings drafted)
      (record {
        configs = λ c m. absurd m;
        simulations = λ x m. absurd m;
        proposals = λ t m. absurd m;
      })
      refl refl no_impact
