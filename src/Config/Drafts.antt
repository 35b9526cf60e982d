-- ===== src/Config/Drafts.antt =====
-- _configuration_policies, create_config and revert_config.
use recordlane.Base.{
  ℕ, suc, String, Option, none, some, List, [], ◌∷◌, ◌++◌, ◌==◌, ltb, if◌then◌else◌, str_eq,
}
use recordlane.Http.{Result, ok, ◌>>=◌, ◌>>◌, raise_if, required}
use recordlane.Policy.{CompiledPolicy}
use recordlane.Review.{Domain, Store, find_first}
use recordlane.Config.{
  ConfigurationVersion, draft_configuration, Document, domain_pack, domains_mapping, preview,
  other_document, Settings, Compiler,
}

abbrev pub find_domain : {F : Type 0} → String → List (Domain F) → Option (Domain F)
find_domain key domains = find_first (λ d. str_eq d.key key) domains

-- The highest version, or 0.
abbrev pub last_version : {D : Type 0} → List (ConfigurationVersion D) → ℕ
last_version [] = 0
last_version (c ∷ rest) =
    let later = last_version rest in if ltb later c.version then c.version else later

module _ {D F : Type 0} (compiler : Compiler D F) where
  -- One policy, for its domain.
  abbrev pub policy_for : String → D → Option (List (String × CompiledPolicy F))
  policy_for key definition = elim (compiler.compile definition) [
    | none ↦ none
    | some p ↦ some ((key, p) ∷ [])
  ]

  -- Every domain of the mapping is there, and every definition compiles.
  unfoldable pub mapped_policies :
      List (Domain F) → List (String × D) → Option (List (String × CompiledPolicy F))
  mapped_policies domains [] = some []
  mapped_policies domains ((key, definition) ∷ rest) =
      let others = mapped_policies domains rest in
      elim (find_domain key domains) [
        | none ↦ none
        | some _ ↦ elim (compiler.compile definition) [
          | none ↦ none
          | some p ↦ elim others [ none ↦ none | some ps ↦ some ((key, p) ∷ ps) ]
        ]
      ]

  -- The policies of a document, or a PolicyError.
  unfoldable pub configuration_policies :
      List (Domain F) → Document D → Option (List (String × CompiledPolicy F))
  unfolding mapped_policies
  configuration_policies domains (domain_pack name definition) = elim (find_domain name domains) [
    | none ↦ none
    | some _ ↦ policy_for name definition
  ]
  configuration_policies domains (domains_mapping entries) = mapped_policies domains entries
  configuration_policies domains (preview settings) = elim (find_domain "supplier" domains) [
    | none ↦ none
    | some d ↦ policy_for "supplier" (compiler.adapt settings d.definition)
  ]
  configuration_policies domains other_document = none

  abbrev pub new_config : String → Document D → Settings D F → ConfigurationVersion D
  new_config by document s = record {
    id = s.store.next;
    version = suc (last_version s.configs);
    status = draft_configuration;
    checksum = compiler.document_hash document;
    document = document;
    created_by = by;
  }

  abbrev pub add_audit : String → ℕ → Store F → Store F
  add_audit action subject store = record store { audit = store.audit ++ (action, subject) ∷ [] }

  abbrev pub created_settings : String → Document D → Settings D F → Settings D F
  created_settings by document s = record s {
    store =
        add_audit "configuration.created" s.store.next (record s.store { next = suc s.store.next });
    configs = s.configs ++ new_config by document s ∷ [];
  }

  unfoldable pub create_config :
      String → Document D → Settings D F → Result (Settings D F × ConfigurationVersion D)
  unfolding configuration_policies
  create_config by document s =
      raise_if (compiler.has_secret document) 422 "secret_value_forbidden"
      >> (required (configuration_policies s.store.domains document) 422 "invalid_configuration"
          >>= λ _. ok (created_settings by document s, new_config by document s))

  -- A draft of the document of an earlier configuration.
  unfoldable pub revert_config :
      String → ℕ → Settings D F → Result (Settings D F × ConfigurationVersion D)
  unfolding create_config
  revert_config by config_id s =
      required (find_first (λ c. c.id == config_id) s.configs) 404 "configuration_not_found"
      >>= λ source. create_config by source.document s >>= λ x. ok (
        record x.0 { store = add_audit "configuration.revert_draft_created" x.1.id x.0.store },
        x.1,
      )
