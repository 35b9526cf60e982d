-- ===== src/Config.antt =====
-- Configuration versions, mastering/service.py: drafts (create_config, revert_config), their
-- simulation, their proposal, and the branch of decide_task that activates one.
--   Drafts    _configuration_policies, create_config and revert_config
--   Snapshot  _snapshot_hash
--   Impact    the exceptions of _simulate_policy
--   Approval  simulate, propose_config and decide_task of a configuration_approval task
-- The compiler of policies, the hashes of canonical JSON texts and the test for secret values are
-- parameters. The tasks of kind configuration_approval are rows of their own here.
use recordlane.Base.{ℕ, String, Bool, Option, List}
use recordlane.Policy.{Library, CompiledPolicy}
use recordlane.Review.{TaskStatus, Store}
pub mod Drafts
pub mod Snapshot
pub mod Impact
pub mod Approval
mod Active
mod Machine
mod Installed
mod Steps
mod Live
mod Tests

pub data ConfigurationStatus : Type 0 where
  draft_configuration active retired_configuration : ConfigurationStatus

-- A configuration document: a domain pack, a mapping of domains to definitions, the shape of the
-- preview with its settings for the supplier domain, or none of these.
pub data Document (D : Type 0) : Type 0 where
  domain_pack : String → D → Document D
  domains_mapping : List (String × D) → Document D
  preview : D → Document D
  other_document : Document D

pub record ConfigurationVersion (D : Type 0) : Type 0 where
  pub id : ℕ
  pub version : ℕ
  pub status : ConfigurationStatus
  pub checksum : String
  pub document : Document D
  pub created_by : String

-- A simulation, with the hash of the snapshot in its result.
pub record Simulation : Type 0 where
  pub id : ℕ
  pub config_id : ℕ
  pub data_checkpoint : ℕ
  pub snapshot_hash : String

-- A review task of kind configuration_approval.
pub record ConfigurationTask : Type 0 where
  pub id : ℕ
  pub status : TaskStatus
  pub proposed_by : String
  pub config_id : ℕ
  pub checksum : String
  pub simulation_id : ℕ
  pub decision_reason : Option String
  pub decided_by : Option String

-- A durable job of kind remaster_domain.
pub record RemasterJob : Type 0 where
  pub id : ℕ
  pub domain_key : String
  pub policy_checksum : String
  pub configuration_id : ℕ

pub record Settings (D F : Type 0) : Type 0 where
  pub store : Store F
  pub configs : List (ConfigurationVersion D)
  pub simulations : List Simulation
  pub proposals : List ConfigurationTask
  pub jobs : List RemasterJob

-- compile_policy, where none is a PolicyError; the supplier's definition with the settings of a
-- preview document; and the checksum and the test of a document; and
-- the libraries that a policy calls.
pub record Compiler (D F : Type 0) : Type 0 where
  pub compile : D → Option (CompiledPolicy F)
  pub adapt : D → CompiledPolicy F → D
  pub document_hash : Document D → String
  pub has_secret : Document D → Bool
  pub library : Library
