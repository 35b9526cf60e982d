-- ===== src/Ingest.antt =====
-- Ingestion, the method ingest of mastering/service.py: pages of observations of one source, the
-- runs that they are part of, and what each observation does to the tables.
--   Runs      the checks before the loop: the run, its pages, its handoff, field permissions
--   Payload   what an observation's body reads, with _get_or_create_source_object
--   Observe   the body of the loop
--   Page      ingest itself: the deletions of a complete snapshot, the loop, the checkpoints
-- The hashes of canonical JSON texts are a parameter. A domain's definition stands for the policy
-- that compile_policy makes of it. `_fault_after_records` is for tests of interruptions, and is none.
use recordlane.Base.{ℕ, String, Bool, Option, List, none, some, str_eq, if◌then◌else◌}
use recordlane.Mastering.{SourceRecord, IncomingRecord, UpdateMode, CandidateBlock}
use recordlane.Review.{Store}
pub mod Runs
pub mod Payload
pub mod Observe
pub mod Page
mod Frame
mod Kept
mod Opened
mod Balance
mod Missing
mod Suited
mod Processed
mod Held
mod Withheld
mod Passed
mod Repeated
mod Tests

pub data ExtractionMode : Type 0 where
  full_extraction delta : ExtractionMode

pub data RunStatus : Type 0 where
  running complete : RunStatus

-- A row of ingestion_runs. Its checkpoint is the processed cursors, the page's and the next.
pub record IngestionRun : Type 0 where
  pub source_id : ℕ
  pub domain_key : String
  pub external_id : String
  pub extraction_mode : ExtractionMode
  pub status : RunStatus
  pub snapshot_position : Option String
  pub handoff_from : Option String
  pub processed_cursors : List String
  pub page_cursor : Option String
  pub next_cursor : Option String
  pub seen_local_ids : List String
  pub records_processed : ℕ
  pub source_complete : Bool

pub record SourceObservationMeta : Type 0 where
  pub record_id : ℕ
  pub source_object_id : ℕ
  pub payload_hash : String
  pub source_sequence : Option ℕ
  pub update_mode : UpdateMode

-- The checkpoint of a source.
pub record Checkpoint : Type 0 where
  pub source_id : ℕ
  pub records : ℕ
  pub complete_snapshot : Bool
  pub run_id : Option String
  pub next_cursor : Option String
  pub snapshot_position : Option String

-- The tables that ingest reads and writes.
pub record Tables (F : Type 0) : Type 0 where
  pub store : Store F
  pub blocks : List CandidateBlock
  pub metas : List SourceObservationMeta
  pub runs : List IngestionRun
  pub checkpoints : List Checkpoint

-- The arguments of ingest.
pub record IngestionRequest : Type 0 where
  pub source_key : String
  pub domain_key : String
  pub records : List IncomingRecord
  pub complete_snapshot : Bool
  pub run_id : Option String
  pub extraction_mode : ExtractionMode
  pub page_cursor : Option String
  pub next_cursor : Option String
  pub snapshot_position : Option String
  pub handoff_from : Option String
  pub source_complete : Bool

pub record Counts : Type 0 where
  pub accepted : ℕ
  pub duplicate : ℕ
  pub quarantined : ℕ
  pub out_of_order : ℕ
  pub updated : ℕ
  pub retired : ℕ
  pub linked : ℕ
  pub review : ℕ
  pub created : ℕ

-- canonical_hash of an observation's payload, and the stable key of an entity made for a record.
pub record Digests : Type 0 where
  pub payload_hash : IncomingRecord → String
  pub stable_key : SourceRecord → String

-- A text that is there and is not empty.
abbrev pub given : Option String → Option String
given none = none
given (some s) = if str_eq s "" then none else some s
