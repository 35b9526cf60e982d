-- ===== src/Mastering.antt =====
-- The mastering core, backend/src/recordlane/mastering/service.py: the rows that it keeps (those of
-- models/tables.py), for the workspace of one service object.
--   Objects     source objects: which observation is current, membership, cannot-link decisions
--   Survivor    the master values of an entity, and where each comes from (_master_values)
--   Resolve     which entity an observation belongs to (_resolve)
-- Every query of the service is restricted to its workspace, so the tables hold that workspace's
-- rows only. Identifiers are UUID texts that are compared and sorted: numbers here. A new row takes
-- the next number. Times are numbers.
use recordlane.Base.{ℕ, String, Bool, Option, List, Dict}
use recordlane.Json.{Value}
pub mod Objects
pub mod Survivor
mod Fields
mod Master
mod Raises
pub mod Resolve
pub mod Samples
mod Membership
mod Ordering
mod Winner
mod Candidates
mod Linking
mod Highest
mod Tests

pub data RecordState : Type 0 where
  valid superseded quarantine deleted : RecordState

pub record Source : Type 0 where
  pub id : ℕ
  pub key : String
  pub name : String
  pub priority : ℕ

pub record SourceObject : Type 0 where
  pub id : ℕ
  pub source_id : ℕ
  pub domain_key : String
  pub local_id : String
  pub entity_id : Option ℕ
  pub current_record_id : Option ℕ
  pub latest_record_id : Option ℕ
  pub current_sequence : Option ℕ
  pub current_effective_from : Option ℕ
  pub retired : Bool

pub record SourceRecord : Type 0 where
  pub id : ℕ
  pub source_id : ℕ
  pub domain_key : String
  pub local_id : String
  pub source_version : String
  pub original : Dict Value
  pub normalized : Dict Value
  pub verification : Dict Bool
  pub state : RecordState
  pub observed_at : ℕ
  pub effective_from : Option ℕ
  pub entity_id : Option ℕ

-- The fields of schemas.py's IncomingRecord that order observations.
pub data UpdateMode : Type 0 where
  full partial : UpdateMode

pub record IncomingRecord : Type 0 where
  pub local_id : String
  pub version : String
  pub values : Dict Value
  pub verification : Dict Bool
  pub effective_from : Option ℕ
  pub sequence : Option ℕ
  pub update_mode : UpdateMode
  pub deleted : Bool

pub record CandidateBlock : Type 0 where
  pub source_object_id : ℕ
  pub record_id : ℕ
  pub block_key : String

pub record MembershipHistory : Type 0 where
  pub id : ℕ
  pub source_object_id : ℕ
  pub entity_id : ℕ
  pub valid_from : ℕ
  pub valid_to : Option ℕ
  pub reason : String
  pub changed_by : String

pub data EntityStatus : Type 0 where
  candidate approved merged : EntityStatus

pub record Entity : Type 0 where
  pub id : ℕ
  pub domain_key : String
  pub stable_key : String
  pub status : EntityStatus
  pub version : ℕ

pub record CannotLink : Type 0 where
  pub left_object_id : ℕ
  pub right_object_id : ℕ
  pub reason : String
  pub created_by : String
