-- ===== src/Jobs.antt =====
-- The durable jobs of backend/src/recordlane/jobs/worker.py and their table (`DurableJob` of
-- models/tables.py). This file has the row, the table and the queries; its children have the
-- operations and their laws:
--   Lease      claim_one, renew_lease and the cancellation request of api/routes.py
--   Run        run_once, as its three transactions with what other sessions commit between them
--   Table      the laws of the queries
--   Session    the transactions as one type
--   Claim, Allowed, Machine, Fence, Exclusive, Terminal, Commit   the proofs
-- Identifiers (UUID texts), worker names and times are only compared, so they are numbers. A time
-- is in seconds. Every transaction is one step on the table.
use recordlane.Base.{
  ℕ, ◌≡◌, String, Bool, true, false, ◌&&◌, Option, none, some, List, [], ◌∷◌, suc, ◌<◌, ltb, leb,
  ◌==◌, if◌then◌else◌, none_or, select, Dict,
}
use recordlane.Json.{Value}
pub mod Lease
pub mod Run
mod Table
mod Claim
pub mod Session
mod Allowed
mod Machine
mod Fence
mod Exclusive
mod Terminal
mod Commit
mod Tests

-- The texts that the code writes to the column `status`.
pub data Status : Type 0 where
  queued retry running complete failed cancelled : Status

-- `last_error`: the name of an exception's type, or `unknown_job_kind:` and the kind.
pub data JobError : Type 0 where
  raised : String → JobError
  unknown_job_kind : String → JobError

pub record DurableJob : Type 0 where
  pub id : ℕ
  pub workspace_id : ℕ
  pub kind : String
  pub payload : Dict Value
  pub status : Status
  pub attempts : ℕ
  pub lease_owner : Option ℕ
  pub lease_version : ℕ
  pub lease_expires_at : Option ℕ
  pub cancel_requested : Bool
  pub last_error : Option JobError
  pub created_at : ℕ

abbrev pub lease_seconds : ℕ
lease_seconds = 30

abbrev pub max_attempts : ℕ
max_attempts = 5

-- `db.get(DurableJob, id)`
abbrev pub find : ℕ → List DurableJob → Option DurableJob
find id [] = none
find id (j ∷ t) = if j.id == id then some j else find id t

-- The flush of a loaded row: the row with its id is written anew.
abbrev pub write : DurableJob → List DurableJob → List DurableJob
write new [] = []
write new (j ∷ t) = (if j.id == new.id then new else j) ∷ write new t

-- `update(DurableJob).where(p).values(f)`
abbrev pub update :
    (DurableJob → Bool) → (DurableJob → DurableJob) → List DurableJob → List DurableJob
update p f [] = []
update p f (j ∷ t) = (if p j then f j else j) ∷ update p f t

-- `order_by(created_at).limit(1)`; the first of equals
abbrev pub oldest : List DurableJob → Option DurableJob
oldest [] = none
oldest (j ∷ t) = elim (oldest t) [
  | none ↦ some j
  | some k ↦ if leb j.created_at k.created_at then some j else some k
]

-- `status in ("queued", "retry", "running")`
abbrev pub is_live : Status → Bool
is_live queued = true
is_live retry = true
is_live running = true
is_live _ = false

abbrev pub is_running : Status → Bool
is_running running = true
is_running _ = false

-- `lease_owner == w and lease_version == fence`
abbrev pub holds : ℕ → ℕ → DurableJob → Bool
holds w fence j = elim j.lease_owner [ none ↦ false | some o ↦ o == w ] && j.lease_version == fence
