-- ===== src/Jobs/Run.antt =====
-- run_once of jobs/worker.py. It runs three transactions: the claim, the handler with its final
-- conditional update, and, after an exception, the release of the lease. Other sessions commit
-- between and during them: `Interference` says what, and whether the heartbeat thread found the
-- lease lost. A handler's writes to the other tables are a function on them, since they are
-- committed with the final update or not at all.
use recordlane.Base.{
  ℕ, String, Bool, true, false, ◌&&◌, not, Option, none, some, List, leb, ◌==◌, str_eq,
  if◌then◌else◌, length, select, insert,
}
use recordlane.Json.{Value}
use recordlane.Jobs.{
  retry, complete, failed, raised, unknown_job_kind, DurableJob, find, write, update, holds,
  max_attempts,
}
use recordlane.Jobs.Lease.{cancel, claim_one}

pub record Db (R : Type 0) : Type 0 where
  pub jobs : List DurableJob
  pub rest : R

-- How a handler ends: with its result and its writes, or with the name of an exception's type.
pub data Handled (R : Type 0) : Type 0 where
  done : Value → (R → R) → Handled R
  threw : String → Handled R

abbrev pub Handler : Type 0 → Type 0
Handler R = Db R → DurableJob → Handled R

pub record Interference (R : Type 0) : Type 0 where
  pub before_start : Db R → Db R
  pub during : Db R → Db R
  pub before_release : Db R → Db R
  pub heartbeat_lost : Bool

-- How the second transaction goes up to the call of the handler.
pub data Started (R : Type 0) : Type 0 where
  abandoned : Started R
  ended : List DurableJob → Started R
  handling : DurableJob → Handler R → Started R

unfoldable pub fail_unknown : DurableJob → DurableJob
fail_unknown j = record j {
  status = failed;
  last_error = some (unknown_job_kind j.kind);
  lease_owner = none;
  lease_expires_at = none;
}

module _ {R : Type 0} where
  -- HANDLERS; the one handler is `remaster_domain`.
  abbrev pub handlers : Handler R → String → Option (Handler R)
  handlers remaster_domain kind =
      if str_eq kind "remaster_domain" then some remaster_domain else none

  unfoldable pub start : Handler R → ℕ → ℕ → ℕ → List DurableJob → Started R
  unfolding cancel fail_unknown
  start remaster_domain w id fence t = elim (find id t) [
    | none ↦ abandoned
    | some j ↦
        if holds w fence j
        then if j.cancel_requested
          then ended (write (cancel j) t)
          else elim (handlers remaster_domain j.kind) [
            | none ↦ ended (write (fail_unknown j) t)
            | some handler ↦ handling j handler
          ]
        else abandoned
  ]

-- The `where` of the final conditional update.
unfoldable pub committable : ℕ → ℕ → ℕ → DurableJob → Bool
committable w id fence j = j.id == id && holds w fence j && not j.cancel_requested

-- Its `values`; `loaded` is the row as the transaction read it.
unfoldable pub finish : Value → DurableJob → DurableJob → DurableJob
finish result loaded j = record j {
  status = complete;
  payload = insert "result" result loaded.payload;
  lease_owner = none;
  lease_expires_at = none;
  last_error = none;
}

-- What the exception path writes.
unfoldable pub release : String → DurableJob → DurableJob
release e j = record j {
  status = if leb max_attempts j.attempts then failed else retry;
  last_error = some (raised e);
  lease_owner = none;
  lease_expires_at = none;
}

-- The third transaction, after an exception.
unfoldable pub release_lease : ℕ → ℕ → ℕ → String → List DurableJob → List DurableJob
unfolding release
release_lease w id fence e t = elim (find id t) [
  | none ↦ t
  | some j ↦ if holds w fence j then write (release e j) t else t
]

-- The end of the second transaction: the exception that it raises, or what it commits.
pub data Ending (R : Type 0) : Type 0 where
  rolled_back : String → Ending R
  committed : Db R → Ending R

module _ {R : Type 0} where
  unfoldable pub commit : ℕ → ℕ → ℕ → DurableJob → Bool → Handled R → Db R → Ending R
  unfolding committable finish
  commit w id fence loaded lost (threw e) db = rolled_back e
  commit w id fence loaded lost (done result writes) db =
      if lost
      then rolled_back "RuntimeError"
      else if length (select (committable w id fence) db.jobs) == 1
      then committed (record {
        jobs = update (committable w id fence) (finish result loaded) db.jobs;
        rest = writes db.rest;
      })
      else rolled_back "RuntimeError"

  unfoldable pub settle : ℕ → ℕ → ℕ → (Db R → Db R) → Db R → Ending R → Db R
  unfolding release_lease
  settle w id fence before_release db (committed db') = db'
  settle w id fence before_release db (rolled_back e) =
      let db' = before_release db in record db' { jobs = release_lease w id fence e db'.jobs }

  unfoldable pub run_claimed : Handler R → Interference R → ℕ → ℕ → ℕ → Db R → Bool × Db R
  unfolding start commit settle
  run_claimed remaster_domain env w id fence db = elim (start remaster_domain w id fence db.jobs) [
    | abandoned ↦ (false, db)
    | ended t ↦ (true, record db { jobs = t })
    | handling loaded handler ↦
        let db' = env.during db in
        (
          true,
          settle w id fence env.before_release db'
              (commit w id fence loaded env.heartbeat_lost (handler db loaded) db'),
        )
  ]

  -- Whether a job was worked on, and the database after.
  unfoldable pub run_once : Handler R → Interference R → ℕ → ℕ → Db R → Bool × Db R
  unfolding claim_one run_claimed
  run_once remaster_domain env now w db =
      let (claimed, t) = claim_one now w db.jobs in
      let db' = record db { jobs = t } in
      elim claimed [
        | none ↦ (false, db')
        | some (id, fence) ↦ run_claimed remaster_domain env w id fence (env.before_start db')
      ]
