-- ===== src/Jobs/Lease.antt =====
-- claim_one and renew_lease of jobs/worker.py, and cancel_job of api/routes.py.
use recordlane.Base.{
  ℕ, ◌+◌, Bool, true, ◌&&◌, not, Option, none, some, List, ltb, ◌==◌, if◌then◌else◌, none_or,
  select, length,
}
use recordlane.Jobs.{
  running, cancelled, DurableJob, find, write, update, oldest, is_live, is_running, holds,
  lease_seconds,
}

-- The `where` of the query in claim_one.
unfoldable pub claimable : ℕ → DurableJob → Bool
claimable now j = is_live j.status && none_or j.lease_expires_at (λ t. ltb t now)

-- What claim_one and run_once write to a job whose cancellation was requested.
unfoldable pub cancel : DurableJob → DurableJob
cancel j = record j { status = cancelled; lease_owner = none; lease_expires_at = none }

-- What claim_one writes to the job that it takes.
unfoldable pub take_lease : ℕ → ℕ → DurableJob → DurableJob
take_lease now w j = record j {
  status = running;
  lease_owner = some w;
  lease_version = j.lease_version + 1;
  lease_expires_at = some (now + lease_seconds);
  attempts = j.attempts + 1;
}

unfoldable pub claim_one : ℕ → ℕ → List DurableJob → Option (ℕ × ℕ) × List DurableJob
unfolding claimable cancel take_lease
claim_one now w t = elim (oldest (select (claimable now) t)) [
  | none ↦ (none, t)
  | some j ↦
      if j.cancel_requested
      then (none, write (cancel j) t)
      else (some (j.id, j.lease_version + 1), write (take_lease now w j) t)
]

-- The `where` of renew_lease.
unfoldable pub renewable : ℕ → ℕ → ℕ → DurableJob → Bool
renewable w id fence j =
    j.id == id && holds w fence j && is_running j.status && not j.cancel_requested

unfoldable pub extend : ℕ → DurableJob → DurableJob
extend now j = record j { lease_expires_at = some (now + lease_seconds) }

unfoldable pub renew_lease : ℕ → ℕ → ℕ → ℕ → List DurableJob → Bool × List DurableJob
unfolding renewable extend
renew_lease now w id fence t =
    (length (select (renewable w id fence) t) == 1, update (renewable w id fence) (extend now) t)

pub data CancelResult : Type 0 where
  requested job_not_found job_terminal : CancelResult

-- cancel_job, without its audit entry. The job is looked up in the caller's workspace.
unfoldable pub cancel_job : ℕ → ℕ → List DurableJob → CancelResult × List DurableJob
cancel_job workspace id t = elim (find id t) [
  | none ↦ (job_not_found, t)
  | some j ↦
      if j.workspace_id == workspace
      then if is_live j.status
        then (requested, write (record j { cancel_requested = true }) t)
        else (job_terminal, t)
      else (job_not_found, t)
]
