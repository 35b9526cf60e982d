-- ===== src/Jobs/Session.antt =====
-- The transactions of jobs/worker.py and of cancel_job, one by one: a run of the system is a list of
-- them, in the order of their commits.
use recordlane.Base.{ℕ, String, Bool, List, [], ◌∷◌}
use recordlane.Jobs.{DurableJob}
use recordlane.Jobs.Lease.{claim_one, renew_lease, cancel_job}
use recordlane.Jobs.Run.{
  Handler, Handled, Started, ended, start, Ending, rolled_back, committed, commit, release_lease,
  Db,
}

-- What one session commits to the job table in one transaction.
pub data Command (R : Type 0) : Type 0 where
  claim : ℕ → ℕ → Command R
  renew : ℕ → ℕ → ℕ → ℕ → Command R
  request_cancel : ℕ → ℕ → Command R
  begin : Handler R → ℕ → ℕ → ℕ → Command R
  end : ℕ → ℕ → ℕ → DurableJob → Bool → Handled R → Command R
  give_up : ℕ → ℕ → ℕ → String → Command R

abbrev pub started_jobs : {R : Type 0} → Started R → List DurableJob → List DurableJob
started_jobs (ended t') t = t'
started_jobs _ t = t

abbrev pub ending_db : {R : Type 0} → Ending R → Db R → Db R
ending_db (committed db') db = db'
ending_db (rolled_back _) db = db

module _ {R : Type 0} where
  unfoldable pub apply : Command R → Db R → Db R
  apply (claim now w) db = record db { jobs = (claim_one now w db.jobs).1 }
  apply (renew now w id fence) db = record db { jobs = (renew_lease now w id fence db.jobs).1 }
  apply (request_cancel ws id) db = record db { jobs = (cancel_job ws id db.jobs).1 }
  apply (begin h w id fence) db = record db {
    jobs = started_jobs (start h w id fence db.jobs) db.jobs;
  }
  apply (end w id fence loaded lost r) db = ending_db (commit w id fence loaded lost r db) db
  apply (give_up w id fence e) db = record db { jobs = release_lease w id fence e db.jobs }

  unfoldable pub apply_all : List (Command R) → Db R → Db R
  apply_all [] db = db
  apply_all (c ∷ cs) db = apply_all cs (apply c db)
