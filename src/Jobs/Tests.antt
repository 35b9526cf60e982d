-- ===== src/Jobs/Tests.antt =====
-- Runs of the worker on a small table, and the theorems at those inputs.
use recordlane.Base.{
  subst, sym, inl, inr, ℕ, suc, ◌≡◌, ◌≢◌, ◌<◌, ◌≤◌, ◌⊎◌, lookup, refl, true, false, none, some,
  List, [], ◌∷◌, arith, In,
}
use recordlane.Json.{null, str}
use recordlane.Jobs.{DurableJob, queued, running, retry, complete, failed, raised, find}
use recordlane.Jobs.Lease.{cancel_job, renew_lease, take_lease, claim_one}
use recordlane.Jobs.Run.{
  release_lease, Handler, done, threw, Interference, Db, start, run_once, run_claimed, release,
}
use recordlane.Jobs.Session.{Command, claim, renew, request_cancel, give_up, apply, apply_all}
use recordlane.Jobs.Table.{find-In, IsUnique}
use recordlane.Jobs.Exclusive.{claim_one_excludes}
use recordlane.Jobs.Allowed.{Moves, Allowed, apply-Allowed}
use recordlane.Jobs.Fence.{fences_increase}
use recordlane.Jobs.Commit.{
  alone, overtaken_run_writes_nothing, run_once_completes, run_once_releases,
}
use recordlane.Jobs.Terminal.{IsValid, AllValid, settled_forever}

abbrev job : DurableJob
job = record {
  id = 7;
  workspace_id = 1;
  kind = "remaster_domain";
  payload = ("domain_key", str "supplier") ∷ [];
  status = queued;
  attempts = 0;
  lease_owner = none;
  lease_version = 0;
  lease_expires_at = none;
  cancel_requested = false;
  last_error = none;
  created_at = 50;
}

-- A job that another worker runs.
abbrev busy : DurableJob
busy = record job {
  id = 8;
  status = running;
  attempts = 1;
  lease_owner = some 2;
  lease_version = 1;
  lease_expires_at = some 120;
  created_at = 40;
}

abbrev old : DurableJob
old = record job { id = 9; status = complete; created_at = 10 }

abbrev table : List DurableJob
table = old ∷ busy ∷ job ∷ []

abbrev claimed_table : List DurableJob
unfolding take_lease
claimed_table = old ∷ busy ∷ take_lease 100 1 job ∷ []

claims : claim_one 100 1 table ≡ (some (7, 1), claimed_table)
unfolding claim_one
claims = refl

table-IsUnique : IsUnique table
table-IsUnique = (refl, (refl, (refl, tt)))

-- The other tables, as one number.
abbrev start_db : Db ℕ
start_db = record { jobs = table; rest = 5 }

-- A renewal of the lease and a request to cancel. The lease of the running job ends at 120, so it is
-- the one that is taken next.
abbrev meanwhile : List (Command ℕ)
meanwhile = renew 110 1 7 1 ∷ request_cancel 1 7 ∷ []

abbrev kept_table : List DurableJob
kept_table =
    (claim_one 125 3 (apply_all meanwhile (record start_db { jobs = claimed_table })).jobs).1

claim_one_excludes_example : ◌≢◌ {A = ℕ} 8 7
unfolding claim_one apply_all apply renew_lease cancel_job
claim_one_excludes_example =
    claim_one_excludes 100 1 start_db 7 1 claimed_table meanwhile 125 3 8 2 kept_table
      table-IsUnique claims (omega arith, (tt, tt)) (omega arith) refl

apply-Allowed_example :
    Moves (Allowed {R = ℕ} (claim 100 1)) table (apply {R = ℕ} (claim 100 1) start_db).jobs
apply-Allowed_example = apply-Allowed (claim 100 1) start_db table-IsUnique

abbrev session : List (Command ℕ)
session = request_cancel 1 8 ∷ give_up 1 7 1 "ValueError" ∷ []

abbrev session_table : List DurableJob
unfolding take_lease release
session_table =
    old
    ∷ record busy { cancel_requested = true }
    ∷ take_lease 101 1 (release "ValueError" (take_lease 100 1 job))
    ∷ []

claims_again :
    claim_one 101 1 (apply_all session (record start_db { jobs = claimed_table })).jobs
    ≡ (some (7, 2), session_table)
unfolding apply_all apply claim_one release_lease cancel_job
claims_again = refl

fences_increase_example : 1 < 2
fences_increase_example =
    fences_increase session start_db 100 1 101 1 7 1 2 claimed_table session_table table-IsUnique
      claims claims_again

row-IsValid : (j : DurableJob) → In j table → IsValid j
row-IsValid j (inl e) = subst IsValid (sym e) (ground arith)
row-IsValid j (inr (inl e)) = subst IsValid (sym e) (ground arith)
row-IsValid j (inr (inr (inl e))) = subst IsValid (sym e) (ground arith)
row-IsValid j (inr (inr (inr h))) = absurd h

table-AllValid : AllValid table
table-AllValid id j h = row-IsValid j (find-In id table j h)

settled_forever_example : find 9 (apply_all session start_db).jobs ≡ some old
settled_forever_example =
    settled_forever session start_db 9 old table-IsUnique table-AllValid refl refl

abbrev counts : Handler ℕ
counts db j = done null suc

abbrev raises : Handler ℕ
raises db j = threw "ValueError"

abbrev one_job : Db ℕ
one_job = record { jobs = job ∷ []; rest = 5 }

abbrev one_claimed : List DurableJob
unfolding take_lease
one_claimed = take_lease 100 1 job ∷ []

claims_one : claim_one 100 1 (job ∷ []) ≡ (some (7, 1), one_claimed)
unfolding claim_one
claims_one = refl

run_once_completes_example :
    let (worked, db') = run_once counts alone 100 1 one_job in
    (worked ≡ true)
    × (db'.rest ≡ 6)
    × (row : DurableJob) × (find 7 db'.jobs ≡ some row)
    × (row.status ≡ complete)
    × (row.lease_owner ≡ none)
    × (row.lease_expires_at ≡ none)
    × (row.last_error ≡ none)
    × (lookup "result" row.payload ≡ some null)
    × (row.attempts ≡ 1)
    × (row.lease_version ≡ 1)
run_once_completes_example =
    run_once_completes counts 100 1 one_job 7 1 one_claimed claims_one job (refl, tt) refl refl null
      suc refl

run_once_releases_example :
    let (worked, db') = run_once raises alone 100 1 one_job in
    (worked ≡ true)
    × (db'.rest ≡ 5)
    × (row : DurableJob) × (find 7 db'.jobs ≡ some row)
    × (row.lease_owner ≡ none)
    × (row.lease_expires_at ≡ none)
    × (row.last_error ≡ some (raised "ValueError"))
    × (row.attempts ≡ 1)
    × (((1 < 5) × (row.status ≡ retry)) ⊎ ((5 ≤ 1) × (row.status ≡ failed)))
run_once_releases_example =
    run_once_releases raises 100 1 one_job 7 1 one_claimed claims_one job (refl, tt) refl refl
      "ValueError" refl

-- The lease runs out while the handler runs, and another worker claims the job.
abbrev overtaking : Interference ℕ
overtaking = record {
  before_start = λ db. db;
  during = λ db. record db { jobs = (claim_one 131 3 db.jobs).1 };
  before_release = λ db. db;
  heartbeat_lost = false;
}

abbrev running_db : Db ℕ
running_db = record { jobs = one_claimed; rest = 5 }

overtaken_run_writes_nothing_example :
    run_claimed counts overtaking 1 7 1 running_db ≡ (true, overtaking.during running_db)
unfolding claim_one start
overtaken_run_writes_nothing_example =
    overtaken_run_writes_nothing counts overtaking 1 7 1 running_db (take_lease 100 1 job) counts
      (refl, tt) (refl, tt) refl (omega arith) (omega arith)
