-- ===== src/Jobs/Commit.antt =====
-- How run_once ends: by one commit of the handler's writes with the completed job, or by the release
-- of the lease with none of them.
use recordlane.Base.{
  subst, sym, ap, ◌∙◌, ℕ, ◌+◌, ◌≡◌, ◌≢◌, refl, inl, inr, String, Bool, true, false, ◌&&◌, not,
  Option, none, some, List, arith, ◌==◌, ◌<◌, ◌≤◌, ◌⊎◌, leb, lookup, lookup-insert, str_eq_iff,
  if◌then◌else◌, select, length, Bool-cases,
}
use recordlane.Json.{Value}
use recordlane.Jobs.{retry, complete, failed, raised, DurableJob, find, update, holds}
use recordlane.Jobs.Lease.{take_lease, claim_one}
use recordlane.Jobs.Run.{
  Handler, done, threw, Interference, handling, start, committable, finish, release, rolled_back,
  committed, commit, release_lease, settle, run_claimed, run_once, Db,
}
use recordlane.Jobs.Table.{
  IsUnique, find-id, find-write, find-update, refused_quiet, select-quiet, select-single,
}
use recordlane.Jobs.Claim.{claim_one_takes, Claimed-find, Claimed-IsUnique}
use recordlane.Jobs.Fence.{version, stale_commits_nothing, stale_releases_nothing}

module _ {R : Type 0} (w id fence : ℕ) (loaded j : DurableJob) (db : Db R) where
  module _ (u : IsUnique db.jobs) (found : find id db.jobs ≡ some j) where
    only_own : (k : DurableJob) → committable w id fence k ≡ true → k.id ≡ id
    unfolding committable
    only_own k h = ground arith

    committable_row : committable w id fence j ≡ (holds w fence j && not j.cancel_requested)
    unfolding committable
    committable_row = ground (arith, find-id id db.jobs j found)

    counts_row :
        (length (select (committable w id fence) db.jobs) == 1)
        ≡ (holds w fence j && not j.cancel_requested)
    counts_row =
        let p = committable w id fence in
        elim (Bool-cases (holds w fence j && not j.cancel_requested)) [
          | inl e ↦ rw (select-single p id only_own db.jobs j u found (committable_row ∙ e)) (sym e)
          | inr e ↦
              let refused : (k : DurableJob) → find id db.jobs ≡ some k → p k ≡ false =
                λ k q. ground (arith, found, q, committable_row, e) in
              rw (select-quiet p db.jobs (refused_quiet p id only_own db.jobs u refused)) (sym e)
        ]

    -- The final update goes through exactly when the heartbeat has kept the lease and the row,
    -- as it is now, still has this worker, this fence and no request to cancel. Then the handler's
    -- writes and the completed job are committed together.
    pub commit_lem :
        (lost : Bool) (result : Value) (writes : R → R)
        → commit w id fence loaded lost (done result writes) db ≡ (
            if not lost && (holds w fence j && not j.cancel_requested)
            then committed (record {
              jobs = update (committable w id fence) (finish result loaded) db.jobs;
              rest = writes db.rest;
            })
            else rolled_back "RuntimeError")
    unfolding commit
    commit_lem true result writes = refl
    commit_lem false result writes = rw counts_row

    pub find-finish :
        (result : Value)
        → (holds w fence j && not j.cancel_requested) ≡ true
        → find id (update (committable w id fence) (finish result loaded) db.jobs)
          ≡ some (finish result loaded j)
    unfolding finish
    find-finish result h =
        rw (find-update (committable w id fence) (finish result loaded) (λ k. refl), found)
          (rw (committable_row ∙ h))

-- Sessions that do nothing while this one runs.
abbrev pub alone : {R : Type 0} → Interference R
alone = record {
  before_start = λ db. db;
  during = λ db. db;
  before_release = λ db. db;
  heartbeat_lost = false;
}

module _ {R : Type 0} (h : Handler R) where
  run_claimed-handling :
      (env : Interference R) (w id fence : ℕ) (db : Db R) (loaded : DurableJob)
      (handler : Handler R)
      → start h w id fence db.jobs ≡ handling loaded handler
      → run_claimed h env w id fence db ≡ (
        true,
        settle w id fence env.before_release
            (env.during db)
            (commit w id fence loaded env.heartbeat_lost (handler db loaded) (env.during db)),
      )
  unfolding run_claimed
  run_claimed-handling env w id fence db loaded handler e = rw (e, run_claimed)

  -- A worker that another claim of its job has overtaken while the handler ran leaves the database
  -- as the other sessions made it: the handler's writes are discarded, and neither the final update
  -- nor the release of the lease changes a row.
  pub overtaken_run_writes_nothing :
      (env : Interference R) (w id fence : ℕ) (db : Db R) (loaded : DurableJob)
      (handler : Handler R)
      → let db' = env.during db in
        let db'' = env.before_release db' in
        IsUnique db'.jobs
        → IsUnique db''.jobs
        → start h w id fence db.jobs ≡ handling loaded handler
        → fence ≢ version id db'.jobs
        → fence ≢ version id db''.jobs
        → run_claimed h env w id fence db ≡ (true, db'')
  unfolding settle
  overtaken_run_writes_nothing env w id fence db loaded handler u u' started lost lost' =
      let db' = env.during db in
      let db'' = env.before_release db' in
      let (e, rolled) =
        stale_commits_nothing w id fence db'.jobs u lost loaded env.heartbeat_lost
          (handler db loaded) db'.rest in
      run_claimed-handling env w id fence db loaded handler started
      ∙ ap (λ x. (true, settle w id fence env.before_release db' x)) rolled
      ∙ ap (λ x. (true, record db'' { jobs = x }))
          (stale_releases_nothing w id fence db''.jobs u' lost' e)

module _ {R : Type 0} (h : Handler R) (now w : ℕ) (db : Db R) (id fence : ℕ) where
  module _ (t : List DurableJob) (claimed : claim_one now w db.jobs ≡ (some (id, fence), t)) where
    run_once-claimed :
        run_once h alone now w db ≡ run_claimed h alone w id fence (record db { jobs = t })
    unfolding run_once
    run_once-claimed =
        ap
          (λ (c : Option (ℕ × ℕ) × List DurableJob). elim c.0 [
            | none ↦ (false, record db { jobs = c.1 })
            | some (k, f) ↦ run_claimed h alone w k f (record db { jobs = c.1 })
          ])
          claimed

    module _ (job : DurableJob) (u : IsUnique db.jobs) (found : find id db.jobs ≡ some job)
        (known : job.kind ≡ "remaster_domain") where
      abbrev taken : DurableJob
      taken = take_lease now w job

      abbrev mid : Db R
      mid = record db { jobs = t }

      claim_facts :
          (find id t ≡ some taken)
          × (fence ≡ job.lease_version + 1)
          × (job.cancel_requested ≡ false)
          × IsUnique t
      claim_facts =
          let c = claim_one_takes now w db.jobs id fence t claimed u in
          let same : c.job ≡ job = ground (arith, c.found, found) in
          (
            subst (λ k. find id t ≡ some (take_lease now w k)) same (Claimed-find c),
            subst (λ k. fence ≡ k.lease_version + 1) same c.next_fence,
            subst (λ k. k.cancel_requested ≡ false) same c.not_cancelled,
            Claimed-IsUnique c u,
          )

      taken_held : (holds w fence taken && not taken.cancel_requested) ≡ true
      unfolding take_lease
      taken_held = ground (arith, claim_facts.1, claim_facts.2)

      taken_starts : start h w id fence t ≡ handling taken h
      unfolding start take_lease
      taken_starts = ground (
        arith,
        claim_facts.0,
        claim_facts.1,
        claim_facts.2,
        str_eq_iff job.kind "remaster_domain",
      )

      run_once-handled :
          run_once h alone now w db
          ≡ (true, settle w id fence (λ d. d) mid (commit w id fence taken false (h mid taken) mid))
      run_once-handled =
          run_once-claimed ∙ run_claimed-handling h alone w id fence mid taken h taken_starts

      -- A claimed remaster job whose handler returns, with no other session in between, ends with the
      -- handler's writes and the status complete: its payload holds the result, its lease is given
      -- up, its last error is cleared, and the attempt is counted.
      pub run_once_completes :
          (result : Value) (writes : R → R)
          → h mid taken ≡ done result writes
          → let (worked, db') = run_once h alone now w db in
            (worked ≡ true)
            × (db'.rest ≡ writes db.rest)
            × (row : DurableJob) × (find id db'.jobs ≡ some row)
            × (row.status ≡ complete)
            × (row.lease_owner ≡ none)
            × (row.lease_expires_at ≡ none)
            × (row.last_error ≡ none)
            × (lookup "result" row.payload ≡ some result)
            × (row.attempts ≡ job.attempts + 1)
            × (row.lease_version ≡ fence)
      unfolding settle finish take_lease
      run_once_completes result writes e =
          let committed_lem = commit_lem w id fence taken taken mid claim_facts.3 claim_facts.0 in
          rw (run_once-handled, e, committed_lem false result writes, taken_held)
            (
              refl,
              refl,
              finish result taken taken,
              find-finish w id fence taken taken mid claim_facts.3 claim_facts.0 result taken_held,
              refl,
              refl,
              refl,
              refl,
              lookup-insert "result" "result" result job.payload,
              refl,
              sym claim_facts.1,
            )

      find-release : (x : String) → find id (release_lease w id fence x t) ≡ some (release x taken)
      unfolding release_lease take_lease
      find-release x = ground (
        arith,
        claim_facts.0,
        claim_facts.1,
        find-id id t taken claim_facts.0,
        find-write id (release x taken) t,
      )

      -- One whose handler raises has none of the handler's writes. The attempt is counted, the lease
      -- is given up and the error named, and the job waits to be tried again, or has failed if this
      -- was its fifth attempt or a later one.
      pub run_once_releases :
          (x : String)
          → h mid taken ≡ threw x
          → let (worked, db') = run_once h alone now w db in
            (worked ≡ true)
            × (db'.rest ≡ db.rest)
            × (row : DurableJob) × (find id db'.jobs ≡ some row)
            × (row.lease_owner ≡ none)
            × (row.lease_expires_at ≡ none)
            × (row.last_error ≡ some (raised x))
            × (row.attempts ≡ job.attempts + 1)
            × (((job.attempts + 1 < 5) × (row.status ≡ retry))
                ⊎ ((5 ≤ job.attempts + 1) × (row.status ≡ failed)))
      unfolding settle commit release take_lease
      run_once_releases x e =
          rw (run_once-handled, e)
            (
              refl,
              refl,
              release x taken,
              find-release x,
              refl,
              refl,
              refl,
              refl,
              elim (Bool-cases (leb 5 (job.attempts + 1))) [
                | inl many ↦ inr (ground (arith, many), rw many refl)
                | inr few ↦ inl (ground (arith, few), rw few refl)
              ],
            )
