-- ===== src/Jobs/Exclusive.antt =====
-- A job with a running lease is not claimed, whatever else the sessions do meanwhile.
use recordlane.Base.{
  subst, ℕ, ◌+◌, ◌≡◌, ◌≢◌, ◌≤◌, refl, inl, inr, true, false, some, List, [], ◌∷◌, arith, Every,
  Option-cases,
}
use recordlane.Jobs.{DurableJob, find}
use recordlane.Jobs.Lease.{take_lease, claim_one, claimable}
use recordlane.Jobs.Run.{Db}
use recordlane.Jobs.Session.{
  Command, claim, renew, request_cancel, begin, end, give_up, apply, apply_all,
}
use recordlane.Jobs.Table.{IsUnique, find-id}
use recordlane.Jobs.Claim.{claim_one_takes, Claimed-find, Claimed-IsUnique}
use recordlane.Jobs.Allowed.{Allowed, OneStep, apply-Allowed}
use recordlane.Jobs.Fence.{apply-IsUnique}

-- A transaction that does not end the run of the job: a claim not later than the end of the lease, a
-- renewal not before the lease was taken, any request to cancel, and what a worker does for another
-- job.
abbrev pub Spares : {R : Type 0} → ℕ → ℕ → Command R → Type 0
Spares now id (claim later w) = later ≤ now + 30
Spares now id (renew later w other fence) = now ≤ later
Spares now id (request_cancel ws other) = Unit
Spares now id (begin h w other fence) = other ≢ id
Spares now id (end w other fence loaded lost r) = other ≢ id
Spares now id (give_up w other fence e) = other ≢ id

-- The job has a lease that runs until the time, or longer.
record IsLeased (end_of : ℕ) (id : ℕ) (t : List DurableJob) : Type 0 where
  job : DurableJob
  found : find id t ≡ some job
  expires : ℕ
  lease : job.lease_expires_at ≡ some expires
  lasts : end_of ≤ expires

module _ {R : Type 0} (now id : ℕ) where
  Allowed-IsLeased :
      (c : Command R) (j k : DurableJob) (expires : ℕ)
      → Spares now id c
      → j.id ≡ id
      → j.lease_expires_at ≡ some expires
      → now + 30 ≤ expires
      → Allowed c j k
      → (e : ℕ) × (k.lease_expires_at ≡ some e) × (now + 30 ≤ e)
  Allowed-IsLeased (claim later w) j k expires spares same lease lasts (live, lapsed, _) =
      absurd (ground (arith, lapsed, lease))
  Allowed-IsLeased (renew later w other fence) j k expires spares same lease lasts
        (a, b, c, d, is_k) =
      (later + 30, rw is_k refl, omega (arith, spares))
  Allowed-IsLeased (request_cancel ws other) j k expires spares same lease lasts (a, b, c, is_k) =
      (expires, rw is_k lease, lasts)
  Allowed-IsLeased (begin h w other fence) j k expires spares same lease lasts allowed =
      absurd (ground (arith, allowed.0, same))
  Allowed-IsLeased (end w other fence loaded lost r) j k expires spares same lease lasts allowed =
      absurd (ground (arith, allowed.0, same))
  Allowed-IsLeased (give_up w other fence e) j k expires spares same lease lasts allowed =
      absurd (ground (arith, allowed.0, same))

  apply-IsLeased :
      (c : Command R) (db : Db R)
      → IsUnique db.jobs
      → Spares now id c
      → IsLeased (now + 30) id db.jobs
      → IsLeased (now + 30) id (apply c db).jobs
  apply-IsLeased c db u spares l =
      let step : OneStep (Allowed c) (some l.job) (find id (apply c db).jobs) =
        subst (λ o. OneStep (Allowed c) o (find id (apply c db).jobs)) l.found
          (apply-Allowed c db u id) in
      elim (Option-cases (find id (apply c db).jobs)) [
        | inl n ↦ absurd (rw n at step)
        | inr (k, found) ↦ elim (rw found at step) [
          | inl same ↦ record {
            job = k;
            found = found;
            expires = l.expires;
            lease = rw (← same) l.lease;
            lasts = l.lasts;
          }
          | inr allowed ↦
              let (e, lease, lasts) =
                Allowed-IsLeased c l.job k l.expires spares (find-id id db.jobs l.job l.found)
                  l.lease l.lasts allowed in
              record { job = k; found = found; expires = e; lease = lease; lasts = lasts }
        ]
      ]

  apply_all-IsLeased :
      (cs : List (Command R)) (db : Db R)
      → IsUnique db.jobs
      → Every (Spares now id) cs
      → IsLeased (now + 30) id db.jobs
      → IsUnique (apply_all cs db).jobs × IsLeased (now + 30) id (apply_all cs db).jobs
  unfolding apply_all
  apply_all-IsLeased [] db u spares l = (u, l)
  apply_all-IsLeased (c ∷ cs) db u (spares, others) l =
      apply_all-IsLeased cs (apply c db) (apply-IsUnique c db u) others
        (apply-IsLeased c db u spares l)

leased_not_claimable :
    (now later : ℕ) (j : DurableJob) (e : ℕ)
    → j.lease_expires_at ≡ some e
    → now + 30 ≤ e
    → later ≤ now + 30
    → claimable later j ≡ false
unfolding claimable
leased_not_claimable now later j e lease lasts within = ground (arith, lease)

-- After a claim, no other claim takes the job that is not later than the end of its lease, whatever
-- transactions are committed in between that are claims not later than that end, renewals not
-- before the first claim, requests to cancel, or what workers do for other jobs.
pub claim_one_excludes :
    {R : Type 0} (now w : ℕ) (db : Db R) (id fence : ℕ) (t : List DurableJob)
    (between : List (Command R)) (later v id' fence' : ℕ) (t' : List DurableJob)
    → IsUnique db.jobs
    → claim_one now w db.jobs ≡ (some (id, fence), t)
    → Every (Spares now id) between
    → later ≤ now + 30
    → claim_one later v (apply_all between (record db { jobs = t })).jobs ≡ (some (id', fence'), t')
    → id' ≢ id
unfolding take_lease
claim_one_excludes now w db id fence t between later v id' fence' t' u first spares within again
      same =
    let c = claim_one_takes now w db.jobs id fence t first u in
    let start : IsLeased (now + 30) id t = record {
      job = take_lease now w c.job;
      found = Claimed-find c;
      expires = now + 30;
      lease = refl;
      lasts = omega arith;
    } in
    let (unique, l) =
      apply_all-IsLeased now id between (record db { jobs = t }) (Claimed-IsUnique c u) spares
        start in
    let d =
      claim_one_takes later v (apply_all between (record db { jobs = t })).jobs id' fence' t' again
        unique in
    let one : d.job ≡ l.job = ground (arith, d.found, l.found, same) in
    let free : claimable later l.job ≡ true = rw one at d.was_claimable in
    let busy = leased_not_claimable now later l.job l.expires l.lease l.lasts within in
    ground (arith, free, busy)
