-- ===== src/Jobs/Claim.antt =====
-- What claim_one takes.
use recordlane.Base.{
  subst, sym, ℕ, ◌+◌, ◌≡◌, ◌≤◌, inl, inr, true, false, some, List, arith, select, Option-cases, In,
  In-select, select-In,
}
use recordlane.Jobs.{DurableJob, find, write, oldest}
use recordlane.Jobs.Lease.{claimable, take_lease, claim_one}
use recordlane.Jobs.Table.{
  IsUnique, find-id, find-write, write-IsUnique, In-find, oldest-In, oldest-le,
}

-- The job that a claim took, with the facts that the query ensures.
pub record Claimed (now w : ℕ) (t : List DurableJob) (id fence : ℕ) (t' : List DurableJob)
    : Type 0 where
  pub job : DurableJob
  pub found : find id t ≡ some job
  pub was_claimable : claimable now job ≡ true
  pub not_cancelled : job.cancel_requested ≡ false
  pub next_fence : fence ≡ job.lease_version + 1
  pub is_oldest : (k : DurableJob) → In k t → claimable now k ≡ true → job.created_at ≤ k.created_at
  pub written : t' ≡ write (take_lease now w job) t

module _ (now w : ℕ) (t : List DurableJob) where
  pub oldest-claimable :
      IsUnique t
      → (j : DurableJob) → oldest (select (claimable now) t) ≡ some j
      → (find j.id t ≡ some j)
        × (claimable now j ≡ true)
        × ((k : DurableJob) → In k t → claimable now k ≡ true → j.created_at ≤ k.created_at)
  oldest-claimable u j h =
      let member = In-select (claimable now) j t (oldest-In _ j h) in
      (
        In-find j t u member.0,
        member.1,
        λ k m e. oldest-le _ j k h (select-In (claimable now) k t m e),
      )

  module _ (id fence : ℕ) (t' : List DurableJob)
      (h : claim_one now w t ≡ (some (id, fence), t')) where
    claim_one-writes :
        (j : DurableJob)
        → oldest (select (claimable now) t) ≡ some j
        → (j.cancel_requested ≡ false)
          × (id ≡ j.id)
          × (fence ≡ j.lease_version + 1)
          × (t' ≡ write (take_lease now w j) t)
    unfolding claim_one
    claim_one-writes j e = ground arith

    claim_one-finds : (j : DurableJob) × (oldest (select (claimable now) t) ≡ some j)
    unfolding claim_one
    claim_one-finds = elim (Option-cases (oldest (select (claimable now) t))) [
      | inl e ↦ absurd (ground arith)
      | inr found ↦ found
    ]

    -- A claim takes the oldest of the jobs that are live and have no running lease, and issues the
    -- job's next fence.
    pub claim_one_takes : IsUnique t → Claimed now w t id fence t'
    claim_one_takes u =
        let (j, e) = claim_one-finds in
        let (found, ok, least) = oldest-claimable u j e in
        let (not_cancelled, same, next, written) = claim_one-writes j e in
        record {
          job = j;
          found = subst (λ k. find k t ≡ some j) (sym same) found;
          was_claimable = ok;
          not_cancelled = not_cancelled;
          next_fence = next;
          is_oldest = least;
          written = written;
        }

module _ {now w : ℕ} {t : List DurableJob} {id fence : ℕ} {t' : List DurableJob} where
  -- The claimed row, after the claim.
  pub Claimed-find : (c : Claimed now w t id fence t') → find id t' ≡ some (take_lease now w c.job)
  unfolding take_lease
  Claimed-find c = rw c.written (
      ground (arith, find-id id t c.job c.found, find-write id (take_lease now w c.job) t, c.found))

  pub Claimed-IsUnique : Claimed now w t id fence t' → IsUnique t → IsUnique t'
  Claimed-IsUnique c u = rw c.written (write-IsUnique (take_lease now w c.job) t u)
