-- ===== src/Jobs/Fence.antt =====
-- Fences: the column `lease_version`. No transaction lowers it, each claim issues a larger one, and
-- a worker whose fence is below it can write nothing.
use recordlane.Base.{
  subst, sym, ℕ, ◌≡◌, ◌≢◌, refl, ◌≤◌, ◌<◌, inl, inr, String, Bool, true, false, Option, none, some,
  List, [], ◌∷◌, arith, select, Option-cases, Every,
}
use recordlane.Jobs.{DurableJob, find, oldest, holds}
use recordlane.Jobs.Lease.{
  claimable, cancel, take_lease, claim_one, renewable, extend, renew_lease, cancel_job,
}
use recordlane.Jobs.Run.{
  Handler, Handled, done, threw, abandoned, start, fail_unknown, committable, finish, release,
  rolled_back, commit, release_lease, Db,
}
use recordlane.Jobs.Session.{
  Command, claim, renew, request_cancel, begin, end, give_up, apply, apply_all,
}
use recordlane.Jobs.Table.{
  IsUnique, update-IsUnique, write-IsUnique, refused_quiet, select-quiet, update-quiet,
}
use recordlane.Jobs.Claim.{claim_one_takes, Claimed, Claimed-find, Claimed-IsUnique}
use recordlane.Jobs.Machine.{
  Row, leased, cancelled_unclaimed, cancelled_claimed, renewed, asked, unknown, completed, released,
  apply-Moves,
}
use recordlane.Jobs.Allowed.{OneStep}

abbrev pub version : ℕ → List DurableJob → ℕ
version id t = elim (find id t) [ none ↦ 0 | some j ↦ j.lease_version ]

Row-version : {j k : DurableJob} → Row j k → j.lease_version ≤ k.lease_version
unfolding take_lease cancel extend fail_unknown finish release
Row-version (leased now w p q) = omega arith
Row-version (cancelled_unclaimed now p q) = omega arith
Row-version (cancelled_claimed w fence p q) = omega arith
Row-version (renewed now w id fence p) = omega arith
Row-version (asked p) = omega arith
Row-version (unknown w fence p) = omega arith
Row-version (completed w id fence result loaded p) = omega arith
Row-version (released w fence e p) = omega arith

OneStep-version :
    (o p : Option DurableJob)
    → OneStep Row o p
    → elim o [ none ↦ 0 | some j ↦ j.lease_version ]
      ≤ elim p [ none ↦ 0 | some j ↦ j.lease_version ]
OneStep-version none p s = omega arith
OneStep-version (some j) none s = absurd s
OneStep-version (some j) (some k) (inl e) = rw e (omega arith)
OneStep-version (some j) (some k) (inr r) = Row-version r

module _ {R : Type 0} where
  pub apply-version :
      (c : Command R) (db : Db R) (id : ℕ)
      → IsUnique db.jobs
      → version id db.jobs ≤ version id (apply c db).jobs
  apply-version c db id u = OneStep-version _ _ (apply-Moves c db u id)

  pub apply-IsUnique : (c : Command R) (db : Db R) → IsUnique db.jobs → IsUnique (apply c db).jobs
  unfolding apply claim_one renew_lease cancel_job start commit release_lease
  apply-IsUnique (claim now w) db u =
      elim (Option-cases (oldest (select (claimable now) db.jobs))) [
        | inl e ↦ ground arith
        | inr (j, e) ↦ ground (
          arith,
          write-IsUnique (cancel j) db.jobs u,
          write-IsUnique (take_lease now w j) db.jobs u,
        )
      ]
  apply-IsUnique (renew now w id fence) db u =
      update-IsUnique (renewable w id fence) (extend now) (λ j. refl) db.jobs u
  apply-IsUnique (request_cancel ws id) db u = elim (Option-cases (find id db.jobs)) [
    | inl e ↦ ground arith
    | inr (j, e) ↦ ground (arith, write-IsUnique (record j { cancel_requested = true }) db.jobs u)
  ]
  apply-IsUnique (begin h w id fence) db u = elim (Option-cases (find id db.jobs)) [
    | inl e ↦ ground arith
    | inr (j, e) ↦
        ground
          (arith, write-IsUnique (cancel j) db.jobs u, write-IsUnique (fail_unknown j) db.jobs u)
  ]
  apply-IsUnique (end w id fence loaded lost (threw e)) db u = u
  apply-IsUnique (end w id fence loaded lost (done result writes)) db u =
      ground (
        arith,
        update-IsUnique (committable w id fence) (finish result loaded) (λ j. refl) db.jobs u,
      )
  apply-IsUnique (give_up w id fence x) db u = elim (Option-cases (find id db.jobs)) [
    | inl e ↦ ground arith
    | inr (j, e) ↦ ground (arith, write-IsUnique (release x j) db.jobs u)
  ]

  pub apply_all-IsUnique :
      (cs : List (Command R)) (db : Db R) → IsUnique db.jobs → IsUnique (apply_all cs db).jobs
  unfolding apply_all
  apply_all-IsUnique [] db u = u
  apply_all-IsUnique (c ∷ cs) db u = apply_all-IsUnique cs (apply c db) (apply-IsUnique c db u)

  pub apply_all-version :
      (cs : List (Command R)) (db : Db R) (id : ℕ)
      → IsUnique db.jobs
      → version id db.jobs ≤ version id (apply_all cs db).jobs
  unfolding apply_all
  apply_all-version [] db id u = omega arith
  apply_all-version (c ∷ cs) db id u =
      omega (
        arith,
        apply-version c db id u,
        apply_all-version cs (apply c db) id (apply-IsUnique c db u),
      )

Claimed-version :
    {now w : ℕ} {t : List DurableJob} {id fence : ℕ} {t' : List DurableJob}
    → Claimed now w t id fence t'
    → version id t' ≡ fence
unfolding take_lease
Claimed-version c = rw (Claimed-find c, version) (sym c.next_fence)

module _ {R : Type 0} where
  -- A job's fences grow: whatever sessions commit between two claims of a job, the second claim's
  -- fence is larger than the first's. The table has a primary key.
  pub fences_increase :
      (cs : List (Command R)) (db : Db R) (now w later v id fence fence' : ℕ)
      (t t' : List DurableJob)
      → IsUnique db.jobs
      → claim_one now w db.jobs ≡ (some (id, fence), t)
      → claim_one later v (apply_all cs (record db { jobs = t })).jobs ≡ (some (id, fence'), t')
      → fence < fence'
  fences_increase cs db now w later v id fence fence' t t' u first again =
      let c = claim_one_takes now w db.jobs id fence t first u in
      let u' = Claimed-IsUnique c u in
      let mid = record db { jobs = t } in
      let d =
        claim_one_takes later v (apply_all cs mid).jobs id fence' t' again
          (apply_all-IsUnique cs mid u') in
      let grown : version id t ≤ d.job.lease_version =
        subst (λ o. version id t ≤ elim o [ none ↦ 0 | some j ↦ j.lease_version ]) d.found
          (apply_all-version cs mid id u') in
      omega (arith, Claimed-version c, d.next_fence)

-- A worker whose fence is not the job's current one.
module _ (w id fence : ℕ) (t : List DurableJob) (u : IsUnique t)
    (stale : fence ≢ version id t) where
  stale_row : (j : DurableJob) → find id t ≡ some j → holds w fence j ≡ false
  stale_row j h = ground arith

  none_committable : Every (λ j. committable w id fence j ≡ false) t
  unfolding committable
  none_committable =
      refused_quiet (committable w id fence) id (λ j h. ground arith) t u
        (λ j h. ground (arith, stale_row j h))

  none_renewable : Every (λ j. renewable w id fence j ≡ false) t
  unfolding renewable
  none_renewable =
      refused_quiet (renewable w id fence) id (λ j h. ground arith) t u
        (λ j h. ground (arith, stale_row j h))

  pub stale_renews_nothing : (now : ℕ) → renew_lease now w id fence t ≡ (false, t)
  unfolding renew_lease
  stale_renews_nothing now = rw (
    select-quiet (renewable w id fence) t none_renewable,
    update-quiet (renewable w id fence) (extend now) t none_renewable,
  )

  pub stale_releases_nothing : (e : String) → release_lease w id fence e t ≡ t
  unfolding release_lease
  stale_releases_nothing e = elim (Option-cases (find id t)) [
    | inl q ↦ ground arith
    | inr (j, q) ↦ ground (arith, stale_row j q)
  ]

  pub stale_starts_nothing : {R : Type 0} (h : Handler R) → start h w id fence t ≡ abandoned
  unfolding start
  stale_starts_nothing h = elim (Option-cases (find id t)) [
    | inl q ↦ ground arith
    | inr (j, q) ↦ ground (arith, stale_row j q)
  ]

  pub stale_commits_nothing :
      {R : Type 0} (loaded : DurableJob) (lost : Bool) (r : Handled R) (rest : R)
      → (e : String) × (commit w id fence loaded lost r (record { jobs = t; rest = rest })
          ≡ rolled_back e)
  unfolding commit
  stale_commits_nothing loaded lost (threw e) rest = (e, refl)
  stale_commits_nothing loaded true (done result writes) rest = ("RuntimeError", refl)
  stale_commits_nothing loaded false (done result writes) rest =
      ("RuntimeError", rw (select-quiet (committable w id fence) t none_committable))
