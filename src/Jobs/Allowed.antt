-- ===== src/Jobs/Allowed.antt =====
-- The life of one job: what each transaction of Session may make of a job's row, written out, and
-- the proof that it does no more.
use recordlane.Base.{
  subst, sym, ℕ, ◌+◌, ◌≡◌, ◌≢◌, refl, ◌⊎◌, inl, inr, String, Bool, true, false, ◌&&◌, Option, none,
  some, List, arith, ◌==◌, str_eq, str_eq_iff, length, ==_iff, select, Bool-cases, Option-cases,
  none_or, ltb, leb, if◌then◌else◌, insert,
}
use recordlane.Json.{Value}
use recordlane.Jobs.{
  DurableJob, Status, retry, running, complete, failed, cancelled, raised, unknown_job_kind, find,
  write, update, oldest, holds, is_live,
}
use recordlane.Jobs.Lease.{
  claimable, cancel, take_lease, claim_one, renewable, extend, renew_lease, cancel_job,
}
use recordlane.Jobs.Run.{
  Handler, Handled, done, threw, start, fail_unknown, committable, finish, release, commit,
  release_lease, Db,
}
use recordlane.Jobs.Session.{
  Command, claim, renew, request_cancel, begin, end, give_up, apply, started_jobs, ending_db,
}
use recordlane.Jobs.Table.{IsUnique, find-id, find-write, find-update}
use recordlane.Jobs.Claim.{oldest-claimable}

-- The owner of the lease and its fence.
abbrev pub IsHeldBy : ℕ → ℕ → DurableJob → Type 0
IsHeldBy w fence j = (j.lease_owner ≡ some w) × (j.lease_version ≡ fence)

-- The row of a job that stops for a status.
abbrev pub without_lease : Status → DurableJob → DurableJob
without_lease status j = record j { status = status; lease_owner = none; lease_expires_at = none }

-- The rows that a transaction may turn a job's row into, written out.
abbrev pub Allowed : {R : Type 0} → Command R → DurableJob → DurableJob → Type 0
Allowed (claim now w) j k =
    (is_live j.status ≡ true)
    × (none_or j.lease_expires_at (λ t. ltb t now) ≡ true)
    × (((j.cancel_requested ≡ false)
          × (k ≡ record j {
            status = running;
            lease_owner = some w;
            lease_version = j.lease_version + 1;
            lease_expires_at = some (now + 30);
            attempts = j.attempts + 1;
          }))
        ⊎ ((j.cancel_requested ≡ true) × (k ≡ without_lease cancelled j)))
Allowed (renew now w id fence) j k =
    (j.id ≡ id)
    × IsHeldBy w fence j
    × (j.status ≡ running)
    × (j.cancel_requested ≡ false)
    × (k ≡ record j { lease_expires_at = some (now + 30) })
Allowed (request_cancel ws id) j k =
    (j.id ≡ id)
    × (j.workspace_id ≡ ws)
    × (is_live j.status ≡ true)
    × (k ≡ record j { cancel_requested = true })
Allowed (begin h w id fence) j k =
    (j.id ≡ id)
    × IsHeldBy w fence j
    × (((j.cancel_requested ≡ true) × (k ≡ without_lease cancelled j))
        ⊎ ((j.cancel_requested ≡ false)
            × (j.kind ≢ "remaster_domain")
            × (k
                ≡ record (without_lease failed j) { last_error = some (unknown_job_kind j.kind) })))
Allowed {R} (end w id fence loaded lost r) j k =
    (j.id ≡ id)
    × IsHeldBy w fence j
    × (j.cancel_requested ≡ false)
    × (lost ≡ false)
    × (result : Value) × (writes : R → R) × (r ≡ done result writes)
    × (k ≡ record (without_lease complete j) {
      payload = insert "result" result loaded.payload;
      last_error = none;
    })
Allowed (give_up w id fence e) j k =
    (j.id ≡ id)
    × IsHeldBy w fence j
    × (k ≡ record (without_lease (if leb 5 j.attempts then failed else retry) j) {
      last_error = some (raised e);
    })

-- At most one step of a relation.
abbrev pub OneStep :
    (DurableJob → DurableJob → Type 0) → Option DurableJob → Option DurableJob → Type 0
OneStep S none none = Unit
OneStep S (some j) (some k) = (j ≡ k) ⊎ S j k
OneStep S _ _ = ⊥

pub OneStep-map :
    {S T : DurableJob → DurableJob → Type 0} (o p : Option DurableJob)
    → ((j k : DurableJob) → S j k → T j k)
    → OneStep S o p
    → OneStep T o p
OneStep-map none none f s = tt
OneStep-map none (some k) f s = absurd s
OneStep-map (some j) none f s = absurd s
OneStep-map (some j) (some k) f (inl q) = inl q
OneStep-map (some j) (some k) f (inr s) = inr (f j k s)

refind : (id : ℕ) (t : List DurableJob) (j : DurableJob) → find id t ≡ some j → find j.id t ≡ some j
refind id t j h = subst (λ k. find k t ≡ some j) (sym (find-id id t j h)) h

abbrev pub Moves : (DurableJob → DurableJob → Type 0) → List DurableJob → List DurableJob → Type 0
Moves S t t' = (id : ℕ) → OneStep S (find id t) (find id t')

module _ (S : DurableJob → DurableJob → Type 0) where
  OneStep-refl : (o : Option DurableJob) → OneStep S o o
  OneStep-refl none = tt
  OneStep-refl (some j) = inl refl

  Moves-refl : (t : List DurableJob) → Moves S t t
  Moves-refl t id = OneStep-refl (find id t)

  write-Moves :
      (new old : DurableJob) (t : List DurableJob)
      → find new.id t ≡ some old
      → S old new
      → Moves S t (write new t)
  write-Moves new old t h r id = elim (Bool-cases (new.id == id)) [
    | inl e ↦
        let found : find id t ≡ some old =
          subst (λ k. find k t ≡ some old) ((==_iff new.id id).0 e) h in
        rw find-write (rw (e, found) (inr r))
    | inr e ↦ rw find-write (rw e (OneStep-refl (find id t)))
  ]

  unmoved : (t t' : List DurableJob) → t' ≡ t → Moves S t t'
  unmoved t t' q = subst (Moves S t) (sym q) (Moves-refl t)

  rewritten :
      (new old : DurableJob) (t t' : List DurableJob)
      → find new.id t ≡ some old
      → S old new
      → t' ≡ write new t
      → Moves S t t'
  rewritten new old t t' h r q = subst (Moves S t) (sym q) (write-Moves new old t h r)

  update-Moves :
      (p : DurableJob → Bool) (f : DurableJob → DurableJob)
      → ((j : DurableJob) → (f j).id ≡ j.id)
      → ((j : DurableJob) → p j ≡ true → S j (f j))
      → (t : List DurableJob) → Moves S t (update p f t)
  update-Moves p f same step t id = rw (find-update p f same) (elim (Option-cases (find id t)) [
    | inl e ↦ rw e tt
    | inr (j, e) ↦
        rw e (elim (Bool-cases (p j)) [ inl q ↦ rw q (inr (step j q)) | inr q ↦ rw q (inl refl) ])
  ])

renewable-facts :
    (w id fence : ℕ) (j : DurableJob)
    → renewable w id fence j ≡ true
    → (j.id ≡ id) × IsHeldBy w fence j × (j.status ≡ running) × (j.cancel_requested ≡ false)
unfolding renewable
renewable-facts w id fence j p = ground arith

holds-IsHeldBy : (w fence : ℕ) (j : DurableJob) → holds w fence j ≡ true → IsHeldBy w fence j
holds-IsHeldBy w fence j p = ground arith

committable-facts :
    (w id fence : ℕ) (j : DurableJob)
    → committable w id fence j ≡ true
    → (j.id ≡ id) × IsHeldBy w fence j × (j.cancel_requested ≡ false)
unfolding committable
committable-facts w id fence j p = ground arith

module _ (R : Type 0) where
  claim_one-Moves :
      (now w : ℕ) (t : List DurableJob)
      → IsUnique t
      → Moves (Allowed {R = R} (claim now w)) t (claim_one now w t).1
  unfolding claim_one take_lease cancel claimable
  claim_one-Moves now w t u =
      let t' = (claim_one now w t).1 in
      let S = Allowed {R = R} (claim now w) in
      elim (Option-cases (oldest (select (claimable now) t))) [
        | inl e ↦ unmoved S t t' (ground arith)
        | inr (j, e) ↦
            let (found, free, _) = oldest-claimable now w t u j e in
            let live : is_live j.status ≡ true = ground (arith, free) in
            let lapsed : none_or j.lease_expires_at (λ t. ltb t now) ≡ true =
              ground (arith, free) in
            elim (Bool-cases j.cancel_requested) [
              | inl wanted ↦
                  rewritten S (cancel j) j t t' found (live, lapsed, inr (wanted, refl))
                    (ground arith)
              | inr not_asked ↦
                  rewritten S (take_lease now w j) j t t' found
                    (live, lapsed, inl (not_asked, refl)) (ground arith)
            ]
      ]

  renew_lease-Moves :
      (now w id fence : ℕ) (t : List DurableJob)
      → Moves (Allowed {R = R} (renew now w id fence)) t (renew_lease now w id fence t).1
  unfolding renew_lease extend
  renew_lease-Moves now w id fence t =
      update-Moves (Allowed {R = R} (renew now w id fence)) (renewable w id fence) (extend now)
        (λ j. refl) (λ j p. let (a, b, c, d) = renewable-facts w id fence j p in (a, b, c, d, refl))
        t

  cancel_job-Moves :
      (ws id : ℕ) (t : List DurableJob)
      → Moves (Allowed {R = R} (request_cancel ws id)) t (cancel_job ws id t).1
  unfolding cancel_job
  cancel_job-Moves ws id t =
      let t' = (cancel_job ws id t).1 in
      let S = Allowed {R = R} (request_cancel ws id) in
      elim (Option-cases (find id t)) [
        | inl e ↦ unmoved S t t' (ground arith)
        | inr (j, e) ↦ elim (Bool-cases (j.workspace_id == ws && is_live j.status)) [
          | inl live ↦
              rewritten S (record j { cancel_requested = true }) j t t' (refind id t j e)
                (find-id id t j e, ground arith, ground arith, refl) (ground arith)
          | inr other ↦ unmoved S t t' (ground arith)
        ]
      ]

  release_lease-Moves :
      (w id fence : ℕ) (x : String) (t : List DurableJob)
      → Moves (Allowed {R = R} (give_up w id fence x)) t (release_lease w id fence x t)
  unfolding release_lease release
  release_lease-Moves w id fence x t =
      let t' = release_lease w id fence x t in
      let S = Allowed {R = R} (give_up w id fence x) in
      elim (Option-cases (find id t)) [
        | inl e ↦ unmoved S t t' (ground arith)
        | inr (j, e) ↦ elim (Bool-cases (holds w fence j)) [
          | inl held ↦
              rewritten S (release x j) j t t' (refind id t j e)
                (find-id id t j e, holds-IsHeldBy w fence j held, refl) (ground arith)
          | inr lost ↦ unmoved S t t' (ground arith)
        ]
      ]

module _ {R : Type 0} where
  start-Moves :
      (h : Handler R) (w id fence : ℕ) (t : List DurableJob)
      → Moves (Allowed (begin h w id fence)) t (started_jobs (start h w id fence t) t)
  unfolding start cancel fail_unknown
  start-Moves h w id fence t =
      let t' = started_jobs (start h w id fence t) t in
      let S = Allowed (begin h w id fence) in
      elim (Option-cases (find id t)) [
        | inl e ↦ unmoved S t t' (ground arith)
        | inr (j, e) ↦ elim (Bool-cases (holds w fence j)) [
          | inr lost ↦ unmoved S t t' (ground arith)
          | inl held ↦
              let own = holds-IsHeldBy w fence j held in
              let at = find-id id t j e in
              elim (Bool-cases j.cancel_requested) [
                | inl wanted ↦
                    rewritten S (cancel j) j t t' (refind id t j e) (at, own, inl (wanted, refl))
                      (ground arith)
                | inr not_asked ↦ elim (Bool-cases (str_eq j.kind "remaster_domain")) [
                  | inl known ↦ unmoved S t t' (ground arith)
                  | inr other ↦
                      let unknown : j.kind ≢ "remaster_domain" =
                        ground (arith, other, str_eq_iff j.kind "remaster_domain") in
                      rewritten S (fail_unknown j) j t t' (refind id t j e)
                        (at, own, inr (not_asked, unknown, refl)) (ground arith)
                ]
              ]
        ]
      ]

  commit-Moves :
      (w id fence : ℕ) (loaded : DurableJob) (lost : Bool) (r : Handled R) (db : Db R)
      → Moves
          (Allowed (end w id fence loaded lost r))
          db.jobs
          (ending_db (commit w id fence loaded lost r db) db).jobs
  unfolding commit finish
  commit-Moves w id fence loaded lost (threw e) db = Moves-refl _ db.jobs
  commit-Moves w id fence loaded true (done result writes) db = Moves-refl _ db.jobs
  commit-Moves w id fence loaded false (done result writes) db =
      let p = committable w id fence in
      let S = Allowed (end w id fence loaded false (done result writes)) in
      elim (Bool-cases (length (select p db.jobs) == 1)) [
        | inl e ↦ rw e (
            update-Moves S p (finish result loaded) (λ j. refl)
              (λ j q.
                let (a, b, c) = committable-facts w id fence j q in
                (a, b, c, refl, result, writes, refl, refl))
              db.jobs)
        | inr e ↦ rw e (Moves-refl S db.jobs)
      ]

  -- Every transaction of the worker's sessions and of cancel_job moves each job by at most one step
  -- that `Allowed` writes out for that transaction, with its worker and fence, and adds or removes
  -- no job, for a table with a primary key.
  pub apply-Allowed :
      (c : Command R) (db : Db R) → IsUnique db.jobs → Moves (Allowed c) db.jobs (apply c db).jobs
  unfolding apply
  apply-Allowed (claim now w) db u = claim_one-Moves R now w db.jobs u
  apply-Allowed (renew now w id fence) db u = renew_lease-Moves R now w id fence db.jobs
  apply-Allowed (request_cancel ws id) db u = cancel_job-Moves R ws id db.jobs
  apply-Allowed (begin h w id fence) db u = start-Moves h w id fence db.jobs
  apply-Allowed (end w id fence loaded lost r) db u = commit-Moves w id fence loaded lost r db
  apply-Allowed (give_up w id fence e) db u = release_lease-Moves R w id fence e db.jobs
