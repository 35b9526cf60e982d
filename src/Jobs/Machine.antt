-- ===== src/Jobs/Machine.antt =====
-- The steps of a job's life without the transaction that takes them.
use recordlane.Base.{subst, sym, ℕ, ◌≡◌, inl, inr, String, true, false, arith}
use recordlane.Json.{Value}
use recordlane.Jobs.{DurableJob, holds, is_live}
use recordlane.Jobs.Lease.{claimable, cancel, take_lease, renewable, extend}
use recordlane.Jobs.Run.{fail_unknown, committable, finish, release, Db}
use recordlane.Jobs.Session.{Command, claim, renew, request_cancel, begin, end, give_up, apply}
use recordlane.Jobs.Table.{IsUnique}
use recordlane.Jobs.Allowed.{Allowed, OneStep-map, Moves, apply-Allowed}

pub data Row (j : DurableJob) : DurableJob → Type 0 where
  leased :
      (now w : ℕ) → claimable now j ≡ true → j.cancel_requested ≡ false → Row j (take_lease now w j)
  cancelled_unclaimed :
      (now : ℕ) → claimable now j ≡ true → j.cancel_requested ≡ true → Row j (cancel j)
  cancelled_claimed :
      (w fence : ℕ) → holds w fence j ≡ true → j.cancel_requested ≡ true → Row j (cancel j)
  renewed : (now w id fence : ℕ) → renewable w id fence j ≡ true → Row j (extend now j)
  asked : is_live j.status ≡ true → Row j (record j { cancel_requested = true })
  unknown : (w fence : ℕ) → holds w fence j ≡ true → Row j (fail_unknown j)
  completed :
      (w id fence : ℕ) (result : Value) (loaded : DurableJob)
      → committable w id fence j ≡ true
      → Row j (finish result loaded j)
  released : (w fence : ℕ) (e : String) → holds w fence j ≡ true → Row j (release e j)

module _ {R : Type 0} where
  Allowed-Row : (c : Command R) (j k : DurableJob) → Allowed c j k → Row j k
  unfolding claimable take_lease cancel renewable extend fail_unknown committable finish release
  Allowed-Row (claim now w) j k (live, lapsed, inl (not_asked, q)) =
      subst (Row j) (sym q) (leased now w (ground arith) not_asked)
  Allowed-Row (claim now w) j k (live, lapsed, inr (wanted, q)) =
      subst (Row j) (sym q) (cancelled_unclaimed now (ground arith) wanted)
  Allowed-Row (renew now w id fence) j k (at, held, live, not_asked, q) =
      subst (Row j) (sym q) (renewed now w id fence (ground arith))
  Allowed-Row (request_cancel ws id) j k (at, of_ws, live, q) = subst (Row j) (sym q) (asked live)
  Allowed-Row (begin h w id fence) j k (at, held, inl (wanted, q)) =
      subst (Row j) (sym q) (cancelled_claimed w fence (ground arith) wanted)
  Allowed-Row (begin h w id fence) j k (at, held, inr (not_asked, kind, q)) =
      subst (Row j) (sym q) (unknown w fence (ground arith))
  Allowed-Row (end w id fence loaded lost r) j k
        (at, held, not_asked, kept, result, writes, is_done, q) =
      subst (Row j) (sym q) (completed w id fence result loaded (ground arith))
  Allowed-Row (give_up w id fence e) j k (at, held, q) =
      subst (Row j) (sym q) (released w fence e (ground arith))

  -- Every transaction moves each job by at most one step of `Row`.
  pub apply-Moves :
      (c : Command R) (db : Db R) → IsUnique db.jobs → Moves Row db.jobs (apply c db).jobs
  apply-Moves c db u id = OneStep-map _ _ (Allowed-Row c) (apply-Allowed c db u id)
