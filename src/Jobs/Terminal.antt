-- ===== src/Jobs/Terminal.antt =====
-- A job that is complete, failed or cancelled stays as it is: the guards of the transactions and
-- what they write to the lease keep every later one away from it.
use mathlib.Core.Bool.{false≢true}
use recordlane.Base.{
  some-eq, ap, sym, subst, ◌∙◌, ℕ, ◌≡◌, ◌≢◌, refl, ◌<◌, inl, inr, true, false, Option, none, some,
  List, [], ◌∷◌, arith,
}
use recordlane.Jobs.{DurableJob, retry, find, is_live, is_running, max_attempts}
use recordlane.Jobs.Lease.{claimable, cancel, take_lease, renewable, extend}
use recordlane.Jobs.Run.{fail_unknown, committable, finish, release, Db}
use recordlane.Jobs.Session.{Command, apply, apply_all}
use recordlane.Jobs.Table.{IsUnique}
use recordlane.Jobs.Machine.{
  Row, leased, cancelled_unclaimed, cancelled_claimed, renewed, asked, unknown, completed, released,
  apply-Moves,
}
use recordlane.Jobs.Fence.{apply-IsUnique}
use recordlane.Jobs.Allowed.{OneStep}

-- A job has an owner exactly while it runs, a lease that ends only with an owner, and it waits for
-- another try only if it has tries left.
pub record IsValid (j : DurableJob) : Type 0 where
  pub unowned : is_running j.status ≡ false → j.lease_owner ≡ none
  pub owned : is_running j.status ≡ true → j.lease_owner ≢ none
  pub unleased : j.lease_owner ≡ none → j.lease_expires_at ≡ none
  pub tries_left : j.status ≡ retry → j.attempts < max_attempts

Row-IsValid : {j k : DurableJob} → Row j k → IsValid j → IsValid k
unfolding claimable take_lease cancel renewable extend fail_unknown committable finish release
Row-IsValid (leased now w p q) v = ground (arith, v.unowned, v.owned, v.unleased, v.tries_left)
Row-IsValid (cancelled_unclaimed now p q) v = ground arith
Row-IsValid (cancelled_claimed w fence p q) v = ground arith
Row-IsValid (renewed now w id fence p) v =
    ground (arith, v.unowned, v.owned, v.unleased, v.tries_left)
Row-IsValid (asked p) v = record {
  unowned = v.unowned;
  owned = v.owned;
  unleased = v.unleased;
  tries_left = v.tries_left;
}
Row-IsValid (unknown w fence p) v = ground arith
Row-IsValid (completed w id fence result loaded p) v = ground arith
Row-IsValid (released w fence e p) v = ground arith

-- A settled job has no next row.
settled_stops : {j k : DurableJob} → Row j k → IsValid j → is_live j.status ≡ true
unfolding claimable renewable committable
settled_stops (leased now w p q) v = ground arith
settled_stops (cancelled_unclaimed now p q) v = ground arith
settled_stops (cancelled_claimed w fence p q) v = ground arith
settled_stops (renewed now w id fence p) v = ground arith
settled_stops (asked p) v = p
settled_stops (unknown w fence p) v = ground arith
settled_stops (completed w id fence result loaded p) v = ground arith
settled_stops (released w fence e p) v = ground arith

abbrev pub AllValid : List DurableJob → Type 0
AllValid t = (id : ℕ) (j : DurableJob) → find id t ≡ some j → IsValid j

OneStep-IsValid :
    (o p : Option DurableJob)
    → OneStep Row o p
    → ((j : DurableJob) → o ≡ some j → IsValid j)
    → (k : DurableJob) → p ≡ some k
    → IsValid k
OneStep-IsValid none none s v k e = cc
OneStep-IsValid none (some i) s v k e = absurd s
OneStep-IsValid (some j) none s v k e = absurd s
OneStep-IsValid (some j) (some i) (inl q) v k e = v k (ap some q ∙ e)
OneStep-IsValid (some j) (some i) (inr r) v k e =
    subst IsValid (some-eq e) (Row-IsValid r (v j refl))

OneStep-settled :
    (o p : Option DurableJob) (j : DurableJob)
    → OneStep Row o p
    → o ≡ some j
    → IsValid j
    → is_live j.status ≡ false
    → p ≡ some j
OneStep-settled none p j s e v h = cc
OneStep-settled (some i) none j s e v h = absurd s
OneStep-settled (some i) (some k) j (inl q) e v h = ap some (sym q) ∙ e
OneStep-settled (some i) (some k) j (inr r) e v h =
    let live = settled_stops r (subst IsValid (sym (some-eq e)) v) in
    absurd (false≢true (sym h ∙ subst (λ x. is_live x.status ≡ true) (some-eq e) live))

module _ {R : Type 0} where
  apply-AllValid :
      (c : Command R) (db : Db R) → IsUnique db.jobs → AllValid db.jobs → AllValid (apply c db).jobs
  apply-AllValid c db u v id = OneStep-IsValid _ _ (apply-Moves c db u id) (v id)

  -- No run of transactions breaks the invariant of a valid table with a primary key.
  pub apply_all-AllValid :
      (cs : List (Command R)) (db : Db R)
      → IsUnique db.jobs
      → AllValid db.jobs
      → AllValid (apply_all cs db).jobs
  unfolding apply_all
  apply_all-AllValid [] db u v = v
  apply_all-AllValid (c ∷ cs) db u v =
      apply_all-AllValid cs (apply c db) (apply-IsUnique c db u) (apply-AllValid c db u v)

  -- In a valid table, a job that is complete, failed or cancelled keeps its row through every run
  -- of claims, renewals, cancellations, commits and releases.
  pub settled_forever :
      (cs : List (Command R)) (db : Db R) (id : ℕ) (j : DurableJob)
      → IsUnique db.jobs
      → AllValid db.jobs
      → find id db.jobs ≡ some j
      → is_live j.status ≡ false
      → find id (apply_all cs db).jobs ≡ some j
  unfolding apply_all
  settled_forever [] db id j u v e h = e
  settled_forever (c ∷ cs) db id j u v e h =
      settled_forever cs (apply c db) id j (apply-IsUnique c db u) (apply-AllValid c db u v)
        (OneStep-settled _ _ j (apply-Moves c db u id) e (v id j e) h) h
