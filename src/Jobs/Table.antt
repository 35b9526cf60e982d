-- ===== src/Jobs/Table.antt =====
-- Laws of the queries on the job table: a lookup after a write, and what `oldest` selects.
use recordlane.Base.{
  Every, In, ℕ, ◌≡◌, refl, ◌≤◌, inl, inr, Bool, true, false, Option, none, some, List, [], ◌∷◌,
  arith, ◌==◌, if◌then◌else◌, select, Bool-cases, Option-cases,
}
use recordlane.Jobs.{DurableJob, find, write, update, oldest}

-- The primary key.
abbrev pub IsUnique : List DurableJob → Type 0
IsUnique [] = Unit
IsUnique (j ∷ t) = (find j.id t ≡ none) × IsUnique t

abbrev pub change : (DurableJob → DurableJob) → Option DurableJob → Option DurableJob
change f none = none
change f (some j) = some (f j)

pub find-id : (id : ℕ) (t : List DurableJob) (j : DurableJob) → find id t ≡ some j → j.id ≡ id
find-id id [] j h = cc
find-id id (k ∷ t) j h = ground (arith, find-id id t j)

pub find-write :
    (id : ℕ) (new : DurableJob) (t : List DurableJob)
    → find id (write new t) ≡ (if new.id == id then change (λ _. new) (find id t) else find id t)
find-write id new [] = ground arith
find-write id new (j ∷ t) = ground (arith, find-write id new t)

module _ (p : DurableJob → Bool) (f : DurableJob → DurableJob)
    (same : (j : DurableJob) → (f j).id ≡ j.id) where
  pub find-update :
      (id : ℕ) (t : List DurableJob)
      → find id (update p f t) ≡ change (λ j. if p j then f j else j) (find id t)
  find-update id [] = refl
  find-update id (j ∷ t) = ground (arith, find-update id t, same j)

  pub update-IsUnique : (t : List DurableJob) → IsUnique t → IsUnique (update p f t)
  update-IsUnique [] h = tt
  update-IsUnique (j ∷ t) h =
      ground (arith, update-IsUnique t h.1, same j, find-update j.id t, find-update (f j).id t)

pub write-IsUnique : (new : DurableJob) (t : List DurableJob) → IsUnique t → IsUnique (write new t)
write-IsUnique new [] h = tt
write-IsUnique new (j ∷ t) h =
    ground (arith, write-IsUnique new t h.1, find-write j.id new t, find-write new.id new t)

pub find-In : (id : ℕ) (t : List DurableJob) (j : DurableJob) → find id t ≡ some j → In j t
find-In id [] j h = cc
find-In id (k ∷ t) j h = ground (arith, find-In id t j)

pub In-find : (j : DurableJob) (t : List DurableJob) → IsUnique t → In j t → find j.id t ≡ some j
In-find j [] u h = absurd h
In-find j (k ∷ t) u (inl e) = ground arith
In-find j (k ∷ t) u (inr h) = ground (arith, In-find j t u.1 h)

pub oldest-In : (t : List DurableJob) (j : DurableJob) → oldest t ≡ some j → In j t
oldest-In [] j h = cc
oldest-In (k ∷ t) j h = elim (Option-cases (oldest t)) [
  | inl e ↦ ground arith
  | inr (m, e) ↦ ground (arith, oldest-In t m e)
]

pub oldest-none : (t : List DurableJob) (k : DurableJob) → oldest t ≡ none → ¬ In k t
oldest-none [] k h m = m
oldest-none (i ∷ t) k h m = elim (Option-cases (oldest t)) [
  | inl e ↦ ground arith
  | inr (n, e) ↦ ground arith
]

pub oldest-le :
    (t : List DurableJob) (j k : DurableJob)
    → oldest t ≡ some j
    → In k t
    → j.created_at ≤ k.created_at
oldest-le [] j k h m = absurd m
oldest-le (i ∷ t) j k h m = elim (Option-cases (oldest t)) [
  | inl e ↦ ground (arith, oldest-none t k e)
  | inr (n, e) ↦ ground (arith, oldest-le t n k e)
]

module _ (p : DurableJob → Bool) where
  pub select-quiet : (t : List DurableJob) → Every (λ j. p j ≡ false) t → select p t ≡ []
  select-quiet [] h = refl
  select-quiet (j ∷ t) h = rw h.0 (select-quiet t h.1)

  pub update-quiet :
      (f : DurableJob → DurableJob) (t : List DurableJob)
      → Every (λ j. p j ≡ false) t
      → update p f t ≡ t
  update-quiet f [] h = refl
  update-quiet f (j ∷ t) h = rw (h.0, update-quiet f t h.1)

-- A test that only rows of one id pass.
module _ (p : DurableJob → Bool) (id : ℕ) (only : (j : DurableJob) → p j ≡ true → j.id ≡ id) where
  absent_quiet : (t : List DurableJob) → find id t ≡ none → Every (λ j. p j ≡ false) t
  absent_quiet [] h = tt
  absent_quiet (j ∷ t) h = (ground (arith, only j), absent_quiet t (ground arith))

  pub refused_quiet :
      (t : List DurableJob)
      → IsUnique t
      → ((j : DurableJob) → find id t ≡ some j → p j ≡ false)
      → Every (λ j. p j ≡ false) t
  refused_quiet [] u h = tt
  refused_quiet (j ∷ t) u h = elim (Bool-cases (j.id == id)) [
    | inl e ↦ (h j (rw e), absent_quiet t (ground arith))
    | inr e ↦ (ground (arith, only j), refused_quiet t u.1 (λ k q. h k (rw e q)))
  ]

  pub select-single :
      (t : List DurableJob) (j : DurableJob)
      → IsUnique t
      → find id t ≡ some j
      → p j ≡ true
      → select p t ≡ j ∷ []
  select-single [] j u h e = cc
  select-single (k ∷ t) j u h e = elim (Bool-cases (k.id == id)) [
    | inl same ↦ ground (arith, select-quiet p t (absent_quiet t (ground arith)))
    | inr other ↦ ground (arith, only k, select-single t j u.1)
  ]
