-- ===== src/Mastering/Highest.antt =====
-- The loop of _resolve over the rows keeps the candidate with the highest score.
use recordlane.Base.{
  ℕ, String, ◌≡◌, refl, sym, ap, ◌∙◌, subst, inl, inr, true, false, Option, none, some, List, [],
  ◌∷◌, arith, ◌==◌, ==_iff, Bool-cases, Option-cases, In, some-eq, contains,
}
use recordlane.Policy.{Library, Floats, CompiledPolicy}
use recordlane.Mastering.{SourceObject, SourceRecord, CandidateBlock, Entity, CannotLink}
use recordlane.Mastering.Candidates.{candidate_rows-IsUnique}
use recordlane.Mastering.Linking.{linked-best, created-none, best_candidate-origin}
use recordlane.Mastering.Resolve.{
  CandidateRow, candidate_rows, Best, linked, created, resolved, eligible, keep_best,
  best_candidate, resolve,
}

-- Scores are compared as numbers that are not NaN.
pub record ScoreOrder (fl : Floats) : Type 0 where
  pub le_refl : (a : fl.Float) → fl.le a a ≡ true
  pub le_trans : (a b c : fl.Float) → fl.le a b ≡ true → fl.le b c ≡ true → fl.le a c ≡ true
  pub le_total : (a b : fl.Float) → fl.le a b ≡ false → fl.le b a ≡ true

module _ (lib : Library) (fl : Floats) (order : ScoreOrder fl) (policy : CompiledPolicy fl.Float)
    (cannot : List CannotLink) (objects : List SourceObject) (records : List SourceRecord)
    (observed : SourceRecord) (source_object : SourceObject) where
  abbrev offer : CandidateRow → Option (Best fl.Float)
  offer = eligible lib fl policy cannot objects records observed source_object

  abbrev better : Option (Best fl.Float) → Option (Best fl.Float) → Option (Best fl.Float)
  better = keep_best lib fl policy cannot objects records observed source_object

  abbrev run : Option (Best fl.Float) → List ℕ → List CandidateRow → Option (Best fl.Float)
  run = best_candidate lib fl policy cannot objects records observed source_object

  -- The result has at least the score of `d`.
  abbrev Reaches : Option (Best fl.Float) → Best fl.Float → Type 0
  Reaches result d =
      (b : Best fl.Float) × (result ≡ some b) × (fl.le d.pair.score b.pair.score ≡ true)

  Reaches-trans :
      (result : Option (Best fl.Float)) (a b : Best fl.Float)
      → fl.le a.pair.score b.pair.score ≡ true
      → Reaches result b
      → Reaches result a
  Reaches-trans result a b e (c, f, g) =
      (c, f, order.le_trans a.pair.score b.pair.score c.pair.score e g)

  better-old : (a : Best fl.Float) (y : Option (Best fl.Float)) → Reaches (better (some a) y) a
  unfolding keep_best
  better-old a none = (a, refl, order.le_refl a.pair.score)
  better-old a (some b) = elim (Bool-cases (fl.le b.pair.score a.pair.score)) [
    | inl e ↦ (a, rw e refl, order.le_refl a.pair.score)
    | inr e ↦ (b, rw e refl, order.le_total b.pair.score a.pair.score e)
  ]

  better-new : (x : Option (Best fl.Float)) (d : Best fl.Float) → Reaches (better x (some d)) d
  unfolding keep_best
  better-new none d = (d, refl, order.le_refl d.pair.score)
  better-new (some a) d = elim (Bool-cases (fl.le d.pair.score a.pair.score)) [
    | inl e ↦ (a, rw e refl, e)
    | inr e ↦ (d, rw e refl, order.le_refl d.pair.score)
  ]

  run-skip :
      (best : Option (Best fl.Float)) (seen : List ℕ) (c : SourceRecord) (o : SourceObject)
      (rest : List CandidateRow)
      → contains o.id seen ≡ true
      → run best seen ((c, o) ∷ rest) ≡ run best seen rest
  unfolding best_candidate
  run-skip best seen c o rest q = rw (q, best_candidate) refl

  run-take :
      (best : Option (Best fl.Float)) (seen : List ℕ) (c : SourceRecord) (o : SourceObject)
      (rest : List CandidateRow)
      → contains o.id seen ≡ false
      → run best seen ((c, o) ∷ rest) ≡ run (better best (offer (c, o))) (o.id ∷ seen) rest
  unfolding best_candidate
  run-take best seen c o rest q = rw (q, best_candidate) refl

  -- The score of the best candidate never falls.
  run-old :
      (a : Best fl.Float) (seen : List ℕ) (rows : List CandidateRow)
      → Reaches (run (some a) seen rows) a
  unfolding best_candidate
  run-old a seen [] = (a, refl, order.le_refl a.pair.score)
  run-old a seen ((c, o) ∷ rest) = elim (Bool-cases (contains o.id seen)) [
    | inl q ↦
        subst (λ r. Reaches r a) (sym (run-skip (some a) seen c o rest q)) (run-old a seen rest)
    | inr q ↦
        let (b, kept, le) = better-old a (offer (c, o)) in
        let reached =
          Reaches-trans (run (some b) (o.id ∷ seen) rest) a b le (run-old b (o.id ∷ seen) rest) in
        let same : run (some a) seen ((c, o) ∷ rest) ≡ run (some b) (o.id ∷ seen) rest =
          run-take (some a) seen c o rest q ∙ ap (λ x. run x (o.id ∷ seen) rest) kept in
        subst (λ r. Reaches r a) (sym same) reached
  ]

  -- A row that is reached first for its object counts.
  run-here :
      (best : Option (Best fl.Float)) (seen : List ℕ) (c : SourceRecord) (o : SourceObject)
      (rest : List CandidateRow) (d : Best fl.Float)
      → contains o.id seen ≡ false
      → offer (c, o) ≡ some d
      → Reaches (run best seen ((c, o) ∷ rest)) d
  run-here best seen c o rest d q e =
      let (b, kept, le) = better-new best d in
      let reached =
        Reaches-trans (run (some b) (o.id ∷ seen) rest) d b le (run-old b (o.id ∷ seen) rest) in
      let same : run best seen ((c, o) ∷ rest) ≡ run (some b) (o.id ∷ seen) rest =
        run-take best seen c o rest q
        ∙ ap (λ x. run (better best x) (o.id ∷ seen) rest) e
        ∙ ap (λ x. run x (o.id ∷ seen) rest) kept in
      subst (λ r. Reaches r d) (sym same) reached

  -- Where a row is told by its object, every eligible row of an object not seen before counts.
  run-Reaches :
      (best : Option (Best fl.Float)) (seen : List ℕ) (rows : List CandidateRow)
      (row : CandidateRow) (d : Best fl.Float)
      → ((x y : CandidateRow) → In x rows → In y rows → x.1.id ≡ y.1.id → x ≡ y)
      → In row rows
      → contains row.1.id seen ≡ false
      → offer row ≡ some d
      → Reaches (run best seen rows) d
  run-Reaches best seen [] row d unique m fresh e = absurd m
  run-Reaches best seen ((c, o) ∷ rest) row d unique (inl here) fresh e =
      run-here best seen c o rest d (ap (λ r. contains r.1.id seen) (sym here) ∙ fresh)
        (ap offer (sym here) ∙ e)
  run-Reaches best seen ((c, o) ∷ rest) row d unique (inr m) fresh e =
      let unique' : (x y : CandidateRow) → In x rest → In y rest → x.1.id ≡ y.1.id → x ≡ y =
        λ x y mx my. unique x y (inr mx) (inr my) in
      elim (Bool-cases (contains o.id seen)) [
        | inl q ↦
            subst (λ r. Reaches r d) (sym (run-skip best seen c o rest q))
              (run-Reaches best seen rest row d unique' m fresh e)
        | inr q ↦ elim (Bool-cases (o.id == row.1.id)) [
          | inl t ↦
              let same = unique (c, o) row (inl refl) (inr m) ((==_iff o.id row.1.id).0 t) in
              run-here best seen c o rest d q (ap offer same ∙ e)
          | inr t ↦
              let next = better best (offer (c, o)) in
              let fresh' : contains row.1.id (o.id ∷ seen) ≡ false = ground arith in
              subst (λ r. Reaches r d) (sym (run-take best seen c o rest q))
                (run-Reaches next (o.id ∷ seen) rest row d unique' m fresh' e)
        ]
      ]

abbrev pub IdsAreUnique : List SourceObject → List SourceRecord → Type 0
IdsAreUnique objects records =
    ((o p : SourceObject) → In o objects → In p objects → o.id ≡ p.id → o ≡ p)
    × ((r s : SourceRecord) → In r records → In s records → r.id ≡ s.id → r ≡ s)

-- An observation that is linked joins the entity of an eligible row whose score no other eligible
-- row's is above, where identifiers are unique in the tables and scores are ordered.
pub linked_is_highest :
    (lib : Library) (fl : Floats) (policy : CompiledPolicy fl.Float) (cannot : List CannotLink)
    (objects : List SourceObject) (records : List SourceRecord) (observed : SourceRecord)
    (source_object : SourceObject) (new_id : ℕ) (stable_key : String) (keys : List String)
    (blocks : List CandidateBlock) (entities : List Entity) (id : ℕ) (entities' : List Entity)
    → ScoreOrder fl
    → IdsAreUnique objects records
    → resolve lib fl policy cannot objects records observed source_object new_id stable_key keys
        blocks entities
      ≡ resolved id linked entities'
    → let rows = candidate_rows keys blocks objects records observed in
      let offer = eligible lib fl policy cannot objects records observed source_object in
      (row : CandidateRow) × (b : Best fl.Float) × In row rows
      × (offer row ≡ some b)
      × (b.entity_id ≡ id)
      × ((other : CandidateRow) (d : Best fl.Float)
          → In other rows
          → offer other ≡ some d
          → fl.le d.pair.score b.pair.score ≡ true)
linked_is_highest lib fl policy cannot objects records observed source_object new_id stable_key keys
      blocks entities id entities' order (by_object, by_record) e =
    let rows = candidate_rows keys blocks objects records observed in
    let (b, is_best, of_entity, _, _) =
      linked-best lib fl policy cannot objects records observed source_object new_id stable_key keys
        blocks entities id entities' e in
    elim (best_candidate-origin lib fl policy cannot objects records observed source_object none []
      rows b is_best) [
        | inl absent ↦ ground arith
        | inr (row, m, offered) ↦ (
          row,
          b,
          m,
          offered,
          of_entity,
          λ other d m' offered'.
              let (b', is_b', le) =
                run-Reaches lib fl order policy cannot objects records observed source_object none
                  [] rows other d
                  (λ x y mx my.
                    candidate_rows-IsUnique keys blocks objects records observed x y by_object
                      by_record mx my)
                  m' refl offered' in
              let same : b' ≡ b = some-eq (sym is_b' ∙ is_best) in
              subst (λ x. fl.le d.pair.score x.pair.score ≡ true) same le,
        )
      ]

-- An observation gets a new entity without a review only if no row of the query is eligible.
pub created_has_no_candidate :
    (lib : Library) (fl : Floats) (policy : CompiledPolicy fl.Float) (cannot : List CannotLink)
    (objects : List SourceObject) (records : List SourceRecord) (observed : SourceRecord)
    (source_object : SourceObject) (new_id : ℕ) (stable_key : String) (keys : List String)
    (blocks : List CandidateBlock) (entities : List Entity) (id : ℕ) (entities' : List Entity)
    (row : CandidateRow)
    → ScoreOrder fl
    → IdsAreUnique objects records
    → resolve lib fl policy cannot objects records observed source_object new_id stable_key keys
        blocks entities
      ≡ resolved id created entities'
    → In row (candidate_rows keys blocks objects records observed)
    → eligible lib fl policy cannot objects records observed source_object row ≡ none
created_has_no_candidate lib fl policy cannot objects records observed source_object new_id
      stable_key keys blocks entities id entities' row order (by_object, by_record) e m =
    let rows = candidate_rows keys blocks objects records observed in
    let absent : best_candidate lib fl policy cannot objects records observed source_object none []
          rows
        ≡ none =
      created-none lib fl policy cannot objects records observed source_object new_id stable_key
        keys blocks entities id entities' e in
    elim (Option-cases (eligible lib fl policy cannot objects records observed source_object row)) [
      | inl q ↦ q
      | inr (d, q) ↦
          let (b, is_b, le) =
            run-Reaches lib fl order policy cannot objects records observed source_object none []
              rows row d
              (λ x y mx my.
                candidate_rows-IsUnique keys blocks objects records observed x y by_object by_record
                  mx my)
              m refl q in
          ground (arith, is_b, absent)
    ]
