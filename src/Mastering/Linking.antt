-- ===== src/Mastering/Linking.antt =====
-- What _resolve links: a candidate of the join that nothing speaks against, and the best of those.
use recordlane.Base.{
  ℕ, String, ◌≡◌, ◌⊎◌, refl, sym, ap, ◌∙◌, subst, inl, inr, true, false, Option, none, some, List,
  [], ◌∷◌, arith, ltb, length, Bool-cases, In, contains,
}
use recordlane.Policy.{Library, Floats, CompiledPolicy}
use recordlane.Policy.Compare.{Decision, auto_link, Contradiction}
use recordlane.Mastering.{SourceObject, SourceRecord, CandidateBlock, Entity, CannotLink}
use recordlane.Mastering.Objects.{current_records, is_cannot_link}
use recordlane.Mastering.Candidates.{IsCandidateRow, candidate_rows-In}
use recordlane.Mastering.Resolve.{
  CandidateRow, candidate_rows, proposes, is_auto_link, contradicted, Best, linked, created,
  resolved, bump, compare_records, cluster_conflict, eligible, keep_best, best_candidate, create,
  conclude, resolve,
}

pub contradicted-none : (cs : List Contradiction) → contradicted cs ≡ false → cs ≡ []
contradicted-none [] e = refl
contradicted-none (c ∷ cs) e = ground arith

module _ (lib : Library) (fl : Floats) (policy : CompiledPolicy fl.Float) where
  -- Without a conflict, no member contradicts the observation.
  cluster_conflict_lem :
      (observed : SourceRecord) (members : List SourceRecord) (m : SourceRecord)
      → cluster_conflict lib fl policy observed members ≡ false
      → In m members
      → (compare_records lib fl policy observed m).contradictions ≡ []
  unfolding cluster_conflict
  cluster_conflict_lem observed [] m e member = absurd member
  cluster_conflict_lem observed (n ∷ rest) m e (inl here) =
      let clear : contradicted (compare_records lib fl policy observed n).contradictions ≡ false =
        ground arith in
      subst (λ x. (compare_records lib fl policy observed x).contradictions ≡ []) (sym here)
        (contradicted-none (compare_records lib fl policy observed n).contradictions clear)
  cluster_conflict_lem observed (n ∷ rest) m e (inr there) =
      cluster_conflict_lem observed rest m (ground arith) there

  module _ (cannot : List CannotLink) (objects : List SourceObject) (records : List SourceRecord)
      (observed : SourceRecord) (source_object : SourceObject) where
    -- What makes a candidate eligible.
    abbrev pub IsEligible : Best fl.Float → CandidateRow → Type 0
    IsEligible b (c, o) =
        (b.candidate ≡ c)
        × (b.candidate_object ≡ o)
        × (o.entity_id ≡ some b.entity_id)
        × (is_cannot_link cannot source_object.id o.id ≡ false)
        × (b.pair ≡ compare_records lib fl policy observed c)
        × (proposes b.pair.decision ≡ true)
        × (cluster_conflict lib fl policy observed
              (current_records records objects (some b.entity_id))
            ≡ false)

    pub eligible-IsEligible :
        (c : SourceRecord) (o : SourceObject) (b : Best fl.Float)
        → eligible lib fl policy cannot objects records observed source_object (c, o) ≡ some b
        → IsEligible b (c, o)
    unfolding eligible
    eligible-IsEligible c o b e = ground arith

    keep_best-origin :
        (x y : Option (Best fl.Float)) (b : Best fl.Float)
        → keep_best lib fl policy cannot objects records observed source_object x y ≡ some b
        → (x ≡ some b) ⊎ (y ≡ some b)
    unfolding keep_best
    keep_best-origin x none b e = inl e
    keep_best-origin none (some y) b e = inr e
    keep_best-origin (some x) (some y) b e = ground arith

    abbrev IsFrom : Option (Best fl.Float) → List CandidateRow → Best fl.Float → Type 0
    IsFrom best rows b =
        (best ≡ some b)
        ⊎ ((row : CandidateRow) × In row rows
            × (eligible lib fl policy cannot objects records observed source_object row ≡ some b))

    shift :
        (c : SourceRecord) (o : SourceObject) (rest : List CandidateRow) (b : Best fl.Float)
        (best : Option (Best fl.Float))
        → IsFrom best rest b
        → IsFrom best ((c, o) ∷ rest) b
    shift c o rest b best (inl e) = inl e
    shift c o rest b best (inr (row, m, f)) = inr (row, inr m, f)

    -- The best candidate was the best before, or is eligible by a row.
    pub best_candidate-origin :
        (best : Option (Best fl.Float)) (seen : List ℕ) (rows : List CandidateRow)
        (b : Best fl.Float)
        → best_candidate lib fl policy cannot objects records observed source_object best seen rows
          ≡ some b
        → IsFrom best rows b
    unfolding best_candidate keep_best
    best_candidate-origin best seen [] b e = inl e
    best_candidate-origin best seen ((c, o) ∷ rest) b e = elim (Bool-cases (contains o.id seen)) [
      | inl q ↦
          let skips : best_candidate lib fl policy cannot objects records observed source_object
                best seen ((c, o) ∷ rest)
              ≡ best_candidate lib fl policy cannot objects records observed source_object best seen
                  rest =
            rw (q, best_candidate) refl in
          shift c o rest b best (best_candidate-origin best seen rest b (sym skips ∙ e))
      | inr q ↦
          let offer = eligible lib fl policy cannot objects records observed source_object (c, o) in
          let next =
            keep_best lib fl policy cannot objects records observed source_object best offer in
          let takes : best_candidate lib fl policy cannot objects records observed source_object
                best seen ((c, o) ∷ rest)
              ≡ best_candidate lib fl policy cannot objects records observed source_object next
                  (o.id ∷ seen) rest =
            rw (q, best_candidate) refl in
          elim (best_candidate-origin next (o.id ∷ seen) rest b (sym takes ∙ e)) [
            | inl kept ↦ elim (keep_best-origin best offer b kept) [
              | inl before ↦ inl before
              | inr here ↦ inr ((c, o), inl refl, here)
            ]
            | inr (row, m, f) ↦ inr (row, inr m, f)
          ]
    ]

module _ (lib : Library) (fl : Floats) (policy : CompiledPolicy fl.Float) (cannot : List CannotLink)
    (objects : List SourceObject) (records : List SourceRecord) (observed : SourceRecord)
    (source_object : SourceObject) (new_id : ℕ) (stable_key : String) where
  conclude-linked :
      (best : Option (Best fl.Float)) (entities : List Entity) (id : ℕ) (entities' : List Entity)
      → conclude lib fl policy cannot objects records observed source_object new_id stable_key best
          entities
        ≡ resolved id linked entities'
      → (b : Best fl.Float) × (best ≡ some b)
        × (b.entity_id ≡ id)
        × (is_auto_link b.pair.decision ≡ true)
        × (entities' ≡ bump id entities)
  unfolding conclude create
  conclude-linked none entities id entities' e = ground arith
  conclude-linked (some b) entities id entities' e =
      let (of_entity, auto, rest) : (b.entity_id ≡ id)
          × (is_auto_link b.pair.decision ≡ true)
          × (entities' ≡ bump id entities) =
        ground arith in
      (b, refl, of_entity, auto, rest)

  -- A linked observation had a best candidate, which says so.
  pub linked-best :
      (keys : List String) (blocks : List CandidateBlock) (entities : List Entity) (id : ℕ)
      (entities' : List Entity)
      → resolve lib fl policy cannot objects records observed source_object new_id stable_key keys
          blocks entities
        ≡ resolved id linked entities'
      → (b : Best fl.Float) × (best_candidate lib fl policy cannot objects records observed
            source_object none []
            (candidate_rows keys blocks objects records observed)
          ≡ some b)
        × (b.entity_id ≡ id)
        × (is_auto_link b.pair.decision ≡ true)
        × (entities' ≡ bump id entities)
  unfolding resolve
  linked-best keys blocks entities id entities' e =
      let rows = candidate_rows keys blocks objects records observed in
      conclude-linked
        (best_candidate lib fl policy cannot objects records observed source_object none [] rows)
        entities id entities'
        (elim (Bool-cases (ltb 200 (length rows))) [ inl q ↦ ground arith | inr q ↦ ground arith ])

  conclude-created :
      (best : Option (Best fl.Float)) (entities : List Entity) (id : ℕ) (entities' : List Entity)
      → conclude lib fl policy cannot objects records observed source_object new_id stable_key best
          entities
        ≡ resolved id created entities'
      → best ≡ none
  unfolding conclude create
  conclude-created none entities id entities' e = refl
  conclude-created (some b) entities id entities' e = ground arith

  -- An observation with a new entity and no review had no candidate.
  pub created-none :
      (keys : List String) (blocks : List CandidateBlock) (entities : List Entity) (id : ℕ)
      (entities' : List Entity)
      → resolve lib fl policy cannot objects records observed source_object new_id stable_key keys
          blocks entities
        ≡ resolved id created entities'
      → best_candidate lib fl policy cannot objects records observed source_object none []
          (candidate_rows keys blocks objects records observed)
        ≡ none
  unfolding resolve
  created-none keys blocks entities id entities' e =
      let rows = candidate_rows keys blocks objects records observed in
      conclude-created
        (best_candidate lib fl policy cannot objects records observed source_object none [] rows)
        entities id entities'
        (elim (Bool-cases (ltb 200 (length rows))) [ inl q ↦ ground arith | inr q ↦ ground arith ])

is_auto_link_iff : (d : Decision) → is_auto_link d ≡ true → d ≡ auto_link
is_auto_link_iff d e = ground arith

-- An observation is linked to an entity only through a row of the query whose object is of that
-- entity and whose comparison says so, never against a decision to keep the two objects apart, and
-- never where a current record of the entity has a contradicting identifier. The entity's version
-- is one more, and nothing else changes.
pub linked_is_safe :
    (lib : Library) (fl : Floats) (policy : CompiledPolicy fl.Float) (cannot : List CannotLink)
    (objects : List SourceObject) (records : List SourceRecord) (observed : SourceRecord)
    (source_object : SourceObject) (new_id : ℕ) (stable_key : String) (keys : List String)
    (blocks : List CandidateBlock) (entities : List Entity) (id : ℕ) (entities' : List Entity)
    → resolve lib fl policy cannot objects records observed source_object new_id stable_key keys
        blocks entities
      ≡ resolved id linked entities'
    → ((c : SourceRecord) × (o : SourceObject) × IsCandidateRow keys blocks objects records observed
          (c, o)
        × (o.entity_id ≡ some id)
        × (is_cannot_link cannot source_object.id o.id ≡ false)
        × ((compare_records lib fl policy observed c).decision ≡ auto_link))
      × ((m : SourceRecord)
          → In m (current_records records objects (some id))
          → (compare_records lib fl policy observed m).contradictions ≡ [])
      × (entities' ≡ bump id entities)
linked_is_safe lib fl policy cannot objects records observed source_object new_id stable_key keys
      blocks entities id entities' e =
    let rows = candidate_rows keys blocks objects records observed in
    let (b, is_best, of_entity, auto, entities_eq) =
      linked-best lib fl policy cannot objects records observed source_object new_id stable_key keys
        blocks entities id entities' e in
    elim (best_candidate-origin lib fl policy cannot objects records observed source_object none []
      rows b is_best) [
        | inl absent ↦ ground arith
        | inr ((c, o), m, offered) ↦
            let (is_c, is_o, joins, may, pair, proposed, clear) =
              eligible-IsEligible lib fl policy cannot objects records observed source_object c o b
                offered in
            let clear' =
              subst
                (λ i.
                  cluster_conflict lib fl policy observed (current_records records objects (some i))
                  ≡ false)
                of_entity clear in
            (
              (
                c,
                o,
                candidate_rows-In keys blocks objects records observed (c, o) m,
                joins ∙ ap some of_entity,
                may,
                ap (λ p. p.decision) (sym pair) ∙ is_auto_link_iff b.pair.decision auto,
              ),
              λ n member.
                  cluster_conflict_lem lib fl policy observed
                    (current_records records objects (some id)) n clear' member,
              entities_eq,
            )
      ]
