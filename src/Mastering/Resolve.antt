-- ===== src/Mastering/Resolve.antt =====
-- _resolve of mastering/service.py: the entity that a new observation belongs to.
use recordlane.Base.{
  ℕ, ◌+◌, String, Bool, true, false, not, ◌&&◌, ◌||◌, Option, none, some, List, [], ◌∷◌, ◌++◌, ltb,
  ◌==◌, if◌then◌else◌, str_eq, length, take, any, has_text, contains,
}
use recordlane.Policy.{Library, Floats, CompiledPolicy}
use recordlane.Policy.Compare.{Decision, auto_link, review, Match, compare, Contradiction}
use recordlane.Mastering.{SourceObject, SourceRecord, CandidateBlock, Entity, candidate, CannotLink}
use recordlane.Mastering.Objects.{current_records, is_cannot_link, is_valid}

abbrev pub CandidateRow : Type 0
CandidateRow = SourceRecord × SourceObject

-- The join's condition on the object: the record is its current one, and it has an entity.
abbrev pub offers : SourceRecord → SourceObject → Bool
offers r o =
    elim o.current_record_id [ none ↦ false | some id ↦ id == r.id ]
    && elim o.entity_id [ none ↦ false | some _ ↦ true ]
    && not o.retired

-- The join's condition on the record.
abbrev pub is_candidate : SourceRecord → SourceRecord → Bool
is_candidate observed r =
    str_eq r.domain_key observed.domain_key && not (r.id == observed.id) && is_valid r.state

-- One row of the join for each block that the record has under one of the keys.
unfoldable pub block_rows :
    List String → SourceRecord → SourceObject → List CandidateBlock → List CandidateRow
block_rows block_keys r o [] = []
block_rows block_keys r o (b ∷ rest) =
    let more = block_rows block_keys r o rest in
    if b.record_id == r.id && has_text b.block_key block_keys then (r, o) ∷ more else more

unfoldable pub object_rows :
    List String → List CandidateBlock → SourceRecord → List SourceObject → List CandidateRow
unfolding block_rows
object_rows block_keys blocks r [] = []
object_rows block_keys blocks r (o ∷ rest) =
    let more = object_rows block_keys blocks r rest in
    if offers r o then block_rows block_keys r o blocks ++ more else more

unfoldable pub record_rows :
    List String
    → List CandidateBlock
    → List SourceObject
    → SourceRecord
    → List SourceRecord
    → List CandidateRow
unfolding object_rows
record_rows block_keys blocks objects observed [] = []
record_rows block_keys blocks objects observed (r ∷ rest) =
    let more = record_rows block_keys blocks objects observed rest in
    if is_candidate observed r then object_rows block_keys blocks r objects ++ more else more

-- The query's rows, `limit(201)`; none for a record without block keys.
unfoldable pub candidate_rows :
    List String
    → List CandidateBlock
    → List SourceObject
    → List SourceRecord
    → SourceRecord
    → List CandidateRow
unfolding record_rows
candidate_rows [] blocks objects records observed = []
candidate_rows (k ∷ ks) blocks objects records observed =
    take 201 (record_rows (k ∷ ks) blocks objects observed records)

-- `pair.decision in {"auto_link", "review"}`
abbrev pub proposes : Decision → Bool
proposes auto_link = true
proposes review = true
proposes _ = false

abbrev pub is_auto_link : Decision → Bool
is_auto_link auto_link = true
is_auto_link _ = false

abbrev pub contradicted : List Contradiction → Bool
contradicted [] = false
contradicted (_ ∷ _) = true

-- The best candidate so far, with its entity.
pub record Best (F : Type 0) : Type 0 where
  pub candidate : SourceRecord
  pub candidate_object : SourceObject
  pub entity_id : ℕ
  pub pair : Match F

-- The review task of a possible duplicate.
pub record MatchTask (F : Type 0) : Type 0 where
  pub entity_id : ℕ
  pub left_record_id : ℕ
  pub right_record_id : ℕ
  pub left_source_object_id : ℕ
  pub right_source_object_id : ℕ
  pub target_entity_id : ℕ
  pub bound_target_entity_version : ℕ
  pub pair : Match F
  pub bound_entity_version : ℕ

-- How the observation was resolved; the task of a review.
pub data Resolution (F : Type 0) : Type 0 where
  linked created : Resolution F
  in_review : MatchTask F → Resolution F

-- The error of too many candidates, the exception for an entity that is not there, or the entity,
-- the resolution and all entities.
pub data Outcome (F : Type 0) : Type 0 where
  candidate_block_overflow missing_entity : Outcome F
  resolved : ℕ → Resolution F → List Entity → Outcome F

abbrev pub find_entity : ℕ → List Entity → Option Entity
find_entity id [] = none
find_entity id (e ∷ rest) = if e.id == id then some e else find_entity id rest

-- `entity.version += 1`
abbrev pub bump : ℕ → List Entity → List Entity
bump id [] = []
bump id (e ∷ rest) = (if e.id == id then record e { version = e.version + 1 } else e) ∷ bump id rest

module _ (lib : Library) (fl : Floats) where
  open fl use {Float, le}

  abbrev pub compare_records : CompiledPolicy Float → SourceRecord → SourceRecord → Match Float
  compare_records policy a b =
      compare lib fl policy.identifiers policy.matching a.normalized b.normalized

  -- `cluster_conflict`: a current record of the entity contradicts the observation.
  unfoldable pub cluster_conflict : CompiledPolicy Float → SourceRecord → List SourceRecord → Bool
  cluster_conflict policy observed members =
      any (λ m. contradicted (compare_records policy observed m).contradictions) members

  module _ (policy : CompiledPolicy Float) (cannot : List CannotLink) (objects : List SourceObject)
      (records : List SourceRecord) (observed : SourceRecord) (source_object : SourceObject) where
    -- What a row offers to the loop, if the observation may join the entity of its object.
    unfoldable pub eligible : CandidateRow → Option (Best Float)
    unfolding cluster_conflict
    eligible (c, o) =
        let pair = compare_records policy observed c in
        if is_cannot_link cannot source_object.id o.id || not (proposes pair.decision)
        then none
        else elim o.entity_id [
          | none ↦ none
          | some e ↦
              if cluster_conflict policy observed (current_records records objects (some e))
              then none
              else some (record { candidate = c; candidate_object = o; entity_id = e; pair = pair })
        ]

    -- `best is None or pair.score > best[0]`
    unfoldable pub keep_best : Option (Best Float) → Option (Best Float) → Option (Best Float)
    keep_best best none = best
    keep_best none (some b) = some b
    keep_best (some a) (some b) = if le b.pair.score a.pair.score then some a else some b

    -- The loop over the rows: each object once.
    unfoldable pub best_candidate :
        Option (Best Float) → List ℕ → List CandidateRow → Option (Best Float)
    unfolding eligible keep_best
    best_candidate best seen [] = best
    best_candidate best seen ((c, o) ∷ rest) =
        let skipped = best_candidate best seen rest in
        let next = best_candidate (keep_best best (eligible (c, o))) (o.id ∷ seen) rest in
        if contains o.id seen then skipped else next

    -- The entity that is made for an observation that joins none, the task if there was a candidate.
    unfoldable pub create : ℕ → String → Option (Best Float) → List Entity → Outcome Float
    create new_id stable_key best entities =
        let entity : Entity = record {
          id = new_id;
          domain_key = observed.domain_key;
          stable_key = stable_key;
          status = candidate;
          version = 1;
        } in
        elim best [
          | none ↦ resolved new_id created (entities ++ entity ∷ [])
          | some b ↦ elim (find_entity b.entity_id entities) [
            | none ↦ missing_entity
            | some target ↦
                resolved new_id
                  (in_review (record {
                    entity_id = new_id;
                    left_record_id = observed.id;
                    right_record_id = b.candidate.id;
                    left_source_object_id = source_object.id;
                    right_source_object_id = b.candidate_object.id;
                    target_entity_id = b.entity_id;
                    bound_target_entity_version = target.version;
                    pair = b.pair;
                    bound_entity_version = 1;
                  }))
                  (entities ++ entity ∷ [])
          ]
        ]

    -- What follows the loop.
    unfoldable pub conclude : ℕ → String → Option (Best Float) → List Entity → Outcome Float
    unfolding create
    conclude new_id stable_key none entities = create new_id stable_key none entities
    conclude new_id stable_key (some b) entities = elim (find_entity b.entity_id entities) [
      | none ↦ create new_id stable_key (some b) entities
      | some _ ↦
          if is_auto_link b.pair.decision
          then resolved b.entity_id linked (bump b.entity_id entities)
          else create new_id stable_key (some b) entities
    ]

    -- `stable_key` is that of an entity made for the record.
    unfoldable pub resolve :
        ℕ → String → List String → List CandidateBlock → List Entity → Outcome Float
    unfolding candidate_rows best_candidate conclude
    resolve new_id stable_key block_keys blocks entities =
        let rows = candidate_rows block_keys blocks objects records observed in
        if ltb 200 (length rows)
        then candidate_block_overflow
        else conclude new_id stable_key (best_candidate none [] rows) entities
