-- ===== src/Mastering/Candidates.antt =====
-- The rows of _resolve's query: what the join asks of a record, its object and its block.
use recordlane.Base.{
  String, ◌≡◌, refl, sym, ap, ◌∙◌, subst, inl, inr, true, ◌&&◌, List, [], ◌∷◌, ◌++◌, arith, ◌==◌,
  ==_iff, Bool-cases, In, has_text, In-take, In-append,
}
use recordlane.Mastering.{SourceObject, SourceRecord, CandidateBlock}
use recordlane.Mastering.Resolve.{
  CandidateRow, offers, is_candidate, block_rows, object_rows, record_rows, candidate_rows,
}

-- The record has a block under one of the keys.
abbrev pub HasBlock : List String → List CandidateBlock → SourceRecord → Type 0
HasBlock keys blocks r =
    (b : CandidateBlock) × In b blocks × (b.record_id ≡ r.id) × (has_text b.block_key keys ≡ true)

HasBlock-more :
    (keys : List String) (b : CandidateBlock) (rest : List CandidateBlock) (r : SourceRecord)
    → HasBlock keys rest r
    → HasBlock keys (b ∷ rest) r
HasBlock-more keys b rest r (c, m, of_r, found) = (c, inr m, of_r, found)

block_rows-In :
    (keys : List String) (r : SourceRecord) (o : SourceObject) (blocks : List CandidateBlock)
    (row : CandidateRow)
    → In row (block_rows keys r o blocks)
    → (row ≡ (r, o)) × HasBlock keys blocks r
unfolding block_rows
block_rows-In keys r o [] row m = absurd m
block_rows-In keys r o (b ∷ rest) row m =
    elim (Bool-cases (b.record_id == r.id && has_text b.block_key keys)) [
      | inr e ↦
          let (same, has) = block_rows-In keys r o rest row (rw e at m) in
          (same, HasBlock-more keys b rest r has)
      | inl e ↦
          let m' : In row ((r, o) ∷ block_rows keys r o rest) = rw e at m in
          let mine : HasBlock keys (b ∷ rest) r =
            (b, inl refl, ground (arith, ==_iff b.record_id r.id), ground arith) in
          elim m' [
            | inl here ↦ (here, mine)
            | inr there ↦ ((block_rows-In keys r o rest row there).0, mine)
          ]
    ]

object_rows-In :
    (keys : List String) (blocks : List CandidateBlock) (r : SourceRecord)
    (objects : List SourceObject) (row : CandidateRow)
    → In row (object_rows keys blocks r objects)
    → (row.0 ≡ r) × In row.1 objects × (offers r row.1 ≡ true) × HasBlock keys blocks r
unfolding object_rows
object_rows-In keys blocks r [] row m = absurd m
object_rows-In keys blocks r (o ∷ rest) row m = elim (Bool-cases (offers r o)) [
  | inr e ↦
      let (same, found, fits, has) = object_rows-In keys blocks r rest row (rw e at m) in
      (same, inr found, fits, has)
  | inl e ↦
      let m' : In row (block_rows keys r o blocks ++ object_rows keys blocks r rest) = rw e at m in
      elim (In-append row (block_rows keys r o blocks) (object_rows keys blocks r rest) m') [
        | inl here ↦
            let (same, has) = block_rows-In keys r o blocks row here in
            let its : row.1 ≡ o = ap (λ x. x.1) same in
            (ap (λ x. x.0) same, inl its, ap (offers r) its ∙ e, has)
        | inr there ↦
            let (same, found, fits, has) = object_rows-In keys blocks r rest row there in
            (same, inr found, fits, has)
      ]
]

-- What every row of the query is: a record of the table that may match the observation, with a block
-- under one of its keys, and an object that it is the current record of.
abbrev pub IsCandidateRow :
    List String
    → List CandidateBlock
    → List SourceObject
    → List SourceRecord
    → SourceRecord
    → CandidateRow
    → Type 0
IsCandidateRow keys blocks objects records observed (r, o) =
    In r records
    × In o objects
    × (offers r o ≡ true)
    × (is_candidate observed r ≡ true)
    × HasBlock keys blocks r

record_rows-In :
    (keys : List String) (blocks : List CandidateBlock) (objects : List SourceObject)
    (observed : SourceRecord) (records : List SourceRecord) (row : CandidateRow)
    → In row (record_rows keys blocks objects observed records)
    → IsCandidateRow keys blocks objects records observed row
unfolding record_rows
record_rows-In keys blocks objects observed [] row m = absurd m
record_rows-In keys blocks objects observed (r ∷ rest) row m =
    elim (Bool-cases (is_candidate observed r)) [
      | inr e ↦
          let (found, of_objects, fits, may, has) =
            record_rows-In keys blocks objects observed rest row (rw e at m) in
          (inr found, of_objects, fits, may, has)
      | inl e ↦
          let here_rows = object_rows keys blocks r objects in
          let there_rows = record_rows keys blocks objects observed rest in
          let m' : In row (here_rows ++ there_rows) = rw e at m in
          elim (In-append row here_rows there_rows m') [
            | inl here ↦
                let (same, of_objects, fits, has) = object_rows-In keys blocks r objects row here in
                (
                  inl same,
                  of_objects,
                  ap (λ x. offers x row.1) same ∙ fits,
                  ap (is_candidate observed) same ∙ e,
                  subst (HasBlock keys blocks) (sym same) has,
                )
            | inr there ↦
                let (found, of_objects, fits, may, has) =
                  record_rows-In keys blocks objects observed rest row there in
                (inr found, of_objects, fits, may, has)
          ]
    ]

pub candidate_rows-In :
    (keys : List String) (blocks : List CandidateBlock) (objects : List SourceObject)
    (records : List SourceRecord) (observed : SourceRecord) (row : CandidateRow)
    → In row (candidate_rows keys blocks objects records observed)
    → IsCandidateRow keys blocks objects records observed row
unfolding candidate_rows
candidate_rows-In [] blocks objects records observed row m = absurd m
candidate_rows-In (k ∷ ks) blocks objects records observed row m =
    record_rows-In (k ∷ ks) blocks objects observed records row (In-take row 201 _ m)

-- With unique identifiers, a row is told by its object.
pub candidate_rows-IsUnique :
    (keys : List String) (blocks : List CandidateBlock) (objects : List SourceObject)
    (records : List SourceRecord) (observed : SourceRecord) (x y : CandidateRow)
    → ((o p : SourceObject) → In o objects → In p objects → o.id ≡ p.id → o ≡ p)
    → ((r s : SourceRecord) → In r records → In s records → r.id ≡ s.id → r ≡ s)
    → In x (candidate_rows keys blocks objects records observed)
    → In y (candidate_rows keys blocks objects records observed)
    → x.1.id ≡ y.1.id
    → x ≡ y
candidate_rows-IsUnique keys blocks objects records observed (r, o) (s, p) by_object by_record m n
      e =
    let (in_r, in_o, fits, _, _) =
      candidate_rows-In keys blocks objects records observed (r, o) m in
    let (in_s, in_p, fits', _, _) =
      candidate_rows-In keys blocks objects records observed (s, p) n in
    let same_object : o ≡ p = by_object o p in_o in_p e in
    let fits'' : offers s o ≡ true = ap (offers s) same_object ∙ fits' in
    let same_id : r.id ≡ s.id = ground (arith, fits, fits'') in
    ap (λ x. (x, o)) (by_record r s in_r in_s same_id) ∙ ap (λ x. (s, x)) same_object
