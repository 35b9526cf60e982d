-- ===== src/Ingest/Missing.antt =====
-- The objects that a complete snapshot misses, counted apart from the code, and the records that the
-- loop of a page goes over.
use recordlane.Base.{
  ℕ, suc, ◌+◌, String, ◌≡◌, refl, ap, ◌∙◌, inl, inr, Bool, false, not, ◌&&◌, ◌||◌, Option, none,
  some, List, [], ◌∷◌, ◌++◌, ◌==◌, arith, length, length-append, str_eq, has_text, has_text-append,
  select, if◌then◌else◌, Bool-cases,
}
use recordlane.Mastering.{Source, SourceObject, IncomingRecord}
use recordlane.Review.{find_first}
use recordlane.Ingest.{Tables, IngestionRun, IngestionRequest, given}
use recordlane.Ingest.Runs.{is_full}
use recordlane.Ingest.Page.{work_records, seen_with, local_ids, is_unseen, deletions}
use recordlane.Ingest.Opened.{IsRunOf, seen_before}

-- The page has the object, and not as deleted.
abbrev pub reports : String → List IncomingRecord → Bool
reports id [] = false
reports id (item ∷ rest) = (not item.deleted && str_eq item.local_id id) || reports id rest

-- How many objects of the source and domain are not retired, and reported neither before nor now.
abbrev pub missing : ℕ → IngestionRequest → List String → List SourceObject → ℕ
missing source_id q before [] = 0
missing source_id q before (o ∷ rest) =
    let others = missing source_id q before rest in
    if o.source_id == source_id
      && str_eq o.domain_key q.domain_key
      && not o.retired
      && not (has_text o.local_id before)
      && not (reports o.local_id q.records)
    then suc others
    else others

-- The objects that the page of a run misses, if it ends a complete snapshot.
abbrev pub missing_objects : {F : Type 0} → IngestionRequest → Tables F → ℕ
missing_objects q tables = elim (find_first (λ s. str_eq s.key q.source_key) tables.store.sources) [
  | none ↦ 0
  | some source ↦ elim (given q.run_id) [
    | none ↦ 0
    | some run_id ↦
        if is_full q.extraction_mode && q.complete_snapshot
        then missing source.id q (seen_before source.id q run_id tables.runs) tables.store.objects
        else 0
  ]
]

has_text-local_ids :
    (id : String) (records : List IncomingRecord)
    → has_text id (local_ids records) ≡ reports id records
has_text-local_ids id [] = refl
has_text-local_ids id (item ∷ rest) = ground (arith, has_text-local_ids id rest)

length-deletions :
    (source_id : ℕ) (q : IngestionRequest) (before : List String) (run_id : String)
    (objects : List SourceObject)
    → length (
        deletions run_id
          (select (is_unseen source_id q.domain_key (before ++ local_ids q.records)) objects))
      ≡ missing source_id q before objects
length-deletions source_id q before run_id [] = refl
length-deletions source_id q before run_id (o ∷ rest) = ground (
  arith,
  length-deletions source_id q before run_id rest,
  has_text-append o.local_id before (local_ids q.records),
  has_text-local_ids o.local_id q.records,
)

pub length-work_records :
    {F : Type 0} (q : IngestionRequest) (tables : Tables F) (source : Source)
    (run : Option IngestionRun)
    → find_first (λ s. str_eq s.key q.source_key) tables.store.sources ≡ some source
    → IsRunOf source.id q tables.runs run
    → length (work_records source.id q (given q.run_id) (seen_with q run) tables.store.objects)
      ≡ length q.records + missing_objects q tables
unfolding work_records
length-work_records q tables source run found (inl (n, is_none)) =
    rw (missing_objects, found, n, is_none) (omega arith)
length-work_records q tables source run found (inr (run_id, r, is_given, is_some, seen)) =
    let before = seen_before source.id q run_id tables.runs in
    let gone = deletions run_id (
      select (is_unseen source.id q.domain_key (before ++ local_ids q.records))
        tables.store.objects) in
    elim (Bool-cases (is_full q.extraction_mode && q.complete_snapshot)) [
      | inr other ↦ rw (missing_objects, found, is_given, is_some, other) (omega arith)
      | inl snapshot ↦
          rw (missing_objects, found, is_given, is_some, seen, snapshot)
            (length-append q.records gone
              ∙ ap (λ n. length q.records + n)
                  (length-deletions source.id q before run_id tables.store.objects))
    ]
