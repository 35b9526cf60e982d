-- ===== src/Ingest/Page.antt =====
-- The method ingest: one page of observations.
use recordlane.Base.{
  ℕ, ◌+◌, String, Bool, true, not, ◌&&◌, Option, none, some, List, [], ◌∷◌, ◌++◌, ◌==◌,
  if◌then◌else◌, str_eq, has_text, sorted_set, select,
}
use Prim.Native.String.{◌++◌ as concat}
use recordlane.Http.{Result, ok, ◌>>=◌, ◌>>◌, raise_if, required}
use recordlane.Policy.{Library, Floats, CompiledPolicy}
use recordlane.Mastering.{Source, SourceObject, IncomingRecord, partial}
use recordlane.Review.{Domain, find_first}
use recordlane.Ingest.{
  IngestionRun, complete, Tables, IngestionRequest, Counts, Digests, Checkpoint, given,
}
use recordlane.Ingest.Runs.{
  Opening, duplicate_page, next_page, open_run, hand_off, check_completeness, writes_forbidden,
  is_full, is_run, page_key,
}
use recordlane.Ingest.Observe.{ingest_one}

abbrev pub zero_counts : Counts
zero_counts = record {
  accepted = 0;
  duplicate = 0;
  quarantined = 0;
  out_of_order = 0;
  updated = 0;
  retired = 0;
  linked = 0;
  review = 0;
  created = 0;
}

-- `{item.local_id for item in records if not item.deleted}`
abbrev pub local_ids : List IncomingRecord → List String
local_ids [] = []
local_ids (item ∷ rest) = if item.deleted then local_ids rest else item.local_id ∷ local_ids rest

-- The deletion of an object that a complete snapshot does not have.
abbrev pub deletion : String → String → IncomingRecord
deletion run_id local_id = record {
  local_id = local_id;
  version = concat "snapshot-delete:" run_id;
  values = [];
  verification = [];
  effective_from = none;
  sequence = none;
  update_mode = partial;
  deleted = true;
}

-- An object of the source and domain that is not retired and was not seen.
abbrev pub is_unseen : ℕ → String → List String → SourceObject → Bool
is_unseen source_id domain_key seen o =
    o.source_id == source_id
    && str_eq o.domain_key domain_key
    && not o.retired
    && not (has_text o.local_id seen)

abbrev pub deletions : String → List SourceObject → List IncomingRecord
deletions run_id [] = []
deletions run_id (o ∷ rest) = deletion run_id o.local_id ∷ deletions run_id rest

-- What the loop goes over: the page, and the deletions of a complete snapshot.
unfoldable pub work_records :
    ℕ → IngestionRequest → Option String → List String → List SourceObject → List IncomingRecord
work_records source_id q none seen objects = q.records
work_records source_id q (some run_id) seen objects =
    if is_full q.extraction_mode && q.complete_snapshot
    then q.records ++ deletions run_id (select (is_unseen source_id q.domain_key seen) objects)
    else q.records

-- `sorted(seen_local_ids)`, with those of the page
abbrev pub seen_with : IngestionRequest → Option IngestionRun → List String
seen_with q none = local_ids q.records
seen_with q (some r) = r.seen_local_ids ++ local_ids q.records

-- The run after its page.
abbrev pub finish_page : IngestionRequest → List String → Counts → IngestionRun → IngestionRun
finish_page q seen counts r = record r {
  processed_cursors = r.processed_cursors ++ page_key q ∷ [];
  page_cursor = q.page_cursor;
  next_cursor = q.next_cursor;
  seen_local_ids = sorted_set seen;
  records_processed = r.records_processed + counts.accepted;
  source_complete = q.complete_snapshot && q.source_complete;
  status =
      if q.complete_snapshot
      then complete
      else if is_full q.extraction_mode
      then r.status
      else elim q.next_cursor [ none ↦ complete | some _ ↦ r.status ];
}

-- A run is written in the place of the one that it is, or is new.
abbrev pub write_run : IngestionRun → List IngestionRun → List IngestionRun
write_run r [] = r ∷ []
write_run r (s ∷ rest) =
    let later = write_run r rest in
    if is_run r.source_id r.domain_key r.external_id s then r ∷ rest else s ∷ later

-- `source.checkpoint.get("records", 0)`
abbrev pub records_of : ℕ → List Checkpoint → ℕ
records_of source_id l = elim (find_first (λ c. c.source_id == source_id) l) [
  | none ↦ 0
  | some c ↦ c.records
]

abbrev pub write_checkpoint : Checkpoint → List Checkpoint → List Checkpoint
write_checkpoint c [] = c ∷ []
write_checkpoint c (d ∷ rest) =
    let later = write_checkpoint c rest in
    if d.source_id == c.source_id then c ∷ rest else d ∷ later

abbrev pub new_checkpoint : ℕ → IngestionRequest → ℕ → Checkpoint
new_checkpoint source_id q records = record {
  source_id = source_id;
  records = records;
  complete_snapshot = q.complete_snapshot;
  run_id = q.run_id;
  next_cursor = q.next_cursor;
  snapshot_position = q.snapshot_position;
}

-- The counts of a page, or that it was processed before.
pub data PageAnswer : Type 0 where
  page_repeated : PageAnswer
  page_counts : Counts → PageAnswer

module _ (lib : Library) (fl : Floats) (digests : Digests) (now : ℕ) (by : String)
    (roles : List String) where
  open fl use {Float}

  -- The loop.
  unfoldable pub ingest_all :
      ℕ
      → CompiledPolicy Float
      → String
      → List IncomingRecord
      → Tables Float
      → Counts
      → Result (Tables Float × Counts)
  unfolding ingest_one
  ingest_all source_id policy domain_key [] tables counts = ok (tables, counts)
  ingest_all source_id policy domain_key (item ∷ rest) tables counts =
      ingest_one lib fl digests now by source_id policy domain_key item tables counts >>= λ x.
      ingest_all source_id policy domain_key rest x.0 x.1

  -- The run of the page, if the request names one.
  abbrev pub run_rows : Option IngestionRun → List IngestionRun → List IngestionRun
  run_rows none runs = runs
  run_rows (some r) runs = write_run r runs

  abbrev pub finished :
      IngestionRequest → List String → Counts → Option IngestionRun → Option IngestionRun
  finished q seen counts none = none
  finished q seen counts (some r) = some (finish_page q seen counts r)

  -- The tables after the loop, with the audit entry, the run and the checkpoint.
  abbrev pub paged :
      ℕ
      → IngestionRequest
      → Option IngestionRun
      → List String
      → Tables Float × Counts
      → Tables Float × PageAnswer
  paged source_id q run seen (done, counts) = (
    record done {
      store = record done.store { audit = done.store.audit ++ ("source.ingested", source_id) ∷ [] };
      runs = run_rows (finished q seen counts run) done.runs;
      checkpoints =
          write_checkpoint
            (new_checkpoint source_id q (records_of source_id done.checkpoints + counts.accepted))
            done.checkpoints;
    },
    page_counts counts,
  )

  -- The page, once its run is known.
  unfoldable pub process_page :
      Source
      → Domain Float
      → IngestionRequest
      → Option IngestionRun
      → Tables Float
      → Result (Tables Float × PageAnswer)
  unfolding ingest_all work_records check_completeness writes_forbidden
  process_page source domain q run tables =
      let policy = domain.definition in
      let seen = seen_with q run in
      let items = work_records source.id q (given q.run_id) seen tables.store.objects in
      check_completeness q
      >> (raise_if (writes_forbidden roles policy.attributes q.records) 403 "field_write_forbidden"
          >> (ingest_all source.id policy q.domain_key items tables zero_counts >>= λ x.
              ok (paged source.id q run seen x)))

  -- The page of a run that is open.
  unfoldable pub run_page :
      Source
      → Domain Float
      → IngestionRequest
      → Opening
      → Tables Float
      → Result (Tables Float × PageAnswer)
  unfolding process_page hand_off
  run_page source domain q (duplicate_page r) tables = ok (tables, page_repeated)
  run_page source domain q (next_page r) tables =
      hand_off source.id q r tables.runs >>= λ r'. process_page source domain q (some r') tables

  -- An error leaves the caller's transaction uncommitted.
  unfoldable pub ingest : IngestionRequest → Tables Float → Result (Tables Float × PageAnswer)
  unfolding open_run run_page process_page
  ingest q tables = do
    source ←
        required (find_first (λ s. str_eq s.key q.source_key) tables.store.sources) 404
          "source_or_domain_not_found"
    domain ←
        required (find_first (λ d. str_eq d.key q.domain_key) tables.store.domains) 404
          "source_or_domain_not_found"
    elim (given q.run_id) [
      | none ↦ process_page source domain q none tables
      | some run_id ↦ open_run source.id run_id q tables.runs >>= λ opening.
          run_page source domain q opening tables
    ]
