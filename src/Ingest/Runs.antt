-- ===== src/Ingest/Runs.antt =====
-- The checks of ingest before its loop: the run that a page belongs to, the handoff from a snapshot,
-- and the fields that the principal may write.
use recordlane.Base.{
  String, ℕ, Bool, true, false, not, ◌&&◌, ◌||◌, Option, none, some, List, [], ◌∷◌, ◌==◌,
  if◌then◌else◌, str_eq, has_text, any, keys,
}
use recordlane.Http.{Result, ok, err, ◌>>=◌, ◌>>◌, raise_if, required}
use recordlane.Policy.{Attribute}
use recordlane.Policy.Normalize.{attribute_of}
use recordlane.Mastering.{IncomingRecord}
use recordlane.Ingest.{
  ExtractionMode, full_extraction, delta, RunStatus, running, complete, IngestionRun,
  IngestionRequest, given,
}

abbrev pub is_full : ExtractionMode → Bool
is_full full_extraction = true
is_full delta = false

abbrev pub same_mode : ExtractionMode → ExtractionMode → Bool
same_mode a b = if is_full a then is_full b else not (is_full b)

abbrev pub is_complete : RunStatus → Bool
is_complete complete = true
is_complete running = false

-- `page_cursor or "__start__"`
abbrev pub page_key : IngestionRequest → String
page_key q = elim (given q.page_cursor) [ none ↦ "__start__" | some c ↦ c ]

-- `a == b`, of optional texts
abbrev pub same_text : Option String → Option String → Bool
same_text none none = true
same_text (some a) (some b) = str_eq a b
same_text _ _ = false

abbrev pub is_run : ℕ → String → String → IngestionRun → Bool
is_run source_id domain_key external_id r =
    r.source_id == source_id && str_eq r.domain_key domain_key && str_eq r.external_id external_id

abbrev pub find_run : ℕ → String → String → List IngestionRun → Option IngestionRun
find_run source_id domain_key external_id [] = none
find_run source_id domain_key external_id (r ∷ rest) =
    let later = find_run source_id domain_key external_id rest in
    if is_run source_id domain_key external_id r then some r else later

-- `page_cursor not in (None, "", "0")`, negated
abbrev pub is_start : Option String → Bool
is_start none = true
is_start (some c) = str_eq c "" || str_eq c "0"

abbrev pub new_run : ℕ → String → IngestionRequest → IngestionRun
new_run source_id external_id q = record {
  source_id = source_id;
  domain_key = q.domain_key;
  external_id = external_id;
  extraction_mode = q.extraction_mode;
  status = running;
  snapshot_position = q.snapshot_position;
  handoff_from = q.handoff_from;
  processed_cursors = [];
  page_cursor = none;
  next_cursor = none;
  seen_local_ids = [];
  records_processed = 0;
  source_complete = false;
}

-- What the page is to its run: one that was processed before, or one to process.
pub data Opening : Type 0 where
  duplicate_page : IngestionRun → Opening
  next_page : IngestionRun → Opening

abbrev pub is_empty_list : List String → Bool
is_empty_list [] = true
is_empty_list (_ ∷ _) = false

-- The page of a run that is there.
unfoldable pub continue_run : IngestionRequest → IngestionRun → Result Opening
continue_run q r = do
  raise_if (not (same_mode r.extraction_mode q.extraction_mode)) 409 "ingestion_run_mode_mismatch"
  if has_text (page_key q) r.processed_cursors then ok (duplicate_page r) else do
    raise_if
        (not (is_empty_list r.processed_cursors) && not (same_text q.page_cursor r.next_cursor)) 409
        "ingestion_cursor_mismatch"
    ok (next_page r)

unfoldable pub open_run : ℕ → String → IngestionRequest → List IngestionRun → Result Opening
unfolding continue_run
open_run source_id external_id q runs = elim (find_run source_id q.domain_key external_id runs) [
  | some r ↦ continue_run q r
  | none ↦ do
    raise_if (not (is_start q.page_cursor)) 409 "ingestion_run_not_started"
    ok (next_page (new_run source_id external_id q))
]

-- A full run that has ended with the evidence that it is complete.
abbrev pub is_handoff : ℕ → String → String → IngestionRun → Bool
is_handoff source_id domain_key external_id r =
    is_run source_id domain_key external_id r
    && is_full r.extraction_mode
    && is_complete r.status
    && r.source_complete

abbrev pub find_handoff : ℕ → String → String → List IngestionRun → Option IngestionRun
find_handoff source_id domain_key external_id [] = none
find_handoff source_id domain_key external_id (r ∷ rest) =
    let later = find_handoff source_id domain_key external_id rest in
    if is_handoff source_id domain_key external_id r then some r else later

-- The run with the position of the snapshot that it goes on from.
unfoldable pub hand_off :
    ℕ → IngestionRequest → IngestionRun → List IngestionRun → Result IngestionRun
hand_off source_id q run runs = elim (given q.handoff_from) [
  | none ↦ ok run
  | some parent_id ↦
      if is_full q.extraction_mode then err 422 "full_run_cannot_have_handoff" else do
        parent ←
            required (find_handoff source_id q.domain_key parent_id runs) 409
              "snapshot_handoff_not_ready"
        ok (record run { snapshot_position = parent.snapshot_position })
]

-- What a complete snapshot asks of the page.
unfoldable pub check_completeness : IngestionRequest → Result (Unit {0})
check_completeness q = elim (given q.run_id) [
  | none ↦ raise_if q.source_complete 422 "completeness_requires_run_id"
  | some _ ↦ do
    raise_if (q.complete_snapshot && not (is_full q.extraction_mode)) 422
        "snapshot_completion_requires_full_mode"
    raise_if (q.complete_snapshot && not q.source_complete) 422
        "source_completeness_evidence_required"
    ok tt
]

-- `write_roles` is not empty and none of the principal's roles is in it.
abbrev pub is_forbidden : List String → List Attribute → String → Bool
is_forbidden roles attributes field = elim (attribute_of field attributes) [
  | none ↦ false
  | some a ↦ not (is_empty_list a.write_roles) && not (any (λ r. has_text r a.write_roles) roles)
]

-- Some field of some observation is forbidden to a principal that is no administrator.
unfoldable pub writes_forbidden : List String → List Attribute → List IncomingRecord → Bool
writes_forbidden roles attributes records =
    not (has_text "administrator" roles)
    && any (λ item. any (is_forbidden roles attributes) (keys item.values)) records
