-- ===== src/Ingest/Tests.antt =====
-- Runs of ingest: a complete snapshot of one page, with an observation of a new object and none of
-- the known one, which is retired.
use recordlane.Base.{
  ℕ, ◌+◌, String, ◌≡◌, ◌≢◌, refl, sym, ap, ◌∙◌, inl, inr, In, arith, true, false, none, some, [],
  ◌∷◌,
}
use recordlane.Http.{Result, ok, err}
use recordlane.Json.{str}
use recordlane.Mastering.{IncomingRecord, full, SourceObject, SourceRecord}
use recordlane.Mastering.Samples.{erp_record, crm_record, erp_object, crm_object, policy, block}
use recordlane.Policy.Samples.{plain, counting}
use recordlane.Policy.Validate.{validate}
use recordlane.Policy.Blocking.{blocking_keys}
use recordlane.Review.Samples.{one_supplier}
use recordlane.Ingest.{Tables, IngestionRequest, Counts, Digests, full_extraction}
use recordlane.Ingest.Page.{ingest, PageAnswer, page_repeated, zero_counts}
use recordlane.Ingest.Balance.{counts_balance, outcomes}
use recordlane.Ingest.Missing.{missing_objects}
use recordlane.Ingest.Observe.{ingest_one}
use recordlane.Ingest.Withheld.{withheld_changes_nothing, Unmoved}
use recordlane.Ingest.Passed.{Call}
use recordlane.Ingest.Repeated.{ingest_calls, page_once}

abbrev tables : Tables ℕ
tables = record {
  store = one_supplier;
  blocks = block ∷ [];
  metas = [];
  runs = [];
  checkpoints = [];
}

abbrev item : String → String → IncomingRecord
item local_id version = record {
  local_id = local_id;
  version = version;
  values = ("name", str "Bergen") ∷ [];
  verification = [];
  effective_from = none;
  sequence = some 7;
  update_mode = full;
  deleted = false;
}

abbrev request : IngestionRequest
request = record {
  source_key = "erp";
  domain_key = "supplier";
  records = item "Z" "1" ∷ [];
  complete_snapshot = true;
  run_id = some "run-1";
  extraction_mode = full_extraction;
  page_cursor = none;
  next_cursor = none;
  snapshot_position = none;
  handoff_from = none;
  source_complete = true;
}

abbrev digests : Digests
digests = record { payload_hash = λ i. i.version; stable_key = λ r. "rl_2" }

abbrev outcome : Result (Tables ℕ × PageAnswer)
outcome = ingest plain counting digests 200 "ann" [] request tables

-- What a result holds.
abbrev held : Result (Tables ℕ × PageAnswer) → Tables ℕ × PageAnswer
held (ok x) = x
held (err status code) = (tables, page_repeated)

abbrev counted : Counts
counted = record zero_counts { accepted = 2; retired = 1; created = 1 }

counts_balance_example : (2 ≡ outcomes counted) × (2 + 0 ≡ 1 + missing_objects request tables)
unfolding ingest validate blocking_keys
counts_balance_example =
    counts_balance plain counting digests 200 "ann" [] request tables (held outcome).0 counted refl

-- The page of the example, two pages of another run, and the page again.
abbrev call : ℕ → IngestionRequest → Call
call now q = record { now = now; by = "ann"; roles = []; request = q }

abbrev first_page : IngestionRequest
first_page = record request {
  run_id = some "run-2";
  complete_snapshot = false;
  source_complete = false;
  next_cursor = some "2";
}

abbrev second_page : IngestionRequest
second_page = record request { run_id = some "run-2"; page_cursor = some "2"; records = [] }

abbrev begun : Result (Tables ℕ × PageAnswer)
begun = ingest plain counting digests 200 "ann" [] first_page tables

abbrev both_pages : Tables ℕ
both_pages =
    ingest_calls plain counting digests (call 210 second_page ∷ call 220 request ∷ [])
      (held begun).0

page_once_example :
    ingest plain counting digests 300 "ann" [] first_page both_pages
    ≡ ok (both_pages, page_repeated)
unfolding ingest validate blocking_keys
page_once_example =
    page_once plain counting digests (call 200 first_page) (call 300 first_page)
      (call 210 second_page ∷ call 220 request ∷ []) "run-2" tables (held begun) refl refl refl

-- An older observation of A.
abbrev late : IncomingRecord
late = record (item "A" "0") { sequence = some 1 }

abbrev filed_late : Result (Tables ℕ × Counts)
filed_late = ingest_one plain counting digests 200 "ann" 1 policy "supplier" late tables zero_counts

abbrev left : Result (Tables ℕ × Counts) → Tables ℕ × Counts
left (ok x) = x
left (err status code) = (tables, zero_counts)

object_ids_distinct :
    (p : SourceObject) → In p tables.store.objects → p.id ≡ erp_object.id → p ≡ erp_object
object_ids_distinct p (inl q) e = q
object_ids_distinct p (inr (inl q)) e =
    let h : crm_object.id ≡ erp_object.id = ap (λ o. o.id) (sym q) ∙ e in absurd (omega (arith, h))
object_ids_distinct p (inr (inr m)) e = absurd m

record_ids_used : (r : SourceRecord) → In r tables.store.records → r.id ≢ tables.store.next
record_ids_used r (inl q) e =
    let h : erp_record.id ≡ 50 = ap (λ s. s.id) (sym q) ∙ e in omega (arith, h)
record_ids_used r (inr (inl q)) e =
    let h : crm_record.id ≡ 50 = ap (λ s. s.id) (sym q) ∙ e in omega (arith, h)
record_ids_used r (inr (inr m)) e = absurd m

withheld_changes_nothing_example : Unmoved (some 5) tables.store (left filed_late).0.store
unfolding ingest_one validate blocking_keys
withheld_changes_nothing_example =
    withheld_changes_nothing plain counting digests 200 "ann" 1 policy "supplier" late tables
      zero_counts erp_object (left filed_late) (some 5) refl object_ids_distinct record_ids_used
      refl (inr refl)
