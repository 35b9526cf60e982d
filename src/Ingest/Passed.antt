-- ===== src/Ingest/Passed.antt =====
-- What a request of ingest that succeeds went through, and the rows that later ones need.
use recordlane.Base.{
  none, Option, ℕ, String, Option-cases, ◌≡◌, sym, ap, ◌∙◌, inl, inr, some, List, str_eq,
}
use recordlane.Http.{Result, ok, ◌>>=◌, >>=-ok, ok-eq, required, required-ok}
use recordlane.Policy.{Library, Floats}
use recordlane.Mastering.{Source}
use recordlane.Review.{Domain, find_first}
use recordlane.Ingest.{Tables, Counts, Digests, IngestionRun, IngestionRequest, given}
use recordlane.Ingest.Runs.{open_run, duplicate_page, next_page, Opening, hand_off}
use recordlane.Ingest.Page.{
  write_run, finish_page, run_rows, finished, process_page, run_page, ingest, PageAnswer,
  work_records, seen_with, zero_counts,
}
use recordlane.Ingest.Opened.{process_page-loop}
use recordlane.Ingest.Kept.{ingest_all-Steady}

-- A request of ingest, with the time, the principal and its roles.
pub record Call : Type 0 where
  pub now : ℕ
  pub by : String
  pub roles : List String
  pub request : IngestionRequest

-- The runs after a page.
abbrev pub page_runs :
    IngestionRequest → Counts → Option IngestionRun → List IngestionRun → List IngestionRun
page_runs q c none runs = runs
page_runs q c (some r) runs = write_run (finish_page q (seen_with q (some r)) c r) runs

module _ (lib : Library) (fl : Floats) (digests : Digests) where
  open fl use {Float}

  -- The rows that the later requests need.
  pub record Paged (q : IngestionRequest) (run : Option IngestionRun) (s t : Tables Float)
      : Type 0 where
    pub counts : Counts
    pub runs : t.runs ≡ page_runs q counts run s.runs
    pub sources : t.store.sources ≡ s.store.sources
    pub domains : t.store.domains ≡ s.store.domains

  -- The tables after a page.
  process_page-Paged :
      (now : ℕ) (by : String) (roles : List String) (source : Source) (domain : Domain Float)
      (q : IngestionRequest) (run : Option IngestionRun) (tables : Tables Float)
      (x : Tables Float × PageAnswer)
      → process_page lib fl digests now by roles source domain q run tables ≡ ok x
      → Paged q run tables x.0
  process_page-Paged now by roles source domain q run tables x e =
      let items =
        work_records source.id q (given q.run_id) (seen_with q run) tables.store.objects in
      let (y, f, g) =
        process_page-loop lib fl digests now by roles source domain q run tables x e in
      let steady =
        ingest_all-Steady lib fl digests now by roles source.id domain.definition q.domain_key items
          tables zero_counts y f in
      let same = ap (λ (z : Tables Float × PageAnswer). z.0) (sym g) in
      record {
        counts = y.1;
        runs = ap (λ t. t.runs) same ∙ rows y.1 run steady.runs;
        sources = ap (λ t. t.store.sources) same ∙ steady.sources;
        domains = ap (λ t. t.store.domains) same ∙ steady.domains;
      }
    where
      rows :
          (c : Counts) (run : Option IngestionRun) {runs runs' : List IngestionRun}
          → runs' ≡ runs
          → run_rows lib fl digests now by roles
              (finished lib fl digests now by roles q (seen_with q run) c run)
              runs'
            ≡ page_runs q c run runs
      rows c none e = e
      rows c (some r) e = ap (write_run (finish_page q (seen_with q (some r)) c r)) e

  -- What a request that succeeds went through.
  pub data Passed (call : Call) (tables : Tables Float) (x : Tables Float × PageAnswer)
      (source : Source) : Type 0 where
    alone :
        given call.request.run_id ≡ none
        → Paged call.request none tables x.0
        → Passed call tables x source
    repeated :
        (run_id : String) (r : IngestionRun)
        → given call.request.run_id ≡ some run_id
        → open_run source.id run_id call.request tables.runs ≡ ok (duplicate_page r)
        → x.0 ≡ tables
        → Passed call tables x source
    continued :
        (run_id : String) (r r' : IngestionRun)
        → given call.request.run_id ≡ some run_id
        → open_run source.id run_id call.request tables.runs ≡ ok (next_page r)
        → hand_off source.id call.request r tables.runs ≡ ok r'
        → Paged call.request (some r') tables x.0
        → Passed call tables x source

  abbrev pub ingests : Call → Tables Float → Result (Tables Float × PageAnswer)
  ingests call tables = ingest lib fl digests call.now call.by call.roles call.request tables

  run_page-Passed :
      (call : Call) (source : Source) (domain : Domain Float) (run_id : String) (o : Opening)
      (tables : Tables Float) (x : Tables Float × PageAnswer)
      → given call.request.run_id ≡ some run_id
      → open_run source.id run_id call.request tables.runs ≡ ok o
      → run_page lib fl digests call.now call.by call.roles source domain call.request o tables
        ≡ ok x
      → Passed call tables x source
  unfolding run_page
  run_page-Passed call source domain run_id (duplicate_page r) tables x is_given opened e =
      repeated run_id r is_given opened (sym (ap (λ y. y.0) (ok-eq e)))
  run_page-Passed call source domain run_id (next_page r) tables x is_given opened e =
      let q = call.request in
      let (r', handed, e') =
        >>=-ok (hand_off source.id q r tables.runs)
          (λ r'.
            process_page lib fl digests call.now call.by call.roles source domain q (some r')
              tables)
          x e in
      continued run_id r r' is_given opened handed
        (process_page-Paged call.now call.by call.roles source domain q (some r') tables x e')

  pub ingest-Passed :
      (call : Call) (tables : Tables Float) (x : Tables Float × PageAnswer)
      → ingests call tables ≡ ok x
      → let q = call.request in
        (source : Source) × (domain : Domain Float) × (find_first
            (λ s. str_eq s.key q.source_key)
            tables.store.sources
          ≡ some source)
        × (find_first (λ d. str_eq d.key q.domain_key) tables.store.domains ≡ some domain)
        × Passed call tables x source
  unfolding ingest
  ingest-Passed call tables x e =
      let q = call.request in
      let find_source = find_first (λ s. str_eq s.key q.source_key) tables.store.sources in
      let find_domain = find_first (λ d. str_eq d.key q.domain_key) tables.store.domains in
      let step : Source → Domain Float → Result (Tables Float × PageAnswer) = λ source domain.
        elim (given q.run_id) [
          | none ↦
              process_page lib fl digests call.now call.by call.roles source domain q none tables
          | some run_id ↦ open_run source.id run_id q tables.runs >>= λ o.
              run_page lib fl digests call.now call.by call.roles source domain q o tables
        ] in
      let (source, f, e1) =
        >>=-ok (required find_source 404 "source_or_domain_not_found")
          (λ source. required find_domain 404 "source_or_domain_not_found" >>= step source) x e in
      let (domain, g, e2) =
        >>=-ok (required find_domain 404 "source_or_domain_not_found") (step source) x e1 in
      (
        source,
        domain,
        required-ok find_source _ _ source f,
        required-ok find_domain _ _ domain g,
        elim (Option-cases (given q.run_id)) [
          | inl n ↦ alone n (
              process_page-Paged call.now call.by call.roles source domain q none tables x
                (rw n at e2))
          | inr (run_id, is_given) ↦
              let (o, opened, e3) =
                >>=-ok (open_run source.id run_id q tables.runs)
                  (λ o.
                    run_page lib fl digests call.now call.by call.roles source domain q o tables)
                  x (rw is_given at e2) in
              run_page-Passed call source domain run_id o tables x is_given opened e3
        ],
      )
