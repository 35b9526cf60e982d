-- ===== src/Ingest/Opened.antt =====
-- What a page that is ingested went through.
use recordlane.Base.{
  ℕ, String, ◌≡◌, ◌⊎◌, ◌∙◌, refl, ap, inl, inr, Option, none, some, List, [], arith, str_eq,
  Option-cases,
}
use recordlane.Http.{Result, ok, ◌>>=◌, ◌>>◌, >>=-ok, ok-eq, required, required-ok, raise_if}
use recordlane.Policy.{Library, Floats}
use recordlane.Mastering.{Source}
use recordlane.Review.{Domain, find_first}
use recordlane.Ingest.{Tables, Counts, Digests, IngestionRun, IngestionRequest, given}
use recordlane.Ingest.Runs.{
  open_run, find_run, Opening, duplicate_page, next_page, hand_off, check_completeness,
  writes_forbidden,
}
use recordlane.Ingest.Page.{
  process_page, run_page, ingest, PageAnswer, page_repeated, page_counts, ingest_all, work_records,
  seen_with, zero_counts, paged,
}
use recordlane.Ingest.Suited.{open_run-found, hand_off-position}

pub Opening-cases :
    (o : Opening)
    → ((r : IngestionRun) × (o ≡ duplicate_page r)) ⊎ ((r : IngestionRun) × (o ≡ next_page r))
Opening-cases (duplicate_page r) = inl (r, refl)
Opening-cases (next_page r) = inr (r, refl)

-- What the run of the page has seen before it.
abbrev pub seen_before : ℕ → IngestionRequest → String → List IngestionRun → List String
seen_before source_id q run_id runs = elim (find_run source_id q.domain_key run_id runs) [
  | none ↦ []
  | some r ↦ r.seen_local_ids
]

-- The run of a page, with what the run has seen before it.
abbrev pub IsRunOf : ℕ → IngestionRequest → List IngestionRun → Option IngestionRun → Type 0
IsRunOf source_id q runs run =
    ((given q.run_id ≡ none) × (run ≡ none))
    ⊎ ((run_id : String) × (r : IngestionRun) × (given q.run_id ≡ some run_id)
        × (run ≡ some r)
        × (r.seen_local_ids ≡ seen_before source_id q run_id runs))

opened-seen :
    (source_id : ℕ) (run_id : String) (q : IngestionRequest) (runs : List IngestionRun)
    (r r' : IngestionRun)
    → open_run source_id run_id q runs ≡ ok (next_page r)
    → hand_off source_id q r runs ≡ ok r'
    → r'.seen_local_ids ≡ seen_before source_id q run_id runs
opened-seen source_id run_id q runs r r' opened handed =
    let kept : r'.seen_local_ids ≡ r.seen_local_ids =
      ap (λ x. x.seen_local_ids) (hand_off-position source_id q r runs r' handed) in
    elim (open_run-found source_id run_id q runs r opened) [
      | inl found ↦ kept ∙ rw (seen_before, found) refl
      | inr (n, is_new) ↦ kept ∙ ap (λ x. x.seen_local_ids) is_new ∙ rw (seen_before, n) refl
    ]

module _ (lib : Library) (fl : Floats) (digests : Digests) (now : ℕ) (by : String)
    (roles : List String) where
  open fl use {Float}

  -- The loop of a page that is processed.
  pub process_page-loop :
      (source : Source) (domain : Domain Float) (q : IngestionRequest) (run : Option IngestionRun)
      (tables : Tables Float) (x : Tables Float × PageAnswer)
      → process_page lib fl digests now by roles source domain q run tables ≡ ok x
      → (y : Tables Float × Counts) × (ingest_all lib fl digests now by roles source.id
            domain.definition q.domain_key
            (work_records source.id q (given q.run_id) (seen_with q run) tables.store.objects)
            tables
            zero_counts
          ≡ ok y)
        × (paged lib fl digests now by roles source.id q run (seen_with q run) y ≡ x)
  unfolding process_page
  process_page-loop source domain q run tables x e =
      let policy = domain.definition in
      let seen = seen_with q run in
      let items = work_records source.id q (given q.run_id) seen tables.store.objects in
      let looped =
        ingest_all lib fl digests now by roles source.id policy q.domain_key items tables
          zero_counts in
      let last : Tables Float × Counts → Result (Tables Float × PageAnswer) =
        λ y. ok (paged lib fl digests now by roles source.id q run seen y) in
      let allowed =
        raise_if (writes_forbidden roles policy.attributes q.records) 403 "field_write_forbidden" in
      let (_, _, e1) = >>=-ok (check_completeness q) (λ _. allowed >> (looped >>= last)) x e in
      let (_, _, e2) = >>=-ok allowed (λ _. looped >>= last) x e1 in
      let (y, f, g) = >>=-ok looped last x e2 in (y, f, ok-eq g)

  -- The page of a run that is answered with counts is processed, after its handoff.
  run_page-processed :
      (source : Source) (domain : Domain Float) (q : IngestionRequest) (o : Opening)
      (tables t : Tables Float) (c : Counts)
      → run_page lib fl digests now by roles source domain q o tables ≡ ok (t, page_counts c)
      → (r : IngestionRun) × (r' : IngestionRun) × (o ≡ next_page r)
        × (hand_off source.id q r tables.runs ≡ ok r')
        × (process_page lib fl digests now by roles source domain q (some r') tables
            ≡ ok (t, page_counts c))
  unfolding run_page
  run_page-processed source domain q (duplicate_page r) tables t c e =
      let same : page_repeated ≡ page_counts c = ap (λ y. y.1) (ok-eq e) in ground arith
  run_page-processed source domain q (next_page r) tables t c e =
      let (r', f, g) =
        >>=-ok (hand_off source.id q r tables.runs)
          (λ r'. process_page lib fl digests now by roles source domain q (some r') tables)
          (t, page_counts c) e in
      (r, r', refl, f, g)

  -- A request that is answered with counts is processed.
  pub ingest-processed :
      (q : IngestionRequest) (tables t : Tables Float) (c : Counts)
      → ingest lib fl digests now by roles q tables ≡ ok (t, page_counts c)
      → (source : Source) × (domain : Domain Float) × (run : Option IngestionRun) × (find_first
            (λ s. str_eq s.key q.source_key)
            tables.store.sources
          ≡ some source)
        × IsRunOf source.id q tables.runs run
        × (process_page lib fl digests now by roles source domain q run tables
            ≡ ok (t, page_counts c))
  unfolding ingest
  ingest-processed q tables t c e =
      let find_source = find_first (λ s. str_eq s.key q.source_key) tables.store.sources in
      let find_domain = find_first (λ d. str_eq d.key q.domain_key) tables.store.domains in
      let step : Source → Domain Float → Result (Tables Float × PageAnswer) = λ source domain.
        elim (given q.run_id) [
          | none ↦ process_page lib fl digests now by roles source domain q none tables
          | some run_id ↦ open_run source.id run_id q tables.runs >>= λ o.
              run_page lib fl digests now by roles source domain q o tables
        ] in
      let (source, at, e1) =
        >>=-ok (required find_source 404 "source_or_domain_not_found")
          (λ source. required find_domain 404 "source_or_domain_not_found" >>= step source)
          (t, page_counts c) e in
      let (domain, _, e2) =
        >>=-ok (required find_domain 404 "source_or_domain_not_found") (step source)
          (t, page_counts c) e1 in
      let source_found = required-ok find_source _ _ source at in
      elim (Option-cases (given q.run_id)) [
        | inl n ↦ (source, domain, none, source_found, inl (n, refl), rw n at e2)
        | inr (run_id, is_given) ↦
            let (o, opened, e3) =
              >>=-ok (open_run source.id run_id q tables.runs)
                (λ o. run_page lib fl digests now by roles source domain q o tables)
                (t, page_counts c) (rw is_given at e2) in
            let (r, r', is_next, handed, e4) = run_page-processed source domain q o tables t c e3 in
            let seen =
              opened-seen source.id run_id q tables.runs r r' (rw is_next at opened) handed in
            (source, domain, some r', source_found, inr (run_id, r', is_given, refl, seen), e4)
      ]
