-- ===== src/Ingest/Repeated.antt =====
-- A page of a run that is sent again, after other requests.
use recordlane.Base.{
  none, [], ◌∷◌, String, some-eq, arith, ◌≡◌, refl, sym, ap, ◌∙◌, subst, inl, inr, some, List,
  str_eq,
}
use recordlane.Http.{ok, err, Result-cases}
use recordlane.Policy.{Library, Floats}
use recordlane.Mastering.{Source}
use recordlane.Review.{Domain, find_first}
use recordlane.Ingest.{Tables, Digests, IngestionRequest, given}
use recordlane.Ingest.Page.{run_page, ingest, PageAnswer, page_repeated, seen_with}
use recordlane.Ingest.Suited.{open_run-Suits, hand_off-Suits}
use recordlane.Ingest.Processed.{
  IsProcessed, open_again, open_run-IsProcessed, finish_page-IsProcessed, write_run-IsProcessed,
}
use recordlane.Ingest.Passed.{Call, alone, repeated, continued, ingests, ingest-Passed}

-- The source and the domain of the request, and its page among those of its run.
record IsKnown {F : Type 0} (run_id : String) (q : IngestionRequest) (tables : Tables F)
    : Type 0 where
  source : Source
  domain : Domain F
  source_found : find_first (λ s. str_eq s.key q.source_key) tables.store.sources ≡ some source
  domain_found : find_first (λ d. str_eq d.key q.domain_key) tables.store.domains ≡ some domain
  processed : IsProcessed source.id run_id q tables.runs

module _ (lib : Library) (fl : Floats) (digests : Digests) where
  open fl use {Float}

  -- A request that succeeds makes its page known,
  first_page-IsKnown :
      (call : Call) (run_id : String) (tables : Tables Float) (x : Tables Float × PageAnswer)
      → given call.request.run_id ≡ some run_id
      → ingests lib fl digests call tables ≡ ok x
      → IsKnown run_id call.request x.0
  first_page-IsKnown call run_id tables x is_given e =
      let q = call.request in
      let (source, domain, source_found, domain_found, passed) =
        ingest-Passed lib fl digests call tables x e in
      elim passed [
        | alone n p ↦ let no_run : none ≡ some run_id = sym n ∙ is_given in ground arith
        | repeated id r g opened same ↦
            let this : id ≡ run_id = some-eq (sym g ∙ is_given) in
            subst (IsKnown run_id q) (sym same) (record {
              source = source;
              domain = domain;
              source_found = source_found;
              domain_found = domain_found;
              processed = open_run-IsProcessed source.id run_id q tables.runs r (rw this at opened);
            })
        | continued id r r' g opened handed p ↦
            let this : id ≡ run_id = some-eq (sym g ∙ is_given) in
            let suits =
              hand_off-Suits source.id run_id q r tables.runs r' handed
                (open_run-Suits source.id run_id q tables.runs r (rw this at opened)) in
            record {
              source = source;
              domain = domain;
              source_found = rw p.sources source_found;
              domain_found = rw p.domains domain_found;
              processed = rw p.runs (
                  finish_page-IsProcessed source.id run_id q (seen_with q (some r')) p.counts r'
                    tables.runs suits);
            }
      ]

  -- and every later one keeps it known.
  ingest-IsKnown :
      (call : Call) (run_id : String) (q : IngestionRequest) (tables : Tables Float)
      (x : Tables Float × PageAnswer)
      → ingests lib fl digests call tables ≡ ok x
      → IsKnown run_id q tables
      → IsKnown run_id q x.0
  ingest-IsKnown call run_id q tables x e k =
      let (source, domain, _, _, passed) = ingest-Passed lib fl digests call tables x e in
      elim passed [
        | alone n p ↦ record {
          source = k.source;
          domain = k.domain;
          source_found = rw p.sources k.source_found;
          domain_found = rw p.domains k.domain_found;
          processed = rw p.runs k.processed;
        }
        | repeated id r g o same ↦ subst (IsKnown run_id q) (sym same) k
        | continued id r r' g opened handed p ↦ record {
          source = k.source;
          domain = k.domain;
          source_found = rw p.sources k.source_found;
          domain_found = rw p.domains k.domain_found;
          processed = rw p.runs (
              write_run-IsProcessed k.source.id source.id run_id id q call.request
                (seen_with call.request (some r')) p.counts r r' tables.runs k.processed opened
                handed);
        }
      ]

  -- The tables after some requests. One that fails is not committed.
  abbrev pub ingest_calls : List Call → Tables Float → Tables Float
  ingest_calls [] tables = tables
  ingest_calls (call ∷ rest) tables =
      ingest_calls rest
        (elim (ingests lib fl digests call tables) [ err _ _ ↦ tables | ok x ↦ x.0 ])

  ingest_calls-IsKnown :
      (calls : List Call) (run_id : String) (q : IngestionRequest) (tables : Tables Float)
      → IsKnown run_id q tables
      → IsKnown run_id q (ingest_calls calls tables)
  ingest_calls-IsKnown [] run_id q tables k = k
  ingest_calls-IsKnown (call ∷ rest) run_id q tables k =
      elim (Result-cases (ingests lib fl digests call tables)) [
        | inl (_, _, f) ↦ rw f (ingest_calls-IsKnown rest run_id q tables k)
        | inr (x, f) ↦
            rw f
              (ingest_calls-IsKnown rest run_id q x.0 (ingest-IsKnown call run_id q tables x f k))
      ]

  -- A request whose page its run has processed.
  known_page :
      (call : Call) (run_id : String) (tables : Tables Float)
      → given call.request.run_id ≡ some run_id
      → IsKnown run_id call.request tables
      → ingests lib fl digests call tables ≡ ok (tables, page_repeated)
  unfolding ingest run_page
  known_page call run_id tables is_given k =
      let opened = open_again k.source.id run_id call.request tables.runs k.processed in
      rw (ingest, k.source_found, k.domain_found, is_given, opened) refl

  -- When a page of a run was ingested with success, the same request sent again by anyone, whatever
  -- other requests of ingest were made in between, with or without success, leaves the tables as
  -- they are and is answered as repeated.
  pub page_once :
      (first again : Call) (between : List Call) (run_id : String) (tables : Tables Float)
      (x : Tables Float × PageAnswer)
      → given first.request.run_id ≡ some run_id
      → again.request ≡ first.request
      → ingest lib fl digests first.now first.by first.roles first.request tables ≡ ok x
      → let later = ingest_calls between x.0 in
        ingest lib fl digests again.now again.by again.roles again.request later
        ≡ ok (later, page_repeated)
  page_once first again between run_id tables x is_given same e =
      let known =
        ingest_calls-IsKnown between run_id first.request x.0
          (first_page-IsKnown first run_id tables x is_given e) in
      known_page again run_id (ingest_calls between x.0) (ap (λ q. given q.run_id) same ∙ is_given)
        (subst (λ q. IsKnown run_id q (ingest_calls between x.0)) (sym same) known)
