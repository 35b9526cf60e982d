-- ===== src/Ingest/Processed.antt =====
-- The pages that a run has processed, and what later pages leave of them.
use recordlane.Base.{
  ℕ, String, ◌≡◌, ◌∙◌, refl, sym, ap, inl, inr, true, not, ◌&&◌, if◌then◌else◌, some, some-eq, List,
  [], ◌∷◌, arith, str_eq_iff, Bool-cases, Option-cases, has_text, has_text-append,
}
use recordlane.Http.{ok, >>=-ok, ok-eq, ok-err, raise_if}
use recordlane.Ingest.{Counts, IngestionRun, IngestionRequest}
use recordlane.Ingest.Runs.{
  is_run, find_run, same_mode, continue_run, open_run, duplicate_page, next_page, hand_off,
  page_key, new_run, is_start, is_empty_list, same_text,
}
use recordlane.Ingest.Page.{write_run, finish_page}
use recordlane.Ingest.Suited.{
  Suits, is_run-key, find_run-write_run, open_run-found, hand_off-position, open_run-Suits,
  hand_off-Suits,
}

-- The page is among those that its run has processed.
pub record IsProcessed (source_id : ℕ) (run_id : String) (q : IngestionRequest)
    (runs : List IngestionRun) : Type 0 where
  pub run : IngestionRun
  pub found : find_run source_id q.domain_key run_id runs ≡ some run
  pub mode : same_mode run.extraction_mode q.extraction_mode ≡ true
  pub known : has_text (page_key q) run.processed_cursors ≡ true

-- A run that is opened as that of a repeated page has processed it.
pub open_run-IsProcessed :
    (source_id : ℕ) (run_id : String) (q : IngestionRequest) (runs : List IngestionRun)
    (r : IngestionRun)
    → open_run source_id run_id q runs ≡ ok (duplicate_page r)
    → IsProcessed source_id run_id q runs
unfolding open_run continue_run
open_run-IsProcessed source_id run_id q runs r e =
    elim (Option-cases (find_run source_id q.domain_key run_id runs)) [
      | inl n ↦
          let (_, f, g) =
            >>=-ok (raise_if (not (is_start q.page_cursor)) 409 "ingestion_run_not_started")
              (λ _. ok (next_page (new_run source_id run_id q))) (duplicate_page r)
              (rw (open_run, n) at e) in
          let same = ok-eq g in ground arith
      | inr (s, found) ↦ elim (Bool-cases (same_mode s.extraction_mode q.extraction_mode)) [
        | inr other ↦ absurd (ok-err (rw (open_run, found, other, continue_run) at e))
        | inl mode ↦ elim (Bool-cases (has_text (page_key q) s.processed_cursors)) [
          | inl known ↦ record { run = s; found = found; mode = mode; known = known }
          | inr new ↦
              let (_, f, g) =
                >>=-ok
                  (raise_if
                    (not (is_empty_list s.processed_cursors)
                      && not (same_text q.page_cursor s.next_cursor))
                    409 "ingestion_cursor_mismatch")
                  (λ _. ok (next_page s)) (duplicate_page r)
                  (rw (open_run, found, mode, continue_run, new) at e) in
              let same = ok-eq g in ground arith
        ]
      ]
    ]

-- Its run is opened as that of a repeated page.
pub open_again :
    (source_id : ℕ) (run_id : String) (q : IngestionRequest) (runs : List IngestionRun)
    → (p : IsProcessed source_id run_id q runs)
    → open_run source_id run_id q runs ≡ ok (duplicate_page p.run)
unfolding open_run continue_run
open_again source_id run_id q runs p = rw (open_run, p.found, p.mode, p.known) refl

pub finish_page-IsProcessed :
    (source_id : ℕ) (run_id : String) (q : IngestionRequest) (seen : List String) (c : Counts)
    (r : IngestionRun) (runs : List IngestionRun)
    → Suits source_id run_id q r
    → IsProcessed source_id run_id q (write_run (finish_page q seen c r) runs)
finish_page-IsProcessed source_id run_id q seen c r runs suits =
    let f = finish_page q seen c r in
    let (a, b, d) = is_run-key source_id q.domain_key run_id r suits.key in
    record {
      run = f;
      found = rw (← a, ← b, ← d) (find_run-write_run f runs);
      mode = suits.mode;
      known = ground (
        arith,
        has_text-append (page_key q) r.processed_cursors (page_key q ∷ []),
        str_eq_iff (page_key q) (page_key q),
      );
    }

-- Rows of one key are found alike.
is_run-same :
    (a : ℕ) (b d : String) (f s : IngestionRun)
    → is_run f.source_id f.domain_key f.external_id s ≡ true
    → is_run a b d s ≡ is_run a b d f
is_run-same a b d f s e =
    let (x, y, z) = is_run-key f.source_id f.domain_key f.external_id s e in rw (x, y, z) refl

is_run-both :
    (a : ℕ) (b d : String) (f s : IngestionRun)
    → is_run a b d s ≡ true
    → is_run a b d f ≡ true
    → is_run f.source_id f.domain_key f.external_id s ≡ true
is_run-both a b d f s p q = let (x, y, z) = is_run-key a b d f q in rw (x, y, z) p

-- After a run is written, it is found by its key, and the other runs as before.
pub find_run-write_run_lem :
    (a : ℕ) (b d : String) (f : IngestionRun) (runs : List IngestionRun)
    → find_run a b d (write_run f runs) ≡ (if is_run a b d f then some f else find_run a b d runs)
find_run-write_run_lem a b d f [] = refl
find_run-write_run_lem a b d f (s ∷ rest) =
    elim (Bool-cases (is_run f.source_id f.domain_key f.external_id s)) [
      | inl q ↦ elim (Bool-cases (is_run a b d f)) [
        | inl p ↦ rw (q, p) refl
        | inr p ↦ rw (q, p, is_run-same a b d f s q ∙ p) refl
      ]
      | inr q ↦ elim (Bool-cases (is_run a b d s)) [
        | inl p ↦ elim (Bool-cases (is_run a b d f)) [
          | inl h ↦ let twice = is_run-both a b d f s p h in ground (arith, twice, q)
          | inr h ↦ rw (q, p, h) refl
        ]
        | inr p ↦ rw (q, p) (find_run-write_run_lem a b d f rest)
      ]
    ]

-- A page of any run leaves a page processed that was.
pub write_run-IsProcessed :
    (source_id other_id : ℕ) (run_id other_run : String) (q later : IngestionRequest)
    (seen : List String) (c : Counts) (r r' : IngestionRun) (runs : List IngestionRun)
    → IsProcessed source_id run_id q runs
    → open_run other_id other_run later runs ≡ ok (next_page r)
    → hand_off other_id later r runs ≡ ok r'
    → IsProcessed source_id run_id q (write_run (finish_page later seen c r') runs)
write_run-IsProcessed source_id other_id run_id other_run q later seen c r r' runs p opened handed =
    let f = finish_page later seen c r' in
    let written = find_run-write_run_lem source_id q.domain_key run_id f runs in
    elim (Bool-cases (is_run source_id q.domain_key run_id f)) [
      | inr other ↦ record {
        run = p.run;
        found = written ∙ rw other p.found;
        mode = p.mode;
        known = p.known;
      }
      | inl same ↦
          let suits =
            hand_off-Suits other_id other_run later r runs r' handed
              (open_run-Suits other_id other_run later runs r opened) in
          let (x, y, z) = is_run-key other_id later.domain_key other_run r' suits.key in
          let (x', y', z') = is_run-key source_id q.domain_key run_id f same in
          let held : find_run other_id later.domain_key other_run runs ≡ some p.run =
            rw (← x, ← y, ← z, x', y', z') p.found in
          let kept = hand_off-position other_id later r runs r' handed in
          elim (open_run-found other_id other_run later runs r opened) [
            | inr (n, _) ↦ ground (arith, n, held)
            | inl found ↦
                let one : r ≡ p.run = some-eq (sym found ∙ held) in
                let modes : r'.extraction_mode ≡ p.run.extraction_mode =
                  ap (λ t. t.extraction_mode) kept ∙ ap (λ t. t.extraction_mode) one in
                let cursors : r'.processed_cursors ≡ p.run.processed_cursors =
                  ap (λ t. t.processed_cursors) kept ∙ ap (λ t. t.processed_cursors) one in
                record {
                  run = f;
                  found = written ∙ rw same refl;
                  mode = rw modes p.mode;
                  known =
                      has_text-append (page_key q) r'.processed_cursors (page_key later ∷ [])
                      ∙ rw (cursors, p.known) refl;
                }
          ]
    ]
