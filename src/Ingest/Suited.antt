-- ===== src/Ingest/Suited.antt =====
-- The run that a page belongs to.
use recordlane.Base.{
  ℕ, String, ◌≡◌, ◌⊎◌, ◌∙◌, refl, sym, ap, subst, inl, inr, true, not, ◌&&◌, none, some, some-eq,
  List, [], ◌∷◌, arith, str_eq_iff, Bool-cases, Option-cases, has_text,
}
use recordlane.Http.{ok, >>=-ok, ok-eq, ok-err, required, raise_if}
use recordlane.Ingest.{
  ExtractionMode, full_extraction, delta, IngestionRun, IngestionRequest, given,
}
use recordlane.Ingest.Runs.{
  is_run, find_run, same_mode, is_full, continue_run, open_run, Opening, duplicate_page, next_page,
  hand_off, find_handoff, page_key, new_run, is_start, is_empty_list, same_text,
}
use recordlane.Ingest.Page.{write_run}

pub is_run-key :
    (source_id : ℕ) (domain_key external_id : String) (r : IngestionRun)
    → is_run source_id domain_key external_id r ≡ true
    → (r.source_id ≡ source_id) × (r.domain_key ≡ domain_key) × (r.external_id ≡ external_id)
is_run-key source_id domain_key external_id r e =
    ground (arith, str_eq_iff r.domain_key domain_key, str_eq_iff r.external_id external_id)

is_run_self : (r : IngestionRun) → is_run r.source_id r.domain_key r.external_id r ≡ true
is_run_self r =
    ground (arith, str_eq_iff r.domain_key r.domain_key, str_eq_iff r.external_id r.external_id)

find_run-is_run :
    (source_id : ℕ) (domain_key external_id : String) (runs : List IngestionRun) (r : IngestionRun)
    → find_run source_id domain_key external_id runs ≡ some r
    → is_run source_id domain_key external_id r ≡ true
find_run-is_run source_id domain_key external_id [] r e = ground arith
find_run-is_run source_id domain_key external_id (s ∷ rest) r e =
    elim (Bool-cases (is_run source_id domain_key external_id s)) [
      | inl q ↦
          subst (λ x. is_run source_id domain_key external_id x ≡ true) (some-eq (rw q at e)) q
      | inr q ↦ find_run-is_run source_id domain_key external_id rest r (rw q at e)
    ]

pub find_run-write_run :
    (f : IngestionRun) (runs : List IngestionRun)
    → find_run f.source_id f.domain_key f.external_id (write_run f runs) ≡ some f
find_run-write_run f [] = rw (is_run_self f) refl
find_run-write_run f (s ∷ rest) =
    elim (Bool-cases (is_run f.source_id f.domain_key f.external_id s)) [
      | inl q ↦ rw (q, is_run_self f) refl
      | inr q ↦ rw (q, q) (find_run-write_run f rest)
    ]

-- A run that the pages of the request's run are part of.
pub record Suits (source_id : ℕ) (run_id : String) (q : IngestionRequest) (r : IngestionRun)
    : Type 0 where
  pub key : is_run source_id q.domain_key run_id r ≡ true
  pub mode : same_mode r.extraction_mode q.extraction_mode ≡ true

same_mode_self : (m : ExtractionMode) → same_mode m m ≡ true
same_mode_self full_extraction = refl
same_mode_self delta = refl

next_page-eq : (r s : IngestionRun) → next_page r ≡ next_page s → r ≡ s
next_page-eq r s e =
    let value : Opening → IngestionRun = λ o. elim o [ duplicate_page x ↦ x | next_page x ↦ x ] in
    ap value e

-- A run of the same mode goes on.
continue_run-next :
    (q : IngestionRequest) (s r : IngestionRun)
    → continue_run q s ≡ ok (next_page r)
    → (s ≡ r) × (same_mode s.extraction_mode q.extraction_mode ≡ true)
unfolding continue_run
continue_run-next q s r e = elim (Bool-cases (same_mode s.extraction_mode q.extraction_mode)) [
  | inr other ↦ absurd (ok-err (rw (other, continue_run) at e))
  | inl same ↦ elim (Bool-cases (has_text (page_key q) s.processed_cursors)) [
    | inl seen ↦
        let h : ok (duplicate_page s) ≡ ok (next_page r) = rw (same, continue_run, seen) at e in
        ground (arith, ok-eq h)
    | inr new ↦
        let (_, f, g) =
          >>=-ok
            (raise_if
              (not (is_empty_list s.processed_cursors)
                && not (same_text q.page_cursor s.next_cursor))
              409 "ingestion_cursor_mismatch")
            (λ _. ok (next_page s)) (next_page r) (rw (same, continue_run, new) at e) in
        (next_page-eq s r (ok-eq g), same)
  ]
]

-- A run that a page opens is the one that is found, or new.
pub open_run-found :
    (source_id : ℕ) (run_id : String) (q : IngestionRequest) (runs : List IngestionRun)
    (r : IngestionRun)
    → open_run source_id run_id q runs ≡ ok (next_page r)
    → (find_run source_id q.domain_key run_id runs ≡ some r)
      ⊎ ((find_run source_id q.domain_key run_id runs ≡ none) × (r ≡ new_run source_id run_id q))
unfolding open_run continue_run
open_run-found source_id run_id q runs r e =
    elim (Option-cases (find_run source_id q.domain_key run_id runs)) [
      | inl n ↦
          let (_, f, g) =
            >>=-ok (raise_if (not (is_start q.page_cursor)) 409 "ingestion_run_not_started")
              (λ _. ok (next_page (new_run source_id run_id q))) (next_page r)
              (rw (open_run, n) at e) in
          inr (n, sym (next_page-eq (new_run source_id run_id q) r (ok-eq g)))
      | inr (s, found) ↦
          let (same, _) = continue_run-next q s r (rw (open_run, found) at e) in
          inl (found ∙ ap some same)
    ]

-- A handoff sets nothing but the position of the snapshot.
pub hand_off-position :
    (source_id : ℕ) (q : IngestionRequest) (r : IngestionRun) (runs : List IngestionRun)
    (s : IngestionRun)
    → hand_off source_id q r runs ≡ ok s
    → s ≡ record r { snapshot_position = s.snapshot_position }
unfolding hand_off
hand_off-position source_id q r runs s e = elim (Option-cases (given q.handoff_from)) [
  | inl n ↦
      let same : r ≡ s = ok-eq (rw (hand_off, n) at e) in
      subst (λ x. x ≡ record r { snapshot_position = x.snapshot_position }) same refl
  | inr (parent_id, given_id) ↦ elim (Bool-cases (is_full q.extraction_mode)) [
    | inl full ↦ absurd (ok-err (rw (hand_off, given_id, full) at e))
    | inr other ↦
        let (parent, f, g) =
          >>=-ok
            (required (find_handoff source_id q.domain_key parent_id runs) 409
              "snapshot_handoff_not_ready")
            (λ p. ok (record r { snapshot_position = p.snapshot_position })) s
            (rw (hand_off, given_id, other) at e) in
        subst (λ x. x ≡ record r { snapshot_position = x.snapshot_position }) (ok-eq g) refl
  ]
]

pub open_run-Suits :
    (source_id : ℕ) (run_id : String) (q : IngestionRequest) (runs : List IngestionRun)
    (r : IngestionRun)
    → open_run source_id run_id q runs ≡ ok (next_page r)
    → Suits source_id run_id q r
unfolding open_run continue_run
open_run-Suits source_id run_id q runs r e =
    elim (Option-cases (find_run source_id q.domain_key run_id runs)) [
      | inl n ↦
          let (_, f, g) =
            >>=-ok (raise_if (not (is_start q.page_cursor)) 409 "ingestion_run_not_started")
              (λ _. ok (next_page (new_run source_id run_id q))) (next_page r)
              (rw (open_run, n) at e) in
          let same = next_page-eq (new_run source_id run_id q) r (ok-eq g) in
          subst (Suits source_id run_id q) same (record {
            key = is_run_self (new_run source_id run_id q);
            mode = same_mode_self q.extraction_mode;
          })
      | inr (s, found) ↦
          let (same, mode) = continue_run-next q s r (rw (open_run, found) at e) in
          subst (Suits source_id run_id q) same (record {
            key = find_run-is_run source_id q.domain_key run_id runs s found;
            mode = mode;
          })
    ]

pub hand_off-Suits :
    (source_id : ℕ) (run_id : String) (q : IngestionRequest) (r : IngestionRun)
    (runs : List IngestionRun) (s : IngestionRun)
    → hand_off source_id q r runs ≡ ok s
    → Suits source_id run_id q r
    → Suits source_id run_id q s
unfolding hand_off
hand_off-Suits source_id run_id q r runs s e suits = elim (Option-cases (given q.handoff_from)) [
  | inl n ↦ subst (Suits source_id run_id q) (ok-eq (rw (hand_off, n) at e)) suits
  | inr (parent_id, given_id) ↦ elim (Bool-cases (is_full q.extraction_mode)) [
    | inl full ↦ absurd (ok-err (rw (hand_off, given_id, full) at e))
    | inr other ↦
        let (parent, f, g) =
          >>=-ok
            (required (find_handoff source_id q.domain_key parent_id runs) 409
              "snapshot_handoff_not_ready")
            (λ p. ok (record r { snapshot_position = p.snapshot_position })) s
            (rw (hand_off, given_id, other) at e) in
        subst (Suits source_id run_id q) (ok-eq g) (record { key = suits.key; mode = suits.mode })
  ]
]
