-- ===== src/Ingest/Balance.antt =====
-- What the counts of a page add up to.
use recordlane.Base.{
  ℕ, suc, ◌+◌, String, ◌≡◌, refl, ap, ◌∙◌, subst, inl, inr, List, [], ◌∷◌, arith, length,
  Bool-cases, Option-cases,
}
use recordlane.Http.{Result, ok, ◌>>=◌, >>=-ok, ok-eq, ok-err}
use recordlane.Policy.{Library, Floats, CompiledPolicy}
use recordlane.Mastering.{IncomingRecord}
use recordlane.Mastering.Resolve.{resolve, Resolution, linked, created, in_review}
use recordlane.Review.{Store, find_first}
use recordlane.Ingest.{Tables, Counts, Digests, IngestionRequest, given}
use recordlane.Ingest.Payload.{get_or_create_source_object, is_version, same_payload}
use recordlane.Ingest.Observe.{
  Filed, file_observation, settle_observation, resolve_object, retire_object, update_object,
  ingest_one, with_store, count_resolution, join_entity,
}
use recordlane.Ingest.Page.{
  ingest_all, zero_counts, work_records, PageAnswer, page_counts, seen_with, page_repeated, ingest,
}
use recordlane.Ingest.Frame.{Outcome-cases}
use recordlane.Ingest.Opened.{process_page-loop, ingest-processed}
use recordlane.Ingest.Missing.{missing_objects, length-work_records}

-- The outcomes that are counted beside `accepted` and `duplicate`.
abbrev pub outcomes : Counts → ℕ
outcomes c =
    c.quarantined + c.out_of_order + c.retired + c.updated + c.linked + c.review + c.created

-- One more accepted observation, and one more outcome.
record Counted (c d : Counts) : Type 0 where
  accepted : d.accepted ≡ suc c.accepted
  duplicate : d.duplicate ≡ c.duplicate
  outcome : outcomes d ≡ suc (outcomes c)

-- The counts after some observations.
record Balance (k : ℕ) (c d : Counts) : Type 0 where
  total : d.accepted + d.duplicate ≡ k + (c.accepted + c.duplicate)
  outcome : d.accepted + outcomes c ≡ outcomes d + c.accepted

-- The counts of a chain are those of its last step.
pub chain-count :
    {T M : Type 0} (m : Result M) (tables_of : M → T) (count : M → Counts) (x : T × Counts)
    → (m >>= λ y. ok (tables_of y, count y)) ≡ ok x
    → (y : M) × (m ≡ ok y) × (count y ≡ x.1)
chain-count m tables_of count x e =
    let (y, f, g) = >>=-ok m (λ y. ok (tables_of y, count y)) x e in (y, f, ap (λ z. z.1) (ok-eq g))

page_counts-eq : {c d : Counts} → page_counts c ≡ page_counts d → c ≡ d
page_counts-eq {c} e =
    let value : PageAnswer → Counts = λ a. elim a [ page_repeated ↦ c | page_counts x ↦ x ] in
    ap value e

module _ (lib : Library) (fl : Floats) (digests : Digests) (now : ℕ) (by : String) where
  open fl use {Float}

  count_resolution-Counted :
      (r : Resolution Float) (c : Counts)
      → Counted c
          (count_resolution lib fl digests now by r (record c { accepted = c.accepted + 1 }))
  count_resolution-Counted linked c = record {
    accepted = omega arith;
    duplicate = refl;
    outcome = omega arith;
  }
  count_resolution-Counted created c = record {
    accepted = omega arith;
    duplicate = refl;
    outcome = omega arith;
  }
  count_resolution-Counted (in_review t) c = record {
    accepted = omega arith;
    duplicate = refl;
    outcome = omega arith;
  }

  -- The counts of an object that is resolved are those of its resolution.
  pub resolve_object-count :
      (policy : CompiledPolicy Float) (filed : Filed Float) (c : Counts) (x : Store Float × Counts)
      → resolve_object lib fl digests now by policy filed c ≡ ok x
      → (r : Resolution Float) × (count_resolution lib fl digests now by r c ≡ x.1)
  unfolding resolve_object
  resolve_object-count policy filed c x e =
      let store = filed.tables.store in
      let outcome =
        resolve lib fl policy store.cannot_links store.objects store.records filed.observed
          filed.source_object store.next (digests.stable_key filed.observed) filed.block_keys
          filed.tables.blocks store.entities in
      elim (Outcome-cases outcome) [
        | inl (inl o) ↦ absurd (ok-err (rw (resolve_object, o) at e))
        | inl (inr o) ↦ absurd (ok-err (rw (resolve_object, o) at e))
        | inr (id, resolution, entities, o) ↦
            let (t, f, g) =
              chain-count
                (join_entity lib fl digests now by filed id resolution entities
                  (record store { next = suc store.next }))
                (λ t. t) (λ _. count_resolution lib fl digests now by resolution c) x
                (rw (resolve_object, o) at e) in
            (resolution, g)
      ]

  settle_observation-Counted :
      (policy : CompiledPolicy Float) (item : IncomingRecord) (filed : Filed Float) (c : Counts)
      (x : Tables Float × Counts)
      → settle_observation lib fl digests now by policy item filed c ≡ ok x
      → Counted c x.1
  unfolding settle_observation
  settle_observation-Counted policy item filed c x e =
      let one = record c { accepted = c.accepted + 1 } in
      elim (Bool-cases filed.quarantined) [
        | inl q ↦
            let h : record one { quarantined = c.quarantined + 1 } ≡ x.1 =
              ap (λ y. y.1) (ok-eq (rw (q, settle_observation) at e)) in
            subst (Counted c) h
              (record { accepted = omega arith; duplicate = refl; outcome = omega arith })
        | inr q ↦ elim (Bool-cases filed.is_current) [
          | inr late ↦
              let h : record one { out_of_order = c.out_of_order + 1 } ≡ x.1 =
                ap (λ y. y.1) (ok-eq (rw (q, late, settle_observation) at e)) in
              subst (Counted c) h
                (record { accepted = omega arith; duplicate = refl; outcome = omega arith })
          | inl current ↦ elim (Bool-cases item.deleted) [
            | inl gone ↦
                let (_, _, h) =
                  chain-count (retire_object lib fl digests now by filed)
                    (λ t. with_store lib fl digests now by filed t)
                    (λ _. record one { retired = c.retired + 1 }) x
                    (rw (q, current, gone, settle_observation) at e) in
                subst (Counted c) h
                  (record { accepted = omega arith; duplicate = refl; outcome = omega arith })
            | inr live ↦ elim (Option-cases filed.source_object.entity_id) [
              | inl n ↦
                  let (y, f, h) =
                    chain-count (resolve_object lib fl digests now by policy filed one)
                      (λ y. with_store lib fl digests now by filed y.0) (λ y. y.1) x
                      (rw (q, current, live, settle_observation, n) at e) in
                  let (r, g) = resolve_object-count policy filed one y f in
                  subst (Counted c) (g ∙ h) (count_resolution-Counted r c)
              | inr (id, some_id) ↦
                  let (_, _, h) =
                    chain-count (update_object lib fl digests now by id filed)
                      (λ t. with_store lib fl digests now by filed t)
                      (λ _. record one { updated = c.updated + 1 }) x
                      (rw (q, current, live, settle_observation, some_id) at e) in
                  subst (Counted c) h
                    (record { accepted = omega arith; duplicate = refl; outcome = omega arith })
            ]
          ]
        ]
      ]

  ingest_one-Balance :
      (source_id : ℕ) (policy : CompiledPolicy Float) (domain_key : String) (item : IncomingRecord)
      (tables : Tables Float) (c : Counts) (x : Tables Float × Counts)
      → ingest_one lib fl digests now by source_id policy domain_key item tables c ≡ ok x
      → Balance 1 c x.1
  unfolding ingest_one
  ingest_one-Balance source_id policy domain_key item tables c x e =
      let got = get_or_create_source_object now source_id domain_key item.local_id tables.store in
      let tables' = record tables { store = got.1 } in
      elim (Option-cases (find_first (is_version source_id domain_key item) tables.store.records)) [
        | inl n ↦
            let (filed, f, g) =
              >>=-ok
                (file_observation lib fl digests now by source_id policy domain_key got.0 item
                  tables')
                (λ filed. settle_observation lib fl digests now by policy item filed c) x
                (rw (ingest_one, n) at e) in
            let counted = settle_observation-Counted policy item filed c x g in
            record {
              total = omega (arith, counted.accepted, counted.duplicate);
              outcome = omega (arith, counted.accepted, counted.outcome);
            }
        | inr (r, found) ↦ elim (Bool-cases (same_payload digests item r tables.metas)) [
          | inl same ↦
              let h : record c { duplicate = c.duplicate + 1 } ≡ x.1 =
                ap (λ y. y.1) (ok-eq (rw (ingest_one, found, same) at e)) in
              subst (Balance 1 c) h (record { total = omega arith; outcome = omega arith })
          | inr other ↦ absurd (ok-err (rw (ingest_one, found, other) at e))
        ]
      ]

  module _ (roles : List String) where
    ingest_all-Balance :
        (source_id : ℕ) (policy : CompiledPolicy Float) (domain_key : String)
        (items : List IncomingRecord) (tables : Tables Float) (c : Counts)
        (x : Tables Float × Counts)
        → ingest_all lib fl digests now by roles source_id policy domain_key items tables c ≡ ok x
        → Balance (length items) c x.1
    unfolding ingest_all
    ingest_all-Balance source_id policy domain_key [] tables c x e =
        let h : c ≡ x.1 = ap (λ y. y.1) (ok-eq e) in
        subst (Balance 0 c) h (record { total = omega arith; outcome = omega arith })
    ingest_all-Balance source_id policy domain_key (item ∷ rest) tables c x e =
        let (y, f, g) =
          >>=-ok (ingest_one lib fl digests now by source_id policy domain_key item tables c)
            (λ y. ingest_all lib fl digests now by roles source_id policy domain_key rest y.0 y.1) x
            e in
        let one = ingest_one-Balance source_id policy domain_key item tables c y f in
        let others = ingest_all-Balance source_id policy domain_key rest y.0 y.1 x g in
        record {
          total = omega (arith, one.total, others.total);
          outcome = omega (arith, one.outcome, others.outcome);
        }

    -- When a page is ingested with counts, the accepted observations are those that were
    -- quarantined, out of order, retired, updated, linked, sent to review or made a new entity, and
    -- the accepted and the repeated ones together are all of the page and the missing objects of a
    -- complete snapshot: the objects of its source and domain that are not retired and that neither
    -- the run so far nor the page has as live.
    pub counts_balance :
        (q : IngestionRequest) (tables t : Tables Float) (c : Counts)
        → ingest lib fl digests now by roles q tables ≡ ok (t, page_counts c)
        → (c.accepted ≡ outcomes c)
          × (c.accepted + c.duplicate ≡ length q.records + missing_objects q tables)
    counts_balance q tables t c e =
        let (source, domain, run, found, is_run_of, e1) =
          ingest-processed lib fl digests now by roles q tables t c e in
        let (y, f, g) =
          process_page-loop lib fl digests now by roles source domain q run tables
            (t, page_counts c) e1 in
        let items =
          work_records source.id q (given q.run_id) (seen_with q run) tables.store.objects in
        let balance =
          ingest_all-Balance source.id domain.definition q.domain_key items tables zero_counts y
            f in
        let same : y.1 ≡ c = page_counts-eq (ap (λ z. z.1) g) in
        let more = length-work_records q tables source run found is_run_of in
        let total : c.accepted + c.duplicate ≡ length items + 0 =
          subst (λ d. d.accepted + d.duplicate ≡ length items + 0) same balance.total in
        let outcome : c.accepted + 0 ≡ outcomes c + 0 =
          subst (λ d. d.accepted + 0 ≡ outcomes d + 0) same balance.outcome in
        (omega (arith, outcome), omega (arith, total, more))
