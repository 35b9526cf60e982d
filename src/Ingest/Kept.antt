-- ===== src/Ingest/Kept.antt =====
-- What the body of ingest's loop leaves alone, and the loop.
use recordlane.Base.{
  ℕ, ◌+◌, String, ◌≡◌, ◌⊎◌, refl, sym, ap, ◌∙◌, inl, inr, false, Option, List, [], ◌∷◌, Bool-cases,
  Option-cases, if◌then◌else◌,
}
use recordlane.Http.{Result, ok, ◌>>=◌, >>=-ok, ok-eq, ok-err}
use recordlane.Policy.{Library, Floats, CompiledPolicy}
use recordlane.Mastering.{SourceObject, IncomingRecord}
use recordlane.Review.{Store, find_first}
use recordlane.Ingest.{Tables, Counts, Digests}
use recordlane.Ingest.Payload.{assign, get_or_create_source_object, is_object}
use recordlane.Ingest.Observe.{
  Filed, file_observation, settle_observation, resolve_object, retire_object, update_object,
  ingest_one,
}
use recordlane.Ingest.Frame.{
  Settled, assigned-Settled, retire_object-Settled, update_object-Settled, resolve_object-Settled,
}
use recordlane.Ingest.Page.{ingest_all}
use recordlane.Review.{find_first}
use recordlane.Mastering.{IncomingRecord}
use recordlane.Ingest.Payload.{is_version, same_payload, merged_values, failed}
use recordlane.Policy.Validate.{validate}
use recordlane.Ingest.Observe.{filing}

-- Tables with the sources, domains, runs, checkpoints and meta rows of before, and the records but
-- for the entity of one.
pub record Kept {F : Type 0} (id : ℕ) (s t : Tables F) : Type 0 where
  pub sources : t.store.sources ≡ s.store.sources
  pub domains : t.store.domains ≡ s.store.domains
  pub runs : t.runs ≡ s.runs
  pub checkpoints : t.checkpoints ≡ s.checkpoints
  pub metas : t.metas ≡ s.metas
  pub records :
      (t.store.records ≡ s.store.records)
      ⊎ ((entity_id : Option ℕ) × (t.store.records ≡ assign id entity_id s.store.records))

unchanged-Kept :
    {F : Type 0} {C : Type 0} (id : ℕ) (s : Tables F) (c : C) (x : Tables F × C)
    → ok (s, c) ≡ ok x
    → Kept id s x.0
unchanged-Kept id s c x e =
    let last = ap (λ (y : Tables _ × _). y.0) (sym (ok-eq e)) in
    record {
      sources = ap (λ t. t.store.sources) last;
      domains = ap (λ t. t.store.domains) last;
      runs = ap (λ t. t.runs) last;
      checkpoints = ap (λ t. t.checkpoints) last;
      metas = ap (λ t. t.metas) last;
      records = inl (ap (λ t. t.store.records) last);
    }

-- The store of the tables is settled.
Settled-Kept :
    {F : Type 0} {C : Type 0} (id : ℕ) (s : Tables F) (t : Store F) (c : C) (x : Tables F × C)
    → Settled id s.store t
    → ok (record s { store = t }, c) ≡ ok x
    → Kept id s x.0
Settled-Kept id s t c x settled e =
    let last = ap (λ (y : Tables _ × _). y.0) (sym (ok-eq e)) in
    record {
      sources = ap (λ t. t.store.sources) last ∙ settled.sources;
      domains = ap (λ t. t.store.domains) last ∙ settled.domains;
      runs = ap (λ t. t.runs) last;
      checkpoints = ap (λ t. t.checkpoints) last;
      metas = ap (λ t. t.metas) last;
      records = inr (settled.entity_id, ap (λ t. t.store.records) last ∙ settled.records);
    }

-- A step that settles the store, and then the tables with that store.
chain-Kept :
    {F M C : Type 0} (id : ℕ) (s : Tables F) (m : Result M) (store_of : M → Store F) (count : M → C)
    (x : Tables F × C)
    → ((y : M) → m ≡ ok y → Settled id s.store (store_of y))
    → (m >>= λ y. ok (record s { store = store_of y }, count y)) ≡ ok x
    → Kept id s x.0
chain-Kept id s m store_of count x settles e =
    let (y, f, g) = >>=-ok m _ x e in Settled-Kept id s (store_of y) (count y) x (settles y f) g

-- Tables with the sources, domains, runs and checkpoints of before.
pub record Steady {F : Type 0} (s t : Tables F) : Type 0 where
  pub sources : t.store.sources ≡ s.store.sources
  pub domains : t.store.domains ≡ s.store.domains
  pub runs : t.runs ≡ s.runs
  pub checkpoints : t.checkpoints ≡ s.checkpoints

Steady-trans : {F : Type 0} (s t u : Tables F) → Steady s t → Steady t u → Steady s u
Steady-trans s t u a b = record {
  sources = b.sources ∙ a.sources;
  domains = b.domains ∙ a.domains;
  runs = b.runs ∙ a.runs;
  checkpoints = b.checkpoints ∙ a.checkpoints;
}

Steady-same : {F : Type 0} (s t : Tables F) → t ≡ s → Steady s t
Steady-same s t e = record {
  sources = ap (λ t. t.store.sources) e;
  domains = ap (λ t. t.store.domains) e;
  runs = ap (λ t. t.runs) e;
  checkpoints = ap (λ t. t.checkpoints) e;
}

Kept-Steady : {F : Type 0} (id : ℕ) (s t : Tables F) → Kept id s t → Steady s t
Kept-Steady id s t k = record {
  sources = k.sources;
  domains = k.domains;
  runs = k.runs;
  checkpoints = k.checkpoints;
}

-- The store with an object for the local identifier, in the tables.
got-Steady :
    {F : Type 0} (now source_id : ℕ) (domain_key local_id : String) (tables : Tables F)
    → Steady tables (record tables {
      store = (get_or_create_source_object now source_id domain_key local_id tables.store).1;
    })
unfolding get_or_create_source_object
got-Steady now source_id domain_key local_id tables =
    elim (Option-cases
      (find_first (is_object source_id domain_key local_id) tables.store.objects)) [
        | inl n ↦
            rw (get_or_create_source_object, n)
              (record { sources = refl; domains = refl; runs = refl; checkpoints = refl })
        | inr (o, found) ↦
            rw (get_or_create_source_object, found)
              (record { sources = refl; domains = refl; runs = refl; checkpoints = refl })
      ]

module _ (lib : Library) (fl : Floats) (digests : Digests) (now : ℕ) (by : String) where
  open fl use {Float}

  -- What follows the filing of an observation, in the tables.
  settle_observation-Kept :
      (policy : CompiledPolicy Float) (item : IncomingRecord) (filed : Filed Float)
      (counts : Counts) (x : Tables Float × Counts)
      → settle_observation lib fl digests now by policy item filed counts ≡ ok x
      → Kept filed.observed.id filed.tables x.0
  unfolding settle_observation
  settle_observation-Kept policy item filed counts x e = elim (Bool-cases filed.quarantined) [
    | inl q ↦ unchanged-Kept filed.observed.id filed.tables _ x (rw (q, settle_observation) at e)
    | inr q ↦ elim (Bool-cases filed.is_current) [
      | inr late ↦
          Settled-Kept filed.observed.id filed.tables _
            (record counts {
              accepted = counts.accepted + 1;
              out_of_order = counts.out_of_order + 1;
            })
            x
            (assigned-Settled filed.observed.id filed.source_object.entity_id filed.tables.store _
              refl)
            (rw (q, late, settle_observation) at e)
      | inl current ↦ elim (Bool-cases item.deleted) [
        | inl gone ↦
            chain-Kept filed.observed.id filed.tables (retire_object lib fl digests now by filed)
              (λ t. t)
              (λ _. record counts { accepted = counts.accepted + 1; retired = counts.retired + 1 })
              x (retire_object-Settled lib fl digests now by filed)
              (rw (q, current, gone, settle_observation) at e)
        | inr live ↦ elim (Option-cases filed.source_object.entity_id) [
          | inl n ↦
              chain-Kept filed.observed.id filed.tables
                (resolve_object lib fl digests now by policy filed
                  (record counts { accepted = counts.accepted + 1 }))
                (λ y. y.0) (λ y. y.1) x
                (resolve_object-Settled lib fl digests now by policy filed _)
                (rw (q, current, live, settle_observation, n) at e)
          | inr (id, some_id) ↦
              chain-Kept filed.observed.id filed.tables
                (update_object lib fl digests now by id filed) (λ t. t)
                (λ _. record counts {
                  accepted = counts.accepted + 1;
                  updated = counts.updated + 1;
                })
                x (update_object-Settled lib fl digests now by id filed)
                (rw (q, current, live, settle_observation, some_id) at e)
        ]
      ]
    ]
  ]

  file_observation-Steady :
      (source_id : ℕ) (policy : CompiledPolicy Float) (domain_key : String) (o : SourceObject)
      (item : IncomingRecord) (tables : Tables Float) (filed : Filed Float)
      → file_observation lib fl digests now by source_id policy domain_key o item tables ≡ ok filed
      → Steady tables filed.tables
  unfolding file_observation
  file_observation-Steady source_id policy domain_key o item tables filed e =
      let values = merged_values o item tables.store.records in
      let (bad, f, g) =
        >>=-ok (if item.deleted then ok false else failed (validate lib policy.attributes values))
          (λ bad.
            ok (filing lib fl digests now by source_id policy domain_key o item values tables bad))
          filed e in
      let last = ap (λ (y : Filed Float). y.tables) (sym (ok-eq g)) in
      record {
        sources = ap (λ t. t.store.sources) last;
        domains = ap (λ t. t.store.domains) last;
        runs = ap (λ t. t.runs) last;
        checkpoints = ap (λ t. t.checkpoints) last;
      }

  ingest_one-Steady :
      (source_id : ℕ) (policy : CompiledPolicy Float) (domain_key : String) (item : IncomingRecord)
      (tables : Tables Float) (counts : Counts) (x : Tables Float × Counts)
      → ingest_one lib fl digests now by source_id policy domain_key item tables counts ≡ ok x
      → Steady tables x.0
  unfolding ingest_one
  ingest_one-Steady source_id policy domain_key item tables counts x e =
      let got = get_or_create_source_object now source_id domain_key item.local_id tables.store in
      let tables' = record tables { store = got.1 } in
      let first = got-Steady now source_id domain_key item.local_id tables in
      elim (Option-cases (find_first (is_version source_id domain_key item) tables.store.records)) [
        | inl n ↦
            let (filed, f, g) =
              >>=-ok
                (file_observation lib fl digests now by source_id policy domain_key got.0 item
                  tables')
                (λ filed. settle_observation lib fl digests now by policy item filed counts) x
                (rw (ingest_one, n) at e) in
            Steady-trans tables filed.tables x.0
              (Steady-trans tables tables' filed.tables first
                (file_observation-Steady source_id policy domain_key got.0 item tables' filed f))
              (Kept-Steady filed.observed.id filed.tables x.0
                (settle_observation-Kept policy item filed counts x g))
        | inr (r, found) ↦ elim (Bool-cases (same_payload digests item r tables.metas)) [
          | inl same ↦ Steady-trans tables tables' x.0 first (
              Steady-same tables' x.0
                (ap (λ y. y.0) (sym (ok-eq (rw (ingest_one, found, same) at e)))))
          | inr other ↦ absurd (ok-err (rw (ingest_one, found, other) at e))
        ]
      ]

  pub ingest_all-Steady :
      (roles : List String) (source_id : ℕ) (policy : CompiledPolicy Float) (domain_key : String)
      (items : List IncomingRecord) (tables : Tables Float) (counts : Counts)
      (x : Tables Float × Counts)
      → ingest_all lib fl digests now by roles source_id policy domain_key items tables counts
        ≡ ok x
      → Steady tables x.0
  unfolding ingest_all
  ingest_all-Steady roles source_id policy domain_key [] tables counts x e =
      Steady-same tables x.0 (ap (λ y. y.0) (sym (ok-eq e)))
  ingest_all-Steady roles source_id policy domain_key (item ∷ rest) tables counts x e =
      let (y, f, g) =
        >>=-ok (ingest_one lib fl digests now by source_id policy domain_key item tables counts)
          (λ y. ingest_all lib fl digests now by roles source_id policy domain_key rest y.0 y.1) x
          e in
      Steady-trans tables y.0 x.0
        (ingest_one-Steady source_id policy domain_key item tables counts y f)
        (ingest_all-Steady roles source_id policy domain_key rest y.0 y.1 x g)
