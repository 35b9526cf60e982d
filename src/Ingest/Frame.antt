-- ===== src/Ingest/Frame.antt =====
-- What the parts of the body of ingest's loop leave alone in the store of the review component.
use recordlane.Base.{
  ℕ, suc, String, ◌≡◌, ◌⊎◌, refl, sym, ap, ◌∙◌, inl, inr, Option, some, List, str_eq, Option-cases,
}
use recordlane.Http.{ok, ◌>>=◌, >>=-ok, ok-eq, ok-err, required}
use recordlane.Policy.{Library, Floats, CompiledPolicy}
use recordlane.Mastering.{Entity}
use recordlane.Mastering.Survivor.{master_values}
use recordlane.Mastering.Resolve.{
  find_entity, bump, resolve, Outcome, candidate_block_overflow, missing_entity, resolved,
  Resolution,
}
use recordlane.Review.{Store, find_first}
use recordlane.Review.Draft.{draft}
use recordlane.Review.Merge.{redraft}
use recordlane.Ingest.{Counts, Digests}
use recordlane.Ingest.Payload.{assign}
use recordlane.Ingest.Observe.{
  Filed, join_entity, resolve_object, retire_object, update_object, joined_store, count_resolution,
}

-- Two stores with the same sources, domains and records.
pub record Same {F : Type 0} (s t : Store F) : Type 0 where
  pub sources : t.sources ≡ s.sources
  pub domains : t.domains ≡ s.domains
  pub records : t.records ≡ s.records

draft-Same :
    {F : Type 0} (entity : Entity) (store : Store F) (x : Store F × ℕ)
    → draft entity store ≡ ok x
    → Same store x.0
unfolding draft
draft-Same entity store x e =
    let (domain, _, f) =
      >>=-ok
        (required (find_first (λ d. str_eq d.key entity.domain_key) store.domains) 409
          "entity_domain_missing")
        _ _ e in
    let policy = domain.definition in
    let (master, _, g) =
      >>=-ok
        (required
          (master_values policy.survivorship policy.version policy.checksum store.sources
            store.records store.objects entity.id)
          500 "AttributeError")
        _ _ f in
    let same = sym (ok-eq g) in
    record {
      sources = ap (λ y. y.0.sources) same;
      domains = ap (λ y. y.0.domains) same;
      records = ap (λ y. y.0.records) same;
    }

drafted-Same :
    {F : Type 0} (entity : Entity) (store t : Store F)
    → (draft entity store >>= λ d. ok d.0) ≡ ok t
    → Same store t
drafted-Same entity store t e =
    let (drafted, g, h) = >>=-ok (draft entity store) _ t e in
    let same = draft-Same entity store drafted g in
    let last = sym (ok-eq h) in
    record {
      sources = ap (λ s. s.sources) last ∙ same.sources;
      domains = ap (λ s. s.domains) last ∙ same.domains;
      records = ap (λ s. s.records) last ∙ same.records;
    }

redraft-Same :
    {F : Type 0} (id : ℕ) (store : Store F) (x : Store F × ℕ)
    → redraft id store ≡ ok x
    → Same store x.0
unfolding redraft
redraft-Same id store x e =
    let bumped = record store { entities = bump id store.entities } in
    let (entity, _, f) =
      >>=-ok (required (find_entity id bumped.entities) 409 "entity_missing") _ _ e in
    let same = draft-Same entity bumped x f in
    record { sources = same.sources; domains = same.domains; records = same.records }

-- The store after the observation is settled: the sources and the domains of before, and the
-- records but for the entity of the observed one.
pub record Settled {F : Type 0} (id : ℕ) (s t : Store F) : Type 0 where
  pub entity_id : Option ℕ
  pub sources : t.sources ≡ s.sources
  pub domains : t.domains ≡ s.domains
  pub records : t.records ≡ assign id entity_id s.records

-- A new draft of an entity after the observed record is assigned.
pub redrafted-Settled :
    {F : Type 0} (record_id : ℕ) (entity_id : Option ℕ) (id : ℕ) (s t : Store F)
    → (redraft id (record s { records = assign record_id entity_id s.records }) >>= λ x. ok x.0)
      ≡ ok t
    → Settled record_id s t
redrafted-Settled record_id entity_id id s t e =
    let (x, f, g) = >>=-ok (redraft id _) _ t e in
    let same = redraft-Same id _ x f in
    let last = sym (ok-eq g) in
    record {
      entity_id = entity_id;
      sources = ap (λ s. s.sources) last ∙ same.sources;
      domains = ap (λ s. s.domains) last ∙ same.domains;
      records = ap (λ s. s.records) last ∙ same.records;
    }

-- Only the record is assigned.
pub assigned-Settled :
    {F : Type 0} (record_id : ℕ) (entity_id : Option ℕ) (s t : Store F)
    → ok (record s { records = assign record_id entity_id s.records }) ≡ ok t
    → Settled record_id s t
assigned-Settled record_id entity_id s t e =
    let last = sym (ok-eq e) in
    record {
      entity_id = entity_id;
      sources = ap (λ s. s.sources) last;
      domains = ap (λ s. s.domains) last;
      records = ap (λ s. s.records) last;
    }

pub Outcome-cases :
    {F : Type 0} (o : Outcome F)
    → ((o ≡ candidate_block_overflow) ⊎ (o ≡ missing_entity))
      ⊎ ((id : ℕ) × (r : Resolution F) × (entities : List Entity) × (o ≡ resolved id r entities))
Outcome-cases candidate_block_overflow = inl (inl refl)
Outcome-cases missing_entity = inl (inr refl)
Outcome-cases (resolved id r entities) = inr (id, r, entities, refl)

module _ (lib : Library) (fl : Floats) (digests : Digests) (now : ℕ) (by : String) where
  open fl use {Float}

  join_entity-Settled :
      (filed : Filed Float) (entity_id : ℕ) (resolution : Resolution Float) (entities : List Entity)
      (store t : Store Float)
      → join_entity lib fl digests now by filed entity_id resolution entities store ≡ ok t
      → Settled filed.observed.id store t
  unfolding join_entity
  join_entity-Settled filed entity_id resolution entities store t e =
      let (entity, _, f) =
        >>=-ok (required (find_entity entity_id entities) 500 "AttributeError") _ _ e in
      let same =
        drafted-Same entity
          (joined_store lib fl digests now by filed entity_id resolution entities store) t f in
      record {
        entity_id = some entity_id;
        sources = same.sources;
        domains = same.domains;
        records = same.records;
      }

  pub retire_object-Settled :
      (filed : Filed Float) (t : Store Float)
      → retire_object lib fl digests now by filed ≡ ok t
      → Settled filed.observed.id filed.tables.store t
  unfolding retire_object
  retire_object-Settled filed t e = elim (Option-cases filed.source_object.entity_id) [
    | inl n ↦ assigned-Settled filed.observed.id _ filed.tables.store t (rw n at e)
    | inr (id, some_id) ↦ elim (Option-cases (find_entity id filed.tables.store.entities)) [
      | inl n ↦
          assigned-Settled filed.observed.id _ filed.tables.store t
            (rw (some_id, retire_object, n) at e)
      | inr (entity, found) ↦
          redrafted-Settled filed.observed.id _ id filed.tables.store t
            (rw (some_id, retire_object, found) at e)
    ]
  ]

  pub update_object-Settled :
      (id : ℕ) (filed : Filed Float) (t : Store Float)
      → update_object lib fl digests now by id filed ≡ ok t
      → Settled filed.observed.id filed.tables.store t
  unfolding update_object
  update_object-Settled id filed t e =
      let (entity, _, f) =
        >>=-ok
          (required (find_entity id filed.tables.store.entities) 409
            "source_membership_entity_missing")
          _ _ e in
      redrafted-Settled filed.observed.id (some id) id filed.tables.store t f

  pub resolve_object-Settled :
      (policy : CompiledPolicy Float) (filed : Filed Float) (counts : Counts)
      (x : Store Float × Counts)
      → resolve_object lib fl digests now by policy filed counts ≡ ok x
      → Settled filed.observed.id filed.tables.store x.0
  unfolding resolve_object
  resolve_object-Settled policy filed counts x e =
      let store = filed.tables.store in
      let outcome =
        resolve lib fl policy store.cannot_links store.objects store.records filed.observed
          filed.source_object store.next (digests.stable_key filed.observed) filed.block_keys
          filed.tables.blocks store.entities in
      elim (Outcome-cases outcome) [
        | inl (inl o) ↦ absurd (ok-err (rw (resolve_object, o) at e))
        | inl (inr o) ↦ absurd (ok-err (rw (resolve_object, o) at e))
        | inr (id, resolution, entities, o) ↦
            let numbered = record store { next = suc store.next } in
            let (t, f, g) =
              >>=-ok (join_entity lib fl digests now by filed id resolution entities numbered)
                (λ t. ok (t, count_resolution lib fl digests now by resolution counts)) x
                (rw (resolve_object, o) at e) in
            let same = join_entity-Settled filed id resolution entities numbered t f in
            let last = ap (λ (y : Store Float × Counts). y.0) (sym (ok-eq g)) in
            record {
              entity_id = same.entity_id;
              sources = ap (λ s. s.sources) last ∙ same.sources;
              domains = ap (λ s. s.domains) last ∙ same.domains;
              records = ap (λ s. s.records) last ∙ same.records;
            }
      ]
