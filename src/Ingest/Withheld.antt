-- ===== src/Ingest/Withheld.antt =====
-- An observation that is quarantined or out of order.
use recordlane.Base.{
  ℕ, suc, ◌+◌, String, ◌≡◌, ◌≢◌, ◌⊎◌, refl, sym, ap, ◌∙◌, subst, inl, inr, Bool, true, false, not,
  ◌&&◌, Option, some, arith, In, Bool-cases, Option-cases, if◌then◌else◌,
}
use recordlane.Http.{Result, ok, >>=-ok, ok-eq, ok-err}
use recordlane.Policy.{Library, Floats, CompiledPolicy}
use recordlane.Policy.Validate.{validate}
use recordlane.Mastering.{SourceRecord, SourceObject, IncomingRecord}
use recordlane.Mastering.Objects.{current_records, observation_is_current}
use recordlane.Review.{Store, find_first}
use recordlane.Ingest.{Tables, Counts, Digests}
use recordlane.Ingest.Held.{current_records-filing}
use recordlane.Ingest.Balance.{chain-count, resolve_object-count}
use recordlane.Mastering.Resolve.{Resolution, linked, created, in_review}
use recordlane.Ingest.Payload.{
  get_or_create_source_object, is_object, is_version, same_payload, merged_values, failed, assign,
}
use recordlane.Ingest.Observe.{
  Filed, retire_object, update_object, resolve_object, filing, file_observation, settle_observation,
  ingest_one, with_store, count_resolution,
}

-- The counts say that an observation was withheld.
abbrev pub Withholds : Counts → Counts → Type 0
Withholds c d = (d.quarantined ≡ suc c.quarantined) ⊎ (d.out_of_order ≡ suc c.out_of_order)

-- Counts with neither one more quarantined observation nor one more that is out of order.
not-Withholds :
    (c d : Counts)
    → d.quarantined ≡ c.quarantined
    → d.out_of_order ≡ c.out_of_order
    → ¬ Withholds c d
not-Withholds c d q o (inl e) =
    let h : c.quarantined ≡ suc c.quarantined = sym q ∙ e in omega (arith, h)
not-Withholds c d q o (inr e) =
    let h : c.out_of_order ≡ suc c.out_of_order = sym o ∙ e in omega (arith, h)

-- Two stores with the same entities, masters, tasks, membership history, and records that contribute
-- to an entity.
pub record Unmoved {F : Type 0} (e : Option ℕ) (s t : Store F) : Type 0 where
  pub entities : t.entities ≡ s.entities
  pub masters : t.masters ≡ s.masters
  pub tasks : t.tasks ≡ s.tasks
  pub history : t.history ≡ s.history
  pub contributing : current_records t.records t.objects e ≡ current_records s.records s.objects e

failed-not_deleted :
    (gone : Bool) (m : Result Bool) (bad : Bool)
    → (if gone then ok false else m) ≡ ok bad
    → bad ≡ true
    → (not gone && bad) ≡ true
failed-not_deleted true m bad e q = ok-eq e ∙ q
failed-not_deleted false m bad e q = q

module _ (lib : Library) (fl : Floats) (digests : Digests) (now : ℕ) (by : String) where
  open fl use {Float}

  count_resolution-held :
      (r : Resolution Float) (c : Counts)
      → let d = count_resolution lib fl digests now by r c in
        (d.quarantined ≡ c.quarantined) × (d.out_of_order ≡ c.out_of_order)
  count_resolution-held linked c = (refl, refl)
  count_resolution-held created c = (refl, refl)
  count_resolution-held (in_review t) c = (refl, refl)

  resolve_object-held :
      (policy : CompiledPolicy Float) (filed : Filed Float) (c : Counts) (x : Store Float × Counts)
      → resolve_object lib fl digests now by policy filed c ≡ ok x
      → (x.1.quarantined ≡ c.quarantined) × (x.1.out_of_order ≡ c.out_of_order)
  resolve_object-held policy filed c x e =
      let (r, g) = resolve_object-count lib fl digests now by policy filed c x e in
      subst (λ d. (d.quarantined ≡ c.quarantined) × (d.out_of_order ≡ c.out_of_order)) g
        (count_resolution-held r c)

  -- What is left of the tables when the observation is withheld.
  settle_observation-held :
      (policy : CompiledPolicy Float) (item : IncomingRecord) (filed : Filed Float) (c : Counts)
      (x : Tables Float × Counts)
      → settle_observation lib fl digests now by policy item filed c ≡ ok x
      → Withholds c x.1
      → ((filed.quarantined ≡ true) × (x.0 ≡ filed.tables))
        ⊎ ((filed.is_current ≡ false)
            × (x.0
                ≡ with_store lib fl digests now by filed (record filed.tables.store {
                  records =
                      assign filed.observed.id filed.source_object.entity_id
                        filed.tables.store.records;
                })))
  unfolding settle_observation
  settle_observation-held policy item filed c x e held =
      let one = record c { accepted = c.accepted + 1 } in
      elim (Bool-cases filed.quarantined) [
        | inl q ↦ inl (q, ap (λ y. y.0) (sym (ok-eq (rw (q, settle_observation) at e))))
        | inr q ↦ elim (Bool-cases filed.is_current) [
          | inr late ↦
              inr (late, ap (λ y. y.0) (sym (ok-eq (rw (q, late, settle_observation) at e))))
          | inl current ↦ elim (Bool-cases item.deleted) [
            | inl gone ↦
                let (_, _, h) =
                  chain-count (retire_object lib fl digests now by filed)
                    (λ t. with_store lib fl digests now by filed t)
                    (λ _. record one { retired = c.retired + 1 }) x
                    (rw (q, current, gone, settle_observation) at e) in
                absurd (
                  not-Withholds c x.1 (ap (λ d. d.quarantined) (sym h))
                    (ap (λ d. d.out_of_order) (sym h)) held)
            | inr live ↦ elim (Option-cases filed.source_object.entity_id) [
              | inl n ↦
                  let (y, f, h) =
                    chain-count (resolve_object lib fl digests now by policy filed one)
                      (λ y. with_store lib fl digests now by filed y.0) (λ y. y.1) x
                      (rw (q, current, live, settle_observation, n) at e) in
                  let (a, b) = resolve_object-held policy filed one y f in
                  absurd (
                    not-Withholds c x.1 (ap (λ d. d.quarantined) (sym h) ∙ a)
                      (ap (λ d. d.out_of_order) (sym h) ∙ b) held)
              | inr (id, some_id) ↦
                  let (_, _, h) =
                    chain-count (update_object lib fl digests now by id filed)
                      (λ t. with_store lib fl digests now by filed t)
                      (λ _. record one { updated = c.updated + 1 }) x
                      (rw (q, current, live, settle_observation, some_id) at e) in
                  absurd (
                    not-Withholds c x.1 (ap (λ d. d.quarantined) (sym h))
                      (ap (λ d. d.out_of_order) (sym h)) held)
            ]
          ]
        ]
      ]

  -- A filed observation that is withheld, in the tables as they are left.
  filed_held :
      (source_id : ℕ) (policy : CompiledPolicy Float) (domain_key : String) (o : SourceObject)
      (item : IncomingRecord) (tables : Tables Float) (filed : Filed Float) (c : Counts)
      (x : Tables Float × Counts) (e : Option ℕ)
      → ((p : SourceObject) → In p tables.store.objects → p.id ≡ o.id → p ≡ o)
      → ((r : SourceRecord) → In r tables.store.records → r.id ≢ tables.store.next)
      → file_observation lib fl digests now by source_id policy domain_key o item tables ≡ ok filed
      → settle_observation lib fl digests now by policy item filed c ≡ ok x
      → Withholds c x.1
      → Unmoved e tables.store x.0.store
  unfolding file_observation filing
  filed_held source_id policy domain_key o item tables filed c x e unique fresh run settled held =
      let values = merged_values o item tables.store.records in
      let of_bad : Bool → Filed Float =
        λ bad. filing lib fl digests now by source_id policy domain_key o item values tables bad in
      let (bad, f, g) =
        >>=-ok (if item.deleted then ok false else failed (validate lib policy.attributes values))
          (λ bad. ok (of_bad bad)) filed run in
      let same = ok-eq g in
      let kept =
        current_records-filing lib fl digests now by source_id policy domain_key o item values
          tables bad (of_bad bad).source_object.entity_id e unique fresh in
      elim (settle_observation-held policy item filed c x settled held) [
        | inl (q, left) ↦
            let bad_true : bad ≡ true = ap (λ (y : Filed Float). y.quarantined) same ∙ q in
            subst (Unmoved e tables.store)
              (ap (λ t. t.store) (ap (λ (y : Filed Float). y.tables) same ∙ sym left))
              (record {
                entities = refl;
                masters = refl;
                tasks = refl;
                history = refl;
                contributing = (kept (inl (failed-not_deleted item.deleted _ bad f bad_true))).0;
              })
        | inr (late, left) ↦
            let is_late : observation_is_current o item ≡ false =
              ap (λ (y : Filed Float). y.is_current) same ∙ late in
            let assigned : Filed Float → Store Float = λ y. record y.tables.store {
              records = assign y.observed.id y.source_object.entity_id y.tables.store.records;
            } in
            subst (Unmoved e tables.store) (ap assigned same ∙ sym (ap (λ t. t.store) left))
              (record {
                entities = refl;
                masters = refl;
                tasks = refl;
                history = refl;
                contributing = (kept (inr is_late)).1;
              })
      ]

  -- An observation of an object that is known, counted as quarantined or as out of order, leaves
  -- the entities, the drafts and golden versions, the tasks and the membership history as they are,
  -- and the records that contribute to an entity. The identifiers of objects are distinct, and the
  -- next identifier is no record's.
  pub withheld_changes_nothing :
      (source_id : ℕ) (policy : CompiledPolicy Float) (domain_key : String) (item : IncomingRecord)
      (tables : Tables Float) (c : Counts) (o : SourceObject) (x : Tables Float × Counts)
      (e : Option ℕ)
      → find_first (is_object source_id domain_key item.local_id) tables.store.objects ≡ some o
      → ((p : SourceObject) → In p tables.store.objects → p.id ≡ o.id → p ≡ o)
      → ((r : SourceRecord) → In r tables.store.records → r.id ≢ tables.store.next)
      → ingest_one lib fl digests now by source_id policy domain_key item tables c ≡ ok x
      → Withholds c x.1
      → Unmoved e tables.store x.0.store
  unfolding ingest_one get_or_create_source_object
  withheld_changes_nothing source_id policy domain_key item tables c o x e found unique fresh run
        held =
      let got : get_or_create_source_object now source_id domain_key item.local_id tables.store
          ≡ (o, tables.store) =
        rw (get_or_create_source_object, found) refl in
      elim (Option-cases (find_first (is_version source_id domain_key item) tables.store.records)) [
        | inl n ↦
            let (filed, f, g) =
              >>=-ok
                (file_observation lib fl digests now by source_id policy domain_key o item tables)
                (λ filed. settle_observation lib fl digests now by policy item filed c) x
                (rw (ingest_one, n, got) at run) in
            filed_held source_id policy domain_key o item tables filed c x e unique fresh f g held
        | inr (r, is_there) ↦ elim (Bool-cases (same_payload digests item r tables.metas)) [
          | inl same ↦
              let h : record c { duplicate = c.duplicate + 1 } ≡ x.1 =
                ap (λ y. y.1) (ok-eq (rw (ingest_one, is_there, same) at run)) in
              absurd (
                not-Withholds c x.1 (ap (λ d. d.quarantined) (sym h))
                  (ap (λ d. d.out_of_order) (sym h)) held)
          | inr other ↦ absurd (ok-err (rw (ingest_one, is_there, other) at run))
        ]
      ]
