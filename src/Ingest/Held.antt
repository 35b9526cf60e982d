-- ===== src/Ingest/Held.antt =====
-- The records that contribute to an entity, beside an observation that is withheld.
use recordlane.Base.{
  ℕ, String, ◌≡◌, ◌≢◌, ◌⊎◌, refl, sym, ap, ◌∙◌, inl, inr, Bool, true, false, not, ◌&&◌, Option,
  some, List, [], ◌∷◌, ◌++◌, arith, ◌==◌, ==_iff, any, select, In, Bool-cases, Dict,
}
use recordlane.Json.{Value}
use recordlane.Policy.{Library, Floats, CompiledPolicy}
use recordlane.Mastering.{SourceRecord, SourceObject, IncomingRecord}
use recordlane.Mastering.Objects.{
  contributes, current_records, is_valid, observe, observation_is_current,
}
use recordlane.Ingest.{Tables, Digests}
use recordlane.Ingest.Payload.{assign, write_object, state_of}
use recordlane.Ingest.Observe.{filing}

-- The object of the write is one of the table's, and the test says of it what it did.
any-write_object :
    (f : SourceObject → Bool) (o o' : SourceObject) (objects : List SourceObject)
    → o'.id ≡ o.id
    → f o' ≡ f o
    → ((p : SourceObject) → In p objects → p.id ≡ o.id → p ≡ o)
    → any f (write_object o' objects) ≡ any f objects
any-write_object f o o' [] i same unique = refl
any-write_object f o o' (p ∷ rest) i same unique =
    let others = any-write_object f o o' rest i same (λ p m. unique p (inr m)) in
    elim (Bool-cases (p.id == o'.id)) [
      | inl q ↦
          let is_o : p ≡ o = unique p (inl refl) ((==_iff p.id o'.id).0 q ∙ i) in
          let here : f o' ≡ f p = same ∙ ap f (sym is_o) in rw (q, here, others) refl
      | inr q ↦ rw (q, others) refl
    ]

select-ext :
    {A : Type 0} (p q : A → Bool) (l : List A) → ((x : A) → p x ≡ q x) → select p l ≡ select q l
select-ext p q [] same = refl
select-ext p q (x ∷ rest) same = rw (same x, select-ext p q rest same) refl

-- A record that is new and not valid is none of the current records, whatever its entity.
select-new :
    (p : SourceRecord → Bool) (id : ℕ) (e : Option ℕ) (r : SourceRecord) (l : List SourceRecord)
    → ((s : SourceRecord) → In s l → s.id ≢ id)
    → p r ≡ false
    → p (record r { entity_id = e }) ≡ false
    → select p (assign id e (l ++ r ∷ [])) ≡ select p l
select-new p id e r [] fresh a b = elim (Bool-cases (r.id == id)) [
  | inl q ↦ rw (q, b) refl
  | inr q ↦ rw (q, a) refl
]
select-new p id e r (s ∷ rest) fresh a b =
    let others = select-new p id e r rest (λ s m. fresh s (inr m)) a b in
    elim (Bool-cases (s.id == id)) [
      | inl q ↦ absurd (fresh s (inl refl) ((==_iff s.id id).0 q))
      | inr q ↦ rw (q, others) refl
    ]

select-last :
    {A : Type 0} (p : A → Bool) (x : A) (l : List A)
    → p x ≡ false
    → select p (l ++ x ∷ []) ≡ select p l
select-last p x [] e = rw e refl
select-last p x (y ∷ rest) e = rw (select-last p x rest e) refl

-- The observation has quality errors, or is not the current one of its object.
abbrev pub Held : SourceObject → IncomingRecord → Bool → Type 0
Held o item bad = ((not item.deleted && bad) ≡ true) ⊎ (observation_is_current o item ≡ false)

observe-Held :
    (o : SourceObject) (item : IncomingRecord) (id : ℕ) (bad : Bool)
    → Held o item bad
    → observe o id bad item ≡ record o { latest_record_id = some id }
unfolding observe
observe-Held o item id bad (inl q) = rw q refl
observe-Held o item id bad (inr late) = elim (Bool-cases (not item.deleted && bad)) [
  | inl q ↦ rw q refl
  | inr q ↦ rw (q, late) refl
]

state_of-Held :
    (o : SourceObject) (item : IncomingRecord) (bad : Bool)
    → Held o item bad
    → is_valid (state_of item bad (observation_is_current o item)) ≡ false
state_of-Held o item bad (inl q) = ground (arith, q)
state_of-Held o item bad (inr late) = rw late (ground arith)

module _ (lib : Library) (fl : Floats) (digests : Digests) (now : ℕ) (by : String) where
  open fl use {Float}

  -- The records that contribute to an entity are those of before, whether or not the new record is
  -- given its object's entity.
  pub current_records-filing :
      (source_id : ℕ) (policy : CompiledPolicy Float) (domain_key : String) (o : SourceObject)
      (item : IncomingRecord) (values : Dict Value) (tables : Tables Float) (bad : Bool)
      (entity_id e : Option ℕ)
      → ((p : SourceObject) → In p tables.store.objects → p.id ≡ o.id → p ≡ o)
      → ((r : SourceRecord) → In r tables.store.records → r.id ≢ tables.store.next)
      → Held o item bad
      → let filed =
          filing lib fl digests now by source_id policy domain_key o item values tables bad in
        (current_records filed.tables.store.records filed.tables.store.objects e
          ≡ current_records tables.store.records tables.store.objects e)
        × (current_records
              (assign filed.observed.id entity_id filed.tables.store.records)
              filed.tables.store.objects
              e
            ≡ current_records tables.store.records tables.store.objects e)
  unfolding filing current_records observe
  current_records-filing source_id policy domain_key o item values tables bad entity_id e unique
        fresh held =
      let s = tables.store in
      let f = filing lib fl digests now by source_id policy domain_key o item values tables bad in
      let r = f.observed in
      let o' = f.source_object in
      let p : SourceRecord → Bool =
        λ r. is_valid r.state && any (contributes e r) f.tables.store.objects in
      let q : SourceRecord → Bool = λ r. is_valid r.state && any (contributes e r) s.objects in
      let seen : o' ≡ record o { latest_record_id = some r.id } =
        observe-Held o item r.id bad held in
      let same : (r : SourceRecord) → p r ≡ q r = λ t.
        ap (λ b. is_valid t.state && b)
          (any-write_object (contributes e t) o o' s.objects (ap (λ y. y.id) seen)
            (ap (contributes e t) seen) unique) in
      let invalid : is_valid r.state ≡ false = state_of-Held o item bad held in
      let out : (t : SourceRecord) → is_valid t.state ≡ false → q t ≡ false = λ t h. rw h refl in
      (
        select-ext p q f.tables.store.records same ∙ select-last q r s.records (out r invalid),
        select-ext p q (assign r.id entity_id f.tables.store.records) same
            ∙ select-new q r.id entity_id r s.records fresh (out r invalid)
                (out (record r { entity_id = entity_id }) invalid),
      )
