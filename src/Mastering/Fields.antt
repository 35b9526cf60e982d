-- ===== src/Mastering/Fields.antt =====
-- The loop of _master_values over the attributes: each attribute's survivor, and nothing else.
use recordlane.Base.{
  String, ◌≡◌, ◌≢◌, refl, sym, ap, ◌∙◌, inl, inr, true, Option, none, some, List, [], ◌∷◌, arith,
  if◌then◌else◌, Dict, lookup, insert, lookup-insert, has_text, has_key, str_eq, str_eq_iff,
  Bool-cases, Option-cases, In,
}
use recordlane.Json.{Value}
use recordlane.Mastering.{SourceRecord}
use recordlane.Base.{has_text-insert_text}
use recordlane.Mastering.Survivor.{Provenance, add_fields, insert_texts, fields_of, value_for}

-- What an attribute's survivor makes of the value before.
abbrev pub taken : Option (Option (Value × Provenance)) → Option Value → Option Value
taken (some (some (v, p))) old = some v
taken _ old = old

abbrev pub taken_provenance :
    Option (Option (Value × Provenance)) → Option Provenance → Option Provenance
taken_provenance (some (some (v, p))) old = some p
taken_provenance _ old = old

module _ (find : String → Option (Option (Value × Provenance))) where
  pub lookup-add_fields :
      (fields : List String) (vs : Dict Value) (ps : Dict Provenance) (vs' : Dict Value)
      (ps' : Dict Provenance) (f : String)
      → add_fields find vs ps fields ≡ some (vs', ps')
      → (lookup f vs' ≡ (if has_text f fields then taken (find f) (lookup f vs) else lookup f vs))
        × (lookup f ps'
            ≡ (if has_text f fields then taken_provenance (find f) (lookup f ps) else lookup f ps))
  unfolding add_fields
  lookup-add_fields [] vs ps vs' ps' f e = ground arith
  lookup-add_fields (g ∷ rest) vs ps vs' ps' f e = elim (Option-cases (find g)) [
    | inl q ↦ ground arith
    | inr (none, q) ↦
        let skips : add_fields find vs ps (g ∷ rest) ≡ add_fields find vs ps rest =
          rw (q, add_fields) refl in
        let ih = lookup-add_fields rest vs ps vs' ps' f (sym skips ∙ e) in
        elim (Bool-cases (str_eq g f)) [
          | inl t ↦
              let found : find f ≡ some none = ap find (sym ((str_eq_iff g f).0 t)) ∙ q in
              ground (arith, found, ih)
          | inr t ↦ ground (arith, ih)
        ]
    | inr (some (v, p), q) ↦
        let adds : add_fields find vs ps (g ∷ rest)
            ≡ add_fields find (insert g v vs) (insert g p ps) rest =
          rw (q, add_fields) refl in
        let ih = lookup-add_fields rest (insert g v vs) (insert g p ps) vs' ps' f (sym adds ∙ e) in
        let value = lookup-insert g f v vs in
        let origin = lookup-insert g f p ps in
        elim (Bool-cases (str_eq g f)) [
          | inl t ↦
              let found : find f ≡ some (some (v, p)) = ap find (sym ((str_eq_iff g f).0 t)) ∙ q in
              ground (arith, found, ih, value, origin)
          | inr t ↦ ground (arith, ih, value, origin)
        ]
  ]

  -- No attribute of a loop that ends raises.
  pub add_fields-found :
      (fields : List String) (vs : Dict Value) (ps : Dict Provenance)
      (result : Dict Value × Dict Provenance) (f : String)
      → add_fields find vs ps fields ≡ some result
      → has_text f fields ≡ true
      → find f ≢ none
  unfolding add_fields
  add_fields-found [] vs ps result f e listed q = ground arith
  add_fields-found (g ∷ rest) vs ps result f e listed q = elim (Option-cases (find g)) [
    | inl r ↦ ground arith
    | inr (none, r) ↦
        let skips : add_fields find vs ps (g ∷ rest) ≡ add_fields find vs ps rest =
          rw (r, add_fields) refl in
        elim (Bool-cases (str_eq g f)) [
          | inl t ↦ let same = ap find ((str_eq_iff g f).0 t) in cc
          | inr t ↦ add_fields-found rest vs ps result f (sym skips ∙ e) (ground arith) q
        ]
    | inr (some (v, p), r) ↦
        let adds : add_fields find vs ps (g ∷ rest)
            ≡ add_fields find (insert g v vs) (insert g p ps) rest =
          rw (r, add_fields) refl in
        elim (Bool-cases (str_eq g f)) [
          | inl t ↦ let same = ap find ((str_eq_iff g f).0 t) in cc
          | inr t ↦
              add_fields-found rest (insert g v vs) (insert g p ps) result f (sym adds ∙ e)
                (ground arith) q
        ]
  ]

has_text-insert_texts :
    (f : String) (d : Dict Value) (l : List String)
    → has_text f (insert_texts d l) ≡ (if has_key f d then true else has_text f l)
has_text-insert_texts f [] l = refl
has_text-insert_texts f (entry ∷ rest) l =
    ground
      (arith, has_text-insert_texts f rest l, has_text-insert_text f entry.0 (insert_texts rest l))

has_key-lookup :
    {V : Type 0} (f : String) (d : Dict V) (v : V) → lookup f d ≡ some v → has_key f d ≡ true
has_key-lookup f [] v e = cc
has_key-lookup f (entry ∷ rest) v e = ground (arith, has_key-lookup f rest v)

-- An attribute that a record has a value for is among the attributes.
pub has_text-fields_of :
    (f : String) (records : List SourceRecord) (r : SourceRecord) (v : Value)
    → In r records
    → value_for r f ≡ some v
    → has_text f (fields_of records) ≡ true
unfolding fields_of
has_text-fields_of f [] r v m e = absurd m
has_text-fields_of f (s ∷ rest) r v (inl here) e =
    let mine : value_for s f ≡ some v = ap (λ x. value_for x f) (sym here) ∙ e in
    let named : lookup f s.original ≡ some v = ground arith in
    rw (has_text-insert_texts f s.original (fields_of rest), has_key-lookup f s.original v named)
      refl
has_text-fields_of f (s ∷ rest) r v (inr m) e =
    rw (has_text-insert_texts f s.original (fields_of rest), has_text-fields_of f rest r v m e)
      (ground arith)
