-- ===== src/Config/Impact.antt =====
-- The part of _simulate_policy that can raise: the validation of the current records of a domain and
-- the master values of its entities, under its policy and under the proposed one. The changes that
-- it lists are not modelled, and neither is the comparison of the records, which raises nothing here.
use recordlane.Base.{
  String, Bool, true, false, not, ◌&&◌, ◌||◌, none, some, List, [], ◌∷◌, ◌==◌, str_eq, select,
}
use recordlane.Http.{Result, ok, ◌>>◌, ◌>>=◌, raise_if, required}
use recordlane.Policy.{Library, CompiledPolicy}
use recordlane.Policy.Validate.{errors, validate}
use recordlane.Mastering.{SourceObject, SourceRecord, Entity, merged}
use recordlane.Mastering.Survivor.{master_values}
use recordlane.Review.{Store, Domain, find_first}
use recordlane.Config.Drafts.{find_domain}

abbrev pub is_simulated_object : String → SourceObject → Bool
is_simulated_object key o = str_eq o.domain_key key && not o.retired

abbrev pub is_simulated_entity : String → Entity → Bool
is_simulated_entity key e = str_eq e.domain_key key && elim e.status [ merged ↦ false | _ ↦ true ]

module _ {F : Type 0} (lib : Library) where
  -- `policy.validate(record.original)` raises.
  unfoldable pub validation_raises : CompiledPolicy F → SourceRecord → Bool
  unfolding validate
  validation_raises policy r = elim (validate lib policy.attributes r.original) [
    | errors _ ↦ false
    | _ ↦ true
  ]

  -- An object with its current record, under both policies.
  unfoldable pub object_raises :
      CompiledPolicy F → CompiledPolicy F → List SourceRecord → SourceObject → Bool
  unfolding validation_raises
  object_raises current proposed records o = elim o.current_record_id [
    | none ↦ false
    | some id ↦ elim (find_first (λ r. r.id == id) records) [
      | none ↦ true
      | some r ↦ validation_raises current r || validation_raises proposed r
    ]
  ]

  unfoldable pub objects_raise :
      CompiledPolicy F → CompiledPolicy F → List SourceRecord → List SourceObject → Bool
  unfolding object_raises
  objects_raise current proposed records [] = false
  objects_raise current proposed records (o ∷ rest) =
      object_raises current proposed records o || objects_raise current proposed records rest

  -- `self._master_values(entity, policy)` raises.
  unfoldable pub master_raises : Store F → CompiledPolicy F → Entity → Bool
  unfolding master_values
  master_raises store policy e =
      elim (master_values policy.survivorship policy.version policy.checksum store.sources
        store.records store.objects e.id) [ none ↦ true | some _ ↦ false ]

  unfoldable pub entities_raise : Store F → CompiledPolicy F → CompiledPolicy F → List Entity → Bool
  unfolding master_raises
  entities_raise store current proposed [] = false
  entities_raise store current proposed (e ∷ rest) =
      master_raises store current e
      || master_raises store proposed e
      || entities_raise store current proposed rest

  -- _simulate_policy raises.
  unfoldable pub impact_raises : Store F → Domain F → CompiledPolicy F → Bool
  unfolding objects_raise entities_raise
  impact_raises store d proposed =
      objects_raise d.definition proposed store.records
        (select (is_simulated_object d.key) store.objects)
      || entities_raise store d.definition proposed
          (select (is_simulated_entity d.key) store.entities)

  -- The loop of simulate over the policies of the configuration.
  unfoldable pub simulate_all : Store F → List (String × CompiledPolicy F) → Result (Unit {0})
  unfolding impact_raises
  simulate_all store [] = ok tt
  simulate_all store ((key, p) ∷ rest) =
      required (find_domain key store.domains) 409 "configuration_domain_missing" >>= λ d.
      (raise_if (impact_raises store d p) 500 "Exception" >> simulate_all store rest)
