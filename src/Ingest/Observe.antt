-- ===== src/Ingest/Observe.antt =====
-- The body of ingest's loop, for one observation.
use recordlane.Base.{
  ℕ, suc, ◌+◌, String, Bool, false, not, none, some, List, [], ◌∷◌, ◌++◌, if◌then◌else◌, Dict,
}
use recordlane.Http.{Result, ok, err, ◌>>=◌, required}
use recordlane.Json.{Value}
use recordlane.Policy.{Library, Floats, CompiledPolicy}
use recordlane.Policy.Normalize.{normalize}
use recordlane.Policy.Validate.{validate}
use recordlane.Policy.Blocking.{blocking_keys}
use recordlane.Mastering.{RecordState, SourceObject, SourceRecord, IncomingRecord, Entity}
use recordlane.Mastering.Objects.{observation_is_current, observe, set_membership}
use recordlane.Mastering.Resolve.{
  find_entity, resolve, candidate_block_overflow, missing_entity, resolved, Resolution, linked,
  created, in_review, MatchTask,
}
use recordlane.Review.{task_open, duplicate_match, ReviewTask, Store, find_first}
use recordlane.Review.Draft.{draft}
use recordlane.Review.Merge.{redraft}
use recordlane.Ingest.{Tables, Counts, Digests}
use recordlane.Ingest.Payload.{
  get_or_create_source_object, merged_values, failed, state_of, blocks_of, write_object, assign,
  same_payload, is_version,
}

abbrev pub new_record :
    ℕ → ℕ → ℕ → String → IncomingRecord → Dict Value → Dict Value → RecordState → SourceRecord
new_record now id source_id domain_key item values normalized state = record {
  id = id;
  source_id = source_id;
  domain_key = domain_key;
  local_id = item.local_id;
  source_version = item.version;
  original = values;
  normalized = normalized;
  verification = item.verification;
  state = state;
  observed_at = now;
  effective_from = item.effective_from;
  entity_id = none;
}

-- An observation that is in the tables, with what the rest of the body reads.
pub record Filed (F : Type 0) : Type 0 where
  pub tables : Tables F
  pub source_object : SourceObject
  pub observed : SourceRecord
  pub block_keys : List String
  pub quarantined : Bool
  pub is_current : Bool

module _ (lib : Library) (fl : Floats) (digests : Digests) (now : ℕ) (by : String) where
  open fl use {Float}

  -- The record of the observation, its meta row and blocks, and the object as it leaves the body.
  -- The Boolean is whether there are quality errors.
  unfoldable pub filing :
      ℕ
      → CompiledPolicy Float
      → String
      → SourceObject
      → IncomingRecord
      → Dict Value
      → Tables Float
      → Bool
      → Filed Float
  unfolding observe
  filing source_id policy domain_key o item values tables bad =
      let store = tables.store in
      let normalized = normalize lib policy.attributes values in
      let keys = blocking_keys lib policy.matching.blocking normalized in
      let is_current = observation_is_current o item in
      let r =
        new_record now store.next source_id domain_key item values normalized
          (state_of item bad is_current) in
      let o' = observe o r.id bad item in
      record {
        tables = record tables {
          store = record store {
            next = suc store.next;
            records = store.records ++ r ∷ [];
            objects = write_object o' store.objects;
          };
          blocks = tables.blocks ++ blocks_of o.id r.id keys;
          metas =
              tables.metas
              ++ record {
                record_id = r.id;
                source_object_id = o.id;
                payload_hash = digests.payload_hash item;
                source_sequence = item.sequence;
                update_mode = item.update_mode;
              }
                ∷ [];
        };
        source_object = o';
        observed = r;
        block_keys = keys;
        quarantined = bad;
        is_current = is_current;
      }

  unfoldable pub file_observation :
      ℕ
      → CompiledPolicy Float
      → String
      → SourceObject
      → IncomingRecord
      → Tables Float
      → Result (Filed Float)
  unfolding filing merged_values
  file_observation source_id policy domain_key o item tables =
      let values = merged_values o item tables.store.records in
      (if item.deleted then ok false else failed (validate lib policy.attributes values)) >>= λ bad.
      ok (filing source_id policy domain_key o item values tables bad)

  -- The review task of a possible duplicate.
  abbrev pub match_task : ℕ → MatchTask Float → ReviewTask
  match_task id t = record {
    id = id;
    kind = duplicate_match (record {
      left_record_id = t.left_record_id;
      right_record_id = t.right_record_id;
      left_source_object_id = some t.left_source_object_id;
      right_source_object_id = some t.right_source_object_id;
      target_entity_id = t.target_entity_id;
      bound_target_entity_version = some t.bound_target_entity_version;
    });
    entity_id = some t.entity_id;
    status = task_open;
    priority = "normal";
    proposed_by = "matching-engine";
    bound_entity_version = some t.bound_entity_version;
    sensitive = false;
    decision_reason = none;
    decided_by = none;
  }

  abbrev pub tasks_of : ℕ → Resolution Float → List ReviewTask
  tasks_of id (in_review t) = match_task id t ∷ []
  tasks_of id _ = []

  -- `counts[outcome] += 1`
  abbrev pub count_resolution : Resolution Float → Counts → Counts
  count_resolution linked c = record c { linked = c.linked + 1 }
  count_resolution created c = record c { created = c.created + 1 }
  count_resolution (in_review _) c = record c { review = c.review + 1 }

  -- The tables with the membership of an object that is resolved, and its review task.
  abbrev pub joined_store :
      Filed Float → ℕ → Resolution Float → List Entity → Store Float → Store Float
  joined_store filed entity_id resolution entities store =
      let moved =
        set_membership now store.next by entity_id "initial_resolution" filed.source_object
          store.history in
      record store {
        next = suc (suc (suc store.next));
        entities = entities;
        tasks = store.tasks ++ tasks_of (suc store.next) resolution;
        objects = write_object moved.0 store.objects;
        history = moved.1;
        records = assign filed.observed.id (some entity_id) store.records;
      }

  -- The membership, and the new draft.
  unfoldable pub join_entity :
      Filed Float → ℕ → Resolution Float → List Entity → Store Float → Result (Store Float)
  unfolding set_membership draft
  join_entity filed entity_id resolution entities store = do
    entity ← required (find_entity entity_id entities) 500 "AttributeError"
    drafted ← draft entity (joined_store filed entity_id resolution entities store)
    ok drafted.0

  -- An object without an entity: _resolve, and what follows it.
  unfoldable pub resolve_object :
      CompiledPolicy Float → Filed Float → Counts → Result (Store Float × Counts)
  unfolding resolve join_entity
  resolve_object policy filed counts =
      let store = filed.tables.store in
      let entity_id = store.next in
      let outcome =
        resolve lib fl policy store.cannot_links store.objects store.records filed.observed
          filed.source_object entity_id (digests.stable_key filed.observed) filed.block_keys
          filed.tables.blocks store.entities in
      elim outcome [
        | candidate_block_overflow ↦ err 409 "candidate_block_overflow"
        | missing_entity ↦ err 500 "AttributeError"
        | resolved id resolution entities ↦ do
          drafted ←
              join_entity filed id resolution entities (record store { next = suc store.next })
          ok (drafted, count_resolution resolution counts)
      ]

  -- A deletion that is current: a new draft of the entity that loses the contribution.
  unfoldable pub retire_object : Filed Float → Result (Store Float)
  unfolding redraft
  retire_object filed =
      let o = filed.source_object in
      let store = filed.tables.store in
      let retired = record store { records = assign filed.observed.id o.entity_id store.records } in
      elim o.entity_id [
        | none ↦ ok retired
        | some id ↦ elim (find_entity id store.entities) [
          | none ↦ ok retired
          | some _ ↦ redraft id retired >>= λ x. ok x.0
        ]
      ]

  -- An observation of an object that is in an entity: a new version and a new draft.
  unfoldable pub update_object : ℕ → Filed Float → Result (Store Float)
  unfolding redraft
  update_object id filed =
      let store = filed.tables.store in
      required (find_entity id store.entities) 409 "source_membership_entity_missing" >>= λ entity.
      redraft id (record store { records = assign filed.observed.id (some id) store.records })
      >>= λ x. ok x.0

  abbrev pub with_store : Filed Float → Store Float → Tables Float
  with_store filed store = record filed.tables { store = store }

  -- The rest of the body.
  unfoldable pub settle_observation :
      CompiledPolicy Float → IncomingRecord → Filed Float → Counts → Result (Tables Float × Counts)
  unfolding resolve_object retire_object update_object
  settle_observation policy item filed counts =
      let store = filed.tables.store in
      let o = filed.source_object in
      let c = record counts { accepted = counts.accepted + 1 } in
      if filed.quarantined
      then ok (filed.tables, record c { quarantined = c.quarantined + 1 })
      else if not filed.is_current
      then ok (
        with_store filed
            (record store { records = assign filed.observed.id o.entity_id store.records }),
        record c { out_of_order = c.out_of_order + 1 },
      )
      else if item.deleted
      then (retire_object filed >>= λ s.
          ok (with_store filed s, record c { retired = c.retired + 1 }))
      else elim o.entity_id [
        | some id ↦ update_object id filed >>= λ s.
            ok (with_store filed s, record c { updated = c.updated + 1 })
        | none ↦ resolve_object policy filed c >>= λ x. ok (with_store filed x.0, x.1)
      ]

  -- The body of the loop.
  unfoldable pub ingest_one :
      ℕ
      → CompiledPolicy Float
      → String
      → IncomingRecord
      → Tables Float
      → Counts
      → Result (Tables Float × Counts)
  unfolding file_observation settle_observation same_payload get_or_create_source_object
  ingest_one source_id policy domain_key item tables counts =
      let got = get_or_create_source_object now source_id domain_key item.local_id tables.store in
      let tables' = record tables { store = got.1 } in
      elim (find_first (is_version source_id domain_key item) tables.store.records) [
        | some r ↦
            if same_payload digests item r tables.metas
            then ok (tables', record counts { duplicate = counts.duplicate + 1 })
            else err 409 "source_version_conflict"
        | none ↦ file_observation source_id policy domain_key got.0 item tables' >>= λ filed.
            settle_observation policy item filed counts
      ]
