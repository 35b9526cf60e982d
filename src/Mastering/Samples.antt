-- ===== src/Mastering/Samples.antt =====
-- Two sources' observations of a supplier, and a policy, for tests.
use recordlane.Base.{ℕ, true, false, none, some, [], ◌∷◌, Dict}
use recordlane.Json.{Value, str}
use recordlane.Policy.{CompiledPolicy, Matching, weighted_score, exact}
use recordlane.Policy.Samples.{tax_id}
use recordlane.Mastering.{
  Source, SourceObject, SourceRecord, valid, MembershipHistory, CandidateBlock, Entity, candidate,
}

abbrev pub erp : Source
erp = record { id = 1; key = "erp"; name = "ERP"; priority = 10 }

abbrev pub crm : Source
crm = record { id = 2; key = "crm"; name = "CRM"; priority = 60 }

abbrev pub values : Dict Value
values = ("name", str "Acme") ∷ []

abbrev pub erp_record : SourceRecord
erp_record = record {
  id = 11;
  source_id = 1;
  domain_key = "supplier";
  local_id = "A";
  source_version = "1";
  original = values;
  normalized = ("name", str "acme") ∷ [];
  verification = [];
  state = valid;
  observed_at = 100;
  effective_from = none;
  entity_id = some 5;
}

abbrev pub crm_record : SourceRecord
crm_record = record erp_record {
  id = 12;
  source_id = 2;
  local_id = "B";
  original = ("name", str "ACME Ltd") ∷ ("city", str "Oslo") ∷ [];
  verification = ("name", true) ∷ [];
}

abbrev pub erp_object : SourceObject
erp_object = record {
  id = 21;
  source_id = 1;
  domain_key = "supplier";
  local_id = "A";
  entity_id = some 5;
  current_record_id = some 11;
  latest_record_id = some 11;
  current_sequence = some 3;
  current_effective_from = none;
  retired = false;
}

abbrev pub crm_object : SourceObject
crm_object = record erp_object {
  id = 22;
  source_id = 2;
  local_id = "B";
  current_record_id = some 12;
}

abbrev pub membership : MembershipHistory
membership = record {
  id = 1;
  source_object_id = 21;
  entity_id = 5;
  valid_from = 1;
  valid_to = none;
  reason = "initial resolution";
  changed_by = "ingest";
}

abbrev pub bergen_record : SourceRecord
bergen_record = record erp_record { id = 13; local_id = "C"; entity_id = none }

abbrev pub bergen_object : SourceObject
bergen_object = record erp_object {
  id = 23;
  local_id = "C";
  entity_id = none;
  current_record_id = some 13;
}

abbrev pub supplier : Entity
supplier = record {
  id = 5;
  domain_key = "supplier";
  stable_key = "rl_1";
  status = candidate;
  version = 1;
}

abbrev pub block : CandidateBlock
block = record { source_object_id = 21; record_id = 11; block_key = "p0|name=acme" }

abbrev pub matching : Matching ℕ
matching = record {
  algorithm = weighted_score;
  prior_match_probability = 0;
  blocking = [];
  comparisons =
      record {
        field = "name";
        comparator = exact;
        weight = 1;
        missing_score = none;
        m_probability = 0;
        u_probability = 0;
      }
      ∷ [];
  review = 1;
  auto_link = 1;
}

abbrev pub policy : CompiledPolicy ℕ
policy = record {
  attributes = [];
  identifiers = tax_id ∷ [];
  matching = matching;
  survivorship = [];
  version = "1";
  checksum = "0123456789abcdef";
}
