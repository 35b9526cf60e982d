-- ===== src/Review/Samples.antt =====
-- The tables with one supplier of two sources, for tests.
use recordlane.Base.{ℕ, [], ◌∷◌}
use recordlane.Mastering.Samples.{
  erp, crm, erp_record, crm_record, erp_object, crm_object, membership, supplier, policy,
}
use recordlane.Review.{Store}

abbrev pub one_supplier : Store ℕ
one_supplier = record {
  next = 50;
  domains = record { key = "supplier"; definition = policy } ∷ [];
  sources = erp ∷ crm ∷ [];
  entities = supplier ∷ [];
  objects = erp_object ∷ crm_object ∷ [];
  records = erp_record ∷ crm_record ∷ [];
  history = membership ∷ [];
  cannot_links = [];
  record_cannot_links = [];
  relationships = [];
  masters = [];
  tasks = [];
  events = [];
  audit = [];
}
