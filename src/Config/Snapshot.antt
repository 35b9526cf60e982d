-- ===== src/Config/Snapshot.antt =====
-- _snapshot_hash: the rows that a simulation depends on, which are hashed. The rows of
-- cannot-link decisions are in the order of their numbers.
use Prim.Native.Nat.{Ordering}
use Prim.Native.String.{compare}
use recordlane.Base.{ℕ, String, Bool, true, false, Option, List, [], ◌∷◌, leb, if◌then◌else◌, map}
use recordlane.Policy.{CompiledPolicy}
use recordlane.Mastering.{SourceObject, Entity, EntityStatus, CannotLink}
use recordlane.Review.{Domain, Store}

-- `order_by(…)`
abbrev pub insert_row {ℓ} : {A : Type ℓ} → (A → A → Bool) → A → List A → List A
insert_row before a [] = a ∷ []
insert_row before a (b ∷ rest) =
    let later = insert_row before a rest in if before a b then a ∷ b ∷ rest else b ∷ later

abbrev pub order_by {ℓ} : {A : Type ℓ} → (A → A → Bool) → List A → List A
order_by before [] = []
order_by before (a ∷ rest) = insert_row before a (order_by before rest)

pub record ObjectRow : Type 0 where
  pub id : ℕ
  pub current_record_id : Option ℕ
  pub latest_record_id : Option ℕ
  pub entity_id : Option ℕ
  pub retired : Bool

pub record EntityRow : Type 0 where
  pub id : ℕ
  pub version : ℕ
  pub status : EntityStatus

pub record Snapshot : Type 0 where
  pub objects : List ObjectRow
  pub entities : List EntityRow
  pub constraints : List (ℕ × ℕ)
  pub domains : List (String × String)

abbrev pub object_row : SourceObject → ObjectRow
object_row o = record {
  id = o.id;
  current_record_id = o.current_record_id;
  latest_record_id = o.latest_record_id;
  entity_id = o.entity_id;
  retired = o.retired;
}

abbrev pub entity_row : Entity → EntityRow
entity_row e = record { id = e.id; version = e.version; status = e.status }

abbrev pub constraint_row : CannotLink → ℕ × ℕ
constraint_row c = (c.left_object_id, c.right_object_id)

abbrev pub is_before : String → String → Bool
is_before s t = elim (compare s t) [ Ordering.gt ↦ false | _ ↦ true ]

module _ {F : Type 0} (definition_hash : CompiledPolicy F → String) where
  abbrev pub domain_row : Domain F → String × String
  domain_row d = (d.key, definition_hash d.definition)

  -- What the hash is of.
  unfoldable pub snapshot : Store F → Snapshot
  snapshot store = record {
    objects = map object_row (order_by (λ a b. leb a.id b.id) store.objects);
    entities = map entity_row (order_by (λ a b. leb a.id b.id) store.entities);
    constraints = map constraint_row store.cannot_links;
    domains = map domain_row (order_by (λ a b. is_before a.key b.key) store.domains);
  }
