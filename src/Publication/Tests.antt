-- ===== src/Publication/Tests.antt =====
-- The relay of two events, the first of them without a clear answer.
use recordlane.Base.{In, ◌≡◌, ◌≢◌, ◌⊎◌, ◌↔◌, refl, inl, none, some, [], ◌∷◌, ◌==◌, if◌then◌else◌}
use recordlane.Publication.{
  OutboxEvent, pending, retry, reconcile, delivered, Store, Answer, response, uncertain, find_event,
  due_events,
}
use recordlane.Publication.Reconcile.{
  absent, found, unhandled, uncertain_events, reconcile_events, reconcile_events_lem,
}

abbrev first : OutboxEvent
first = record {
  id = 1;
  entity_version = some 2;
  payload = [];
  status = pending;
  attempts = 0;
  last_error = none;
  occurred_at = 20;
}

abbrev second : OutboxEvent
second = record first { id = 2; status = retry; attempts = 4; occurred_at = 10 }

abbrev store : Store
store = record {
  events = first ∷ second ∷ [];
  deliveries = [];
  receipts = [];
  delivered = 0;
  failed = 0;
  ambiguous = 0;
}

-- The consumer times out on the first event and rejects the second.
abbrev post : OutboxEvent → Answer
post e = if e.id == 1 then uncertain "ReadTimeout" else response 400

oldest_first : due_events store.events ≡ second ∷ first ∷ []
unfolding due_events
oldest_first = refl

abbrev unsure : OutboxEvent
unsure = record first { status = reconcile; attempts = 1 }

reconcile_events_lem_example :
    let (s, processed) = reconcile_events "erp" (λ id. found (some 1) (some 2)) (unsure ∷ []) [] in
    ((f : OutboxEvent) × In f (unsure ∷ [])
      × (found (some 1) (some 2) ≡ unhandled)
      × (s.events ≡ unsure ∷ [])
      × (s.receipts ≡ [])
      × (processed ≡ none))
    ⊎ (((f : OutboxEvent) → In f (unsure ∷ []) → found (some 1) (some 2) ≢ unhandled)
        × (processed ≡ some 1)
        × (row : OutboxEvent) × (find_event 1 s.events ≡ some row)
        × ((row.status ≡ delivered) ↔ (found (some 1) (some 2) ≡ found (some 1) (some 2)))
        × ((row.status ≡ retry) ↔ (found (some 1) (some 2) ≡ absent)))
unfolding uncertain_events
reconcile_events_lem_example =
    reconcile_events_lem "erp" (λ id. found (some 1) (some 2)) (unsure ∷ []) [] unsure (tt, tt)
      (inl refl) refl refl
