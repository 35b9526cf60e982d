-- ===== src/Publication/Reconcile.antt =====
-- reconcile_events of publication/service.py: the consumer is asked for the receipt of each event
-- whose delivery is uncertain. What it answers is a parameter. The loop is committed as a whole.
use recordlane.Base.{
  ℕ, ◌+◌, String, ◌≡◌, ◌≢◌, ◌↔◌, ◌⊎◌, refl, sym, ap, ◌∙◌, subst, inl, inr, Bool, true, false, ◌&&◌,
  Option, none, some, List, [], ◌∷◌, arith, opt_eq, opt_eq_iff, if◌then◌else◌, length, take, select,
  In, Every,
}
use recordlane.Publication.{
  OutboxEvent, retry, reconcile, delivered, exception, consumer_receipt_absent,
  consumer_receipt_mismatch, PublicationReceipt, reconciled, find_event, write_event, by_time,
  receipt,
}
use recordlane.Publication.Relay.{find_event-write, find_event-write_other, AreDistinct, Every-In}

-- A 404, the event and version of a receipt, an HTTPError or ValueError by name, or any other
-- exception, such as the AttributeError for a body that is no object, which leaves the function.
pub data ReceiptAnswer : Type 0 where
  absent : ReceiptAnswer
  found : Option ℕ → Option ℕ → ReceiptAnswer
  error : String → ReceiptAnswer
  unhandled : ReceiptAnswer

-- `status == "reconcile"`
abbrev pub is_uncertain : OutboxEvent → Bool
is_uncertain e = elim e.status [ reconcile ↦ true | _ ↦ false ]

unfoldable pub uncertain_events : List OutboxEvent → List OutboxEvent
uncertain_events events = take 100 (by_time (select is_uncertain events))

-- The payload names the event and its version.
abbrev pub is_receipt : Option ℕ → Option ℕ → OutboxEvent → Bool
is_receipt id version e = opt_eq id (some e.id) && opt_eq version e.entity_version

-- The event after the consumer's answer.
unfoldable pub judge : ReceiptAnswer → OutboxEvent → OutboxEvent
judge absent e = record e { status = retry; last_error = some consumer_receipt_absent }
judge (found id version) e =
    if is_receipt id version e
    then record e { status = delivered; last_error = none }
    else record e { last_error = some consumer_receipt_mismatch }
judge (error name) e = record e { last_error = some (exception name) }
judge unhandled e = e

pub record Reconciliation : Type 0 where
  pub events : List OutboxEvent
  pub receipts : List PublicationReceipt
  pub verified : ℕ
  pub absences : ℕ
  pub unresolved : ℕ

-- The counters and receipts after the answer.
unfoldable pub tally : String → ReceiptAnswer → OutboxEvent → Reconciliation → Reconciliation
tally consumer absent e s = record s { absences = s.absences + 1 }
tally consumer (found id version) e s =
    if is_receipt id version e
    then record s { receipts = receipt e consumer reconciled s.receipts; verified = s.verified + 1 }
    else record s { unresolved = s.unresolved + 1 }
tally consumer (error name) e s = record s { unresolved = s.unresolved + 1 }
tally consumer unhandled e s = s

unfoldable pub reconcile_one :
    String → ReceiptAnswer → OutboxEvent → Reconciliation → Reconciliation
unfolding judge tally
reconcile_one consumer answer e s =
    let tallied = tally consumer answer e s in
    record tallied { events = write_event (judge answer e) s.events }

unfoldable pub reconcile_loop :
    String → (ℕ → ReceiptAnswer) → List OutboxEvent → Reconciliation → Reconciliation
unfolding reconcile_one
reconcile_loop consumer get [] s = s
reconcile_loop consumer get (e ∷ rest) s =
    reconcile_loop consumer get rest (reconcile_one consumer (get e.id) e s)

-- Whether an exception leaves the loop.
unfoldable pub aborts : (ℕ → ReceiptAnswer) → List OutboxEvent → Bool
aborts get [] = false
aborts get (e ∷ rest) = elim (get e.id) [ unhandled ↦ true | _ ↦ aborts get rest ]

-- The tables and counters after it, and `processed`. Where an exception leaves the loop, the
-- transaction is rolled back, and there is no `processed`.
unfoldable pub reconcile_events :
    String
    → (ℕ → ReceiptAnswer)
    → List OutboxEvent
    → List PublicationReceipt
    → Reconciliation × Option ℕ
unfolding uncertain_events reconcile_loop aborts
reconcile_events consumer get events receipts =
    let worked = uncertain_events events in
    let start : Reconciliation = record {
      events = events;
      receipts = receipts;
      verified = 0;
      absences = 0;
      unresolved = 0;
    } in
    if aborts get worked
    then (start, none)
    else (reconcile_loop consumer get worked start, some (length worked))

judge-id : (a : ReceiptAnswer) (e : OutboxEvent) → (judge a e).id ≡ e.id
unfolding judge
judge-id absent e = refl
judge-id (found id version) e = ground arith
judge-id (error name) e = refl
judge-id unhandled e = refl

module _ (consumer : String) (get : ℕ → ReceiptAnswer) where
  reconcile_loop-other :
      (worked : List OutboxEvent) (s : Reconciliation) (id : ℕ)
      → Every (λ f. id ≢ f.id) worked
      → find_event id (reconcile_loop consumer get worked s).events ≡ find_event id s.events
  unfolding reconcile_loop reconcile_one
  reconcile_loop-other [] s id apart = refl
  reconcile_loop-other (e ∷ rest) s id (ne, apart) =
      let answer = get e.id in
      reconcile_loop-other rest (reconcile_one consumer answer e s) id apart
      ∙ find_event-write_other (judge answer e) id s.events (λ q. ne (sym q ∙ judge-id answer e))

  reconcile_loop-head :
      (f : OutboxEvent) (rest : List OutboxEvent) (s : Reconciliation)
      → Every (λ g. f.id ≢ g.id) rest
      → find_event f.id s.events ≡ some f
      → find_event f.id (reconcile_loop consumer get (f ∷ rest) s).events
        ≡ some (judge (get f.id) f)
  unfolding reconcile_loop reconcile_one
  reconcile_loop-head f rest s apart held =
      let after = judge (get f.id) f in
      let same : after.id ≡ f.id = judge-id (get f.id) f in
      reconcile_loop-other rest (reconcile_one consumer (get f.id) f s) f.id apart
      ∙ subst (λ n. find_event n (write_event after s.events) ≡ some after) same
          (find_event-write after f s.events (ap (λ n. find_event n s.events) same ∙ held))

  reconcile_loop-each :
      (worked : List OutboxEvent) (s : Reconciliation) (e : OutboxEvent)
      → AreDistinct worked
      → In e worked
      → find_event e.id s.events ≡ some e
      → find_event e.id (reconcile_loop consumer get worked s).events ≡ some (judge (get e.id) e)
  unfolding reconcile_loop reconcile_one
  reconcile_loop-each [] s e distinct m held = absurd m
  reconcile_loop-each (f ∷ rest) s e (apart, distinct) (inl here) held =
      subst
        (λ x.
          find_event x.id (reconcile_loop consumer get (f ∷ rest) s).events
          ≡ some (judge (get x.id) x))
        (sym here)
        (reconcile_loop-head f rest s apart
          (subst (λ x. find_event x.id s.events ≡ some x) here held))
  reconcile_loop-each (f ∷ rest) s e (apart, distinct) (inr m) held =
      let after = judge (get f.id) f in
      let ne : after.id ≢ e.id =
        λ q. Every-In f.id rest e apart m (sym (judge-id (get f.id) f) ∙ q) in
      reconcile_loop-each rest (reconcile_one consumer (get f.id) f s) e distinct m
        (find_event-write_other after e.id s.events ne ∙ held)

judge_lem :
    (a : ReceiptAnswer) (e : OutboxEvent)
    → e.status ≡ reconcile
    → (((judge a e).status ≡ delivered) ↔ (a ≡ found (some e.id) e.entity_version))
      × (((judge a e).status ≡ retry) ↔ (a ≡ absent))
unfolding judge
judge_lem absent e u = ground arith
judge_lem (error name) e u = ground arith
judge_lem unhandled e u = ground arith
judge_lem (found id version) e u =
    ground (arith, opt_eq_iff id (some e.id), opt_eq_iff version e.entity_version)

unhandled-cases : (a : ReceiptAnswer) → (a ≡ unhandled) ⊎ (a ≢ unhandled)
unhandled-cases absent = inr (λ q. ground arith)
unhandled-cases (found id version) = inr (λ q. ground arith)
unhandled-cases (error name) = inr (λ q. ground arith)
unhandled-cases unhandled = inl refl

aborts-cases :
    (get : ℕ → ReceiptAnswer) (worked : List OutboxEvent)
    → ((f : OutboxEvent) × In f worked × (get f.id ≡ unhandled) × (aborts get worked ≡ true))
      ⊎ (((f : OutboxEvent) → In f worked → get f.id ≢ unhandled) × (aborts get worked ≡ false))
unfolding aborts
aborts-cases get [] = inr ((λ f m q. m), refl)
aborts-cases get (e ∷ rest) =
    let here : (get e.id ≡ unhandled) ⊎ (get e.id ≢ unhandled) = unhandled-cases (get e.id) in
    elim here [
      | inl q ↦ inl (e, inl refl, q, ground (arith, q))
      | inr ne ↦ elim (aborts-cases get rest) [
        | inl (f, m, q, more) ↦ inl (f, inr m, q, ground (arith, ne, more))
        | inr (handled, more) ↦
            let all_handled : (f : OutboxEvent) → In f (e ∷ rest) → get f.id ≢ unhandled = λ f m q.
              elim m [
                | inl here ↦ ne (ap (λ x. get x.id) (sym here) ∙ q)
                | inr there ↦ handled f there q
              ] in
            inr (all_handled, ground (arith, ne, more))
      ]
    ]

-- A reconciliation asks for the first 100 of the uncertain events, in the order of their time. If
-- the answer for one of them raises an exception that is not caught, the tables stay as they were.
-- Otherwise each of them is delivered exactly if the consumer has a receipt for it and its version,
-- and is to be sent again exactly if the consumer has none. These events have different identifiers,
-- and the event's row is that of the table.
pub reconcile_events_lem :
    (consumer : String) (get : ℕ → ReceiptAnswer) (events : List OutboxEvent)
    (receipts : List PublicationReceipt) (e : OutboxEvent)
    → let worked = uncertain_events events in
      AreDistinct worked
      → In e worked
      → find_event e.id events ≡ some e
      → e.status ≡ reconcile
      → let (s, processed) = reconcile_events consumer get events receipts in
        ((f : OutboxEvent) × In f worked
          × (get f.id ≡ unhandled)
          × (s.events ≡ events)
          × (s.receipts ≡ receipts)
          × (processed ≡ none))
        ⊎ (((f : OutboxEvent) → In f worked → get f.id ≢ unhandled)
            × (processed ≡ some (length worked))
            × (row : OutboxEvent) × (find_event e.id s.events ≡ some row)
            × ((row.status ≡ delivered) ↔ (get e.id ≡ found (some e.id) e.entity_version))
            × ((row.status ≡ retry) ↔ (get e.id ≡ absent)))
unfolding reconcile_events
reconcile_events_lem consumer get events receipts e distinct m held uncertain =
    let worked = uncertain_events events in
    let start : Reconciliation = record {
      events = events;
      receipts = receipts;
      verified = 0;
      absences = 0;
      unresolved = 0;
    } in
    let row = reconcile_loop-each consumer get worked start e distinct m held in
    let (is_delivered, is_retry) = judge_lem (get e.id) e uncertain in
    elim (aborts-cases get worked) [
      | inl (f, among, q, raised) ↦ rw raised (inl (f, among, q, refl, refl, refl))
      | inr (handled, calm) ↦
          rw calm (inr (handled, refl, judge (get e.id) e, row, is_delivered, is_retry))
    ]
