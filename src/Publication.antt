-- ===== src/Publication.antt =====
-- publication/service.py: the relay of outbox events to the consumer, and the reconciliation of
-- those whose delivery is uncertain, on the rows of models/tables.py for one workspace. What a
-- request answers is a parameter: a function of the event. `killed` is the process that dies, or an
-- exception that nothing handles, while the request is under way; the row is then as last committed.
use recordlane.Base.{
  ℕ, zero, suc, ◌+◌, String, Bool, true, false, not, ◌&&◌, ◌||◌, Option, none, some, List, [], ◌∷◌,
  ◌++◌, ltb, leb, ◌==◌, if◌then◌else◌, str_eq, opt_eq, length, take, select, Dict,
}
use recordlane.Json.{Value}
mod Relay
mod Reconcile
mod Tests

pub data EventStatus : Type 0 where
  pending retry reconcile delivered dead_letter : EventStatus

-- last_error: HTTP_<code>, the name of an exception, or a reconciliation's.
pub data Failure : Type 0 where
  http : ℕ → Failure
  exception : String → Failure
  consumer_receipt_absent consumer_receipt_mismatch : Failure

pub record OutboxEvent : Type 0 where
  pub id : ℕ
  pub entity_version : Option ℕ
  pub payload : Dict Value
  pub status : EventStatus
  pub attempts : ℕ
  pub last_error : Option Failure
  pub occurred_at : ℕ

pub data AttemptStatus : Type 0 where
  sending accepted ambiguous rejected failed : AttemptStatus

pub record DeliveryAttempt : Type 0 where
  pub event_id : ℕ
  pub consumer_key : String
  pub attempt : ℕ
  pub status : AttemptStatus
  pub response_code : Option ℕ
  pub error : Option Failure

pub data ReceiptOutcome : Type 0 where
  accepted_response reconciled : ReceiptOutcome

pub record PublicationReceipt : Type 0 where
  pub event_id : ℕ
  pub consumer_key : String
  pub entity_version : Option ℕ
  pub outcome : ReceiptOutcome

-- The committed tables, and the counters of the loop.
pub record Store : Type 0 where
  pub events : List OutboxEvent
  pub deliveries : List DeliveryAttempt
  pub receipts : List PublicationReceipt
  pub delivered : ℕ
  pub failed : ℕ
  pub ambiguous : ℕ

-- What `post` does: a response's code, one of ReadTimeout, WriteError and ReadError, another
-- HTTPError, or the end of the process.
pub data Answer : Type 0 where
  response : ℕ → Answer
  uncertain http_error : String → Answer
  killed : Answer

abbrev pub find_event : ℕ → List OutboxEvent → Option OutboxEvent
find_event id [] = none
find_event id (e ∷ rest) = if e.id == id then some e else find_event id rest

abbrev pub write_event : OutboxEvent → List OutboxEvent → List OutboxEvent
write_event e [] = []
write_event e (f ∷ rest) = (if f.id == e.id then e else f) ∷ write_event e rest

-- `status in ("pending", "retry")`
abbrev pub is_due : OutboxEvent → Bool
is_due e = elim e.status [ pending ↦ true | retry ↦ true | _ ↦ false ]

abbrev pub insert_event : OutboxEvent → List OutboxEvent → List OutboxEvent
insert_event e [] = e ∷ []
insert_event e (f ∷ rest) =
    let later = insert_event e rest in
    if leb e.occurred_at f.occurred_at then e ∷ f ∷ rest else f ∷ later

-- `order_by(occurred_at)`
abbrev pub by_time : List OutboxEvent → List OutboxEvent
by_time [] = []
by_time (e ∷ rest) = insert_event e (by_time rest)

unfoldable pub due_events : List OutboxEvent → List OutboxEvent
due_events events = take 100 (by_time (select is_due events))

-- _receipt: one for an event and consumer.
unfoldable pub receipt :
    OutboxEvent → String → ReceiptOutcome → List PublicationReceipt → List PublicationReceipt
receipt e consumer outcome [] =
    record {
      event_id = e.id;
      consumer_key = consumer;
      entity_version = e.entity_version;
      outcome = outcome;
    }
    ∷ []
receipt e consumer outcome (r ∷ rest) =
    let more = receipt e consumer outcome rest in
    if r.event_id == e.id && str_eq r.consumer_key consumer
    then record r { entity_version = e.entity_version; outcome = outcome } ∷ rest
    else r ∷ more

-- What is committed before the request.
unfoldable pub mark : OutboxEvent → OutboxEvent
mark e = record e { attempts = e.attempts + 1; status = reconcile }

abbrev pub is_success : ℕ → Bool
is_success code = leb 200 code && ltb code 300

abbrev pub is_ambiguous : ℕ → Bool
is_ambiguous code = (code == 429) || leb 500 code

-- "dead_letter" if event.attempts >= 5 else "retry"
abbrev pub refuse : Failure → OutboxEvent → OutboxEvent
refuse f e = record e {
  status = if leb 5 e.attempts then dead_letter else retry;
  last_error = some f;
}

-- The event after the answer; that of the marker if there is none.
unfoldable pub settle : Answer → OutboxEvent → OutboxEvent
settle (response code) e =
    if is_success code
    then record e { status = delivered; last_error = none }
    else if is_ambiguous code
    then record e { status = reconcile; last_error = some (http code) }
    else refuse (http code) e
settle (uncertain name) e = record e { status = reconcile; last_error = some (exception name) }
settle (http_error name) e = refuse (exception name) e
settle killed e = e

-- The attempt's row after the answer.
unfoldable pub attempt_of : String → Answer → OutboxEvent → DeliveryAttempt
attempt_of consumer answer e =
    let attempt : DeliveryAttempt = record {
      event_id = e.id;
      consumer_key = consumer;
      attempt = e.attempts;
      status = sending;
      response_code = none;
      error = none;
    } in
    elim answer [
      | response code ↦ record attempt {
        status =
            if is_success code then accepted else if is_ambiguous code then ambiguous else rejected;
        response_code = some code;
        error = if is_success code then none else some (http code);
      }
      | uncertain name ↦ record attempt { status = ambiguous; error = some (exception name) }
      | http_error name ↦ record attempt { status = failed; error = some (exception name) }
      | killed ↦ attempt
    ]

-- The counters and receipts after the answer.
unfoldable pub count : String → Answer → OutboxEvent → Store → Store
unfolding receipt
count consumer (response code) e s =
    if is_success code
    then record s {
      receipts = receipt e consumer accepted_response s.receipts;
      delivered = s.delivered + 1;
    }
    else if is_ambiguous code
    then record s { ambiguous = s.ambiguous + 1 }
    else record s { failed = s.failed + 1 }
count consumer (uncertain name) e s = record s { ambiguous = s.ambiguous + 1 }
count consumer (http_error name) e s = record s { failed = s.failed + 1 }
count consumer killed e s = s

-- One round of the relay's loop: the marker, the request, and what follows it.
unfoldable pub relay_one : String → Answer → OutboxEvent → Store → Store
unfolding mark settle attempt_of count
relay_one consumer answer e s =
    let marked = mark e in
    let counted = count consumer answer marked s in
    record counted {
      events = write_event (settle answer marked) s.events;
      deliveries = s.deliveries ++ attempt_of consumer answer marked ∷ [];
    }

-- The loop ends where the process does.
abbrev pub is_killed : Answer → Bool
is_killed killed = true
is_killed _ = false

unfoldable pub relay_loop : String → (OutboxEvent → Answer) → List OutboxEvent → Store → Store
unfolding relay_one
relay_loop consumer post [] s = s
relay_loop consumer post (e ∷ rest) s =
    let next = relay_one consumer (post (mark e)) e s in
    let more = relay_loop consumer post rest next in
    if is_killed (post (mark e)) then next else more

-- relay_events: the store after it, and `processed`.
unfoldable pub relay_events : String → (OutboxEvent → Answer) → Store → Store × ℕ
unfolding due_events relay_loop
relay_events consumer post s =
    let events = due_events s.events in
    (
      relay_loop consumer post events (record s { delivered = 0; failed = 0; ambiguous = 0 }),
      length events,
    )
