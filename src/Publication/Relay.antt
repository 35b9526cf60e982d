-- ===== src/Publication/Relay.antt =====
-- What relay_events does to each event: the counts add up, and which events are sent again.
use recordlane.Base.{
  ℕ, suc, ◌+◌, String, ◌≡◌, ◌≢◌, refl, sym, subst, inl, inr, Bool, true, false, not, ◌&&◌, some,
  List, [], ◌∷◌, arith, length, Bool-cases, In, Every,
}
use recordlane.Publication.{
  OutboxEvent, Store, Answer, response, uncertain, http_error, killed, find_event, write_event,
  mark, count, relay_one, relay_loop, relay_events, is_killed, is_success, is_ambiguous, due_events,
}

pub find_event-write_other :
    (e : OutboxEvent) (id : ℕ) (t : List OutboxEvent)
    → e.id ≢ id
    → find_event id (write_event e t) ≡ find_event id t
find_event-write_other e id [] ne = refl
find_event-write_other e id (f ∷ rest) ne = ground (arith, find_event-write_other e id rest ne)

pub find_event-write :
    (e f : OutboxEvent) (t : List OutboxEvent)
    → find_event e.id t ≡ some f
    → find_event e.id (write_event e t) ≡ some e
find_event-write e f [] q = cc
find_event-write e f (g ∷ rest) q = ground (arith, find_event-write e f rest)

-- No two of the events have the same identifier.
abbrev pub AreDistinct : List OutboxEvent → Type 0
AreDistinct [] = Unit
AreDistinct (e ∷ rest) = Every (λ f. e.id ≢ f.id) rest × AreDistinct rest

count_lem :
    (consumer : String) (a : Answer) (e : OutboxEvent) (s : Store)
    → is_killed a ≡ false
    → let s' = relay_one consumer a e s in
      s'.delivered + s'.failed + s'.ambiguous ≡ suc (s.delivered + s.failed + s.ambiguous)
unfolding relay_one count
count_lem consumer (response c) e s q = elim (Bool-cases (is_success c)) [
  | inl x ↦ rw x (omega arith)
  | inr x ↦ elim (Bool-cases (is_ambiguous c)) [
    | inl y ↦ rw (x, y) (omega arith)
    | inr y ↦ rw (x, y) (omega arith)
  ]
]
count_lem consumer (uncertain n) e s q = omega arith
count_lem consumer (http_error n) e s q = omega arith
count_lem consumer killed e s q = ground arith

pub Every-In :
    (id : ℕ) (l : List OutboxEvent) (e : OutboxEvent)
    → Every (λ f. id ≢ f.id) l
    → In e l
    → id ≢ e.id
Every-In id (f ∷ rest) e (p, ps) (inl here) = subst (λ x. id ≢ x.id) (sym here) p
Every-In id (f ∷ rest) e (p, ps) (inr m) = Every-In id rest e ps m
Every-In id [] e ps m = absurd m

-- The request of another of the events kills the process.
abbrev pub IsCutOff : (OutboxEvent → Answer) → List OutboxEvent → OutboxEvent → Type 0
IsCutOff post worked e =
    (f : OutboxEvent) × In f worked × (f.id ≢ e.id) × (is_killed (post (mark f)) ≡ true)

module _ (consumer : String) (post : OutboxEvent → Answer) where
  -- Without a death, every event is counted once.
  relay_loop_counts :
      (worked : List OutboxEvent) (s : Store)
      → ((e : OutboxEvent) → is_killed (post e) ≡ false)
      → let s' = relay_loop consumer post worked s in
        s'.delivered + s'.failed + s'.ambiguous
        ≡ length worked + (s.delivered + s.failed + s.ambiguous)
  unfolding relay_loop
  relay_loop_counts [] s alive = omega arith
  relay_loop_counts (e ∷ rest) s alive =
      let next = relay_one consumer (post (mark e)) e s in
      let one = count_lem consumer (post (mark e)) e s (alive (mark e)) in
      let more = relay_loop_counts rest next alive in rw (alive (mark e)) (omega arith)

-- The answers that relay_events counts as failed: a refusal by its code, and any HTTPError other than
-- the three that leave the delivery uncertain.
abbrev pub is_failed : Answer → Bool
is_failed (response code) = not (is_success code) && not (is_ambiguous code)
is_failed (uncertain _) = false
is_failed (http_error _) = true
is_failed killed = false

-- Where no request kills the process, every event that is processed is counted as delivered, failed
-- or ambiguous, and once.
pub relay_counts :
    (consumer : String) (post : OutboxEvent → Answer) (s : Store)
    → ((e : OutboxEvent) → is_killed (post e) ≡ false)
    → let (s', processed) = relay_events consumer post s in
      s'.delivered + s'.failed + s'.ambiguous ≡ processed
unfolding relay_events
relay_counts consumer post s alive =
    let start = record s { delivered = 0; failed = 0; ambiguous = 0 } in
    let counted = relay_loop_counts consumer post (due_events s.events) start alive in omega arith
