-- ===== src/Mastering/Ordering.antt =====
-- The order of observations of one source object: out-of-order deliveries, and observations without
-- a sequence number.
use recordlane.Base.{
  ℕ, ◌≡◌, ◌≢◌, Bool, true, not, ◌&&◌, ◌||◌, Option, none, some, List, [], ◌∷◌, arith, leb,
  if◌then◌else◌, Every,
}
use recordlane.Mastering.{SourceObject, IncomingRecord}
use recordlane.Mastering.Objects.{observation_is_current, make_current, observe}

-- One observation of the object: its record's identifier, whether its values have errors, and what
-- arrived.
pub record Observation : Type 0 where
  pub record_id : ℕ
  pub has_errors : Bool
  pub item : IncomingRecord

unfoldable pub observe_all : SourceObject → List Observation → SourceObject
observe_all o [] = o
observe_all o (x ∷ rest) = observe_all (observe o x.record_id x.has_errors x.item) rest

-- A deletion, or values without errors.
abbrev pub accepted : Observation → Bool
accepted x = x.item.deleted || not x.has_errors

abbrev pub IsSequenced : Observation → Type 0
IsSequenced x = x.item.sequence ≢ none

-- The highest sequence number of the accepted observations, not below `c`.
abbrev pub highest : ℕ → List Observation → ℕ
highest c [] = c
highest c (x ∷ rest) = elim x.item.sequence [
  | none ↦ highest c rest
  | some s ↦ highest (if accepted x && leb c s then s else c) rest
]

-- What an object's position is after an observation.
abbrev pub Position : Type 0
Position = Option ℕ × Option ℕ × Option ℕ × Bool

abbrev pub position : SourceObject → Position
position o = (o.current_record_id, o.current_sequence, o.current_effective_from, o.retired)

-- Sequenced observations, in whatever order they arrive, leave an object that has a sequence number
-- at the highest of its own and those of the accepted ones.
pub sequence_is_highest :
    (o : SourceObject) (c : ℕ) (xs : List Observation)
    → o.current_sequence ≡ some c
    → Every IsSequenced xs
    → (observe_all o xs).current_sequence ≡ some (highest c xs)
unfolding observe_all observe observation_is_current make_current
sequence_is_highest o c [] e all = e
sequence_is_highest o c (x ∷ rest) e (s, all) = ground (
  arith,
  sequence_is_highest (observe o x.record_id x.has_errors x.item) (highest c (x ∷ [])) rest,
)

-- Two accepted observations with different sequence numbers leave the same position in both orders,
-- whatever was current before.
pub late_arrival_commutes :
    (o : SourceObject) (x y : Observation) (s t : ℕ)
    → x.item.sequence ≡ some s
    → y.item.sequence ≡ some t
    → s ≢ t
    → accepted x ≡ true
    → accepted y ≡ true
    → position (observe_all o (x ∷ y ∷ [])) ≡ position (observe_all o (y ∷ x ∷ []))
unfolding observe_all observe observation_is_current make_current
late_arrival_commutes o x y s t ex ey ne ax ay = ground arith

-- An accepted observation with neither a sequence number nor an effective time becomes current and
-- leaves the object without a sequence number, and any accepted observation with one, however low,
-- then becomes current.
pub unsequenced_resets :
    (o : SourceObject) (x y : Observation) (s : ℕ)
    → x.item.sequence ≡ none
    → x.item.effective_from ≡ none
    → y.item.sequence ≡ some s
    → accepted x ≡ true
    → accepted y ≡ true
    → ((observe_all o (x ∷ [])).current_sequence ≡ none)
      × ((observe_all o (x ∷ y ∷ [])).latest_record_id ≡ some y.record_id)
      × ((observe_all o (x ∷ y ∷ [])).current_sequence ≡ some s)
unfolding observe_all observe observation_is_current make_current
unsequenced_resets o x y s ex fx ey ax ay = ground arith
