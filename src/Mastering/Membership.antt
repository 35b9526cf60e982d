-- ===== src/Mastering/Membership.antt =====
-- The history of a source object's membership: one open row, for its entity, and what
-- cannot-link decisions bind.
use recordlane.Base.{
  ℕ, String, ◌≡◌, refl, sym, subst, inl, inr, Bool, true, ◌&&◌, none, some, List, [], ◌∷◌, ◌++◌,
  arith, opt_eq_iff, ◌==◌, if◌then◌else◌, select, select-append, any-append, opt_eq, Bool-cases,
  Option-cases, leb,
}
use recordlane.Mastering.{SourceObject, MembershipHistory, CannotLink}
use recordlane.Mastering.Objects.{
  is_open, joined, latest_open, close, close_open, set_membership, is_cannot_link, keep_apart,
}

-- The history says where the object is: no open row for an object without an entity, and one, for
-- that entity, otherwise.
abbrev pub IsTracked : SourceObject → List MembershipHistory → Type 0
IsTracked o history = elim o.entity_id [
  | none ↦ select (is_open o.id) history ≡ []
  | some e ↦ (h : MembershipHistory) × (select (is_open o.id) history ≡ h ∷ []) × (h.entity_id ≡ e)
]

module _ (object_id : ℕ) where
  latest_open-none :
      (history : List MembershipHistory)
      → select (is_open object_id) history ≡ []
      → latest_open object_id history ≡ none
  latest_open-none [] e = refl
  latest_open-none (h ∷ rest) e = ground (arith, latest_open-none rest)

  latest_open-single :
      (history : List MembershipHistory) (k : MembershipHistory)
      → select (is_open object_id) history ≡ k ∷ []
      → latest_open object_id history ≡ some k
  latest_open-single [] k e = cc
  latest_open-single (h ∷ rest) k e = elim (Bool-cases (is_open object_id h)) [
    | inl q ↦ ground (arith, latest_open-none rest)
    | inr q ↦ ground (arith, latest_open-single rest k)
  ]

  -- Closing opens nothing.
  close-none :
      (now id : ℕ) (history : List MembershipHistory)
      → select (is_open object_id) history ≡ []
      → select (is_open object_id) (close now id history) ≡ []
  close-none now id [] e = refl
  close-none now id (h ∷ rest) e = ground (arith, close-none now id rest)

  close-single :
      (now : ℕ) (history : List MembershipHistory) (k : MembershipHistory)
      → select (is_open object_id) history ≡ k ∷ []
      → select (is_open object_id) (close now k.id history) ≡ []
  close-single now [] k e = cc
  close-single now (h ∷ rest) k e = elim (Bool-cases (is_open object_id h)) [
    | inl q ↦ ground (arith, close-none now k.id rest)
    | inr q ↦ ground (arith, close-single now rest k)
  ]

-- The object has no open row once the latest is closed.
close_open-none :
    (now : ℕ) (o : SourceObject) (history : List MembershipHistory)
    → IsTracked o history
    → select (is_open o.id) (close_open now o.id history) ≡ []
unfolding close_open
close_open-none now o history t = elim (Option-cases o.entity_id) [
  | inl e ↦
      let none_open : select (is_open o.id) history ≡ [] = ground arith in
      ground (arith, latest_open-none o.id history none_open)
  | inr (entity, e) ↦
      let (h, one, of_it) : (h : MembershipHistory) × (select (is_open o.id) history ≡ h ∷ [])
          × (h.entity_id ≡ entity) =
        ground arith in
      let closes : close_open now o.id history ≡ close now h.id history =
        rw (latest_open-single o.id history h one, close_open) refl in
      subst (λ l. select (is_open o.id) l ≡ []) (sym closes) (close-single o.id now history h one)
]

-- A tracked object is tracked after a change of its membership, whether or not it moves: it is of
-- the new entity, and the one open row of its history says so.
pub set_membership-IsTracked :
    (now new_id : ℕ) (by : String) (entity_id : ℕ) (reason : String) (o : SourceObject)
    (history : List MembershipHistory)
    → IsTracked o history
    → let (o', history') = set_membership now new_id by entity_id reason o history in
      (o'.entity_id ≡ some entity_id) × IsTracked o' history'
unfolding set_membership
set_membership-IsTracked now new_id by entity_id reason o history t =
    elim (Bool-cases (opt_eq o.entity_id (some entity_id))) [
      | inl e ↦ rw e ((opt_eq_iff o.entity_id (some entity_id)).0 e, t)
      | inr e ↦
          let row = joined now new_id by entity_id reason o in
          let history' = close_open now o.id history ++ row ∷ [] in
          let one : select (is_open o.id) history' ≡ row ∷ [] =
            rw
              (
                select-append (is_open o.id) (close_open now o.id history) (row ∷ []),
                close_open-none now o history t,
              )
              (ground arith) in
          rw e (refl, (row, one, refl))
    ]

-- Two objects that a decision keeps apart cannot be linked, whichever of them is named first, and
-- earlier decisions stand.
pub keep_apart_lem :
    (reason by : String) (left right : ℕ) (rows : List CannotLink)
    → let rows' = keep_apart reason by left right rows in
      (is_cannot_link rows' left right ≡ true)
      × (is_cannot_link rows' right left ≡ true)
      × ((a b : ℕ) → is_cannot_link rows a b ≡ true → is_cannot_link rows' a b ≡ true)
unfolding keep_apart is_cannot_link
keep_apart_lem reason by left right rows =
    let row : CannotLink = record {
      left_object_id = if leb left right then left else right;
      right_object_id = if leb left right then right else left;
      reason = reason;
      created_by = by;
    } in
    let bound : (a b : ℕ) → CannotLink → Bool = λ a b r.
      r.left_object_id == (if leb a b then a else b)
      && r.right_object_id == (if leb a b then b else a) in
    (
      rw (any-append (bound left right) rows (row ∷ [])) (ground arith),
      rw (any-append (bound right left) rows (row ∷ [])) (ground arith),
      λ a b e. rw (any-append (bound a b) rows (row ∷ [])) (ground arith),
    )
