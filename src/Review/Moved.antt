-- ===== src/Review/Moved.antt =====
-- What an approved merge moves: _apply_merge.
use recordlane.Base.{
  ℕ, suc, String, ◌≡◌, refl, sym, ap, ◌∙◌, subst, inl, inr, Bool, true, false, not, ◌&&◌, ◌||◌,
  none, some, List, [], ◌∷◌, arith, ◌==◌, ==_iff, opt_eq, opt_eq_iff, Bool-cases, any, contains,
  str_eq,
}
use recordlane.Http.{ok, >>=-ok, ok-eq, required, raise_if}
use recordlane.Mastering.{SourceObject, MembershipHistory, Entity}
use recordlane.Mastering.Objects.{set_membership}
use recordlane.Mastering.Survivor.{master_values}
use recordlane.Mastering.Resolve.{find_entity, bump}
use recordlane.Review.{Relationship, Store, find_first}
use recordlane.Review.Draft.{draft}
use recordlane.Review.Merge.{
  move_members, move, is_member, redirect, mark_merged, bound_version, find_unmerged, merge_one,
  merge_all, redraft, apply_merge,
}

abbrev pub touches : ℕ → Relationship → Bool
touches id r = r.from_entity_id == id || r.to_entity_id == id

set_membership-entity :
    (now next : ℕ) (by : String) (e : ℕ) (reason : String) (o : SourceObject)
    (history : List MembershipHistory)
    → (set_membership now next by e reason o history).0.entity_id ≡ some e
unfolding set_membership
set_membership-entity now next by e reason o history =
    elim (Bool-cases (opt_eq o.entity_id (some e))) [
      | inl q ↦ rw q ((opt_eq_iff o.entity_id (some e)).0 q)
      | inr q ↦ rw q refl
    ]

module _ (now : ℕ) (by : String) (primary : ℕ) (reason : String) (id : ℕ) where
  -- Objects that move to another entity are not members of this one.
  move_members-others :
      (p : SourceObject → Bool) (next : ℕ) (objects : List SourceObject)
      (history : List MembershipHistory)
      → (primary == id) ≡ false
      → any (λ o. is_member id o && not (p o)) objects ≡ false
      → any (is_member id) (move_members now by primary reason p next objects history).0 ≡ false
  unfolding move_members
  move_members-others p next [] history other none_left = refl
  move_members-others p next (o ∷ rest) history other none_left =
      let moved = set_membership now next by primary reason o history in
      elim (Bool-cases (p o)) [
        | inl q ↦
            let there = set_membership-entity now next by primary reason o history in
            let later = move_members-others p (suc next) rest moved.1 other (ground arith) in
            let here : is_member id moved.0 ≡ false = ap (λ e. opt_eq e (some id)) there ∙ other in
            rw (q, here, later) refl
        | inr q ↦
            let later = move_members-others p (suc next) rest history other (ground arith) in
            let here : is_member id o ≡ false = ground arith in rw (q, here, later) refl
      ]

any-weaker :
    {A : Type 0} (p q : A → Bool) (l : List A) → any p l ≡ false → any (λ x. p x && q x) l ≡ false
any-weaker p q [] e = refl
any-weaker p q (x ∷ l) e = ground (arith, any-weaker p q l)

no-other :
    (id : ℕ) (objects : List SourceObject)
    → any (λ o. is_member id o && not (is_member id o)) objects ≡ false
no-other id [] = refl
no-other id (o ∷ rest) = ground (arith, no-other id rest)

redirect-gone :
    (id primary : ℕ) (l : List Relationship)
    → (primary == id) ≡ false
    → any (touches id) (redirect id primary l) ≡ false
redirect-gone id primary [] other = refl
redirect-gone id primary (r ∷ l) other = ground (arith, redirect-gone id primary l)

redirect-kept :
    (id old primary : ℕ) (l : List Relationship)
    → (primary == id) ≡ false
    → any (touches id) l ≡ false
    → any (touches id) (redirect old primary l) ≡ false
redirect-kept id old primary [] other e = refl
redirect-kept id old primary (r ∷ l) other e = ground (arith, redirect-kept id old primary l)

mark_merged-gone : (id : ℕ) (l : List Entity) → find_unmerged id (mark_merged id l) ≡ none
mark_merged-gone id [] = refl
mark_merged-gone id (e ∷ l) = ground (arith, mark_merged-gone id l)

mark_merged-kept :
    (id old : ℕ) (l : List Entity)
    → find_unmerged id l ≡ none
    → find_unmerged id (mark_merged old l) ≡ none
mark_merged-kept id old [] e = refl
mark_merged-kept id old (x ∷ l) e = ground (arith, mark_merged-kept id old l)

bump-kept :
    (id old : ℕ) (l : List Entity)
    → find_unmerged id l ≡ none
    → find_unmerged id (bump old l) ≡ none
bump-kept id old [] e = refl
bump-kept id old (x ∷ l) e = ground (arith, bump-kept id old l)

-- No object, no relationship and no unmerged entity has the identifier.
pub record IsGone {F : Type 0} (id : ℕ) (store : Store F) : Type 0 where
  pub no_member : any (is_member id) store.objects ≡ false
  pub no_relationship : any (touches id) store.relationships ≡ false

module _ {F : Type 0} (now : ℕ) (by : String) (primary : ℕ) (bound : List (ℕ × ℕ)) where
  -- What one step of the merge writes.
  merge_one-writes :
      (id : ℕ) (store store' : Store F)
      → merge_one now by primary bound id store ≡ ok store'
      → (store'.objects
          ≡ (move_members now by primary "approved_merge"
              (is_member id)
              store.next
              store.objects
              store.history).0)
        × (store'.relationships ≡ redirect id primary store.relationships)
        × (store'.entities ≡ mark_merged id store.entities)
  unfolding merge_one move
  merge_one-writes id store store' e =
      let (entity, _, f) =
        >>=-ok (required (find_unmerged id store.entities) 409 "merge_entity_changed") _ _ e in
      let (_, _, g) =
        >>=-ok
          (raise_if (not (opt_eq (bound_version id bound) (some entity.version))) 409
            "merge_entity_changed")
          _ _ f in
      let same = sym (ok-eq g) in
      (ap (λ s. s.objects) same, ap (λ s. s.relationships) same, ap (λ s. s.entities) same)

  merge_one-IsGone :
      (id : ℕ) (store store' : Store F)
      → merge_one now by primary bound id store ≡ ok store'
      → (primary == id) ≡ false
      → IsGone id store'
  merge_one-IsGone id store store' e other =
      let (o, r, _) = merge_one-writes id store store' e in
      record {
        no_member =
            ap (any (is_member id)) o
            ∙ move_members-others now by primary "approved_merge" id (is_member id) store.next
                store.objects store.history other (no-other id store.objects);
        no_relationship =
            ap (any (touches id)) r ∙ redirect-gone id primary store.relationships other;
      }

  merge_one-keeps-IsGone :
      (id j : ℕ) (store store' : Store F)
      → merge_one now by primary bound id store ≡ ok store'
      → (primary == j) ≡ false
      → IsGone j store
      → IsGone j store'
  merge_one-keeps-IsGone id j store store' e other gone =
      let (o, r, _) = merge_one-writes id store store' e in
      record {
        no_member =
            ap (any (is_member j)) o
            ∙ move_members-others now by primary "approved_merge" j (is_member id) store.next
                store.objects store.history other
                (any-weaker (is_member j) (λ x. not (is_member id x)) store.objects gone.no_member);
        no_relationship =
            ap (any (touches j)) r
            ∙ redirect-kept j id primary store.relationships other gone.no_relationship;
      }

  merge_all-keeps-IsGone :
      (ids : List ℕ) (j : ℕ) (store store' : Store F)
      → merge_all now by primary bound ids store ≡ ok store'
      → (primary == j) ≡ false
      → IsGone j store
      → IsGone j store'
  unfolding merge_all
  merge_all-keeps-IsGone [] j store store' e other gone = subst (IsGone j) (ok-eq e) gone
  merge_all-keeps-IsGone (id ∷ rest) j store store' e other gone =
      let (t, f, g) = >>=-ok (merge_one now by primary bound id store) _ _ e in
      merge_all-keeps-IsGone rest j t store' g other
        (merge_one-keeps-IsGone id j store t f other gone)

  merge_all-IsGone :
      (ids : List ℕ) (j : ℕ) (store store' : Store F)
      → merge_all now by primary bound ids store ≡ ok store'
      → (primary == j) ≡ false
      → contains j ids ≡ true
      → IsGone j store'
  unfolding merge_all
  merge_all-IsGone [] j store store' e other c = ground arith
  merge_all-IsGone (id ∷ rest) j store store' e other c =
      let (t, f, g) = >>=-ok (merge_one now by primary bound id store) _ _ e in
      elim (Bool-cases (id == j)) [
        | inl q ↦
            let same : id ≡ j = (==_iff id j).0 q in
            merge_all-keeps-IsGone rest j t store' g other (
              subst (λ i. IsGone i t) same
                (merge_one-IsGone id store t f
                  (subst (λ i. (primary == i) ≡ false) (sym same) other)))
        | inr q ↦ merge_all-IsGone rest j t store' g other (ground arith)
      ]

  -- An entity that is marked stays marked.
  merge_all-marked :
      (ids : List ℕ) (j : ℕ) (store store' : Store F)
      → merge_all now by primary bound ids store ≡ ok store'
      → find_unmerged j store.entities ≡ none
      → find_unmerged j store'.entities ≡ none
  unfolding merge_all
  merge_all-marked [] j store store' e gone =
      ap (λ s. find_unmerged j s.entities) (sym (ok-eq e)) ∙ gone
  merge_all-marked (id ∷ rest) j store store' e gone =
      let (t, f, g) = >>=-ok (merge_one now by primary bound id store) _ _ e in
      let (_, _, marked) = merge_one-writes id store t f in
      merge_all-marked rest j t store' g
        (ap (find_unmerged j) marked ∙ mark_merged-kept j id store.entities gone)

  merge_all-marks :
      (ids : List ℕ) (j : ℕ) (store store' : Store F)
      → merge_all now by primary bound ids store ≡ ok store'
      → contains j ids ≡ true
      → find_unmerged j store'.entities ≡ none
  unfolding merge_all
  merge_all-marks [] j store store' e c = ground arith
  merge_all-marks (id ∷ rest) j store store' e c =
      let (t, f, g) = >>=-ok (merge_one now by primary bound id store) _ _ e in
      let (_, _, marked) = merge_one-writes id store t f in
      elim (Bool-cases (id == j)) [
        | inl q ↦
            let same : id ≡ j = (==_iff id j).0 q in
            merge_all-marked rest j t store' g (
              ap (find_unmerged j) marked
              ∙ subst (λ i. find_unmerged i (mark_merged id store.entities) ≡ none) same
                  (mark_merged-gone id store.entities))
        | inr q ↦ merge_all-marks rest j t store' g (ground arith)
      ]

-- What a draft leaves alone.
draft-keeps :
    {F : Type 0} (entity : Entity) (store : Store F) (x : Store F × ℕ)
    → draft entity store ≡ ok x
    → (x.0.objects ≡ store.objects)
      × (x.0.relationships ≡ store.relationships)
      × (x.0.entities ≡ store.entities)
unfolding draft
draft-keeps entity store x e =
    let (domain, _, f) =
      >>=-ok
        (required (find_first (λ d. str_eq d.key entity.domain_key) store.domains) 409
          "entity_domain_missing")
        _ _ e in
    let policy = domain.definition in
    let (master, _, g) =
      >>=-ok
        (required
          (master_values policy.survivorship policy.version policy.checksum store.sources
            store.records store.objects entity.id)
          500 "AttributeError")
        _ _ f in
    let same = sym (ok-eq g) in
    (ap (λ y. y.0.objects) same, ap (λ y. y.0.relationships) same, ap (λ y. y.0.entities) same)

redraft-keeps :
    {F : Type 0} (id : ℕ) (store : Store F) (x : Store F × ℕ)
    → redraft id store ≡ ok x
    → (x.0.objects ≡ store.objects)
      × (x.0.relationships ≡ store.relationships)
      × (x.0.entities ≡ bump id store.entities)
unfolding redraft
redraft-keeps id store x e =
    let bumped = record store { entities = bump id store.entities } in
    let (entity, _, f) =
      >>=-ok (required (find_entity id bumped.entities) 409 "entity_missing") _ _ e in
    draft-keeps entity bumped x f

apply_merge-writes :
    {F : Type 0} (now : ℕ) (by : String) (primary : ℕ) (ids : List ℕ) (bound : List (ℕ × ℕ))
    (reason : String) (store store' : Store F)
    → apply_merge now by primary ids bound reason store ≡ ok store'
    → (t : Store F) × (merge_all now by primary bound ids store ≡ ok t)
      × (store'.objects ≡ t.objects)
      × (store'.relationships ≡ t.relationships)
      × (store'.entities ≡ bump primary t.entities)
unfolding apply_merge
apply_merge-writes now by primary ids bound reason store store' e =
    let (found, _, f) =
      >>=-ok (required (find_entity primary store.entities) 409 "primary_entity_missing") _ _ e in
    let (_, _, g) =
      >>=-ok
        (raise_if (not (opt_eq (bound_version primary bound) (some found.version))) 409
          "merge_entity_changed")
        _ _ f in
    let (t, h, k) = >>=-ok (merge_all now by primary bound ids store) _ _ g in
    let (x, l, m) = >>=-ok (redraft primary t) _ _ k in
    let (o, r, n) = redraft-keeps primary t x l in
    let same = sym (ok-eq m) in
    (
      t,
      h,
      ap (λ s. s.objects) same ∙ o,
      ap (λ s. s.relationships) same ∙ r,
      ap (λ s. s.entities) same ∙ n,
    )

-- A merge that ends well leaves nothing at an entity that it merges into another: no source object
-- is a member of it, no relationship starts or ends at it, and it counts as merged.
pub merge_moves_all :
    {F : Type 0} (now : ℕ) (by : String) (primary : ℕ) (ids : List ℕ) (bound : List (ℕ × ℕ))
    (reason : String) (store store' : Store F) (id : ℕ)
    → apply_merge now by primary ids bound reason store ≡ ok store'
    → contains id ids ≡ true
    → (primary == id) ≡ false
    → (any (is_member id) store'.objects ≡ false)
      × (any (touches id) store'.relationships ≡ false)
      × (find_unmerged id store'.entities ≡ none)
merge_moves_all now by primary ids bound reason store store' id e c other =
    let (t, h, o, r, n) = apply_merge-writes now by primary ids bound reason store store' e in
    let gone = merge_all-IsGone now by primary bound ids id store t h other c in
    (
      ap (any (is_member id)) o ∙ gone.no_member,
      ap (any (touches id)) r ∙ gone.no_relationship,
      ap (find_unmerged id) n
          ∙ bump-kept id primary t.entities
              (merge_all-marks now by primary bound ids id store t h c),
    )

-- A merge whose primary entity is also among the merged ones, and that ends well, leaves the primary
-- entity merged: no unmerged entity has its identifier.
pub merge_into_itself :
    {F : Type 0} (now : ℕ) (by : String) (primary : ℕ) (ids : List ℕ) (bound : List (ℕ × ℕ))
    (reason : String) (store store' : Store F)
    → apply_merge now by primary ids bound reason store ≡ ok store'
    → contains primary ids ≡ true
    → find_unmerged primary store'.entities ≡ none
merge_into_itself now by primary ids bound reason store store' e c =
    let (t, h, _, _, n) = apply_merge-writes now by primary ids bound reason store store' e in
    ap (find_unmerged primary) n
    ∙ bump-kept primary primary t.entities
        (merge_all-marks now by primary bound ids primary store t h c)
