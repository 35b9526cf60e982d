-- ===== src/Policy/Decision.antt =====
-- The decision of CompiledPolicy.compare: hard identifier conflicts first, then the thresholds.
use recordlane.Base.{
  subst, ◌≡◌, ◌≢◌, refl, ◌↔◌, inl, inr, true, false, none, some, List, [], ◌∷◌, arith, Dict, lookup,
  Option-cases, In,
}
use recordlane.Json.{Value, value_eq}
use recordlane.Policy.{Library, Floats, Identifier, Matching}
use recordlane.Policy.Compare.{
  keep_separate, Contradiction, both, contradiction, contradictions, decide, compare,
}

-- Two records conflict in a hard identifier: both have it, with different values.
pub record HardConflict (i : Identifier) (left right : Dict Value) : Type 0 where
  pub a : Value
  pub b : Value
  pub is_hard : i.hard_conflict ≡ true
  pub have_both : both (lookup i.field left) (lookup i.field right) ≡ some (a, b)
  pub differ : value_eq a b ≡ false

module _ (left right : Dict Value) where
  contradiction-HardConflict :
      (i : Identifier) (c : Contradiction)
      → contradiction left right i ≡ some c
      → HardConflict i left right
  unfolding contradiction
  contradiction-HardConflict i c h =
      elim (Option-cases (both (lookup i.field left) (lookup i.field right))) [
        | inl e ↦ absurd (ground arith)
        | inr ((a, b), e) ↦ record {
          a = a;
          b = b;
          is_hard = ground arith;
          have_both = e;
          differ = ground arith;
        }
      ]

  HardConflict-contradiction :
      (i : Identifier) → HardConflict i left right → contradiction left right i ≢ none
  unfolding contradiction
  HardConflict-contradiction i h = ground (arith, h.have_both, h.is_hard, h.differ)

  contradictions-HardConflict :
      (identifiers : List Identifier)
      → contradictions identifiers left right ≢ []
      → (i : Identifier) × In i identifiers × HardConflict i left right
  unfolding contradictions
  contradictions-HardConflict [] h = absurd (h refl)
  contradictions-HardConflict (i ∷ rest) h = elim (Option-cases (contradiction left right i)) [
    | inl e ↦
        let found = contradictions-HardConflict rest (λ q. ground arith) in
        (found.0, inr found.1, found.2)
    | inr (c, e) ↦ (i, inl refl, contradiction-HardConflict i c e)
  ]

  HardConflict-contradictions :
      (identifiers : List Identifier) (i : Identifier)
      → In i identifiers
      → HardConflict i left right
      → contradictions identifiers left right ≢ []
  unfolding contradictions
  HardConflict-contradictions [] i m h = absurd m
  HardConflict-contradictions (k ∷ rest) i (inl e) h =
      ground (arith, HardConflict-contradiction k (subst (λ x. HardConflict x left right) e h))
  HardConflict-contradictions (k ∷ rest) i (inr m) h =
      ground (arith, HardConflict-contradictions rest i m h)

module _ (lib : Library) (fl : Floats) (identifiers : List Identifier) (m : Matching fl.Float) where
  decide-keep_separate :
      (cs : List Contradiction) (s : fl.Float) → (decide lib fl m cs s ≡ keep_separate) ↔ (cs ≢ [])
  unfolding decide
  decide-keep_separate [] s = (λ h. ground arith, λ h. absurd (h refl))
  decide-keep_separate (c ∷ cs) s = (λ h. ground arith, λ h. refl)

  -- compare keeps two records apart exactly when they conflict in a hard identifier: both have a
  -- value for it and the values differ. No score, however high, overrides that.
  pub keep_separate_exact :
      (left right : Dict Value)
      → ((compare lib fl identifiers m left right).decision ≡ keep_separate)
        ↔ ((i : Identifier) × In i identifiers × HardConflict i left right)
  unfolding compare
  keep_separate_exact left right =
      let found = contradictions identifiers left right in
      let score = (compare lib fl identifiers m left right).score in
      let exact = decide-keep_separate found score in
      (
        λ h. contradictions-HardConflict left right identifiers (exact.0 h),
        λ (i, member, conflict).
            exact.1 (HardConflict-contradictions left right identifiers i member conflict),
      )
