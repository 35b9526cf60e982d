-- ===== src/Policy/Compare.antt =====
-- CompiledPolicy.compare of policy.py: the evidence for and against two normalized records being
-- about the same thing, and the decision.
use recordlane.Base.{
  String, not, ◌&&◌, ◌||◌, Option, none, some, List, [], ◌∷◌, ◌++◌, if◌then◌else◌, Dict, lookup,
}
use recordlane.Json.{Value, value_eq}
use recordlane.Policy.{
  Library, Floats, Identifier, Comparison, Comparator, exact, sequence_ratio, Algorithm,
  weighted_score, fellegi_sunter, Matching,
}
use recordlane.Policy.Blocking.{is_empty, shown}

pub data Decision : Type 0 where
  keep_separate auto_link review no_link : Decision

pub data ScoreKind : Type 0 where
  weighted_similarity estimated_match_probability : ScoreKind

pub record Contradiction : Type 0 where
  pub field : String
  pub namespace : String
  pub left : Value
  pub right : Value

pub record Evidence (F : Type 0) : Type 0 where
  pub field : String
  pub comparator : Comparator
  pub score : F
  pub weight : F
  pub log_likelihood_ratio : Option F

pub record Comparisons (F : Type 0) : Type 0 where
  pub score : F
  pub total_weight : F
  pub log_likelihood : F
  pub evidence : List (Evidence F)

pub record Match (F : Type 0) : Type 0 where
  pub score : F
  pub score_kind : ScoreKind
  pub decision : Decision
  pub evidence : List (Evidence F)
  pub contradictions : List Contradiction

-- Both records have a value for the field: the two values.
abbrev pub both : Option Value → Option Value → Option (Value × Value)
both (some a) (some b) = if is_empty (some a) || is_empty (some b) then none else some (a, b)
both _ _ = none

-- The contradiction that an identifier gives, if any.
unfoldable pub contradiction : Dict Value → Dict Value → Identifier → Option Contradiction
contradiction left right i = elim (both (lookup i.field left) (lookup i.field right)) [
  | none ↦ none
  | some (a, b) ↦
      if not (value_eq a b) && i.hard_conflict
      then some (record { field = i.field; namespace = i.namespace; left = a; right = b })
      else none
]

unfoldable pub contradictions : List Identifier → Dict Value → Dict Value → List Contradiction
unfolding contradiction
contradictions [] left right = []
contradictions (i ∷ rest) left right =
    let more = contradictions rest left right in
    elim (contradiction left right i) [ none ↦ more | some c ↦ c ∷ more ]

module _ (lib : Library) (fl : Floats) where
  open fl use {Float, zero, one, add, sub, mul, div, neg, log, exp, round, le, is_zero}

  -- The score of one comparison rule, from 0 to 1.
  unfoldable pub component : Comparison Float → Option (Value × Value) → Float
  component rule none = elim rule.missing_score [ none ↦ zero | some s ↦ s ]
  component rule (some (a, b)) = elim rule.comparator [
    | exact ↦ if value_eq a b then one else zero
    | sequence_ratio ↦ fl.sequence_ratio (shown lib a) (shown lib b)
  ]

  abbrev likelihood : Comparison Float → Float → Float
  likelihood rule c =
      let agreement = log (div rule.m_probability rule.u_probability) in
      let disagreement = log (div (sub one rule.m_probability) (sub one rule.u_probability)) in
      add disagreement (mul c (sub agreement disagreement))

  -- One round of the loop over the comparisons.
  unfoldable pub add_comparison :
      Algorithm → Dict Value → Dict Value → Comparisons Float → Comparison Float → Comparisons Float
  unfolding component
  add_comparison algorithm left right acc rule =
      let c = component rule (both (lookup rule.field left) (lookup rule.field right)) in
      let item : Evidence Float = record {
        field = rule.field;
        comparator = rule.comparator;
        score = round c 4;
        weight = rule.weight;
        log_likelihood_ratio = elim algorithm [
          | weighted_score ↦ none
          | fellegi_sunter ↦ some (round (likelihood rule c) 4)
        ];
      } in
      record {
        score = add acc.score (mul c rule.weight);
        total_weight = add acc.total_weight rule.weight;
        log_likelihood = elim algorithm [
          | weighted_score ↦ acc.log_likelihood
          | fellegi_sunter ↦ add acc.log_likelihood (likelihood rule c)
        ];
        evidence = acc.evidence ++ item ∷ [];
      }

  abbrev pub no_comparisons : Comparisons Float
  no_comparisons = record {
    score = zero;
    total_weight = zero;
    log_likelihood = zero;
    evidence = [];
  }

  unfoldable pub compare_all :
      Algorithm
      → Dict Value
      → Dict Value
      → Comparisons Float
      → List (Comparison Float)
      → Comparisons Float
  unfolding add_comparison
  compare_all algorithm left right acc [] = acc
  compare_all algorithm left right acc (rule ∷ rest) =
      compare_all algorithm left right (add_comparison algorithm left right acc rule) rest

  -- The score of the comparisons, by the algorithm.
  unfoldable pub final_score : Matching Float → Comparisons Float → Float
  final_score m acc = elim m.algorithm [
    | weighted_score ↦
        if is_zero acc.total_weight then zero else round (div acc.score acc.total_weight) 4
    | fellegi_sunter ↦
        let prior = m.prior_match_probability in
        let odds = add (log (div prior (sub one prior))) acc.log_likelihood in
        round (div one (add one (exp (neg odds)))) 6
  ]

  -- The thresholds, from the strongest decision down.
  unfoldable pub decide : Matching Float → List Contradiction → Float → Decision
  decide m (c ∷ cs) score = keep_separate
  decide m [] score =
      if le m.auto_link score then auto_link else if le m.review score then review else no_link

  unfoldable pub compare : List Identifier → Matching Float → Dict Value → Dict Value → Match Float
  unfolding compare_all final_score decide contradictions
  compare identifiers m left right =
      let found = contradictions identifiers left right in
      let result = compare_all m.algorithm left right no_comparisons m.comparisons in
      let score = final_score m result in
      record {
        score = score;
        score_kind = elim m.algorithm [
          | weighted_score ↦ weighted_similarity
          | fellegi_sunter ↦ estimated_match_probability
        ];
        decision = decide m found score;
        evidence = result.evidence;
        contradictions = found;
      }
