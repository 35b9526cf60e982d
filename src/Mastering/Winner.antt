-- ===== src/Mastering/Winner.antt =====
-- Which value survives: the best of the choices, whatever their order, and nothing but a value of a
-- current record.
use recordlane.Base.{
  String, ◌≡◌, ◌↔◌, ap, ◌∙◌, some-eq, refl, sym, subst, inl, inr, true, false, none, some, List, [],
  ◌∷◌, arith, if◌then◌else◌, Bool-cases, Option-cases, In,
}
use recordlane.Json.{Value}
use recordlane.Mastering.{Source, SourceRecord}
use recordlane.Mastering.Survivor.{
  Survivorship, Choice, is_better, best, choice, choices, value_for,
}

-- The order of the keys.
is_better_trans :
    (a b c : Choice) → is_better a b ≡ false → is_better b c ≡ false → is_better a c ≡ false
unfolding is_better
is_better_trans a b c ab bc = ground arith

is_better_refl : (a : Choice) → is_better a a ≡ false
unfolding is_better
is_better_refl a = ground arith

is_better_asym : (a b : Choice) → is_better a b ≡ true → is_better b a ≡ false
unfolding is_better
is_better_asym a b e = ground arith

is_better_antisym :
    (a b : Choice) → is_better a b ≡ false → is_better b a ≡ false → a.origin.id ≡ b.origin.id
unfolding is_better
is_better_antisym a b e f = ground arith

abbrev pub IsBest : Choice → List Choice → Type 0
IsBest w l = In w l × ((x : Choice) → In x l → is_better x w ≡ false)

-- The best of a list is the best of that list with a choice that one of it beats, or that it does
-- not beat.
IsBest-skip :
    (c d w : Choice) (l : List Choice)
    → is_better d c ≡ true
    → IsBest w (d ∷ l)
    → IsBest w (c ∷ d ∷ l)
IsBest-skip c d w l e (member, least) = (inr member, go)
  where
    go : (x : Choice) → In x (c ∷ d ∷ l) → is_better x w ≡ false
    go x (inl q) =
        subst (λ y. is_better y w ≡ false) (sym q)
          (is_better_trans c d w (is_better_asym d c e) (least d (inl refl)))
    go x (inr m) = least x m

IsBest-keep :
    (c d w : Choice) (l : List Choice)
    → is_better d c ≡ false
    → IsBest w (c ∷ l)
    → IsBest w (c ∷ d ∷ l)
IsBest-keep c d w l e (member, least) = (under member, go)
  where
    under : In w (c ∷ l) → In w (c ∷ d ∷ l)
    under (inl q) = inl q
    under (inr m) = inr (inr m)

    go : (x : Choice) → In x (c ∷ d ∷ l) → is_better x w ≡ false
    go x (inl q) = least x (inl q)
    go x (inr (inl q)) =
        subst (λ y. is_better y w ≡ false) (sym q) (is_better_trans d c w e (least c (inl refl)))
    go x (inr (inr m)) = least x (inr m)

-- The best is one of the choices, and none is better.
pub best-IsBest : (c : Choice) (l : List Choice) → IsBest (best c l) (c ∷ l)
unfolding best
best-IsBest c [] = (inl refl, only)
  where
    only : (x : Choice) → In x (c ∷ []) → is_better x c ≡ false
    only x (inl q) = subst (λ y. is_better y c ≡ false) (sym q) (is_better_refl c)
    only x (inr m) = absurd m
best-IsBest c (d ∷ rest) = elim (Bool-cases (is_better d c)) [
  | inl e ↦
      subst (λ b. IsBest (best (if b then d else c) rest) (c ∷ d ∷ rest)) (sym e)
        (IsBest-skip c d (best d rest) rest e (best-IsBest d rest))
  | inr e ↦
      subst (λ b. IsBest (best (if b then d else c) rest) (c ∷ d ∷ rest)) (sym e)
        (IsBest-keep c d (best c rest) rest e (best-IsBest c rest))
]

-- Two lists of the same choices, in any order, have the same best one, if the records' identifiers
-- tell the choices apart.
pub winner_ignores_order :
    (c d : Choice) (l m : List Choice)
    → ((x : Choice) → In x (c ∷ l) ↔ In x (d ∷ m))
    → ((x y : Choice) → In x (c ∷ l) → In y (c ∷ l) → x.origin.id ≡ y.origin.id → x ≡ y)
    → best c l ≡ best d m
winner_ignores_order c d l m same apart =
    let (in_l, least_l) = best-IsBest c l in
    let (in_m, least_m) = best-IsBest d m in
    let in_l' = (same (best d m)).1 in_m in
    let in_m' = (same (best c l)).0 in_l in
    apart (best c l) (best d m) in_l in_l' (
      is_better_antisym (best c l) (best d m) (least_m (best c l) in_m') (least_l (best d m) in_l'))

module _ (sources : List Source) (rules : Survivorship) (field : String) where
  pub choices-skip :
      (r : SourceRecord) (rest : List SourceRecord)
      → value_for r field ≡ none
      → choices sources rules field (r ∷ rest) ≡ choices sources rules field rest
  unfolding choices
  choices-skip r rest q = ground arith

  -- The loop over a record with a value adds its choice.
  pub choices-cons :
      (r : SourceRecord) (rest : List SourceRecord) (cs : List Choice) (v : Value)
      → choices sources rules field (r ∷ rest) ≡ some cs
      → value_for r field ≡ some v
      → (c : Choice) × (cs' : List Choice) × (cs ≡ c ∷ cs')
        × (choice sources rules field r v ≡ some c)
        × (choices sources rules field rest ≡ some cs')
  unfolding choices
  choices-cons r rest cs v e q = elim (Option-cases (choice sources rules field r v)) [
    | inl f ↦ ground arith
    | inr (c, f) ↦ elim (Option-cases (choices sources rules field rest)) [
      | inl g ↦ ground arith
      | inr (cs', g) ↦
          let eq : some cs ≡ some (c ∷ cs') = sym e ∙ rw (q, f, g, choices) refl in
          (c, cs', some-eq eq, f, g)
    ]
  ]

  pub choice-origin :
      (r : SourceRecord) (v : Value) (c : Choice)
      → choice sources rules field r v ≡ some c
      → (c.origin ≡ r) × (c.value ≡ v)
  unfolding choice
  choice-origin r v c e = ground arith

  abbrev IsChosen : List SourceRecord → Choice → Type 0
  IsChosen records c =
      In c.origin records
      × (value_for c.origin field ≡ some c.value)
      × (choice sources rules field c.origin c.value ≡ some c)

  choices-origin-cons :
      (r : SourceRecord) (rest : List SourceRecord) (c d : Choice) (ds : List Choice) (v : Value)
      → value_for r field ≡ some v
      → choice sources rules field r v ≡ some d
      → (In c ds → IsChosen rest c)
      → In c (d ∷ ds)
      → IsChosen (r ∷ rest) c
  choices-origin-cons r rest c d ds v q chosen ih (inl here) =
      let (from_r, is_v) = choice-origin r v d chosen in
      let of_itself : choice sources rules field d.origin d.value ≡ some d =
        ap (λ x. choice sources rules field x d.value) from_r
        ∙ ap (choice sources rules field r) is_v
        ∙ chosen in
      let of_d : c.origin ≡ r = ap (λ x. x.origin) here ∙ from_r in
      let value_d : c.value ≡ v = ap (λ x. x.value) here ∙ is_v in
      (
        inl of_d,
        ap (λ x. value_for x field) of_d ∙ q ∙ ap some (sym value_d),
        subst (λ x. choice sources rules field x.origin x.value ≡ some x) (sym here) of_itself,
      )
  choices-origin-cons r rest c d ds v q chosen ih (inr m) =
      let (found, same, itself) = ih m in (inr found, same, itself)

  -- A choice is the value of a record, with the keys of that record.
  pub choices-origin :
      (records : List SourceRecord) (cs : List Choice) (c : Choice)
      → choices sources rules field records ≡ some cs
      → In c cs
      → IsChosen records c
  unfolding choices choice
  choices-origin [] cs c e m = let empty : cs ≡ [] = cc in absurd (subst (In c) empty m)
  choices-origin (r ∷ rest) cs c e m = elim (Option-cases (value_for r field)) [
    | inl q ↦
        let (found, same, itself) = choices-origin rest cs c (sym (choices-skip r rest q) ∙ e) m in
        (inr found, same, itself)
    | inr (v, q) ↦
        let (d, ds, shape, chosen, more) = choices-cons r rest cs v e q in
        choices-origin-cons r rest c d ds v q chosen (choices-origin rest ds c more)
          (subst (In c) shape m)
  ]

  -- A record with a value is among the choices.
  pub choices-all :
      (records : List SourceRecord) (cs : List Choice) (r : SourceRecord) (v : Value)
      → choices sources rules field records ≡ some cs
      → In r records
      → value_for r field ≡ some v
      → (c : Choice) × In c cs × (choice sources rules field r v ≡ some c)
  unfolding choices
  choices-all [] cs r v e m q = absurd m
  choices-all (r' ∷ rest) cs r v e (inl here) q =
      let q' : value_for r' field ≡ some v = ap (λ x. value_for x field) (sym here) ∙ q in
      let (d, ds, shape, chosen, more) = choices-cons r' rest cs v e q' in
      let chosen' : choice sources rules field r v ≡ some d =
        ap (λ x. choice sources rules field x v) here ∙ chosen in
      (d, subst (In d) (sym shape) (inl refl), chosen')
  choices-all (r' ∷ rest) cs r v e (inr m) q = elim (Option-cases (value_for r' field)) [
    | inl f ↦ choices-all rest cs r v (sym (choices-skip r' rest f) ∙ e) m q
    | inr (v', f) ↦
        let (d, ds, shape, chosen, more) = choices-cons r' rest cs v' e f in
        let (c, member, chosen_c) = choices-all rest ds r v more m q in
        (c, subst (In c) (sym shape) (inr member), chosen_c)
  ]
