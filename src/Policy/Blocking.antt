-- ===== src/Policy/Blocking.antt =====
-- CompiledPolicy.blocking_keys of policy.py: the keys under which a record is a match candidate.
use Prim.Native.String.{◌++◌ as concat}
use recordlane.Base.{
  ◌∙◌, sym, ℕ, zero, suc, String, ◌≡◌, refl, ap, ◌+◌, ◌≤◌, Bool, true, false, Option, none, some,
  List, [], ◌∷◌, ◌++◌, arith, if◌then◌else◌, Dict, lookup, str_eq, length, Every,
}
use recordlane.Json.{Value, str, int, pos, null}
use recordlane.Policy.{Library, Prefix, Strategy}

-- `value in (None, "")`, also for a missing key
abbrev pub is_empty : Option Value → Bool
is_empty none = true
is_empty (some null) = true
is_empty (some (str s)) = str_eq s ""
is_empty (some _) = false

-- `s[:n]`
abbrev pub truncate : ℕ → String → String
truncate zero s = ""
truncate (suc n) String.[] = ""
truncate (suc n) (String.◌∷◌ c s) = String.◌∷◌ c (truncate n s)

-- `"|".join(parts)`
abbrev pub join : List String → String
join [] = ""
join (p ∷ []) = p
join (p ∷ q ∷ rest) = concat p (concat "|" (join (q ∷ rest)))

module _ (lib : Library) where
  -- `str(v)`, which is the text itself of a text
  abbrev pub shown : Value → String
  shown (str s) = s
  shown v = lib.to_text v

  -- The loop over `fields`; nothing if it breaks at an empty field.
  abbrev pub field_parts : List String → Dict Value → Option (List String)
  field_parts [] normalized = some []
  field_parts (f ∷ rest) normalized =
      let more = field_parts rest normalized in
      elim (lookup f normalized) [
        | none ↦ none
        | some v ↦
            if is_empty (some v)
            then none
            else elim more [ none ↦ none | some ps ↦ some (concat f (concat "=" (shown v)) ∷ ps) ]
      ]

  -- `str(normalized.get(field, ""))`
  abbrev pub prefix_text : Prefix → Dict Value → String
  prefix_text p normalized = elim (lookup p.field normalized) [ none ↦ "" | some v ↦ shown v ]

  abbrev pub with_prefix : Option Prefix → List String → Dict Value → List String
  with_prefix none parts normalized = parts
  with_prefix (some p) parts normalized =
      let value = prefix_text p normalized in
      if str_eq value ""
      then []
      else parts ++ (concat p.field (concat "^=" (truncate p.length value)) ∷ [])

  unfoldable pub strategy_parts : Strategy → Dict Value → List String
  strategy_parts s normalized =
      with_prefix s.prefix (elim (field_parts s.fields normalized) [ none ↦ [] | some ps ↦ ps ])
        normalized

  -- The keys of the strategies from `index` on.
  unfoldable pub keys_from : ℕ → List Strategy → Dict Value → List String
  unfolding strategy_parts
  keys_from index [] normalized = []
  keys_from index (s ∷ rest) normalized =
      let more = keys_from (index + 1) rest normalized in
      elim (strategy_parts s normalized) [
        | [] ↦ more
        | p ∷ ps ↦
            concat "p" (concat (lib.to_text (int (pos index))) (concat "|" (join (p ∷ ps)))) ∷ more
      ]

  unfoldable pub blocking_keys : List Strategy → Dict Value → List String
  unfolding keys_from
  blocking_keys blocking normalized = keys_from 0 blocking normalized

  -- Two records that agree on every field that a strategy names get the same parts from it.
  abbrev pub Agrees : Strategy → Dict Value → Dict Value → Type 0
  Agrees s a b =
      Every (λ f. lookup f a ≡ lookup f b) s.fields
      × elim s.prefix [ none ↦ Unit {0} | some p ↦ lookup p.field a ≡ lookup p.field b ]

  field_parts-Agrees :
      (fields : List String) (a b : Dict Value)
      → Every (λ f. lookup f a ≡ lookup f b) fields
      → field_parts fields a ≡ field_parts fields b
  field_parts-Agrees [] a b h = refl
  field_parts-Agrees (f ∷ rest) a b h = ground (arith, field_parts-Agrees rest a b h.1)

  strategy_parts-Agrees :
      (s : Strategy) (a b : Dict Value) → Agrees s a b → strategy_parts s a ≡ strategy_parts s b
  unfolding strategy_parts
  strategy_parts-Agrees s a b h = ground (arith, field_parts-Agrees s.fields a b h.0)

  keys_from-Agrees :
      (index : ℕ) (blocking : List Strategy) (a b : Dict Value)
      → Every (λ s. Agrees s a b) blocking
      → keys_from index blocking a ≡ keys_from index blocking b
  unfolding keys_from
  keys_from-Agrees index [] a b h = refl
  keys_from-Agrees index (s ∷ rest) a b h =
      ground (arith, keys_from-Agrees (index + 1) rest a b h.1, strategy_parts-Agrees s a b h.0)

  length-keys_from-le :
      (index : ℕ) (blocking : List Strategy) (a : Dict Value)
      → length (keys_from index blocking a) ≤ length blocking
  unfolding keys_from
  length-keys_from-le index [] a = omega arith
  length-keys_from-le index (s ∷ rest) a = ground (arith, length-keys_from-le (index + 1) rest a)

  -- Records that agree on the fields and prefix fields of the strategies, whatever else differs, are
  -- candidates of each other under the same keys, and there is at most one key to a strategy.
  pub blocking_keys_agree :
      (blocking : List Strategy) (a b : Dict Value)
      → Every (λ s. Agrees s a b) blocking
      → (blocking_keys blocking a ≡ blocking_keys blocking b)
        × (length (blocking_keys blocking a) ≤ length blocking)
  unfolding blocking_keys
  blocking_keys_agree blocking a b h =
      (keys_from-Agrees 0 blocking a b h, length-keys_from-le 0 blocking a)

  with_prefix_null :
      (p : Prefix) (a : Dict Value)
      → lib.to_text null ≡ "None"
      → lookup p.field a ≡ some null
      → with_prefix (some p) [] a ≡ concat p.field (concat "^=" (truncate p.length "None")) ∷ []
  with_prefix_null p a shows n =
      let e : prefix_text p a ≡ "None" = rw (n, prefix_text) shows in rw (e, with_prefix)

  null_prefix_part :
      (s : Strategy) (p : Prefix) (a : Dict Value)
      → lib.to_text null ≡ "None"
      → s.prefix ≡ some p
      → field_parts s.fields a ≡ none
      → lookup p.field a ≡ some null
      → strategy_parts s a ≡ concat p.field (concat "^=" (truncate p.length "None")) ∷ []
  unfolding strategy_parts
  null_prefix_part s p a shows e f n =
      ap (λ o. with_prefix o (elim (field_parts s.fields a) [ none ↦ [] | some ps ↦ ps ]) a) e
      ∙ ap
          (λ (o : Option (List String)).
            with_prefix (some p) (elim o [ none ↦ [] | some ps ↦ ps ]) a)
          f
      ∙ with_prefix_null p a shows n

  -- Where str() of a null is "None", every two records with a null in the prefix field and an empty
  -- field among the strategy's fields get one and the same part from the strategy, and so a key:
  -- neither the missing field nor the null keeps them out of the block.
  pub null_prefix_collides :
      (s : Strategy) (p : Prefix) (a b : Dict Value)
      → lib.to_text null ≡ "None"
      → s.prefix ≡ some p
      → (field_parts s.fields a ≡ none) × (field_parts s.fields b ≡ none)
      → (lookup p.field a ≡ some null) × (lookup p.field b ≡ some null)
      → (strategy_parts s a ≡ concat p.field (concat "^=" (truncate p.length "None")) ∷ [])
        × (strategy_parts s a ≡ strategy_parts s b)
  null_prefix_collides s p a b shows e f n =
      let left = null_prefix_part s p a shows e f.0 n.0 in
      (left, left ∙ sym (null_prefix_part s p b shows e f.1 n.1))
