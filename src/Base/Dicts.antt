-- ===== src/Base/Dicts.antt =====
-- A Python dict with text keys, in insertion order.
use Prim.Native.String.{String}
use mathlib.Core.Path.{◌≡◌, refl}
use mathlib.Core.Bool.{Bool, true, false}
use mathlib.Core.Option.{Option, none, some}
use mathlib.Core.List.{List, [], ◌∷◌}
use native.Mathlib.Omega.{arith}
use recordlane.Base.Tests.{if◌then◌else◌, str_eq, str_eq_iff}

abbrev pub Dict {ℓ} : Type ℓ → Type ℓ
Dict V = List (String × V)

module _ {ℓ} {V : Type ℓ} where
  -- `d.get(k)`
  abbrev pub lookup : String → Dict V → Option V
  lookup key [] = none
  lookup key (entry ∷ rest) = if str_eq entry.0 key then some entry.1 else lookup key rest

  -- `k in d`
  abbrev pub has_key : String → Dict V → Bool
  has_key key [] = false
  has_key key (entry ∷ rest) = if str_eq entry.0 key then true else has_key key rest

  -- `d[k] = v`: a new key goes to the end.
  abbrev pub insert : String → V → Dict V → Dict V
  insert key v [] = (key, v) ∷ []
  insert key v (entry ∷ rest) =
      if str_eq entry.0 key then (entry.0, v) ∷ rest else entry ∷ insert key v rest

  -- `d.update(e)` and `d | e`
  abbrev pub update_dict : Dict V → Dict V → Dict V
  update_dict d [] = d
  update_dict d (entry ∷ rest) = update_dict (insert entry.0 entry.1 d) rest

  abbrev pub keys : Dict V → List String
  keys [] = []
  keys (entry ∷ rest) = entry.0 ∷ keys rest

  pub lookup-insert :
      (key other : String) (v : V) (d : Dict V)
      → lookup other (insert key v d) ≡ (if str_eq key other then some v else lookup other d)
  lookup-insert key other v [] = refl
  lookup-insert key other v (entry ∷ rest) = ground (
    arith,
    lookup-insert key other v rest,
    str_eq_iff key other,
    str_eq_iff entry.0 key,
    str_eq_iff entry.0 other,
  )

-- `s in l`
abbrev pub has_text : String → List String → Bool
has_text s [] = false
has_text s (t ∷ l) = if str_eq t s then true else has_text s l
