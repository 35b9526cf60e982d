-- ===== src/Base/Texts.antt =====
-- Sets of texts as Python writes them: sorted lists without repetitions.
use Prim.Native.Nat.{Ordering}
use Prim.Native.String.{String, compare}
use mathlib.Core.Path.{◌≡◌, refl, ap, ◌∙◌}
use mathlib.Core.Logic.{inl, inr}
use mathlib.Core.Bool.{Bool, true, ◌&&◌, ◌||◌}
use mathlib.Core.List.{List, [], ◌∷◌, ◌++◌}
use native.Mathlib.Omega.{arith}
use recordlane.Base.Tests.{if◌then◌else◌, str_eq, str_eq_iff, Bool-cases}
use recordlane.Base.Dicts.{has_text}
use recordlane.Base.Lists.{select}

-- One text more in a sorted list.
abbrev pub insert_text : String → List String → List String
insert_text s [] = s ∷ []
insert_text s (t ∷ rest) = elim (compare s t) [
  | Ordering.eq ↦ t ∷ rest
  | Ordering.lt ↦ s ∷ t ∷ rest
  | Ordering.gt ↦ t ∷ insert_text s rest
]

-- `sorted(set(l))`
abbrev pub sorted_set : List String → List String
sorted_set [] = []
sorted_set (s ∷ rest) = insert_text s (sorted_set rest)

-- `sorted(set(l) & set(m))`
abbrev pub common : List String → List String → List String
common l m = sorted_set (select (λ s. has_text s m) l)

pub has_text-insert_text :
    (f g : String) (l : List String)
    → has_text f (insert_text g l) ≡ (if str_eq g f then true else has_text f l)
has_text-insert_text f g [] = refl
has_text-insert_text f g (t ∷ l) =
    ground (arith, has_text-insert_text f g l, str_eq_iff g f, str_eq_iff t f, str_eq_iff g t)

pub has_text-sorted_set : (f : String) (l : List String) → has_text f (sorted_set l) ≡ has_text f l
has_text-sorted_set f [] = refl
has_text-sorted_set f (s ∷ rest) =
    ground (arith, has_text-sorted_set f rest, has_text-insert_text f s (sorted_set rest))

pub has_text-append :
    (f : String) (l m : List String) → has_text f (l ++ m) ≡ (has_text f l || has_text f m)
has_text-append f [] m = refl
has_text-append f (s ∷ l) m = ground (arith, has_text-append f l m)

pub has_text-select :
    (f : String) (p : String → Bool) (l : List String)
    → has_text f (select p l) ≡ (has_text f l && p f)
has_text-select f p [] = refl
has_text-select f p (s ∷ l) = elim (Bool-cases (str_eq s f)) [
  | inl e ↦
      let same : p s ≡ p f = ap p ((str_eq_iff s f).0 e) in ground (arith, has_text-select f p l)
  | inr e ↦ ground (arith, has_text-select f p l)
]

pub has_text-common :
    (f : String) (l m : List String) → has_text f (common l m) ≡ (has_text f l && has_text f m)
has_text-common f l m =
    has_text-sorted_set f (select (λ s. has_text s m) l) ∙ has_text-select f (λ s. has_text s m) l

-- `set(l) <= set(m)`
abbrev pub is_subset : List String → List String → Bool
is_subset [] m = true
is_subset (s ∷ rest) m = has_text s m && is_subset rest m

pub is_subset-intro :
    (l m : List String)
    → ((f : String) → has_text f l ≡ true → has_text f m ≡ true)
    → is_subset l m ≡ true
is_subset-intro [] m h = refl
is_subset-intro (s ∷ rest) m h =
    let here : has_text s m ≡ true = h s (ground (arith, str_eq_iff s s)) in
    let later = is_subset-intro rest m (λ f e. h f (ground arith)) in ground arith

pub is_subset_refl : (l : List String) → is_subset l l ≡ true
is_subset_refl l = is_subset-intro l l (λ f e. e)

pub is_subset-append : (l m : List String) → is_subset l (l ++ m) ≡ true
is_subset-append l m = is_subset-intro l (l ++ m) (λ f e. ground (arith, has_text-append f l m))

pub common-is_subset :
    (l m : List String) → (is_subset (common l m) l ≡ true) × (is_subset (common l m) m ≡ true)
common-is_subset l m = (
  is_subset-intro (common l m) l (λ f e. ground (arith, has_text-common f l m)),
  is_subset-intro (common l m) m (λ f e. ground (arith, has_text-common f l m)),
)
