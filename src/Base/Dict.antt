-- ===== src/Base/Dict.antt =====
-- A `Map`, or an object used as one, with string keys in order of insertion.
use mathlib.Core.Path.{◌≡◌, refl, ◌∙◌}
use mathlib.Core.Bool.{Bool, true, false}
use mathlib.Core.Option.{Option, none, some}
use mathlib.Core.Logic.{inl, inr}
use mathlib.Core.List.{List, [], ◌∷◌}
use native.Mathlib.Omega.{arith}
use elvish_email.Base.Tests.{if◌then◌else◌, Bool-cases}
use elvish_email.Base.Text.{Text, text_eq, text_eq_iff}

abbrev pub Dict {ℓ} : Type ℓ → Type ℓ
Dict V = List (Text × V)

module _ {ℓ} {V : Type ℓ} where
  unfoldable pub get : Text → Dict V → Option V
  get k [] = none
  get k ((j, v) ∷ m) = if text_eq j k then some v else get k m

  -- A key that is there keeps its place.
  unfoldable pub put : Text → V → Dict V → Dict V
  put k v [] = (k, v) ∷ []
  put k v ((j, w) ∷ m) = if text_eq j k then (j, v) ∷ m else (j, w) ∷ put k v m

  unfoldable pub del : Text → Dict V → Dict V
  del k [] = []
  del k ((j, v) ∷ m) = let rest = del k m in if text_eq j k then rest else (j, v) ∷ rest

  -- The entries whose key passes a test.
  unfoldable pub restrict : (Text → Bool) → Dict V → Dict V
  restrict p [] = []
  restrict p ((j, v) ∷ m) = let rest = restrict p m in if p j then (j, v) ∷ rest else rest

  pub get-put :
      (k j : Text) (v : V) (m : Dict V)
      → get j (put k v m) ≡ (if text_eq k j then some v else get j m)
  unfolding get put
  get-put k j v [] = refl
  get-put k j v ((i, w) ∷ m) =
      ground (arith, text_eq_iff k j, text_eq_iff i k, text_eq_iff i j, get-put k j v m)

  pub get-del :
      (k j : Text) (m : Dict V) → get j (del k m) ≡ (if text_eq k j then none else get j m)
  unfolding get del
  get-del k j [] = ground arith
  get-del k j ((i, w) ∷ m) =
      ground (arith, text_eq_iff k j, text_eq_iff i k, text_eq_iff i j, get-del k j m)

  pub get-restrict :
      (p : Text → Bool) (j : Text) (m : Dict V)
      → get j (restrict p m) ≡ (if p j then get j m else none)
  unfolding get restrict
  get-restrict p j [] = ground arith
  get-restrict p j ((i, w) ∷ m) = ground (arith, text_eq_iff i j, get-restrict p j m, same)
    where
      same : text_eq i j ≡ true → p i ≡ p j
      same e = λ t. p ((text_eq_iff i j).0 e t)

pub get-empty {ℓ} : {V : Type ℓ} (k : Text) → get {V = V} k [] ≡ none
unfolding get
get-empty k = refl

-- Every key stands once.
abbrev pub HasDistinctKeys {ℓ} : {V : Type ℓ} → Dict V → Type ℓ
HasDistinctKeys [] = Unit
HasDistinctKeys ((k, v) ∷ d) = (get k d ≡ none) × HasDistinctKeys d

put-absent :
    {V : Type 0} (k j : Text) (v : V) (d : Dict V)
    → text_eq j k ≡ false
    → get j d ≡ none
    → get j (put k v d) ≡ none
put-absent k j v d h g = get-put k j v d ∙ ground (arith, h, g, text_eq_iff k j, text_eq_iff j k)

pub put-HasDistinctKeys :
    {V : Type 0} (k : Text) (v : V) (d : Dict V) → HasDistinctKeys d → HasDistinctKeys (put k v d)
unfolding put
put-HasDistinctKeys k v [] u = (get-empty k, tt)
put-HasDistinctKeys k v ((j, w) ∷ d) u = elim (Bool-cases (text_eq j k)) [
  | inl h ↦ rw h u
  | inr h ↦ rw h (put-absent k j v d h u.0, put-HasDistinctKeys k v d u.1)
]
