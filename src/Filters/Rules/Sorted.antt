-- ===== src/Filters/Rules/Sorted.antt =====
-- The order of the normalised rules.
use mathlib.Core.List.{Perm}
use mathlib.Core.List.Perm
use elvish_email.Base.{
  ℕ, zero, suc, ap, ◌≢◌, ◌++◌, drop, inl, inr, Bool-cases, All-map, take-append-drop, ◌≡◌, ◌≤◌,
  true, false, Option, none, some, List, [], ◌∷◌, length, take, All, All-take, length-take, arith,
  refl,
}
use elvish_email.Base.Text.{Unicode}
use elvish_email.Filters.Rules.{
  lt_ℤ, Rule, rules_cap, before, insert_rule, sort_rules, is_active, active_rules, normalize_rules,
}

-- `a` has at least the priority of `b`.
abbrev pub AtLeast : Rule → Rule → Type 0
AtLeast a b = lt_ℤ a.priority b.priority ≡ false

AtLeast-trans : (a b c : Rule) → AtLeast a b → AtLeast b c → AtLeast a c
AtLeast-trans a b c p q = ground arith

-- Every rule has at least the priority of each that follows.
abbrev pub IsDescending : List Rule → Type 0
IsDescending [] = Unit
IsDescending (r ∷ rs) = All (AtLeast r) rs × IsDescending rs

module _ (P : Rule → Type 0) (U : Unicode) where
  pub All-insert : (x : Rule) (xs : List Rule) → P x → All P xs → All P (insert_rule U x xs)
  unfolding insert_rule
  All-insert x [] p h = (p, tt)
  All-insert x (y ∷ ys) p h = ground (arith, All-insert x ys p h.1)

  pub All-sort : (xs : List Rule) → All P xs → All P (sort_rules U xs)
  unfolding sort_rules
  All-sort [] h = tt
  All-sort (x ∷ xs) h = All-insert x (sort_rules U xs) h.0 (All-sort xs h.1)

  pub All-of_insert : (x : Rule) (xs : List Rule) → All P (insert_rule U x xs) → P x × All P xs
  unfolding insert_rule
  All-of_insert x [] h = (h.0, tt)
  All-of_insert x (y ∷ ys) h = ground (arith, All-of_insert x ys)

  pub All-of_sort : (xs : List Rule) → All P (sort_rules U xs) → All P xs
  unfolding sort_rules
  All-of_sort [] h = tt
  All-of_sort (x ∷ xs) h =
      let (p, rest) = All-of_insert x (sort_rules U xs) h in (p, All-of_sort xs rest)

module _ (U : Unicode) where
  insert-IsDescending :
      (x : Rule) (xs : List Rule) → IsDescending xs → IsDescending (insert_rule U x xs)
  unfolding insert_rule
  insert-IsDescending x [] h = (tt, tt)
  insert-IsDescending x (y ∷ ys) (top, h) = elim (Bool-cases (before U y x)) [
    | inl first ↦
        let above : AtLeast y x = unfold before in ground arith in
        rw first (All-insert (AtLeast y) U x ys above top, insert-IsDescending x ys h)
    | inr later ↦
        let above : AtLeast x y = unfold before in ground arith in
        rw later ((above, All-map (λ z q. AtLeast-trans x y z above q) ys top), (top, h))
  ]

  pub sort-IsDescending : (xs : List Rule) → IsDescending (sort_rules U xs)
  unfolding sort_rules
  sort-IsDescending [] = tt
  sort-IsDescending (x ∷ xs) = insert-IsDescending x (sort_rules U xs) (sort-IsDescending xs)

  insert-perm : (x : Rule) (xs : List Rule) → Perm (insert_rule U x xs) (x ∷ xs)
  unfolding insert_rule
  insert-perm x [] = Perm.refl (x ∷ [])
  insert-perm x (y ∷ ys) = elim (Bool-cases (before U y x)) [
    | inl first ↦ rw first (Perm.trans (Perm.cons y (insert-perm x ys)) (Perm.swap x y ys))
    | inr later ↦ rw later (Perm.refl (x ∷ y ∷ ys))
  ]

  sort-perm : (xs : List Rule) → Perm (sort_rules U xs) xs
  unfolding sort_rules
  sort-perm [] = Perm.refl []
  sort-perm (x ∷ xs) = Perm.trans (insert-perm x (sort_rules U xs)) (Perm.cons x (sort-perm xs))

pub active-IsActive :
    (raw : List (Option Rule)) → All (λ r. is_active (some r) ≡ true) (active_rules raw)
unfolding active_rules
active-IsActive [] = tt
active-IsActive (none ∷ rs) = active-IsActive rs
active-IsActive (some r ∷ rs) = elim (Bool-cases (is_active (some r))) [
  | inl yes_ ↦ rw yes_ (yes_, active-IsActive rs)
  | inr no_ ↦ rw no_ (active-IsActive rs)
]

-- The normalised rules, and the rules that the cap drops.
pub record IsNormal (raw : List (Option Rule)) (kept dropped : List Rule) : Type 0 where
  pub bounded : length kept ≤ rules_cap
  pub full : dropped ≢ [] → length kept ≡ rules_cap
  pub ordered : IsDescending (kept ++ dropped)
  pub active : All (λ r. is_active (some r) ≡ true) kept
  pub same : Perm (kept ++ dropped) (active_rules raw)

abbrev pub overflow : Unicode → List (Option Rule) → List Rule
overflow U raw = drop rules_cap (sort_rules U (active_rules raw))

take-full {ℓ} : {A : Type ℓ} (n : ℕ) (xs : List A) → drop n xs ≢ [] → length (take n xs) ≡ n
take-full zero xs h = refl
take-full (suc n) [] h = absurd (h refl)
take-full (suc n) (x ∷ xs) h = ap suc (take-full n xs h)

-- normalizeRules keeps at most 50 rules, all of them active; with the rules that it drops they are
-- a rearrangement of the active rules in descending priority, and it drops some only when it keeps
-- 50.
pub normalize_rules-IsNormal :
    (U : Unicode) (raw : List (Option Rule)) → IsNormal raw (normalize_rules U raw) (overflow U raw)
unfolding normalize_rules
normalize_rules-IsNormal U raw =
    let s = sort_rules U (active_rules raw) in
    let split : take rules_cap s ++ drop rules_cap s ≡ s = take-append-drop rules_cap s in
    record {
      bounded = omega (arith, length-take rules_cap s);
      full = take-full rules_cap s;
      ordered = rw split (sort-IsDescending U (active_rules raw));
      active = All-take _ rules_cap s (All-sort _ U (active_rules raw) (active-IsActive raw));
      same = rw split (sort-perm U (active_rules raw));
    }
