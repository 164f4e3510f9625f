-- ===== src/Filters/Rules/Priority.antt =====
-- The rule that is applied.
use mathlib.Core.Path.{subst}
use mathlib.Core.List.{Memᴰ}
use elvish_email.Base.{
  ap, sym, ◌≡◌, true, false, Option, none, some, List, [], ◌∷◌, take, All, All-map, zero, suc, ℕ,
  arith, Bool-cases, inl, inr, ◌↔◌, ◌++◌,
}
use elvish_email.Base.Text.{Unicode}
use elvish_email.Filters.Match.{Context}
use elvish_email.Filters.Rules.{
  Rule, rules_cap, sort_rules, is_active, active_rules, normalize_rules, rule_matches,
  pick_first_matching_rule,
}
use elvish_email.Filters.Rules.Sorted.{AtLeast, IsDescending, All-of_sort, sort-IsDescending}

module _ (U : Unicode) (ctx : Context) where
  AtLeast-refl : (r : Rule) → AtLeast r r
  AtLeast-refl r = ground arith

  -- In a descending list, the first match in any prefix is on top of all that match.
  pick-take-AtLeast :
      (n : ℕ) (rs : List Rule) (r : Rule)
      → IsDescending rs
      → pick_first_matching_rule U (take n rs) ctx ≡ some r
      → All (λ s. rule_matches U s ctx ≡ true → AtLeast r s) rs
  unfolding pick_first_matching_rule
  pick-take-AtLeast zero rs r h e = absurd (cc)
  pick-take-AtLeast (suc n) [] r h e = tt
  pick-take-AtLeast (suc n) (x ∷ xs) r (top, h) e = elim (Bool-cases (rule_matches U x ctx)) [
    | inl hit ↦
        let same : x ≡ r = ground arith in
        subst (λ z. All (λ s. rule_matches U s ctx ≡ true → AtLeast z s) (x ∷ xs)) same
          (λ _. AtLeast-refl x, All-map (λ s q _. q) xs top)
    | inr miss ↦ (λ k. cc, pick-take-AtLeast n xs r h (ground arith))
  ]

  -- An active rule of the raw list is among the active rules.
  active_rules-mem :
      (P : Rule → Type 0) (raw : List (Option Rule)) (s : Rule)
      → All P (active_rules raw)
      → Memᴰ (some s) raw
      → is_active (some s) ≡ true
      → P s
  unfolding active_rules
  active_rules-mem P [] s h m k = elim m [ ]
  active_rules-mem P (none ∷ rs) s h (Memᴰ.head e) k = cc
  active_rules-mem P (none ∷ rs) s h (Memᴰ.tail m) k = active_rules-mem P rs s h m k
  active_rules-mem P (some x ∷ rs) s h (Memᴰ.head e) k =
      let same : s ≡ x = cc in
      let act : is_active (some x) ≡ true = rw same at k in
      let h' : All P (x ∷ active_rules rs) = rw act at h in subst P (sym same) h'.0
  active_rules-mem P (some x ∷ rs) s h (Memᴰ.tail m) k = elim (Bool-cases (is_active (some x))) [
    | inl act ↦
        let h' : All P (x ∷ active_rules rs) = rw act at h in active_rules-mem P rs s h'.1 m k
    | inr idle ↦ active_rules-mem P rs s (rw idle at h) m k
  ]

-- The rule that is picked from the normalised rules has at least the priority of every active rule
-- of the raw list that matches the message, also of one that the cap drops.
pub pick-normalize-AtLeast :
    (U : Unicode) (ctx : Context) (raw : List (Option Rule)) (r s : Rule)
    → pick_first_matching_rule U (normalize_rules U raw) ctx ≡ some r
    → Memᴰ (some s) raw
    → is_active (some s) ≡ true
    → rule_matches U s ctx ≡ true
    → AtLeast r s
unfolding normalize_rules
pick-normalize-AtLeast U ctx raw r s e m k hit =
    let sorted = sort_rules U (active_rules raw) in
    let top =
      pick-take-AtLeast U ctx rules_cap sorted r (sort-IsDescending U (active_rules raw)) e in
    active_rules-mem U ctx (λ z. rule_matches U z ctx ≡ true → AtLeast r z) raw s
      (All-of_sort _ U (active_rules raw) top) m k hit

-- How a pick can come about: the rule stands behind rules that do not match, and matches.
pub record IsFirstMatch (U : Unicode) (ctx : Context) (rs : List Rule) (r : Rule) : Type 0 where
  pub skipped : List Rule
  pub later : List Rule
  pub split : rs ≡ skipped ++ r ∷ later
  pub missed : All (λ s. rule_matches U s ctx ≡ false) skipped
  pub hit : rule_matches U r ctx ≡ true

module _ (U : Unicode) (ctx : Context) where
  IsFirstMatch-cons :
      (x : Rule) (rs : List Rule) (r : Rule)
      → rule_matches U x ctx ≡ false
      → IsFirstMatch U ctx rs r
      → IsFirstMatch U ctx (x ∷ rs) r
  IsFirstMatch-cons x rs r miss f = record {
    skipped = x ∷ f.skipped;
    later = f.later;
    split = ap (λ (t : List Rule). x ∷ t) f.split;
    missed = (miss, f.missed);
    hit = f.hit;
  }

  pick-IsFirstMatch :
      (rs : List Rule) (r : Rule)
      → pick_first_matching_rule U rs ctx ≡ some r
      → IsFirstMatch U ctx rs r
  unfolding pick_first_matching_rule
  pick-IsFirstMatch [] r e = cc
  pick-IsFirstMatch (x ∷ rs) r e = elim (Bool-cases (rule_matches U x ctx)) [
    | inl hit ↦
        let same : x ≡ r = ground arith in
        record {
          skipped = [];
          later = rs;
          split = ap (λ (z : Rule). z ∷ rs) same;
          missed = tt;
          hit = rw (← same) hit;
        }
    | inr miss ↦ IsFirstMatch-cons x rs r miss (pick-IsFirstMatch rs r (ground arith))
  ]

  pick-skip :
      (skipped later : List Rule) (r : Rule)
      → All (λ s. rule_matches U s ctx ≡ false) skipped
      → rule_matches U r ctx ≡ true
      → pick_first_matching_rule U (skipped ++ r ∷ later) ctx ≡ some r
  unfolding pick_first_matching_rule
  pick-skip [] later r h hit = rw hit
  pick-skip (x ∷ xs) later r h hit = rw h.0 (pick-skip xs later r h.1 hit)

  -- A rule is picked exactly when it matches and no rule before it does.
  pub pick_iff :
      (rs : List Rule) (r : Rule)
      → (pick_first_matching_rule U rs ctx ≡ some r) ↔ IsFirstMatch U ctx rs r
  pick_iff rs r =
      (pick-IsFirstMatch rs r, λ f. rw f.split (pick-skip f.skipped f.later r f.missed f.hit))
