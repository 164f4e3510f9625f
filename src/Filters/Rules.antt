-- ===== src/Filters/Rules.antt =====
-- static/mail/mail-filter-engine.js: the rules, their order, and the first that matches.
pub mod Sorted
pub mod Priority
use Prim.Native.Nat.{Ordering}
use elvish_email.Base.{
  ℕ, Bool, true, false, not, ◌&&◌, Option, none, some, List, [], ◌∷◌, ltb, if◌then◌else◌, length,
  take, all,
}
use elvish_email.Base.Text.{Text, truthy, trim, Unicode}
use elvish_email.Filters.Match.{Condition, Context, text_or_empty, condition_matches}

-- `negsuc n` is -(n + 1).
pub data ℤ : Type 0 where
  pos negsuc : ℕ → ℤ

abbrev pub lt_ℤ : ℤ → ℤ → Bool
lt_ℤ (pos a) (pos b) = ltb a b
lt_ℤ (pos a) (negsuc b) = false
lt_ℤ (negsuc a) (pos b) = true
lt_ℤ (negsuc a) (negsuc b) = ltb b a

pub record Action : Type 0 where
  pub type : Option Text
  pub value : Option Text

-- A rule as the server sends it. `priority` is `Number(r.priority) || 0`, an integer.
pub record Rule : Type 0 where
  pub id : Option Text
  pub enabled : Option Bool
  pub priority : ℤ
  pub created_at : Option Text
  pub conditions : Option (List (Option Condition))
  pub actions : Option (List Action)

abbrev pub rules_cap : ℕ
rules_cap = 50

unfoldable pub not_disabled : Option Bool → Bool
not_disabled none = true
not_disabled (some b) = b

-- The test of `filter`.
unfoldable pub is_active : Option Rule → Bool
unfolding not_disabled
is_active none = false
is_active (some r) = not_disabled r.enabled && truthy (trim (text_or_empty r.id))

unfoldable pub active_rules : List (Option Rule) → List Rule
active_rules [] = []
active_rules (none ∷ rs) = active_rules rs
active_rules (some r ∷ rs) =
    let rest = active_rules rs in if is_active (some r) then r ∷ rest else rest

abbrev is_lt : Ordering → Bool
is_lt Ordering.lt = true
is_lt _ = false

module _ (U : Unicode) where
  -- The comparator gives a negative number: `a` must stand before `b`.
  unfoldable pub before : Rule → Rule → Bool
  before a b =
      if lt_ℤ b.priority a.priority
      then true
      else if lt_ℤ a.priority b.priority
      then false
      else is_lt (U.collate (text_or_empty a.created_at) (text_or_empty b.created_at))

  -- A stable sort: `x` comes before what it does not have to follow.
  unfoldable pub insert_rule : Rule → List Rule → List Rule
  insert_rule x [] = x ∷ []
  insert_rule x (y ∷ ys) =
      let later = insert_rule x ys in if before y x then y ∷ later else x ∷ y ∷ ys

  unfoldable pub sort_rules : List Rule → List Rule
  sort_rules [] = []
  sort_rules (x ∷ xs) = insert_rule x (sort_rules xs)

  unfoldable pub normalize_rules : List (Option Rule) → List Rule
  normalize_rules raw = take rules_cap (sort_rules (active_rules raw))

  unfoldable pub conditions_match : List (Option Condition) → Context → Bool
  conditions_match [] ctx = false
  conditions_match (c ∷ cs) ctx = all (λ d. condition_matches U d ctx) (c ∷ cs)

  unfoldable pub rule_matches : Rule → Context → Bool
  unfolding conditions_match
  rule_matches rule ctx = conditions_match (elim rule.conditions [ none ↦ [] | some cs ↦ cs ]) ctx

  unfoldable pub pick_first_matching_rule : List Rule → Context → Option Rule
  pick_first_matching_rule [] ctx = none
  pick_first_matching_rule (r ∷ rs) ctx =
      if rule_matches r ctx then some r else pick_first_matching_rule rs ctx
