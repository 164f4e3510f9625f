-- ===== src/Search/Merge/Totals.antt =====
-- The hit of some rows: its score is the sum of theirs, and its sources are theirs.
use elvish_email.Base.{
  ◌≡◌, refl, ◌∙◌, Bool, true, false, ◌||◌, Option, none, some, List, [], ◌∷◌, ◌++◌, if◌then◌else◌,
  any, arith, Bool-cases, inl, inr,
}
use elvish_email.Base.Text.{Text, text_eq, text_eq_iff}
use elvish_email.Search.Merge.{
  Scores, Row, Hit, score_or_zero, first_hit, add_row, row_key, hit_after,
}

-- Whether a text is in a list.
abbrev pub among : Text → List Text → Bool
among s ts = any (λ t. text_eq t s) ts

abbrev pub AreDistinct : List Text → Type 0
AreDistinct [] = Unit
AreDistinct (t ∷ ts) = (among t ts ≡ false) × AreDistinct ts

among-append : (s : Text) (ts us : List Text) → among s (ts ++ us) ≡ (among s ts || among s us)
among-append s [] us = refl
among-append s (t ∷ ts) us = ground (arith, among-append s ts us)

append-AreDistinct :
    (t : Text) (ts : List Text) → among t ts ≡ false → AreDistinct ts → AreDistinct (ts ++ t ∷ [])
append-AreDistinct t [] n d = (refl, tt)
append-AreDistinct t (u ∷ ts) n d = (
  among-append u ts (t ∷ []) ∙ ground (arith, n, d.0, text_eq_iff t u, text_eq_iff u t),
  append-AreDistinct t ts (ground (arith, n)) d.1,
)

module _ (S : Scores) where
  -- The rows of an id, in order.
  unfoldable pub rows_with : Text → List (Row S) → List (Row S)
  rows_with k [] = []
  rows_with k (r ∷ rs) =
      let rest = rows_with k rs in if text_eq (row_key S r) k then r ∷ rest else rest

  -- The hit of some rows, one after the other.
  unfoldable pub hit_of : Option (Hit S) → List (Row S) → Option (Hit S)
  hit_of o [] = o
  hit_of o (r ∷ rs) = hit_of (some (hit_after S r o)) rs

  -- A number and the scores of some rows, added from the left; no score counts as 0.
  abbrev pub sum_from : S.Number → List (Row S) → S.Number
  sum_from n [] = n
  sum_from n (r ∷ rs) = sum_from (S.plus n (score_or_zero S r.score)) rs

  -- The score of a row alone is as it came.
  abbrev pub total : Option S.Number → List (Row S) → Option S.Number
  total n [] = n
  total n (r ∷ rs) = some (sum_from (score_or_zero S n) (r ∷ rs))

  -- What a hit says of the rows `r ∷ rs`.
  pub record IsSummary (r : Row S) (rs : List (Row S)) (h : Hit S) : Type 0 where
    pub first : h.row ≡ r
    pub score : h.score ≡ total r.score rs
    pub sources : (s : Text) → among s h.sources ≡ any (λ (q : Row S). text_eq q.source s) (r ∷ rs)
    pub distinct : AreDistinct h.sources

  -- No rows have no hit.
  abbrev pub HasHit : List (Row S) → Option (Hit S) → Type 0
  HasHit [] o = o ≡ none
  HasHit (r ∷ rs) o = (h : Hit S) × (o ≡ some h) × IsSummary r rs h

  total-some :
      (n : Option S.Number) (r : Row S) (rs : List (Row S))
      → total (some (S.plus (score_or_zero S n) (score_or_zero S r.score))) rs ≡ total n (r ∷ rs)
  total-some n r [] = refl
  total-some n r (q ∷ rs) = refl

  add-sources :
      (r : Row S) (h : Hit S) (s : Text)
      → among s (add_row S r h).sources ≡ (among s h.sources || text_eq r.source s)
  unfolding add_row
  add-sources r h s = elim (Bool-cases (among r.source h.sources)) [
    | inr n ↦ rw n (among-append s h.sources (r.source ∷ []) ∙ ground arith)
    | inl y ↦ rw y (elim (Bool-cases (text_eq r.source s)) [
      | inr e ↦ rw e (ground arith)
      | inl e ↦
          let here : among s h.sources ≡ true = rw (← (text_eq_iff r.source s).0 e) y in
          rw (e, here) refl
    ])
  ]

  add-AreDistinct :
      (r : Row S) (h : Hit S) → AreDistinct h.sources → AreDistinct (add_row S r h).sources
  unfolding add_row
  add-AreDistinct r h d = elim (Bool-cases (among r.source h.sources)) [
    | inl y ↦ rw y d
    | inr n ↦ rw n (append-AreDistinct r.source h.sources n d)
  ]

  -- The rows that are added to a hit.
  record IsGrown (h : Hit S) (rs : List (Row S)) (g : Hit S) : Type 0 where
    first : g.row ≡ h.row
    score : g.score ≡ total h.score rs
    sources :
        (s : Text)
        → among s g.sources ≡ (among s h.sources || any (λ (q : Row S). text_eq q.source s) rs)
    distinct : AreDistinct h.sources → AreDistinct g.sources

  grown :
      (h : Hit S) (rs : List (Row S)) → (g : Hit S) × (hit_of (some h) rs ≡ some g) × IsGrown h rs g
  unfolding hit_of hit_after
  grown h [] = (
    h,
    refl,
    record { first = refl; score = refl; sources = λ s. ground arith; distinct = λ d. d },
  )
  grown h (r ∷ rs) =
      let (g, e, i) = grown (add_row S r h) rs in
      (
        g,
        e,
        record {
          first = i.first ∙ unfold add_row in refl;
          score = i.score ∙ unfold add_row in total-some h.score r rs;
          sources = λ s. i.sources s ∙ ground (arith, add-sources r h s);
          distinct = λ d. i.distinct (add-AreDistinct r h d);
        },
      )

  pub hit_of-HasHit : (rows : List (Row S)) → HasHit rows (hit_of none rows)
  unfolding hit_of hit_after
  hit_of-HasHit [] = refl
  hit_of-HasHit (r ∷ rs) =
      let (g, e, i) = grown (first_hit S r) rs in
      (
        g,
        e,
        record {
          first = i.first ∙ unfold first_hit in refl;
          score = i.score ∙ unfold first_hit in refl;
          sources = λ s. i.sources s ∙ unfold first_hit in ground arith;
          distinct = i.distinct (unfold first_hit in (refl, tt));
        },
      )
