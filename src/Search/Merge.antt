-- ===== src/Search/Merge.antt =====
-- static/mail/search/search.js: `searchAll`. The rows that the three searches give are arguments,
-- `none` where the promise rejects, and so are the numbers of the scores.
pub mod Laws
pub mod Totals
use elvish_email.Base.{
  ℕ, Bool, true, false, not, ◌&&◌, ◌||◌, Option, none, some, List, [], ◌∷◌, ◌++◌, if◌then◌else◌,
  take, any,
}
use elvish_email.Base.Text.{Text, text_eq, truthy}
use elvish_email.Base.Dict.{Dict, get, put}

-- `greater a b` is `a - b > 0`.
pub record Scores : Type 1 where
  pub Number : Type 0
  pub zero : Number
  pub plus : Number → Number → Number
  pub greater : Number → Number → Bool

module _ (S : Scores) where
  -- An absent id is the empty text.
  pub record Row : Type 0 where
    pub message_id : Text
    pub id : Text
    pub score : Option S.Number
    pub source : Text

  -- The first row of an id, with the score and the sources of all.
  pub record Hit : Type 0 where
    pub row : Row
    pub score : Option S.Number
    pub sources : List Text

  unfoldable pub row_key : Row → Text
  row_key r = if truthy r.message_id then r.message_id else r.id

  -- `score || 0`
  abbrev pub score_or_zero : Option S.Number → S.Number
  score_or_zero none = S.zero
  score_or_zero (some n) = n

  unfoldable pub first_hit : Row → Hit
  first_hit r = record { row = r; score = r.score; sources = r.source ∷ [] }

  unfoldable pub add_row : Row → Hit → Hit
  add_row r h = record h {
    score = some (S.plus (score_or_zero h.score) (score_or_zero r.score));
    sources =
        if any (λ s. text_eq s r.source) h.sources then h.sources else h.sources ++ r.source ∷ [];
  }

  unfoldable pub hit_after : Row → Option Hit → Hit
  unfolding first_hit add_row
  hit_after r none = first_hit r
  hit_after r (some h) = add_row r h

  -- The loop over the rows.
  unfoldable pub merge_rows : Dict Hit → List Row → Dict Hit
  unfolding row_key hit_after
  merge_rows seen [] = seen
  merge_rows seen (r ∷ rs) =
      let key = row_key r in
      if truthy key
      then merge_rows (put key (hit_after r (get key seen)) seen) rs
      else merge_rows seen rs

  abbrev pub hit_score : Text × Hit → S.Number
  hit_score (k, h) = score_or_zero h.score

  -- The sort is stable: a hit goes before those with an equal score that were behind it.
  unfoldable pub insert_hit : Text × Hit → List (Text × Hit) → List (Text × Hit)
  insert_hit h [] = h ∷ []
  insert_hit h (x ∷ xs) =
      let later = x ∷ insert_hit h xs in
      if S.greater (hit_score x) (hit_score h) then later else h ∷ x ∷ xs

  unfoldable pub sort_hits : List (Text × Hit) → List (Text × Hit)
  unfolding insert_hit
  sort_hits [] = []
  sort_hits (h ∷ hs) = insert_hit h (sort_hits hs)

  abbrev both_rows : Option (List Row) → Option (List Row) → Option (List Row)
  both_rows (some xs) (some ys) = some (xs ++ ys)
  both_rows _ _ = none

  task : Bool → Option (List Row) → Option (List Row)
  task asked rows = if asked then rows else some []

  -- `Promise.all` and `flat`: the rows of the tasks that were started.
  unfoldable pub all_rows :
      Text
      → List Text
      → Option (List Row)
      → Option (List Row)
      → Option (Option (List Row))
      → Option (List Row)
  unfolding task
  all_rows q fields body server fallback =
      let asked = truthy q in
      let with_fields : Bool = elim fields [ [] ↦ false | f ∷ fs ↦ true ] in
      let headers : Option (List Row) = elim fallback [
        | none ↦ some []
        | some rows ↦ task asked rows
      ] in
      both_rows (task asked body) (both_rows (task (asked && with_fields) server) headers)

  merged_hits : ℕ → Option (List Row) → Option (List (Text × Hit))
  unfolding merge_rows sort_hits
  merged_hits limit none = none
  merged_hits limit (some rows) = some (take limit (sort_hits (merge_rows [] rows)))

  unfoldable pub search_all :
      Text
      → List Text
      → ℕ
      → Option (List Row)
      → Option (List Row)
      → Option (Option (List Row))
      → Option (List (Text × Hit))
  unfolding all_rows merged_hits
  search_all q fields limit body server fallback =
      merged_hits limit (all_rows q fields body server fallback)
