-- ===== src/Search/Merge/Laws.antt =====
-- What the merged hits are: one for each id, best first.
use mathlib.Core.Path.{subst}
use elvish_email.Base.{
  ℕ, zero, suc, ◌≤◌, ◌≡◌, ◌⊎◌, refl, ap, ◌∙◌, true, false, Option, none, some, List, [], ◌∷◌, ◌++◌,
  if◌then◌else◌, take, drop, length, All, All-map, take-append-drop, length-take, arith, Bool-cases,
  inl, inr,
}
use elvish_email.Base.Text.{Text, text_eq, text_eq_iff, truthy}
use elvish_email.Base.Dict.{
  Dict, HasDistinctKeys, put-HasDistinctKeys, get, get-empty, put, get-put,
}
use elvish_email.Search.Merge.{
  Scores, Row, Hit, row_key, hit_after, merge_rows, hit_score, insert_hit, sort_hits, all_rows,
  merged_hits, search_all,
}
use elvish_email.Search.Merge.Totals.{rows_with, hit_of, HasHit, hit_of-HasHit}

module _ (S : Scores) where
  abbrev rows_with_ : Text → List (Row S) → List (Row S)
  rows_with_ = rows_with S

  abbrev hit_of_ : Option (Hit S) → List (Row S) → Option (Hit S)
  hit_of_ = hit_of S

  merge-get :
      (k : Text) (seen : Dict (Hit S)) (rows : List (Row S))
      → truthy k ≡ true
      → get k (merge_rows S seen rows) ≡ hit_of_ (get k seen) (rows_with_ k rows)
  unfolding merge_rows rows_with hit_of
  merge-get k seen [] t = refl
  merge-get k seen (r ∷ rs) t = elim (Bool-cases (text_eq (row_key S r) k)) [
    | inl e ↦
        let same = (text_eq_iff (row_key S r) k).0 e in
        rw e (
          rw same (
            rw t (
              merge-get k (put k (hit_after S r (get k seen)) seen) rs t
              ∙ ap (λ o. hit_of_ o (rows_with_ k rs))
                  (get-put k k (hit_after S r (get k seen)) seen ∙ rw ((text_eq_iff k k).1 refl)))))
    | inr e ↦ elim (Bool-cases (truthy (row_key S r))) [
      | inl u ↦ rw e (
          rw u (
            merge-get k (put (row_key S r) (hit_after S r (get (row_key S r) seen)) seen) rs t
            ∙ ap (λ o. hit_of_ o (rows_with_ k rs))
                (get-put (row_key S r) k (hit_after S r (get (row_key S r) seen)) seen ∙ rw e)))
      | inr u ↦ rw e (rw u (merge-get k seen rs t))
    ]
  ]

  merge-HasDistinctKeys :
      (seen : Dict (Hit S)) (rows : List (Row S))
      → HasDistinctKeys seen
      → HasDistinctKeys (merge_rows S seen rows)
  unfolding merge_rows
  merge-HasDistinctKeys seen [] u = u
  merge-HasDistinctKeys seen (r ∷ rs) u = elim (Bool-cases (truthy (row_key S r))) [
    | inl t ↦ rw t (
        merge-HasDistinctKeys (put (row_key S r) (hit_after S r (get (row_key S r) seen)) seen) rs
          (put-HasDistinctKeys (row_key S r) (hit_after S r (get (row_key S r) seen)) seen u))
    | inr t ↦ rw t (merge-HasDistinctKeys seen rs u)
  ]

  get-insert :
      (k j : Text) (h : Hit S) (d : Dict (Hit S))
      → get k d ≡ none
      → get j (insert_hit S (k, h) d) ≡ (if text_eq k j then some h else get j d)
  unfolding insert_hit get
  get-insert k j h [] n = refl
  get-insert k j h ((i, x) ∷ d) n =
      ground (arith, n, text_eq_iff k j, text_eq_iff i k, text_eq_iff i j, get-insert k j h d)

  insert-HasDistinctKeys :
      (k : Text) (h : Hit S) (d : Dict (Hit S))
      → get k d ≡ none
      → HasDistinctKeys d
      → HasDistinctKeys (insert_hit S (k, h) d)
  unfolding insert_hit get
  insert-HasDistinctKeys k h [] n u = (refl, tt)
  insert-HasDistinctKeys k h ((i, x) ∷ d) n u =
      elim (Bool-cases (S.greater (hit_score S (i, x)) (hit_score S (k, h)))) [
        | inl g ↦ rw g (
          get-insert k i h d (ground (arith, n))
              ∙ ground (arith, n, u.0, text_eq_iff k i, text_eq_iff i k),
          insert-HasDistinctKeys k h d (ground (arith, n)) u.1,
        )
        | inr g ↦ rw g (n, u)
      ]

  sort-get :
      (d : Dict (Hit S))
      → HasDistinctKeys d
      → ((j : Text) → get j (sort_hits S d) ≡ get j d) × HasDistinctKeys (sort_hits S d)
  unfolding sort_hits get
  sort-get [] u = (λ j. refl, tt)
  sort-get ((k, h) ∷ d) u =
      let (same, distinct) = sort-get d u.1 in
      let absent : get k (sort_hits S d) ≡ none = same k ∙ u.0 in
      (
        λ j. get-insert k j h (sort_hits S d) absent ∙ rw (same j),
        insert-HasDistinctKeys k h (sort_hits S d) absent distinct,
      )

  -- No hit has a greater score than one before it.
  abbrev pub IsRanked : List (Text × Hit S) → Type 0
  IsRanked [] = Unit
  IsRanked (x ∷ xs) = All (λ y. S.greater (hit_score S y) (hit_score S x) ≡ false) xs × IsRanked xs

  -- The order of the numbers.
  pub record IsOrder : Type 0 where
    pub asym : (a b : S.Number) → S.greater a b ≡ true → S.greater b a ≡ false
    pub trans :
        (a b c : S.Number) → S.greater a b ≡ false → S.greater b c ≡ false → S.greater a c ≡ false

  All-insert :
      (P : Text × Hit S → Type 0) (h : Text × Hit S) (xs : List (Text × Hit S))
      → P h
      → All P xs
      → All P (insert_hit S h xs)
  unfolding insert_hit
  All-insert P h [] p q = (p, tt)
  All-insert P h (x ∷ xs) p q = elim (Bool-cases (S.greater (hit_score S x) (hit_score S h))) [
    | inl g ↦ rw g (q.0, All-insert P h xs p q.1)
    | inr g ↦ rw g (p, q)
  ]

  insert-IsRanked :
      (h : Text × Hit S) (xs : List (Text × Hit S))
      → IsOrder
      → IsRanked xs
      → IsRanked (insert_hit S h xs)
  unfolding insert_hit
  insert-IsRanked h [] o r = (tt, tt)
  insert-IsRanked h (x ∷ xs) o r = elim (Bool-cases (S.greater (hit_score S x) (hit_score S h))) [
    | inl g ↦ rw g (
      All-insert (λ y. S.greater (hit_score S y) (hit_score S x) ≡ false) h xs
          (o.asym (hit_score S x) (hit_score S h) g) r.0,
      insert-IsRanked h xs o r.1,
    )
    | inr g ↦ rw g (
      (g, All-map (λ y q. o.trans (hit_score S y) (hit_score S x) (hit_score S h) q g) xs r.0),
      r,
    )
  ]

  sort-IsRanked : (xs : List (Text × Hit S)) → IsOrder → IsRanked (sort_hits S xs)
  unfolding sort_hits
  sort-IsRanked [] o = tt
  sort-IsRanked (x ∷ xs) o = insert-IsRanked x (sort_hits S xs) o (sort-IsRanked xs o)

  -- The hits are the best of all: `rest` is what the limit cuts off.
  pub record IsMerged (limit : ℕ) (rows : List (Row S)) (hits : List (Text × Hit S)) : Type 0 where
    pub rest : List (Text × Hit S)
    pub few : length hits ≤ limit
    pub full : (rest ≡ []) ⊎ (length hits ≡ limit)
    pub distinct : HasDistinctKeys (hits ++ rest)
    pub ranked : IsRanked (hits ++ rest)
    pub found : (k : Text) → truthy k ≡ true → HasHit S (rows_with S k rows) (get k (hits ++ rest))

  cut-full : (n : ℕ) (xs : List (Text × Hit S)) → (drop n xs ≡ []) ⊎ (length (take n xs) ≡ n)
  cut-full zero xs = inr refl
  cut-full (suc n) [] = inl refl
  cut-full (suc n) (x ∷ xs) = elim (cut-full n xs) [ inl e ↦ inl e | inr e ↦ inr (ap suc e) ]

  rows-IsMerged :
      (limit : ℕ) (rows : List (Row S))
      → IsOrder
      → IsMerged limit rows (take limit (sort_hits S (merge_rows S [] rows)))
  rows-IsMerged limit rows o =
      let merged = merge_rows S [] rows in
      let whole = sort_hits S merged in
      let distinct = merge-HasDistinctKeys [] rows tt in
      let (same, sorted) = sort-get merged distinct in
      let cut = take-append-drop limit whole in
      record {
        rest = drop limit whole;
        few = rw (length-take limit whole) (omega arith);
        full = cut-full limit whole;
        distinct = rw cut sorted;
        ranked = rw cut (sort-IsRanked merged o);
        found = λ k t. rw cut (
            let e : get k whole ≡ hit_of_ none (rows_with_ k rows) =
              same k
              ∙ merge-get k [] rows t
              ∙ ap (λ z. hit_of_ z (rows_with_ k rows)) (get-empty k) in
            rw e (hit_of-HasHit S (rows_with_ k rows)));
      }

  -- Where the scores are ordered, searchAll gives, when no search it started rejects, the first
  -- hits, at most as many as the limit, of a ranking in which every non-empty id of a row stands
  -- once, with the first row of that id, the sum of the scores of its rows added from the left (the
  -- score of a row alone as it came) and each of their sources once, and no hit has a greater score
  -- than one before it; hits are left out only when the limit is reached.
  pub search_all-IsMerged :
      (q : Text) (fields : List Text) (limit : ℕ) (body server : Option (List (Row S)))
      (fallback : Option (Option (List (Row S)))) (hits : List (Text × Hit S))
      → IsOrder
      → search_all S q fields limit body server fallback ≡ some hits
      → (rows : List (Row S)) × (all_rows S q fields body server fallback ≡ some rows)
        × IsMerged limit rows hits
  unfolding search_all merged_hits
  search_all-IsMerged q fields limit body server fallback hits o h =
      go (all_rows S q fields body server fallback) refl h
    where
      go :
          (x : Option (List (Row S)))
          → all_rows S q fields body server fallback ≡ x
          → merged_hits S limit x ≡ some hits
          → (rows : List (Row S)) × (all_rows S q fields body server fallback ≡ some rows)
            × IsMerged limit rows hits
      go none e k = cc
      go (some rows) e k =
          let same : take limit (sort_hits S (merge_rows S [] rows)) ≡ hits = cc (k) in
          (rows, e, subst (IsMerged limit rows) same (rows-IsMerged limit rows o))
