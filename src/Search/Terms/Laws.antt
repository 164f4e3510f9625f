-- ===== src/Search/Terms/Laws.antt =====
-- What the buckets of a text hold.
use mathlib.Core.List.{append-nil, append_assoc}
use elvish_email.Base.{
  ℕ, zero, suc, ◌≡◌, refl, ap, sym, ◌∙◌, true, false, Option, none, some, List, [], ◌∷◌, ◌++◌, ltb,
  if◌then◌else◌, length, length-append, take, arith, Bool-cases, inl, inr,
}
use elvish_email.Base.Text.{Text, text_eq, text_eq_iff}
use elvish_email.Base.Dict.{Dict, get, put, get-put, get-empty}
use elvish_email.Search.Terms.{
  Token, Bucket, position_cap, add_position, bucket_or_new, count_terms, unique_terms,
}

-- The positions of a term among the tokens, in order.
unfoldable pub positions_of : Text → List Token → List ℕ
positions_of w [] = []
positions_of w (t ∷ ts) =
    let rest = positions_of w ts in if text_eq t.term w then t.position ∷ rest else rest

-- A list cut to 64 elements.
abbrev capped : List ℕ → List ℕ
capped ps = take position_cap ps

-- The bucket of a list of positions: how many there are, and the first 64.
abbrev pub summary : List ℕ → Option Bucket
summary [] = none
summary (p ∷ ps) = some (record { tf = length (p ∷ ps); positions = take position_cap (p ∷ ps) })

take-append {ℓ} :
    {A : Type ℓ} (n : ℕ) (xs : List A) (y : A)
    → take n (xs ++ y ∷ [])
      ≡ (if ltb (length (take n xs)) n then take n xs ++ y ∷ [] else take n xs)
take-append zero [] y = refl
take-append zero (x ∷ xs) y = refl
take-append (suc zero) [] y = refl
take-append (suc (suc n)) [] y = ground arith
take-append (suc n) (x ∷ xs) y = ground (arith, take-append n xs y)

some_bucket :
    (n m : ℕ) (j k : List ℕ)
    → n ≡ m
    → j ≡ k
    → ◌≡◌ {A = Option Bucket}
        (some (record { tf = n; positions = j }))
        (some (record { tf = m; positions = k }))
some_bucket n m j k e f = cc

-- One more position in the bucket of some positions.
add-summary :
    (p : ℕ) (ps : List ℕ)
    → some (add_position p (bucket_or_new (summary ps))) ≡ summary (ps ++ p ∷ [])
add-summary p [] = refl
add-summary p (q ∷ ps) =
    some_bucket _ _ _ _ (omega (arith, length-append ps (p ∷ [])))
      (sym (take-append position_cap (q ∷ ps) p))

abbrev next_map : Token → Dict Bucket → Dict Bucket
next_map t m = put t.term (add_position t.position (bucket_or_new (get t.term m))) m

-- The count goes on from any map that holds the buckets of some positions.
count_terms-summary :
    (w : Text) (ts : List Token) (m : Dict Bucket) (ps : List ℕ)
    → get w m ≡ summary ps
    → get w (count_terms m ts) ≡ summary (ps ++ positions_of w ts)
unfolding count_terms positions_of
count_terms-summary w [] m ps h = h ∙ ap summary (sym (append-nil ps))
count_terms-summary w (t ∷ ts) m ps h = elim (Bool-cases (text_eq t.term w)) [
  | inl e ↦
      count_terms-summary w ts (next_map t m) (ps ++ t.position ∷ []) (counted e)
      ∙ ap summary (
          append_assoc ps (t.position ∷ []) (positions_of w ts)
          ∙ ap (λ ks. ps ++ ks) (sym (positions_here e)))
  | inr e ↦
      count_terms-summary w ts (next_map t m) ps
        (get-put t.term w (add_position t.position (bucket_or_new (get t.term m))) m ∙ kept e)
      ∙ ap (λ ks. summary (ps ++ ks)) (sym (positions_there e))
]
  where
    counted : text_eq t.term w ≡ true → get w (next_map t m) ≡ summary (ps ++ t.position ∷ [])
    counted e =
        get-put t.term w (add_position t.position (bucket_or_new (get t.term m))) m
        ∙ (rw e)
        ∙ ap (λ o. some (add_position t.position (bucket_or_new o)))
            (ap (λ k. get k m) ((text_eq_iff t.term w).0 e) ∙ h)
        ∙ add-summary t.position ps

    kept :
        text_eq t.term w ≡ false
        → (if text_eq t.term w
            then some (add_position t.position (bucket_or_new (get t.term m)))
            else get w m)
          ≡ summary ps
    kept e = ground (arith, e, h)

    positions_here :
        text_eq t.term w ≡ true → positions_of w (t ∷ ts) ≡ t.position ∷ positions_of w ts
    positions_here e = rw e

    positions_there : text_eq t.term w ≡ false → positions_of w (t ∷ ts) ≡ positions_of w ts
    positions_there e = rw e

-- For each term, uniqueTerms holds how often it stands among the tokens and the first 64 of its
-- positions in order, and it holds nothing for any other text.
pub unique_terms-summary :
    (tokens : List Token) (w : Text) → get w (unique_terms tokens) ≡ summary (positions_of w tokens)
unfolding unique_terms
unique_terms-summary tokens w = count_terms-summary w tokens [] [] (get-empty w)
