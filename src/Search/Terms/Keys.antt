-- ===== src/Search/Terms/Keys.antt =====
-- The buckets of a text have different terms.
use elvish_email.Base.{List, [], ◌∷◌}
use elvish_email.Base.Dict.{Dict, HasDistinctKeys, put-HasDistinctKeys, get, put}
use elvish_email.Search.Terms.{
  Token, Bucket, add_position, bucket_or_new, count_terms, unique_terms,
}

count-HasDistinctKeys :
    (ts : List Token) (d : Dict Bucket) → HasDistinctKeys d → HasDistinctKeys (count_terms d ts)
unfolding count_terms
count-HasDistinctKeys [] d u = u
count-HasDistinctKeys (t ∷ ts) d u =
    count-HasDistinctKeys ts (put t.term (add_position t.position (bucket_or_new (get t.term d))) d)
      (put-HasDistinctKeys t.term (add_position t.position (bucket_or_new (get t.term d))) d u)

pub unique-HasDistinctKeys : (ts : List Token) → HasDistinctKeys (unique_terms ts)
unfolding unique_terms
unique-HasDistinctKeys ts = count-HasDistinctKeys ts [] tt
