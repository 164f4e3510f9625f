-- ===== src/Search/Terms.antt =====
-- static/mail/search/tokenize.js: the terms of a text. The segments of `Intl.Segmenter`, or the
-- matches of the fallback expression, are a list that the host gives.
pub mod Laws
pub mod Keys
use elvish_email.Base.{
  ℕ, ◌+◌, Bool, true, false, not, ◌&&◌, ◌||◌, Option, none, some, List, [], ◌∷◌, ◌++◌, ltb,
  if◌then◌else◌, length, any,
}
use elvish_email.Base.Text.{Text, text_eq, lit, Unicode}
use elvish_email.Base.Dict.{Dict, get, put}

-- One segment, or one match of the fallback expression (which is always like a word).
pub record Segment : Type 0 where
  pub segment : Text
  pub index : ℕ
  pub is_word_like : Bool

pub record Token : Type 0 where
  pub term : Text
  pub position : ℕ

abbrev pub stop_words : List Text
stop_words =
    lit "a"
    ∷ lit "an"
    ∷ lit "and"
    ∷ lit "are"
    ∷ lit "as"
    ∷ lit "at"
    ∷ lit "be"
    ∷ lit "but"
    ∷ lit "by"
    ∷ lit "for"
    ∷ lit "from"
    ∷ lit "has"
    ∷ lit "have"
    ∷ lit "i"
    ∷ lit "if"
    ∷ lit "in"
    ∷ lit "into"
    ∷ lit "is"
    ∷ lit "it"
    ∷ lit "its"
    ∷ lit "me"
    ∷ lit "my"
    ∷ lit "no"
    ∷ lit "not"
    ∷ lit "of"
    ∷ lit "on"
    ∷ lit "or"
    ∷ lit "so"
    ∷ lit "that"
    ∷ lit "the"
    ∷ lit "this"
    ∷ lit "to"
    ∷ lit "was"
    ∷ lit "we"
    ∷ lit "were"
    ∷ lit "will"
    ∷ lit "with"
    ∷ lit "you"
    ∷ lit "your"
    ∷ []

unfoldable pub is_stop : List Text → Text → Bool
is_stop stops w = any (λ s. text_eq s w) stops

-- The loops of `tokenize`; `stops` is empty with `includeStopWords`.
unfoldable pub tokenize : Unicode → List Text → List Segment → List Token
tokenize U stops [] = []
tokenize U stops (part ∷ parts) =
    let rest = tokenize U stops parts in
    let w = U.lower part.segment in
    if not part.is_word_like || (ltb (length w) 2 || is_stop stops w)
    then rest
    else record { term = w; position = part.index } ∷ rest

-- A bucket without its term, which is its key.
pub record Bucket : Type 0 where
  pub tf : ℕ
  pub positions : List ℕ

abbrev pub position_cap : ℕ
position_cap = 64

abbrev add_position : ℕ → Bucket → Bucket
add_position p b = record {
  tf = b.tf + 1;
  positions = if ltb (length b.positions) position_cap then b.positions ++ p ∷ [] else b.positions;
}

abbrev bucket_or_new : Option Bucket → Bucket
bucket_or_new none = record { tf = 0; positions = [] }
bucket_or_new (some b) = b

-- The loop of `uniqueTerms`, with the map so far.
unfoldable pub count_terms : Dict Bucket → List Token → Dict Bucket
count_terms m [] = m
count_terms m (t ∷ ts) =
    count_terms (put t.term (add_position t.position (bucket_or_new (get t.term m))) m) ts

unfoldable pub unique_terms : List Token → Dict Bucket
unfolding count_terms
unique_terms tokens = count_terms [] tokens
