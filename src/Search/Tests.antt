-- ===== src/Search/Tests.antt =====
-- Witnesses for static/mail/search/tokenize.js and static/mail/search/search.js.
use elvish_email.Search.Merge.{Scores, Row, Hit, all_rows, search_all}
use elvish_email.Search.Merge.Laws.{IsOrder, IsMerged, search_all-IsMerged}
use elvish_email.Search.Postings.{IndexSealing, Index, Entry, no_id, cached, rejected, handle_index}
use elvish_email.Search.Postings.Commit.{handle_index-refused}
use elvish_email.Base.{
  not, is_some, ℕ, ◌+◌, ltb, arith, ◌≡◌, refl, true, false, Option, none, some, List, [], ◌∷◌, ◌++◌,
  All, if◌then◌else◌,
}
use elvish_email.Base.Text.{Text, truthy, lit, text_eq, ascii}
use elvish_email.Base.Dict.{get, put}
use elvish_email.Search.Terms.{
  Segment, Token, stop_words, is_stop, tokenize, count_terms, unique_terms,
}
use elvish_email.Search.Client.{
  init, reply_to, timed_out, new_client, send, start, search_body, receive, calls_start,
  calls_search, answers, Reach, fresh, next,
}
use elvish_email.Search.Client.Replies.{search_never_ready}
use elvish_email.Search.Client.Identifiers.{places, handed_out, places_once}
use elvish_email.Search.Terms.Laws.{positions_of, summary, unique_terms-summary}

-- "Re, the re" has one term with two positions.
abbrev parts : List Segment
parts =
    record { segment = lit "Re"; index = 0; is_word_like = true }
    ∷ record { segment = lit "the"; index = 4; is_word_like = true }
    ∷ record { segment = lit "re"; index = 8; is_word_like = true }
    ∷ []

abbrev tokens : List Token
tokens = tokenize ascii stop_words parts

unique_terms-summary_example :
    get (lit "re") (unique_terms tokens) ≡ summary (positions_of (lit "re") tokens)
unique_terms-summary_example = unique_terms-summary tokens (lit "re")

re_twice : get (lit "re") (unique_terms tokens) ≡ some (record { tf = 2; positions = 0 ∷ 8 ∷ [] })
unfolding get put lit text_eq is_stop tokenize count_terms unique_terms
re_twice = refl

posted_init : (start new_client).posted ≡ [] ++ init 1 ∷ []
unfolding start send
posted_init = refl

-- The page starts the search, the worker gets ready, and the page asks for a search.
abbrev run :
    Reach
      (search_body (receive (reply_to (init 1) true) (record (start new_client) { posted = [] })))
run = next (next (next fresh calls_start) (answers [] [] (init 1) true posted_init)) calls_search

search_never_ready_example :
    let c =
      search_body (receive (reply_to (init 1) true) (record (start new_client) { posted = [] })) in
    (c.is_ready ≡ false) × All (λ e. e.1 ≡ timed_out) c.settled × (search_body c ≡ c)
search_never_ready_example = search_never_ready run

places_once_example :
    let c =
      search_body (receive (reply_to (init 1) true) (record (start new_client) { posted = [] })) in
    places 1 c ≡ (if handed_out 1 c then 1 else 0)
places_once_example = places_once 1 run

-- A sealed value is the value; a document opens to nothing.
abbrev open_boxes : IndexSealing
open_boxes = record {
  Key = Unit {0};
  Box = Option Entry;
  seal_entry = λ k e. some e;
  open_entry = λ k b. some b;
  seal_document = λ k d. none;
}

abbrev empty_index : Index open_boxes
empty_index = record { terms = []; docs = [] }

abbrev meeting : List Segment
meeting =
    record { segment = lit "Meet"; index = 0; is_word_like = true }
    ∷ record { segment = lit "meet"; index = 5; is_word_like = true }
    ∷ []

handle_index-refused_example :
    handle_index open_boxes ascii
      (some tt)
      (lit "now")
      (lit "m1")
      (some (lit "Meet meet", meeting))
      empty_index
    ≡ (
      if not (truthy (lit "m1"))
          then no_id
          else if is_some (get (lit "m1") empty_index.docs)
          then cached
          else rejected,
      empty_index,
    )
handle_index-refused_example =
    handle_index-refused open_boxes tt ascii (lit "now") (lit "m1")
      (some (lit "Meet meet", meeting)) empty_index

abbrev counts : Scores
counts = record { Number = ℕ; zero = 0; plus = λ a b. a + b; greater = λ a b. ltb b a }

counts-IsOrder : IsOrder counts
counts-IsOrder = record {
  asym = λ a b h. ground (arith, h);
  trans = λ a b c h k. ground (arith, h, k);
}

abbrev in_body : Row counts
in_body = record { message_id = lit "m1"; id = []; score = some 2; source = lit "body" }

abbrev in_server : Row counts
in_server = record {
  message_id = lit "m1";
  id = lit "m1";
  score = some 1;
  source = lit "server-metadata";
}

abbrev other_row : Row counts
other_row = record { message_id = lit "m2"; id = []; score = none; source = lit "body" }

abbrev found_hits : List (Text × Hit counts)
found_hits =
    (
      lit "m1",
      record { row = in_body; score = some 3; sources = lit "body" ∷ lit "server-metadata" ∷ [] },
    )
    ∷ (lit "m2", record { row = other_row; score = none; sources = lit "body" ∷ [] })
    ∷ []

finds :
    search_all counts
      (lit "re")
      (lit "subject" ∷ [])
      50
      (some (other_row ∷ in_body ∷ []))
      (some (in_server ∷ []))
      none
    ≡ some found_hits
unfolding search_all lit get put text_eq
finds = refl

search_all-IsMerged_example :
    (rows : List (Row counts)) × (all_rows counts
        (lit "re")
        (lit "subject" ∷ [])
        (some (other_row ∷ in_body ∷ []))
        (some (in_server ∷ []))
        none
      ≡ some rows)
    × IsMerged counts 50 rows found_hits
search_all-IsMerged_example =
    search_all-IsMerged counts (lit "re") (lit "subject" ∷ []) 50 (some (other_row ∷ in_body ∷ []))
      (some (in_server ∷ [])) none found_hits counts-IsOrder finds
