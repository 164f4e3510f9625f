-- ===== src/Search/Postings.antt =====
-- static/mail/search/worker.js: `handleIndex` and `writePostings`, each run alone. What the fetch, the
-- decryption and `mimeToText` give is an argument, and so are the sealed values of key.js. An IndexedDB
-- transaction with no request pending commits once control goes back to the event loop, as at an await
-- of WebCrypto; a request to a transaction that is not active throws.
pub mod Laws
pub mod Commit
use elvish_email.Base.{
  ℕ, ◌+◌, Bool, true, false, not, ◌&&◌, ◌||◌, Option, none, some, List, [], ◌∷◌, ◌++◌,
  if◌then◌else◌, length, take, is_some,
}
use elvish_email.Base.Text.{Text, text_eq, truthy, Unicode}
use elvish_email.Base.Dict.{Dict, get, put}
use elvish_email.Search.Terms.{Segment, Bucket, stop_words, tokenize, unique_terms}

pub record Posting : Type 0 where
  pub message_id : Text
  pub tf : ℕ
  pub positions : List ℕ

-- The value of a term, which is its key.
pub record Entry : Type 0 where
  pub df : ℕ
  pub postings : List Posting

pub record Document : Type 0 where
  pub indexed_at : Text
  pub term_count : ℕ
  pub snippet : Text

-- `open_entry` gives `none` where it rejects, and `some none` for an envelope of another shape.
pub record IndexSealing : Type 1 where
  pub Key : Type 0
  pub Box : Type 0
  pub seal_entry : Key → Entry → Box
  pub open_entry : Key → Box → Option (Option Entry)
  pub seal_document : Key → Document → Box

unfoldable pub has_posting : Text → List Posting → Bool
has_posting id [] = false
has_posting id (p ∷ ps) = text_eq p.message_id id || has_posting id ps

unfoldable pub remove_posting : Text → List Posting → List Posting
remove_posting id [] = []
remove_posting id (p ∷ ps) =
    let rest = p ∷ remove_posting id ps in if text_eq p.message_id id then ps else rest

-- The body of the loop over the terms, between opening and sealing.
unfoldable pub merge_posting : Text → Bucket → Entry → Entry
unfolding has_posting remove_posting
merge_posting id b e =
    let there = has_posting id e.postings in
    let others = if there then remove_posting id e.postings else e.postings in
    record {
      df = if there then e.df else e.df + 1;
      postings = others ++ record { message_id = id; tf = b.tf; positions = b.positions } ∷ [];
    }

abbrev new_entry : Entry
new_entry = record { df = 0; postings = [] }

-- How `handleIndex` ends.
pub data Indexed : Type 0 where
  rejected no_id cached : Indexed
  indexed : ℕ → Indexed

module _ (S : IndexSealing) where
  pub record Index : Type 0 where
    pub terms : Dict S.Box
    pub docs : Dict S.Box

  -- A transaction on both stores.
  pub record Transaction : Type 0 where
    pub index : Index
    pub active : Bool

  -- The transaction when WebCrypto has answered.
  unfoldable pub awaited : Transaction → Transaction
  awaited t = record t { active = false }

  -- `existing ? await openJSON(indexKey, existing) : null`, with a new entry for null.
  unfoldable pub opened : Option (Option Entry) → Transaction → Option (Entry × Transaction)
  unfolding awaited
  opened none t = none
  opened (some none) t = some (new_entry, t)
  opened (some (some e)) t = some (e, awaited t)

  unfoldable pub read_entry : S.Key → Option S.Box → Transaction → Option (Entry × Transaction)
  unfolding opened
  read_entry k none t = some (new_entry, t)
  read_entry k (some box) t = opened (S.open_entry k box) t

  unfoldable pub put_term : Text → S.Box → Transaction → Option Transaction
  put_term term box t =
      let i = t.index in
      if t.active
      then some (record t { index = record i { terms = put term box i.terms } })
      else none

  -- What is left of one turn of the loop after `existing` was read.
  unfoldable pub write_entry :
      S.Key → Text → Text → Bucket → Option (Entry × Transaction) → Option Transaction
  unfolding merge_posting put_term awaited
  write_entry k id term b none = none
  write_entry k id term b (some (e, t)) =
      put_term term (S.seal_entry k (merge_posting id b e)) (awaited t)

  unfoldable pub write_term : S.Key → Text → Text → Bucket → Transaction → Option Transaction
  unfolding read_entry write_entry
  write_term k id term b t =
      if t.active then write_entry k id term b (read_entry k (get term t.index.terms) t) else none

  -- What was put before a rejection stays.
  unfoldable pub write_terms : S.Key → Text → Dict Bucket → Transaction → Bool × Transaction
  unfolding write_term
  write_terms k id [] t = (true, t)
  write_terms k id ((term, b) ∷ terms) t = elim (write_term k id term b t) [
    | none ↦ (false, t)
    | some u ↦ write_terms k id terms u
  ]

  unfoldable pub put_document : Text → S.Box → Transaction → Bool × Transaction
  put_document id box t =
      let i = t.index in
      if t.active
      then (true, record t { index = record i { docs = put id box i.docs } })
      else (false, t)

  unfoldable pub write_document :
      S.Key → Text → Text → ℕ → Text → Bool × Transaction → Bool × Transaction
  unfolding put_document awaited
  write_document k now id count snippet (false, t) = (false, t)
  write_document k now id count snippet (true, t) =
      put_document id
        (S.seal_document k (record { indexed_at = now; term_count = count; snippet = snippet }))
        (awaited t)

  unfoldable pub write_postings : S.Key → Text → Text → Dict Bucket → Text → Index → Bool × Index
  unfolding write_terms write_document
  write_postings k now id terms snippet i =
      let (done, t) =
        write_document k now id (length terms) snippet
          (write_terms k id terms (record { index = i; active = true })) in
      (done, t.index)

  abbrev reported : ℕ → Bool × Index → Indexed × Index
  reported count (done, i) = (if done then indexed count else rejected, i)

  -- The message as text and its segments, `none` where a step before rejects.
  unfoldable pub index_read :
      Unicode → S.Key → Text → Text → Option (Text × List Segment) → Index → Indexed × Index
  unfolding write_postings
  index_read U k now id none i = (rejected, i)
  index_read U k now id (some (text, segments)) i =
      let terms = unique_terms (tokenize U stop_words segments) in
      reported (length terms) (write_postings k now id terms (take 240 text) i)

  unfoldable pub handle_index :
      Unicode → Option S.Key → Text → Text → Option (Text × List Segment) → Index → Indexed × Index
  unfolding index_read
  handle_index U none now id read i = (rejected, i)
  handle_index U (some k) now id read i =
      if not (truthy id)
      then (no_id, i)
      else if is_some (get id i.docs)
      then (cached, i)
      else index_read U k now id read i
