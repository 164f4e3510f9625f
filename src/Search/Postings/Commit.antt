-- ===== src/Search/Postings/Commit.antt =====
-- What becomes of the index when the transaction commits under `writePostings`.
use elvish_email.Base.{
  arith, ap, ℕ, ◌≡◌, refl, Bool, true, false, not, Option, none, some, List, [], ◌∷◌, if◌then◌else◌,
  is_some, length, take, Bool-cases, inl, inr,
}
use elvish_email.Base.Text.{Text, truthy, Unicode}
use elvish_email.Base.Dict.{Dict, get}
use elvish_email.Search.Terms.{Segment, Bucket, stop_words, tokenize, unique_terms}
use elvish_email.Search.Postings.{
  Entry, IndexSealing, indexed, rejected, no_id, cached, Index, Transaction, read_entry,
  write_entry, write_term, write_terms, write_document, write_postings, put_term, put_document,
  awaited, index_read, handle_index,
}

module _ (S : IndexSealing) (k : S.Key) where
  -- The seal is awaited before the put, whatever was read.
  write_entry-refused :
      (id term : Text) (b : Bucket) (o : Option (Entry × Transaction S))
      → write_entry S k id term b o ≡ none
  unfolding write_entry put_term awaited
  write_entry-refused id term b none = refl
  write_entry-refused id term b (some (e, t)) = refl

  write_term-refused :
      (id term : Text) (b : Bucket) (t : Transaction S) → write_term S k id term b t ≡ none
  unfolding write_term
  write_term-refused id term b t =
      ground (arith, write_entry-refused id term b (read_entry S k (get term t.index.terms) t))

  write_terms-keeps :
      (id : Text) (terms : Dict Bucket) (t : Transaction S) → (write_terms S k id terms t).1 ≡ t
  unfolding write_terms
  write_terms-keeps id [] t = refl
  write_terms-keeps id ((term, b) ∷ terms) t =
      stopped (write_term S k id term b t) (write_term-refused id term b t)
    where
      stopped :
          (o : Option (Transaction S))
          → o ≡ none
          → (elim o as (λ x. Bool × Transaction S) [
            | none ↦ (false, t)
            | some u ↦ write_terms S k id terms u
          ]).1
            ≡ t
      stopped none e = refl
      stopped (some u) e = cc

  write_document-refused :
      (now id snippet : Text) (n : ℕ) (d : Bool) (t : Transaction S)
      → let r = write_document S k now id n snippet (d, t) in (r.0 ≡ false) × (r.1.index ≡ t.index)
  unfolding write_document put_document awaited
  write_document-refused now id snippet n false t = (refl, refl)
  write_document-refused now id snippet n true t = (refl, refl)

  write_postings-refused :
      (now id snippet : Text) (terms : Dict Bucket) (i : Index S)
      → write_postings S k now id terms snippet i ≡ (false, i)
  unfolding write_postings
  write_postings-refused now id snippet terms i =
      let t : Transaction S = record { index = i; active = true } in
      let (d, u) = write_terms S k id terms t in
      let (done, same) = write_document-refused now id snippet (length terms) d u in
      rw (done, same, write_terms-keeps id terms t) refl

  index_read-refused :
      (U : Unicode) (now id : Text) (read : Option (Text × List Segment)) (i : Index S)
      → index_read S U k now id read i ≡ (rejected, i)
  unfolding index_read
  index_read-refused U now id none i = refl
  index_read-refused U now id (some (text, segments)) i =
      let terms = unique_terms (tokenize U stop_words segments) in
      ap (λ (z : Bool × Index S). (if z.0 then indexed (length terms) else rejected, z.1))
        (write_postings-refused now id (take 240 text) terms i)

  -- With an index key, handleIndex leaves the index as it is, whatever is read and stored: it does
  -- nothing without a message id, reports a document that is there as cached, and rejects in all
  -- other cases, because the transaction of writePostings has committed when WebCrypto has
  -- answered.
  pub handle_index-refused :
      (U : Unicode) (now id : Text) (read : Option (Text × List Segment)) (i : Index S)
      → handle_index S U (some k) now id read i ≡ (
        if not (truthy id) then no_id else if is_some (get id i.docs) then cached else rejected,
        i,
      )
  unfolding handle_index
  handle_index-refused U now id read i = elim (Bool-cases (not (truthy id))) [
    | inl a ↦ rw a refl
    | inr a ↦ rw a (elim (Bool-cases (is_some (get id i.docs))) [
      | inl c ↦ rw c refl
      | inr c ↦ rw c (index_read-refused U now id read i)
    ])
  ]
