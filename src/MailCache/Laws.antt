-- ===== src/MailCache/Laws.antt =====
-- What the cache gives back, and what another account's key finds in it.
use mathlib.Core.Path.{subst}
use elvish_email.Base.{
  ℕ, ◌≡◌, ◌≢◌, ◌⊎◌, is_some, refl, ap, sym, ◌∙◌, Bool, true, false, ◌&&◌, ◌||◌, Option, none, some,
  List, [], ◌∷◌, if◌then◌else◌, any, Bool-cases, inl, inr,
}
use elvish_email.Base.Text.{Text, text_eq, text_eq_iff, truthy, trim, Unicode}
use elvish_email.Base.Dict.{Dict, get, get-put, get-empty}
use elvish_email.MailCache.{
  Meta, Entry, Sealing, Cache, opened_meta, belongs_to_other, ensure_meta_with, ensure_meta, start,
  opened, add_opened, headers_of, get_headers, sealed, store_envelope, put_envelope, get_envelope,
}

module _ {V : Type 0} (S : Sealing V) where
  -- A key opens what it sealed.
  pub record Opens : Type 0 where
    pub entries : (k : S.Key) (e : Entry V) → S.open_entry k (S.seal_entry k e) ≡ some e

  -- No other key does: the sealing is authenticated.
  pub record Refuses : Type 0 where
    pub metas : (k j : S.Key) (m : Meta) → k ≢ j → S.open_meta j (S.seal_meta k m) ≡ none
    pub entries : (k j : S.Key) (e : Entry V) → k ≢ j → S.open_entry j (S.seal_entry k e) ≡ none

  get-add_opened :
      (key j : Text) (o : Option (Entry V)) (out : Dict (Entry V))
      → get j (add_opened S key o out) ≡ (if text_eq key j && is_some o then o else get j out)
  unfolding add_opened
  get-add_opened key j none out = elim (Bool-cases (text_eq key j)) [
    | inl q ↦ rw q refl
    | inr q ↦ rw q refl
  ]
  get-add_opened key j (some e) out =
      get-put key j e out
      ∙ (elim (Bool-cases (text_eq key j)) [ inl q ↦ rw q refl | inr q ↦ rw q refl ])

  -- What is known of the headers collected so far.
  abbrev IsPart : Option (Entry V) → Option (Entry V) → Type 0
  IsPart got want = (got ≡ none) ⊎ (got ≡ want)

  IsPart-step :
      (b : Bool) (got want : Option (Entry V))
      → IsPart got want
      → IsPart (if b && is_some want then want else got) want
  IsPart-step true got none h = h
  IsPart-step true got (some e) h = inr refl
  IsPart-step false got want h = h

  asked_part :
      (b a : Bool) (got want : Option (Entry V))
      → IsPart got want
      → (if a then want else (if b && is_some want then want else got))
        ≡ (if b || a then want else got)
  asked_part true true got want h = refl
  asked_part true false got none (inl q) = q
  asked_part true false got none (inr q) = q
  asked_part true false got (some e) h = refl
  asked_part false true got want h = refl
  asked_part false false got want h = refl

  collected :
      (k : S.Key) (headers : Dict S.Box) (out : Dict (Entry V)) (id key : Text)
      → get key (add_opened S (trim id) (opened S k (get (trim id) headers)) out) ≡ (
          if text_eq (trim id) key && is_some (opened S k (get key headers))
          then opened S k (get key headers)
          else get key out)
  collected k headers out id key =
      get-add_opened (trim id) key (opened S k (get (trim id) headers)) out ∙ same
    where
      same :
          (if text_eq (trim id) key && is_some (opened S k (get (trim id) headers))
            then opened S k (get (trim id) headers)
            else get key out)
          ≡ (if text_eq (trim id) key && is_some (opened S k (get key headers))
              then opened S k (get key headers)
              else get key out)
      same = elim (Bool-cases (text_eq (trim id) key)) [
        | inl e ↦
            ap
              (λ z.
                if text_eq (trim id) key && is_some (opened S k (get z headers))
                then opened S k (get z headers)
                else get key out)
              ((text_eq_iff (trim id) key).0 e)
        | inr e ↦ rw e refl
      ]

  headers_of-lookup :
      (k : S.Key) (headers : Dict S.Box) (out : Dict (Entry V)) (ids : List Text) (key : Text)
      → truthy key ≡ true
      → IsPart (get key out) (opened S k (get key headers))
      → get key (headers_of S k headers out ids) ≡ (
          if any (λ id. text_eq (trim id) key) ids
          then opened S k (get key headers)
          else get key out)
  unfolding headers_of
  headers_of-lookup k headers out [] key t h = refl
  headers_of-lookup k headers out (id ∷ ids) key t h = elim (Bool-cases (truthy (trim id))) [
    | inl q ↦ rw q (
        headers_of-lookup k headers
          (add_opened S (trim id) (opened S k (get (trim id) headers)) out) ids key t
          (subst (λ z. IsPart z (opened S k (get key headers)))
            (sym (collected k headers out id key))
            (IsPart-step (text_eq (trim id) key) (get key out) (opened S k (get key headers)) h))
        ∙ ap (λ z. if any (λ i. text_eq (trim i) key) ids then opened S k (get key headers) else z)
            (collected k headers out id key)
        ∙ asked_part (text_eq (trim id) key) (any (λ i. text_eq (trim i) key) ids) (get key out)
            (opened S k (get key headers)) h)
    | inr q ↦ rw (q, differs q) (headers_of-lookup k headers out ids key t h)
  ]
    where
      differs : truthy (trim id) ≡ false → text_eq (trim id) key ≡ false
      differs q = elim (Bool-cases (text_eq (trim id) key)) [
        | inl e ↦ absurd (cc (ap truthy ((text_eq_iff (trim id) key).0 e), q, t))
        | inr e ↦ e
      ]

  -- In a cache that was started, getHeaders gives for a non-empty id that is asked for (after
  -- trimming) the header that its box opens to under the cache's key, and nothing for any other.
  pub get_headers-lookup :
      (ids : List Text) (c : Cache S) (k : S.Key) (key : Text)
      → c.has_db ≡ true
      → c.cache_key ≡ some k
      → truthy key ≡ true
      → get key (get_headers S ids c) ≡ (
          if any (λ id. text_eq (trim id) key) ids
          then opened S k (get key c.database.headers)
          else none)
  unfolding get_headers
  get_headers-lookup ids c k key d e t =
      rw (d, e)
        (headers_of-lookup k c.database.headers [] ids key t (inl (get-empty key))
          ∙ ap
              (λ z.
                if any (λ id. text_eq (trim id) key) ids
                then opened S k (get key c.database.headers)
                else z)
              (get-empty key))

  -- In a cache that was started, whose key opens what it sealed, getEnvelope finds after
  -- putEnvelope the version and the payload that were put, and for every other id what it found
  -- before.
  pub get_envelope-put :
      (now : ℕ) (id version : Text) (payload : V) (c : Cache S) (k : S.Key) (id' : Text)
      → Opens
      → c.has_db ≡ true
      → c.cache_key ≡ some k
      → truthy id ≡ true
      → truthy id' ≡ true
      → get_envelope S id' (put_envelope S now id version (some payload) c) ≡ (
          if text_eq id id'
          then some (record { version = version; payload = payload; cached_at = now })
          else get_envelope S id' c)
  unfolding get_envelope put_envelope store_envelope opened sealed
  get_envelope-put now id version payload c k id' o d e t t' =
      let box = S.seal_entry k (record { version = version; payload = payload; cached_at = now }) in
      rw (e, d, t, t', get-put id id' box c.database.envelopes)
        (elim (Bool-cases (text_eq id id')) [ inl q ↦ rw q (o.entries k _) | inr q ↦ rw q refl ])

  -- When another account starts the cache, with a key that does not open what the account before
  -- sealed, every header and envelope of that account stays in the database: clearStores is not
  -- reached.
  pub start-keeps_other :
      (U : Unicode) (now : ℕ) (fingerprint seed : Text) (c : Cache S) (j : S.Key) (m : Meta)
      → Refuses
      → truthy seed ≡ true
      → c.database.meta ≡ some (S.seal_meta j m)
      → j ≢ S.derive seed
      → (d : Cache S) × (start S U now fingerprint seed c ≡ some d)
        × (d.database.headers ≡ c.database.headers)
        × (d.database.envelopes ≡ c.database.envelopes)
  unfolding start ensure_meta ensure_meta_with opened_meta belongs_to_other
  start-keeps_other U now fingerprint seed c j m r t e n =
      rw (t, e, r.metas j (S.derive seed) m n) (_, refl, refl, refl)
