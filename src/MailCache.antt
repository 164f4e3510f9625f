-- ===== src/MailCache.antt =====
-- static/mail/mail-cache.js: the encrypted store of headers and envelopes. The key derivation and
-- the sealing of static/mail/search/key.js rest on WebCrypto, so they are a parameter; the database
-- is three object stores.
pub mod Laws
mod Tests
use elvish_email.Base.{
  ℕ, Bool, true, false, not, ◌&&◌, ◌||◌, Option, none, some, List, [], ◌∷◌, ◌++◌, if◌then◌else◌,
}
use elvish_email.Base.Text.{Text, text_eq, truthy, trim, Unicode}
use elvish_email.Base.Dict.{Dict, get, put}

pub record Meta : Type 0 where
  pub schema_version : ℕ
  pub account_fingerprint : Text
  pub updated_at : ℕ

pub record Entry (V : Type 0) : Type 0 where
  pub version : Text
  pub payload : V
  pub cached_at : ℕ

-- `deriveScopedKeyFromLabel` with the cache's label, `sealJSON`, and `openJSON`, which is `none` where
-- it rejects.
pub record Sealing (V : Type 0) : Type 1 where
  pub Key : Type 0
  pub Box : Type 0
  pub derive : Text → Key
  pub seal_meta : Key → Meta → Box
  pub open_meta : Key → Box → Option Meta
  pub seal_entry : Key → Entry V → Box
  pub open_entry : Key → Box → Option (Entry V)

-- A message as the manifest gives it: absent fields are empty.
pub record Message : Type 0 where
  pub id : Text
  pub body_blob_ref : Text
  pub body_size_bytes : Text
  pub header_ciphertext_b64 : Text

module _ {V : Type 0} (S : Sealing V) where
  pub record Database : Type 0 where
    pub meta : Option S.Box
    pub headers : Dict S.Box
    pub envelopes : Dict S.Box

  -- `this.db` is there where `has_db`; the database itself outlives the page.
  pub record Cache : Type 0 where
    pub has_db : Bool
    pub cache_key : Option S.Key
    pub account_fingerprint : Text
    pub database : Database

  unfoldable pub clear_stores : Cache → Cache
  clear_stores c =
      if c.has_db
      then record c { database = record { meta = none; headers = []; envelopes = [] } }
      else c

  unfoldable pub purge : Cache → Cache
  unfolding clear_stores
  purge c = clear_stores (record c { has_db = true })

  unfoldable pub opened_meta : S.Key → Option S.Box → Option Meta
  opened_meta k none = none
  opened_meta k (some box) = S.open_meta k box

  unfoldable pub belongs_to_other : Text → Option Meta → Bool
  belongs_to_other fp none = false
  belongs_to_other fp (some m) =
      truthy m.account_fingerprint && not (text_eq m.account_fingerprint fp)

  ensure_meta_with : ℕ → S.Key → Cache → Cache
  unfolding opened_meta belongs_to_other clear_stores
  ensure_meta_with now k c =
      let other = belongs_to_other c.account_fingerprint (opened_meta k c.database.meta) in
      let d = if other then clear_stores c else c in
      record d {
        database = record d.database {
          meta = some (
              S.seal_meta k (record {
                schema_version = 1;
                account_fingerprint = c.account_fingerprint;
                updated_at = now;
              }));
        };
      }

  unfoldable pub ensure_meta : ℕ → Cache → Cache
  unfolding ensure_meta_with
  ensure_meta now c = elim c.cache_key [
    | none ↦ c
    | some k ↦ if c.has_db then ensure_meta_with now k c else c
  ]

  -- `start`, which throws without a seed.
  unfoldable pub start : Unicode → ℕ → Text → Text → Cache → Option Cache
  unfolding ensure_meta
  start U now fingerprint seed c =
      if not (truthy seed)
      then none
      else some (
          ensure_meta now (record c {
            has_db = true;
            cache_key = some (S.derive seed);
            account_fingerprint = U.upper (trim fingerprint);
          }))

  -- A box that is there and opens.
  unfoldable pub opened : S.Key → Option S.Box → Option (Entry V)
  opened k none = none
  opened k (some box) = S.open_entry k box

  unfoldable pub add_opened : Text → Option (Entry V) → Dict (Entry V) → Dict (Entry V)
  add_opened key none out = out
  add_opened key (some e) out = put key e out

  -- The loops of `getHeaders`, which collect the boxes and then open them.
  unfoldable pub headers_of : S.Key → Dict S.Box → Dict (Entry V) → List Text → Dict (Entry V)
  unfolding opened add_opened
  headers_of k headers out [] = out
  headers_of k headers out (id ∷ ids) =
      let key = trim id in
      let with_key = add_opened key (opened k (get key headers)) out in
      headers_of k headers (if truthy key then with_key else out) ids

  unfoldable pub get_headers : List Text → Cache → Dict (Entry V)
  unfolding headers_of
  get_headers ids c = elim c.cache_key [
    | none ↦ []
    | some k ↦ if c.has_db then headers_of k c.database.headers [] ids else []
  ]

  -- A put stores nothing without an id or a payload.
  unfoldable pub sealed : S.Key → ℕ → Text → V → S.Box
  sealed k now version payload =
      S.seal_entry k (record { version = version; payload = payload; cached_at = now })

  store_header : S.Key → ℕ → Text → Text → Option V → Cache → Cache
  unfolding sealed
  store_header k now id version none c = c
  store_header k now id version (some payload) c =
      if c.has_db && truthy id
      then record c {
        database = record c.database {
          headers = put id (sealed k now version payload) c.database.headers;
        };
      }
      else c

  unfoldable pub put_header : ℕ → Text → Text → Option V → Cache → Cache
  unfolding store_header
  put_header now id version payload c = elim c.cache_key [
    | none ↦ c
    | some k ↦ store_header k now id version payload c
  ]

  store_envelope : S.Key → ℕ → Text → Text → Option V → Cache → Cache
  unfolding sealed
  store_envelope k now id version none c = c
  store_envelope k now id version (some payload) c =
      if c.has_db && truthy id
      then record c {
        database = record c.database {
          envelopes = put id (sealed k now version payload) c.database.envelopes;
        };
      }
      else c

  unfoldable pub put_envelope : ℕ → Text → Text → Option V → Cache → Cache
  unfolding store_envelope
  put_envelope now id version payload c = elim c.cache_key [
    | none ↦ c
    | some k ↦ store_envelope k now id version payload c
  ]

  unfoldable pub get_envelope : Text → Cache → Option (Entry V)
  unfolding opened
  get_envelope id c = elim c.cache_key [
    | none ↦ none
    | some k ↦ if c.has_db && truthy id then opened k (get id c.database.envelopes) else none
  ]

  -- The payload of an entry that was stored under the same version.
  unfoldable pub unwrap_versioned_payload : Option (Entry V) → Text → Option V
  unwrap_versioned_payload none version = none
  unwrap_versioned_payload (some e) version =
      if text_eq e.version version then some e.payload else none

-- `[...].join(':')`
unfoldable pub extract_version : Option Message → Text
extract_version none = []
extract_version (some m) =
    m.id ++ (58 ∷ (m.body_blob_ref ++ (58 ∷ (m.body_size_bytes ++ (58 ∷ m.header_ciphertext_b64)))))
