-- ===== src/MailCache/Tests.antt =====
-- Witnesses for static/mail/mail-cache.js, with boxes that carry their key.
use elvish_email.Base.{
  ◌≡◌, ◌≢◌, ◌⊎◌, inl, inr, refl, true, false, Option, none, some, [], ◌∷◌, any, if◌then◌else◌,
  Bool-cases,
}
use elvish_email.Base.Text.{Text, lit, truthy, text_eq, text_eq_iff, text_eq_refl, trim, ascii}
use elvish_email.Base.Dict.{get}
use elvish_email.MailCache.{
  Meta, Entry, Sealing, Cache, start, opened, get_headers, put_envelope, get_envelope,
}
use elvish_email.MailCache.Laws.{
  Opens, Refuses, get_headers-lookup, get_envelope-put, start-keeps_other,
}

abbrev Content : Type 0
Content = Meta ⊎ Entry Text

abbrev box_meta : Text → Text × Content → Option Meta
box_meta k (j, inl m) = if text_eq j k then some m else none
box_meta k (j, inr e) = none

abbrev box_entry : Text → Text × Content → Option (Entry Text)
box_entry k (j, inl m) = none
box_entry k (j, inr e) = if text_eq j k then some e else none

abbrev tagged : Sealing Text
tagged = record {
  Key = Text;
  Box = Text × Content;
  derive = λ seed. seed;
  seal_meta = λ k m. (k, inl m);
  open_meta = box_meta;
  seal_entry = λ k e. (k, inr e);
  open_entry = box_entry;
}

tagged-Opens : Opens tagged
tagged-Opens = record { entries = λ k e. rw (text_eq_refl k) refl }

differ : (k j : Text) → k ≢ j → text_eq k j ≡ false
differ k j n = elim (Bool-cases (text_eq k j)) [
  | inl e ↦ absurd (n ((text_eq_iff k j).0 e))
  | inr e ↦ e
]

tagged-Refuses : Refuses tagged
tagged-Refuses = record {
  metas = λ k j m n. rw (differ k j n) refl;
  entries = λ k j e n. rw (differ k j n) refl;
}

abbrev header : Entry Text
header = record { version = lit "1"; payload = lit "hello"; cached_at = 5 }

abbrev my_meta : Meta
my_meta = record { schema_version = 1; account_fingerprint = lit "AB12"; updated_at = 5 }

abbrev filled : Cache tagged
filled = record {
  has_db = true;
  cache_key = some (lit "k1");
  account_fingerprint = lit "AB12";
  database = record {
    meta = some (lit "k1", inl my_meta);
    headers = (lit "m1", (lit "k1", inr header)) ∷ [];
    envelopes = [];
  };
}

m1-nonempty : truthy (lit "m1") ≡ true
unfolding lit
m1-nonempty = refl

get_headers-lookup_example :
    get (lit "m1") (get_headers tagged (lit " m1" ∷ lit "m2" ∷ []) filled) ≡ (
      if any (λ id. text_eq (trim id) (lit "m1")) (lit " m1" ∷ lit "m2" ∷ [])
      then opened tagged (lit "k1") (get (lit "m1") filled.database.headers)
      else none)
get_headers-lookup_example =
    get_headers-lookup tagged (lit " m1" ∷ lit "m2" ∷ []) filled (lit "k1") (lit "m1") refl refl
      m1-nonempty

get_envelope-put_example :
    get_envelope tagged
      (lit "m1")
      (put_envelope tagged 9 (lit "m1") (lit "2") (some (lit "body")) filled)
    ≡ (if text_eq (lit "m1") (lit "m1")
        then some (record { version = lit "2"; payload = lit "body"; cached_at = 9 })
        else get_envelope tagged (lit "m1") filled)
get_envelope-put_example =
    get_envelope-put tagged 9 (lit "m1") (lit "2") (lit "body") filled (lit "k1") (lit "m1")
      tagged-Opens refl refl m1-nonempty m1-nonempty

apart : text_eq (lit "k1") (lit "k2") ≡ false
unfolding lit text_eq
apart = refl

other_key : lit "k1" ≢ lit "k2"
other_key = λ e. cc (apart, (text_eq_iff (lit "k1") (lit "k2")).1 e)

seeded : truthy (lit "k2") ≡ true
unfolding lit
seeded = refl

start-keeps_other_example :
    (d : Cache tagged) × (start tagged ascii 9 (lit "cd34") (lit "k2") filled ≡ some d)
    × (d.database.headers ≡ filled.database.headers)
    × (d.database.envelopes ≡ filled.database.envelopes)
start-keeps_other_example =
    start-keeps_other tagged ascii 9 (lit "cd34") (lit "k2") filled (lit "k1") my_meta
      tagged-Refuses seeded refl other_key
