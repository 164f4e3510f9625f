-- ===== src/Envelope/Tests.antt =====
-- Witnesses for static/mail/crypto/envelope.js.
use elvish_email.Base.{◌≡◌, refl, some, none}
use elvish_email.Base.Text.{lit, text_eq}
use elvish_email.Envelope.{Manifest, missing_wraps, holds, has_wraps, validate_manifest}

abbrev native : Manifest
native = record {
  version = lit "v1";
  mode = lit "native-encrypted";
  provenance = lit "native_encrypted";
  body_cipher = lit "aes-256-gcm";
  body_blob_ref = lit "blob";
  recipient_wraps = some 2;
}

validate_test :
    (validate_manifest (some native) ≡ none)
    × (validate_manifest (some (record native { recipient_wraps = some 0 })) ≡ some missing_wraps)
unfolding lit text_eq holds has_wraps validate_manifest
validate_test = (refl, refl)
