-- ===== src/Envelope.antt =====
-- static/mail/crypto/envelope.js: the check of an envelope's manifest.
pub mod Laws
mod Tests
use elvish_email.Base.{
  Bool, true, false, not, ◌&&◌, Option, none, some, List, [], ◌∷◌, any, if◌then◌else◌, ℕ, ltb,
}
use elvish_email.Base.Text.{Text, lit, text_eq, truthy}

abbrev pub modes : List Text
modes = lit "native-encrypted" ∷ lit "already-encrypted" ∷ []

abbrev pub body_ciphers : List Text
body_ciphers = lit "xchacha20-poly1305" ∷ lit "aes-256-gcm" ∷ lit "openpgp-message" ∷ []

abbrev pub provenances : List Text
provenances = lit "native_encrypted" ∷ lit "already_encrypted" ∷ lit "compatibility_bridge" ∷ []

-- `recipient_wraps` is the length of the array, `none` where it is none. A field that is absent is
-- the empty text, which no list holds.
pub record Manifest : Type 0 where
  pub version : Text
  pub mode : Text
  pub provenance : Text
  pub body_cipher : Text
  pub body_blob_ref : Text
  pub recipient_wraps : Option ℕ

pub data EnvelopeError : Type 0 where
  unsupported_version unsupported_mode unsupported_provenance unsupported_cipher : EnvelopeError
  missing_blob_ref missing_wraps : EnvelopeError

-- `Object.values(xs).includes(t)`
unfoldable pub holds : List Text → Text → Bool
holds xs t = any (λ x. text_eq x t) xs

unfoldable pub has_wraps : Option ℕ → Bool
has_wraps none = false
has_wraps (some n) = ltb 0 n

-- `none` where the manifest passes.
unfoldable pub validate_manifest : Option Manifest → Option EnvelopeError
validate_manifest none = some unsupported_version
validate_manifest (some m) =
    if not (text_eq m.version (lit "v1"))
    then some unsupported_version
    else if not (holds modes m.mode)
    then some unsupported_mode
    else if not (holds provenances m.provenance)
    then some unsupported_provenance
    else if not (holds body_ciphers m.body_cipher)
    then some unsupported_cipher
    else if not (truthy m.body_blob_ref)
    then some missing_blob_ref
    else if text_eq m.mode (lit "native-encrypted") && not (has_wraps m.recipient_wraps)
    then some missing_wraps
    else none
