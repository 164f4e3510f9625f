-- ===== src/Messages/Api.antt =====
-- What static/auth/unlock.js uses of OpenPGP.js for messages, next to the keys of the vault.
use elvish_email.Base.{ℕ, Bool, true, false, Option, none, some, List, [], ◌∷◌, ◌++◌}
use elvish_email.Base.Text.{Text, trim}
use elvish_email.Vault.State.{OpenPgp}
use elvish_email.Messages.Signatures.{Signature, truthy_texts}

-- An awaited call: its value, or the text of the error.
pub data Attempt {ℓ} (A : Type ℓ) : Type ℓ where
  threw : Text → Attempt A
  gave : A → Attempt A

-- `createMessage` of a text or of bytes.
pub data Content : Type 0 where
  text : Text → Content
  binary : List ℕ → Content

-- `none` is a rejection. `decrypt_message` gives the data and the signatures.
pub record MessageApi (P : OpenPgp) : Type 1 where
  pub Message : Type 0
  pub DetachedSignature : Type 0
  pub Cleartext : Type 0
  pub has_read_keys : Bool
  pub has_cleartext : Bool
  pub read_keys : Text → Option (List P.Public)
  pub public_fingerprint : P.Public → Option Text
  pub read_armored : Text → Option Message
  pub read_binary : List ℕ → Option Message
  pub decrypt_message : P.Private → Message → List P.Public → Option (Text × List Signature)
  pub read_signature : Text → Attempt DetachedSignature
  pub verify_detached : List ℕ → DetachedSignature → List P.Public → Attempt (List Signature)
  pub read_cleartext : Text → Attempt Cleartext
  pub verify_cleartext : Cleartext → List P.Public → Attempt (List Signature)
  pub encrypt_message : P.Public → Option P.Private → Content → Option Text
  pub encrypt_key : P.Private → Text → Option Text
  pub armor : P.Private → Text
  pub digest : List ℕ → List ℕ

-- The argument `armoredPublicKeys`: an array, or a text (the empty one where it is absent).
pub data KeySource : Type 0 where
  array : List Text → KeySource
  single : Text → KeySource

joined : List Text → Text
joined [] = []
joined (t ∷ []) = t
joined (t ∷ u ∷ ts) = t ++ (10 ∷ joined (u ∷ ts))

source_text : KeySource → Text
unfolding truthy_texts joined
source_text (array ts) = joined (truthy_texts ts)
source_text (single t) = t

abbrev one_key : {A : Type 0} → Option A → Option (List A)
one_key none = none
one_key (some k) = some (k ∷ [])

module _ (P : OpenPgp) (A : MessageApi P) where
  keys_of : Text → Option (List P.Public)
  keys_of [] = some []
  keys_of (c ∷ s) = elim A.has_read_keys [
    | true ↦ A.read_keys (c ∷ s)
    | false ↦ one_key (P.read_key (c ∷ s))
  ]

  unfoldable pub read_verification_keys : KeySource → Option (List P.Public)
  unfolding source_text keys_of
  read_verification_keys source = keys_of (trim (source_text source))
