-- ===== src/Messages/Decrypt.antt =====
-- static/auth/unlock.js: reading an encrypted message, and decrypting it with one identity or with
-- the first that can. The rows of `fetchIdentityRows` are given; what an awaited step rejects with
-- is `crypto_failed`.
pub mod Laws
pub mod Consistent
pub mod Opening
pub mod Refused
use elvish_email.Base.{
  ℕ, Bool, true, false, not, ◌&&◌, ◌||◌, Option, none, some, List, [], ◌∷◌, map, take,
  if◌then◌else◌,
}
use elvish_email.Base.Text.{Text, text_eq, truthy, Unicode}
use elvish_email.Base.Dict.{Dict}
use elvish_email.Vault.State.{OpenPgp, Identity, State, touch, is_unlocked}
use elvish_email.Vault.Unlock.{
  VaultError, crypto_failed, no_unlocked_identity, none_decrypts, not_unlocked, Result, err, ok,
  ◌>>=◌, await, IdRow, ensure_identity_unlocked, get_identity,
}
use elvish_email.Messages.Armor.{looks_like_armored_message, extract_armored_block}
use elvish_email.Messages.Signatures.{Summary, Signature, summarize_signature_verification}
use elvish_email.Messages.Mime.Transfer.{Codec}
use elvish_email.Messages.Mime.Payload.{
  Payload, no_payload, payload, undecodable, extract_pgp_mime_payload,
}
use elvish_email.Messages.Api.{
  Content, text, binary, MessageApi, KeySource, single, read_verification_keys,
}

pub record Opened : Type 0 where
  pub data_text : Text
  pub verification : Summary

-- The rows that carry a key.
unfoldable pub usable_rows : List IdRow → List IdRow
usable_rows [] = []
usable_rows (r ∷ rs) =
    let rest = usable_rows rs in
    if truthy r.armored_public && (truthy r.wrapped_secret_b64 || truthy r.wrapped_secret_armored)
    then r ∷ rest
    else rest

unfoldable pub remove_first : Text → List Text → List Text
remove_first t [] = []
remove_first t (x ∷ xs) = let rest = x ∷ remove_first t xs in if text_eq x t then xs else rest

unfoldable pub contains : Text → List Text → Bool
contains t [] = false
contains t (x ∷ xs) = text_eq x t || contains t xs

-- `indexOf`, `splice` and `unshift` where the index is above 0.
unfoldable pub move_front : Text → List Text → List Text
unfolding contains remove_first
move_front t [] = []
move_front t (x ∷ xs) =
    if not (text_eq x t) && contains t xs then t ∷ x ∷ remove_first t xs else x ∷ xs

abbrev put_front : Text → List Text → List Text
put_front t xs = if truthy t then move_front t xs else xs

pub dict_keys {ℓ} : {V : Type ℓ} → Dict V → List Text
dict_keys [] = []
dict_keys ((k, v) ∷ d) = k ∷ dict_keys d

module _ (U : Unicode) where
  unfoldable pub row_fingerprints : List IdRow → List Text
  row_fingerprints [] = []
  row_fingerprints (r ∷ rs) =
      let rest = row_fingerprints rs in
      let fp = U.upper r.fingerprint in if truthy fp then fp ∷ rest else rest

  unfoldable pub default_row : List IdRow → Text
  default_row [] = []
  default_row (r ∷ rs) =
      let later = default_row rs in if r.is_default then U.upper r.fingerprint else later

  unfoldable pub row_candidates : List IdRow → List Text
  unfolding usable_rows row_fingerprints default_row
  row_candidates rows =
      put_front (default_row (usable_rows rows)) (row_fingerprints (usable_rows rows))

module _ (U : Unicode) (codec : Codec) (P : OpenPgp) (A : MessageApi P) where
  armored_or_binary : Text → List ℕ → Option A.Message
  armored_or_binary armored bytes =
      if truthy armored then A.read_armored armored else A.read_binary bytes

  read_payload : List ℕ → Payload → Option A.Message
  unfolding armored_or_binary
  read_payload bytes no_payload = A.read_binary bytes
  read_payload bytes undecodable = none
  read_payload bytes (payload []) = A.read_binary bytes
  read_payload bytes (payload (b ∷ bs)) =
      armored_or_binary (extract_armored_block (codec.decode (b ∷ bs))) (b ∷ bs)

  unfoldable pub read_encrypted_bytes : List ℕ → Option A.Message
  unfolding read_payload
  read_encrypted_bytes bytes =
      let embedded = extract_armored_block (codec.decode bytes) in
      if looks_like_armored_message (codec.decode (take 160 bytes))
      then A.read_armored (codec.decode bytes)
      else if truthy embedded
      then A.read_armored embedded
      else read_payload bytes (extract_pgp_mime_payload U codec bytes)

  unfoldable pub read_encrypted_message : Content → Option A.Message
  unfolding read_encrypted_bytes
  read_encrypted_message (text t) =
      let armored = extract_armored_block t in
      if truthy armored then A.read_armored armored else read_encrypted_bytes (codec.encode t)
  read_encrypted_message (binary bytes) = read_encrypted_bytes bytes

  -- What `decryptToResult` awaits once it has the identity.
  unfoldable pub open_message : P.Private → Content → KeySource → Result Opened
  unfolding read_encrypted_message
  open_message key c source = do
    message ← await (read_encrypted_message c) crypto_failed
    keys ← await (read_verification_keys P A source) crypto_failed
    (data_text, signatures) ← await (A.decrypt_message key message keys) crypto_failed
    ok (record {
      data_text = data_text;
      verification = summarize_signature_verification U A.public_fingerprint signatures keys;
    })

  touch_after : ℕ → Result Opened → State P → Result Opened × State P
  touch_after now (err e) s = (err e, s)
  touch_after now (ok r) s = (ok r, touch P now s)

  open_with : ℕ → Content → KeySource → Option (Identity P) → State P → Result Opened × State P
  unfolding touch_after
  open_with now c source none s = (err no_unlocked_identity, s)
  open_with now c source (some i) s = touch_after now (open_message i.private_key c source) s

  open_ensured : ℕ → Text → Content → KeySource → Result Text × State P → Result Opened × State P
  unfolding open_with
  open_ensured now fp c source (err e, s) = (err e, s)
  open_ensured now fp c source (ok key, s) =
      let (i, t) = get_identity U P now fp s in open_with now c source i t

  unfoldable pub decrypt_to_result :
      ℕ → Content → Text → List IdRow → KeySource → State P → Result Opened × State P
  unfolding open_ensured
  decrypt_to_result now c fingerprint rows source s =
      let fp = U.upper fingerprint in
      open_ensured now fp c source (ensure_identity_unlocked U P now fp rows s)

  data_of : Result Opened → Result Text
  data_of (err e) = err e
  data_of (ok r) = ok r.data_text

  unfoldable pub decrypt_to_string :
      ℕ → Content → Text → List IdRow → State P → Result Text × State P
  unfolding data_of
  decrypt_to_string now c fingerprint rows s =
      let (r, t) = decrypt_to_result now c fingerprint rows (single []) s in (data_of r, t)

  unfoldable pub decrypt_for_identity :
      ℕ → Text → List ℕ → List IdRow → State P → Result Text × State P
  decrypt_for_identity now fingerprint bytes rows s =
      decrypt_to_string now (binary bytes) fingerprint rows s

  unfoldable pub decrypt_for_identity_result :
      ℕ → Text → List ℕ → List IdRow → KeySource → State P → Result Opened × State P
  decrypt_for_identity_result now fingerprint bytes rows source s =
      decrypt_to_result now (binary bytes) fingerprint rows source s

  -- The fingerprints that `tryDefaultDecrypt` goes through.
  unfoldable pub candidates : List IdRow → State P → List Text
  unfolding row_candidates
  candidates rows s = elim (row_candidates U rows) [
    | [] ↦ put_front s.default_identity_fingerprint (dict_keys s.identities)
    | fp ∷ fps ↦ fp ∷ fps
  ]

  -- The rest of the loop waits for the error that is to be thrown.
  unfoldable pub try_next :
      Text
      → Result Text
      → State P
      → (VaultError → Result (Text × Text) × State P)
      → Result (Text × Text) × State P
  try_next fp (err e) s rest = rest e
  try_next fp (ok data_text) s rest = (ok (data_text, fp), s)

  -- The loop, with the error to throw.
  unfoldable pub try_each :
      ℕ → Content → List IdRow → List Text → VaultError → State P → Result (Text × Text) × State P
  unfolding try_next
  try_each now c rows [] why s = (err why, s)
  try_each now c rows (fp ∷ fps) why s =
      let (r, t) = decrypt_to_string now c fp rows s in
      try_next fp r t (λ e. try_each now c rows fps e t)

  unfoldable pub try_default_decrypt :
      ℕ → Content → List IdRow → State P → Result (Text × Text) × State P
  try_default_decrypt now c rows s =
      if is_unlocked P s
      then try_each now c rows (candidates rows s) none_decrypts s
      else (err not_unlocked, s)
