-- ===== src/Messages/Keys.antt =====
-- static/auth/unlock.js: what the vault does with the keys it holds besides decrypting: exporting,
-- listing, deriving seeds, unlocking by email, encrypting and signing.
pub mod Laws
pub mod Locked
pub mod Signing
use elvish_email.Base.{
  ℕ, Bool, true, false, not, ◌&&◌, ◌||◌, Option, none, some, List, [], ◌∷◌, ◌++◌, length, ltb,
  if◌then◌else◌, is_some,
}
use elvish_email.Base.Text.{Text, lit, text_eq, truthy, trim, Unicode}
use elvish_email.Base.Dict.{Dict}
use elvish_email.Vault.Fingerprint.{normalize_email}
use elvish_email.Vault.State.{OpenPgp, Identity, State, touch}
use elvish_email.Vault.Unlock.{
  VaultError, openpgp_not_loaded, account_locked, no_wrapped_key, identity_not_found, crypto_failed,
  no_unlocked_identity, missing_email, short_passphrase, not_unlocked, Result, err, ok, ◌>>=◌,
  await, IdRow, ensure_identity_unlocked, get_identity, get_identity_by_email, unlock_identity,
}
use elvish_email.Messages.Mime.Transfer.{Codec}
use elvish_email.Messages.Api.{Content, MessageApi}

-- What `listIdentities` tells of an identity.
pub record Listed : Type 0 where
  pub fingerprint : Text
  pub email : Text
  pub armored_public : Text

module _ (U : Unicode) (codec : Codec) (P : OpenPgp) (A : MessageApi P) where
  named : Option (Identity P) → State P → Result (Identity P) × State P
  named none s = (err no_unlocked_identity, s)
  named (some i) s = (ok i, s)

  found : ℕ → Text → Result Text × State P → Result (Identity P) × State P
  unfolding named
  found now fp (err e, s) = (err e, s)
  found now fp (ok key, s) = let (i, t) = get_identity U P now fp s in named i t

  -- An identity that was found after it was ensured, and the state then.
  unfoldable pub ensured : ℕ → Text → List IdRow → State P → Result (Identity P) × State P
  unfolding found
  ensured now fp rows s = found now fp (ensure_identity_unlocked U P now fp rows s)

  touched_if_ok : ℕ → Result Text → State P → Result Text × State P
  touched_if_ok now (err e) s = (err e, s)
  touched_if_ok now (ok t) s = (ok t, touch P now s)

  unfoldable pub export_armored : Identity P → Text → Result Text
  export_armored i passphrase =
      if truthy passphrase
      then (if ltb (length passphrase) 8
          then err short_passphrase
          else await (A.encrypt_key i.private_key passphrase) crypto_failed)
      else if truthy i.armored_priv
      then ok i.armored_priv
      else ok (A.armor i.private_key)

  export_ensured : ℕ → Text → Result (Identity P) × State P → Result Text × State P
  unfolding export_armored touched_if_ok
  export_ensured now passphrase (err e, s) = (err e, s)
  export_ensured now passphrase (ok i, s) = touched_if_ok now (export_armored i passphrase) s

  unfoldable pub export_identity_private_key_armored :
      ℕ → Text → Text → List IdRow → State P → Result Text × State P
  unfolding export_ensured ensured
  export_identity_private_key_armored now fingerprint raw_pass rows s =
      if P.loaded
      then export_ensured now (trim raw_pass) (ensured now (U.upper fingerprint) rows s)
      else (err openpgp_not_loaded, s)

  list_all : Dict (Identity P) → List Listed
  list_all [] = []
  list_all ((fp, v) ∷ ids) =
      record { fingerprint = fp; email = v.email; armored_public = v.armored_pub } ∷ list_all ids

  unfoldable pub list_identities : ℕ → State P → List Listed × State P
  unfolding list_all
  list_identities now s = (list_all s.identities, touch P now s)

  -- The digest of a label and an armored private key.
  unfoldable pub seed_of : Text → Text → List ℕ
  seed_of label armored = A.digest (codec.encode label ++ codec.encode armored)

  seed_found : ℕ → Option (Identity P) → State P → Result (List ℕ) × State P
  unfolding seed_of
  seed_found now none s = (err not_unlocked, s)
  seed_found now (some i) s =
      if truthy i.armored_priv
      then (ok (seed_of (lit "elvish-search-seed-v1:") i.armored_priv), touch P now s)
      else (err not_unlocked, s)

  unfoldable pub derive_identity_search_seed : ℕ → Text → State P → Result (List ℕ) × State P
  unfolding seed_found
  derive_identity_search_seed now fingerprint s =
      let (i, t) = get_identity U P now fingerprint s in seed_found now i t

  account_seed : ℕ → Text → State P → Result (List ℕ) × State P
  unfolding seed_of
  account_seed now label s =
      if not (is_some s.account_private_key) || not (truthy s.account_armored_priv)
      then (err not_unlocked, s)
      else (ok (seed_of label s.account_armored_priv), touch P now s)

  unfoldable pub derive_account_sender_icon_seed : ℕ → State P → Result (List ℕ) × State P
  unfolding account_seed
  derive_account_sender_icon_seed now s = account_seed now (lit "elvish-sender-icon-seed-v1:") s

  unfoldable pub derive_account_mail_cache_seed : ℕ → State P → Result (List ℕ) × State P
  unfolding account_seed
  derive_account_mail_cache_seed now s = account_seed now (lit "elvish-mail-cache-seed-v1:") s

  unfoldable pub row_of_email : Text → List IdRow → Option IdRow
  row_of_email target [] = none
  row_of_email target (r ∷ rs) =
      let later = row_of_email target rs in
      if text_eq (normalize_email U r.email) target then some r else later

  unlock_row : ℕ → Option IdRow → State P → Result Text × State P
  unlock_row now none s = (err identity_not_found, s)
  unlock_row now (some row) s =
      if not (truthy row.armored_public)
        || (not (truthy row.wrapped_secret_b64) && not (truthy row.wrapped_secret_armored))
      then (err no_wrapped_key, s)
      else unlock_identity U P now row s

  unless_there :
      ℕ → Text → List IdRow → Option (Text × Identity P) × State P → Result Text × State P
  unfolding row_of_email unlock_row
  unless_there now target rows (none, s) = unlock_row now (row_of_email target rows) s
  unless_there now target rows (some (key, i), s) =
      if truthy key then (ok key, s) else unlock_row now (row_of_email target rows) s

  unfoldable pub ensure_identity_unlocked_by_email :
      ℕ → Text → List IdRow → State P → Result Text × State P
  unfolding unless_there
  ensure_identity_unlocked_by_email now email rows s =
      let target = normalize_email U email in
      if not (is_some s.account_private_key)
      then (err account_locked, s)
      else if not (truthy target)
      then (err missing_email, s)
      else unless_there now target rows (get_identity_by_email U P now target s)

  encrypted : Text → Option P.Private → Content → Result Text
  encrypted armored signer c = do
    recipient ← await (P.read_key armored) crypto_failed
    await (A.encrypt_message recipient signer c) crypto_failed

  unfoldable pub encrypt_to_recipient : ℕ → Text → Content → State P → Result Text × State P
  unfolding encrypted
  encrypt_to_recipient now armored c s = (encrypted armored none c, touch P now s)

  sign_ensured : Text → Content → Result (Identity P) × State P → Result Text × State P
  unfolding encrypted
  sign_ensured armored c (err e, s) = (err e, s)
  sign_ensured armored c (ok i, s) = (encrypted armored (some i.private_key) c, s)

  unfoldable pub encrypt_and_sign_to_recipient :
      ℕ → Text → Content → Text → List IdRow → State P → Result Text × State P
  unfolding sign_ensured ensured
  encrypt_and_sign_to_recipient now armored c signer rows s =
      sign_ensured armored c (ensured now (U.upper signer) rows (touch P now s))
