-- ===== src/Messages/Keys/Locked.antt =====
-- A vault without the account key refuses what needs a private key.
use elvish_email.Base.{ℕ, ◌≡◌, Bool, true, false, List, arith}
use elvish_email.Base.Text.{Text, lit, Unicode}
use elvish_email.Vault.State.{OpenPgp, State, touch, is_unlocked}
use elvish_email.Vault.Unlock.{account_locked, Result, err, ok, IdRow}
use elvish_email.Vault.Unlock.Consistent.{IsConsistent}
use elvish_email.Messages.Mime.Transfer.{Codec}
use elvish_email.Messages.Api.{MessageApi}
use elvish_email.Vault.Unlock.Refused.{ensure-locked, no-identity, no_key, touch-locked}
use elvish_email.Messages.Decrypt.Refused.{decrypt_to_result-locked}
use elvish_email.Messages.Decrypt.{decrypt_to_result, try_default_decrypt}
use elvish_email.Messages.Keys.{
  ensured, found, export_ensured, export_identity_private_key_armored, seed_found, sign_ensured,
  derive_identity_search_seed, account_seed, derive_account_sender_icon_seed,
  derive_account_mail_cache_seed, ensure_identity_unlocked_by_email, encrypt_and_sign_to_recipient,
}
use elvish_email.Messages.Keys.Laws.{
  Call, decrypt_one, decrypt_any, export_key, list_keys, search_seed, icon_seed, cache_seed,
  ensure_email, encrypt_plain, encrypt_signed,
}

-- Listing needs no private key, nor does encrypting without a signature.
unfoldable pub needs_private_key : Call → Bool
needs_private_key (list_keys now) = false
needs_private_key (encrypt_plain now armored c) = false
needs_private_key (decrypt_one now c fp rows source) = true
needs_private_key (decrypt_any now c rows) = true
needs_private_key (export_key now fp pass rows) = true
needs_private_key (search_seed now fp) = true
needs_private_key (icon_seed now) = true
needs_private_key (cache_seed now) = true
needs_private_key (ensure_email now email rows) = true
needs_private_key (encrypt_signed now armored c signer rows) = true

abbrev is_err {ℓ} : {V : Type ℓ} → Result V → Bool
is_err (err e) = true
is_err (ok v) = false

module _ (U : Unicode) (codec : Codec) (P : OpenPgp) (A : MessageApi P) where
  -- The call throws.
  pub refuses : Call → State P → Bool
  refuses (decrypt_one now c fp rows source) s =
      is_err (decrypt_to_result U codec P A now c fp rows source s).0
  refuses (decrypt_any now c rows) s = is_err (try_default_decrypt U codec P A now c rows s).0
  refuses (export_key now fp pass rows) s =
      is_err (export_identity_private_key_armored U codec P A now fp pass rows s).0
  refuses (list_keys now) s = false
  refuses (search_seed now fp) s = is_err (derive_identity_search_seed U codec P A now fp s).0
  refuses (icon_seed now) s = is_err (derive_account_sender_icon_seed U codec P A now s).0
  refuses (cache_seed now) s = is_err (derive_account_mail_cache_seed U codec P A now s).0
  refuses (ensure_email now email rows) s =
      is_err (ensure_identity_unlocked_by_email U codec P A now email rows s).0
  refuses (encrypt_plain now armored c) s = false
  refuses (encrypt_signed now armored c signer rows) s =
      is_err (encrypt_and_sign_to_recipient U codec P A now armored c signer rows s).0

  ensured-locked :
      (now : ℕ) (fp : Text) (rows : List IdRow) (s : State P)
      → is_unlocked P s ≡ false
      → ensured U codec P A now fp rows s ≡ (err account_locked, s)
  unfolding ensured found
  ensured-locked now fp rows s h = rw (ensure-locked U P now fp rows s h)

  account-locked :
      (now : ℕ) (label : Text) (s : State P)
      → is_unlocked P s ≡ false
      → is_err (account_seed U codec P A now label s).0 ≡ true
  unfolding account_seed is_unlocked
  account-locked now label s h = rw h

  -- On a consistent vault that is locked, decrypting, exporting a key, deriving a seed, unlocking
  -- by email and encrypting with a signature throw, whatever their arguments.
  pub locked-refuses :
      (c : Call) (s : State P)
      → IsConsistent U P s
      → is_unlocked P s ≡ false
      → needs_private_key c ≡ true
      → refuses c s ≡ true
  unfolding refuses needs_private_key
  locked-refuses (decrypt_one now c fp rows source) s i h n =
      rw (decrypt_to_result-locked U codec P A now c fp rows source s h)
  locked-refuses (decrypt_any now c rows) s i h n = unfold try_default_decrypt in rw h
  locked-refuses (export_key now fp pass rows) s i h n =
      unfold export_identity_private_key_armored in
      unfold export_ensured in rw (ensured-locked now (U.upper fp) rows s h) (ground arith)
  locked-refuses (list_keys now) s i h n = cc
  locked-refuses (search_seed now fp) s i h n =
      unfold derive_identity_search_seed in
      unfold seed_found in rw (no-identity U P now fp s (i.locked (no_key P s h)))
  locked-refuses (icon_seed now) s i h n =
      unfold derive_account_sender_icon_seed in
      account-locked now (lit "elvish-sender-icon-seed-v1:") s h
  locked-refuses (cache_seed now) s i h n =
      unfold derive_account_mail_cache_seed in
      account-locked now (lit "elvish-mail-cache-seed-v1:") s h
  locked-refuses (ensure_email now email rows) s i h n =
      unfold ensure_identity_unlocked_by_email in rw (no_key P s h)
  locked-refuses (encrypt_plain now armored c) s i h n = cc
  locked-refuses (encrypt_signed now armored c signer rows) s i h n =
      unfold encrypt_and_sign_to_recipient in
      unfold sign_ensured in
      rw (ensured-locked now (U.upper signer) rows (touch P now s) (touch-locked P now s h))
