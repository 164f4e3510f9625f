-- ===== src/Messages/Keys/Laws.antt =====
-- The vault stays consistent under everything that reads or writes messages with its keys.
use elvish_email.Base.{
  ℕ, not, ◌&&◌, ◌||◌, Option, none, some, List, [], ◌∷◌, if◌then◌else◌, is_some,
}
use elvish_email.Base.Text.{Text, lit, truthy, trim, Unicode}
use elvish_email.Vault.State.{OpenPgp, Identity, State, touch}
use elvish_email.Vault.Fingerprint.{normalize_email}
use elvish_email.Vault.Unlock.{
  no_wrapped_key, account_locked, missing_email, not_unlocked, openpgp_not_loaded, Result, err, ok,
  IdRow, ensure_identity_unlocked, get_identity, get_identity_by_email, unlock_identity,
}
use elvish_email.Vault.Unlock.Consistent.{
  IsConsistent, touch-IsConsistent, unlock-IsConsistent, ensure-IsConsistent,
}
use elvish_email.Messages.Mime.Transfer.{Codec}
use elvish_email.Messages.Api.{Content, MessageApi, KeySource}
use elvish_email.Messages.Decrypt.{decrypt_to_result, try_default_decrypt}
use elvish_email.Messages.Decrypt.Consistent.{read-Keeps, if-Keeps, one-Keeps, any-Keeps}
use elvish_email.Messages.Keys.{
  named, found, ensured, touched_if_ok, export_armored, export_ensured,
  export_identity_private_key_armored, list_identities, seed_of, seed_found,
  derive_identity_search_seed, account_seed, derive_account_sender_icon_seed,
  derive_account_mail_cache_seed, row_of_email, unlock_row, unless_there,
  ensure_identity_unlocked_by_email, encrypt_to_recipient, sign_ensured,
  encrypt_and_sign_to_recipient,
}

-- A call of the vault, the state aside.
pub data Call : Type 0 where
  decrypt_one : ℕ → Content → Text → List IdRow → KeySource → Call
  decrypt_any : ℕ → Content → List IdRow → Call
  export_key : ℕ → Text → Text → List IdRow → Call
  list_keys : ℕ → Call
  search_seed : ℕ → Text → Call
  icon_seed : ℕ → Call
  cache_seed : ℕ → Call
  ensure_email : ℕ → Text → List IdRow → Call
  encrypt_plain : ℕ → Text → Content → Call
  encrypt_signed : ℕ → Text → Content → Text → List IdRow → Call

module _ (U : Unicode) (codec : Codec) (P : OpenPgp) (A : MessageApi P) where
  pub after_call : Call → State P → State P
  after_call (decrypt_one now c fp rows source) s =
      (decrypt_to_result U codec P A now c fp rows source s).1
  after_call (decrypt_any now c rows) s = (try_default_decrypt U codec P A now c rows s).1
  after_call (export_key now fp pass rows) s =
      (export_identity_private_key_armored U codec P A now fp pass rows s).1
  after_call (list_keys now) s = (list_identities U codec P A now s).1
  after_call (search_seed now fp) s = (derive_identity_search_seed U codec P A now fp s).1
  after_call (icon_seed now) s = (derive_account_sender_icon_seed U codec P A now s).1
  after_call (cache_seed now) s = (derive_account_mail_cache_seed U codec P A now s).1
  after_call (ensure_email now email rows) s =
      (ensure_identity_unlocked_by_email U codec P A now email rows s).1
  after_call (encrypt_plain now armored c) s = (encrypt_to_recipient U codec P A now armored c s).1
  after_call (encrypt_signed now armored c signer rows) s =
      (encrypt_and_sign_to_recipient U codec P A now armored c signer rows s).1

  pub after_calls : List Call → State P → State P
  after_calls [] s = s
  after_calls (c ∷ cs) s = after_calls cs (after_call c s)

  abbrev Keeps : State P → Type 0
  Keeps s = IsConsistent U P s

  found-Keeps :
      (now : ℕ) (fp : Text) (r : Result Text) (s : State P)
      → Keeps s
      → Keeps (found U codec P A now fp (r, s)).1
  unfolding found named
  found-Keeps now fp (err e) s i = i
  found-Keeps now fp (ok key) s i =
      go (get_identity U P now fp s).0 (get_identity U P now fp s).1
        (read-Keeps U codec P A now fp s i)
    where
      go : (o : Option (Identity P)) (t : State P) → Keeps t → Keeps (named U codec P A o t).1
      go none t k = k
      go (some ident) t k = k

  ensured-Keeps :
      (now : ℕ) (fp : Text) (rows : List IdRow) (s : State P)
      → Keeps s
      → Keeps (ensured U codec P A now fp rows s).1
  unfolding ensured
  ensured-Keeps now fp rows s i =
      found-Keeps now fp (ensure_identity_unlocked U P now fp rows s).0
        (ensure_identity_unlocked U P now fp rows s).1 (ensure-IsConsistent U P now fp rows s i)

  if_ok-Keeps :
      (now : ℕ) (r : Result Text) (s : State P)
      → Keeps s
      → Keeps (touched_if_ok U codec P A now r s).1
  unfolding touched_if_ok
  if_ok-Keeps now (err e) s i = i
  if_ok-Keeps now (ok t) s i = touch-IsConsistent U P now s i

  export-Keeps :
      (now : ℕ) (pass : Text) (r : Result (Identity P)) (s : State P)
      → Keeps s
      → Keeps (export_ensured U codec P A now pass (r, s)).1
  unfolding export_ensured
  export-Keeps now pass (err e) s i = i
  export-Keeps now pass (ok ident) s i = if_ok-Keeps now (export_armored U codec P A ident pass) s i

  sign-Keeps :
      (armored : Text) (c : Content) (r : Result (Identity P)) (s : State P)
      → Keeps s
      → Keeps (sign_ensured U codec P A armored c (r, s)).1
  unfolding sign_ensured
  sign-Keeps armored c (err e) s i = i
  sign-Keeps armored c (ok ident) s i = i

  seed-Keeps :
      (now : ℕ) (o : Option (Identity P)) (s : State P)
      → Keeps s
      → Keeps (seed_found U codec P A now o s).1
  unfolding seed_found
  seed-Keeps now none s i = i
  seed-Keeps now (some ident) s i =
      if-Keeps U codec P A (truthy ident.armored_priv)
        (ok (seed_of U codec P A (lit "elvish-search-seed-v1:") ident.armored_priv), touch P now s)
        (err not_unlocked, s) (touch-IsConsistent U P now s i) i

  account-Keeps :
      (now : ℕ) (label : Text) (s : State P)
      → Keeps s
      → Keeps (account_seed U codec P A now label s).1
  unfolding account_seed
  account-Keeps now label s i =
      if-Keeps U codec P A
        (not (is_some s.account_private_key) || not (truthy s.account_armored_priv))
        (err not_unlocked, s) (ok (seed_of U codec P A label s.account_armored_priv), touch P now s)
        i (touch-IsConsistent U P now s i)

  row-Keeps :
      (now : ℕ) (o : Option IdRow) (s : State P)
      → Keeps s
      → Keeps (unlock_row U codec P A now o s).1
  unfolding unlock_row
  row-Keeps now none s i = i
  row-Keeps now (some row) s i =
      if-Keeps U codec P A
        (not (truthy row.armored_public)
          || (not (truthy row.wrapped_secret_b64) && not (truthy row.wrapped_secret_armored)))
        (err no_wrapped_key, s) (unlock_identity U P now row s) i
        (unlock-IsConsistent U P now row s i)

  unless-Keeps :
      (now : ℕ) (target : Text) (rows : List IdRow) (o : Option (Text × Identity P)) (s : State P)
      → Keeps s
      → Keeps (unless_there U codec P A now target rows (o, s)).1
  unfolding unless_there
  unless-Keeps now target rows none s i = row-Keeps now (row_of_email U codec P A target rows) s i
  unless-Keeps now target rows (some (key, ident)) s i =
      if-Keeps U codec P A (truthy key) (ok key, s)
        (unlock_row U codec P A now (row_of_email U codec P A target rows) s) i
        (row-Keeps now (row_of_email U codec P A target rows) s i)

  by_email :
      (now : ℕ) (target : Text) (s : State P)
      → Keeps s
      → Keeps (get_identity_by_email U P now target s).1
  unfolding get_identity_by_email
  by_email now target s i = touch-IsConsistent U P now s i

  email-Keeps :
      (now : ℕ) (email : Text) (rows : List IdRow) (s : State P)
      → Keeps s
      → Keeps (ensure_identity_unlocked_by_email U codec P A now email rows s).1
  unfolding ensure_identity_unlocked_by_email
  email-Keeps now email rows s i =
      let target = normalize_email U email in
      let there = get_identity_by_email U P now target s in
      if-Keeps U codec P A (not (is_some s.account_private_key)) (err account_locked, s)
        (if not (truthy target)
          then (err missing_email, s)
          else unless_there U codec P A now target rows there)
        i
        (if-Keeps U codec P A (not (truthy target)) (err missing_email, s)
          (unless_there U codec P A now target rows there) i
          (unless-Keeps now target rows there.0 there.1 (by_email now target s i)))

  call-Keeps : (c : Call) (s : State P) → Keeps s → Keeps (after_call c s)
  unfolding after_call
  call-Keeps (decrypt_one now c fp rows source) s i = one-Keeps U codec P A now c fp rows source s i
  call-Keeps (decrypt_any now c rows) s i = any-Keeps U codec P A now c rows s i
  call-Keeps (export_key now fp pass rows) s i =
      unfold export_identity_private_key_armored in
      if-Keeps U codec P A P.loaded
        (export_ensured U codec P A now (trim pass) (ensured U codec P A now (U.upper fp) rows s))
        (err openpgp_not_loaded, s)
        (export-Keeps now (trim pass) (ensured U codec P A now (U.upper fp) rows s).0
          (ensured U codec P A now (U.upper fp) rows s).1 (ensured-Keeps now (U.upper fp) rows s i))
        i
  call-Keeps (list_keys now) s i = unfold list_identities in touch-IsConsistent U P now s i
  call-Keeps (search_seed now fp) s i =
      unfold derive_identity_search_seed in
      seed-Keeps now (get_identity U P now fp s).0 (get_identity U P now fp s).1
        (read-Keeps U codec P A now fp s i)
  call-Keeps (icon_seed now) s i =
      unfold derive_account_sender_icon_seed in
      account-Keeps now (lit "elvish-sender-icon-seed-v1:") s i
  call-Keeps (cache_seed now) s i =
      unfold derive_account_mail_cache_seed in
      account-Keeps now (lit "elvish-mail-cache-seed-v1:") s i
  call-Keeps (ensure_email now email rows) s i = email-Keeps now email rows s i
  call-Keeps (encrypt_plain now armored c) s i =
      unfold encrypt_to_recipient in touch-IsConsistent U P now s i
  call-Keeps (encrypt_signed now armored c signer rows) s i =
      unfold encrypt_and_sign_to_recipient in
      sign-Keeps armored c (ensured U codec P A now (U.upper signer) rows (touch P now s)).0
        (ensured U codec P A now (U.upper signer) rows (touch P now s)).1
        (ensured-Keeps now (U.upper signer) rows (touch P now s) (touch-IsConsistent U P now s i))

  -- Every sequence of decrypting, exporting, listing, deriving, unlocking by email, encrypting and
  -- signing keeps the vault consistent: if at its start a locked vault holds no identity and the
  -- default identity is one that the vault holds, so at its end.
  pub after_calls-IsConsistent :
      (cs : List Call) (s : State P) → IsConsistent U P s → IsConsistent U P (after_calls cs s)
  unfolding after_calls
  after_calls-IsConsistent [] s i = i
  after_calls-IsConsistent (c ∷ cs) s i =
      after_calls-IsConsistent cs (after_call c s) (call-Keeps c s i)
