-- ===== src/Vault/Unlock.antt =====
-- static/auth/unlock.js: unlocking the account and its identities, restoring from the cache, and
-- looking identities up. An awaited step that rejects is an error; a function is one event, save
-- where it says otherwise.
pub mod Laws
pub mod Consistent
pub mod Refused
pub mod Invariant
use elvish_email.Base.{
  ℕ, Bool, true, false, not, ◌&&◌, ◌||◌, Option, none, some, List, [], ◌∷◌, if◌then◌else◌, is_some,
}
use elvish_email.Base.Text.{Text, text_eq, truthy, Unicode}
use elvish_email.Base.Dict.{Dict, get, put}
use elvish_email.Vault.Storage.{
  Cached, Browser, persist_cache, read_persisted_account_cache, clear_all_persisted_caches,
}
use elvish_email.Vault.Fingerprint.{
  normalize_email, normalize_fingerprint, fingerprint_key_id16, fingerprints_equivalent,
}
use elvish_email.Vault.State.{
  OpenPgp, Identity, State, World, touch, zero_state, zero_world, is_unlocked,
}

pub data VaultError : Type 0 where
  openpgp_not_loaded incorrect_password metadata_mismatch account_locked no_wrapped_key : VaultError
  key_mismatch missing_fingerprint identity_not_found crypto_failed : VaultError
  no_unlocked_identity missing_email none_decrypts short_passphrase not_unlocked : VaultError

-- How an async function ends.
pub data Result {κ} (V : Type κ) : Type κ where
  err : VaultError → Result V
  ok : V → Result V

-- A check that throws where its condition does not hold.
abbrev pub guard : Bool → VaultError → Result (Unit {0})
guard holds why = if holds then ok tt else err why

infixl 5 ◌>>=◌
abbrev pub ◌>>=◌ {κ μ} : {V : Type κ} {W : Type μ} → Result V → (V → Result W) → Result W
err why >>= next = err why
ok v >>= next = next v

infixl 5 ◌>>◌
abbrev pub ◌>>◌ {μ} : {W : Type μ} → Result (Unit {0}) → Result W → Result W
first >> second = first >>= λ _. second

-- An awaited value.
abbrev pub await {ℓ} : {A : Type ℓ} → Option A → VaultError → Result A
await none e = err e
await (some a) e = ok a

-- The row of `GET /api/v1/account-key/me`; `kdf` stands for the salt, the function and its parameters.
pub record MeRow : Type 0 where
  pub kdf : Text
  pub wrapped_secret : Text
  pub armored_public : Text
  pub fingerprint : Text

pub record IdRow : Type 0 where
  pub fingerprint : Text
  pub email : Text
  pub armored_public : Text
  pub wrapped_secret_armored : Text
  pub wrapped_secret_b64 : Text
  pub is_default : Bool

module _ (U : Unicode) (P : OpenPgp) where
  open P use {
    Private, Public, Kek, loaded, read_private_key, read_key, get_fingerprint, pgp_fingerprint,
    decrypt, decode_b64, derive_kek, aes_unwrap,
  }

  -- The checks of `hydrateUnlockedAccount`, before it writes to the state.
  unfoldable pub check_account : Text → Text → Text → Result (Private × Text)
  check_account armored_priv armored_pub expected = do
    guard loaded openpgp_not_loaded
    priv ← await (read_private_key armored_priv) incorrect_password
    published ← await (pgp_fingerprint armored_pub) crypto_failed
    let fp = normalize_fingerprint U published
    guard (not (truthy expected) || fingerprints_equivalent U expected fp) metadata_mismatch
    guard (truthy fp && text_eq (normalize_fingerprint U (get_fingerprint priv)) fp)
        incorrect_password
    ok (priv, fp)

  -- `readKey` of the public key is awaited after the private key was stored.
  unfoldable pub store_account :
      ℕ → Text → Text → Private → Text → Option Public → State P → Result Text × State P
  store_account now armored_priv armored_pub priv fp none s =
      (err crypto_failed, record s { account_private_key = some priv })
  store_account now armored_priv armored_pub priv fp (some public) s = (
    ok fp,
    touch P now (record s {
      account_private_key = some priv;
      account_public_key = some public;
      account_armored_priv = armored_priv;
      account_fingerprint = fp;
      identities = [];
      default_identity_fingerprint = [];
    }),
  )

  unfoldable pub hydrate_checked :
      ℕ → Text → Text → Result (Private × Text) → State P → Result Text × State P
  unfolding store_account
  hydrate_checked now armored_priv armored_pub (err e) s = (err e, s)
  hydrate_checked now armored_priv armored_pub (ok (priv, fp)) s =
      store_account now armored_priv armored_pub priv fp (read_key armored_pub) s

  unfoldable pub hydrate_unlocked_account : ℕ → Text → Text → Text → State P → Result Text × State P
  unfolding hydrate_checked
  hydrate_unlocked_account now armored_priv armored_pub expected s =
      hydrate_checked now armored_priv armored_pub (check_account armored_priv armored_pub expected)
        s

  -- The password's part of `unlockAccount`: the armored private key.
  unfoldable pub unwrap_account : MeRow → Text → Result Text
  unwrap_account me password = do
    guard loaded openpgp_not_loaded
    kek ← await (derive_kek password me.kdf) crypto_failed
    await (aes_unwrap kek me.wrapped_secret) incorrect_password

  persist_after : ℕ → ℕ → Text → MeRow → Result Text × State P → World P → Result Text × World P
  persist_after frames now email me (err e, s) w = (err e, record w { vault = s })
  persist_after frames now email me (ok fp, s) w = (
    ok fp,
    record w {
      vault = s;
      browser =
          persist_cache frames (normalize_email U email) s.account_armored_priv me.armored_public
            s.account_fingerprint now w.browser;
    },
  )

  unlock_unwrapped : ℕ → ℕ → MeRow → Text → Result Text → World P → Result Text × World P
  unfolding persist_after
  unlock_unwrapped frames now me email (err e) w = (err e, w)
  unlock_unwrapped frames now me email (ok armored_priv) w =
      persist_after frames now email me
        (hydrate_unlocked_account now armored_priv me.armored_public me.fingerprint w.vault) w

  unfoldable pub unlock_account : ℕ → ℕ → MeRow → Text → Text → World P → Result Text × World P
  unfolding unlock_unwrapped
  unlock_account frames now me password email w =
      unlock_unwrapped frames now me email (unwrap_account me password) w

  restore_from : ℕ → ℕ → Cached → World P → Bool × World P
  restore_from frames now c w =
      let (r, s) =
        hydrate_unlocked_account now c.armored_private c.armored_public c.fingerprint w.vault in
      elim r [
        | ok fp ↦ (true, record w { vault = s })
        | err e ↦ (
          false,
          zero_world P frames false true
              (record w { vault = s; browser = clear_all_persisted_caches w.browser }),
        )
      ]

  restore_cached : ℕ → ℕ → Text → Option Cached → World P → Bool × World P
  unfolding restore_from
  restore_cached frames now email none w = (false, w)
  restore_cached frames now email (some c) w =
      let expected = normalize_email U email in
      if truthy expected && not (text_eq c.session_email expected)
      then (false, record w { browser = clear_all_persisted_caches w.browser })
      else restore_from frames now c w

  unfoldable pub try_restore_account_from_session : ℕ → ℕ → Text → World P → Bool × World P
  unfolding restore_cached
  try_restore_account_from_session frames now email w =
      let (c, b) = read_persisted_account_cache frames w.browser in
      restore_cached frames now email c (record w { browser = b })

  -- The wrapped private key of a row, in armor.
  unfoldable pub armored_wrapped : IdRow → Result Text
  armored_wrapped row =
      if truthy row.wrapped_secret_armored
      then ok row.wrapped_secret_armored
      else if truthy row.wrapped_secret_b64
      then await (decode_b64 row.wrapped_secret_b64) crypto_failed
      else ok []

  -- What `unlockIdentity` awaits, with the account key that it finds when it decrypts.
  unfoldable pub open_identity : Private → IdRow → Result (Text × Identity P)
  unfolding armored_wrapped
  open_identity account row = do
    wrapped ← armored_wrapped row
    guard (truthy wrapped) no_wrapped_key
    armored_priv ← await (decrypt account wrapped) crypto_failed
    private_key ← await (read_private_key armored_priv) crypto_failed
    public_key ← await (read_key row.armored_public) crypto_failed
    published ← await (pgp_fingerprint row.armored_public) crypto_failed
    let fp = normalize_fingerprint U published
    guard (not (truthy row.fingerprint) || fingerprints_equivalent U row.fingerprint fp)
        metadata_mismatch
    guard (truthy fp && text_eq (normalize_fingerprint U (get_fingerprint private_key)) fp)
        key_mismatch
    ok (
      fingerprint_key_id16 U fp,
      record {
        email = row.email;
        private_key = private_key;
        public_key = public_key;
        armored_pub = row.armored_public;
        armored_priv = armored_priv;
      },
    )

  -- What `unlockIdentity` does when the last promise is fulfilled: it writes to whatever the state is
  -- by then.
  unfoldable pub store_identity : ℕ → IdRow → Text → Identity P → State P → State P
  store_identity now row key ident s = touch P now (record s {
    identities = put key ident s.identities;
    default_identity_fingerprint =
        if row.is_default || not (truthy s.default_identity_fingerprint)
        then key
        else s.default_identity_fingerprint;
  })

  unfoldable pub store_opened :
      ℕ → IdRow → Result (Text × Identity P) → State P → Result Text × State P
  store_opened now row (err e) s = (err e, s)
  store_opened now row (ok (key, ident)) s = (ok key, store_identity now row key ident s)

  unfoldable pub with_account : ℕ → IdRow → Option Private → State P → Result Text × State P
  unfolding store_opened
  with_account now row none s = (err account_locked, s)
  with_account now row (some account) s = store_opened now row (open_identity account row) s

  -- `unlockIdentity`, when nothing else runs in between.
  unfoldable pub unlock_identity : ℕ → IdRow → State P → Result Text × State P
  unfolding with_account
  unlock_identity now row s = with_account now row s.account_private_key s

  unfoldable pub find_row : Text → List IdRow → Option IdRow
  find_row fp [] = none
  find_row fp (r ∷ rs) =
      if fingerprints_equivalent U r.fingerprint fp then some r else find_row fp rs

  unlock_found : ℕ → Option IdRow → State P → Result Text × State P
  unlock_found now none s = (err identity_not_found, s)
  unlock_found now (some row) s =
      if not (truthy row.armored_public)
        || (not (truthy row.wrapped_secret_b64) && not (truthy row.wrapped_secret_armored))
      then (err no_wrapped_key, s)
      else unlock_identity now row s

  -- `ensureIdentityUnlocked`, with the rows given; its result is the key that is there or was added.
  unfoldable pub ensure_identity_unlocked : ℕ → Text → List IdRow → State P → Result Text × State P
  unfolding unlock_found
  ensure_identity_unlocked now fingerprint rows s =
      let fp = U.upper fingerprint in
      let kid = fingerprint_key_id16 U fp in
      if not (is_unlocked P s)
      then (err account_locked, s)
      else if not (truthy fp)
      then (err missing_fingerprint, s)
      else if truthy kid && is_some (get kid s.identities)
      then (ok kid, s)
      else unlock_found now (find_row fp rows) s

  unfoldable pub get_by_key : Text → Dict (Identity P) → Option (Identity P)
  get_by_key kid ids = if truthy kid then get kid ids else none

  -- `getIdentity`: the identity of a fingerprint, or the default one. It touches the vault.
  unfoldable pub get_identity : ℕ → Text → State P → Option (Identity P) × State P
  unfolding get_by_key
  get_identity now fingerprint s =
      let fp = if truthy fingerprint then fingerprint else s.default_identity_fingerprint in
      (
        if truthy fp then get_by_key (fingerprint_key_id16 U (U.upper fp)) s.identities else none,
        touch P now s,
      )

  find_email : Text → Dict (Identity P) → Option (Text × Identity P)
  find_email target [] = none
  find_email target ((k, i) ∷ ids) =
      if text_eq (normalize_email U i.email) target then some (k, i) else find_email target ids

  unfoldable pub get_identity_by_email : ℕ → Text → State P → Option (Text × Identity P) × State P
  unfolding find_email
  get_identity_by_email now email s =
      let target = normalize_email U email in
      (if truthy target then find_email target s.identities else none, touch P now s)
