-- ===== src/Vault/State.antt =====
-- static/auth/unlock.js: the state of the vault, its idle timer, and `zero`.
use Prim.Native.Nat.{max}
use elvish_email.Base.{ℕ, ◌+◌, ◌*◌, Bool, Option, none, some, [], ◌==◌, if◌then◌else◌, is_some}
use elvish_email.Base.Text.{Text}
use elvish_email.Base.Dict.{Dict}
use elvish_email.Vault.Storage.{
  Browser, read_trusted_device_flag, clear_all_persisted_caches, clear_trusted_device_flag,
  set_trusted_flag, flag_or_false,
}

-- What the vault uses of OpenPGP.js, of the Web Crypto API and of keygen.js; `none` is a rejection.
pub record OpenPgp : Type 1 where
  pub Private : Type 0
  pub Public : Type 0
  pub Kek : Type 0
  pub loaded : Bool
  pub read_private_key : Text → Option Private
  pub read_key : Text → Option Public
  pub get_fingerprint : Private → Text
  pub pgp_fingerprint : Text → Option Text
  pub decrypt : Private → Text → Option Text
  pub decode_b64 : Text → Option Text
  pub derive_kek : Text → Text → Option Kek
  pub aes_unwrap : Kek → Text → Option Text

abbrev pub default_idle_ms : ℕ
default_idle_ms = 15 * 60 * 1000

abbrev pub trusted_idle_ms : ℕ
trusted_idle_ms = 14 * 24 * 60 * 60 * 1000

module _ (P : OpenPgp) where
  pub record Identity : Type 0 where
    pub email : Text
    pub private_key : P.Private
    pub public_key : P.Public
    pub armored_pub : Text
    pub armored_priv : Text

  -- `timer` is the time at which the idle timer fires.
  pub record State : Type 0 where
    pub account_private_key : Option P.Private
    pub account_public_key : Option P.Public
    pub account_armored_priv : Text
    pub account_fingerprint : Text
    pub identities : Dict Identity
    pub default_identity_fingerprint : Text
    pub last_touch_ms : ℕ
    pub idle_ms : ℕ
    pub timer : Option ℕ

  unfoldable pub touch : ℕ → State → State
  touch now s = record s { last_touch_ms = now; timer = some (now + s.idle_ms) }

  -- The part of `zero` that is about the memory.
  unfoldable pub zero_state : State → State
  zero_state s = record s {
    account_private_key = none;
    account_public_key = none;
    account_armored_priv = [];
    account_fingerprint = [];
    identities = [];
    default_identity_fingerprint = [];
    last_touch_ms = 0;
    timer = none;
  }

  -- The vault, the web storages, and how often the mail cache was asked to purge.
  pub record World : Type 0 where
    pub vault : State
    pub browser : Browser
    pub purges : ℕ

  -- `zero({ clearPersisted, clearTrustedDevice })`
  unfoldable pub zero_world : ℕ → Bool → Bool → World → World
  unfolding zero_state
  zero_world frames clear_persisted clear_trusted w =
      let cleared = clear_all_persisted_caches w.browser in
      record {
        vault = zero_state w.vault;
        browser =
            if clear_persisted
            then (if clear_trusted then clear_trusted_device_flag frames cleared else cleared)
            else w.browser;
        purges = if clear_persisted then w.purges + 1 else w.purges;
      }

  -- `Math.max(60 * 1000, Number(ms) || DEFAULT_IDLE_MS)`
  unfoldable pub set_idle_ms : ℕ → State → State
  set_idle_ms ms s = record s { idle_ms = max 60000 (if ms == 0 then default_idle_ms else ms) }

  unfoldable pub is_unlocked : State → Bool
  is_unlocked s = is_some s.account_private_key

  unfoldable pub apply_trusted_idle_preference : ℕ → ℕ → World → World
  unfolding set_idle_ms touch is_unlocked
  apply_trusted_idle_preference frames now w =
      let trusted = flag_or_false (read_trusted_device_flag w.browser frames) in
      let s = set_idle_ms (if trusted then trusted_idle_ms else default_idle_ms) w.vault in
      record w { vault = if is_unlocked s then touch now s else s }

  unfoldable pub set_trusted_device : ℕ → ℕ → Bool → World → World
  set_trusted_device frames now enabled w =
      apply_trusted_idle_preference frames now
        (record w { browser = set_trusted_flag frames enabled w.browser })
