-- ===== src/Vault/Storage.antt =====
-- static/auth/unlock.js: which of the two web storages holds the account cache, and the flag of a
-- trusted device. `storage` and `readTrustedDeviceFlag` call one another without end, so each takes
-- the stack frames that are left; `none` is the RangeError of a full stack.
pub mod Laws
use elvish_email.Base.{
  ℕ, zero, suc, Bool, true, false, Option, none, some, List, [], ◌∷◌, if◌then◌else◌, is_some, ◌&&◌,
  ◌==◌,
}
use elvish_email.Base.Text.{Text, text_eq, truthy, lit}

-- One entry of the account cache.
pub record Cached : Type 0 where
  pub version : ℕ
  pub session_email : Text
  pub armored_private : Text
  pub armored_public : Text
  pub fingerprint : Text
  pub stored_at_ms : ℕ
  pub trusted_device : Bool

-- A web storage: the flag's text, the cache's entry, and whether a write succeeds. An entry that
-- does not parse is `some none`.
pub record WebStorage : Type 0 where
  pub flag : Option Text
  pub cache : Option (Option Cached)
  pub writable : Bool

-- `none` where the browser has no such storage.
pub record Browser : Type 0 where
  pub session : Option WebStorage
  pub local : Option WebStorage

pub data Area : Type 0 where
  session_area local_area no_area : Area

unfoldable pub flag_is_set : Option Text → Bool
flag_is_set none = false
flag_is_set (some t) = text_eq t (lit "1")

abbrev flag_of : Option WebStorage → Option Text
flag_of none = none
flag_of (some w) = w.flag

unfoldable pub flag_in : Browser → Area → Bool
unfolding flag_is_set
flag_in b session_area = flag_is_set (flag_of b.session)
flag_in b local_area = flag_is_set (flag_of b.local)
flag_in b no_area = false

-- `x || null`
abbrev or_null : Option WebStorage → Area → Area
or_null none a = no_area
or_null (some w) a = a

-- The `try` of `storage`: a RangeError gives null.
unfoldable pub chosen : Browser → Option Bool → Option Area
chosen b none = some no_area
chosen b (some true) = some (or_null b.local local_area)
chosen b (some false) = some (or_null b.session session_area)

-- `const s = storage()` stands outside the `try` of `readTrustedDeviceFlag`.
unfoldable pub flag_read : Browser → Option Area → Option Bool
flag_read b none = none
flag_read b (some a) = some (flag_in b a)

unfoldable mutual
  unfolding chosen flag_read flag_in

  pub storage : Browser → ℕ → Option Area
  storage b zero = none
  storage b (suc frames) = chosen b (read_trusted_device_flag b frames)

  pub read_trusted_device_flag : Browser → ℕ → Option Bool
  read_trusted_device_flag b zero = none
  read_trusted_device_flag b (suc frames) = flag_read b (storage b frames)

-- `setItem` or `removeItem` on the area, where it works.
unfoldable pub set_flag : Option Text → Option WebStorage → Option WebStorage
set_flag t none = none
set_flag none (some w) = some (record w { flag = none })
set_flag (some t) (some w) = some (if w.writable then record w { flag = some t } else w)

unfoldable pub write_flag : Area → Option Text → Browser → Browser
unfolding set_flag
write_flag session_area t b = record b { session = set_flag t b.session }
write_flag local_area t b = record b { local = set_flag t b.local }
write_flag no_area t b = b

abbrev pub area_or_null : Option Area → Area
area_or_null none = no_area
area_or_null (some a) = a

-- `setTrustedDevice` without the idle time, which is the vault's.
unfoldable pub set_trusted_flag : ℕ → Bool → Browser → Browser
unfolding write_flag
set_trusted_flag frames enabled b =
    write_flag (area_or_null (storage b frames)) (if enabled then some (lit "1") else none) b

unfoldable pub clear_trusted_device_flag : ℕ → Browser → Browser
unfolding write_flag
clear_trusted_device_flag frames b = write_flag (area_or_null (storage b frames)) none b

without_cache : Option WebStorage → Option WebStorage
without_cache none = none
without_cache (some w) = some (record w { cache = none })

unfoldable pub clear_all_persisted_caches : Browser → Browser
unfolding without_cache
clear_all_persisted_caches b = record b {
  session = without_cache b.session;
  local = without_cache b.local;
}

put_cache : Cached → Option WebStorage → Option WebStorage
put_cache c none = none
put_cache c (some w) = some (if w.writable then record w { cache = some (some c) } else w)

write_cache : Area → Cached → Browser → Browser
unfolding put_cache
write_cache session_area c b = record b { session = put_cache c b.session }
write_cache local_area c b = record b { local = put_cache c b.local }
write_cache no_area c b = b

abbrev pub flag_or_false : Option Bool → Bool
flag_or_false none = false
flag_or_false (some b) = b

-- The entry is written where both keys are there; a full stack in the flag is caught with the rest.
unfoldable pub persist_cache : ℕ → Text → Text → Text → Text → ℕ → Browser → Browser
unfolding write_cache
persist_cache frames email armored_private armored_public fingerprint now b =
    if truthy armored_private && truthy armored_public
    then write_cache (area_or_null (storage b frames))
        (record {
          version = 1;
          session_email = email;
          armored_private = armored_private;
          armored_public = armored_public;
          fingerprint = fingerprint;
          stored_at_ms = now;
          trusted_device = flag_or_false (read_trusted_device_flag b frames);
        })
        b
    else b

-- An entry that parses, has version 1 and both keys.
usable_entry : Option (Option Cached) → Option Cached
usable_entry none = none
usable_entry (some none) = none
usable_entry (some (some c)) =
    if c.version == 1 && (truthy c.armored_private && truthy c.armored_public) then some c else none

abbrev cache_of : Option WebStorage → Option (Option Cached)
cache_of none = none
cache_of (some w) = w.cache

abbrev or_else {ℓ} : {A : Type ℓ} → Option A → Option A → Option A
or_else none b = b
or_else (some a) b = some a

entry_in : Bool → Browser → Option Cached
unfolding usable_entry
entry_in trusted b =
    if trusted
    then or_else (usable_entry (cache_of b.local)) (usable_entry (cache_of b.session))
    else or_else (usable_entry (cache_of b.session)) (usable_entry (cache_of b.local))

-- Where no area has a usable entry, both are cleared.
unfoldable pub read_persisted_account_cache : ℕ → Browser → Option Cached × Browser
unfolding entry_in clear_all_persisted_caches
read_persisted_account_cache frames b =
    let found = entry_in (flag_or_false (read_trusted_device_flag b frames)) b in
    (found, if is_some found then b else clear_all_persisted_caches b)
