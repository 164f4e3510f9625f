-- ===== src/Keygen.antt =====
-- static/auth/keygen.js: the key-encryption key of the account, wrapping, and a new password. What
-- WebCrypto, the Argon2 runtime, base64 and JSON do is an argument, and so are the random bytes;
-- `none` is a rejection.
pub mod Derive
pub mod Laws
mod Tests
use elvish_email.Base.{
  ℕ, ◌*◌, Bool, true, false, not, ◌&&◌, ◌||◌, Option, none, some, List, [], ◌∷◌, ◌++◌,
  if◌then◌else◌, ltb, ◌==◌, length, take, drop,
}
use elvish_email.Base.Text.{Text, lit, text_eq, truthy}

abbrev pub argon2id : Text
argon2id = lit "argon2id"

abbrev pub pbkdf2_name : Text
pbkdf2_name = lit "pbkdf2-sha256"

abbrev pub pbkdf2_legacy : Text
pbkdf2_legacy = lit "pbkdf2-sha256-600k"

unfoldable pub is_pbkdf2_sha256_kdf : Text → Bool
is_pbkdf2_sha256_kdf hint = text_eq hint pbkdf2_name || text_eq hint pbkdf2_legacy

abbrev pub pbkdf2_iterations : ℕ
pbkdf2_iterations = 600000

-- The parameters of either function; a member that is absent is 0.
pub record Params : Type 0 where
  pub time : ℕ
  pub mem : ℕ
  pub parallelism : ℕ
  pub hash_len : ℕ
  pub iterations : ℕ

abbrev pub no_params : Params
no_params = record { time = 0; mem = 0; parallelism = 0; hash_len = 0; iterations = 0 }

pub record KeyCrypto : Type 1 where
  pub Kek : Type 0
  pub has_argon2 : Bool
  pub argon2_key : Text → List ℕ → ℕ → ℕ → ℕ → Option Kek
  pub pbkdf2_key : Text → List ℕ → ℕ → Option Kek
  pub encrypt : Kek → List ℕ → List ℕ → Option (List ℕ)
  pub decrypt : Kek → List ℕ → List ℕ → Option (List ℕ)
  pub bytes_to_b64 : List ℕ → Text
  pub b64_to_bytes : Text → Option (List ℕ)
  pub print_params : Params → Text
  pub parse_params : Text → Option Params

-- `value || fallback`
abbrev or_default : ℕ → ℕ → ℕ
or_default value fallback = if value == 0 then fallback else value

unfoldable pub effective : Params → Params
effective p = record {
  time = or_default p.time 3;
  mem = or_default p.mem (64 * 1024);
  parallelism = or_default p.parallelism 1;
  hash_len = 32;
  iterations = 0;
}

-- The members of `GET /api/v1/account-key/me` that are used, and of a new row.
pub record KeyRow : Type 0 where
  pub wrapped_secret_b64 : Text
  pub kdf : Text
  pub kdf_salt_b64 : Text
  pub kdf_params_json : Text

module _ (C : KeyCrypto) where
  pub record Derived : Type 0 where
    pub kdf : Text
    pub key : C.Kek
    pub params : Params

  with_key : Text → Params → Option C.Kek → Option Derived
  with_key name p none = none
  with_key name p (some k) = some (record { kdf = name; key = k; params = p })

  unfoldable pub derive_kek_with_argon2id : Text → List ℕ → Params → Option Derived
  unfolding with_key effective
  derive_kek_with_argon2id password salt hint =
      let p = effective hint in
      if C.has_argon2
      then with_key argon2id p (C.argon2_key password salt p.time p.mem p.parallelism)
      else none

  unfoldable pub derive_kek_with_pbkdf2 : Text → List ℕ → Option Derived
  unfolding with_key
  derive_kek_with_pbkdf2 password salt =
      with_key pbkdf2_name (record no_params { iterations = pbkdf2_iterations })
        (C.pbkdf2_key password salt pbkdf2_iterations)

  -- `deriveKEK` with the hint as a text, the empty one where it is absent.
  unfoldable pub derive_kek : Text → List ℕ → Text → Params → Option Derived
  unfolding is_pbkdf2_sha256_kdf
  derive_kek password salt hint p =
      if text_eq hint argon2id || (not (truthy hint) && C.has_argon2)
      then derive_kek_with_argon2id password salt p
      else if truthy hint && not (is_pbkdf2_sha256_kdf hint)
      then none
      else derive_kek_with_pbkdf2 password salt

  behind : List ℕ → Option (List ℕ) → Option (List ℕ)
  behind nonce none = none
  behind nonce (some ct) = some (nonce ++ ct)

  unfoldable pub aes_wrap : C.Kek → List ℕ → List ℕ → Option (List ℕ)
  unfolding behind
  aes_wrap kek nonce plain = behind nonce (C.encrypt kek nonce plain)

  unfoldable pub aes_unwrap : C.Kek → List ℕ → Option (List ℕ)
  aes_unwrap kek wrapped =
      if ltb (length wrapped) 12 then none else C.decrypt kek (take 12 wrapped) (drop 12 wrapped)

  abbrev parsed : Option Params → Params
  parsed none = no_params
  parsed (some p) = p

  -- The secret of a row under a password, as far as it is opened.
  open_wrapped : Option Derived → Option (List ℕ) → Option (List ℕ)
  unfolding aes_unwrap
  open_wrapped (some d) (some wrapped) = aes_unwrap d.key wrapped
  open_wrapped _ _ = none

  open_salted : Text → KeyRow → Option (List ℕ) → Option (List ℕ)
  unfolding open_wrapped
  open_salted password row none = none
  open_salted password row (some salt) =
      open_wrapped (derive_kek password salt row.kdf (parsed (C.parse_params row.kdf_params_json)))
        (C.b64_to_bytes row.wrapped_secret_b64)

  unfoldable pub open_row : Text → KeyRow → Option (List ℕ)
  unfolding open_salted
  open_row password row = open_salted password row (C.b64_to_bytes row.kdf_salt_b64)

  row_of : List ℕ → Derived → Option (List ℕ) → Option KeyRow
  row_of salt d none = none
  row_of salt d (some wrapped) = some (record {
    wrapped_secret_b64 = C.bytes_to_b64 wrapped;
    kdf = d.kdf;
    kdf_salt_b64 = C.bytes_to_b64 salt;
    kdf_params_json = C.print_params d.params;
  })

  wrap_derived : List ℕ → List ℕ → List ℕ → Option Derived → Option KeyRow
  unfolding row_of aes_wrap
  wrap_derived salt nonce secret none = none
  wrap_derived salt nonce secret (some d) = row_of salt d (aes_wrap d.key nonce secret)

  -- The row that wraps a secret under a password.
  unfoldable pub wrap_secret : Text → Text → List ℕ → List ℕ → List ℕ → Option KeyRow
  unfolding wrap_derived
  wrap_secret password hint salt nonce secret =
      wrap_derived salt nonce secret (derive_kek password salt hint no_params)

  rewrap_opened : Text → List ℕ → List ℕ → Option (List ℕ) → Option KeyRow
  rewrap_opened new_password salt nonce none = none
  rewrap_opened new_password salt nonce (some secret) =
      wrap_secret new_password argon2id salt nonce secret

  -- The row's `bootstrapped` is given; the salt and the nonce are random.
  unfoldable pub rewrap_account_for_new_password :
      Bool → KeyRow → Text → Text → List ℕ → List ℕ → Option KeyRow
  unfolding rewrap_opened
  rewrap_account_for_new_password bootstrapped me old_password new_password salt nonce =
      if bootstrapped
      then rewrap_opened new_password salt nonce (open_row old_password me)
      else none
