-- ===== src/Keygen/Tests.antt =====
-- Witnesses for static/auth/keygen.js: a key is the password, and sealing puts it in front.
use elvish_email.Base.{ℕ, ◌≡◌, refl, ap, sym, true, Option, none, some, List, [], ◌∷◌, ◌++◌, drop}
use elvish_email.Base.Text.{Text, lit, text_eq}
use elvish_email.Keygen.{
  KeyCrypto, Params, KeyRow, derive_kek, derive_kek_with_argon2id, wrap_secret, open_row,
  rewrap_account_for_new_password,
}
use elvish_email.Keygen.Laws.{Undoes, rewrap-opens}

abbrev params_text : Params → Text
params_text p = p.time ∷ p.mem ∷ p.parallelism ∷ p.hash_len ∷ p.iterations ∷ []

abbrev read_params : Text → Option Params
read_params (a ∷ b ∷ c ∷ d ∷ e ∷ []) =
    some (record { time = a; mem = b; parallelism = c; hash_len = d; iterations = e })
read_params _ = none

abbrev open_crypto : KeyCrypto
open_crypto = record {
  Kek = Text;
  has_argon2 = true;
  argon2_key = λ password salt t m q. some password;
  pbkdf2_key = λ password salt n. some password;
  encrypt = λ k nonce plain. some (1 ∷ plain);
  decrypt = λ k nonce ct. some (drop 1 ct);
  bytes_to_b64 = λ bytes. bytes;
  b64_to_bytes = λ t. some t;
  print_params = params_text;
  parse_params = read_params;
}

abbrev dropped : Option (List ℕ) → Option (List ℕ)
dropped none = none
dropped (some ct) = some (drop 1 ct)

open-Undoes : Undoes open_crypto
open-Undoes = record {
  base64 = λ bytes. refl;
  json = λ p. refl;
  aes = λ k nonce plain ct h. ap (λ (o : Option (List ℕ)). dropped o) (sym h);
}

abbrev nonce : List ℕ
nonce = 0 ∷ 1 ∷ 2 ∷ 3 ∷ 4 ∷ 5 ∷ 6 ∷ 7 ∷ 8 ∷ 9 ∷ 10 ∷ 11 ∷ []

abbrev row : KeyRow
row = record {
  wrapped_secret_b64 = nonce ++ (1 ∷ lit "key");
  kdf = lit "argon2id";
  kdf_salt_b64 = 5 ∷ [];
  kdf_params_json = 3 ∷ 65536 ∷ 1 ∷ 32 ∷ 0 ∷ [];
}

rewraps :
    rewrap_account_for_new_password open_crypto true row (lit "pw") (lit "new") (5 ∷ []) nonce
    ≡ some row
unfolding rewrap_account_for_new_password open_row lit derive_kek text_eq derive_kek_with_argon2id
    wrap_secret
rewraps = refl

rewrap-opens_example :
    (secret : List ℕ) × (open_row open_crypto (lit "pw") row ≡ some secret)
    × (open_row open_crypto (lit "new") row ≡ some secret)
rewrap-opens_example =
    rewrap-opens open_crypto true row row (lit "pw") (lit "new") (5 ∷ []) nonce open-Undoes refl
      rewraps
