-- ===== src/Keygen/Laws.antt =====
-- A secret that was wrapped under a password opens again, and survives a change of the password.
use mathlib.Core.Path.{subst}
use elvish_email.Base.{
  ℕ, zero, suc, ◌≡◌, refl, ap, Bool, true, false, Option, none, some, List, [], ◌∷◌, ◌++◌, ltb,
  length, length-append, take, drop, arith,
}
use elvish_email.Base.Text.{Text}
use elvish_email.Keygen.{
  argon2id, Params, no_params, KeyCrypto, KeyRow, Derived, derive_kek, behind, aes_wrap, aes_unwrap,
  open_wrapped, open_salted, open_row, row_of, wrap_derived, wrap_secret, rewrap_opened,
  rewrap_account_for_new_password,
}
use elvish_email.Keygen.Derive.{Again, derived-Again}

take-nonce :
    (n : ℕ) (xs ys : List ℕ) → length xs ≡ n → (take n (xs ++ ys) ≡ xs) × (drop n (xs ++ ys) ≡ ys)
take-nonce zero [] ys h = (refl, refl)
take-nonce zero (x ∷ xs) ys h = absurd (omega (arith, h))
take-nonce (suc n) [] ys h = absurd (omega (arith, h))
take-nonce (suc n) (x ∷ xs) ys h =
    let (front, back) = take-nonce n xs ys (omega (arith, h)) in (ap (λ z. x ∷ z) front, back)

module _ (C : KeyCrypto) where
  -- What is relied on: base64, JSON and AES-GCM undo what they did; a nonce has 12 bytes.
  pub record Undoes : Type 0 where
    pub base64 : (bytes : List ℕ) → C.b64_to_bytes (C.bytes_to_b64 bytes) ≡ some bytes
    pub json : (p : Params) → C.parse_params (C.print_params p) ≡ some p
    pub aes :
        (k : C.Kek) (nonce plain ct : List ℕ)
        → C.encrypt k nonce plain ≡ some ct
        → C.decrypt k nonce ct ≡ some plain

  unwrap-wrap :
      (k : C.Kek) (nonce secret wrapped : List ℕ)
      → Undoes
      → length nonce ≡ 12
      → aes_wrap C k nonce secret ≡ some wrapped
      → aes_unwrap C k wrapped ≡ some secret
  unfolding aes_wrap aes_unwrap
  unwrap-wrap k nonce secret wrapped u n h = go (C.encrypt k nonce secret) refl h
    where
      go :
          (o : Option (List ℕ))
          → C.encrypt k nonce secret ≡ o
          → behind C nonce o ≡ some wrapped
          → aes_unwrap C k wrapped ≡ some secret
      go none e g = cc
      go (some ct) e g =
          let same : nonce ++ ct ≡ wrapped = cc (g) in
          let (front, back) = take-nonce 12 nonce ct n in
          let long : ltb (length (nonce ++ ct)) 12 ≡ false =
            ground (arith, n, length-append nonce ct) in
          subst (λ z. aes_unwrap C k z ≡ some secret) same
            (rw long (rw (front, back) (u.aes k nonce secret ct e)))

  opened-derived :
      (password : Text) (salt nonce secret : List ℕ) (d : Derived C) (row : KeyRow)
      → Undoes
      → length nonce ≡ 12
      → Again C password salt d
      → row_of C salt d (aes_wrap C d.key nonce secret) ≡ some row
      → open_row C password row ≡ some secret
  unfolding Again row_of open_row open_salted open_wrapped
  opened-derived password salt nonce secret d row u n a h =
      go (aes_wrap C d.key nonce secret) refl h
    where
      go :
          (o : Option (List ℕ))
          → aes_wrap C d.key nonce secret ≡ o
          → row_of C salt d o ≡ some row
          → open_row C password row ≡ some secret
      go none e g = cc
      go (some wrapped) e g =
          let kept : KeyRow = record {
            wrapped_secret_b64 = C.bytes_to_b64 wrapped;
            kdf = d.kdf;
            kdf_salt_b64 = C.bytes_to_b64 salt;
            kdf_params_json = C.print_params d.params;
          } in
          let same : kept ≡ row = cc (g) in
          subst (λ z. open_row C password z ≡ some secret) same
            (rw (u.base64 salt) (
              rw (u.base64 wrapped)
                (rw (u.json d.params) (rw a (unwrap-wrap d.key nonce secret wrapped u n e)))))

  -- What is wrapped under a password, by whichever function the hint asks for, opens with it.
  open_row-wrap :
      (password hint : Text) (salt nonce secret : List ℕ) (row : KeyRow)
      → Undoes
      → length nonce ≡ 12
      → wrap_secret C password hint salt nonce secret ≡ some row
      → open_row C password row ≡ some secret
  unfolding wrap_secret wrap_derived
  open_row-wrap password hint salt nonce secret row u n h =
      go (derive_kek C password salt hint no_params) refl h
    where
      go :
          (o : Option (Derived C))
          → derive_kek C password salt hint no_params ≡ o
          → wrap_derived C salt nonce secret o ≡ some row
          → open_row C password row ≡ some secret
      go none e g = cc
      go (some d) e g =
          opened-derived password salt nonce secret d row u n
            (derived-Again C password salt hint no_params d e) g

  -- When the account key is wrapped anew for a new password, the old row had opened with the old
  -- password, and the new row opens with the new one to the same secret, where base64, JSON and
  -- AES-GCM undo what they did and the nonce has 12 bytes.
  pub rewrap-opens :
      (bootstrapped : Bool) (me row : KeyRow) (old_password new_password : Text)
      (salt nonce : List ℕ)
      → Undoes
      → length nonce ≡ 12
      → rewrap_account_for_new_password C bootstrapped me old_password new_password salt nonce
        ≡ some row
      → (secret : List ℕ) × (open_row C old_password me ≡ some secret)
        × (open_row C new_password row ≡ some secret)
  unfolding rewrap_account_for_new_password rewrap_opened
  rewrap-opens false me row old_password new_password salt nonce u n h = cc
  rewrap-opens true me row old_password new_password salt nonce u n h =
      go (open_row C old_password me) refl h
    where
      go :
          (o : Option (List ℕ))
          → open_row C old_password me ≡ o
          → rewrap_opened C new_password salt nonce o ≡ some row
          → (secret : List ℕ) × (open_row C old_password me ≡ some secret)
            × (open_row C new_password row ≡ some secret)
      go none e g = cc
      go (some secret) e g =
          (secret, e, open_row-wrap new_password argon2id salt nonce secret row u n g)
