-- ===== src/Keygen/Derive.antt =====
-- The key that `deriveKEK` gives is derived again from the name and the parameters that are kept.
use elvish_email.Base.{
  ℕ, ◌*◌, ◌≡◌, refl, ap, sym, ◌∙◌, true, false, not, ◌&&◌, ◌||◌, Option, none, some, List,
  if◌then◌else◌, arith, Bool-cases, inl, inr,
}
use elvish_email.Base.Text.{Text, lit, text_eq, text_eq_refl, truthy}
use elvish_email.Keygen.{
  argon2id, pbkdf2_name, pbkdf2_iterations, is_pbkdf2_sha256_kdf, Params, no_params, KeyCrypto,
  or_default, effective, Derived, with_key, derive_kek_with_argon2id, derive_kek_with_pbkdf2,
  derive_kek,
}

names_lem : (text_eq pbkdf2_name argon2id ≡ false) × (truthy pbkdf2_name ≡ true)
unfolding text_eq lit
names_lem = (refl, refl)

default_again :
    (v fallback : ℕ) → or_default (or_default v fallback) fallback ≡ or_default v fallback
default_again v fallback = ground arith

built : ℕ → ℕ → ℕ → Params
built t m q = record { time = t; mem = m; parallelism = q; hash_len = 32; iterations = 0 }

effective-again : (p : Params) → effective (effective p) ≡ effective p
unfolding effective built
effective-again p =
    let m = or_default p.mem (64 * 1024) in
    ap (λ t. built t (or_default m (64 * 1024)) (or_default (or_default p.parallelism 1) 1))
      (default_again p.time 3)
    ∙ ap (λ z. built (or_default p.time 3) z (or_default (or_default p.parallelism 1) 1))
        (default_again p.mem (64 * 1024))
    ∙ ap (λ z. built (or_default p.time 3) m z) (default_again p.parallelism 1)

module _ (C : KeyCrypto) where
  -- The key of the name and the parameters that are kept.
  unfoldable pub Again : Text → List ℕ → Derived C → Type 0
  Again password salt d = derive_kek C password salt d.kdf d.params ≡ some d

  derive-argon2id :
      (password : Text) (salt : List ℕ) (p : Params)
      → derive_kek C password salt argon2id p ≡ derive_kek_with_argon2id C password salt p
  unfolding derive_kek
  derive-argon2id password salt p = rw (text_eq_refl argon2id)

  derive-pbkdf2 :
      (password : Text) (salt : List ℕ) (p : Params)
      → derive_kek C password salt pbkdf2_name p ≡ derive_kek_with_pbkdf2 C password salt
  unfolding derive_kek is_pbkdf2_sha256_kdf
  derive-pbkdf2 password salt p =
      rw (names_lem.0) (rw (names_lem.1) (rw (text_eq_refl pbkdf2_name)))

  argon2-effective :
      (password : Text) (salt : List ℕ) (p : Params)
      → derive_kek_with_argon2id C password salt (effective p)
        ≡ derive_kek_with_argon2id C password salt p
  unfolding derive_kek_with_argon2id
  argon2-effective password salt p =
      ap
        (λ q.
          if C.has_argon2
          then with_key C argon2id q (C.argon2_key password salt q.time q.mem q.parallelism)
          else none)
        (effective-again p)

  with_key-parts :
      (name : Text) (p : Params) (o : Option C.Kek) (d : Derived C)
      → with_key C name p o ≡ some d
      → (d.kdf ≡ name) × (d.params ≡ p)
  unfolding with_key
  with_key-parts name p none d h = cc
  with_key-parts name p (some k) d h =
      let e : record { kdf = name; key = k; params = p } ≡ d = cc (h) in
      (sym (ap (λ (z : Derived C). z.kdf) e), sym (ap (λ (z : Derived C). z.params) e))

  argon2-Again :
      (password : Text) (salt : List ℕ) (p : Params) (d : Derived C)
      → derive_kek_with_argon2id C password salt p ≡ some d
      → Again password salt d
  unfolding Again derive_kek_with_argon2id
  argon2-Again password salt p d h = elim (Bool-cases C.has_argon2) [
    | inl a ↦
        let (name, same) =
          with_key-parts argon2id (effective p)
            (C.argon2_key password salt (effective p).time (effective p).mem
              (effective p).parallelism)
            d (rw a at h) in
        ap (λ z. derive_kek C password salt z d.params) name
        ∙ derive-argon2id password salt d.params
        ∙ ap (derive_kek_with_argon2id C password salt) same
        ∙ argon2-effective password salt p
        ∙ h
    | inr a ↦ absurd (cc (rw a at h))
  ]

  pbkdf2-Again :
      (password : Text) (salt : List ℕ) (d : Derived C)
      → derive_kek_with_pbkdf2 C password salt ≡ some d
      → Again password salt d
  unfolding Again derive_kek_with_pbkdf2
  pbkdf2-Again password salt d h =
      let (name, same) =
        with_key-parts pbkdf2_name (record no_params { iterations = pbkdf2_iterations })
          (C.pbkdf2_key password salt pbkdf2_iterations) d h in
      ap (λ z. derive_kek C password salt z d.params) name
      ∙ derive-pbkdf2 password salt d.params
      ∙ h

  pub derived-Again :
      (password : Text) (salt : List ℕ) (hint : Text) (p : Params) (d : Derived C)
      → derive_kek C password salt hint p ≡ some d
      → Again password salt d
  unfolding derive_kek
  derived-Again password salt hint p d h =
      elim (Bool-cases (text_eq hint argon2id || (not (truthy hint) && C.has_argon2))) [
        | inl a ↦ argon2-Again password salt p d (rw a at h)
        | inr a ↦ elim (Bool-cases (truthy hint && not (is_pbkdf2_sha256_kdf hint))) [
          | inl b ↦ absurd (cc (rw (a, b) at h))
          | inr b ↦ pbkdf2-Again password salt d (rw (a, b) at h)
        ]
      ]
