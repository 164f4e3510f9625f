-- ===== src/Vault/Unlock/Laws.antt =====
-- When the vault unlocks, with which keys, and what a failure leaves behind.
use elvish_email.Base.{
  ℕ, ◌≡◌, refl, Bool, true, false, not, ◌||◌, Option, none, some, List, [], arith, if◌then◌else◌,
  Option-cases, inl, inr, sym, ◌∙◌, ap, ◌+◌,
}
use elvish_email.Base.Text.{Text, text_eq, text_eq_iff, text_eq_refl, truthy, Unicode}
use elvish_email.Base.Dict.{get, get-put}
use elvish_email.Vault.Fingerprint.{normalize_fingerprint, fingerprints_equivalent}
use elvish_email.Vault.State.{OpenPgp, Identity, State, touch, zero_state, is_unlocked}
use elvish_email.Vault.Unlock.{
  VaultError, Result, ok, err, IdRow, account_locked, check_account, hydrate_checked,
  hydrate_unlocked_account, open_identity, store_identity, unlock_identity,
  ensure_identity_unlocked, get_identity, get_identity_by_email, store_account,
}

module _ (U : Unicode) (P : OpenPgp) where
  -- The private key of the account fits the published key.
  pub record IsAccountKey (armored_priv armored_pub expected fp : Text) (priv : P.Private)
      : Type 0 where
    pub parsed : P.read_private_key armored_priv ≡ some priv
    pub published : Text
    pub fingerprint : P.pgp_fingerprint armored_pub ≡ some published
    pub normal : fp ≡ normalize_fingerprint U published
    pub not_blank : truthy fp ≡ true
    pub fits : normalize_fingerprint U (P.get_fingerprint priv) ≡ fp
    pub expected_fits : truthy expected ≡ true → fingerprints_equivalent U expected fp ≡ true

  check_account-IsAccountKey :
      (armored_priv armored_pub expected fp : Text) (priv : P.Private)
      → check_account U P armored_priv armored_pub expected ≡ ok (priv, fp)
      → IsAccountKey armored_priv armored_pub expected fp priv
  unfolding check_account
  check_account-IsAccountKey armored_priv armored_pub expected fp priv h =
      elim (Option-cases (P.read_private_key armored_priv)) [
        | inl e1 ↦ absurd (ground (arith, e1, h))
        | inr (k, e1) ↦ elim (Option-cases (P.pgp_fingerprint armored_pub)) [
          | inl e2 ↦ absurd (ground (arith, e1, e2, h))
          | inr (p, e2) ↦
              let n = normalize_fingerprint U p in
              let parts : (k ≡ priv)
                  × (n ≡ fp)
                  × (truthy n ≡ true)
                  × (text_eq (normalize_fingerprint U (P.get_fingerprint k)) n ≡ true)
                  × ((not (truthy expected) || fingerprints_equivalent U expected n) ≡ true) =
                ground (arith, e1, e2, h) in
              record {
                parsed = e1 ∙ ap some parts.0;
                published = p;
                fingerprint = e2;
                normal = sym parts.1;
                not_blank = rw (← parts.1) parts.2;
                fits = rw (← parts.0) (
                    (text_eq_iff (normalize_fingerprint U (P.get_fingerprint k)) n).0 parts.3
                    ∙ parts.1);
                expected_fits = λ t. rw (← parts.1) (ground (arith, parts.4, t));
              }
        ]
      ]

  -- The vault after a successful attempt.
  pub record IsUnlockedWith (armored_priv armored_pub expected fp : Text) (now : ℕ) (t : State P)
      : Type 0 where
    pub key : P.Private
    pub checked : IsAccountKey armored_priv armored_pub expected fp key
    pub stored : t.account_private_key ≡ some key
    pub armored : t.account_armored_priv ≡ armored_priv
    pub named : t.account_fingerprint ≡ fp
    pub no_identities : t.identities ≡ []
    pub no_default : t.default_identity_fingerprint ≡ []
    pub timed : t.timer ≡ some (now + t.idle_ms)

  stored_account :
      (now : ℕ) (armored_priv armored_pub : Text) (priv : P.Private) (fp' : Text)
      (o : Option P.Public) (s t : State P) (fp : Text)
      → store_account U P now armored_priv armored_pub priv fp' o s ≡ (ok fp, t)
      → (fp' ≡ fp)
        × (t.account_private_key ≡ some priv)
        × (t.account_armored_priv ≡ armored_priv)
        × (t.account_fingerprint ≡ fp)
        × (t.identities ≡ [])
        × (t.default_identity_fingerprint ≡ [])
        × (t.timer ≡ some (now + t.idle_ms))
  unfolding store_account touch
  stored_account now armored_priv armored_pub priv fp' none s t fp h =
      absurd (cc (ap (λ (z : Result Text × State P). z.0) h))
  stored_account now armored_priv armored_pub priv fp' (some k) s t fp h =
      let same : fp' ≡ fp = cc (ap (λ (z : Result Text × State P). z.0) h) in
      let q = ap (λ (z : Result Text × State P). z.1) h in
      (
        same,
        sym (ap (λ (z : State P). z.account_private_key) q),
        sym (ap (λ (z : State P). z.account_armored_priv) q),
        sym (ap (λ (z : State P). z.account_fingerprint) q) ∙ same,
        sym (ap (λ (z : State P). z.identities) q),
        sym (ap (λ (z : State P). z.default_identity_fingerprint) q),
        sym (ap (λ (z : State P). z.timer) q) ∙ ap (λ (z : State P). some (now + z.idle_ms)) q,
      )

  -- The account is unlocked only with a private key whose fingerprint is the published one and,
  -- where the server names a fingerprint, equivalent to that; the vault then holds that key and no
  -- identity of an account that was unlocked before.
  pub hydrate-IsUnlockedWith :
      (now : ℕ) (armored_priv armored_pub expected : Text) (s t : State P) (fp : Text)
      → hydrate_unlocked_account U P now armored_priv armored_pub expected s ≡ (ok fp, t)
      → IsUnlockedWith armored_priv armored_pub expected fp now t
  unfolding hydrate_unlocked_account
  hydrate-IsUnlockedWith now armored_priv armored_pub expected s t fp h =
      go (check_account U P armored_priv armored_pub expected) refl h
    where
      go :
          (r : Result (P.Private × Text))
          → check_account U P armored_priv armored_pub expected ≡ r
          → hydrate_checked U P now armored_priv armored_pub r s ≡ (ok fp, t)
          → IsUnlockedWith armored_priv armored_pub expected fp now t
      go (err e) c h = absurd (ground (arith, h))
      go (ok (priv, fp')) c h =
          let r =
            stored_account now armored_priv armored_pub priv fp' (P.read_key armored_pub) s t fp
              h in
          let same = r.0 in
          record {
            key = priv;
            checked =
                check_account-IsAccountKey armored_priv armored_pub expected fp priv
                  (rw (← same) c);
            stored = r.1;
            armored = r.2;
            named = r.3;
            no_identities = r.4;
            no_default = r.5;
            timed = r.6;
          }

  -- A failed attempt to unlock the account leaves the vault as it was, where every key whose
  -- fingerprint can be read can be read.
  pub hydrate-err_keeps :
      (now : ℕ) (armored_priv armored_pub expected : Text) (s t : State P) (e : VaultError)
      → ((a f : Text) → P.pgp_fingerprint a ≡ some f → (k : P.Public) × (P.read_key a ≡ some k))
      → hydrate_unlocked_account U P now armored_priv armored_pub expected s ≡ (err e, t)
      → t ≡ s
  unfolding hydrate_unlocked_account
  hydrate-err_keeps now armored_priv armored_pub expected s t e readable h =
      go (check_account U P armored_priv armored_pub expected) refl h
    where
      go :
          (r : Result (P.Private × Text))
          → check_account U P armored_priv armored_pub expected ≡ r
          → hydrate_checked U P now armored_priv armored_pub r s ≡ (err e, t)
          → t ≡ s
      go (err x) c h = ground (arith, h)
      go (ok (priv, fp')) c h =
          let a = check_account-IsAccountKey armored_priv armored_pub expected fp' priv c in
          let (k, r) = readable armored_pub a.published a.fingerprint in
          absurd (ground (arith, h, r))

  -- What `zero` leaves: every lookup finds nothing and no identity can be unlocked.
  pub record IsLocked (s : State P) : Type 0 where
    pub no_identity : (now : ℕ) (fp : Text) → (get_identity U P now fp s).0 ≡ none
    pub no_email : (now : ℕ) (email : Text) → (get_identity_by_email U P now email s).0 ≡ none
    pub no_unlock :
        (now : ℕ) (row : IdRow) → unlock_identity U P now row s ≡ (err account_locked, s)
    pub no_ensure :
        (now : ℕ) (fp : Text) (rows : List IdRow)
        → ensure_identity_unlocked U P now fp rows s ≡ (err account_locked, s)
    pub no_timer : s.timer ≡ none

  -- After zero, whatever the vault held, every lookup finds nothing, no identity can be unlocked,
  -- and no timer runs.
  pub zero-IsLocked : (s : State P) → IsLocked (zero_state P s)
  unfolding zero_state
  zero-IsLocked s = record {
    no_identity = λ now fp. unfold get_identity get in ground arith;
    no_email = λ now email. unfold get_identity_by_email in ground arith;
    no_unlock = λ now row. unfold unlock_identity in refl;
    no_ensure = λ now fp rows. unfold ensure_identity_unlocked is_unlocked in refl;
    no_timer = refl;
  }

  -- If the vault is locked while unlockIdentity awaits its last promises, the identity's private
  -- key is still stored: the vault is locked, and holds it as its default identity.
  pub store_identity-after_zero :
      (now : ℕ) (row : IdRow) (account : P.Private) (key : Text) (ident : Identity P) (s : State P)
      → open_identity U P account row ≡ ok (key, ident)
      → let t = store_identity U P now row key ident (zero_state P s) in
        (is_unlocked P t ≡ false)
        × (get key t.identities ≡ some ident)
        × (t.default_identity_fingerprint ≡ key)
  unfolding store_identity zero_state is_unlocked touch
  store_identity-after_zero now row account key ident s h =
      (refl, rw (get-put key key ident []) (rw (text_eq_refl key)), or_true row.is_default)
    where
      or_true : (b : Bool) → (if b || true then key else []) ≡ key
      or_true true = refl
      or_true false = refl
