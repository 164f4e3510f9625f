-- ===== src/Vault/Unlock/Refused.antt =====
-- A vault without the account key refuses to open an identity, and without identities finds none.
use elvish_email.Base.{
  ℕ, ◌≡◌, refl, false, Option, none, some, List, [], ◌∷◌, if◌then◌else◌, is_some, Bool-cases, inl,
  inr,
}
use elvish_email.Base.Text.{Text, truthy, Unicode}
use elvish_email.Base.Dict.{get}
use elvish_email.Vault.State.{OpenPgp, State, touch, is_unlocked}
use elvish_email.Vault.Fingerprint.{fingerprint_key_id16}
use elvish_email.Vault.Unlock.{
  err, account_locked, IdRow, ensure_identity_unlocked, get_identity, get_by_key,
}

module _ (P : OpenPgp) where
  pub no_key : (s : State P) → is_unlocked P s ≡ false → s.account_private_key ≡ none
  unfolding is_unlocked
  no_key s h = go s.account_private_key h
    where
      go : (o : Option P.Private) → is_some o ≡ false → o ≡ none
      go none h = refl
      go (some k) h = cc

  pub touch-locked :
      (now : ℕ) (s : State P) → is_unlocked P s ≡ false → is_unlocked P (touch P now s) ≡ false
  unfolding is_unlocked touch
  touch-locked now s h = h

module _ (U : Unicode) (P : OpenPgp) where
  pub ensure-locked :
      (now : ℕ) (fp : Text) (rows : List IdRow) (s : State P)
      → is_unlocked P s ≡ false
      → ensure_identity_unlocked U P now fp rows s ≡ (err account_locked, s)
  unfolding ensure_identity_unlocked
  ensure-locked now fp rows s h = rw h

  none_by_key : (kid : Text) → get_by_key U P kid [] ≡ none
  unfolding get_by_key get
  none_by_key [] = refl
  none_by_key (c ∷ kid) = refl

  pub no-identity :
      (now : ℕ) (fp : Text) (s : State P) → s.identities ≡ [] → (get_identity U P now fp s).0 ≡ none
  unfolding get_identity
  no-identity now fp s h =
      let asked = if truthy fp then fp else s.default_identity_fingerprint in
      elim (Bool-cases (truthy asked)) [
        | inl t ↦ rw t (rw h (none_by_key (fingerprint_key_id16 U (U.upper asked))))
        | inr t ↦ rw t
      ]
