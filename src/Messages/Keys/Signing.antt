-- ===== src/Messages/Keys/Signing.antt =====
-- Whose key signs, and for whom a message is encrypted.
use elvish_email.Base.{
  ℕ, ◌≡◌, refl, ◌∙◌, ap, Option, none, some, List, Option-cases, inl, inr, arith,
}
use elvish_email.Base.Text.{Text, Unicode}
use elvish_email.Vault.State.{OpenPgp, Identity, State, touch}
use elvish_email.Vault.Unlock.{Result, err, ok, IdRow, ensure_identity_unlocked, get_identity}
use elvish_email.Messages.Mime.Transfer.{Codec}
use elvish_email.Messages.Api.{Content, MessageApi}
use elvish_email.Messages.Keys.{
  named, found, ensured, encrypted, sign_ensured, encrypt_and_sign_to_recipient,
}

module _ (U : Unicode) (codec : Codec) (P : OpenPgp) (A : MessageApi P) where
  ensured-found :
      (now : ℕ) (fp : Text) (rows : List IdRow) (s t : State P) (i : Identity P)
      → ensured U codec P A now fp rows s ≡ (ok i, t)
      → (get_identity U P now fp t).0 ≡ some i
  unfolding ensured found named get_identity touch
  ensured-found now fp rows s t i h =
      there (ensure_identity_unlocked U P now fp rows s).0
        (ensure_identity_unlocked U P now fp rows s).1 h
    where
      with_identity :
          (o : Option (Identity P)) (u : State P)
          → (get_identity U P now fp u).0 ≡ o
          → named U codec P A o u ≡ (ok i, t)
          → (get_identity U P now fp t).0 ≡ some i
      with_identity none u g k = absurd (cc (ap (λ (z : Result (Identity P) × State P). z.0) k))
      with_identity (some j) u g k =
          let same : j ≡ i = cc (ap (λ (z : Result (Identity P) × State P). z.0) k) in
          rw (← ap (λ (z : Result (Identity P) × State P). z.1) k) (g ∙ ap some same)

      there :
          (x : Result Text) (u : State P)
          → found U codec P A now fp (x, u) ≡ (ok i, t)
          → (get_identity U P now fp t).0 ≡ some i
      there (err e) u k = absurd (cc (ap (λ (z : Result (Identity P) × State P). z.0) k))
      there (ok key) u k =
          with_identity (get_identity U P now fp u).0 (get_identity U P now fp u).1 refl k

  -- The text is the content, encrypted to the recipient and signed by the key.
  pub record IsSigned (key : P.Private) (armored : Text) (c : Content) (cipher : Text)
      : Type 0 where
    pub recipient : P.Public
    pub reads : P.read_key armored ≡ some recipient
    pub encrypts : A.encrypt_message recipient (some key) c ≡ some cipher

  encrypted-IsSigned :
      (key : P.Private) (armored : Text) (c : Content) (cipher : Text)
      → encrypted U codec P A armored (some key) c ≡ ok cipher
      → IsSigned key armored c cipher
  unfolding encrypted
  encrypted-IsSigned key armored c cipher h = elim (Option-cases (P.read_key armored)) [
    | inl e1 ↦ absurd (ground (arith, e1, h))
    | inr (k, e1) ↦ elim (Option-cases (A.encrypt_message k (some key) c)) [
      | inl e2 ↦ absurd (ground (arith, e1, e2, h))
      | inr (d, e2) ↦
          let same : d ≡ cipher = ground (arith, e1, e2, h) in
          record { recipient = k; reads = e1; encrypts = e2 ∙ ap some same }
    ]
  ]

  -- What encryptAndSignToRecipient returns is the content, encrypted to the key that was read from
  -- the recipient's armor and signed with the private key of the identity that getIdentity then
  -- gives for the signer's fingerprint.
  pub encrypt_and_sign-IsSigned :
      (now : ℕ) (armored : Text) (c : Content) (signer : Text) (rows : List IdRow) (s t : State P)
      (cipher : Text)
      → encrypt_and_sign_to_recipient U codec P A now armored c signer rows s ≡ (ok cipher, t)
      → (i : Identity P) × ((get_identity U P now (U.upper signer) t).0 ≡ some i)
        × IsSigned i.private_key armored c cipher
  unfolding encrypt_and_sign_to_recipient sign_ensured
  encrypt_and_sign-IsSigned now armored c signer rows s t cipher h =
      go (ensured U codec P A now (U.upper signer) rows (touch P now s)).0
        (ensured U codec P A now (U.upper signer) rows (touch P now s)).1 refl h
    where
      go :
          (x : Result (Identity P)) (u : State P)
          → ensured U codec P A now (U.upper signer) rows (touch P now s) ≡ (x, u)
          → sign_ensured U codec P A armored c (x, u) ≡ (ok cipher, t)
          → (i : Identity P) × ((get_identity U P now (U.upper signer) t).0 ≡ some i)
            × IsSigned i.private_key armored c cipher
      go (err e) u g k = absurd (cc (ap (λ (z : Result Text × State P). z.0) k))
      go (ok i) u g k = (
        i,
        rw (← ap (λ (z : Result Text × State P). z.1) k)
            (ensured-found now (U.upper signer) rows (touch P now s) u i g),
        encrypted-IsSigned i.private_key armored c cipher
            (ap (λ (z : Result Text × State P). z.0) k),
      )
