-- ===== src/Messages/Decrypt/Opening.antt =====
-- With which keys a message was decrypted and its signatures were checked.
use elvish_email.Base.{
  ℕ, ◌≡◌, refl, ◌∙◌, ap, Option, Option-cases, inl, inr, arith, none, some, List,
}
use mathlib.Core.Path.{subst}
use elvish_email.Base.Text.{Text, Unicode}
use elvish_email.Vault.State.{OpenPgp, Identity, State, touch}
use elvish_email.Vault.Unlock.{Result, err, ok, IdRow, ensure_identity_unlocked, get_identity}
use elvish_email.Messages.Signatures.{Signature, summarize_signature_verification}
use elvish_email.Messages.Mime.Transfer.{Codec}
use elvish_email.Messages.Api.{Content, MessageApi, KeySource, read_verification_keys}
use elvish_email.Messages.Decrypt.{
  Opened, read_encrypted_message, open_message, touch_after, open_with, open_ensured,
  decrypt_to_result,
}

module _ (U : Unicode) (codec : Codec) (P : OpenPgp) (A : MessageApi P) where
  -- The content was decrypted with the key, and its signatures were checked with the given keys.
  pub record IsOpening (key : P.Private) (c : Content) (source : KeySource) (r : Opened)
      : Type 0 where
    pub message : A.Message
    pub keys : List P.Public
    pub signatures : List Signature
    pub read : read_encrypted_message U codec P A c ≡ some message
    pub given : read_verification_keys P A source ≡ some keys
    pub decrypted : A.decrypt_message key message keys ≡ some (r.data_text, signatures)
    pub summary :
        r.verification ≡ summarize_signature_verification U A.public_fingerprint signatures keys

  open-IsOpening :
      (key : P.Private) (c : Content) (source : KeySource) (r : Opened)
      → open_message U codec P A key c source ≡ ok r
      → IsOpening key c source r
  unfolding open_message
  open-IsOpening key c source r h = elim (Option-cases (read_encrypted_message U codec P A c)) [
    | inl e1 ↦ absurd (ground (arith, e1, h))
    | inr (m, e1) ↦ elim (Option-cases (read_verification_keys P A source)) [
      | inl e2 ↦ absurd (ground (arith, e1, e2, h))
      | inr (ks, e2) ↦ elim (Option-cases (A.decrypt_message key m ks)) [
        | inl e3 ↦ absurd (ground (arith, e1, e2, e3, h))
        | inr ((d, ss), e3) ↦
            let v = summarize_signature_verification U A.public_fingerprint ss ks in
            let parts : ok (record { data_text = d; verification = v }) ≡ ok r =
              ground (arith, e1, e2, e3, h) in
            let same : (record { data_text = d; verification = v }) ≡ r = cc (parts) in
            subst (IsOpening key c source) same (record {
              message = m;
              keys = ks;
              signatures = ss;
              read = e1;
              given = e2;
              decrypted = e3;
              summary = refl;
            })
      ]
    ]
  ]

  -- What decryptToResult returns was decrypted from the message that was read, with the private key
  -- of the identity that getIdentity then gives for the fingerprint, and its verification is the
  -- summary of the signatures under the keys that were given.
  pub decrypt_to_result-IsOpening :
      (now : ℕ) (c : Content) (fp : Text) (rows : List IdRow) (source : KeySource) (s t : State P)
      (r : Opened)
      → decrypt_to_result U codec P A now c fp rows source s ≡ (ok r, t)
      → (i : Identity P) × ((get_identity U P now (U.upper fp) t).0 ≡ some i)
        × IsOpening i.private_key c source r
  unfolding decrypt_to_result open_ensured open_with touch_after get_identity touch
  decrypt_to_result-IsOpening now c fp rows source s t r h =
      ensured (ensure_identity_unlocked U P now (U.upper fp) rows s).0
        (ensure_identity_unlocked U P now (U.upper fp) rows s).1 h
    where
      Goal : Type 0
      Goal =
          (i : Identity P) × ((get_identity U P now (U.upper fp) t).0 ≡ some i)
          × IsOpening i.private_key c source r

      finished :
          (i : Identity P) (u : State P) (o : Result Opened)
          → open_message U codec P A i.private_key c source ≡ o
          → (get_identity U P now (U.upper fp) (touch P now u)).0 ≡ some i
          → touch_after U codec P A now o u ≡ (ok r, t)
          → Goal
      finished i u (err e) q g k = absurd (cc (ap (λ (z : Result Opened × State P). z.0) k))
      finished i u (ok x) q g k =
          let same : x ≡ r = cc (ap (λ (z : Result Opened × State P). z.0) k) in
          (
            i,
            rw (← ap (λ (z : Result Opened × State P). z.1) k) g,
            open-IsOpening i.private_key c source r (q ∙ ap ok same),
          )

      with_identity :
          (o : Option (Identity P)) (u : State P)
          → (get_identity U P now (U.upper fp) (touch P now u)).0 ≡ o
          → open_with U codec P A now c source o u ≡ (ok r, t)
          → Goal
      with_identity none u g k = absurd (cc (ap (λ (z : Result Opened × State P). z.0) k))
      with_identity (some i) u g k =
          finished i u (open_message U codec P A i.private_key c source) refl g k

      ensured :
          (x : Result Text) (u : State P)
          → open_ensured U codec P A now (U.upper fp) c source (x, u) ≡ (ok r, t)
          → Goal
      ensured (err e) u k = absurd (cc (ap (λ (z : Result Opened × State P). z.0) k))
      ensured (ok key) u k =
          with_identity (get_identity U P now (U.upper fp) u).0
            (get_identity U P now (U.upper fp) u).1 refl k
