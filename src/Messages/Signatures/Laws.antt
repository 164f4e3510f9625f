-- ===== src/Messages/Signatures/Laws.antt =====
-- What a summary says of the signatures.
use mathlib.Core.List.{Memᴰ}
use mathlib.Core.List.Memᴰ
use elvish_email.Base.{
  ◌≡◌, ◌≢◌, ◌⊎◌, ◌∙◌, inl, inr, refl, ap, sym, true, Option, none, List, [], ◌∷◌, All,
}
use elvish_email.Base.Text.{Text, text_eq_iff, truthy, Unicode}
use elvish_email.Vault.Fingerprint.{fingerprint_key_id16}
use elvish_email.Messages.Signatures.{
  Verdict, no_promise, fulfilled, rejected, Signature, Status, unsigned, missing_public_key,
  verified, bad_signature, Loop, passed, failed, first_reason, after_verdict, check_signatures,
  truthy_texts, signature_key_id_hex, key_ids, signer_ids, key_fingerprint,
  fingerprint_from_verification_keys, summarize_loop, summarize_signature_verification,
}

abbrev pub Passes : Signature → Type 0
Passes s = (s.verdict ≡ no_promise) ⊎ (s.verdict ≡ fulfilled)

abbrev pub IsRejected : Signature → Type 0
IsRejected s = (e : Option Text) × (s.verdict ≡ rejected e)

-- What the statuses mean.
abbrev pub Means : {K : Type 0} → Status → List Signature → List K → Type 0
Means unsigned ss ks = ss ≡ []
Means missing_public_key ss ks = (ss ≢ []) × (ks ≡ [])
Means verified ss ks = (ks ≢ []) × (s : Signature) × Memᴰ s ss × Passes s
Means bad_signature ss ks = (ss ≢ []) × (ks ≢ []) × All IsRejected ss

passed-Memᴰ :
    (ss : List Signature) (first : Option Text)
    → check_signatures ss first ≡ passed
    → (s : Signature) × Memᴰ s ss × Passes s
unfolding check_signatures after_verdict
passed-Memᴰ [] first h = cc
passed-Memᴰ (s ∷ ss) first h = go s.verdict refl h (λ f k. passed-Memᴰ ss f k)
  where
    go :
        (v : Verdict)
        → s.verdict ≡ v
        → after_verdict v (check_signatures ss) first ≡ passed
        → ((f : Option Text)
            → check_signatures ss f ≡ passed
            → (t : Signature) × Memᴰ t ss × Passes t)
        → (t : Signature) × Memᴰ t (s ∷ ss) × Passes t
    go no_promise e k rest = (s, Memᴰ.head refl, inl e)
    go fulfilled e k rest = (s, Memᴰ.head refl, inr e)
    go (rejected r) e k rest = let (t, m, p) = rest (first_reason first r) k in (t, Memᴰ.tail m, p)

failed-IsRejected :
    (ss : List Signature) (first r : Option Text)
    → check_signatures ss first ≡ failed r
    → All IsRejected ss
unfolding check_signatures after_verdict
failed-IsRejected [] first r h = tt
failed-IsRejected (s ∷ ss) first r h = go s.verdict refl h (λ f k. failed-IsRejected ss f r k)
  where
    go :
        (v : Verdict)
        → s.verdict ≡ v
        → after_verdict v (check_signatures ss) first ≡ failed r
        → ((f : Option Text) → check_signatures ss f ≡ failed r → All IsRejected ss)
        → All IsRejected (s ∷ ss)
    go no_promise e k rest = cc
    go fulfilled e k rest = cc
    go (rejected x) e k rest = ((x, e), rest (first_reason first x) k)

Memᴰ-passed :
    (ss : List Signature) (first : Option Text) (s : Signature)
    → Memᴰ s ss
    → Passes s
    → check_signatures ss first ≡ passed
unfolding check_signatures after_verdict
Memᴰ-passed [] first s m p = absurd (Memᴰ.not-nil m)
Memᴰ-passed (t ∷ ss) first s (Memᴰ.head e) (inl p) =
    rw (ap (λ (z : Signature). z.verdict) (sym e) ∙ p) refl
Memᴰ-passed (t ∷ ss) first s (Memᴰ.head e) (inr p) =
    rw (ap (λ (z : Signature). z.verdict) (sym e) ∙ p) refl
Memᴰ-passed (t ∷ ss) first s (Memᴰ.tail m) p = go t.verdict (λ f. Memᴰ-passed ss f s m p)
  where
    go :
        (v : Verdict)
        → ((f : Option Text) → check_signatures ss f ≡ passed)
        → after_verdict v (check_signatures ss) first ≡ passed
    go no_promise rest = refl
    go fulfilled rest = refl
    go (rejected r) rest = rest (first_reason first r)

listed_id :
    (U : Unicode) (a : Signature) (ss : List Signature)
    → truthy (signature_key_id_hex U a) ≡ true
    → (rest : List Text) × (signer_ids U (a ∷ ss) ≡ signature_key_id_hex U a ∷ rest)
unfolding signer_ids truthy_texts
listed_id U a ss t = (truthy_texts (key_ids U ss), rw t refl)

module _ (U : Unicode) {K : Type 0} (get_fingerprint : K → Option Text) where
  loop-Means :
      (s : Signature) (ss : List Signature) (k : K) (ks : List K) (l : Loop)
      → check_signatures (s ∷ ss) none ≡ l
      → Means (summarize_loop U get_fingerprint (s ∷ ss) (k ∷ ks) l).status (s ∷ ss) (k ∷ ks)
  unfolding summarize_loop
  loop-Means s ss k ks passed e =
      let (t, m, p) = passed-Memᴰ (s ∷ ss) none e in (λ q. cc (q), t, m, p)
  loop-Means s ss k ks (failed r) e =
      (λ q. cc (q), λ q. cc (q), failed-IsRejected (s ∷ ss) none r e)

  -- The status of a summary says of the signatures and keys: "unsigned" that there is no signature,
  -- "missing_public_key" that there is one but no key, "verified" that there is a key and a
  -- signature that is not rejected, "bad_signature" that there are both and every signature is
  -- rejected.
  pub summarize-Means :
      (ss : List Signature) (ks : List K)
      → Means (summarize_signature_verification U get_fingerprint ss ks).status ss ks
  unfolding summarize_signature_verification
  summarize-Means [] ks = refl
  summarize-Means (s ∷ ss) [] = (λ q. cc (q), refl)
  summarize-Means (s ∷ ss) (k ∷ ks) = loop-Means s ss k ks (check_signatures (s ∷ ss) none) refl

  -- If the first signature is rejected and names the key id of the first key, and another signature
  -- passes, then the summary is "verified" and names the fingerprint of the first key.
  pub verified_by_other :
      (a b : Signature) (ss : List Signature) (k : K) (ks : List K) (reason : Option Text)
      → a.verdict ≡ rejected reason
      → Memᴰ b ss
      → Passes b
      → truthy (key_fingerprint U get_fingerprint k) ≡ true
      → truthy (signature_key_id_hex U a) ≡ true
      → signature_key_id_hex U a ≡ fingerprint_key_id16 U (key_fingerprint U get_fingerprint k)
      → let s = summarize_signature_verification U get_fingerprint (a ∷ ss) (k ∷ ks) in
        (s.status ≡ verified) × (s.signer_fingerprint ≡ key_fingerprint U get_fingerprint k)
  unfolding summarize_signature_verification
  verified_by_other a b ss k ks reason ra m p n t same =
      let (rest, ids) = listed_id U a ss t in
      let step : check_signatures (a ∷ ss) none ≡ passed =
        unfold check_signatures after_verdict in rw ra (Memᴰ-passed ss reason b m p) in
      rw step (
        unfold summarize_loop in refl,
        unfold summarize_loop fingerprint_from_verification_keys in
            rw
              (
                ids,
                n,
                (text_eq_iff (signature_key_id_hex U a)
                      (fingerprint_key_id16 U (key_fingerprint U get_fingerprint k))).1
                    same,
              )
              refl,
      )
