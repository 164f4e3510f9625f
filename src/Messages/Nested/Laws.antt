-- ===== src/Messages/Nested/Laws.antt =====
-- What a nested payload that counts as verified rests on, and what a signature does not cover.
use mathlib.Core.Path.{subst}
use mathlib.Core.List.{Memᴰ}
use elvish_email.Base.{
  ◌≡◌, ◌≢◌, ◌∙◌, inl, inr, refl, ap, ◌&&◌, Option, none, some, List, [], ◌∷◌, Bool-cases,
}
use elvish_email.Base.Text.{Text, lit, truthy, trim_start, Unicode}
use elvish_email.Vault.State.{OpenPgp}
use elvish_email.Messages.Armor.{
  extract_armored_cleartext_signed_block, extract_armored_detached_signature_blob,
}
use elvish_email.Messages.Signatures.{
  verified, Summary, Signature, summarize_signature_verification,
}
use elvish_email.Messages.Signatures.Laws.{Passes, Means, summarize-Means}
use elvish_email.Messages.Mime.Headers.{extract_content_type_value, extract_mime_boundary}
use elvish_email.Messages.Mime.Transfer.{Codec}
use elvish_email.Messages.Api.{Attempt, threw, gave, MessageApi, KeySource, read_verification_keys}
use elvish_email.Messages.Nested.{
  split_mime_parts_loose, cut_headers, no_signed_payload, checked, bad, summarized, detached,
  verify_detached_part, signature_part, verify_parts, verify_multipart, cleartext_signatures,
  verify_cleartext_block, is_signed_multipart, verify_cut, verify_with,
  verify_nested_signed_payload,
}

module _ (U : Unicode) (codec : Codec) (P : OpenPgp) (A : MessageApi P) where
  -- OpenPGP.js verified the signatures: detached ones on the first part of the body, or those of a
  -- cleartext block of the body.
  pub data Verified (keys : List P.Public) (body content_type : Text) (ss : List Signature)
      : Type 0 where
    by_detached :
        (part raw headers sig_body : Text) (rest : List Text) (sig : A.DetachedSignature)
        → split_mime_parts_loose body (extract_mime_boundary content_type) ≡ part ∷ raw ∷ rest
        → cut_headers raw ≡ some (headers, sig_body)
        → A.read_signature (extract_armored_detached_signature_blob sig_body) ≡ gave sig
        → A.verify_detached (codec.encode part) sig keys ≡ gave ss
        → Verified keys body content_type ss
    by_cleartext :
        (c : A.Cleartext)
        → A.read_cleartext (extract_armored_cleartext_signed_block (trim_start body)) ≡ gave c
        → A.verify_cleartext c keys ≡ gave ss
        → Verified keys body content_type ss

  -- What stands behind the status "verified".
  pub record IsVerified (message : Text) (source : KeySource) : Type 0 where
    pub keys : List P.Public
    pub signatures : List Signature
    pub headers : Text
    pub body : Text
    pub given : read_verification_keys P A source ≡ some keys
    pub some_key : keys ≢ []
    pub cut : cut_headers message ≡ some (headers, body)
    pub by : Verified keys body (extract_content_type_value headers) signatures
    pub passing : (s : Signature) × Memᴰ s signatures × Passes s

  -- The same for a part of the way: the signatures and one that passes.
  record Stage (keys : List P.Public) (By : List Signature → Type 0) : Type 0 where
    signatures : List Signature
    by : By signatures
    some_key : keys ≢ []
    passing : (s : Signature) × Memᴰ s signatures × Passes s

  bad-ne : (why : Text) (s : Summary) → s.status ≡ verified → bad why ≡ checked s → ⊥
  unfolding bad
  bad-ne why s v h = cc (h, v)

  summarized-Stage :
      (keys : List P.Public) (By : List Signature → Type 0) (a : Attempt (List Signature))
      (s : Summary)
      → ((ss : List Signature) → a ≡ gave ss → By ss)
      → s.status ≡ verified
      → summarized U codec P A keys a ≡ checked s
      → Stage keys By
  unfolding summarized
  summarized-Stage keys By (threw why) s f v h = absurd (bad-ne why s v h)
  summarized-Stage keys By (gave ss) s f v h =
      let same : (summarize_signature_verification U A.public_fingerprint ss keys) ≡ s = cc (h) in
      let m =
        subst (λ x. Means x ss keys) (ap (λ (z : Summary). z.status) same ∙ v)
          (summarize-Means U A.public_fingerprint ss keys) in
      record { signatures = ss; by = f ss refl; some_key = m.0; passing = (m.1, m.2, m.3) }

  detached-Stage :
      (keys : List P.Public) (part : Text) (By : List Signature → Type 0)
      (a : Attempt A.DetachedSignature) (s : Summary)
      → ((sig : A.DetachedSignature) (ss : List Signature)
          → a ≡ gave sig
          → A.verify_detached (codec.encode part) sig keys ≡ gave ss
          → By ss)
      → s.status ≡ verified
      → detached U codec P A keys part a ≡ checked s
      → Stage keys By
  unfolding detached
  detached-Stage keys part By (threw why) s f v h = absurd (bad-ne why s v h)
  detached-Stage keys part By (gave sig) s f v h =
      summarized-Stage keys By (A.verify_detached (codec.encode part) sig keys) s
        (λ ss e. f sig ss refl e) v h

  blob-Stage :
      (keys : List P.Public) (part blob : Text) (By : List Signature → Type 0) (s : Summary)
      → ((sig : A.DetachedSignature) (ss : List Signature)
          → A.read_signature blob ≡ gave sig
          → A.verify_detached (codec.encode part) sig keys ≡ gave ss
          → By ss)
      → s.status ≡ verified
      → verify_detached_part U codec P A keys part blob ≡ checked s
      → Stage keys By
  unfolding verify_detached_part
  blob-Stage keys part blob By s f v h = elim (Bool-cases (truthy blob)) [
    | inl t ↦ detached-Stage keys part By (A.read_signature blob) s f v (rw t at h)
    | inr t ↦ absurd (bad-ne (lit "missing detached signature") s v (rw t at h))
  ]

  signature-Stage :
      (keys : List P.Public) (part : Text) (By : List Signature → Type 0) (o : Option (Text × Text))
      (s : Summary)
      → ((headers sig_body : Text) (sig : A.DetachedSignature) (ss : List Signature)
          → o ≡ some (headers, sig_body)
          → A.read_signature (extract_armored_detached_signature_blob sig_body) ≡ gave sig
          → A.verify_detached (codec.encode part) sig keys ≡ gave ss
          → By ss)
      → s.status ≡ verified
      → signature_part U codec P A keys part o ≡ checked s
      → Stage keys By
  unfolding signature_part
  signature-Stage keys part By none s f v h = absurd (bad-ne (lit "signature part malformed") s v h)
  signature-Stage keys part By (some (headers, sig_body)) s f v h =
      blob-Stage keys part (extract_armored_detached_signature_blob sig_body) By s
        (λ sig ss e k. f headers sig_body sig ss refl e k) v h

  parts-Stage :
      (keys : List P.Public) (body content_type : Text) (parts : List Text) (s : Summary)
      → split_mime_parts_loose body (extract_mime_boundary content_type) ≡ parts
      → s.status ≡ verified
      → verify_parts U codec P A keys parts ≡ checked s
      → Stage keys (Verified keys body content_type)
  unfolding verify_parts
  parts-Stage keys body content_type [] s e v h =
      absurd (bad-ne (lit "multipart/signed missing parts") s v h)
  parts-Stage keys body content_type (part ∷ []) s e v h =
      absurd (bad-ne (lit "multipart/signed missing parts") s v h)
  parts-Stage keys body content_type (part ∷ raw ∷ rest) s e v h =
      signature-Stage keys part (Verified keys body content_type) (cut_headers raw) s
        (λ headers sig_body sig ss cut r k.
          by_detached part raw headers sig_body rest sig e cut r k)
        v h

  multipart-Stage :
      (keys : List P.Public) (body content_type : Text) (s : Summary)
      → s.status ≡ verified
      → verify_multipart U codec P A keys content_type body ≡ checked s
      → Stage keys (Verified keys body content_type)
  unfolding verify_multipart
  multipart-Stage keys body content_type s v h =
      elim (Bool-cases (truthy (extract_mime_boundary content_type))) [
        | inl t ↦
            parts-Stage keys body content_type
              (split_mime_parts_loose body (extract_mime_boundary content_type)) s refl v
              (rw t at h)
        | inr t ↦ absurd (bad-ne (lit "multipart/signed missing boundary") s v (rw t at h))
      ]

  clear-Stage :
      (keys : List P.Public) (By : List Signature → Type 0) (a : Attempt A.Cleartext) (s : Summary)
      → ((c : A.Cleartext) (ss : List Signature)
          → a ≡ gave c
          → A.verify_cleartext c keys ≡ gave ss
          → By ss)
      → s.status ≡ verified
      → cleartext_signatures U codec P A keys a ≡ checked s
      → Stage keys By
  unfolding cleartext_signatures
  clear-Stage keys By (threw why) s f v h = absurd (bad-ne why s v h)
  clear-Stage keys By (gave c) s f v h =
      summarized-Stage keys By (A.verify_cleartext c keys) s (λ ss e. f c ss refl e) v h

  block-Stage :
      (keys : List P.Public) (body content_type : Text) (s : Summary)
      → s.status ≡ verified
      → verify_cleartext_block U codec P A keys
          (extract_armored_cleartext_signed_block (trim_start body))
        ≡ checked s
      → Stage keys (Verified keys body content_type)
  unfolding verify_cleartext_block
  block-Stage keys body content_type s v h =
      let block = extract_armored_cleartext_signed_block (trim_start body) in
      elim (Bool-cases (truthy block && A.has_cleartext)) [
        | inl t ↦
            clear-Stage keys (Verified keys body content_type) (A.read_cleartext block) s
              (λ c ss r k. by_cleartext c r k) v (rw t at h)
        | inr t ↦ absurd (null-ne s (rw t at h))
      ]
    where
      null-ne : (s : Summary) → no_signed_payload ≡ checked s → ⊥
      null-ne s h = cc (h)

  cut-IsVerified :
      (message : Text) (source : KeySource) (keys : List P.Public) (o : Option (Text × Text))
      (s : Summary)
      → read_verification_keys P A source ≡ some keys
      → cut_headers message ≡ o
      → s.status ≡ verified
      → verify_cut U codec P A keys o ≡ checked s
      → IsVerified message source
  unfolding verify_cut
  cut-IsVerified message source keys none s r c v h = cc (h)
  cut-IsVerified message source keys (some (headers, body)) s r c v h =
      let content_type = extract_content_type_value headers in
      let stage : Stage keys (Verified keys body (extract_content_type_value headers)) =
        elim (Bool-cases (is_signed_multipart U codec P A content_type)) [
          | inl t ↦ multipart-Stage keys body content_type s v (rw t at h)
          | inr t ↦ block-Stage keys body content_type s v (rw t at h)
        ] in
      record {
        keys = keys;
        signatures = stage.signatures;
        headers = headers;
        body = body;
        given = r;
        some_key = stage.some_key;
        cut = c;
        by = stage.by;
        passing = stage.passing;
      }

  with-IsVerified :
      (message : Text) (source : KeySource) (o : Option (List P.Public)) (s : Summary)
      → read_verification_keys P A source ≡ o
      → s.status ≡ verified
      → verify_with U codec P A message o ≡ checked s
      → IsVerified message source
  unfolding verify_with
  with-IsVerified message source none s r v h = cc (h)
  with-IsVerified message source (some []) s r v h = cc (h)
  with-IsVerified message source (some (k ∷ ks)) s r v h =
      cut-IsVerified message source (k ∷ ks) (cut_headers message) s r refl v h

  -- A nested payload gets the status "verified" only if at least one verification key was given,
  -- the message splits into headers and a body, and OpenPGP.js checked, against these keys, either
  -- the signature in the second part of the body on the first part or a cleartext block of the
  -- body, and one of the signatures it gave passes.
  pub verify_nested-IsVerified :
      (message : Text) (source : KeySource) (s : Summary)
      → verify_nested_signed_payload U codec P A message source ≡ checked s
      → s.status ≡ verified
      → IsVerified message source
  unfolding verify_nested_signed_payload
  verify_nested-IsVerified message source s h v = elim (Bool-cases P.loaded) [
    | inl t ↦
        with-IsVerified message source (read_verification_keys P A source) s refl v (rw t at h)
    | inr t ↦ absurd (null-ne s (rw t at h))
  ]
    where
      null-ne : (s : Summary) → no_signed_payload ≡ checked s → ⊥
      null-ne s h = cc (h)
