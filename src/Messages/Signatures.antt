-- ===== src/Messages/Signatures.antt =====
-- static/auth/unlock.js: the summary of the signatures on a message. The signatures and the keys are
-- those of OpenPGP.js; a signature that is null counts as one without an id and without a promise.
pub mod Laws
use elvish_email.Base.{
  ℕ, Bool, true, false, not, ◌&&◌, ◌||◌, Option, none, some, List, [], ◌∷◌, if◌then◌else◌, any,
}
use elvish_email.Base.Text.{Text, lit, text_eq, truthy, Unicode}
use elvish_email.Vault.Fingerprint.{normalize_fingerprint, fingerprint_key_id16}

-- The promise `verified`: absent, fulfilled, or rejected with the text of its reason (`none` where
-- the reason is falsy).
pub data Verdict : Type 0 where
  no_promise fulfilled : Verdict
  rejected : Option Text → Verdict

-- `key_id` is `keyID.toHex()`, `none` where there is none or it throws.
pub record Signature : Type 0 where
  pub key_id : Option Text
  pub verdict : Verdict

pub data Status : Type 0 where
  unsigned missing_public_key verified bad_signature : Status

pub record Summary : Type 0 where
  pub status : Status
  pub signed : Bool
  pub signer_key_ids : List Text
  pub signer_fingerprint : Text
  pub error : Text

-- How the loop over the signatures ends: at one that passes, or with the first reason.
pub data Loop : Type 0 where
  passed : Loop
  failed : Option Text → Loop

abbrev first_reason : Option Text → Option Text → Option Text
first_reason none e = e
first_reason (some r) e = some r

-- One signature, with what the loop gives for the others.
after_verdict : Verdict → (Option Text → Loop) → Option Text → Loop
after_verdict no_promise others first = passed
after_verdict fulfilled others first = passed
after_verdict (rejected e) others first = others (first_reason first e)

unfoldable pub check_signatures : List Signature → Option Text → Loop
unfolding after_verdict
check_signatures [] first = failed first
check_signatures (s ∷ ss) first = after_verdict s.verdict (check_signatures ss) first

abbrev reason_or : Option Text → Text
reason_or none = lit "signature verification failed"
reason_or (some r) = r

unfoldable pub truthy_texts : List Text → List Text
truthy_texts [] = []
truthy_texts (t ∷ ts) = let rest = truthy_texts ts in if truthy t then t ∷ rest else rest

abbrev is_empty {ℓ} : {A : Type ℓ} → List A → Bool
is_empty [] = true
is_empty (x ∷ xs) = false

module _ (U : Unicode) where
  unfoldable pub signature_key_id_hex : Signature → Text
  signature_key_id_hex s = elim s.key_id [ none ↦ [] | some t ↦ U.upper t ]

  key_ids : List Signature → List Text
  unfolding signature_key_id_hex
  key_ids [] = []
  key_ids (s ∷ ss) = signature_key_id_hex s ∷ key_ids ss

  unfoldable pub signer_ids : List Signature → List Text
  unfolding truthy_texts key_ids
  signer_ids ss = truthy_texts (key_ids ss)

module _ (U : Unicode) {K : Type 0} (get_fingerprint : K → Option Text) where
  -- The normal form of a key's fingerprint; a key that throws has none.
  unfoldable pub key_fingerprint : K → Text
  key_fingerprint k = elim (get_fingerprint k) [ none ↦ [] | some t ↦ normalize_fingerprint U t ]

  unfoldable pub fingerprint_from_verification_keys : List K → List Text → Text
  fingerprint_from_verification_keys [] ids = []
  fingerprint_from_verification_keys (k ∷ ks) ids =
      let rest = fingerprint_from_verification_keys ks ids in
      let fp = key_fingerprint k in
      let fits = is_empty ids || any (λ id. text_eq id (fingerprint_key_id16 U fp)) ids in
      if truthy fp && fits then fp else rest

  summarize_loop : List Signature → List K → Loop → Summary
  summarize_loop ss ks passed = record {
    status = verified;
    signed = true;
    signer_key_ids = signer_ids U ss;
    signer_fingerprint = fingerprint_from_verification_keys ks (signer_ids U ss);
    error = [];
  }
  summarize_loop ss ks (failed reason) = record {
    status = bad_signature;
    signed = true;
    signer_key_ids = signer_ids U ss;
    signer_fingerprint = fingerprint_from_verification_keys ks (signer_ids U ss);
    error = reason_or reason;
  }

  unfoldable pub summarize_signature_verification : List Signature → List K → Summary
  unfolding summarize_loop
  summarize_signature_verification [] ks = record {
    status = unsigned;
    signed = false;
    signer_key_ids = [];
    signer_fingerprint = [];
    error = [];
  }
  summarize_signature_verification (s ∷ ss) [] = record {
    status = missing_public_key;
    signed = true;
    signer_key_ids = signer_ids U (s ∷ ss);
    signer_fingerprint = [];
    error = lit "signing key unavailable";
  }
  summarize_signature_verification (s ∷ ss) (k ∷ ks) =
      summarize_loop (s ∷ ss) (k ∷ ks) (check_signatures (s ∷ ss) none)
