-- ===== src/Messages/Nested.antt =====
-- static/auth/unlock.js: `splitMimePartsLoose` and `verifyNestedSignedPayloadAfterDecrypt`.
pub mod Laws
pub mod Parts
use elvish_email.Base.{
  ℕ, Bool, true, false, not, ◌&&◌, ◌||◌, Option, none, some, List, [], ◌∷◌, ◌++◌, ◌==◌, reverse,
  if◌then◌else◌,
}
use elvish_email.Base.Text.{Text, lit, text_eq, truthy, trim, trim_start, Unicode}
use elvish_email.Base.Scan.{
  after_prefix, split_first, split_on, includes_ci, take_while, drop_while, trim_end,
}
use elvish_email.Vault.State.{OpenPgp}
use elvish_email.Messages.Armor.{
  extract_armored_cleartext_signed_block, extract_armored_detached_signature_blob,
}
use elvish_email.Messages.Signatures.{
  Summary, bad_signature, Signature, summarize_signature_verification,
}
use elvish_email.Messages.Mime.Headers.{extract_content_type_value, extract_mime_boundary}
use elvish_email.Messages.Mime.Transfer.{Codec}
use elvish_email.Messages.Api.{Attempt, threw, gave, MessageApi, KeySource, read_verification_keys}

abbrev pub is_line_end : ℕ → Bool
is_line_end c = c == 13 || c == 10

-- The line end that follows the boundary.
unfoldable pub without_first_line_end : Text → Text
unfolding after_prefix
without_first_line_end p = elim (after_prefix (13 ∷ 10 ∷ []) p) [
  | some rest ↦ rest
  | none ↦ elim (after_prefix (10 ∷ []) p) [ some rest ↦ rest | none ↦ p ]
]

-- The reversed text behind the reversed dashes, or all of the text.
abbrev closed : Text → Option Text → Text
closed p none = p
closed p (some rest) = reverse rest

-- `p.replace(/--[\r\n]*$/, "")`
unfoldable pub without_closing_dashes : Text → Text
unfolding after_prefix drop_while
without_closing_dashes p = closed p (after_prefix (lit "--") (drop_while is_line_end (reverse p)))

unfoldable pub clean_part : Text → Text
unfolding without_first_line_end without_closing_dashes trim_end
clean_part p = trim_end (without_closing_dashes (without_first_line_end p))

unfoldable pub clean_parts : List Text → List Text
clean_parts [] = []
clean_parts (p ∷ ps) =
    let rest = clean_parts ps in
    let part = clean_part p in if truthy part then part ∷ rest else rest

-- All but the preamble.
abbrev behind_first : List Text → List Text
behind_first [] = []
behind_first (p ∷ ps) = ps

unfoldable pub split_mime_parts_loose : Text → Text → List Text
unfolding clean_parts split_on
split_mime_parts_loose body boundary =
    let b = trim boundary in
    if truthy b then clean_parts (behind_first (split_on (lit "--" ++ b) body)) else []

-- The header block and the body, at the first empty line.
unfoldable pub cut_headers : Text → Option (Text × Text)
unfolding split_first
cut_headers t = elim (split_first (13 ∷ 10 ∷ 13 ∷ 10 ∷ []) t) [
  | some (h, b) ↦ some (h, b)
  | none ↦ split_first (10 ∷ 10 ∷ []) t
]

-- How the function ends: the rejection of the keys, null, or a summary.
pub data Nested : Type 0 where
  bad_keys no_signed_payload : Nested
  checked : Summary → Nested

unfoldable pub bad : Text → Nested
bad why = checked (record {
  status = bad_signature;
  signed = true;
  signer_key_ids = [];
  signer_fingerprint = [];
  error = why;
})

module _ (U : Unicode) (codec : Codec) (P : OpenPgp) (A : MessageApi P) where
  summarized : List P.Public → Attempt (List Signature) → Nested
  summarized keys (threw why) = bad why
  summarized keys (gave ss) =
      checked (summarize_signature_verification U A.public_fingerprint ss keys)

  detached : List P.Public → Text → Attempt A.DetachedSignature → Nested
  unfolding summarized
  detached keys part (threw why) = bad why
  detached keys part (gave sig) = summarized keys (A.verify_detached (codec.encode part) sig keys)

  unfoldable pub verify_detached_part : List P.Public → Text → Text → Nested
  unfolding detached
  verify_detached_part keys part blob =
      if truthy blob
      then detached keys part (A.read_signature blob)
      else bad (lit "missing detached signature")

  signature_part : List P.Public → Text → Option (Text × Text) → Nested
  signature_part keys part none = bad (lit "signature part malformed")
  signature_part keys part (some (headers, body)) =
      verify_detached_part keys part (extract_armored_detached_signature_blob body)

  unfoldable pub verify_parts : List P.Public → List Text → Nested
  unfolding signature_part
  verify_parts keys [] = bad (lit "multipart/signed missing parts")
  verify_parts keys (part ∷ []) = bad (lit "multipart/signed missing parts")
  verify_parts keys (part ∷ raw ∷ rest) = signature_part keys part (cut_headers raw)

  verify_multipart : List P.Public → Text → Text → Nested
  verify_multipart keys content_type body =
      let boundary = extract_mime_boundary content_type in
      if truthy boundary
      then verify_parts keys (split_mime_parts_loose body boundary)
      else bad (lit "multipart/signed missing boundary")

  cleartext_signatures : List P.Public → Attempt A.Cleartext → Nested
  unfolding summarized
  cleartext_signatures keys (threw why) = bad why
  cleartext_signatures keys (gave c) = summarized keys (A.verify_cleartext c keys)

  verify_cleartext_block : List P.Public → Text → Nested
  unfolding cleartext_signatures
  verify_cleartext_block keys block =
      if truthy block && A.has_cleartext
      then cleartext_signatures keys (A.read_cleartext block)
      else no_signed_payload

  unfoldable pub is_signed_multipart : Text → Bool
  is_signed_multipart content_type =
      text_eq (U.lower (trim (take_while (λ c. not (c == 59)) content_type)))
        (lit "multipart/signed")
      && (includes_ci content_type (lit "application/pgp-signature")
          || includes_ci content_type (lit "application/x-pgp-signature"))

  verify_cut : List P.Public → Option (Text × Text) → Nested
  unfolding verify_multipart verify_cleartext_block
  verify_cut keys none = no_signed_payload
  verify_cut keys (some (headers, body)) =
      let content_type = extract_content_type_value headers in
      if is_signed_multipart content_type
      then verify_multipart keys content_type body
      else verify_cleartext_block keys (extract_armored_cleartext_signed_block (trim_start body))

  verify_with : Text → Option (List P.Public) → Nested
  unfolding verify_cut
  verify_with message none = bad_keys
  verify_with message (some []) = no_signed_payload
  verify_with message (some (k ∷ ks)) = verify_cut (k ∷ ks) (cut_headers message)

  unfoldable pub verify_nested_signed_payload : Text → KeySource → Nested
  unfolding verify_with
  verify_nested_signed_payload message source =
      if P.loaded
      then verify_with message (read_verification_keys P A source)
      else no_signed_payload
