-- ===== src/Messages/Tests/Reading.antt =====
-- Witnesses for the signatures, the MIME parts and the nested payloads of static/auth/unlock.js.
use mathlib.Core.List.Memᴰ
use elvish_email.Base.{◌≡◌, refl, true, Option, none, some, [], ◌∷◌, ◌++◌, inr, All, arith}
use elvish_email.Base.Text.{Text, lit, truthy, ascii, trim_start, is_space, slice_last}
use elvish_email.Vault.Fingerprint.{fingerprint_key_id16, normalize_fingerprint, strip_spaces}
use elvish_email.Base.Scan.{split_on, normalize_newlines}
use elvish_email.Messages.Armor.{extract_armored_cleartext_signed_block, extract_block, first_of}
use elvish_email.Messages.Signatures.{
  check_signatures, signer_ids, fingerprint_from_verification_keys, Signature, Summary, rejected,
  summarize_signature_verification, verified, key_fingerprint, signature_key_id_hex,
}
use elvish_email.Messages.Signatures.Laws.{Means, summarize-Means, verified_by_other}
use elvish_email.Messages.Mime.Headers.{
  extract_content_type_value, parse_mime_headers, is_name_char, is_terminator,
}
use elvish_email.Messages.Mime.Headers.Laws.{
  Header, IsHeader, parse_mime_headers-join, join, all_lines, collect,
}
use elvish_email.Messages.Mime.Transfer.{quoted_printable_to_bytes, hex_value}
use elvish_email.Messages.Mime.Transfer.Laws.{Encodes, quoted_printable-Encodes}
use elvish_email.Messages.Api.{single}
use elvish_email.Messages.Nested.{is_signed_multipart, verify_nested_signed_payload, checked}
use elvish_email.Messages.Nested.Laws.{IsVerified, verify_nested-IsVerified}
use elvish_email.Messages.Tests.{bytes_codec, plain, echo, good, messages}

abbrev forged : Signature
forged = record { key_id = some (lit "ab12"); verdict = rejected none }

summarize-Means_example :
    Means
      (summarize_signature_verification ascii
        (λ (k : Text). some k)
        (forged ∷ [])
        (lit "ab12" ∷ [])).status
      (forged ∷ [])
      (lit "ab12" ∷ [])
summarize-Means_example =
    summarize-Means ascii (λ (k : Text). some k) (forged ∷ []) (lit "ab12" ∷ [])

-- "=4A", a soft line break, and "a".
abbrev written : Text
written = 61 ∷ 52 ∷ 65 ∷ 61 ∷ 10 ∷ 97 ∷ []

written-Encodes : Encodes written (74 ∷ 97 ∷ [])
unfolding hex_value
written-Encodes =
    Encodes.escape refl refl
      (Encodes.soft_lf (Encodes.literal (λ e. omega (arith, e)) (omega arith) Encodes.end))

quoted_printable-Encodes_example : quoted_printable_to_bytes written ≡ 74 ∷ 97 ∷ []
quoted_printable-Encodes_example = quoted_printable-Encodes written-Encodes

abbrev a_header : Header
a_header = record { name = lit "To"; value = lit "me"; folds = lit "you" ∷ [] }

writable : All IsHeader (a_header ∷ [])
unfolding lit is_name_char trim_start is_space is_terminator
writable = (
  record {
    named = refl;
    name_chars = refl;
    value_start = refl;
    value_line = refl;
    fold_lines = (refl, tt);
  },
  tt,
)

parse_mime_headers-join_example :
    parse_mime_headers (join (all_lines (a_header ∷ []))) ≡ some (collect (a_header ∷ []) [])
parse_mime_headers-join_example = parse_mime_headers-join a_header [] writable

abbrev own_fingerprint : Text → Option Text
own_fingerprint k = some k

forged-same_id :
    (truthy (key_fingerprint ascii own_fingerprint (lit "AB12")) ≡ true)
    × (truthy (signature_key_id_hex ascii forged) ≡ true)
    × (signature_key_id_hex ascii forged
        ≡ fingerprint_key_id16 ascii (key_fingerprint ascii own_fingerprint (lit "AB12")))
unfolding lit key_fingerprint signature_key_id_hex fingerprint_key_id16 normalize_fingerprint
    strip_spaces slice_last is_space
forged-same_id = (refl, refl, refl)

verified_by_other_example :
    let s =
      summarize_signature_verification ascii own_fingerprint
        (forged ∷ good ∷ [])
        (lit "AB12" ∷ []) in
    (s.status ≡ verified)
    × (s.signer_fingerprint ≡ key_fingerprint ascii own_fingerprint (lit "AB12"))
verified_by_other_example =
    verified_by_other ascii own_fingerprint forged good (good ∷ []) (lit "AB12") [] none refl
      (Memᴰ.head refl) (inr refl) forged-same_id.0 forged-same_id.1 forged-same_id.2

-- A cleartext block behind its headers.
abbrev signed_text : Text
signed_text =
    lit "Content-Type: text/plain"
    ++ (10 ∷ 10 ∷ (lit "-----BEGIN PGP SIGNED MESSAGE-----" ++ lit "-----END PGP SIGNATURE-----"))

abbrev good_summary : Summary
good_summary = record {
  status = verified;
  signed = true;
  signer_key_ids = lit "EF56" ∷ [];
  signer_fingerprint = lit "EF56";
  error = [];
}

verifies :
    verify_nested_signed_payload ascii bytes_codec plain echo signed_text (single (lit "EF56"))
    ≡ checked good_summary
unfolding messages is_signed_multipart extract_content_type_value split_on normalize_newlines
    is_terminator extract_armored_cleartext_signed_block extract_block first_of check_signatures
    signer_ids fingerprint_from_verification_keys key_fingerprint
verifies = refl

verify_nested-IsVerified_example :
    IsVerified ascii bytes_codec plain echo signed_text (single (lit "EF56"))
verify_nested-IsVerified_example =
    verify_nested-IsVerified ascii bytes_codec plain echo signed_text (single (lit "EF56"))
      good_summary verifies refl
