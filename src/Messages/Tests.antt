-- ===== src/Messages/Tests.antt =====
-- Witnesses for the messages of static/auth/unlock.js. A text is its own bytes, a key is its own
-- fingerprint, and a message is decrypted by the key that it starts with.
mod Reading
mod Keys
use mathlib.Core.List.Memᴰ
use elvish_email.Base.{
  ◌≡◌, refl, true, false, Option, none, some, List, [], ◌∷◌, ◌++◌, inr, All, arith, if◌then◌else◌,
}
use elvish_email.Base.Text.{
  Text, lit, truthy, ascii, text_eq, trim, trim_start, is_space, slice_last, starts_with,
}
use elvish_email.Base.Dict.{get, put}
use elvish_email.Vault.Fingerprint.{
  fingerprint_key_id16, normalize_fingerprint, strip_spaces, fingerprints_equivalent,
}
use elvish_email.Vault.State.{OpenPgp, Identity, State, touch, is_unlocked}
use elvish_email.Vault.Unlock.{
  ok, IdRow, armored_wrapped, open_identity, store_identity, store_opened, with_account,
  unlock_identity, get_identity, get_by_key, find_row, ensure_identity_unlocked,
}
use elvish_email.Vault.Unlock.Consistent.{IsConsistent}
use elvish_email.Base.Scan.{split_on, normalize_newlines, split_first, take_while, includes_ci}
use elvish_email.Messages.Armor.{
  extract_armored_cleartext_signed_block, extract_block, first_of, extract_armored_block,
  looks_like_armored_message,
}
use elvish_email.Messages.Mime.Payload.{extract_pgp_mime_payload}
use elvish_email.Messages.Signatures.{
  check_signatures, signer_ids, fingerprint_from_verification_keys, Signature, Summary, fulfilled,
  rejected, summarize_signature_verification, verified, key_fingerprint, signature_key_id_hex,
}
use elvish_email.Messages.Signatures.Laws.{Means, summarize-Means, verified_by_other}
use elvish_email.Messages.Mime.Headers.{
  extract_content_type_value, parse_mime_headers, is_name_char, is_terminator,
}
use elvish_email.Messages.Mime.Headers.Laws.{
  Header, IsHeader, parse_mime_headers-join, join, all_lines, collect,
}
use elvish_email.Messages.Mime.Transfer.{Codec, quoted_printable_to_bytes, hex_value}
use elvish_email.Messages.Mime.Transfer.Laws.{Encodes, quoted_printable-Encodes}
use elvish_email.Messages.Api.{MessageApi, gave, text, single, read_verification_keys}
use elvish_email.Messages.Decrypt.{
  Opened, open_message, decrypt_to_result, usable_rows, row_candidates, row_fingerprints,
  default_row, try_default_decrypt,
}
use elvish_email.Messages.Decrypt.Laws.{
  IsLed, row_candidates-IsLed, Decrypts, try_default_decrypt-Decrypts,
}
use elvish_email.Messages.Decrypt.Opening.{IsOpening, decrypt_to_result-IsOpening}
use elvish_email.Messages.Keys.{encrypt_and_sign_to_recipient}
use elvish_email.Messages.Keys.Laws.{
  Call, decrypt_any, encrypt_signed, after_calls, after_calls-IsConsistent,
}
use elvish_email.Messages.Keys.Locked.{needs_private_key, refuses, locked-refuses}
use elvish_email.Messages.Keys.Signing.{IsSigned, encrypt_and_sign-IsSigned}
use elvish_email.Messages.Nested.{
  is_signed_multipart, cut_headers, clean_part, verify_nested_signed_payload, checked,
}
use elvish_email.Messages.Nested.Laws.{IsVerified, verify_nested-IsVerified}

abbrev pub bytes_codec : Codec
bytes_codec = record { encode = λ t. t; decode = λ b. b; atob = λ t. some t }

abbrev pub plain : OpenPgp
plain = record {
  Private = Text;
  Public = Text;
  Kek = Text;
  loaded = true;
  read_private_key = λ t. some t;
  read_key = λ t. some t;
  get_fingerprint = λ k. k;
  pgp_fingerprint = λ t. some t;
  decrypt = λ k t. some t;
  decode_b64 = λ t. some t;
  derive_kek = λ p k. some p;
  aes_unwrap = λ k t. some t;
}

abbrev pub good : Signature
good = record { key_id = some (lit "ef56"); verdict = fulfilled }

abbrev pub echo : MessageApi plain
echo = record {
  Message = Text;
  DetachedSignature = Text;
  Cleartext = Text;
  has_read_keys = false;
  has_cleartext = true;
  read_keys = λ t. some (t ∷ []);
  public_fingerprint = λ k. some k;
  read_armored = λ t. some t;
  read_binary = λ b. some b;
  decrypt_message = λ k m ks. if starts_with m k then some (m, []) else none;
  read_signature = λ t. gave t;
  verify_detached = λ bytes s ks. gave (good ∷ []);
  read_cleartext = λ t. gave t;
  verify_cleartext = λ c ks. gave (good ∷ []);
  encrypt_message = λ r s c. some r;
  encrypt_key = λ k p. some p;
  armor = λ k. k;
  digest = λ b. b;
}

pub messages : Unit {0}
unfolding lit text_eq is_space trim_start trim slice_last starts_with get put touch is_unlocked
    strip_spaces normalize_fingerprint fingerprint_key_id16 fingerprints_equivalent armored_wrapped
    open_identity store_identity store_opened with_account unlock_identity get_identity get_by_key
    find_row ensure_identity_unlocked read_verification_keys summarize_signature_verification
    split_first verify_nested_signed_payload cut_headers usable_rows default_row decrypt_to_result
    encrypt_and_sign_to_recipient take_while includes_ci
messages = tt
