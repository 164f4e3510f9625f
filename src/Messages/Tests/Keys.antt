-- ===== src/Messages/Tests/Keys.antt =====
-- Witnesses for decrypting and the keys of static/auth/unlock.js.
use elvish_email.Base.{◌≡◌, refl, true, false, none, some, List, [], ◌∷◌}
use elvish_email.Base.Text.{lit, ascii}
use elvish_email.Vault.State.{Identity, State, is_unlocked}
use elvish_email.Vault.Unlock.{ok, IdRow, get_identity}
use elvish_email.Vault.Unlock.Consistent.{IsConsistent}
use elvish_email.Base.Scan.{normalize_newlines}
use elvish_email.Messages.Armor.{
  extract_block, first_of, extract_armored_block, looks_like_armored_message,
}
use elvish_email.Messages.Mime.Payload.{extract_pgp_mime_payload}
use elvish_email.Messages.Signatures.{summarize_signature_verification}
use elvish_email.Messages.Api.{text, single}
use elvish_email.Messages.Decrypt.{Opened, open_message, decrypt_to_result, try_default_decrypt}
use elvish_email.Messages.Decrypt.Laws.{Decrypts, try_default_decrypt-Decrypts}
use elvish_email.Messages.Decrypt.Opening.{IsOpening, decrypt_to_result-IsOpening}
use elvish_email.Messages.Keys.{encrypt_and_sign_to_recipient}
use elvish_email.Messages.Keys.Laws.{
  Call, decrypt_any, encrypt_signed, after_calls, after_calls-IsConsistent,
}
use elvish_email.Messages.Keys.Locked.{needs_private_key, refuses, locked-refuses}
use elvish_email.Messages.Keys.Signing.{IsSigned, encrypt_and_sign-IsSigned}
use elvish_email.Messages.Tests.{bytes_codec, plain, echo, messages}

abbrev row : IdRow
row = record {
  fingerprint = lit "ef56";
  email = lit "me@elvish.email";
  armored_public = lit "EF56";
  wrapped_secret_armored = lit "EF56";
  wrapped_secret_b64 = [];
  is_default = false;
}

abbrev default_of_rows : IdRow
default_of_rows = record row {
  fingerprint = lit "cd34";
  armored_public = lit "CD34";
  wrapped_secret_armored = lit "CD34";
  is_default = true;
}

abbrev empty_vault : State plain
empty_vault = record {
  account_private_key = none;
  account_public_key = none;
  account_armored_priv = [];
  account_fingerprint = [];
  identities = [];
  default_identity_fingerprint = [];
  last_touch_ms = 0;
  idle_ms = 60000;
  timer = none;
}

abbrev open_vault : State plain
open_vault = record empty_vault {
  account_private_key = some (lit "AB12");
  account_armored_priv = lit "AB12";
}

try_default_decrypt-Decrypts_example :
    let r =
      try_default_decrypt ascii bytes_codec plain echo 7
        (text (lit "EF56 hi"))
        (row ∷ [])
        open_vault in
    Decrypts ascii bytes_codec plain echo 7 (text (lit "EF56 hi")) (row ∷ []) open_vault r.0 r.1
try_default_decrypt-Decrypts_example =
    try_default_decrypt-Decrypts ascii bytes_codec plain echo 7 (text (lit "EF56 hi")) (row ∷ [])
      open_vault

abbrev greeting : Opened
greeting = record {
  data_text = lit "EF56 hi";
  verification = summarize_signature_verification ascii echo.public_fingerprint [] [];
}

abbrev after_greeting : State plain
after_greeting =
    (decrypt_to_result ascii bytes_codec plain echo 7 (text (lit "EF56 hi")) (lit "ef56") (row ∷ [])
      (single []) open_vault).1

decrypts :
    decrypt_to_result ascii bytes_codec plain echo 7
      (text (lit "EF56 hi"))
      (lit "ef56")
      (row ∷ [])
      (single [])
      open_vault
    ≡ (ok greeting, after_greeting)
unfolding messages open_message extract_armored_block extract_block first_of
    looks_like_armored_message extract_pgp_mime_payload normalize_newlines
decrypts = refl

decrypt_to_result-IsOpening_example :
    (i : Identity plain) × ((get_identity ascii plain 7 (ascii.upper (lit "ef56")) after_greeting).0
      ≡ some i)
    × IsOpening ascii bytes_codec plain echo i.private_key
        (text (lit "EF56 hi"))
        (single [])
        greeting
decrypt_to_result-IsOpening_example =
    decrypt_to_result-IsOpening ascii bytes_codec plain echo 7 (text (lit "EF56 hi")) (lit "ef56")
      (row ∷ []) (single []) open_vault after_greeting greeting decrypts

abbrev after_signing : State plain
after_signing =
    (encrypt_and_sign_to_recipient ascii bytes_codec plain echo 8 (lit "CD34") (text (lit "hi"))
      (lit "ef56") (row ∷ []) open_vault).1

signs :
    encrypt_and_sign_to_recipient ascii bytes_codec plain echo 8
      (lit "CD34")
      (text (lit "hi"))
      (lit "ef56")
      (row ∷ [])
      open_vault
    ≡ (ok (lit "CD34"), after_signing)
unfolding messages
signs = refl

encrypt_and_sign-IsSigned_example :
    (i : Identity plain) × ((get_identity ascii plain 8 (ascii.upper (lit "ef56")) after_signing).0
      ≡ some i)
    × IsSigned ascii bytes_codec plain echo i.private_key
        (lit "CD34")
        (text (lit "hi"))
        (lit "CD34")
encrypt_and_sign-IsSigned_example =
    encrypt_and_sign-IsSigned ascii bytes_codec plain echo 8 (lit "CD34") (text (lit "hi"))
      (lit "ef56") (row ∷ []) open_vault after_signing (lit "CD34") signs

empty-IsConsistent : IsConsistent ascii plain empty_vault
empty-IsConsistent = record { locked = λ e. refl; default_held = λ e. cc }

open-IsConsistent : IsConsistent ascii plain open_vault
open-IsConsistent = record { locked = λ e. cc; default_held = λ e. cc }

abbrev use_of_keys : List Call
use_of_keys =
    decrypt_any 7 (text (lit "EF56 hi")) (row ∷ [])
    ∷ encrypt_signed 8 (lit "CD34") (text (lit "hi")) (lit "ef56") (row ∷ [])
    ∷ []

after_calls-IsConsistent_example :
    IsConsistent ascii plain (after_calls ascii bytes_codec plain echo use_of_keys open_vault)
after_calls-IsConsistent_example =
    after_calls-IsConsistent ascii bytes_codec plain echo use_of_keys open_vault open-IsConsistent

locked-refuses_example :
    refuses ascii bytes_codec plain echo
      (decrypt_any 7 (text (lit "EF56 hi")) (row ∷ []))
      empty_vault
    ≡ true
unfolding needs_private_key
locked-refuses_example =
    locked-refuses ascii bytes_codec plain echo (decrypt_any 7 (text (lit "EF56 hi")) (row ∷ []))
      empty_vault empty-IsConsistent is_locked refl
  where
    is_locked : is_unlocked plain empty_vault ≡ false
    is_locked = unfold messages in refl
