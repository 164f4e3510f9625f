-- ===== src/Messages/Decrypt/Refused.antt =====
-- A vault without the account key does not decrypt.
use elvish_email.Base.{ℕ, ◌≡◌, false, List}
use elvish_email.Base.Text.{Text, Unicode}
use elvish_email.Vault.State.{OpenPgp, State, is_unlocked}
use elvish_email.Vault.Unlock.{err, account_locked, IdRow}
use elvish_email.Vault.Unlock.Refused.{ensure-locked}
use elvish_email.Messages.Mime.Transfer.{Codec}
use elvish_email.Messages.Api.{Content, MessageApi, KeySource}
use elvish_email.Messages.Decrypt.{open_ensured, decrypt_to_result}

pub decrypt_to_result-locked :
    (U : Unicode) (codec : Codec) (P : OpenPgp) (A : MessageApi P) (now : ℕ) (c : Content)
    (fp : Text) (rows : List IdRow) (source : KeySource) (s : State P)
    → is_unlocked P s ≡ false
    → decrypt_to_result U codec P A now c fp rows source s ≡ (err account_locked, s)
unfolding decrypt_to_result open_ensured
decrypt_to_result-locked U codec P A now c fp rows source s h =
    rw (ensure-locked U P now (U.upper fp) rows s h)
