-- ===== src/Messages/Decrypt/Consistent.antt =====
-- Decrypting keeps the vault consistent.
use elvish_email.Base.{ℕ, Bool, true, false, Option, none, some, List, [], ◌∷◌, if◌then◌else◌}
use elvish_email.Base.Text.{Text, Unicode}
use elvish_email.Vault.State.{OpenPgp, Identity, State, is_unlocked}
use elvish_email.Vault.Unlock.{
  VaultError, not_unlocked, none_decrypts, Result, err, ok, IdRow, ensure_identity_unlocked,
  get_identity,
}
use elvish_email.Vault.Unlock.Consistent.{IsConsistent, touch-IsConsistent, ensure-IsConsistent}
use elvish_email.Messages.Mime.Transfer.{Codec}
use elvish_email.Messages.Api.{Content, MessageApi, KeySource, single}
use elvish_email.Messages.Decrypt.{
  Opened, touch_after, open_with, open_ensured, open_message, decrypt_to_result, decrypt_to_string,
  try_next, try_each, candidates, try_default_decrypt,
}

module _ (U : Unicode) (codec : Codec) (P : OpenPgp) (A : MessageApi P) where
  abbrev pub Keeps : State P → Type 0
  Keeps s = IsConsistent U P s

  pub if-Keeps :
      {V : Type 0} (b : Bool) (x y : V × State P)
      → Keeps x.1
      → Keeps y.1
      → Keeps (if b then x else y).1
  if-Keeps true x y h k = h
  if-Keeps false x y h k = k

  pub read-Keeps :
      (now : ℕ) (fp : Text) (s : State P) → Keeps s → Keeps (get_identity U P now fp s).1
  unfolding get_identity
  read-Keeps now fp s i = touch-IsConsistent U P now s i

  with-Keeps :
      (now : ℕ) (c : Content) (source : KeySource) (o : Option (Identity P)) (s : State P)
      → Keeps s
      → Keeps (open_with U codec P A now c source o s).1
  unfolding open_with touch_after
  with-Keeps now c source none s i = i
  with-Keeps now c source (some ident) s i =
      go (open_message U codec P A ident.private_key c source)
    where
      go : (r : Result Opened) → Keeps (touch_after U codec P A now r s).1
      go (err e) = i
      go (ok r) = touch-IsConsistent U P now s i

  opened-Keeps :
      (now : ℕ) (fp : Text) (c : Content) (source : KeySource) (r : Result Text) (s : State P)
      → Keeps s
      → Keeps (open_ensured U codec P A now fp c source (r, s)).1
  unfolding open_ensured
  opened-Keeps now fp c source (err e) s i = i
  opened-Keeps now fp c source (ok key) s i =
      with-Keeps now c source (get_identity U P now fp s).0 (get_identity U P now fp s).1
        (read-Keeps now fp s i)

  pub one-Keeps :
      (now : ℕ) (c : Content) (fp : Text) (rows : List IdRow) (source : KeySource) (s : State P)
      → Keeps s
      → Keeps (decrypt_to_result U codec P A now c fp rows source s).1
  unfolding decrypt_to_result
  one-Keeps now c fp rows source s i =
      opened-Keeps now (U.upper fp) c source
        (ensure_identity_unlocked U P now (U.upper fp) rows s).0
        (ensure_identity_unlocked U P now (U.upper fp) rows s).1
        (ensure-IsConsistent U P now (U.upper fp) rows s i)

  each-Keeps :
      (now : ℕ) (c : Content) (rows : List IdRow) (fps : List Text) (why : VaultError) (s : State P)
      → Keeps s
      → Keeps (try_each U codec P A now c rows fps why s).1
  unfolding try_each decrypt_to_string
  each-Keeps now c rows [] why s i = i
  each-Keeps now c rows (fp ∷ fps) why s i =
      let t = (decrypt_to_string U codec P A now c fp rows s).1 in
      let k : Keeps t = one-Keeps now c fp rows (single []) s i in
      next (decrypt_to_string U codec P A now c fp rows s).0 t k
        (λ e. try_each U codec P A now c rows fps e t) (λ e. each-Keeps now c rows fps e t k)
    where
      next :
          (r : Result Text) (t : State P)
          → Keeps t
          → (rest : VaultError → Result (Text × Text) × State P)
          → ((e : VaultError) → Keeps (rest e).1)
          → Keeps (try_next U codec P A fp r t rest).1
      next (err e) t k rest h = h e
      next (ok d) t k rest h = k

  pub any-Keeps :
      (now : ℕ) (c : Content) (rows : List IdRow) (s : State P)
      → Keeps s
      → Keeps (try_default_decrypt U codec P A now c rows s).1
  unfolding try_default_decrypt
  any-Keeps now c rows s i =
      if-Keeps (is_unlocked P s)
        (try_each U codec P A now c rows (candidates U codec P A rows s) none_decrypts s)
        (err not_unlocked, s)
        (each-Keeps now c rows (candidates U codec P A rows s) none_decrypts s i) i
