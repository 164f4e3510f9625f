-- ===== src/Vault/Unlock/Invariant.antt =====
-- The invariant of the vault when each of its operations runs without interruption, and the round
-- trip of an unlocked identity.
use elvish_email.Base.{ℕ, ◌≡◌, refl, true, Option, none, some, List, [], ◌∷◌, sym, ap}
use mathlib.Core.Path.{subst}
use elvish_email.Base.Text.{Text, text_eq_refl, truthy, Unicode}
use elvish_email.Base.Dict.{get, get-put}
use elvish_email.Vault.State.{
  OpenPgp, Identity, State, touch, zero_state, set_idle_ms, default_idle_ms,
}
use elvish_email.Vault.Fingerprint.{fingerprint_key_id16}
use elvish_email.Vault.Unlock.{
  Result, ok, err, IdRow, open_identity, store_identity, store_opened, with_account,
  unlock_identity, ensure_identity_unlocked, get_identity, hydrate_unlocked_account,
}
use elvish_email.Vault.Unlock.Consistent.{
  IsConsistent, touch-IsConsistent, unlock-IsConsistent, ensure-IsConsistent,
}
use elvish_email.Vault.Unlock.Laws.{hydrate-IsUnlockedWith, hydrate-err_keeps}

module _ (U : Unicode) (P : OpenPgp) where
  -- One uninterrupted operation.
  pub data Event : Type 0 where
    touched : ℕ → Event
    zeroed : Event
    idle_set : ℕ → Event
    account_unlocked : ℕ → Text → Text → Text → Event
    identity_unlocked : ℕ → IdRow → Event
    identity_ensured : ℕ → Text → List IdRow → Event
    identity_read : ℕ → Text → Event

  unfoldable pub handle : Event → State P → State P
  handle (touched now) s = touch P now s
  handle zeroed s = zero_state P s
  handle (idle_set ms) s = set_idle_ms P ms s
  handle (account_unlocked now priv public expected) s =
      (hydrate_unlocked_account U P now priv public expected s).1
  handle (identity_unlocked now row) s = (unlock_identity U P now row s).1
  handle (identity_ensured now fp rows) s = (ensure_identity_unlocked U P now fp rows s).1
  handle (identity_read now fp) s = (get_identity U P now fp s).1

  pub handle_all : List Event → State P → State P
  handle_all [] s = s
  handle_all (e ∷ es) s = handle_all es (handle e s)

  -- What `pgpFingerprint` relies on: it reads the key itself.
  abbrev pub ReadsKeys : Type 0
  ReadsKeys = (a f : Text) → P.pgp_fingerprint a ≡ some f → (k : P.Public) × (P.read_key a ≡ some k)

  hydrate-IsConsistent :
      (now : ℕ) (priv public expected : Text) (s : State P)
      → ReadsKeys
      → IsConsistent U P s
      → IsConsistent U P (hydrate_unlocked_account U P now priv public expected s).1
  hydrate-IsConsistent now priv public expected s readable i =
      go (hydrate_unlocked_account U P now priv public expected s).0
        (hydrate_unlocked_account U P now priv public expected s).1 refl
    where
      go :
          (r : Result Text) (t : State P)
          → hydrate_unlocked_account U P now priv public expected s ≡ (r, t)
          → IsConsistent U P t
      go (err e) t h =
          subst (IsConsistent U P)
            (sym (hydrate-err_keeps U P now priv public expected s t e readable h)) i
      go (ok fp) t h =
          let u = hydrate-IsUnlockedWith U P now priv public expected s t fp h in
          record {
            locked = λ e. u.no_identities;
            default_held = λ e. absurd (cc (ap truthy u.no_default, e));
          }

  handle-IsConsistent :
      (e : Event) (s : State P) → ReadsKeys → IsConsistent U P s → IsConsistent U P (handle e s)
  unfolding handle
  handle-IsConsistent (touched now) s k i = touch-IsConsistent U P now s i
  handle-IsConsistent zeroed s k i =
      unfold zero_state in record { locked = λ e. refl; default_held = λ e. cc }
  handle-IsConsistent (idle_set ms) s k i =
      unfold set_idle_ms in record { locked = i.locked; default_held = i.default_held }
  handle-IsConsistent (account_unlocked now priv public expected) s k i =
      hydrate-IsConsistent now priv public expected s k i
  handle-IsConsistent (identity_unlocked now row) s k i = unlock-IsConsistent U P now row s i
  handle-IsConsistent (identity_ensured now fp rows) s k i = ensure-IsConsistent U P now fp rows s i
  handle-IsConsistent (identity_read now fp) s k i =
      unfold get_identity in touch-IsConsistent U P now s i

  -- The state of a page that was just loaded.
  abbrev pub initial_state : State P
  initial_state = record {
    account_private_key = none;
    account_public_key = none;
    account_armored_priv = [];
    account_fingerprint = [];
    identities = [];
    default_identity_fingerprint = [];
    last_touch_ms = 0;
    idle_ms = default_idle_ms;
    timer = none;
  }

  handle_all-keeps :
      (es : List Event) (s : State P)
      → ReadsKeys
      → IsConsistent U P s
      → IsConsistent U P (handle_all es s)
  unfolding handle_all
  handle_all-keeps [] s k i = i
  handle_all-keeps (e ∷ es) s k i = handle_all-keeps es (handle e s) k (handle-IsConsistent e s k i)

  -- As long as every operation runs without interruption, and a key whose fingerprint can be read
  -- can be read, a locked vault holds no identity, and the default identity is one that the vault
  -- holds.
  pub handle_all-IsConsistent :
      (es : List Event) → ReadsKeys → IsConsistent U P (handle_all es initial_state)
  handle_all-IsConsistent es k =
      handle_all-keeps es initial_state k (record { locked = λ e. refl; default_held = λ e. cc })

  unlocked-lookup :
      (now : ℕ) (row : IdRow) (s t : State P) (key : Text) (r : Result (Text × Identity P))
      → store_opened U P now row r s ≡ (ok key, t)
      → (ident : Identity P) × (r ≡ ok (key, ident)) × (get key t.identities ≡ some ident)
  unfolding store_opened store_identity touch
  unlocked-lookup now row s t key (err e) h =
      absurd (cc (ap (λ (z : Result Text × State P). z.0) h))
  unlocked-lookup now row s t key (ok (k, ident)) h =
      let same : k ≡ key = cc (ap (λ (z : Result Text × State P). z.0) h) in
      let ids = ap (λ (z : Result Text × State P). z.1.identities) h in
      (
        ident,
        ap (λ (j : Text). ok (j, ident)) same,
        rw (← ids) (rw same (rw (get-put key key ident s.identities) (rw (text_eq_refl key)))),
      )

  -- An identity that was unlocked, with the account key that the vault held, is found by every
  -- fingerprint that has its key id.
  pub get_identity-unlock :
      (now later : ℕ) (row : IdRow) (s t : State P) (key fp : Text)
      → unlock_identity U P now row s ≡ (ok key, t)
      → truthy fp ≡ true
      → truthy key ≡ true
      → fingerprint_key_id16 U (U.upper fp) ≡ key
      → (account : P.Private) × (ident : Identity P) × (s.account_private_key ≡ some account)
        × (open_identity U P account row ≡ ok (key, ident))
        × ((get_identity U P later fp t).0 ≡ some ident)
  unfolding unlock_identity get_identity
  get_identity-unlock now later row s t key fp h tf tk same = go s.account_private_key refl h
    where
      go :
          (o : Option P.Private)
          → s.account_private_key ≡ o
          → with_account U P now row o s ≡ (ok key, t)
          → (account : P.Private) × (ident : Identity P) × (s.account_private_key ≡ some account)
            × (open_identity U P account row ≡ ok (key, ident))
            × ((get_identity U P later fp t).0 ≡ some ident)
      go none a e = absurd (cc (ap (λ (z : Result Text × State P). z.0) e))
      go (some account) a e =
          let (ident, opened, stored) =
            unlocked-lookup now row s t key (open_identity U P account row) e in
          (account, ident, a, opened, rw (tf, tf, same, tk) stored)
