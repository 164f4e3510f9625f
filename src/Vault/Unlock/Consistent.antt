-- ===== src/Vault/Unlock/Consistent.antt =====
-- The steps of static/auth/unlock.js that touch the vault or add an identity keep it consistent.
use elvish_email.Base.{
  ℕ, ◌≡◌, refl, Bool, true, false, not, ◌&&◌, ◌||◌, Option, none, some, List, [], if◌then◌else◌,
  is_some,
}
use elvish_email.Base.Text.{Text, text_eq, text_eq_refl, truthy, Unicode}
use elvish_email.Base.Dict.{Dict, get, put, get-put}
use elvish_email.Vault.State.{OpenPgp, Identity, State, touch, is_unlocked}
use elvish_email.Vault.Fingerprint.{fingerprint_key_id16}
use elvish_email.Vault.Unlock
use elvish_email.Vault.Unlock.{
  VaultError, Result, ok, err, IdRow, open_identity, store_identity, store_opened, with_account,
  unlock_identity, unlock_found, find_row, ensure_identity_unlocked, get_identity, get_by_key,
  hydrate_unlocked_account,
}

module _ (U : Unicode) (P : OpenPgp) where
  -- A locked vault holds no identity, and the default identity is one that the vault holds.
  pub record IsConsistent (s : State P) : Type 0 where
    pub locked : s.account_private_key ≡ none → s.identities ≡ []
    pub default_held :
        truthy s.default_identity_fingerprint ≡ true
        → is_some (get s.default_identity_fingerprint s.identities) ≡ true

  pub touch-IsConsistent : (now : ℕ) (s : State P) → IsConsistent s → IsConsistent (touch P now s)
  unfolding touch
  touch-IsConsistent now s i = record { locked = i.locked; default_held = i.default_held }

  held :
      (k key : Text) (ident : Identity P) (ids : Dict (Identity P))
      → is_some (get k ids) ≡ true
      → is_some (get k (put key ident ids)) ≡ true
  held k key ident ids h = rw (get-put key k ident ids) (go (text_eq key k))
    where
      go : (b : Bool) → is_some (if b then some ident else get k ids) ≡ true
      go true = refl
      go false = h

  pub held_self :
      (key : Text) (ident : Identity P) (ids : Dict (Identity P))
      → is_some (get key (put key ident ids)) ≡ true
  held_self key ident ids = rw (get-put key key ident ids) (rw (text_eq_refl key))

  store-IsConsistent :
      (now : ℕ) (row : IdRow) (key : Text) (ident : Identity P) (s : State P) (account : P.Private)
      → s.account_private_key ≡ some account
      → IsConsistent s
      → IsConsistent (store_identity U P now row key ident s)
  unfolding store_identity touch
  store-IsConsistent now row key ident s account a i = record {
    locked = λ e. absurd (cc (a, e));
    default_held = go (row.is_default || not (truthy s.default_identity_fingerprint)) refl;
  }
    where
      go :
          (b : Bool)
          → (row.is_default || not (truthy s.default_identity_fingerprint)) ≡ b
          → truthy (if b then key else s.default_identity_fingerprint) ≡ true
          → is_some
              (get (if b then key else s.default_identity_fingerprint) (put key ident s.identities))
            ≡ true
      go true e t = held_self key ident s.identities
      go false e t = held s.default_identity_fingerprint key ident s.identities (i.default_held t)

  pub unlock-IsConsistent :
      (now : ℕ) (row : IdRow) (s : State P)
      → IsConsistent s
      → IsConsistent (unlock_identity U P now row s).1
  unfolding unlock_identity
  unlock-IsConsistent now row s i = go s.account_private_key refl
    where
      opened :
          (account : P.Private)
          → s.account_private_key ≡ some account
          → (r : Result (Text × Identity P)) → IsConsistent (store_opened U P now row r s).1
      opened account a (err e) = i
      opened account a (ok (key, ident)) = store-IsConsistent now row key ident s account a i

      go :
          (o : Option P.Private)
          → s.account_private_key ≡ o
          → IsConsistent (with_account U P now row o s).1
      go none a = i
      go (some account) a = opened account a (open_identity U P account row)

  pub ensure-IsConsistent :
      (now : ℕ) (fp : Text) (rows : List IdRow) (s : State P)
      → IsConsistent s
      → IsConsistent (ensure_identity_unlocked U P now fp rows s).1
  unfolding ensure_identity_unlocked
  ensure-IsConsistent now fp rows s i = go (not (is_unlocked P s)) (not (truthy (U.upper fp))) (
      truthy (fingerprint_key_id16 U (U.upper fp))
      && is_some (get (fingerprint_key_id16 U (U.upper fp)) s.identities))
    where
      found : (o : Option IdRow) → IsConsistent (unlock_found U P now o s).1
      found none = i
      found (some row) = choose (
          not (truthy row.armored_public)
          || (not (truthy row.wrapped_secret_b64) && not (truthy row.wrapped_secret_armored)))
        where
          choose :
              (b : Bool)
              → IsConsistent
                  (if b then (err Unlock.no_wrapped_key, s) else unlock_identity U P now row s).1
          choose true = i
          choose false = unlock-IsConsistent now row s i

      go :
          (a b c : Bool)
          → IsConsistent
              (if a
                then (err Unlock.account_locked, s)
                else if b
                then (err Unlock.missing_fingerprint, s)
                else if c
                then (ok (fingerprint_key_id16 U (U.upper fp)), s)
                else unlock_found U P now (find_row U P (U.upper fp) rows) s).1
      go true b c = i
      go false true c = i
      go false false true = i
      go false false false = found (find_row U P (U.upper fp) rows)
