-- ===== src/Messages/Decrypt/Laws.antt =====
-- What `tryDefaultDecrypt` returns, and in which order it tries.
use mathlib.Core.List.{Perm}
use mathlib.Core.List.Perm
use elvish_email.Base.{
  ℕ, ◌≡◌, inl, inr, refl, ap, true, false, List, [], ◌∷◌, ◌++◌, arith, Bool-cases,
}
use elvish_email.Base.Text.{Text, text_eq, text_eq_iff, text_eq_refl, truthy, Unicode}
use elvish_email.Vault.State.{OpenPgp, State, is_unlocked}
use elvish_email.Vault.Unlock.{VaultError, none_decrypts, not_unlocked, Result, err, ok, IdRow}
use elvish_email.Messages.Mime.Transfer.{Codec}
use elvish_email.Messages.Api.{Content, MessageApi}
use elvish_email.Messages.Decrypt.{
  usable_rows, remove_first, contains, move_front, row_fingerprints, default_row, row_candidates,
  decrypt_to_string, candidates, try_next, try_each, try_default_decrypt,
}

remove_first-Perm :
    (t : Text) (xs : List Text) → contains t xs ≡ true → Perm (t ∷ remove_first t xs) xs
unfolding contains remove_first
remove_first-Perm t [] h = cc
remove_first-Perm t (x ∷ xs) h = elim (Bool-cases (text_eq x t)) [
  | inl e ↦ rw e (rw ((text_eq_iff x t).0 e) (Perm.refl (t ∷ xs)))
  | inr e ↦ rw e (
      Perm.trans (Perm.swap x t (remove_first t xs))
        (Perm.cons x (remove_first-Perm t xs (rw e at h))))
]

-- The list starts with `t`, and has the members of the other in some order.
abbrev pub IsLed : Text → List Text → List Text → Type 0
IsLed t xs ys = (rest : List Text) × (xs ≡ t ∷ rest) × Perm xs ys

move_front-IsLed : (t : Text) (xs : List Text) → contains t xs ≡ true → IsLed t (move_front t xs) xs
unfolding contains move_front
move_front-IsLed t [] h = cc
move_front-IsLed t (x ∷ xs) h = elim (Bool-cases (text_eq x t)) [
  | inl e ↦ rw e (xs, ap (λ z. z ∷ xs) ((text_eq_iff x t).0 e), Perm.refl (x ∷ xs))
  | inr e ↦
      let later : contains t xs ≡ true = rw e at h in
      rw e (
        rw later (
          x ∷ remove_first t xs,
          refl,
          Perm.trans (Perm.swap x t (remove_first t xs))
              (Perm.cons x (remove_first-Perm t xs later)),
        ))
]

module _ (U : Unicode) where
  default_row-contains :
      (rows : List IdRow)
      → truthy (default_row U rows) ≡ true
      → contains (default_row U rows) (row_fingerprints U rows) ≡ true
  unfolding contains default_row row_fingerprints
  default_row-contains [] h = cc
  default_row-contains (r ∷ rs) h =
      ground (arith, h, default_row-contains rs, text_eq_refl (U.upper r.fingerprint))

  -- Where a usable row is the default and has a fingerprint, the candidates start with it and are a
  -- rearrangement of the fingerprints of the usable rows.
  pub row_candidates-IsLed :
      (rows : List IdRow)
      → truthy (default_row U (usable_rows rows)) ≡ true
      → IsLed
          (default_row U (usable_rows rows))
          (row_candidates U rows)
          (row_fingerprints U (usable_rows rows))
  unfolding row_candidates
  row_candidates-IsLed rows h = rw h (
      move_front-IsLed (default_row U (usable_rows rows)) (row_fingerprints U (usable_rows rows))
        (default_row-contains (usable_rows rows) h))

module _ (U : Unicode) (codec : Codec) (P : OpenPgp) (A : MessageApi P) (now : ℕ) (c : Content)
    (rows : List IdRow) where
  -- Every one of the fingerprints fails, one after the other; the last error is kept.
  pub data Failed : List Text → VaultError → State P → VaultError → State P → Type 0 where
    nothing_tried : (why : VaultError) (s : State P) → Failed [] why s why s
    then_failed :
        (fp : Text) (fps : List Text) (first e why : VaultError) (s t u : State P)
        → decrypt_to_string U codec P A now c fp rows s ≡ (err e, t)
        → Failed fps e t why u
        → Failed (fp ∷ fps) first s why u

  -- How the loop over the fingerprints ends.
  pub data Ends (fps : List Text) (first : VaultError) (s : State P)
      : Result (Text × Text) → State P → Type 0 where
    exhausted :
        (why : VaultError) (u : State P) → Failed fps first s why u → Ends fps first s (err why) u
    opened :
        (before after : List Text) (fp data_text : Text) (why : VaultError) (t u : State P)
        → fps ≡ before ++ (fp ∷ after)
        → Failed before first s why t
        → decrypt_to_string U codec P A now c fp rows t ≡ (ok data_text, u)
        → Ends fps first s (ok (data_text, fp)) u

  Ends-later :
      (fp : Text) (fps : List Text) (first e : VaultError) (s t u : State P)
      (r : Result (Text × Text))
      → decrypt_to_string U codec P A now c fp rows s ≡ (err e, t)
      → Ends fps e t r u
      → Ends (fp ∷ fps) first s r u
  Ends-later fp fps first e s t u r h (exhausted why v f) =
      exhausted why v (then_failed fp fps first e why s t v h f)
  Ends-later fp fps first e s t u r h (opened before after gp data_text why v w same f k) =
      opened (fp ∷ before) after gp data_text why v w (ap (λ z. fp ∷ z) same)
        (then_failed fp before first e why s t v h f) k

  try_each-Ends :
      (fps : List Text) (first : VaultError) (s : State P)
      → Ends fps first s
          (try_each U codec P A now c rows fps first s).0
          (try_each U codec P A now c rows fps first s).1
  unfolding try_each try_next
  try_each-Ends [] first s = exhausted first s (nothing_tried first s)
  try_each-Ends (fp ∷ fps) first s =
      go (decrypt_to_string U codec P A now c fp rows s).0
        (decrypt_to_string U codec P A now c fp rows s).1 refl
        (λ e. try_each-Ends fps e (decrypt_to_string U codec P A now c fp rows s).1)
    where
      rest : State P → VaultError → Result (Text × Text) × State P
      rest t e = try_each U codec P A now c rows fps e t

      go :
          (r : Result Text) (t : State P)
          → decrypt_to_string U codec P A now c fp rows s ≡ (r, t)
          → ((e : VaultError) → Ends fps e t (rest t e).0 (rest t e).1)
          → Ends
              (fp ∷ fps)
              first
              s
              (try_next U codec P A fp r t (rest t)).0
              (try_next U codec P A fp r t (rest t)).1
      go (err e) t h later = Ends-later fp fps first e s t (rest t e).1 (rest t e).0 h (later e)
      go (ok d) t h later = opened [] fps fp d first s t refl (nothing_tried first s) h

  -- A locked vault is refused; otherwise the loop ends as it should.
  pub data Decrypts (s : State P) : Result (Text × Text) → State P → Type 0 where
    locked : is_unlocked P s ≡ false → Decrypts s (err not_unlocked) s
    tried :
        (r : Result (Text × Text)) (t : State P)
        → is_unlocked P s ≡ true
        → Ends (candidates U codec P A rows s) none_decrypts s r t
        → Decrypts s r t

  -- tryDefaultDecrypt refuses a locked vault and leaves it as it is; otherwise it returns what the
  -- first of its candidate fingerprints that can decrypts, with that fingerprint, after every one
  -- before it failed, or, where all fail, throws the last error (without candidates, that no
  -- identity decrypts).
  pub try_default_decrypt-Decrypts :
      (s : State P)
      → Decrypts s
          (try_default_decrypt U codec P A now c rows s).0
          (try_default_decrypt U codec P A now c rows s).1
  unfolding try_default_decrypt
  try_default_decrypt-Decrypts s = elim (Bool-cases (is_unlocked P s)) [
    | inl h ↦ rw h (
        tried (try_each U codec P A now c rows (candidates U codec P A rows s) none_decrypts s).0
          (try_each U codec P A now c rows (candidates U codec P A rows s) none_decrypts s).1 h
          (try_each-Ends (candidates U codec P A rows s) none_decrypts s))
    | inr h ↦ rw h (locked h)
  ]
