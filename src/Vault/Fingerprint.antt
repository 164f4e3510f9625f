-- ===== src/Vault/Fingerprint.antt =====
-- static/auth/unlock.js and static/mail/lib/mail-address.js: fingerprints of keys.
use elvish_email.Base.{
  ◌≡◌, ◌↔◌, Bool, true, false, not, ◌&&◌, ◌||◌, [], ◌∷◌, leb, if◌then◌else◌, length, arith,
}
use elvish_email.Base.Text.{
  Text, text_eq, text_eq_iff, truthy, is_space, slice_last, ends_with, trim, Unicode,
}

-- `replace(/\s+/g, "")`
unfoldable pub strip_spaces : Text → Text
strip_spaces [] = []
strip_spaces (c ∷ s) = let rest = strip_spaces s in if is_space c then rest else c ∷ rest

-- The hexadecimal digits of an upper-case text.
keep_hex : Text → Text
keep_hex [] = []
keep_hex (c ∷ s) =
    let rest = keep_hex s in
    if (leb 48 c && leb c 57) || (leb 65 c && leb c 70) then c ∷ rest else rest

module _ (U : Unicode) where
  unfoldable pub normalize_email : Text → Text
  normalize_email email = U.lower (trim email)

  unfoldable pub normalize_fingerprint : Text → Text
  normalize_fingerprint fp = U.upper (strip_spaces fp)

  unfoldable pub fingerprint_key_id16 : Text → Text
  fingerprint_key_id16 fp =
      let x = normalize_fingerprint fp in
      if not (truthy x) then [] else if leb (length x) 16 then x else slice_last 16 x

  unfoldable pub fingerprints_equivalent : Text → Text → Bool
  fingerprints_equivalent a b =
      let x = normalize_fingerprint a in
      let y = normalize_fingerprint b in
      if not (truthy x) || not (truthy y)
      then false
      else if text_eq x y
      then true
      else text_eq (fingerprint_key_id16 x) (fingerprint_key_id16 y)

  unfoldable pub normalize_fingerprint_hex : Text → Text
  unfolding keep_hex
  normalize_fingerprint_hex s = keep_hex (U.upper s)

  unfoldable pub fingerprints_match : Text → Text → Bool
  fingerprints_match a b =
      let x = normalize_fingerprint_hex a in
      let y = normalize_fingerprint_hex b in
      if not (truthy x) || not (truthy y)
      then false
      else if text_eq x y
      then true
      else leb 16 (length x)
        && leb 16 (length y)
        && (ends_with x (slice_last 16 y) || ends_with y (slice_last 16 x))

  -- Two fingerprints are equivalent exactly when neither is blank and the last sixteen digits of
  -- their normal forms agree (all digits, where there are fewer).
  pub fingerprints_equivalent_iff :
      (a b : Text)
      → (fingerprints_equivalent a b ≡ true) ↔ (
          (truthy (normalize_fingerprint a) ≡ true)
          × (truthy (normalize_fingerprint b) ≡ true)
          × (fingerprint_key_id16 (normalize_fingerprint a)
              ≡ fingerprint_key_id16 (normalize_fingerprint b)))
  unfolding fingerprints_equivalent
  fingerprints_equivalent_iff a b =
      let x = normalize_fingerprint a in
      let y = normalize_fingerprint b in
      ground (arith, text_eq_iff x y, text_eq_iff (fingerprint_key_id16 x) (fingerprint_key_id16 y))
