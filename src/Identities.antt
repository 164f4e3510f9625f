-- ===== src/Identities.antt =====
-- static/mail/mail-manifest.js: the addresses of generated identities. The random bytes and the
-- time of expiry are given by the host.
pub mod Laws
mod Tests
use elvish_email.Base.{
  ℕ, ◌+◌, ◌%◌, map, Bool, true, false, not, ◌&&◌, ◌||◌, Option, none, some, List, [], ◌∷◌, ◌++◌,
  ltb, leb, ◌==◌, if◌then◌else◌, length, take, all,
}
use elvish_email.Base.Text.{
  Text, lit, text_eq, truthy, trim, starts_with, ends_with, includes, Unicode,
}

pub data AddressError : Type 0 where
  invalid_account choose_mail_domain choose_domain bad_length consecutive_dots : AddressError
  edge_dot bad_character plus_tag_required : AddressError

pub data Checked (V : Type 0) : Type 0 where
  refused : AddressError → Checked V
  accepted : V → Checked V

-- The text before and behind the first "@".
unfoldable pub split_at_sign : Text → Option (Text × Text)
split_at_sign [] = none
split_at_sign (c ∷ s) =
    let rest = split_at_sign s in
    if c == 64
    then some ([], s)
    else elim rest [ none ↦ none | some (local, domain) ↦ some (c ∷ local, domain) ]

both_parts : Option (Text × Text) → Checked (Text × Text)
both_parts none = refused invalid_account
both_parts (some (local, domain)) =
    if truthy local && truthy domain then accepted (local, domain) else refused invalid_account

-- `[a-z0-9_-]`
unfoldable pub is_tag_char : ℕ → Bool
is_tag_char c = (leb 97 c && leb c 122) || (leb 48 c && leb c 57) || c == 95 || c == 45

-- `[a-z0-9._-]`
unfoldable pub is_local_char : ℕ → Bool
unfolding is_tag_char
is_local_char c = is_tag_char c || c == 46

unfoldable pub keep_tag_chars : Text → Text
keep_tag_chars [] = []
keep_tag_chars (c ∷ s) = let rest = keep_tag_chars s in if is_tag_char c then c ∷ rest else rest

-- `chars[b % chars.length]` in "abcdefghijklmnopqrstuvwxyz0123456789".
unfoldable pub alphanumeric_char : ℕ → ℕ
alphanumeric_char b = let k = b % 36 in if ltb k 26 then 97 + k else 22 + k

-- `randomAlphanumeric`, with the random bytes.
unfoldable pub random_alphanumeric : List ℕ → Text
unfolding alphanumeric_char
random_alphanumeric bytes = map alphanumeric_char bytes

-- The fields of the dialog; `kind` is its `type`.
pub record Wanted : Type 0 where
  pub kind : Text
  pub domain : Text
  pub local_part : Text
  pub name : Text

pub record Address : Type 0 where
  pub email : Text
  pub expires_at : Text

module _ (U : Unicode) where
  unfoldable pub normalized : Text → Text
  normalized s = U.lower (trim s)

  unfoldable pub parse_account_address : Text → Checked (Text × Text)
  unfolding both_parts
  parse_account_address account_email = both_parts (split_at_sign (normalized account_email))

  domain_of : Checked (Text × Text) → Checked Text
  domain_of (accepted (local, d)) = accepted d
  domain_of (refused e) = refused choose_mail_domain

  unfoldable pub resolve_identity_domain : Text → Text → Checked Text
  unfolding domain_of
  resolve_identity_domain domain account_email =
      let d = normalized domain in
      if truthy d then accepted d else domain_of (parse_account_address account_email)

  unfoldable pub validate_mailbox_local_part : Text → Checked Text
  validate_mailbox_local_part local =
      let s = normalized local in
      if ltb (length s) 3 || ltb 64 (length s)
      then refused bad_length
      else if includes s (lit "..")
      then refused consecutive_dots
      else if starts_with s (lit ".") || ends_with s (lit ".")
      then refused edge_dot
      else if not (all is_local_char s)
      then refused bad_character
      else accepted s

  unfoldable pub validate_plus_tag : Text → Checked Text
  unfolding keep_tag_chars
  validate_plus_tag name =
      let tag = take 30 (keep_tag_chars (normalized name)) in
      if truthy tag then accepted tag else refused plus_tag_required

  unfoldable pub alias_address : Text → Checked Text → Checked Address
  alias_address dom (refused e) = refused e
  alias_address dom (accepted local) =
      accepted (record { email = local ++ (64 ∷ dom); expires_at = [] })

  unfoldable pub plus_tagged : Text → Text → Checked Text → Checked Address
  plus_tagged dom base (refused e) = refused e
  plus_tagged dom base (accepted tag) =
      accepted (record { email = (base ++ 43 ∷ tag) ++ (64 ∷ dom); expires_at = [] })

  unfoldable pub plus_address : Text → Text → Checked Text → Checked Address
  unfolding plus_tagged
  plus_address dom name (refused e) = refused e
  plus_address dom name (accepted base) = plus_tagged dom base (validate_plus_tag name)

  -- `bytes` are the 14 that `randomAlphanumeric(14)` draws, `in_a_month` is the time of expiry.
  unfoldable pub build_generated_identity_address : List ℕ → Text → Wanted → Checked Address
  unfolding alias_address plus_address
  build_generated_identity_address bytes in_a_month w =
      let dom = normalized w.domain in
      if not (truthy dom)
      then refused choose_domain
      else if text_eq w.kind (lit "alias")
      then alias_address dom (validate_mailbox_local_part w.local_part)
      else if text_eq w.kind (lit "plus")
      then plus_address dom w.name (validate_mailbox_local_part w.local_part)
      else accepted (record {
        email = (100 ∷ 95 ∷ random_alphanumeric bytes) ++ (64 ∷ dom);
        expires_at = in_a_month;
      })
