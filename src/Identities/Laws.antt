-- ===== src/Identities/Laws.antt =====
-- The parts of a generated address.
use elvish_email.Base.{
  ℕ, suc, ◌≡◌, ◌≤◌, ◌↔◌, refl, ap, ◌∙◌, Bool, true, false, not, ◌||◌, some, List, [], ◌∷◌, ◌++◌,
  ◌==◌, if◌then◌else◌, length, take, all, arith, length-append, length-take, zero,
}
use elvish_email.Base.Text.{Text, lit, text_eq, truthy, starts_with, ends_with, includes, Unicode}
use elvish_email.Identities.{
  choose_domain, Checked, refused, accepted, split_at_sign, is_tag_char, is_local_char,
  keep_tag_chars, Wanted, Address, normalized, validate_mailbox_local_part, validate_plus_tag,
  alias_address, plus_tagged, plus_address, build_generated_identity_address, random_alphanumeric,
}

-- What may stand before the "@": what a local part may hold, and "+".
unfoldable pub is_address_char : ℕ → Bool
unfolding is_local_char
is_address_char c = is_local_char c || c == 43

split-append :
    (local domain : Text)
    → all is_address_char local ≡ true
    → split_at_sign (local ++ 64 ∷ domain) ≡ some (local, domain)
unfolding split_at_sign is_address_char is_local_char is_tag_char
split-append [] domain h = refl
split-append (c ∷ s) domain h = ground (arith, split-append s domain, h)

all-append :
    (xs ys : Text)
    → all is_address_char xs ≡ true
    → all is_address_char ys ≡ true
    → all is_address_char (xs ++ ys) ≡ true
all-append [] ys h k = k
all-append (c ∷ xs) ys h k = ground (arith, all-append xs ys, h, k)

local-address : (s : Text) → all is_local_char s ≡ true → all is_address_char s ≡ true
unfolding is_address_char
local-address [] h = refl
local-address (c ∷ s) h = ground (arith, local-address s, h)

all-take : (p : ℕ → Bool) (n : ℕ) (s : Text) → all p s ≡ true → all p (take n s) ≡ true
all-take p zero s h = refl
all-take p (suc n) [] h = refl
all-take p (suc n) (c ∷ s) h = ground (arith, all-take p n s, h)

all-keep : (s : Text) → all is_address_char (keep_tag_chars s) ≡ true
unfolding keep_tag_chars is_address_char is_local_char
all-keep [] = refl
all-keep (c ∷ s) = ground (arith, all-keep s)

-- What a valid local part is.
pub record IsLocalPart (s : Text) : Type 0 where
  pub long_enough : 3 ≤ length s
  pub short_enough : length s ≤ 64
  pub no_dots : includes s (lit "..") ≡ false
  pub no_first_dot : starts_with s (lit ".") ≡ false
  pub no_last_dot : ends_with s (lit ".") ≡ false
  pub local_chars : all is_local_char s ≡ true

-- A local part is accepted, as its normal form, exactly when that has 3 to 64 characters, no two
-- dots in a row, no dot at either end, and only lower-case letters, digits, dots, hyphens and
-- underscores.
pub validate_mailbox_local_part_iff :
    (U : Unicode) (local s : Text)
    → (validate_mailbox_local_part U local ≡ accepted s)
      ↔ ((s ≡ normalized U local) × IsLocalPart (normalized U local))
validate_mailbox_local_part_iff U local s = (there, back)
  where
    there :
        validate_mailbox_local_part U local ≡ accepted s
        → (s ≡ normalized U local) × IsLocalPart (normalized U local)
    there h =
        let n = normalized U local in
        let parts : (s ≡ n)
            × (3 ≤ length n)
            × (length n ≤ 64)
            × (includes n (lit "..") ≡ false)
            × (starts_with n (lit ".") ≡ false)
            × (ends_with n (lit ".") ≡ false)
            × (all is_local_char n ≡ true) =
          unfold validate_mailbox_local_part in ground (arith, h) in
        (
          parts.0,
          record {
            long_enough = parts.1;
            short_enough = parts.2;
            no_dots = parts.3;
            no_first_dot = parts.4;
            no_last_dot = parts.5;
            local_chars = parts.6;
          },
        )

    back :
        (s ≡ normalized U local) × IsLocalPart (normalized U local)
        → validate_mailbox_local_part U local ≡ accepted s
    back (e, k) =
        unfold validate_mailbox_local_part in
        ground (
          arith, e, k.long_enough, k.short_enough, k.no_dots, k.no_first_dot, k.no_last_dot,
          k.local_chars,
        )

plus_tag-lem :
    (U : Unicode) (name tag : Text)
    → validate_plus_tag U name ≡ accepted tag
    → (all is_address_char tag ≡ true) × (length tag ≤ 30)
unfolding validate_plus_tag
plus_tag-lem U name tag h =
    let kept = keep_tag_chars (normalized U name) in
    ground (
      arith,
      all-take is_address_char 30 kept (all-keep (normalized U name)),
      length-take 30 kept,
      h,
    )

-- The local part and the domain of an address, and how long the local part is.
pub record IsAddress (U : Unicode) (domain email : Text) : Type 0 where
  pub local : Text
  pub split : split_at_sign email ≡ some (local, normalized U domain)
  pub chars : all is_address_char local ≡ true
  pub long_enough : 3 ≤ length local
  pub short_enough : length local ≤ 95

module _ (U : Unicode) (domain : Text) where
  made :
      (local email : Text)
      → email ≡ local ++ (64 ∷ normalized U domain)
      → all is_address_char local ≡ true
      → 3 ≤ length local
      → length local ≤ 95
      → IsAddress U domain email
  made local email e h n m = record {
    local = local;
    split = ap split_at_sign e ∙ split-append local (normalized U domain) h;
    chars = h;
    long_enough = n;
    short_enough = m;
  }

  alias-IsAddress :
      (local_part : Text) (r : Checked Text) (a : Address)
      → validate_mailbox_local_part U local_part ≡ r
      → alias_address U (normalized U domain) r ≡ accepted a
      → IsAddress U domain a.email
  unfolding alias_address
  alias-IsAddress local_part (refused e) a v h = cc
  alias-IsAddress local_part (accepted s) a v h =
      let (e, k) = (validate_mailbox_local_part_iff U local_part s).0 v in
      let (m, n) : (length s ≤ 64) × (3 ≤ length s) = (rw e k.short_enough, rw e k.long_enough) in
      made s a.email (ground (arith, h)) (local-address s (rw e k.local_chars)) n (omega (arith, m))

  tagged-IsAddress :
      (local_part name base : Text) (r : Checked Text) (a : Address)
      → validate_mailbox_local_part U local_part ≡ accepted base
      → validate_plus_tag U name ≡ r
      → plus_tagged U (normalized U domain) base r ≡ accepted a
      → IsAddress U domain a.email
  unfolding plus_tagged
  tagged-IsAddress local_part name base (refused e) a v t h = cc
  tagged-IsAddress local_part name base (accepted tag) a v t h =
      let (e, k) = (validate_mailbox_local_part_iff U local_part base).0 v in
      let (m, n) : (length base ≤ 64) × (3 ≤ length base) =
        (rw e k.short_enough, rw e k.long_enough) in
      let (chars, short) = plus_tag-lem U name tag t in
      let l = length-append {0} base (43 ∷ tag) in
      made (base ++ 43 ∷ tag) a.email (ground (arith, h))
        (all-append base (43 ∷ tag) (local-address base (rw e k.local_chars))
          (unfold is_address_char in ground (arith, chars)))
        (omega (arith, l, n)) (omega (arith, l, m, short))

  plus-IsAddress :
      (local_part name : Text) (r : Checked Text) (a : Address)
      → validate_mailbox_local_part U local_part ≡ r
      → plus_address U (normalized U domain) name r ≡ accepted a
      → IsAddress U domain a.email
  unfolding plus_address
  plus-IsAddress local_part name (refused e) a v h = cc
  plus-IsAddress local_part name (accepted base) a v h =
      tagged-IsAddress local_part name base (validate_plus_tag U name) a v refl h

  random-IsAddress :
      (rand in_a_month : Text) (a : Address)
      → all is_address_char rand ≡ true
      → length rand ≡ 14
      → accepted (record {
        email = (100 ∷ 95 ∷ rand) ++ (64 ∷ normalized U domain);
        expires_at = in_a_month;
      })
        ≡ accepted a
      → IsAddress U domain a.email
  random-IsAddress rand in_a_month a chars len h =
      made (100 ∷ 95 ∷ rand) a.email (ground (arith, h))
        (unfold is_address_char is_local_char is_tag_char in ground (arith, chars))
        (omega (arith, len)) (omega (arith, len))

all-random : (bytes : List ℕ) → all is_address_char (random_alphanumeric bytes) ≡ true
unfolding random_alphanumeric is_address_char is_local_char is_tag_char
all-random [] = refl
all-random (b ∷ bytes) = ground (arith, all-random bytes)

length-random : (bytes : List ℕ) → length (random_alphanumeric bytes) ≡ length bytes
unfolding random_alphanumeric
length-random [] = refl
length-random (b ∷ bytes) = ap suc (length-random bytes)

-- With fourteen random bytes, every generated address splits at its first "@" into a local part of
-- 3 to 95 characters, each a lower-case letter, a digit or one of "._-+", and the normalised
-- domain.
pub build-IsAddress :
    (U : Unicode) (bytes : List ℕ) (in_a_month : Text) (w : Wanted) (a : Address)
    → length bytes ≡ 14
    → build_generated_identity_address U bytes in_a_month w ≡ accepted a
    → IsAddress U w.domain a.email
unfolding build_generated_identity_address
build-IsAddress U bytes in_a_month w a len h =
    go (truthy (normalized U w.domain)) (text_eq w.kind (lit "alias")) (text_eq w.kind (lit "plus"))
      h
  where
    go :
        (d x y : Bool)
        → (if not d
            then refused choose_domain
            else if x
            then alias_address U
                (normalized U w.domain)
                (validate_mailbox_local_part U w.local_part)
            else if y
            then plus_address U
                (normalized U w.domain)
                w.name
                (validate_mailbox_local_part U w.local_part)
            else accepted (record {
              email = (100 ∷ 95 ∷ random_alphanumeric bytes) ++ (64 ∷ normalized U w.domain);
              expires_at = in_a_month;
            }))
          ≡ accepted a
        → IsAddress U w.domain a.email
    go false x y k = cc
    go true true y k = alias-IsAddress U w.domain w.local_part _ a refl k
    go true false true k = plus-IsAddress U w.domain w.local_part w.name _ a refl k
    go true false false k =
        random-IsAddress U w.domain (random_alphanumeric bytes) in_a_month a (all-random bytes)
          (length-random bytes ∙ len) k
