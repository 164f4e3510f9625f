-- ===== src/Messages/Nested/Parts.antt =====
-- What `splitMimePartsLoose` of static/auth/unlock.js takes off a part.
use mathlib.Core.List.{reverse-append}
use elvish_email.Base.{
  ℕ, ◌≡◌, ◌∙◌, refl, ap, Bool, true, Option, none, some, [], ◌∷◌, ◌++◌, arith, all, reverse,
}
use elvish_email.Base.Text.{Text, lit, is_space, trim_start}
use elvish_email.Base.Scan.{after_prefix, drop_while, trim_end}
use elvish_email.Messages.Nested.{
  is_line_end, without_first_line_end, closed, without_closing_dashes, clean_part,
}

drop_while-append :
    (p : ℕ → Bool) (r s : Text) → all p r ≡ true → drop_while p (r ++ s) ≡ drop_while p s
unfolding drop_while
drop_while-append p [] s h = refl
drop_while-append p (c ∷ r) s h = ground (arith, h, drop_while-append p r s)

trim_start-append : (r s : Text) → all is_line_end r ≡ true → trim_start (r ++ s) ≡ trim_start s
unfolding trim_start is_space
trim_start-append [] s h = refl
trim_start-append (c ∷ r) s h = ground (arith, h, trim_start-append r s)

all-append :
    (p : ℕ → Bool) (xs ys : Text) → all p xs ≡ true → all p ys ≡ true → all p (xs ++ ys) ≡ true
all-append p [] ys h k = k
all-append p (x ∷ xs) ys h k = ground (arith, all-append p xs ys, h, k)

all-reverse : (p : ℕ → Bool) (xs : Text) → all p xs ≡ true → all p (reverse xs) ≡ true
all-reverse p [] h = refl
all-reverse p (x ∷ xs) h =
    rw (reverse-append (x ∷ []) xs) (
      all-append p (reverse xs) (x ∷ []) (all-reverse p xs (ground (arith, h))) (ground (arith, h)))

closed-blank :
    (q blank : Text) (o : Option Text)
    → all is_line_end blank ≡ true
    → trim_end (closed (q ++ blank) o) ≡ trim_end (closed q o)
unfolding trim_end
closed-blank q blank (some rest) h = refl
closed-blank q blank none h = ap reverse (
    ap trim_start (reverse-append q blank)
    ∙ trim_start-append (reverse blank) (reverse q) (all-reverse is_line_end blank h))

dashes-blank :
    (q blank : Text)
    → all is_line_end blank ≡ true
    → trim_end (without_closing_dashes (q ++ blank)) ≡ trim_end (without_closing_dashes q)
unfolding without_closing_dashes
dashes-blank q blank h =
    let same : drop_while is_line_end (reverse (q ++ blank)) ≡ drop_while is_line_end (reverse q) =
      ap (drop_while is_line_end) (reverse-append q blank)
      ∙ drop_while-append is_line_end (reverse blank) (reverse q)
          (all-reverse is_line_end blank h) in
    ap (λ t. trim_end (closed (q ++ blank) (after_prefix (lit "--") t))) same
    ∙ closed-blank q blank (after_prefix (lit "--") (drop_while is_line_end (reverse q))) h

-- Line ends at the end of a MIME part, behind the line feed of its boundary, make no difference to
-- what is checked of it.
pub clean_part-blank :
    (q blank : Text)
    → all is_line_end blank ≡ true
    → clean_part (10 ∷ (q ++ blank)) ≡ clean_part (10 ∷ q)
unfolding clean_part without_first_line_end after_prefix
clean_part-blank q blank h = dashes-blank q blank h
