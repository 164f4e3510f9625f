-- ===== src/Filters/Match.antt =====
-- static/mail/mail-filter-engine.js: the context of a message and the conditions on it. A field that
-- may be null or missing is an `Option`; `String(x || '')` of it is `text_or_empty`.
pub mod Laws
use Prim.Native.Nat.{compare}
use elvish_email.Base.{
  ℕ, ◌+◌, ◌*◌, ◌-◌, Bool, true, false, not, ◌&&◌, ◌||◌, Option, none, some, List, [], ◌∷◌, map, ltb,
  leb, ◌==◌, if◌then◌else◌, any,
}
use elvish_email.Base.Text.{
  Text, lit, text_eq, truthy, trim, trim_start, starts_with, ends_with, includes, Unicode,
}

abbrev pub text_or_empty : Option Text → Text
text_or_empty none = []
text_or_empty (some t) = t

-- `String(x || d)`
abbrev pub text_or : Text → Option Text → Text
text_or d none = d
text_or d (some []) = d
text_or d (some (c ∷ s)) = c ∷ s

pub record Condition : Type 0 where
  pub type : Option Text
  pub operator : Option Text
  pub value : Option Text

-- `attachments` is the length of the array, 0 where there is none.
pub record Message : Type 0 where
  pub id : Option Text
  pub subject : Option Text
  pub from_addr : Option Text
  pub to_addrs : Option (List (Option Text))
  pub has_attachments : Bool
  pub attachments : ℕ

pub record Context : Type 0 where
  pub subject : Text
  pub from : Text
  pub to : List Text
  pub body_text : Option Text
  pub has_attachments : Bool
  pub size_bytes : Option ℕ

abbrev addrs_of : Option (List (Option Text)) → List Text
addrs_of none = []
addrs_of (some xs) = map text_or_empty xs

unfoldable pub build_context : Message → Option Text → Option ℕ → Context
build_context message body_text size_bytes = record {
  subject = text_or_empty message.subject;
  from = text_or_empty message.from_addr;
  to = addrs_of message.to_addrs;
  body_text = body_text;
  has_attachments = message.has_attachments || ltb 0 message.attachments;
  size_bytes = size_bytes;
}

-- The digits that `parseInt(s, 10)` reads: `none` where there is not one.
parse_digits : Option ℕ → Text → Option ℕ
parse_digits acc [] = acc
parse_digits acc (c ∷ s) =
    let next : ℕ = elim acc [ none ↦ c - 48 | some n ↦ n * 10 + (c - 48) ] in
    let rest = parse_digits (some next) s in if leb 48 c && leb c 57 then rest else acc

pub data Signed : Type 0 where
  plus minus : ℕ → Signed

abbrev with_sign : (ℕ → Signed) → Option ℕ → Option Signed
with_sign sign none = none
with_sign sign (some n) = some (sign n)

parse_sign : Text → Option Signed
unfolding parse_digits
parse_sign [] = none
parse_sign (c ∷ s) =
    if c == 45
    then with_sign minus (parse_digits none s)
    else if c == 43
    then with_sign plus (parse_digits none s)
    else with_sign plus (parse_digits none (c ∷ s))

-- `parseInt(s, 10)`, with `none` for NaN.
unfoldable pub parse_int : Text → Option Signed
unfolding parse_sign trim_start
parse_int s = parse_sign (trim_start s)

-- A number of bytes against the number of a condition.
unfoldable pub compare_size : Text → ℕ → Signed → Bool
compare_size op size (plus n) =
    if text_eq op (lit "greater_than")
    then ltb n size
    else if text_eq op (lit "less_than")
    then ltb size n
    else if text_eq op (lit "equals")
    then size == n
    else false
compare_size op size (minus n) =
    if text_eq op (lit "greater_than")
    then ltb 0 (size + n)
    else if text_eq op (lit "less_than")
    then false
    else if text_eq op (lit "equals")
    then size == 0 && n == 0
    else false

-- A property that every object inherits is truthy in a table of flags. Of the inherited names only
-- these two are in lower case.
abbrev pub inherited : Text → Bool
inherited t = text_eq t (lit "constructor") || text_eq t (lit "__proto__")

unfoldable pub supported_condition : Text → Bool
supported_condition t =
    text_eq t (lit "sender")
    || text_eq t (lit "subject")
    || text_eq t (lit "recipient")
    || text_eq t (lit "body")
    || text_eq t (lit "attachment")
    || text_eq t (lit "size")
    || inherited t

module _ (U : Unicode) where
  unfoldable pub norm : Text → Text
  norm s = U.lower (trim s)

  unfoldable pub match_string : Text → Text → Text → Bool
  unfolding norm
  match_string hay needle operator =
      let h = norm hay in
      let n = norm needle in
      if not (truthy n) && not (text_eq operator (lit "equals"))
      then false
      else if text_eq operator (lit "equals")
      then text_eq h n
      else if text_eq operator (lit "starts_with")
      then starts_with h n
      else if text_eq operator (lit "ends_with")
      then ends_with h n
      else if text_eq operator (lit "matches") || text_eq operator (lit "contains")
      then truthy n && includes h n
      else false

  unfoldable pub match_body : Option Text → Text → Text → Bool
  match_body none val op = false
  match_body (some []) val op = false
  match_body (some (c ∷ s)) val op = match_string (c ∷ s) val op

  unfoldable pub match_attachment : Bool → Text → Bool
  unfolding norm
  match_attachment has val =
      let want = norm val in
      if text_eq want (lit "0") || text_eq want (lit "false") || text_eq want (lit "no")
      then not has
      else has

  unfoldable pub match_number : Text → ℕ → Option Signed → Bool
  match_number op size none = false
  match_number op size (some num) = compare_size op size num

  unfoldable pub match_size : Option ℕ → Text → Text → Bool
  unfolding match_number
  match_size none val op = false
  match_size (some size) val op = match_number op size (parse_int val)

  unfoldable pub match_type : Text → Text → Text → Context → Bool
  match_type type op val ctx =
      if not (supported_condition type)
      then false
      else if text_eq type (lit "header")
      then false
      else if text_eq type (lit "sender")
      then match_string ctx.from val op
      else if text_eq type (lit "subject")
      then match_string ctx.subject val op
      else if text_eq type (lit "recipient")
      then any (λ a. match_string a val op) ctx.to
      else if text_eq type (lit "body")
      then match_body ctx.body_text val op
      else if text_eq type (lit "attachment")
      then match_attachment ctx.has_attachments val
      else if text_eq type (lit "size")
      then match_size ctx.size_bytes val op
      else false

  -- A condition that is null or no object holds.
  unfoldable pub condition_matches : Option Condition → Context → Bool
  unfolding match_type
  condition_matches none ctx = true
  condition_matches (some cond) ctx =
      match_type (U.lower (trim (text_or_empty cond.type)))
        (U.lower (trim (text_or (lit "contains") cond.operator))) (text_or_empty cond.value) ctx
