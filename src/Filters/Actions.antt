-- ===== src/Filters/Actions.antt =====
-- static/mail/mail-filter-engine.js: the actions of a rule, and the requests that they make.
pub mod Laws
use elvish_email.Base.{
  ℕ, ◌+◌, ◌/◌, ◌%◌, Bool, true, false, not, ◌&&◌, ◌||◌, Option, none, some, List, [], ◌∷◌, ◌++◌,
  leb, ◌==◌, if◌then◌else◌,
}
use elvish_email.Base.Text.{Text, lit, text_eq, truthy, trim, Unicode}
use elvish_email.Filters.Match.{text_or_empty, inherited, norm}
use elvish_email.Filters.Rules.{Action}

unfoldable pub supported_action : Text → Bool
supported_action t =
    text_eq t (lit "move") || text_eq t (lit "mark_read") || text_eq t (lit "delete") || inherited t

-- The calls of `window.ElvishMailManifest` that the actions make.
pub data Call : Type 0 where
  move_message : Text → Text → Call
  set_message_read : Text → Call
  delete_message : Text → Call

-- How the promise of `applyActions` ends.
pub data Outcome : Type 0 where
  resolved : Bool → List Text → Outcome
  rejected : Outcome

-- `JSON.stringify` of a string: the body, with the escapes of a well-formed result.
unfoldable pub hex_digit : ℕ → ℕ
hex_digit n = if leb n 9 then 48 + n else 87 + n

unfoldable pub unicode_escape : ℕ → Text
unfolding hex_digit
unicode_escape c =
    92
    ∷ 117
    ∷ hex_digit (c / 4096 % 16)
    ∷ hex_digit (c / 256 % 16)
    ∷ hex_digit (c / 16 % 16)
    ∷ hex_digit (c % 16)
    ∷ []

abbrev is_high : ℕ → Bool
is_high c = leb 0xd800 c && leb c 0xdbff

abbrev is_low : ℕ → Bool
is_low c = leb 0xdc00 c && leb c 0xdfff

unfoldable pub quote_unit : ℕ → Text
unfolding unicode_escape
quote_unit c =
    if c == 34
    then 92 ∷ 34 ∷ []
    else if c == 92
    then 92 ∷ 92 ∷ []
    else if c == 8
    then 92 ∷ b'b' ∷ []
    else if c == 9
    then 92 ∷ b't' ∷ []
    else if c == 10
    then 92 ∷ b'n' ∷ []
    else if c == 12
    then 92 ∷ b'f' ∷ []
    else if c == 13
    then 92 ∷ b'r' ∷ []
    else if leb c 31 || is_high c || is_low c
    then unicode_escape c
    else c ∷ []

-- A surrogate pair stands as it is; a lone surrogate is escaped.
unfoldable pub quote_body : Text → Text
quote_body [] = []
quote_body (c ∷ []) = quote_unit c
quote_body (c ∷ d ∷ s) =
    let pair = c ∷ d ∷ quote_body s in
    let single = quote_unit c ++ quote_body (d ∷ s) in
    if is_high c && is_low d then pair else single

unfoldable pub json_string : Text → Text
unfolding quote_body quote_unit
json_string s = 34 ∷ (quote_body s ++ 34 ∷ [])

unfoldable pub json_action : Action → Text
json_action a =
    lit "{\"type\":"
    ++ (json_string (text_or_empty a.type)
        ++ (lit ",\"value\":" ++ (json_string (text_or_empty a.value) ++ lit "}")))

unfoldable pub json_actions : List Action → Text
json_actions [] = []
json_actions (a ∷ []) = json_action a
json_actions (a ∷ b ∷ as_) = json_action a ++ (lit "," ++ json_actions (b ∷ as_))

-- The slim copy of each action as one JSON array.
unfoldable pub action_fingerprint : List Action → Text
unfolding json_action json_actions json_string
action_fingerprint acts = lit "[" ++ (json_actions acts ++ lit "]")

-- A call and what follows its promise.
abbrev pub after : {S : Type 0} → S × Bool → (S → S × Outcome) → S × Outcome
after (s, true) next = next s
after (s, false) next = (s, rejected)

module _ (U : Unicode) where
  unfoldable pub action_type : Action → Text
  action_type a = U.lower (trim (text_or_empty a.type))

  unfoldable pub filter_supported_actions : List Action → List Action
  filter_supported_actions [] = []
  filter_supported_actions (a ∷ acts) =
      let rest = filter_supported_actions acts in
      if supported_action (action_type a) then a ∷ rest else rest

  -- `perform` is the server: it answers a call and says whether its promise is fulfilled.
  module _ {S : Type 0} (perform : Call → S → S × Bool) where
    -- The recursion `run(idx)`, with the action types skipped so far.
    unfoldable pub run : Text → List Action → List Text → S → S × Outcome
    run id [] skipped s = (s, resolved true skipped)
    run id (a ∷ acts) skipped s =
        let t = action_type a in
        let next = run id acts skipped in
        let passed = run id acts (skipped ++ t ∷ []) s in
        let folder = norm U (text_or_empty a.value) in
        if text_eq t (lit "move")
        then (if truthy folder then after (perform (move_message id folder) s) next else next s)
        else if text_eq t (lit "mark_read")
        then after (perform (set_message_read id) s) next
        else if text_eq t (lit "delete")
        then after (perform (delete_message id) s) next
        else passed

    unfoldable pub run_supported : Text → List Action → S → S × Outcome
    run_supported id [] s = (s, resolved false [])
    run_supported id (a ∷ acts) s = run id (a ∷ acts) [] s

    -- `manifest` says whether `window.ElvishMailManifest` is there.
    unfoldable pub apply_actions : Bool → Text → List Action → S → S × Outcome
    unfolding run_supported
    apply_actions manifest id actions s =
        if not manifest || not (truthy id)
        then (s, resolved false [])
        else run_supported id (filter_supported_actions actions) s
