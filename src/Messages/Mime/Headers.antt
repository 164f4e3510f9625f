-- ===== src/Messages/Mime/Headers.antt =====
-- static/auth/unlock.js: `parseMimeHeaders` and the two readers of a Content-Type value.
pub mod Laws
use elvish_email.Base.{
  ℕ, Bool, true, false, not, ◌&&◌, ◌||◌, Option, none, some, List, [], ◌∷◌, ◌++◌, map, leb, ◌==◌,
  if◌then◌else◌, any,
}
use elvish_email.Base.Text.{Text, lit, truthy, trim, trim_start, is_space, ascii_lower}
use elvish_email.Base.Scan.{
  after_prefix, after_prefix_ci, take_while, drop_while, split_on, normalize_newlines,
}
use elvish_email.Base.Dict.{Dict, get, put}

-- `[A-Za-z0-9-]`
unfoldable pub is_name_char : ℕ → Bool
is_name_char c =
    (leb 65 c && leb c 90) || (leb 97 c && leb c 122) || (leb 48 c && leb c 57) || c == 45

-- What `.` does not match.
unfoldable pub is_terminator : ℕ → Bool
is_terminator c = c == 10 || c == 13 || c == 0x2028 || c == 0x2029

-- `.*$` behind `\s*`
rest_of_line : Text → Option Text
rest_of_line value = if any is_terminator value then none else some value

named : Text → Option Text → Option (Text × Text)
named name none = none
named name (some value) = if truthy name then some (name, value) else none

after_name : Text → Text → Option (Text × Text)
unfolding rest_of_line named
after_name name [] = none
after_name name (c ∷ s) = if c == 58 then named name (rest_of_line (trim_start s)) else none

-- `line.match(/^([A-Za-z0-9-]+):\s*(.*)$/)`
unfoldable pub header_line : Text → Option (Text × Text)
unfolding after_name
header_line line = after_name (take_while is_name_char line) (drop_while is_name_char line)

unfoldable pub value_of : Text → Dict Text → Text
value_of name headers = elim (get name headers) [ none ↦ [] | some v ↦ v ]

-- `/^[ \t]/.test(line)`
abbrev is_folded : Text → Bool
is_folded [] = false
is_folded (c ∷ s) = c == 32 || c == 9

-- A line that starts a header, with what the loop gives from there.
start_header :
    Option (Text × Text) → (Dict Text → Text → Option (Dict Text)) → Dict Text → Option (Dict Text)
start_header none more headers = none
start_header (some (name, value)) more headers =
    let current = map ascii_lower name in more (put current value headers) current

-- The loop of `parseMimeHeaders`.
unfoldable pub parse_lines : List Text → Dict Text → Text → Option (Dict Text)
unfolding header_line start_header value_of
parse_lines [] headers current = some headers
parse_lines (line ∷ lines) headers current =
    let more = parse_lines lines in
    if not (truthy line)
    then none
    else if is_folded line
    then (if truthy current
        then more (put current (value_of current headers ++ (32 ∷ trim line)) headers) current
        else none)
    else start_header (header_line line) more headers

unfoldable pub parse_mime_headers : Text → Option (Dict Text)
unfolding parse_lines split_on
parse_mime_headers block = parse_lines (split_on (10 ∷ []) block) [] []

without_quote : Text → Text
without_quote [] = []
without_quote (c ∷ s) = if c == 34 then s else c ∷ s

boundary_here : (ℕ → Bool) → Option Text → Text
unfolding without_quote
boundary_here stops none = []
boundary_here stops (some s) = take_while (λ c. not (stops c)) (without_quote s)

-- The first group of `/boundary="?([^...]+)"?/i`, empty where nothing matches.
unfoldable pub boundary_of : (ℕ → Bool) → Text → Text
unfolding boundary_here after_prefix_ci take_while
boundary_of stops [] = []
boundary_of stops (c ∷ s) =
    let later = boundary_of stops s in
    let found = boundary_here stops (after_prefix_ci (lit "boundary=") (c ∷ s)) in
    if truthy found then found else later

-- `[^";\s]` and `[^";\n]`
unfoldable pub extract_mime_boundary : Text → Text
unfolding boundary_of
extract_mime_boundary value = boundary_of (λ c. c == 34 || c == 59 || is_space c) value

content_type_line : Option Text → Text
unfolding rest_of_line
content_type_line none = []
content_type_line (some s) = elim (rest_of_line (trim_start s)) [
  | none ↦ []
  | some value ↦ trim value
]

first_truthy : Text → Text → Text
first_truthy a b = if truthy a then a else b

-- The loop of `extractContentTypeValue`. A line whose value is empty does not match.
unfoldable pub content_type_in : List Text → Text
unfolding content_type_line first_truthy after_prefix_ci
content_type_in [] = []
content_type_in (line ∷ lines) =
    let later = content_type_in lines in
    first_truthy (content_type_line (after_prefix_ci (lit "content-type:") (trim line))) later

unfoldable pub extract_content_type_value : Text → Text
unfolding content_type_in
extract_content_type_value header_text =
    content_type_in (split_on (10 ∷ []) (normalize_newlines header_text))
