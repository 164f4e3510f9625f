-- ===== src/Messages/Mime/Transfer.antt =====
-- static/auth/unlock.js: the transfer encodings.
pub mod Laws
use elvish_email.Base.{
  ℕ, zero, suc, ◌+◌, ◌-◌, ◌*◌, ◌%◌, Bool, true, false, not, ◌&&◌, ◌||◌, Option, none, some, List,
  [], ◌∷◌, map, leb, ◌==◌, if◌then◌else◌,
}
use elvish_email.Base.Text.{Text, lit, text_eq, trim, is_space, starts_with, ascii_lower, Unicode}

-- `TextEncoder`, the `TextDecoder` that replaces what it cannot read, and `atob`, which is `none`
-- where it throws.
pub record Codec : Type 0 where
  pub encode : Text → List ℕ
  pub decode : List ℕ → Text
  pub atob : Text → Option Text

-- `raw.replace(/\s+/g, "")`
unfoldable pub without_spaces : Text → Text
without_spaces [] = []
without_spaces (c ∷ s) = let rest = without_spaces s in if is_space c then rest else c ∷ rest

abbrev low_byte : ℕ → ℕ
low_byte c = c % 256

unfoldable pub base64_to_bytes : Codec → Text → Option (List ℕ)
unfolding without_spaces
base64_to_bytes codec raw = elim (codec.atob (without_spaces raw)) [
  | none ↦ none
  | some bin ↦ some (map low_byte bin)
]

-- `replace(/=\r?\n/g, "")`, with `k` characters of a soft line break still to skip.
unfoldable pub join_lines : ℕ → Text → Text
unfolding starts_with
join_lines k [] = []
join_lines (suc k) (c ∷ s) = join_lines k s
join_lines zero (c ∷ s) =
    let after_two = join_lines 2 s in
    let after_one = join_lines 1 s in
    let kept = c ∷ join_lines 0 s in
    if c == 61 && starts_with s (13 ∷ 10 ∷ [])
    then after_two
    else if c == 61 && starts_with s (10 ∷ [])
    then after_one
    else kept

-- The value of a hexadecimal digit.
unfoldable pub hex_value : ℕ → Option ℕ
hex_value c =
    if leb 48 c && leb c 57
    then some (c - 48)
    else if leb 65 c && leb c 70
    then some (c - 55)
    else if leb 97 c && leb c 102
    then some (c - 87)
    else none

abbrev pair_value : Option ℕ → Option ℕ → Option ℕ
pair_value (some h) (some l) = some (h * 16 + l)
pair_value _ _ = none

-- The byte of the two digits that the text starts with.
abbrev hex_pair : Text → Option ℕ
hex_pair [] = none
hex_pair (h ∷ []) = none
hex_pair (h ∷ l ∷ s) = pair_value (hex_value h) (hex_value l)

-- The loop, with `k` digits of an escape still to skip.
unfoldable pub quoted_bytes : ℕ → Text → List ℕ
unfolding hex_value
quoted_bytes k [] = []
quoted_bytes (suc k) (c ∷ s) = quoted_bytes k s
quoted_bytes zero (c ∷ s) =
    let behind = quoted_bytes 2 s in
    let plain = low_byte c ∷ quoted_bytes 0 s in
    if c == 61 then elim (hex_pair s) [ some b ↦ b ∷ behind | none ↦ plain ] else plain

unfoldable pub quoted_printable_to_bytes : Text → List ℕ
unfolding join_lines quoted_bytes
quoted_printable_to_bytes raw = quoted_bytes 0 (join_lines 0 raw)

unfoldable pub decode_transfer_bytes : Unicode → Codec → Text → Text → Option (List ℕ)
unfolding base64_to_bytes quoted_printable_to_bytes
decode_transfer_bytes U codec body transfer_encoding =
    let encoding = U.lower (trim transfer_encoding) in
    if text_eq encoding (lit "base64")
    then base64_to_bytes codec body
    else if text_eq encoding (lit "quoted-printable")
    then some (quoted_printable_to_bytes body)
    else some (codec.encode body)
