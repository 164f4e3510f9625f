-- ===== src/Messages/Armor.antt =====
-- static/auth/unlock.js: armored OpenPGP blocks in a text. Each of the expressions is a begin marker,
-- the shortest text and an end marker, so the match goes from the first begin marker to the first
-- end marker behind it.
pub mod Laws
use elvish_email.Base.{
  ℕ, Bool, true, false, ◌||◌, Option, none, some, List, [], ◌∷◌, ◌++◌, if◌then◌else◌, is_some,
}
use elvish_email.Base.Text.{Text, lit, trim, trim_start}
use elvish_email.Base.Scan.{after_prefix}

-- The first of the alternatives that the text starts with, and what follows it.
unfoldable pub alternative : List Text → Text → Option (Text × Text)
unfolding after_prefix
alternative [] s = none
alternative (m ∷ ms) s =
    let others = alternative ms s in
    elim (after_prefix m s) [ some rest ↦ some (m, rest) | none ↦ others ]

abbrev place : ℕ → Option (Text × Text × Text) → Option (Text × Text × Text)
place c none = none
place c (some (a, m, b)) = some (c ∷ a, m, b)

abbrev found_or : Option (Text × Text) → Option (Text × Text × Text) → Option (Text × Text × Text)
found_or none later = later
found_or (some (m, rest)) later = some ([], m, rest)

-- The text before the first occurrence of an alternative, the alternative, and the text behind it.
unfoldable pub first_of : List Text → Text → Option (Text × Text × Text)
unfolding alternative
first_of ms [] = found_or (alternative ms []) none
first_of ms (c ∷ s) = let later = first_of ms s in found_or (alternative ms (c ∷ s)) (place c later)

close_block : Text → Option (Text × Text × Text) → Text
close_block begin none = []
close_block begin (some (inner, end, rest)) = trim (begin ++ (inner ++ end))

open_block : List Text → Option (Text × Text × Text) → Text
unfolding close_block
open_block ends none = []
open_block ends (some (front, begin, rest)) = close_block begin (first_of ends rest)

-- `text.match(/begin[\s\S]*?end/)`, trimmed; the empty text where there is no match.
unfoldable pub extract_block : List Text → List Text → Text → Text
unfolding open_block
extract_block begins ends text = open_block ends (first_of begins text)

abbrev pub message_begins : List Text
message_begins = lit "-----BEGIN PGP MESSAGE-----" ∷ lit "-----BEGIN PGP SIGNED MESSAGE-----" ∷ []

abbrev pub message_ends : List Text
message_ends = lit "-----END PGP MESSAGE-----" ∷ lit "-----END PGP SIGNATURE-----" ∷ []

abbrev pub signature_ends : List Text
signature_ends = lit "-----END PGP SIGNATURE-----" ∷ []

unfoldable pub looks_like_armored_message : Text → Bool
looks_like_armored_message text = is_some (alternative message_begins (trim_start text))

unfoldable pub extract_armored_block : Text → Text
extract_armored_block = extract_block message_begins message_ends

unfoldable pub extract_armored_cleartext_signed_block : Text → Text
extract_armored_cleartext_signed_block =
    extract_block (lit "-----BEGIN PGP SIGNED MESSAGE-----" ∷ []) signature_ends

unfoldable pub extract_armored_detached_signature_blob : Text → Text
extract_armored_detached_signature_blob =
    extract_block (lit "-----BEGIN PGP SIGNATURE-----" ∷ []) signature_ends
