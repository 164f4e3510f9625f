-- ===== src/Identities/Tests.antt =====
-- Witnesses for the addresses of static/mail/mail-manifest.js.
use elvish_email.Base.{◌≡◌, ℕ, refl, List, [], ◌∷◌}
use elvish_email.Base.Text.{
  lit, text_eq, is_space, trim, trim_start, starts_with, ends_with, includes, ascii,
}
use elvish_email.Identities.{
  refused, accepted, edge_dot, is_tag_char, is_local_char, Wanted, Address, normalized,
  validate_mailbox_local_part, build_generated_identity_address, keep_tag_chars, validate_plus_tag,
  alias_address, plus_tagged, plus_address,
}
use elvish_email.Identities.Laws.{IsAddress, build-IsAddress}

addresses : Unit {0}
unfolding lit text_eq is_space trim_start trim starts_with ends_with includes is_tag_char
    is_local_char normalized validate_mailbox_local_part keep_tag_chars validate_plus_tag
    alias_address plus_tagged plus_address build_generated_identity_address
addresses = tt

local_part_test :
    (validate_mailbox_local_part ascii (lit " Ann.B ") ≡ accepted (lit "ann.b"))
    × (validate_mailbox_local_part ascii (lit "ann.") ≡ refused edge_dot)
unfolding addresses
local_part_test = (refl, refl)

abbrev wanted : Wanted
wanted = record {
  kind = lit "plus";
  domain = lit "Elvish.email";
  local_part = lit "Ann";
  name = lit "The Shop!";
}

abbrev fourteen : List ℕ
fourteen = 0 ∷ 1 ∷ 2 ∷ 3 ∷ 4 ∷ 5 ∷ 6 ∷ 7 ∷ 8 ∷ 9 ∷ 10 ∷ 11 ∷ 12 ∷ 255 ∷ []

abbrev plus_ann : Address
plus_ann = record { email = lit "ann+theshop@elvish.email"; expires_at = [] }

plus_test : build_generated_identity_address ascii fourteen (lit "later") wanted ≡ accepted plus_ann
unfolding addresses
plus_test = refl

build-IsAddress_example : IsAddress ascii wanted.domain plus_ann.email
build-IsAddress_example =
    build-IsAddress ascii fourteen (lit "later") wanted plus_ann refl plus_test
