-- ===== src/Messages/Mime/Payload.antt =====
-- static/auth/unlock.js: `extractPGPMimePayload`.
use elvish_email.Base.{
  ℕ, Bool, false, not, ◌&&◌, ◌||◌, Option, none, some, List, [], ◌∷◌, ◌++◌, ◌==◌, ◌-◌, length, take,
  reverse, if◌then◌else◌,
}
use elvish_email.Base.Text.{
  Text, lit, text_eq, truthy, trim, is_space, ends_with, starts_with, Unicode,
}
use elvish_email.Base.Scan.{
  split_first, split_on, includes_ci, drop_while, after_prefix_ci, normalize_newlines,
}
use elvish_email.Base.Dict.{Dict}
use elvish_email.Messages.Armor.{looks_like_armored_message, extract_armored_block}
use elvish_email.Messages.Mime.Headers.{parse_mime_headers, value_of, boundary_of}
use elvish_email.Messages.Mime.Transfer.{Codec, decode_transfer_bytes}

-- How the function ends: with null, with bytes, or by the throw of `atob`.
pub data Payload : Type 0 where
  no_payload : Payload
  payload : List ℕ → Payload
  undecodable : Payload

-- `/version:\s*1/i.test(s)`
unfoldable pub has_version_1 : Text → Bool
unfolding after_prefix_ci drop_while
has_version_1 [] = false
has_version_1 (c ∷ s) =
    let later = has_version_1 s in
    let here : Bool = elim (after_prefix_ci (lit "version:") (c ∷ s)) [
      | none ↦ false
      | some rest ↦ starts_with (drop_while is_space rest) (lit "1")
    ] in
    here || later

-- `replace(/^\n+|\n+$/g, "")`
unfoldable pub strip_newlines : Text → Text
unfolding drop_while
strip_newlines s = reverse (drop_while (λ c. c == 10) (reverse (drop_while (λ c. c == 10) s)))

-- `part.slice(0, -2).trim()` where the part ends with the closing dashes.
abbrev without_dashes : Text → Text
without_dashes part = if ends_with part (lit "--") then trim (take (length part - 2) part) else part

module _ (U : Unicode) (codec : Codec) where
  armored_or : List ℕ → Text → Payload
  armored_or decoded armored =
      if truthy armored then payload (codec.encode armored) else payload decoded

  decoded_part : Option (List ℕ) → Payload
  unfolding armored_or
  decoded_part none = undecodable
  decoded_part (some decoded) = armored_or decoded (extract_armored_block (codec.decode decoded))

  -- A part with its headers; `no_payload` where the loop goes on.
  part_payload : Option (Dict Text) → Text → Payload
  unfolding decoded_part
  part_payload none body = no_payload
  part_payload (some headers) body =
      let type = value_of (lit "content-type") headers in
      if includes_ci type (lit "application/pgp-encrypted") && has_version_1 body
      then no_payload
      else if includes_ci type (lit "application/octet-stream")
          || includes_ci type (lit "application/pgp-encrypted")
          || looks_like_armored_message body
      then decoded_part
          (decode_transfer_bytes U codec body (value_of (lit "content-transfer-encoding") headers))
      else no_payload

  cut_part : Option (Text × Text) → Payload
  unfolding part_payload
  cut_part none = no_payload
  cut_part (some (block, body)) =
      if truthy block
      then part_payload (parse_mime_headers block) (strip_newlines body)
      else no_payload

  unfoldable pub read_part : Text → Payload
  unfolding cut_part
  read_part raw =
      let part = trim raw in
      if not (truthy part) || text_eq part (lit "--")
      then no_payload
      else cut_part (split_first (10 ∷ 10 ∷ []) (without_dashes part))

  or_next : Payload → Payload → Payload
  or_next no_payload next = next
  or_next (payload bytes) next = payload bytes
  or_next undecodable next = undecodable

  unfoldable pub read_parts : List Text → Payload
  unfolding or_next
  read_parts [] = no_payload
  read_parts (raw ∷ raws) = let next = read_parts raws in or_next (read_part raw) next

  payload_with : Text → Option (Dict Text) → Payload
  payload_with body none = no_payload
  payload_with body (some headers) =
      let content_type = value_of (lit "content-type") headers in
      let boundary = boundary_of (λ c. c == 34 || c == 59 || c == 10) content_type in
      if not (includes_ci content_type (lit "multipart/encrypted")) || not (truthy boundary)
      then no_payload
      else read_parts (split_on (lit "--" ++ boundary) body)

  cut_message : Option (Text × Text) → Payload
  unfolding payload_with
  cut_message none = no_payload
  cut_message (some (block, body)) =
      if truthy block then payload_with body (parse_mime_headers block) else no_payload

  unfoldable pub extract_pgp_mime_payload : List ℕ → Payload
  unfolding cut_message
  extract_pgp_mime_payload bytes =
      cut_message (split_first (10 ∷ 10 ∷ []) (normalize_newlines (codec.decode bytes)))
