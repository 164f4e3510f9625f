-- ===== src/Filters/Ledger.antt =====
-- static/mail/mail-filter-ledger.js: which filter actions were applied already. `localStorage` is a
-- cell that holds one raw value and may refuse a write.
pub mod Laws
use elvish_email.Base.{
  ◌≡◌, Bool, true, false, not, ◌&&◌, ◌||◌, Option, none, some, List, [], if◌then◌else◌,
}
use elvish_email.Base.Text.{Text, text_eq, truthy}
use elvish_email.Base.Dict.{Dict, get, put, restrict}

pub record Entry : Type 0 where
  pub rule_id : Text
  pub action_fingerprint : Text
  pub rules_hash : Text

pub record Store : Type 0 where
  pub rules_hash : Text
  pub entries : Dict Entry

-- What `localStorage.getItem` and `JSON.parse` can give: nothing or the empty string, a text that
-- does not parse or parses to no object, or an object whose two fields may have a wrong type.
pub data Raw : Type 0 where
  missing : Raw
  unparsable : Raw
  not_object : Raw
  object : Option Text → Option (Dict Entry) → Raw

-- `readable` is false where `getItem` throws, `writable` where `setItem` throws.
pub record Disk : Type 0 where
  pub cell : Raw
  pub readable : Bool
  pub writable : Bool

abbrev pub empty_store : Store
empty_store = record { rules_hash = []; entries = [] }

abbrev or_default {ℓ} : {A : Type ℓ} → A → Option A → A
or_default d none = d
or_default d (some a) = a

unfoldable pub of_raw : Raw → Store
of_raw missing = empty_store
of_raw unparsable = empty_store
of_raw not_object = empty_store
of_raw (object h es) = record { rules_hash = or_default [] h; entries = or_default [] es }

unfoldable pub read_store : Disk → Store
unfolding of_raw
read_store d = if d.readable then of_raw d.cell else empty_store

-- A failed write is swallowed.
unfoldable pub write_store : Store → Disk → Disk
write_store s d =
    if d.writable then record d { cell = object (some s.rules_hash) (some s.entries) } else d

-- The caller's object and the disk, both after the call.
unfoldable pub ensure_rules_hash : Store → Text → Disk → Store × Disk
unfolding write_store
ensure_rules_hash s h d =
    if text_eq s.rules_hash h
    then (s, d)
    else let fresh : Store = record { rules_hash = h; entries = [] } in (fresh, write_store fresh d)

unfoldable pub sync_rules_hash : Text → Disk → Disk
unfolding read_store ensure_rules_hash
sync_rules_hash h d = (ensure_rules_hash (read_store d) h d).1

unfoldable pub entry_matches : Text → Text → Text → Option Entry → Bool
entry_matches rule fp h none = false
entry_matches rule fp h (some e) =
    text_eq e.rule_id rule && text_eq e.action_fingerprint fp && text_eq e.rules_hash h

unfoldable pub already_applied : Text → Text → Text → Text → Disk → Bool
unfolding read_store entry_matches
already_applied msg rule fp h d =
    if not (truthy msg) || not (truthy rule) || not (truthy h)
    then false
    else if not (text_eq (read_store d).rules_hash h)
    then false
    else entry_matches rule fp h (get msg (read_store d).entries)

unfoldable pub record_applied : Text → Text → Text → Text → Disk → Disk
unfolding read_store write_store ensure_rules_hash
record_applied msg rule fp h d =
    if not (truthy msg) || not (truthy rule) || not (truthy h)
    then d
    else let (s, d') = ensure_rules_hash (read_store d) h d in
      let entry : Entry = record { rule_id = rule; action_fingerprint = fp; rules_hash = h } in
      write_store (record s { entries = put msg entry s.entries }) d'

unfoldable pub prune_missing : (Text → Bool) → Disk → Disk
unfolding read_store write_store
prune_missing keep d =
    write_store (record (read_store d) { entries = restrict keep (read_store d).entries }) d
