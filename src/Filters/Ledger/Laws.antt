-- ===== src/Filters/Ledger/Laws.antt =====
-- What the ledger remembers, of every operation on it.
use elvish_email.Base.{◌≡◌, Bool, true, false, ◌&&◌, [], arith, if◌then◌else◌}
use elvish_email.Base.Text.{Text, text_eq, text_eq_iff, text_eq_refl, truthy}
use elvish_email.Base.Dict.{get, put, restrict, get-put, get-restrict, get-empty}
use elvish_email.Filters.Ledger.{
  Entry, Store, Disk, read_store, write_store, ensure_rules_hash, sync_rules_hash, entry_matches,
  already_applied, record_applied, prune_missing,
}

-- A disk on which reads and writes succeed.
pub record IsUsable (d : Disk) : Type 0 where
  pub reads : d.readable ≡ true
  pub writes : d.writable ≡ true

-- The three identifiers that the ledger wants non-empty.
pub record IsKeyed (msg rule h : Text) : Type 0 where
  pub has_message : truthy msg ≡ true
  pub has_rule : truthy rule ≡ true
  pub has_hash : truthy h ≡ true

pub read-write : (s : Store) (d : Disk) → IsUsable d → read_store (write_store s d) ≡ s
unfolding read_store write_store
read-write s d u = ground arith

pub write-IsUsable : (s : Store) (d : Disk) → IsUsable d → IsUsable (write_store s d)
unfolding write_store
write-IsUsable s d u = ground arith

pub sync-IsUsable : (h : Text) (d : Disk) → IsUsable d → IsUsable (sync_rules_hash h d)
unfolding sync_rules_hash
sync-IsUsable h d u = ground arith

pub record-IsUsable :
    (msg rule fp h : Text) (d : Disk) → IsUsable d → IsUsable (record_applied msg rule fp h d)
unfolding record_applied
record-IsUsable msg rule fp h d u = ground arith

-- The store's part of `record`.
abbrev recorded : Text → Text → Text → Text → Store → Store
recorded msg rule fp h s = record {
  rules_hash = h;
  entries =
      put msg (record { rule_id = rule; action_fingerprint = fp; rules_hash = h })
        (if text_eq s.rules_hash h then s.entries else []);
}

read-record :
    (msg rule fp h : Text) (d : Disk)
    → IsUsable d
    → IsKeyed msg rule h
    → read_store (record_applied msg rule fp h d) ≡ recorded msg rule fp h (read_store d)
unfolding record_applied read_store write_store ensure_rules_hash
read-record msg rule fp h d u k = ground (arith, text_eq_iff (read_store d).rules_hash h)

-- The store's part of `alreadyApplied`.
abbrev answer : Text → Text → Text → Text → Store → Bool
answer msg rule fp h s = text_eq s.rules_hash h && entry_matches rule fp h (get msg s.entries)

already_applied-answer :
    (msg rule fp h : Text) (d : Disk)
    → IsKeyed msg rule h
    → already_applied msg rule fp h d ≡ answer msg rule fp h (read_store d)
unfolding already_applied
already_applied-answer msg rule fp h d k = ground arith

answer-recorded :
    (msg rule fp h : Text) (s : Store) (msg' rule' fp' : Text)
    → answer msg' rule' fp' h (recorded msg rule fp h s) ≡ (
        if text_eq msg msg'
        then text_eq rule rule' && text_eq fp fp'
        else answer msg' rule' fp' h s)
unfolding entry_matches
answer-recorded msg rule fp h s msg' rule' fp' =
    let e : Entry = record { rule_id = rule; action_fingerprint = fp; rules_hash = h } in
    ground (
      arith,
      text_eq_refl h,
      get-empty {V = Entry} msg',
      get-put msg msg' e s.entries,
      get-put msg msg' e [],
    )

-- With a usable disk and non-empty identifiers, the ledger answers after record with the new entry
-- for the recorded message, and for another message what it answered before under the same hash.
pub already_applied-record :
    (msg rule fp h : Text) (d : Disk) (msg' rule' fp' : Text)
    → IsUsable d
    → IsKeyed msg rule h
    → IsKeyed msg' rule' h
    → already_applied msg' rule' fp' h (record_applied msg rule fp h d) ≡ (
        if text_eq msg msg'
        then text_eq rule rule' && text_eq fp fp'
        else already_applied msg' rule' fp' h d)
already_applied-record msg rule fp h d msg' rule' fp' u k k' =
    rw (already_applied-answer msg' rule' fp' h (record_applied msg rule fp h d) k') (
      rw (read-record msg rule fp h d u k) (
        rw (already_applied-answer msg' rule' fp' h d k')
          (answer-recorded msg rule fp h (read_store d) msg' rule' fp')))

read-prune :
    (keep : Text → Bool) (d : Disk)
    → IsUsable d
    → read_store (prune_missing keep d)
      ≡ record (read_store d) { entries = restrict keep (read_store d).entries }
unfolding prune_missing
read-prune keep d u = read-write _ d u

-- With a usable disk and non-empty identifiers, pruning forgets exactly the messages that are not
-- listed: the others keep their answer.
pub already_applied-prune :
    (keep : Text → Bool) (d : Disk) (msg rule fp h : Text)
    → IsUsable d
    → IsKeyed msg rule h
    → already_applied msg rule fp h (prune_missing keep d)
      ≡ (keep msg && already_applied msg rule fp h d)
unfolding entry_matches
already_applied-prune keep d msg rule fp h u k =
    rw (already_applied-answer msg rule fp h (prune_missing keep d) k) (
      rw (read-prune keep d u) (
        rw (already_applied-answer msg rule fp h d k)
          (ground (arith, get-restrict keep msg (read_store d).entries))))

read-sync :
    (h : Text) (d : Disk)
    → IsUsable d
    → read_store (sync_rules_hash h d) ≡ (
        if text_eq (read_store d).rules_hash h
        then read_store d
        else record { rules_hash = h; entries = [] })
unfolding sync_rules_hash read_store ensure_rules_hash write_store
read-sync h d u = ground arith

-- With a usable disk and non-empty identifiers, after syncRulesHash h every answer under h is what
-- it was, and under any other hash every answer is no.
pub already_applied-sync :
    (h : Text) (d : Disk) (msg rule fp h' : Text)
    → IsUsable d
    → IsKeyed msg rule h'
    → already_applied msg rule fp h' (sync_rules_hash h d)
      ≡ (text_eq h h' && already_applied msg rule fp h' d)
unfolding entry_matches
already_applied-sync h d msg rule fp h' u k =
    rw (already_applied-answer msg rule fp h' (sync_rules_hash h d) k) (
      rw (read-sync h d u) (
        rw (already_applied-answer msg rule fp h' d k) (
          ground (
            arith,
            get-empty {V = Entry} msg,
            text_eq_iff (read_store d).rules_hash h,
            text_eq_iff (read_store d).rules_hash h',
            text_eq_iff h h',
          ))))

-- Where setItem throws, record is lost: the disk stays as it was.
pub record_unwritable :
    (msg rule fp h : Text) (d : Disk) → d.writable ≡ false → record_applied msg rule fp h d ≡ d
unfolding record_applied write_store ensure_rules_hash
record_unwritable msg rule fp h d e = ground arith
