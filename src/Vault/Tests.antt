-- ===== src/Vault/Tests.antt =====
-- Witnesses for static/auth/unlock.js, with a key that is its own fingerprint.
use elvish_email.Base.{◌≡◌, ◌≢◌, refl, true, false, none, some, List, [], ◌∷◌}
use elvish_email.Base.Text.{
  Text, lit, truthy, ascii, text_eq, trim, trim_start, is_space, slice_last,
}
use elvish_email.Base.Dict.{get, put}
use elvish_email.Vault.Storage.{
  WebStorage, Browser, storage, set_trusted_flag, flag_in, flag_is_set,
}
use elvish_email.Vault.Storage.Laws.{SplitFlag, IsFresh, set_trusted_flag-alternates}
use elvish_email.Vault.Fingerprint.{
  strip_spaces, normalize_fingerprint, fingerprint_key_id16, fingerprints_equivalent,
}
use elvish_email.Vault.State.{OpenPgp, Identity, State, touch, zero_state, is_unlocked}
use elvish_email.Vault.Unlock.{
  ok, err, incorrect_password, IdRow, check_account, store_account, hydrate_checked,
  hydrate_unlocked_account, armored_wrapped, open_identity, store_identity, store_opened,
  with_account, unlock_identity, get_identity, get_by_key,
}
use elvish_email.Vault.Unlock.Laws.{
  IsUnlockedWith, IsLocked, hydrate-IsUnlockedWith, zero-IsLocked, store_identity-after_zero,
}
use elvish_email.Vault.Unlock.Consistent.{IsConsistent}
use elvish_email.Vault.Unlock.Invariant.{
  Event, touched, zeroed, account_unlocked, identity_unlocked, handle_all, initial_state, ReadsKeys,
  handle_all-IsConsistent, get_identity-unlock,
}

abbrev plain : OpenPgp
plain = record {
  Private = Text;
  Public = Text;
  Kek = Text;
  loaded = true;
  read_private_key = λ t. some t;
  read_key = λ t. some t;
  get_fingerprint = λ k. k;
  pgp_fingerprint = λ t. some t;
  decrypt = λ k t. some t;
  decode_b64 = λ t. some t;
  derive_kek = λ p k. some p;
  aes_unwrap = λ k t. some t;
}

vault : Unit {0}
unfolding lit text_eq is_space trim_start trim slice_last get put strip_spaces normalize_fingerprint
    fingerprint_key_id16 fingerprints_equivalent touch zero_state is_unlocked check_account
    store_account hydrate_checked hydrate_unlocked_account armored_wrapped open_identity
    store_identity store_opened with_account unlock_identity get_identity get_by_key flag_in
    flag_is_set
vault = tt

abbrev start_state : State plain
start_state = initial_state ascii plain

abbrev unlocked : State plain
unlocked = (hydrate_unlocked_account ascii plain 7 (lit "ab12") (lit "ab12") [] start_state).1

unlocks :
    hydrate_unlocked_account ascii plain 7 (lit "ab12") (lit "ab12") [] start_state
    ≡ (ok (lit "AB12"), unlocked)
unfolding vault
unlocks = refl

hydrate-IsUnlockedWith_example :
    IsUnlockedWith ascii plain (lit "ab12") (lit "ab12") [] (lit "AB12") 7 unlocked
hydrate-IsUnlockedWith_example =
    hydrate-IsUnlockedWith ascii plain 7 (lit "ab12") (lit "ab12") [] start_state unlocked
      (lit "AB12") unlocks

abbrev every_key_reads : ReadsKeys ascii plain
every_key_reads a f e = (a, refl)

-- After an attempt with the wrong private key.
abbrev refused : State plain
refused = (hydrate_unlocked_account ascii plain 8 (lit "cd34") (lit "ab12") [] unlocked).1

refuses :
    hydrate_unlocked_account ascii plain 8 (lit "cd34") (lit "ab12") [] unlocked
    ≡ (err incorrect_password, refused)
unfolding vault
refuses = refl

zero-IsLocked_example : IsLocked ascii plain (zero_state plain unlocked)
zero-IsLocked_example = zero-IsLocked ascii plain unlocked

abbrev row : IdRow
row = record {
  fingerprint = [];
  email = lit "me@elvish.email";
  armored_public = lit "ef56";
  wrapped_secret_armored = lit "ef56";
  wrapped_secret_b64 = [];
  is_default = false;
}

abbrev me : Identity plain
me = record {
  email = lit "me@elvish.email";
  private_key = lit "ef56";
  public_key = lit "ef56";
  armored_pub = lit "ef56";
  armored_priv = lit "ef56";
}

opens : open_identity ascii plain (lit "ab12") row ≡ ok (lit "EF56", me)
unfolding vault
opens = refl

store_identity-after_zero_example :
    let t = store_identity ascii plain 9 row (lit "EF56") me (zero_state plain unlocked) in
    (is_unlocked plain t ≡ false)
    × (get (lit "EF56") t.identities ≡ some me)
    × (t.default_identity_fingerprint ≡ lit "EF56")
store_identity-after_zero_example =
    store_identity-after_zero ascii plain 9 row (lit "ab12") (lit "EF56") me unlocked opens

abbrev session_of_use : List (Event ascii plain)
session_of_use =
    account_unlocked 7 (lit "ab12") (lit "ab12") []
    ∷ identity_unlocked 9 row
    ∷ touched 10
    ∷ zeroed
    ∷ []

handle_all-IsConsistent_example :
    IsConsistent ascii plain (handle_all ascii plain session_of_use start_state)
handle_all-IsConsistent_example = handle_all-IsConsistent ascii plain session_of_use every_key_reads

abbrev with_me : State plain
with_me = (unlock_identity ascii plain 9 row unlocked).1

unlocks_me : unlock_identity ascii plain 9 row unlocked ≡ (ok (lit "EF56"), with_me)
unfolding vault
unlocks_me = refl

me_named :
    (truthy (lit "ef56") ≡ true)
    × (truthy (lit "EF56") ≡ true)
    × (fingerprint_key_id16 ascii (ascii.upper (lit "ef56")) ≡ lit "EF56")
unfolding vault
me_named = (refl, refl, refl)

get_identity-unlock_example :
    (account : Text) × (ident : Identity plain) × (unlocked.account_private_key ≡ some account)
    × (open_identity ascii plain account row ≡ ok (lit "EF56", ident))
    × ((get_identity ascii plain 12 (lit "ef56") with_me).0 ≡ some ident)
get_identity-unlock_example =
    get_identity-unlock ascii plain 9 12 row unlocked with_me (lit "EF56") (lit "ef56") unlocks_me
      me_named.0 me_named.1 me_named.2

abbrev empty_storage : WebStorage
empty_storage = record { flag = none; cache = none; writable = true }

abbrev flagged : WebStorage
flagged = record empty_storage { flag = some (lit "1") }

abbrev new_browser : Browser
new_browser = record { session = some empty_storage; local = some empty_storage }

abbrev flagged_browser : Browser
flagged_browser = record { session = some flagged; local = some empty_storage }

split : SplitFlag flagged_browser flagged empty_storage
unfolding vault
split = record { session = refl; local = refl; in_session = refl; not_in_local = refl }

fresh : IsFresh new_browser empty_storage empty_storage
fresh = record {
  session = refl;
  local = refl;
  no_session_flag = refl;
  no_local_flag = refl;
  writes = refl;
}

set_trusted_flag-alternates_example :
    storage (set_trusted_flag 10 true new_browser) 5
    ≢ storage (set_trusted_flag 10 true new_browser) 3
set_trusted_flag-alternates_example =
    set_trusted_flag-alternates new_browser 7 2 empty_storage empty_storage fresh

same_key : fingerprints_equivalent ascii (lit "ab 12") (lit "AB12") ≡ true
unfolding vault
same_key = refl
