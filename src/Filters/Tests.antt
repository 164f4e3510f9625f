-- ===== src/Filters/Tests.antt =====
-- The filters on one message and one rule: static/mail/mail-filter-ledger.js and
-- static/mail/mail-filter-engine.js.
use mathlib.Core.List.{Memᴰ}
use mathlib.Core.List.Memᴰ
use elvish_email.Base.{
  ◌≡◌, ◌↔◌, ◌⊎◌, ◌≤◌, ◌∙◌, ℕ, sym, refl, Bool, true, false, Option, none, some, List, [], ◌∷◌, ◌++◌,
  ◌&&◌, suc, not, ◌==◌, if◌then◌else◌, ltb, length,
}
use elvish_email.Base.Text.{
  Text, lit, ascii, text_eq, is_space, trim, trim_start, starts_with, ends_with, includes, truthy,
}
use elvish_email.Base.Dict.{get, put, restrict}
use elvish_email.Filters.Ledger.{
  Disk, missing, of_raw, read_store, write_store, ensure_rules_hash, sync_rules_hash, entry_matches,
  already_applied, record_applied, prune_missing,
}
use elvish_email.Filters.Match.{
  Condition, Message, Context, build_context, supported_condition, norm, match_string, match_type,
  condition_matches,
}
use elvish_email.Filters.Rules.{
  Action, Rule, pos, negsuc, not_disabled, is_active, active_rules, before, insert_rule, sort_rules,
  normalize_rules, conditions_match, rule_matches, pick_first_matching_rule,
}
use elvish_email.Filters.Actions.{
  Call, resolved, rejected, run, run_supported, apply_actions, supported_action, action_type,
  filter_supported_actions, quote_unit, quote_body, json_string, json_action, json_actions,
  action_fingerprint,
}
use elvish_email.Filters.Pass
use elvish_email.Filters.Pass.{
  Job, Vars, Slot, PassState, assign, on_fulfilled, hash_text, to_hex, stable_rules_hash, listed,
  start, pump, fill, settle, job_for, job_for_rule, initial, close_job, finish, Step, end_job,
  Reach, here, next,
}
use elvish_email.Filters.Pass.Candidates.{HasDistinctIds}
use elvish_email.Filters.Pass.Tracking
use elvish_email.Filters.Pass.Shared.{IsUnmatched}
use elvish_email.Filters.Pass.Again.{unmatched_last-again}
use elvish_email.Filters.Pass.Once.{second_pass_idle}
use elvish_email.Filters.Pass.Progress.{IsSettled, events, pass_ends, pass-IsSettled}
use elvish_email.Filters.Rules.Sorted.{AtLeast, IsNormal, overflow, normalize_rules-IsNormal}
use elvish_email.Filters.Rules.Priority.{pick-normalize-AtLeast}
use elvish_email.Filters.Match.Laws.{StringTest, match_string_iff}
use elvish_email.Filters.Actions.Laws.{plan, passed_over, perform_all, ending, apply_actions-plan}
use elvish_email.Filters.Ledger.Laws.{IsUsable, IsKeyed, already_applied-record}

-- Everything that a pass computes with.
engine : Unit {0}
unfolding lit text_eq is_space trim_start trim starts_with includes get put restrict of_raw
    read_store write_store ensure_rules_hash sync_rules_hash entry_matches already_applied
    record_applied prune_missing build_context supported_condition norm match_string match_type
    condition_matches not_disabled is_active active_rules before insert_rule sort_rules
    normalize_rules conditions_match rule_matches pick_first_matching_rule supported_action
    action_type filter_supported_actions quote_unit quote_body json_string json_action json_actions
    action_fingerprint hash_text to_hex Pass.hex_digit stable_rules_hash job_for_rule job_for
    ends_with run run_supported apply_actions fill settle pump initial start close_job finish assign
    on_fulfilled
engine = tt

abbrev from_bob : Condition
from_bob = record { type = some (lit "sender"); operator = none; value = some (lit "bob") }

abbrev read_it : Action
read_it = record { type = some (lit "mark_read"); value = none }

abbrev rule_bob : Rule
rule_bob = record {
  id = some (lit "r1");
  enabled = none;
  priority = pos 5;
  created_at = none;
  conditions = some (some from_bob ∷ []);
  actions = some (read_it ∷ []);
}

abbrev mail : Message
mail = record {
  id = some (lit "m1");
  subject = none;
  from_addr = some (lit "Bob@example.org");
  to_addrs = none;
  has_attachments = false;
  attachments = 0;
}

abbrev inbox : List (Option Message)
inbox = some mail ∷ []

abbrev rules : List (Option Rule)
rules = some rule_bob ∷ []

abbrev no_json : List Rule → Text
no_json rs = []

abbrev no_body : Text → Option Text
no_body id = none

abbrev new_disk : Disk
new_disk = record { cell = missing; readable = true; writable = true }

abbrev the_job : Job
the_job = record {
  message = lit "m1";
  rule = rule_bob;
  fingerprint = lit "[{\"type\":\"mark_read\",\"value\":\"\"}]";
}

abbrev the_slot : Slot
the_slot = record {
  job = the_job;
  vars = record { msg = some mail; hit = some rule_bob; fp = the_job.fingerprint };
}

abbrev started : PassState
started = start ascii no_json no_body rules true inbox new_disk

one_job : started.in_flight ≡ [] ++ the_slot ∷ []
unfolding engine
one_job = refl

abbrev run_once :
    Reach ascii no_json no_body rules true started
      (finish ascii no_json no_body rules true true the_slot [] started)
run_once = next here (end_job true [] [] the_slot one_job)

some_inj : {m n : Message} → some m ≡ some n → m ≡ n
some_inj e = cc

one_message : HasDistinctIds inbox
one_message m n (Memᴰ.head e) (Memᴰ.head f) q = some_inj (e ∙ sym f)
one_message m n (Memᴰ.tail k) h q = absurd (Memᴰ.not-nil k)
one_message m n (Memᴰ.head e) (Memᴰ.tail k) q = absurd (Memᴰ.not-nil k)

abbrev ended : PassState
ended = finish ascii no_json no_body rules true true the_slot [] started

usable : IsUsable new_disk
usable = record { reads = refl; writes = refl }

resolved_at_end : ended.resolved ≡ true
unfolding engine
resolved_at_end = refl

the_slot-IsOwn : Tracking.IsOwn ascii no_json no_body rules the_slot
the_slot-IsOwn = record {
  message = mail;
  same_message = refl;
  same_id = refl;
  same_rule = refl;
  same_fingerprint = refl;
}

second_pass_idle_example :
    let again = start ascii no_json no_body rules true inbox ended.disk in
    (again.in_flight ≡ []) × (again.queue ≡ []) × (again.resolved ≡ true) × (again.reloads ≡ 0)
second_pass_idle_example =
    second_pass_idle ascii no_json no_body rules true inbox new_disk run_once one_message usable
      (tt, refl, the_slot-IsOwn) resolved_at_end

-- A message that no rule is for stands behind the one of Bob's.
abbrev other_mail : Message
other_mail = record mail { id = some (lit "m2"); from_addr = some (lit "alice@example.org") }

abbrev two_started : PassState
two_started = start ascii no_json no_body rules true (inbox ++ some other_mail ∷ []) new_disk

abbrev blind_slot : Slot
blind_slot = record the_slot {
  vars = record { msg = some other_mail; hit = none; fp = the_job.fingerprint };
}

blind_job : two_started.in_flight ≡ [] ++ blind_slot ∷ []
unfolding engine
blind_job = refl

nothing_queued : two_started.queue ≡ []
unfolding engine
nothing_queued = refl

other_mail-IsUnmatched : IsUnmatched ascii no_json no_body rules other_mail
unfolding engine
other_mail-IsUnmatched = (refl, refl)

abbrev blind_end : PassState
blind_end = finish ascii no_json no_body rules true true blind_slot [] two_started

unmatched_last-again_example :
    let messages = inbox ++ some other_mail ∷ [] in
    (blind_end.disk ≡ (initial ascii no_json no_body rules messages new_disk).disk)
    × (blind_end.reloads ≡ 0)
    × ((start ascii no_json no_body rules true messages blind_end.disk).in_flight
        ≡ two_started.in_flight)
unmatched_last-again_example =
    unmatched_last-again ascii no_json no_body rules true inbox other_mail new_disk usable
      other_mail-IsUnmatched nothing_queued (next here (end_job true [] [] blind_slot blind_job))

pass_ends_example :
    (events ascii no_json no_body rules run_once ≤ length inbox)
    × ((ended.resolved ≡ true) ⊎ ((u : PassState) × Step ascii no_json no_body rules true ended u))
pass_ends_example = pass_ends ascii no_json no_body rules true inbox new_disk run_once

pass-IsSettled_example : IsSettled ended
pass-IsSettled_example = pass-IsSettled ascii no_json no_body rules true inbox new_disk run_once

abbrev rule_low : Rule
rule_low = record rule_bob { id = some (lit "r0"); priority = negsuc 2 }

abbrev both_rules : List (Option Rule)
both_rules = some rule_low ∷ none ∷ some rule_bob ∷ []

abbrev mail_context : Context
mail_context = build_context mail none none

picked :
    pick_first_matching_rule ascii (normalize_rules ascii both_rules) mail_context ≡ some rule_bob
unfolding engine
picked = refl

low_matches : rule_matches ascii rule_low mail_context ≡ true
unfolding engine
low_matches = refl

low_is_active : is_active (some rule_low) ≡ true
unfolding engine
low_is_active = refl

pick-normalize-AtLeast_example : AtLeast rule_bob rule_low
pick-normalize-AtLeast_example =
    pick-normalize-AtLeast ascii mail_context both_rules rule_bob rule_low picked (Memᴰ.head refl)
      low_is_active low_matches

normalize_rules-IsNormal_example :
    IsNormal both_rules (normalize_rules ascii both_rules) (overflow ascii both_rules)
normalize_rules-IsNormal_example = normalize_rules-IsNormal ascii both_rules

match_string_iff_example :
    (match_string ascii (lit " Bob@example.org") (lit "BOB") (lit "starts_with") ≡ true)
    ↔ StringTest (lit "starts_with") (norm ascii (lit " Bob@example.org")) (norm ascii (lit "BOB"))
match_string_iff_example =
    match_string_iff ascii (lit " Bob@example.org") (lit "BOB") (lit "starts_with")

match_string_test :
    (match_string ascii (lit " Bob@example.org") (lit "BOB") (lit "starts_with") ≡ true)
    × (match_string ascii (lit "Bob") [] (lit "contains") ≡ false)
unfolding engine
match_string_test = (refl, refl)

-- A server that counts the calls and refuses the second.
abbrev counting : Call → ℕ → ℕ × Bool
counting c n = (suc n, not (n == 1))

abbrev three_actions : List Action
three_actions =
    read_it
    ∷ record { type = some (lit "move"); value = some (lit "Work") }
    ∷ record { type = some (lit "delete"); value = none }
    ∷ []

apply_actions-plan_example : apply_actions ascii counting true (lit "m1") three_actions 0 ≡ (
    if true && (truthy (lit "m1") && ltb 0 (length (filter_supported_actions ascii three_actions)))
    then (let (s', ok) = perform_all counting (plan ascii (lit "m1") three_actions) 0 in
        (
          s',
          ending ok (passed_over ascii (lit "m1") (filter_supported_actions ascii three_actions)),
        ))
    else (0, resolved false []))
apply_actions-plan_example = apply_actions-plan ascii (lit "m1") counting true three_actions 0

apply_actions_test : apply_actions ascii counting true (lit "m1") three_actions 0 ≡ (2, rejected)
unfolding engine
apply_actions_test = refl

m1-IsKeyed : IsKeyed (lit "m1") (lit "r1") (lit "h")
unfolding lit
m1-IsKeyed = record { has_message = refl; has_rule = refl; has_hash = refl }

already_applied-record_example :
    already_applied
      (lit "m1")
      (lit "r1")
      (lit "f")
      (lit "h")
      (record_applied (lit "m1") (lit "r1") (lit "f") (lit "h") new_disk)
    ≡ (if text_eq (lit "m1") (lit "m1")
        then text_eq (lit "r1") (lit "r1") && text_eq (lit "f") (lit "f")
        else already_applied (lit "m1") (lit "r1") (lit "f") (lit "h") new_disk)
already_applied-record_example =
    already_applied-record (lit "m1") (lit "r1") (lit "f") (lit "h") new_disk (lit "m1") (lit "r1")
      (lit "f") usable m1-IsKeyed m1-IsKeyed

abbrev full_disk : Disk
full_disk = record new_disk { writable = false }
