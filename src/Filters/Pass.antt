-- ===== src/Filters/Pass.antt =====
-- static/mail/mail-filter-engine.js: the hash of the rules, and one pass over the inbox. The pass is
-- a state machine: `pump` fills at most three slots, and each job ends at a time that the environment
-- chooses. `JSON.stringify` of the slim rules is a parameter.
pub mod Candidates
pub mod Once
pub mod Tracking
pub mod Progress
pub mod Again
pub mod Shared
use Prim.Native.Nat.{bit_xor}
use elvish_email.Base.{
  ℕ, zero, suc, ◌+◌, ◌*◌, ◌/◌, ◌%◌, ◌^◌, Bool, true, false, not, ◌&&◌, ◌||◌, Option, none, some,
  List, [], ◌∷◌, ◌++◌, ltb, leb, if◌then◌else◌, length, any, ◌≡◌, is_some,
}
use elvish_email.Base.Text.{Text, text_eq, truthy, Unicode}
use elvish_email.Filters.Ledger.{
  Disk, sync_rules_hash, already_applied, record_applied, prune_missing,
}
use elvish_email.Filters.Match.{Message, Context, build_context, text_or_empty}
use elvish_email.Filters.Rules.{Action, Rule, normalize_rules, pick_first_matching_rule}
use elvish_email.Filters.Actions.{filter_supported_actions, action_fingerprint}

-- `h = (h * 33) ^ json.charCodeAt(i)`, with the 32-bit pattern of `h` as a number.
unfoldable pub hash_text : ℕ → Text → ℕ
hash_text h [] = h
hash_text h (c ∷ s) = hash_text (bit_xor (h * 33 % 2 ^ 32) c) s

unfoldable pub hex_digit : ℕ → ℕ
hex_digit n = if leb n 9 then 48 + n else 87 + n

-- `n.toString(16)`; eight digits are enough below 2 ^ 32.
unfoldable pub to_hex : ℕ → ℕ → Text
unfolding hex_digit
to_hex zero n = []
to_hex (suc fuel) n =
    let front = to_hex fuel (n / 16) in
    if ltb n 16 then hex_digit n ∷ [] else front ++ hex_digit (n % 16) ∷ []

unfoldable pub stable_rules_hash : (List Rule → Text) → List Rule → Text
unfolding hash_text to_hex
stable_rules_hash stringify rules = b'r' ∷ to_hex 8 (hash_text 5381 (stringify rules))

-- What `pump` has found when it calls `applyActions`.
pub record Job : Type 0 where
  pub message : Text
  pub rule : Rule
  pub fingerprint : Text

-- The variables of one call of `pump`, which all its iterations and callbacks share. `msg` and `hit`
-- are `none` before the first assignment and where `null` was assigned.
pub record Vars : Type 0 where
  pub msg : Option Message
  pub hit : Option Rule
  pub fp : Text

-- The actions of a job are under way; its callbacks will see the variables of their call of `pump`.
pub record Slot : Type 0 where
  pub job : Job
  pub vars : Vars

pub record PassState : Type 0 where
  pub queue : List (Option Message)
  pub in_flight : List Slot
  pub reload_pending : Bool
  pub disk : Disk
  pub reloads : ℕ
  pub resolved : Bool

abbrev pub max_concurrent : ℕ
max_concurrent = 3

abbrev pub actions_of : Rule → List Action
actions_of r = elim r.actions [ none ↦ [] | some acts ↦ acts ]

-- `idSet`
abbrev pub listed : List (Option Message) → Text → Bool
listed [] id = false
listed (none ∷ ms) id = listed ms id
listed (some m ∷ ms) id =
    let here = truthy (text_or_empty m.id) && text_eq (text_or_empty m.id) id in
    here || listed ms id

module _ (U : Unicode) (stringify : List Rule → Text) (body_by_id : Text → Option Text)
    (raw : List (Option Rule)) where
  abbrev rules : List Rule
  rules = normalize_rules U raw

  abbrev rules_hash : Text
  rules_hash = stable_rules_hash stringify rules

  -- The guards of `pump` behind the choice of a rule.
  unfoldable pub job_for_rule : Text → Disk → Option Rule → Option Job
  job_for_rule id disk none = none
  job_for_rule id disk (some hit) =
      let acts = filter_supported_actions U (actions_of hit) in
      let fp = action_fingerprint acts in
      if ltb 0 (length acts)
      then (if already_applied id (text_or_empty hit.id) fp rules_hash disk
          then none
          else some (record { message = id; rule = hit; fingerprint = fp }))
      else none

  -- The job that `pump` starts for a message, if it does not `continue`.
  unfoldable pub job_for : Disk → Option Message → Option Job
  unfolding job_for_rule
  job_for disk none = none
  job_for disk (some m) =
      let id = text_or_empty m.id in
      let hit = pick_first_matching_rule U rules (build_context m (body_by_id id) none) in
      if truthy id then job_for_rule id disk hit else none

  -- What one iteration assigns, whether or not it starts a job.
  unfoldable pub assign : Option Message → Vars → Vars
  assign none v = record v { msg = none }
  assign (some m) v =
      let id = text_or_empty m.id in
      let hit = pick_first_matching_rule U rules (build_context m (body_by_id id) none) in
      let acts = filter_supported_actions U (elim hit [ none ↦ [] | some r ↦ actions_of r ]) in
      if truthy id
      then record {
        msg = some m;
        hit = hit;
        fp = if ltb 0 (length acts) then action_fingerprint acts else v.fp;
      }
      else record v { msg = some m }

  abbrev pub count_job : Option Job → ℕ → ℕ
  count_job none n = n
  count_job (some j) n = n + 1

  abbrev pub add_job : Option Job → List Job → List Job
  add_job none js = js
  add_job (some j) js = j ∷ js

  -- The `while` loop: the queue that it leaves, the jobs that it starts and its variables.
  unfoldable pub fill :
      Disk → List (Option Message) → ℕ → Vars → List (Option Message) × List Job × Vars
  unfolding assign
  fill disk [] n v = ([], [], v)
  fill disk (m ∷ queue) n v =
      let o = job_for disk m in
      let (left, js, w) = fill disk queue (count_job o n) (assign m v) in
      if ltb n max_concurrent then (left, add_job o js, w) else (m ∷ queue, [], v)

  abbrev pub slots : Vars → List Job → List Slot
  slots v [] = []
  slots v (j ∷ js) = record { job = j; vars = v } ∷ slots v js

  abbrev pub unassigned : Vars
  unassigned = record { msg = none; hit = none; fp = [] }

  -- What stands behind the loop.
  unfoldable pub settle : Bool → PassState → PassState
  settle on_reload s = elim s.in_flight [
    | [] ↦ elim s.queue [
      | [] ↦ record s {
        resolved = true;
        reloads = if s.reload_pending && on_reload then s.reloads + 1 else s.reloads;
      }
      | _ ∷ _ ↦ s
    ]
    | _ ∷ _ ↦ s
  ]

  unfoldable pub pump : Bool → PassState → PassState
  unfolding fill settle
  pump on_reload s =
      let (queue, js, v) = fill s.disk s.queue (length s.in_flight) unassigned in
      settle on_reload (record s { queue = queue; in_flight = s.in_flight ++ slots v js })

  -- The ledger is brought up to date before the first message is looked at.
  unfoldable pub initial : List (Option Message) → Disk → PassState
  initial messages disk = record {
    queue = messages;
    in_flight = [];
    reload_pending = false;
    disk = prune_missing (listed messages) (sync_rules_hash rules_hash disk);
    reloads = 0;
    resolved = false;
  }

  -- `runInboxFilterPass` up to the return of its promise.
  unfoldable pub start : Bool → List (Option Message) → Disk → PassState
  unfolding pump initial
  start on_reload messages disk = pump on_reload (initial messages disk)

  -- The callback of a fulfilled `applyActions`. Where `msg` or `hit` is null it throws, which the
  -- `catch` behind it ignores.
  unfoldable pub on_fulfilled : Option Message → Option Rule → Text → PassState → PassState
  on_fulfilled (some m) (some r) fp s = record s {
    disk = record_applied (text_or_empty m.id) (text_or_empty r.id) fp rules_hash s.disk;
    reload_pending = true;
  }
  on_fulfilled _ _ fp s = s

  -- The promise of `applyActions` is fulfilled (`ok`) or rejected, and its slot is given back.
  unfoldable pub close_job : Bool → Slot → List Slot → PassState → PassState
  unfolding on_fulfilled
  close_job ok slot others s =
      let freed = record s { in_flight = others } in
      if ok then on_fulfilled slot.vars.msg slot.vars.hit slot.vars.fp freed else freed

  unfoldable pub finish : Bool → Bool → Slot → List Slot → PassState → PassState
  unfolding close_job pump
  finish on_reload ok slot others s = pump on_reload (close_job ok slot others s)

  -- One job ends, whichever it is.
  pub data Step (on_reload : Bool) (s : PassState) : PassState → Type 0 where
    end_job :
        (ok : Bool) (before after : List Slot) (slot : Slot)
        → s.in_flight ≡ before ++ slot ∷ after
        → Step on_reload s (finish on_reload ok slot (before ++ after) s)

  pub data Reach (on_reload : Bool) (s : PassState) : PassState → Type 0 where
    here : Reach on_reload s s
    next : {t u : PassState} → Reach on_reload s t → Step on_reload t u → Reach on_reload s u
