-- ===== src/Filters/Pass/Tracking.antt =====
-- static/mail/mail-filter-engine.js: what becomes of each message during a pass.
use mathlib.Core.Path.{subst, subst₃}
use mathlib.Core.List.{Memᴰ}
use mathlib.Core.List.Memᴰ
use elvish_email.Base.{
  ℕ, ap, length, [], ◌∙◌, ◌⊎◌, ◌≡◌, sym, refl, Bool, true, Option, some, List, ◌∷◌, ◌++◌, arith,
  inl, inr,
}
use elvish_email.Base.Text.{Text, Unicode}
use elvish_email.Filters.Ledger.{Disk, sync_rules_hash, prune_missing}
use elvish_email.Filters.Ledger.Laws.{IsUsable, sync-IsUsable, record-IsUsable, write-IsUsable}
use elvish_email.Filters.Match.{Message, text_or_empty}
use elvish_email.Filters.Rules.{Rule}
use elvish_email.Filters.Pass.{
  Job, Vars, Slot, unassigned, slots, on_fulfilled, PassState, listed, fill, settle, pump, initial,
  start, close_job, finish, end_job, Reach, here, next,
}
use elvish_email.Filters.Pass.Candidates
use elvish_email.Filters.Pass.Candidates.{HasDistinctIds, mem-middle, mem-insert}

module _ (U : Unicode) (stringify : List Rule → Text) (body_by_id : Text → Option Text)
    (raw : List (Option Rule)) where
  abbrev second : Bool → List (Option Message) → Disk → PassState
  second = start U stringify body_by_id raw

  abbrev hash : Text
  hash = Candidates.hash U stringify body_by_id raw

  abbrev applied : Job → Disk → Bool
  applied = Candidates.applied U stringify body_by_id raw

  abbrev candidate : Message → Option Job
  candidate = Candidates.candidate U stringify body_by_id raw

  abbrev Waits : Disk → List (Option Message) → List Job → Message → Type 0
  Waits = Candidates.Waits U stringify body_by_id raw

  abbrev IsDone : Disk → Message → Type 0
  IsDone = Candidates.IsDone U stringify body_by_id raw

  abbrev IsFrom : List (Option Message) → Job → Type 0
  IsFrom = Candidates.IsFrom U stringify body_by_id raw

  abbrev fill_ : Disk → List (Option Message) → ℕ → Vars → List (Option Message) × List Job × Vars
  fill_ = fill U stringify body_by_id raw

  -- The jobs of some slots.
  abbrev pub jobs_of : List Slot → List Job
  jobs_of [] = []
  jobs_of (x ∷ xs) = x.job ∷ jobs_of xs

  jobs_of-append : (xs ys : List Slot) → jobs_of (xs ++ ys) ≡ jobs_of xs ++ jobs_of ys
  jobs_of-append [] ys = refl
  jobs_of-append (x ∷ xs) ys = ap (λ js. x.job ∷ js) (jobs_of-append xs ys)

  jobs_of-slots : (v : Vars) (js : List Job) → jobs_of (slots U stringify body_by_id raw v js) ≡ js
  jobs_of-slots v [] = refl
  jobs_of-slots v (j ∷ js) = ap (λ l. j ∷ l) (jobs_of-slots v js)

  abbrev record_job : Job → Disk → Disk
  record_job = Candidates.record_job U stringify body_by_id raw

  -- Between two events: the ledger works, and every message waits, is under way or is done with.
  pub record IsTracked (messages : List (Option Message)) (disk : Disk)
      (queue : List (Option Message)) (flight : List Job) : Type 0 where
    pub usable : IsUsable disk
    pub queued : (m : Message) → Memᴰ (some m) queue → Memᴰ (some m) messages
    pub jobs : (j : Job) → Memᴰ j flight → IsFrom messages j
    pub waits : (m : Message) → Memᴰ (some m) messages → Waits disk queue flight m

  abbrev pub Tracked : List (Option Message) → PassState → Type 0
  Tracked messages s = IsTracked messages s.disk s.queue (jobs_of s.in_flight)

  abbrev pump_ : Bool → PassState → PassState
  pump_ = pump U stringify body_by_id raw

  abbrev loop : PassState → List (Option Message) × List Job × Vars
  loop s = fill_ s.disk s.queue (length s.in_flight) (unassigned U stringify body_by_id raw)

  pump_parts :
      (on_reload : Bool) (s : PassState)
      → ((pump_ on_reload s).disk ≡ s.disk)
        × ((pump_ on_reload s).queue ≡ (loop s).0)
        × ((pump_ on_reload s).in_flight
            ≡ s.in_flight ++ slots U stringify body_by_id raw (loop s).2 (loop s).1)
  unfolding pump settle
  pump_parts on_reload s = ground arith

  -- What waited before the loop waits behind it.
  loop-Waits :
      (d : Disk) (queue left : List (Option Message)) (flight js : List Job) (m : Message)
      → (Memᴰ (some m) queue → Waits d left js m)
      → Waits d queue flight m
      → Waits d left (flight ++ js) m
  loop-Waits d queue left flight js m f (inl k) = elim (f k) [
    | inl l ↦ inl l
    | inr (inl (j, c, l)) ↦ inr (inl (j, c, Memᴰ.append_right flight l))
    | inr (inr done) ↦ inr (inr done)
  ]
  loop-Waits d queue left flight js m f (inr (inl (j, c, k))) =
      inr (inl (j, c, Memᴰ.append_left js k))
  loop-Waits d queue left flight js m f (inr (inr done)) = inr (inr done)

  pump-Tracked :
      (messages : List (Option Message)) (on_reload : Bool) (s : PassState)
      → Tracked messages s
      → Tracked messages (pump_ on_reload s)
  pump-Tracked messages on_reload s i =
      let (d, q, f) = pump_parts on_reload s in
      let (left, js, v) = loop s in
      let n = length s.in_flight in
      let w = unassigned U stringify body_by_id raw in
      let (inq, inf) =
        Candidates.fill-IsFrom U stringify body_by_id raw messages s.disk s.queue n w i.queued in
      let filled : IsTracked messages s.disk left (jobs_of s.in_flight ++ js) = record {
        usable = i.usable;
        queued = inq;
        jobs = λ j k. from j (Memᴰ.append_cases (jobs_of s.in_flight) k) (i.jobs j) (inf j);
        waits = λ m k.
            loop-Waits s.disk s.queue left (jobs_of s.in_flight) js m
              (Candidates.fill-Waits U stringify body_by_id raw s.disk s.queue n w m) (i.waits m k);
      } in
      let together : jobs_of s.in_flight ++ js ≡ jobs_of (pump_ on_reload s).in_flight = sym (
        ap jobs_of f
        ∙ jobs_of-append s.in_flight (slots U stringify body_by_id raw v js)
        ∙ ap (λ l. jobs_of s.in_flight ++ l) (jobs_of-slots v js)) in
      subst₃ (IsTracked messages) (sym d) (sym q) together filled
    where
      from : {P Q R : Type 0} (j : Job) → P ⊎ Q → (P → R) → (Q → R) → R
      from j (inl p) f g = f p
      from j (inr q) f g = g q

  close-Tracked :
      (messages : List (Option Message)) (d : Disk) (queue : List (Option Message))
      (before after : List Job) (job : Job)
      → HasDistinctIds messages
      → IsTracked messages d queue (before ++ job ∷ after)
      → IsTracked messages (record_job job d) queue (before ++ after)
  close-Tracked messages d queue before after job one i =
      let (m, km, cm) = i.jobs job (Memᴰ.append_right before (Memᴰ.head refl)) in
      record {
        usable = unfold Candidates.record_job in record-IsUsable _ _ _ _ d i.usable;
        queued = i.queued;
        jobs = λ j k. i.jobs j (mem-insert before after job k);
        waits = λ n kn. go m km cm n kn (i.waits n kn);
      }
    where
      go :
          (m : Message)
          → Memᴰ (some m) messages
          → candidate m ≡ some job
          → (n : Message) → Memᴰ (some n) messages
          → Waits d queue (before ++ job ∷ after) n
          → Waits (record_job job d) queue (before ++ after) n
      go m km cm n kn (inl k) = inl k
      go m km cm n kn (inr (inl (j, c, k))) = elim (mem-middle before after job k) [
        | inl e ↦ inr (
            inr (λ j' c'.
              Candidates.applied-record_job U stringify body_by_id raw messages d m n job j' one
                i.usable km kn cm c' (inr (cc (c, c', e)))))
        | inr k' ↦ inr (inl (j, c, k'))
      ]
      go m km cm n kn (inr (inr done)) = inr (
          inr (λ j' c'.
            Candidates.applied-record_job U stringify body_by_id raw messages d m n job j' one
              i.usable km kn cm c' (inl (done j' c'))))

  -- The variables that a slot shares still hold what its job was started with: no iteration came
  -- after its own.
  pub record IsOwn (x : Slot) : Type 0 where
    pub message : Message
    pub same_message : x.vars.msg ≡ some message
    pub same_id : text_or_empty message.id ≡ x.job.message
    pub same_rule : x.vars.hit ≡ some x.job.rule
    pub same_fingerprint : x.vars.fp ≡ x.job.fingerprint

  -- A run in which no job fails, and each ends with its own variables.
  abbrev pub NoFailure :
      {on_reload : Bool} {s t : PassState} → Reach U stringify body_by_id raw on_reload s t → Type 0
  NoFailure here = Unit
  NoFailure (next r (end_job ok before after x e)) = NoFailure r × (ok ≡ true) × IsOwn x

  own-record_job :
      (x : Slot) (others : List Slot) (s : PassState)
      → IsOwn x
      → let t = close_job U stringify body_by_id raw true x others s in
        (record_job x.job s.disk ≡ t.disk) × (s.queue ≡ t.queue) × (others ≡ t.in_flight)
  unfolding close_job on_fulfilled Candidates.record_job
  own-record_job x others s o =
      rw (o.same_message, o.same_rule, o.same_fingerprint, o.same_id) (refl, refl, refl)

  close-NoFailure :
      (ok : Bool) (before after : List Slot) (x : Slot) (s : PassState)
      (messages : List (Option Message))
      → HasDistinctIds messages
      → s.in_flight ≡ before ++ x ∷ after
      → ok ≡ true
      → IsOwn x
      → Tracked messages s
      → Tracked messages (close_job U stringify body_by_id raw ok x (before ++ after) s)
  close-NoFailure ok before after x s messages one e k own i =
      let (d, q, f) = own-record_job x (before ++ after) s own in
      let split : jobs_of s.in_flight ≡ jobs_of before ++ x.job ∷ jobs_of after =
        ap jobs_of e ∙ jobs_of-append before (x ∷ after) in
      rw k (
        subst₃ (IsTracked messages) d q (sym (jobs_of-append before after) ∙ ap jobs_of f) (
          close-Tracked messages s.disk s.queue (jobs_of before) (jobs_of after) x.job one
            (subst (λ l. IsTracked messages s.disk s.queue l) split i)))

  pub Reach-Tracked :
      {on_reload : Bool} {s t : PassState} (messages : List (Option Message))
      (r : Reach U stringify body_by_id raw on_reload s t)
      → HasDistinctIds messages
      → NoFailure r
      → Tracked messages s
      → Tracked messages t
  unfolding finish
  Reach-Tracked messages here one n i = i
  Reach-Tracked {on_reload} messages (next {t = u} r (end_job ok before after job e)) one n i =
      pump-Tracked messages on_reload
        (close_job U stringify body_by_id raw ok job (before ++ after) u)
        (close-NoFailure ok before after job u messages one e n.1 n.2
          (Reach-Tracked messages r one n.0 i))

  prune-IsUsable : (keep : Text → Bool) (d : Disk) → IsUsable d → IsUsable (prune_missing keep d)
  unfolding prune_missing
  prune-IsUsable keep d u = write-IsUsable _ d u

  pub initial-IsUsable :
      (messages : List (Option Message)) (d : Disk)
      → IsUsable d
      → IsUsable (initial U stringify body_by_id raw messages d).disk
  unfolding initial
  initial-IsUsable messages d u =
      prune-IsUsable (listed messages) (sync_rules_hash hash d) (sync-IsUsable hash d u)

  pub start-Tracked :
      (on_reload : Bool) (messages : List (Option Message)) (d : Disk)
      → IsUsable d
      → Tracked messages (second on_reload messages d)
  unfolding start
  start-Tracked on_reload messages d u =
      pump-Tracked messages on_reload (initial U stringify body_by_id raw messages d) (
        unfold initial in
        record {
          usable = initial-IsUsable messages d u;
          queued = λ m k. k;
          jobs = λ j k. elim k [ ];
          waits = λ m k. inl k;
        })
