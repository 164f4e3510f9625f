-- ===== src/Filters/Pass/Shared.antt =====
-- static/mail/mail-filter-engine.js: the variables of `pump` that all jobs of one call share.
use mathlib.Core.Path.{subst}
use elvish_email.Base.{
  ◌∙◌, ℕ, ◌≡◌, ◌∙◌, refl, Bool, true, false, Option, none, some, List, [], ◌∷◌, ◌++◌, arith, length,
  ltb, Bool-cases, inl, inr, All,
}
use elvish_email.Base.Text.{Text, truthy, Unicode}
use elvish_email.Filters.Ledger.{Disk}
use elvish_email.Filters.Match.{Message, build_context, text_or_empty}
use elvish_email.Filters.Rules.{Rule, normalize_rules, pick_first_matching_rule}
use elvish_email.Filters.Pass.{
  Job, Vars, Slot, PassState, max_concurrent, job_for, assign, count_job, fill, slots, unassigned,
  settle, pump, initial, start, on_fulfilled, close_job, finish, end_job, Reach, here, next,
}

module _ (U : Unicode) (stringify : List Rule → Text) (body_by_id : Text → Option Text)
    (raw : List (Option Rule)) where
  -- A message that no rule is for.
  abbrev pub IsUnmatched : Message → Type 0
  IsUnmatched m =
      (truthy (text_or_empty m.id) ≡ true)
      × (pick_first_matching_rule U (normalize_rules U raw)
            (build_context m (body_by_id (text_or_empty m.id)) none)
          ≡ none)

  abbrev fill_ : Disk → List (Option Message) → ℕ → Vars → List (Option Message) × List Job × Vars
  fill_ = fill U stringify body_by_id raw

  -- A loop that gets to the end of the queue leaves what the last message assigned.
  fill-last :
      (d : Disk) (queue : List (Option Message)) (m : Message) (n : ℕ) (v : Vars)
      → IsUnmatched m
      → (fill_ d (queue ++ some m ∷ []) n v).0 ≡ []
      → (fill_ d (queue ++ some m ∷ []) n v).2.hit ≡ none
  unfolding fill assign
  fill-last d [] m n v u e = elim (Bool-cases (ltb n max_concurrent)) [
    | inl room ↦ rw (room, u.0) u.1
    | inr full ↦ absurd (cc (rw full at e))
  ]
  fill-last d (x ∷ queue) m n v u e =
      let o = job_for U stringify body_by_id raw d x in
      let ih =
        fill-last d queue m (count_job U stringify body_by_id raw o n)
          (assign U stringify body_by_id raw x v) u in
      elim (Bool-cases (ltb n max_concurrent)) [
        | inl room ↦ rw room (ih (rw room at e))
        | inr full ↦ absurd (cc (rw full at e))
      ]

  slots-share :
      (v : Vars) (js : List Job)
      → v.hit ≡ none
      → All (λ (x : Slot). x.vars.hit ≡ none) (slots U stringify body_by_id raw v js)
  slots-share v [] e = tt
  slots-share v (j ∷ js) e = (e, slots-share v js e)

  -- Nothing is left to look at, and no callback will find a rule.
  record IsDeaf (d : Disk) (s : PassState) : Type 0 where
    same : s.disk ≡ d
    none_left : s.queue ≡ []
    not_pending : s.reload_pending ≡ false
    not_asked : s.reloads ≡ 0
    no_rule : All (λ (x : Slot). x.vars.hit ≡ none) s.in_flight

  All-middle :
      (P : Slot → Type 0) (xs ys : List Slot) (y : Slot)
      → All P (xs ++ y ∷ ys)
      → P y × All P (xs ++ ys)
  All-middle P [] ys y h = h
  All-middle P (x ∷ xs) ys y h = let (p, q) = All-middle P xs ys y h.1 in (p, (h.0, q))

  All-join : (P : Slot → Type 0) (xs ys : List Slot) → All P xs → All P ys → All P (xs ++ ys)
  All-join P [] ys h k = k
  All-join P (x ∷ xs) ys h k = (h.0, All-join P xs ys h.1 k)

  settle_parts :
      (on_reload : Bool) (s : PassState)
      → s.reload_pending ≡ false
      → let u = settle U stringify body_by_id raw on_reload s in
        (u.disk ≡ s.disk)
        × (u.queue ≡ s.queue)
        × (u.reload_pending ≡ s.reload_pending)
        × (u.reloads ≡ s.reloads)
        × (s.in_flight ≡ u.in_flight)
  unfolding settle
  settle_parts on_reload s p = ground (arith, p)

  settle-IsDeaf :
      (on_reload : Bool) (d : Disk) (s : PassState)
      → IsDeaf d s
      → IsDeaf d (settle U stringify body_by_id raw on_reload s)
  settle-IsDeaf on_reload d s i =
      let (disk, queue, pending, reloads, flight) = settle_parts on_reload s i.not_pending in
      record {
        same = disk ∙ i.same;
        none_left = queue ∙ i.none_left;
        not_pending = pending ∙ i.not_pending;
        not_asked = reloads ∙ i.not_asked;
        no_rule = subst (λ xs. All (λ (x : Slot). x.vars.hit ≡ none) xs) flight i.no_rule;
      }

  -- A loop that empties the queue, with a frame in which no rule was found.
  pump-IsDeaf :
      (on_reload : Bool) (d : Disk) (s : PassState)
      → s.disk ≡ d
      → s.reload_pending ≡ false
      → s.reloads ≡ 0
      → All (λ (x : Slot). x.vars.hit ≡ none) s.in_flight
      → let f = fill_ s.disk s.queue (length s.in_flight) (unassigned U stringify body_by_id raw) in
        (f.0 ≡ [])
        → All (λ (x : Slot). x.vars.hit ≡ none) (slots U stringify body_by_id raw f.2 f.1)
        → IsDeaf d (pump U stringify body_by_id raw on_reload s)
  unfolding pump
  pump-IsDeaf on_reload d s same p r a e b =
      let f = fill_ s.disk s.queue (length s.in_flight) (unassigned U stringify body_by_id raw) in
      settle-IsDeaf on_reload d _ (record {
        same = same;
        none_left = e;
        not_pending = p;
        not_asked = r;
        no_rule = All-join _ s.in_flight (slots U stringify body_by_id raw f.2 f.1) a b;
      })

  fill-empty :
      (e : Disk) (queue : List (Option Message)) (n : ℕ) (v : Vars)
      → queue ≡ []
      → ((fill_ e queue n v).0 ≡ []) × ((fill_ e queue n v).1 ≡ [])
  unfolding fill
  fill-empty e [] n v q = (refl, refl)
  fill-empty e (m ∷ ms) n v q = cc

  pump_queue :
      (on_reload : Bool) (s : PassState)
      → (fill_ s.disk s.queue (length s.in_flight) (unassigned U stringify body_by_id raw)).0
        ≡ (pump U stringify body_by_id raw on_reload s).queue
  unfolding pump settle
  pump_queue on_reload s = ground arith

  again-IsDeaf :
      (on_reload : Bool) (d : Disk) (s : PassState)
      → IsDeaf d s
      → IsDeaf d (pump U stringify body_by_id raw on_reload s)
  again-IsDeaf on_reload d s i =
      let v = unassigned U stringify body_by_id raw in
      let (e, quiet) = fill-empty s.disk s.queue (length s.in_flight) v i.none_left in
      pump-IsDeaf on_reload d s i.same i.not_pending i.not_asked i.no_rule e (rw quiet tt)

  fulfilled-IsDeaf :
      (m : Option Message) (r : Option Rule) (fp : Text) (d : Disk) (s : PassState)
      → r ≡ none
      → IsDeaf d s
      → IsDeaf d (on_fulfilled U stringify body_by_id raw m r fp s)
  unfolding on_fulfilled
  fulfilled-IsDeaf none r fp d s e i = i
  fulfilled-IsDeaf (some m) none fp d s e i = i
  fulfilled-IsDeaf (some m) (some r) fp d s e i = cc

  close-IsDeaf :
      (ok : Bool) (before after : List Slot) (x : Slot) (d : Disk) (s : PassState)
      → s.in_flight ≡ before ++ x ∷ after
      → IsDeaf d s
      → IsDeaf d (close_job U stringify body_by_id raw ok x (before ++ after) s)
  unfolding close_job
  close-IsDeaf ok before after x d s e i =
      let (mine, others) = All-middle _ before after x (rw e at i.no_rule) in
      let freed : IsDeaf d (record s { in_flight = before ++ after }) = record {
        same = i.same;
        none_left = i.none_left;
        not_pending = i.not_pending;
        not_asked = i.not_asked;
        no_rule = others;
      } in
      elim (Bool-cases ok) [
        | inl h ↦ rw h (fulfilled-IsDeaf x.vars.msg x.vars.hit x.vars.fp d _ mine freed)
        | inr h ↦ rw h freed
      ]

  Reach-IsDeaf :
      {on_reload : Bool} {s t : PassState} (d : Disk)
      → Reach U stringify body_by_id raw on_reload s t
      → IsDeaf d s
      → IsDeaf d t
  unfolding finish
  Reach-IsDeaf d here i = i
  Reach-IsDeaf {on_reload} d (next {t = u} r (end_job ok before after x e)) i =
      again-IsDeaf on_reload d (close_job U stringify body_by_id raw ok x (before ++ after) u)
        (close-IsDeaf ok before after x d u e (Reach-IsDeaf d r i))

  start-IsDeaf :
      (on_reload : Bool) (queue : List (Option Message)) (m : Message) (disk : Disk)
      → let messages = queue ++ some m ∷ [] in
        IsUnmatched m
        → (start U stringify body_by_id raw on_reload messages disk).queue ≡ []
        → IsDeaf
            (initial U stringify body_by_id raw messages disk).disk
            (start U stringify body_by_id raw on_reload messages disk)
  unfolding start initial
  start-IsDeaf on_reload queue m disk u e =
      let s = initial U stringify body_by_id raw (queue ++ some m ∷ []) disk in
      let v = unassigned U stringify body_by_id raw in
      let f = fill_ s.disk s.queue 0 v in
      let all_seen : f.0 ≡ [] = pump_queue on_reload s ∙ e in
      pump-IsDeaf on_reload s.disk s refl refl refl tt all_seen
        (slots-share f.2 f.1 (fill-last s.disk queue m 0 v u all_seen))

-- Where the last message of the inbox matches no rule and the first jobs leave nothing in the
-- queue, a pass records nothing and asks for no reload, whichever of its jobs are fulfilled and in
-- whatever order: the ledger stays as the pass found it once it had brought it up to date.
pub unmatched_last-forgotten :
    (U : Unicode) (stringify : List Rule → Text) (body_by_id : Text → Option Text)
    (raw : List (Option Rule)) (on_reload : Bool) (queue : List (Option Message)) (m : Message)
    (disk : Disk) {t : PassState}
    → IsUnmatched U stringify body_by_id raw m
    → (start U stringify body_by_id raw on_reload (queue ++ some m ∷ []) disk).queue ≡ []
    → Reach U stringify body_by_id raw on_reload
        (start U stringify body_by_id raw on_reload (queue ++ some m ∷ []) disk)
        t
    → (t.disk ≡ (initial U stringify body_by_id raw (queue ++ some m ∷ []) disk).disk)
      × (t.reloads ≡ 0)
unmatched_last-forgotten U stringify body_by_id raw on_reload queue m disk u e r =
    let d = (initial U stringify body_by_id raw (queue ++ some m ∷ []) disk).disk in
    let i =
      Reach-IsDeaf U stringify body_by_id raw d r
        (start-IsDeaf U stringify body_by_id raw on_reload queue m disk u e) in
    (i.same, i.not_asked)
