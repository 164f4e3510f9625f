-- ===== src/Filters/Pass/Progress.antt =====
-- static/mail/mail-filter-engine.js: the slots of a pass, and its end.
use elvish_email.Base.{
  ◌∙◌, ◌≡◌, sym, ◌⊎◌, ◌≤◌, ◌<◌, ◌+◌, ℕ, suc, refl, ap, Bool, true, false, Option, none, some, List,
  [], ◌∷◌, ◌++◌, arith, length, length-append, Bool-cases, inl, inr,
}
use elvish_email.Base.Text.{Text, Unicode}
use elvish_email.Filters.Ledger.{Disk}
use elvish_email.Filters.Match.{Message}
use elvish_email.Filters.Rules.{Rule}
use elvish_email.Filters.Pass.{
  on_fulfilled, Job, Vars, Slot, PassState, max_concurrent, job_for, assign, count_job, add_job,
  slots, unassigned, fill, settle, pump, initial, start, close_job, finish, Step, end_job, Reach,
  here, next,
}

-- Work that is left.
abbrev pub remaining : PassState → ℕ
remaining s = length s.queue + length s.in_flight

-- A state between two events.
pub record IsSettled (s : PassState) : Type 0 where
  pub bounded : length s.in_flight ≤ max_concurrent
  pub busy : s.in_flight ≡ [] → s.queue ≡ []
  pub ended : s.resolved ≡ true → remaining s ≡ 0
  pub ends : remaining s ≡ 0 → s.resolved ≡ true

module _ (U : Unicode) (stringify : List Rule → Text) (body_by_id : Text → Option Text)
    (raw : List (Option Rule)) where
  abbrev fill_ : Disk → List (Option Message) → ℕ → Vars → List (Option Message) × List Job × Vars
  fill_ = fill U stringify body_by_id raw

  abbrev count : Option Job → ℕ → ℕ
  count = count_job U stringify body_by_id raw

  abbrev add : Option Job → List Job → List Job
  add = add_job U stringify body_by_id raw

  count-add :
      (o : Option Job) (n : ℕ) (js : List Job) → count o n + length js ≡ n + length (add o js)
  count-add none n js = refl
  count-add (some j) n js = omega arith

  count-le : (o : Option Job) (n : ℕ) → count o n ≤ n + 1
  count-le none n = omega arith
  count-le (some j) n = omega arith

  fill-bounded :
      (disk : Disk) (queue : List (Option Message)) (n : ℕ) (v : Vars)
      → n ≤ max_concurrent
      → n + length (fill_ disk queue n v).1 ≤ max_concurrent
  unfolding fill
  fill-bounded disk [] n v h = omega arith
  fill-bounded disk (m ∷ queue) n v h =
      let o = job_for U stringify body_by_id raw disk m in
      let w = assign U stringify body_by_id raw m v in
      ground (
        arith,
        fill-bounded disk queue (count o n) w,
        count-le o n,
        count-add o n (fill_ disk queue (count o n) w).1,
      )

  fill-le :
      (disk : Disk) (queue : List (Option Message)) (n : ℕ) (v : Vars)
      → length (fill_ disk queue n v).0 + length (fill_ disk queue n v).1 ≤ length queue
  unfolding fill
  fill-le disk [] n v = omega arith
  fill-le disk (m ∷ queue) n v =
      let o = job_for U stringify body_by_id raw disk m in
      let w = assign U stringify body_by_id raw m v in
      ground (
        arith,
        fill-le disk queue (count o n) w,
        count-le o n,
        count-add o n (fill_ disk queue (count o n) w).1,
      )

  fill-busy :
      (disk : Disk) (queue : List (Option Message)) (n : ℕ) (v : Vars)
      → n + length (fill_ disk queue n v).1 ≡ 0
      → (fill_ disk queue n v).0 ≡ []
  unfolding fill
  fill-busy disk [] n v e = refl
  fill-busy disk (m ∷ queue) n v e =
      let o = job_for U stringify body_by_id raw disk m in
      let w = assign U stringify body_by_id raw m v in
      ground (
        arith,
        fill-busy disk queue (count o n) w,
        count-add o n (fill_ disk queue (count o n) w).1,
      )

  length-slots :
      (v : Vars) (js : List Job) → length (slots U stringify body_by_id raw v js) ≡ length js
  length-slots v [] = refl
  length-slots v (j ∷ js) = ap suc (length-slots v js)

  abbrev pump_ : Bool → PassState → PassState
  pump_ = pump U stringify body_by_id raw

  settle-IsSettled :
      (on_reload : Bool) (s : PassState)
      → length s.in_flight ≤ max_concurrent
      → (length s.in_flight ≡ 0 → s.queue ≡ [])
      → s.resolved ≡ false
      → IsSettled (settle U stringify body_by_id raw on_reload s)
        × (remaining (settle U stringify body_by_id raw on_reload s) ≡ remaining s)
  unfolding settle
  settle-IsSettled on_reload s h e r = ground (arith, h, e, r)

  filled : PassState → PassState
  filled s =
      let (queue, js, v) =
        fill_ s.disk s.queue (length s.in_flight) (unassigned U stringify body_by_id raw) in
      record s { queue = queue; in_flight = s.in_flight ++ slots U stringify body_by_id raw v js }

  length-filled :
      (s : PassState)
      → length (filled s).in_flight
        ≡ length s.in_flight
          + length
              (fill_ s.disk s.queue (length s.in_flight) (unassigned U stringify body_by_id raw)).1
  unfolding filled
  length-filled s =
      let f = fill_ s.disk s.queue (length s.in_flight) (unassigned U stringify body_by_id raw) in
      length-append s.in_flight (slots U stringify body_by_id raw f.2 f.1)
      ∙ ap (λ k. length s.in_flight + k) (length-slots f.2 f.1)

  pump-IsSettled :
      (on_reload : Bool) (s : PassState)
      → length s.in_flight ≤ max_concurrent
      → s.resolved ≡ false
      → IsSettled (pump_ on_reload s) × (remaining (pump_ on_reload s) ≤ remaining s)
  unfolding pump filled
  pump-IsSettled on_reload s h r =
      let v = unassigned U stringify body_by_id raw in
      let n = length s.in_flight in
      let grown = length-filled s in
      let (i, e) =
        settle-IsSettled on_reload (filled s)
          (omega (arith, grown, fill-bounded s.disk s.queue n v h))
          (λ z. fill-busy s.disk s.queue n v (sym grown ∙ z)) r in
      (i, omega (arith, e, grown, fill-le s.disk s.queue n v))

  length-middle :
      (before after : List Slot) (job : Slot)
      → length (before ++ job ∷ after) ≡ suc (length (before ++ after))
  length-middle before after job =
      omega (arith, length-append {0} before (job ∷ after), length-append {0} before after)

  -- A settled state that holds a job has not resolved.
  still_open :
      {s : PassState} {n : ℕ} → IsSettled s → length s.in_flight ≡ suc n → s.resolved ≡ false
  still_open {s} i n = elim (Bool-cases s.resolved) [
    | inl done ↦ absurd (omega (arith, i.ended done))
    | inr open_ ↦ open_
  ]

  fulfilled_parts :
      (m : Option Message) (r : Option Rule) (fp : Text) (s : PassState)
      → let u = on_fulfilled U stringify body_by_id raw m r fp s in
        (u.in_flight ≡ s.in_flight) × (u.queue ≡ s.queue) × (u.resolved ≡ s.resolved)
  unfolding on_fulfilled
  fulfilled_parts none r fp s = (refl, refl, refl)
  fulfilled_parts (some m) none fp s = (refl, refl, refl)
  fulfilled_parts (some m) (some r) fp s = (refl, refl, refl)

  pub close_parts :
      (ok : Bool) (slot : Slot) (others : List Slot) (s : PassState)
      → let u = close_job U stringify body_by_id raw ok slot others s in
        (u.in_flight ≡ others) × (u.queue ≡ s.queue) × (u.resolved ≡ s.resolved)
  unfolding close_job
  close_parts false slot others s = (refl, refl, refl)
  close_parts true slot others s =
      fulfilled_parts slot.vars.msg slot.vars.hit slot.vars.fp (record s { in_flight = others })

  -- Each event leaves less work.
  Step-IsSettled :
      {on_reload : Bool} {s t : PassState}
      → Step U stringify body_by_id raw on_reload s t
      → IsSettled s
      → IsSettled t × (remaining t < remaining s)
  unfolding finish
  Step-IsSettled {on_reload} {s} (end_job ok before after job e) i =
      let n : length s.in_flight ≡ suc (length (before ++ after)) =
        ap length e ∙ length-middle before after job in
      let (f, q, r) = close_parts ok job (before ++ after) s in
      let freed = ap length f in
      let (j, less) =
        pump-IsSettled on_reload (close_job U stringify body_by_id raw ok job (before ++ after) s)
          (omega (arith, i.bounded, n, freed)) (r ∙ still_open i n) in
      (j, omega (arith, less, n, freed, ap length q))

  -- The events of a run.
  pub events :
      {on_reload : Bool} {s t : PassState} → Reach U stringify body_by_id raw on_reload s t → ℕ
  events here = 0
  events (next r st) = suc (events r)

  Reach-IsSettled :
      {on_reload : Bool} {s t : PassState} (r : Reach U stringify body_by_id raw on_reload s t)
      → IsSettled s
      → IsSettled t × (events r + remaining t ≤ remaining s)
  unfolding events
  Reach-IsSettled here i = (i, omega arith)
  Reach-IsSettled (next r st) i =
      let (j, n) = Reach-IsSettled r i in
      let (k, less) = Step-IsSettled st j in (k, omega (arith, n, less))

  start-IsSettled :
      (on_reload : Bool) (messages : List (Option Message)) (disk : Disk)
      → IsSettled (start U stringify body_by_id raw on_reload messages disk)
        × (remaining (start U stringify body_by_id raw on_reload messages disk) ≤ length messages)
  unfolding start
  start-IsSettled on_reload messages disk =
      let (i, le) =
        pump-IsSettled on_reload (initial U stringify body_by_id raw messages disk)
          (unfold initial in omega arith) (unfold initial in refl) in
      (i, unfold initial in omega (arith, le))

  -- A state that has not resolved has an event to come.
  Step-exists :
      (on_reload : Bool) (s : PassState)
      → IsSettled s
      → (s.resolved ≡ true) ⊎ ((t : PassState) × Step U stringify body_by_id raw on_reload s t)
  Step-exists on_reload s i = go s.in_flight refl
    where
      go :
          (flight : List Slot)
          → s.in_flight ≡ flight
          → (s.resolved ≡ true) ⊎ ((t : PassState) × Step U stringify body_by_id raw on_reload s t)
      go [] e = inl (i.ends (omega (arith, ap length e, ap length (i.busy e))))
      go (j ∷ js) e = inr (_, end_job true [] js j e)

-- Whenever the jobs end and however, a pass keeps at most three jobs under way and has resolved
-- exactly when neither a message nor a job is left.
pub pass-IsSettled :
    (U : Unicode) (stringify : List Rule → Text) (body_by_id : Text → Option Text)
    (raw : List (Option Rule)) (on_reload : Bool) (messages : List (Option Message)) (disk : Disk)
    {t : PassState}
    → Reach U stringify body_by_id raw on_reload
        (start U stringify body_by_id raw on_reload messages disk)
        t
    → IsSettled t
pass-IsSettled U stringify body_by_id raw on_reload messages disk r =
    (Reach-IsSettled U stringify body_by_id raw r
      (start-IsSettled U stringify body_by_id raw on_reload messages disk).0).0

-- A pass ends: at every reachable state it has resolved or some job can end, and no more jobs end
-- than there are messages.
pub pass_ends :
    (U : Unicode) (stringify : List Rule → Text) (body_by_id : Text → Option Text)
    (raw : List (Option Rule)) (on_reload : Bool) (messages : List (Option Message)) (disk : Disk)
    {t : PassState}
    (r : Reach U stringify body_by_id raw on_reload
      (start U stringify body_by_id raw on_reload messages disk)
      t)
    → (events U stringify body_by_id raw r ≤ length messages)
      × ((t.resolved ≡ true) ⊎ ((u : PassState) × Step U stringify body_by_id raw on_reload t u))
pass_ends U stringify body_by_id raw on_reload messages disk {t} r =
    let (i, le) = start-IsSettled U stringify body_by_id raw on_reload messages disk in
    let (j, n) = Reach-IsSettled U stringify body_by_id raw r i in
    (omega (arith, n, le), Step-exists U stringify body_by_id raw on_reload t j)
