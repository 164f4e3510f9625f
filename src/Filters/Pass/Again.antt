-- ===== src/Filters/Pass/Again.antt =====
-- static/mail/mail-filter-engine.js: the pass after one that recorded nothing.
use mathlib.Core.List.{Memᴰ}
use elvish_email.Base.{
  ℕ, ◌≡◌, ◌∙◌, refl, ap, sym, Bool, Option, none, some, List, [], ◌∷◌, ◌++◌, arith,
}
use elvish_email.Base.Text.{Text, Unicode}
use elvish_email.Filters.Ledger.{Disk}
use elvish_email.Filters.Ledger.Laws.{IsUsable}
use elvish_email.Filters.Match.{Message}
use elvish_email.Filters.Rules.{Rule}
use elvish_email.Filters.Pass.{
  Job, Vars, PassState, job_for, assign, count_job, fill, slots, unassigned, settle, pump, initial,
  start, Reach,
}
use elvish_email.Filters.Pass.Candidates
use elvish_email.Filters.Pass.Tracking.{initial-IsUsable}
use elvish_email.Filters.Pass.Once.{applied-initial}
use elvish_email.Filters.Pass.Shared.{IsUnmatched, unmatched_last-forgotten}

module _ (U : Unicode) (stringify : List Rule → Text) (body_by_id : Text → Option Text)
    (raw : List (Option Rule)) where
  abbrev candidate : Message → Option Job
  candidate = Candidates.candidate U stringify body_by_id raw

  abbrev applied : Job → Disk → Bool
  applied = Candidates.applied U stringify body_by_id raw

  abbrev job_for_ : Disk → Option Message → Option Job
  job_for_ = job_for U stringify body_by_id raw

  abbrev fill_ : Disk → List (Option Message) → ℕ → Vars → List (Option Message) × List Job × Vars
  fill_ = fill U stringify body_by_id raw

  -- Two disks on which the ledger answers alike for the messages of a queue.
  abbrev Agree : Disk → Disk → List (Option Message) → Type 0
  Agree d e queue =
      (m : Message) (j : Job)
      → Memᴰ (some m) queue
      → candidate m ≡ some j
      → applied j d ≡ applied j e

  job_for-Agree :
      (d e : Disk) (x : Option Message) (queue : List (Option Message))
      → Agree d e (x ∷ queue)
      → job_for_ d x ≡ job_for_ e x
  job_for-Agree d e none queue a = unfold job_for in refl
  job_for-Agree d e (some m) queue a =
      Candidates.job_for-candidate U stringify body_by_id raw d m
      ∙ alike (candidate m) refl
      ∙ sym (Candidates.job_for-candidate U stringify body_by_id raw e m)
    where
      alike :
          (o : Option Job)
          → candidate m ≡ o
          → Candidates.unless_applied U stringify body_by_id raw d o
            ≡ Candidates.unless_applied U stringify body_by_id raw e o
      alike none c = refl
      alike (some j) c = rw (a m j (Memᴰ.head refl) c) refl

  fill-Agree :
      (d e : Disk) (queue : List (Option Message)) (n : ℕ) (v : Vars)
      → Agree d e queue
      → fill_ d queue n v ≡ fill_ e queue n v
  unfolding fill
  fill-Agree d e [] n v a = refl
  fill-Agree d e (x ∷ queue) n v a =
      let same = job_for-Agree d e x queue a in
      let o = job_for_ e x in
      let rest =
        fill-Agree d e queue (count_job U stringify body_by_id raw o n)
          (assign U stringify body_by_id raw x v) (λ m j k c. a m j (Memᴰ.tail k) c) in
      rw (same, rest) refl

  start_flight :
      (on_reload : Bool) (messages : List (Option Message)) (d : Disk)
      → let f =
          fill_
            (initial U stringify body_by_id raw messages d).disk
            messages
            0
            (unassigned U stringify body_by_id raw) in
        (start U stringify body_by_id raw on_reload messages d).in_flight
        ≡ slots U stringify body_by_id raw f.2 f.1
  unfolding start pump settle initial
  start_flight on_reload messages d = ground arith

  -- Bringing the ledger up to date twice changes no job.
  start-initial :
      (on_reload : Bool) (messages : List (Option Message)) (d : Disk)
      → IsUsable d
      → (start U stringify body_by_id raw on_reload messages
          (initial U stringify body_by_id raw messages d).disk).in_flight
        ≡ (start U stringify body_by_id raw on_reload messages d).in_flight
  start-initial on_reload messages d u =
      let d1 = (initial U stringify body_by_id raw messages d).disk in
      let d2 = (initial U stringify body_by_id raw messages d1).disk in
      let same = fill-Agree d2 d1 messages 0 (unassigned U stringify body_by_id raw) (λ m j k c.
        applied-initial U stringify body_by_id raw messages d1 m j
          (initial-IsUsable U stringify body_by_id raw messages d u) k c) in
      start_flight on_reload messages d1
      ∙ ap (λ f. slots U stringify body_by_id raw f.2 f.1) same
      ∙ sym (start_flight on_reload messages d)

-- Where the ledger can be read and written, the last message of the inbox matches no rule and the
-- first jobs leave nothing in the queue, a pass records nothing and asks for no reload, whichever
-- of its jobs are fulfilled and in whatever order: the ledger stays as the pass found it once it
-- had brought it up to date, and another pass over the same messages and rules starts the same jobs
-- again.
pub unmatched_last-again :
    (U : Unicode) (stringify : List Rule → Text) (body_by_id : Text → Option Text)
    (raw : List (Option Rule)) (on_reload : Bool) (queue : List (Option Message)) (m : Message)
    (disk : Disk) {t : PassState}
    → IsUsable disk
    → IsUnmatched U stringify body_by_id raw m
    → (start U stringify body_by_id raw on_reload (queue ++ some m ∷ []) disk).queue ≡ []
    → Reach U stringify body_by_id raw on_reload
        (start U stringify body_by_id raw on_reload (queue ++ some m ∷ []) disk)
        t
    → let messages = queue ++ some m ∷ [] in
      (t.disk ≡ (initial U stringify body_by_id raw messages disk).disk)
      × (t.reloads ≡ 0)
      × ((start U stringify body_by_id raw on_reload messages t.disk).in_flight
          ≡ (start U stringify body_by_id raw on_reload messages disk).in_flight)
unmatched_last-again U stringify body_by_id raw on_reload queue m disk {t} usable u e r =
    let (same, quiet) =
      unmatched_last-forgotten U stringify body_by_id raw on_reload queue m disk u e r in
    (
      same,
      quiet,
      ap (λ d. (start U stringify body_by_id raw on_reload (queue ++ some m ∷ []) d).in_flight) same
          ∙ start-initial U stringify body_by_id raw on_reload (queue ++ some m ∷ []) disk usable,
    )
