-- ===== src/Filters/Pass/Once.antt =====
-- static/mail/mail-filter-engine.js: a second pass over the same inbox.
use mathlib.Core.List.{Memᴰ}
use elvish_email.Base.{
  ◌∙◌, ℕ, ◌+◌, ◌≡◌, sym, refl, Bool, true, Option, none, some, List, [], ◌∷◌, arith, length, inl,
  inr,
}
use elvish_email.Base.Text.{Text, text_eq_iff, text_eq_refl, truthy, Unicode}
use elvish_email.Filters.Ledger.{Disk, sync_rules_hash}
use elvish_email.Filters.Ledger.Laws.{
  IsUsable, already_applied-sync, already_applied-prune, sync-IsUsable,
}
use elvish_email.Filters.Match.{Message, text_or_empty}
use elvish_email.Filters.Rules.{Rule}
use elvish_email.Filters.Pass.{
  Job, Vars, Slot, assign, unassigned, PassState, listed, job_for, fill, settle, pump, initial,
  start, Reach,
}
use elvish_email.Filters.Pass.Progress.{pass-IsSettled}
use elvish_email.Filters.Pass.Candidates
use elvish_email.Filters.Pass.Candidates.{HasDistinctIds}
use elvish_email.Filters.Pass.Tracking.{jobs_of, NoFailure, Reach-Tracked, start-Tracked}

module _ (U : Unicode) (stringify : List Rule → Text) (body_by_id : Text → Option Text)
    (raw : List (Option Rule)) where
  abbrev second : Bool → List (Option Message) → Disk → PassState
  second = start U stringify body_by_id raw

  abbrev hash : Text
  hash = Candidates.hash U stringify body_by_id raw

  abbrev candidate : Message → Option Job
  candidate = Candidates.candidate U stringify body_by_id raw

  abbrev Waits : Disk → List (Option Message) → List Job → Message → Type 0
  Waits = Candidates.Waits U stringify body_by_id raw

  abbrev IsDone : Disk → Message → Type 0
  IsDone = Candidates.IsDone U stringify body_by_id raw

  abbrev fill_ : Disk → List (Option Message) → ℕ → Vars → List (Option Message) × List Job × Vars
  fill_ = fill U stringify body_by_id raw

  -- Nothing is left of the first pass: every message is done with.
  IsDone-at_end :
      (on_reload : Bool) (messages : List (Option Message)) (d : Disk) {t : PassState}
      (r : Reach U stringify body_by_id raw on_reload (second on_reload messages d) t)
      → HasDistinctIds messages
      → IsUsable d
      → NoFailure U stringify body_by_id raw r
      → t.resolved ≡ true
      → (m : Message) → Memᴰ (some m) messages
      → IsDone t.disk m
  IsDone-at_end on_reload messages d {t} r one u n e m k =
      let i =
        Reach-Tracked U stringify body_by_id raw messages r one n
          (start-Tracked U stringify body_by_id raw on_reload messages d u) in
      let settled = pass-IsSettled U stringify body_by_id raw on_reload messages d r in
      let left : length t.queue + length t.in_flight ≡ 0 = settled.ended e in
      go t.queue t.in_flight left (i.waits m k)
    where
      go :
          (queue : List (Option Message)) (flight : List Slot)
          → length queue + length flight ≡ 0
          → Waits t.disk queue (jobs_of U stringify body_by_id raw flight) m
          → IsDone t.disk m
      go [] [] z (inr (inr done)) = done
      go [] [] z (inl q) = elim q [ ]
      go [] [] z (inr (inl (j, c, q))) = elim q [ ]
      go (x ∷ queue) flight z w = absurd (omega arith)
      go [] (x ∷ flight) z w = absurd (omega arith)

  listed-mem :
      (messages : List (Option Message)) (m : Message)
      → Memᴰ (some m) messages
      → truthy (text_or_empty m.id) ≡ true
      → listed messages (text_or_empty m.id) ≡ true
  listed-mem [] m k h = elim k [ ]
  listed-mem (none ∷ ms) m (Memᴰ.head e) h = cc
  listed-mem (none ∷ ms) m (Memᴰ.tail k) h = listed-mem ms m k h
  listed-mem (some x ∷ ms) m (Memᴰ.head e) h =
      let same : text_or_empty m.id ≡ text_or_empty x.id = cc in
      ground (arith, h, same, (text_eq_iff (text_or_empty x.id) (text_or_empty m.id)).1 (sym same))
  listed-mem (some x ∷ ms) m (Memᴰ.tail k) h = ground (arith, listed-mem ms m k h)

  -- The ledger answers for a message of the inbox as it did before it was brought up to date.
  pub applied-initial :
      (messages : List (Option Message)) (d : Disk) (m : Message) (j : Job)
      → IsUsable d
      → Memᴰ (some m) messages
      → candidate m ≡ some j
      → Candidates.applied U stringify body_by_id raw j
          (initial U stringify body_by_id raw messages d).disk
        ≡ Candidates.applied U stringify body_by_id raw j d
  unfolding initial
  applied-initial messages d m j u k c =
      let (id, key) = Candidates.candidate-IsKeyed U stringify body_by_id raw m j c in
      let d' = sync_rules_hash hash d in
      let law =
        already_applied-prune (listed messages) d' j.message (text_or_empty j.rule.id) j.fingerprint
          hash (sync-IsUsable hash d u) key in
      let law' =
        already_applied-sync hash d j.message (text_or_empty j.rule.id) j.fingerprint hash u key in
      let there : listed messages j.message ≡ true =
        rw id (listed-mem messages m k (rw id at key.has_message)) in
      rw (law, there, law', text_eq_refl hash) refl

  -- What is done with stays so when the next pass has brought the ledger up to date.
  IsDone-initial :
      (messages : List (Option Message)) (d : Disk) (m : Message)
      → IsUsable d
      → Memᴰ (some m) messages
      → IsDone d m
      → IsDone (initial U stringify body_by_id raw messages d).disk m
  IsDone-initial messages d m u k done j c = applied-initial messages d m j u k c ∙ done j c

  no_job : (d : Disk) → job_for U stringify body_by_id raw d none ≡ none
  unfolding job_for
  no_job d = refl

  idle :
      (d : Disk) (queue : List (Option Message)) (v : Vars)
      → ((m : Message) → Memᴰ (some m) queue → IsDone d m)
      → ((fill_ d queue 0 v).0 ≡ []) × ((fill_ d queue 0 v).1 ≡ [])
  unfolding fill
  idle d [] v h = (refl, refl)
  idle d (none ∷ queue) v h =
      let quiet : job_for U stringify body_by_id raw d none ≡ none = no_job d in
      rw quiet (idle d queue (assign U stringify body_by_id raw none v) (λ m k. h m (Memᴰ.tail k)))
  idle d (some m ∷ queue) v h =
      let quiet : job_for U stringify body_by_id raw d (some m) ≡ none = skip (candidate m) refl in
      rw quiet
        (idle d queue (assign U stringify body_by_id raw (some m) v) (λ n k. h n (Memᴰ.tail k)))
    where
      skip :
          (o : Option Job) → candidate m ≡ o → job_for U stringify body_by_id raw d (some m) ≡ none
      skip none e = ground (arith, Candidates.job_for-candidate U stringify body_by_id raw d m, e)
      skip (some j) e = ground (
        arith,
        Candidates.job_for-candidate U stringify body_by_id raw d m,
        e,
        h m (Memᴰ.head refl) j e,
      )

-- Filter actions are applied once: after a pass that has resolved, in which no job failed, each job
-- ended while the variables that it shares with its call of pump still held its own message, rule
-- and fingerprint, and the ledger could be read and written, another pass over the same messages
-- (with distinct ids) and rules resolves at once, starts no job and asks for no reload.
pub second_pass_idle :
    (U : Unicode) (stringify : List Rule → Text) (body_by_id : Text → Option Text)
    (raw : List (Option Rule)) (on_reload : Bool) (messages : List (Option Message)) (d : Disk)
    {t : PassState}
    (r : Reach U stringify body_by_id raw on_reload
      (start U stringify body_by_id raw on_reload messages d)
      t)
    → HasDistinctIds messages
    → IsUsable d
    → NoFailure U stringify body_by_id raw r
    → t.resolved ≡ true
    → let again = start U stringify body_by_id raw on_reload messages t.disk in
      (again.in_flight ≡ []) × (again.queue ≡ []) × (again.resolved ≡ true) × (again.reloads ≡ 0)
unfolding start pump settle
second_pass_idle U stringify body_by_id raw on_reload messages d {t} r one u n e =
    let i =
      Reach-Tracked U stringify body_by_id raw messages r one n
        (start-Tracked U stringify body_by_id raw on_reload messages d u) in
    let none_left =
      idle U stringify body_by_id raw (initial U stringify body_by_id raw messages t.disk).disk
        messages (unassigned U stringify body_by_id raw)
        (λ m k.
          IsDone-initial U stringify body_by_id raw messages t.disk m i.usable k
            (IsDone-at_end U stringify body_by_id raw on_reload messages d r one u n e m k)) in
    unfold initial in ground (arith, none_left)
