-- ===== src/Filters/Pass/Candidates.antt =====
-- The job that a message calls for, and how the loop of `pump` and the ledger treat it.
use mathlib.Core.Path.{subst}
use mathlib.Core.List.{Memᴰ}
use elvish_email.Base.{
  ℕ, ◌≡◌, ◌⊎◌, ◌∙◌, sym, refl, ap, Bool, true, Option, none, some, List, [], ◌∷◌, ◌++◌, arith,
  if◌then◌else◌, length, Bool-cases, inl, inr, ltb, Option-cases, All,
}
use elvish_email.Base.Text.{Text, text_eq, text_eq_iff, truthy, trim, Unicode}
use elvish_email.Filters.Ledger.{Disk, already_applied, record_applied}
use elvish_email.Filters.Ledger.Laws.{IsUsable, IsKeyed, already_applied-record}
use elvish_email.Filters.Match.{Message, Context, build_context, text_or_empty}
use elvish_email.Filters.Rules.{Rule, normalize_rules, is_active, pick_first_matching_rule}
use elvish_email.Filters.Rules.Sorted.{normalize_rules-IsNormal}
use elvish_email.Filters.Actions.{filter_supported_actions, action_fingerprint}
use elvish_email.Filters.Pass.{
  Job, Vars, max_concurrent, actions_of, stable_rules_hash, job_for, assign, count_job, add_job,
  fill,
}

-- A string that trims to something holds something.
truthy-trim : (t : Text) → truthy (trim t) ≡ true → truthy t ≡ true
unfolding trim
truthy-trim [] h = cc
truthy-trim (c ∷ t) h = refl

active-truthy : (r : Rule) → is_active (some r) ≡ true → truthy (text_or_empty r.id) ≡ true
unfolding is_active
active-truthy r h = truthy-trim (text_or_empty r.id) (ground arith)

pick-truthy :
    (U : Unicode) (ctx : Context) (rs : List Rule) (r : Rule)
    → All (λ s. is_active (some s) ≡ true) rs
    → pick_first_matching_rule U rs ctx ≡ some r
    → truthy (text_or_empty r.id) ≡ true
unfolding pick_first_matching_rule
pick-truthy U ctx [] r h e = cc
pick-truthy U ctx (x ∷ rs) r h e = ground (arith, active-truthy x h.0, pick-truthy U ctx rs r h.1)

-- Where a member of a list with one element in the middle stands.
pub mem-middle {ℓ} :
    {A : Type ℓ} {x : A} (xs ys : List A) (z : A)
    → Memᴰ x (xs ++ z ∷ ys)
    → (x ≡ z) ⊎ Memᴰ x (xs ++ ys)
mem-middle [] ys z (Memᴰ.head e) = inl e
mem-middle [] ys z (Memᴰ.tail m) = inr m
mem-middle (w ∷ xs) ys z (Memᴰ.head e) = inr (Memᴰ.head e)
mem-middle (w ∷ xs) ys z (Memᴰ.tail m) = elim (mem-middle xs ys z m) [
  | inl e ↦ inl e
  | inr k ↦ inr (Memᴰ.tail k)
]

pub mem-insert {ℓ} :
    {A : Type ℓ} {x : A} (xs ys : List A) (z : A) → Memᴰ x (xs ++ ys) → Memᴰ x (xs ++ z ∷ ys)
mem-insert [] ys z m = Memᴰ.tail m
mem-insert (w ∷ xs) ys z (Memᴰ.head e) = Memᴰ.head e
mem-insert (w ∷ xs) ys z (Memᴰ.tail m) = Memᴰ.tail (mem-insert xs ys z m)

-- Messages with the same id are the same.
abbrev pub HasDistinctIds : List (Option Message) → Type 0
HasDistinctIds messages =
    (m n : Message)
    → Memᴰ (some m) messages
    → Memᴰ (some n) messages
    → text_or_empty m.id ≡ text_or_empty n.id
    → m ≡ n

module _ (U : Unicode) (stringify : List Rule → Text) (body_by_id : Text → Option Text)
    (raw : List (Option Rule)) where
  abbrev pub hash : Text
  hash = stable_rules_hash stringify (normalize_rules U raw)

  pub hash-truthy : truthy hash ≡ true
  unfolding stable_rules_hash
  hash-truthy = refl

  abbrev pub applied : Job → Disk → Bool
  applied j d = already_applied j.message (text_or_empty j.rule.id) j.fingerprint hash d

  pub candidate_for_rule : Text → Option Rule → Option Job
  candidate_for_rule id none = none
  candidate_for_rule id (some hit) =
      let acts = filter_supported_actions U (actions_of hit) in
      if ltb 0 (length acts)
      then some (record { message = id; rule = hit; fingerprint = action_fingerprint acts })
      else none

  -- The job of a message, whatever the ledger says.
  pub candidate : Message → Option Job
  unfolding candidate_for_rule
  candidate m =
      let id = text_or_empty m.id in
      let hit =
        pick_first_matching_rule U (normalize_rules U raw) (build_context m (body_by_id id) none) in
      if truthy id then candidate_for_rule id hit else none

  abbrev pub unless_applied : Disk → Option Job → Option Job
  unless_applied d none = none
  unless_applied d (some j) = if applied j d then none else some j

  pub job_for-candidate :
      (d : Disk) (m : Message)
      → job_for U stringify body_by_id raw d (some m) ≡ unless_applied d (candidate m)
  unfolding job_for candidate
  job_for-candidate d m = ground arith

  pub candidate-IsKeyed :
      (m : Message) (j : Job)
      → candidate m ≡ some j
      → (j.message ≡ text_or_empty m.id) × IsKeyed j.message (text_or_empty j.rule.id) hash
  candidate-IsKeyed m j e =
      let id = text_or_empty m.id in
      let rules = normalize_rules U raw in
      let ctx = build_context m (body_by_id id) none in
      elim (Option-cases (pick_first_matching_rule U rules ctx)) [
        | inl missed ↦ absurd (unfold candidate in ground (arith, missed, e))
        | inr (r, picked) ↦
            let k = pick-truthy U ctx rules r (normalize_rules-IsNormal U raw).active picked in
            let same : (truthy id ≡ true) × (j.message ≡ id) × (j.rule ≡ r) =
              unfold candidate in ground (arith, picked, e) in
            (
              same.1,
              record {
                has_message = rw same.1 same.0;
                has_rule = rw same.2 k;
                has_hash = hash-truthy;
              },
            )
      ]

  -- A message is done with once its job, if it has one, is recorded.
  abbrev pub IsDone : Disk → Message → Type 0
  IsDone d m = (j : Job) → candidate m ≡ some j → applied j d ≡ true

  -- A message in the queue, under way, or done with.
  abbrev pub Waits : Disk → List (Option Message) → List Job → Message → Type 0
  Waits d queue flight m =
      Memᴰ (some m) queue ⊎ ((j : Job) × (candidate m ≡ some j) × Memᴰ j flight) ⊎ IsDone d m

  abbrev pub job_for_ : Disk → Option Message → Option Job
  job_for_ = job_for U stringify body_by_id raw

  abbrev add : Option Job → List Job → List Job
  add = add_job U stringify body_by_id raw

  abbrev pub fill_ :
      Disk → List (Option Message) → ℕ → Vars → List (Option Message) × List Job × Vars
  fill_ = fill U stringify body_by_id raw

  mem-add : {j : Job} (o : Option Job) (js : List Job) → Memᴰ j js → Memᴰ j (add o js)
  mem-add none js k = k
  mem-add (some i) js k = Memᴰ.tail k

  Waits-add :
      (d : Disk) (queue : List (Option Message)) (o : Option Job) (js : List Job) (m : Message)
      → Waits d queue js m
      → Waits d queue (add o js) m
  Waits-add d queue o js m (inl k) = inl k
  Waits-add d queue o js m (inr (inl (j, c, k))) = inr (inl (j, c, mem-add o js k))
  Waits-add d queue o js m (inr (inr done)) = inr (inr done)

  taken :
      (d : Disk) (m : Message) (js : List Job) (o : Option Job)
      → job_for_ d (some m) ≡ o
      → ((j : Job) × (candidate m ≡ some j) × Memᴰ j (add o js)) ⊎ IsDone d m
  taken d m js none e = inr (λ j c. ground (arith, job_for-candidate d m, c, e))
  taken d m js (some j) e = inl (j, ground (arith, job_for-candidate d m, e), Memᴰ.head refl)

  -- What the loop makes of a message of the queue.
  pub fill-Waits :
      (d : Disk) (queue : List (Option Message)) (n : ℕ) (v : Vars) (m : Message)
      → Memᴰ (some m) queue
      → Waits d (fill_ d queue n v).0 (fill_ d queue n v).1 m
  unfolding fill
  fill-Waits d [] n v m k = elim k [ ]
  fill-Waits d (x ∷ queue) n v m k =
      let o = job_for_ d x in
      let n' = count_job U stringify body_by_id raw o n in
      let v' = assign U stringify body_by_id raw x v in
      elim (Bool-cases (ltb n max_concurrent)) [
        | inr full ↦ rw full (inl k)
        | inl room ↦
            rw room
              (go (fill_ d queue n' v').0 (fill_ d queue n' v').1 k (fill-Waits d queue n' v' m))
      ]
    where
      go :
          (left : List (Option Message)) (js : List Job)
          → Memᴰ (some m) (x ∷ queue)
          → (Memᴰ (some m) queue → Waits d left js m)
          → Waits d left (add (job_for_ d x) js) m
      go left js (Memᴰ.tail l) ih = Waits-add d left (job_for_ d x) js m (ih l)
      go left js (Memᴰ.head e) ih = inr (
          subst
            (λ z.
              ((j : Job) × (candidate m ≡ some j) × Memᴰ j (add (job_for_ d z) js)) ⊎ IsDone d m)
            e (taken d m js (job_for_ d (some m)) refl))

  -- A job under way is the job of a message of the inbox.
  abbrev pub IsFrom : List (Option Message) → Job → Type 0
  IsFrom messages j = (m : Message) × Memᴰ (some m) messages × (candidate m ≡ some j)

  made :
      (d : Disk) (x : Option Message) (js : List Job) (j : Job)
      → Memᴰ j (add (job_for_ d x) js)
      → Memᴰ j js ⊎ ((m : Message) × (x ≡ some m) × (candidate m ≡ some j))
  made d none js j k = inl (unfold job_for in k)
  made d (some m) js j k = go (job_for_ d (some m)) refl k
    where
      go :
          (o : Option Job)
          → job_for_ d (some m) ≡ o
          → Memᴰ j (add o js)
          → Memᴰ j js
            ⊎ ((n : Message) × (◌≡◌ {A = Option Message} (some m) (some n))
                × (candidate n ≡ some j))
      go none e l = inl l
      go (some i) e (Memᴰ.tail l) = inl l
      go (some i) e (Memᴰ.head q) = inr (m, refl, ground (arith, job_for-candidate d m, e, q))

  pub fill-IsFrom :
      (messages : List (Option Message)) (d : Disk) (queue : List (Option Message)) (n : ℕ)
      (v : Vars)
      → ((m : Message) → Memᴰ (some m) queue → Memᴰ (some m) messages)
      → ((m : Message) → Memᴰ (some m) (fill_ d queue n v).0 → Memᴰ (some m) messages)
        × ((j : Job) → Memᴰ j (fill_ d queue n v).1 → IsFrom messages j)
  unfolding fill
  fill-IsFrom messages d [] n v inq = (inq, λ j k. elim k [ ])
  fill-IsFrom messages d (x ∷ queue) n v inq =
      let o = job_for_ d x in
      let n' = count_job U stringify body_by_id raw o n in
      let v' = assign U stringify body_by_id raw x v in
      let (lefts, froms) = fill-IsFrom messages d queue n' v' (λ m k. inq m (Memᴰ.tail k)) in
      elim (Bool-cases (ltb n max_concurrent)) [
        | inr full ↦ rw full (inq, λ j k. elim k [ ])
        | inl room ↦ rw room (
          lefts,
          λ j k. from j (elim (made d x (fill_ d queue n' v').1 j k) [
            | inl l ↦ inl (froms j l)
            | inr w ↦ inr w
          ]),
        )
      ]
    where
      from :
          (j : Job)
          → IsFrom messages j ⊎ ((m : Message) × (x ≡ some m) × (candidate m ≡ some j))
          → IsFrom messages j
      from j (inl old) = old
      from j (inr (m, e, c)) = (m, inq m (Memᴰ.head (sym e)), c)

  unfoldable pub record_job : Job → Disk → Disk
  record_job j d = record_applied j.message (text_or_empty j.rule.id) j.fingerprint hash d

  -- What recording one job of the inbox changes for another.
  pub applied-record_job :
      (messages : List (Option Message)) (d : Disk) (m n : Message) (i j : Job)
      → HasDistinctIds messages
      → IsUsable d
      → Memᴰ (some m) messages
      → Memᴰ (some n) messages
      → candidate m ≡ some i
      → candidate n ≡ some j
      → (applied j d ≡ true) ⊎ (i ≡ j)
      → applied j (record_job i d) ≡ true
  unfolding record_job
  applied-record_job messages d m n i j one u km kn ci cj h =
      let (im, ik) = candidate-IsKeyed m i ci in
      let (jn, jk) = candidate-IsKeyed n j cj in
      let law =
        already_applied-record i.message (text_or_empty i.rule.id) i.fingerprint hash d j.message
          (text_or_empty j.rule.id) j.fingerprint u ik jk in
      let same : text_eq i.message j.message ≡ true → i ≡ j = λ e.
        let q = one m n km kn (sym im ∙ (text_eq_iff i.message j.message).0 e ∙ jn) in
        cc (ap candidate q) in
      elim (Bool-cases (text_eq i.message j.message)) [
        | inl e ↦
            let q = same e in
            let ids = ap (λ (z : Job). text_or_empty z.rule.id) q in
            let fps = ap (λ (z : Job). z.fingerprint) q in
            let b1 = (text_eq_iff (text_or_empty i.rule.id) (text_or_empty j.rule.id)).1 ids in
            let b2 = (text_eq_iff i.fingerprint j.fingerprint).1 fps in rw (law, e, b1, b2)
        | inr e ↦ elim h [
          | inl old ↦ rw (law, e) old
          | inr q ↦ cc ((text_eq_iff i.message j.message).1 (ap (λ (z : Job). z.message) q), e)
        ]
      ]
