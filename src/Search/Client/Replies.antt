-- ===== src/Search/Client/Replies.antt =====
-- static/mail/search/search.js: what becomes of the promises of `LocalSearch`, given the replies that the worker sends.
use mathlib.Core.Path.{subst}
use elvish_email.Base.{
  ◌≡◌, ◌≢◌, sym, refl, ℕ, Bool, true, false, Option, none, some, List, [], ◌∷◌, ◌++◌, All,
  All-append, ◌&&◌, if◌then◌else◌,
}
use elvish_email.Search.Client.{
  purged, search_result, Posted, init, search, purge, index, cancel, reply_to, Slot, timed_out,
  Client, send, start, purge_index, search_body, index_message, cancel_message, post_plain,
  find_slot, settle, on_message, route_reply, on_timeout, end_by_timeout, receive, Step,
  calls_start, calls_purge, calls_search, calls_index, calls_cancel, answers, times_out, Reach,
  fresh, next,
}

-- No search was posted, and every promise that ended was timed out.
pub record IsStuck (c : Client) : Type 0 where
  pub not_ready : c.is_ready ≡ false
  pub no_search : All (λ m. (id : ℕ) → m ≢ search id) c.posted
  pub all_timed_out : All (λ e. e.1 ≡ timed_out) c.settled

All-split {ℓ κ} :
    {A : Type ℓ} (P : A → Type κ) (xs ys : List A) (y : A)
    → All P (xs ++ y ∷ ys)
    → P y × All P (xs ++ ys)
All-split P [] ys y h = h
All-split P (x ∷ xs) ys y h = let r = All-split P xs ys y h.1 in (r.0, (h.0, r.1))

-- A reply to anything but a search changes nothing.
receive-idle :
    (m : Posted) (good : Bool) (c : Client)
    → ((id : ℕ) → m ≢ search id)
    → receive (reply_to m good) c ≡ c
unfolding receive reply_to on_message route_reply
receive-idle (init id) true c h = refl
receive-idle (init id) false c h = refl
receive-idle (search id) good c h = absurd (h id refl)
receive-idle (purge id) true c h = refl
receive-idle (purge id) false c h = refl
receive-idle index true c h = refl
receive-idle index false c h = refl
receive-idle cancel true c h = refl
receive-idle cancel false c h = refl

timeout-IsStuck : (o : Option Slot) (c : Client) → IsStuck c → IsStuck (end_by_timeout o c)
unfolding end_by_timeout settle
timeout-IsStuck none c i = i
timeout-IsStuck (some s) c i = record {
  not_ready = i.not_ready;
  no_search = i.no_search;
  all_timed_out = (refl, i.all_timed_out);
}

post-IsStuck :
    (m : Posted) (c : Client) → ((id : ℕ) → m ≢ search id) → IsStuck c → IsStuck (post_plain m c)
unfolding post_plain
post-IsStuck m c h i = go c.has_worker
  where
    go : (b : Bool) → IsStuck (if b then record c { posted = c.posted ++ m ∷ [] } else c)
    go true = record {
      not_ready = i.not_ready;
      no_search = All-append _ c.posted (m ∷ []) i.no_search (h, tt);
      all_timed_out = i.all_timed_out;
    }
    go false = i

purge-IsStuck : (c : Client) → IsStuck c → IsStuck (purge_index c)
unfolding purge_index send
purge-IsStuck c i = go c.has_worker
  where
    go : (b : Bool) → IsStuck (if b then send purge purged false c else c)
    go true = record {
      not_ready = i.not_ready;
      no_search = All-append _ c.posted (purge c.next_request_id ∷ []) i.no_search (λ id e. cc, tt);
      all_timed_out = i.all_timed_out;
    }
    go false = i

search_body-idle : (c : Client) → IsStuck c → search_body c ≡ c
unfolding search_body
search_body-idle c i = go c.has_worker c.is_ready i.not_ready
  where
    go : (w r : Bool) → r ≡ false → (if w && r then send search search_result false c else c) ≡ c
    go w true e = cc
    go true false e = refl
    go false false e = refl

Step-IsStuck : {c d : Client} → Step c d → IsStuck c → IsStuck d
Step-IsStuck {c} calls_start i =
    unfold start send in
    record {
      not_ready = i.not_ready;
      no_search = (λ id e. cc, tt);
      all_timed_out = i.all_timed_out;
    }
Step-IsStuck {c} calls_purge i = purge-IsStuck c i
Step-IsStuck {c} calls_search i = subst IsStuck (sym (search_body-idle c i)) i
Step-IsStuck {c} calls_index i = unfold index_message in post-IsStuck index c (λ id e. cc) i
Step-IsStuck {c} calls_cancel i = unfold cancel_message in post-IsStuck cancel c (λ id e. cc) i
Step-IsStuck {c} (answers before after m good e) i =
    let (h, k) =
      All-split (λ m. (id : ℕ) → m ≢ search id) before after m (subst (All _) e i.no_search) in
    subst IsStuck (sym (receive-idle m good (record c { posted = before ++ after }) h))
      (record { not_ready = i.not_ready; no_search = k; all_timed_out = i.all_timed_out })
Step-IsStuck {c} (times_out id) i =
    unfold on_timeout in timeout-IsStuck (find_slot id c.pending) c i

Reach-IsStuck : {c : Client} → Reach c → IsStuck c
Reach-IsStuck fresh = record { not_ready = refl; no_search = tt; all_timed_out = tt }
Reach-IsStuck (next r st) = Step-IsStuck st (Reach-IsStuck r)

-- With the replies that the worker sends, LocalSearch is never ready, a search is never posted, and
-- a promise of start or purge ends by its timeout only, whatever is called and in whatever order
-- the worker replies.
pub search_never_ready :
    {c : Client}
    → Reach c
    → (c.is_ready ≡ false) × All (λ e. e.1 ≡ timed_out) c.settled × (search_body c ≡ c)
search_never_ready {c} r =
    let i = Reach-IsStuck r in (i.not_ready, i.all_timed_out, search_body-idle c i)
