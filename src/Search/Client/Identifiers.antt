-- ===== src/Search/Client/Identifiers.antt =====
-- static/mail/search/search.js: where the request numbers of `LocalSearch` stand.
use elvish_email.Base.{
  ◌≡◌, ◌≤◌, refl, ℕ, suc, ◌+◌, Bool, true, false, Option, none, some, List, [], ◌∷◌, ◌++◌, arith,
  ◌&&◌, if◌then◌else◌, ◌==◌, ltb,
}
use elvish_email.Search.Client.{
  Posted, init, search, purge, index, cancel, Kind, ready, purged, search_result, indexed, failed,
  Reply, reply_to, Slot, Ending, resolved, unexpected, timed_out, Client, new_client, send, start,
  purge_index, search_body, index_message, cancel_message, post_plain, find_slot, remove_slot,
  settle, on_message, route_reply, take_reply, ending_of, on_timeout, end_by_timeout, receive, Step,
  calls_start, calls_purge, calls_search, calls_index, calls_cancel, answers, times_out, Reach,
  fresh, next,
}

unfoldable pub count_pending : ℕ → List Slot → ℕ
count_pending n [] = 0
count_pending n (s ∷ ss) = let rest = count_pending n ss in if s.id == n then suc rest else rest

unfoldable pub count_settled : ℕ → List (ℕ × Ending) → ℕ
count_settled n [] = 0
count_settled n ((id, e) ∷ es) = let rest = count_settled n es in if id == n then suc rest else rest

-- The places in which a request stands.
abbrev pub places : ℕ → Client → ℕ
places n c = count_pending n c.pending + count_settled n c.settled

-- Whether a number was handed out.
abbrev pub handed_out : ℕ → Client → Bool
handed_out n c = ltb 0 n && ltb n c.next_request_id

pub record IsTracked (c : Client) : Type 0 where
  pub positive : 1 ≤ c.next_request_id
  pub once : (n : ℕ) → places n c ≡ (if handed_out n c then 1 else 0)

count-remove :
    (n k : ℕ) (ss : List Slot)
    → count_pending n (remove_slot k ss) ≡ (if k == n then 0 else count_pending n ss)
unfolding count_pending remove_slot
count-remove n k [] = ground arith
count-remove n k (s ∷ ss) = ground (arith, count-remove n k ss)

found-count :
    (id : ℕ) (ss : List Slot) (s : Slot)
    → find_slot id ss ≡ some s
    → (s.id ≡ id) × (1 ≤ count_pending id ss)
unfolding find_slot count_pending
found-count id [] s h = cc
found-count id (t ∷ ss) s h = ground (arith, found-count id ss s, h)

send-IsTracked :
    (msg : ℕ → Posted) (k : Kind) (starts : Bool) (c : Client)
    → IsTracked c
    → IsTracked (send msg k starts c)
unfolding send count_pending
send-IsTracked msg k starts c i = record {
  positive = omega (arith, i.positive);
  once = λ n. ground (arith, i.once n, i.positive);
}

settle-pending :
    (slot : Slot) (e : Ending) (c : Client)
    → (settle slot e c).pending ≡ remove_slot slot.id c.pending
unfolding settle
settle-pending slot resolved c = refl
settle-pending slot unexpected c = refl
settle-pending slot timed_out c = refl

settle-settled :
    (slot : Slot) (e : Ending) (c : Client) → (settle slot e c).settled ≡ (slot.id, e) ∷ c.settled
unfolding settle
settle-settled slot resolved c = refl
settle-settled slot unexpected c = refl
settle-settled slot timed_out c = refl

settle-next :
    (slot : Slot) (e : Ending) (c : Client) → (settle slot e c).next_request_id ≡ c.next_request_id
unfolding settle
settle-next slot resolved c = refl
settle-next slot unexpected c = refl
settle-next slot timed_out c = refl

settle-IsTracked :
    (id : ℕ) (slot : Slot) (e : Ending) (c : Client)
    → find_slot id c.pending ≡ some slot
    → IsTracked c
    → IsTracked (settle slot e c)
unfolding count_settled
settle-IsTracked id slot e c f i = record {
  positive = rw (settle-next slot e c) i.positive;
  once = λ n.
      rw (settle-next slot e c, settle-pending slot e c, settle-settled slot e c)
        (ground (
          arith,
          i.once n,
          i.once id,
          found-count id c.pending slot f,
          count-remove n slot.id c.pending,
        ));
}

take_reply-IsTracked :
    (kind : Kind) (id : ℕ) (c : Client)
    → IsTracked c
    → IsTracked (take_reply kind (find_slot id c.pending) c)
unfolding take_reply
take_reply-IsTracked kind id c i = go (find_slot id c.pending) refl
  where
    go : (o : Option Slot) → find_slot id c.pending ≡ o → IsTracked (take_reply kind o c)
    go none f = i
    go (some slot) f = settle-IsTracked id slot (ending_of slot.expected kind) c f i

route_reply-IsTracked :
    (kind : Kind) (o : Option ℕ) (c : Client) → IsTracked c → IsTracked (route_reply kind o c)
unfolding route_reply
route_reply-IsTracked indexed o c i = i
route_reply-IsTracked failed o c i = i
route_reply-IsTracked ready none c i = i
route_reply-IsTracked purged none c i = i
route_reply-IsTracked search_result none c i = i
route_reply-IsTracked ready (some id) c i = take_reply-IsTracked ready id c i
route_reply-IsTracked purged (some id) c i = take_reply-IsTracked purged id c i
route_reply-IsTracked search_result (some id) c i = take_reply-IsTracked search_result id c i

timeout-IsTracked : (id : ℕ) (c : Client) → IsTracked c → IsTracked (on_timeout id c)
unfolding on_timeout end_by_timeout
timeout-IsTracked id c i = go (find_slot id c.pending) refl
  where
    go : (o : Option Slot) → find_slot id c.pending ≡ o → IsTracked (end_by_timeout o c)
    go none f = i
    go (some slot) f = settle-IsTracked id slot timed_out c f i

receive-IsTracked : (o : Option Reply) (c : Client) → IsTracked c → IsTracked (receive o c)
unfolding receive on_message
receive-IsTracked none c i = i
receive-IsTracked (some r) c i = route_reply-IsTracked r.kind r.request_id c i

same_numbers :
    (c : Client) (w : Bool) (ms : List Posted)
    → IsTracked c
    → IsTracked (record c { has_worker = w; posted = ms })
same_numbers c w ms i = record { positive = i.positive; once = i.once }

if-IsTracked :
    (b : Bool) (c d : Client) → IsTracked c → IsTracked d → IsTracked (if b then c else d)
if-IsTracked true c d i j = i
if-IsTracked false c d i j = j

post-IsTracked : (m : Posted) (c : Client) → IsTracked c → IsTracked (post_plain m c)
unfolding post_plain
post-IsTracked m c i =
    if-IsTracked c.has_worker (record c { posted = c.posted ++ m ∷ [] }) c
      (same_numbers c c.has_worker (c.posted ++ m ∷ []) i) i

Step-IsTracked : {c d : Client} → Step c d → IsTracked c → IsTracked d
Step-IsTracked {c} calls_start i =
    unfold start in
    send-IsTracked init ready true (record c { has_worker = true; posted = [] })
      (same_numbers c true [] i)
Step-IsTracked {c} calls_purge i =
    unfold purge_index in if-IsTracked c.has_worker _ c (send-IsTracked purge purged false c i) i
Step-IsTracked {c} calls_search i =
    unfold search_body in
    if-IsTracked (c.has_worker && c.is_ready) _ c (send-IsTracked search search_result false c i) i
Step-IsTracked {c} calls_index i = unfold index_message in post-IsTracked index c i
Step-IsTracked {c} calls_cancel i = unfold cancel_message in post-IsTracked cancel c i
Step-IsTracked {c} (answers before after m good e) i =
    receive-IsTracked (reply_to m good) (record c { posted = before ++ after })
      (same_numbers c c.has_worker (before ++ after) i)
Step-IsTracked {c} (times_out id) i = timeout-IsTracked id c i

new-IsTracked : IsTracked new_client
unfolding count_pending count_settled
new-IsTracked = record { positive = omega arith; once = λ n. ground arith }

Reach-IsTracked : {c : Client} → Reach c → IsTracked c
Reach-IsTracked fresh = new-IsTracked
Reach-IsTracked (next r st) = Step-IsTracked st (Reach-IsTracked r)

-- Every request number that was handed out stands in one place: it is pending or its promise has
-- ended once; no other number stands anywhere.
pub places_once : {c : Client} (n : ℕ) → Reach c → places n c ≡ (if handed_out n c then 1 else 0)
places_once n r = (Reach-IsTracked r).once n
