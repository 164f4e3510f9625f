-- ===== src/Search/Client.antt =====
-- static/mail/search/search.js: the requests of `LocalSearch` that wait for a reply, and the replies
-- of static/mail/search/worker.js, as a state machine. The messages that were posted wait in any
-- order, since the worker's handler is async; what a handler does besides its reply is one flag. A worker that is terminated replies no more.
pub mod Replies
pub mod Identifiers
use elvish_email.Base.{
  ℕ, zero, suc, ◌+◌, Bool, true, false, not, ◌&&◌, ◌||◌, Option, none, some, List, [], ◌∷◌, ◌++◌,
  ◌==◌, if◌then◌else◌, ◌≡◌,
}

-- The kinds of the worker's replies.
pub data Kind : Type 0 where
  ready purged search_result indexed failed : Kind

abbrev pub same_kind : Kind → Kind → Bool
same_kind ready ready = true
same_kind purged purged = true
same_kind search_result search_result = true
same_kind indexed indexed = true
same_kind failed failed = true
same_kind _ _ = false

pub record Reply : Type 0 where
  pub kind : Kind
  pub request_id : Option ℕ

-- A message to the worker, with its `requestId` where it has one.
pub data Posted : Type 0 where
  init search purge : ℕ → Posted
  index cancel : Posted

-- The reply to a message: `ok` is false where the handler throws. A message to index has an id.
unfoldable pub reply_to : Posted → Bool → Option Reply
reply_to (init id) true = some (record { kind = ready; request_id = none })
reply_to (search id) true = some (record { kind = search_result; request_id = some id })
reply_to (purge id) true = some (record { kind = purged; request_id = none })
reply_to index true = some (record { kind = indexed; request_id = none })
reply_to cancel true = none
reply_to _ false = some (record { kind = failed; request_id = none })

pub record Slot : Type 0 where
  pub id : ℕ
  pub expected : Kind
  pub starts : Bool

-- How a promise of `send` ends.
pub data Ending : Type 0 where
  resolved unexpected timed_out : Ending

-- `settled` lists the promises that ended, and `posted` what the worker has still to handle.
pub record Client : Type 0 where
  pub has_worker : Bool
  pub is_ready : Bool
  pub pending : List Slot
  pub next_request_id : ℕ
  pub posted : List Posted
  pub settled : List (ℕ × Ending)

abbrev pub new_client : Client
new_client = record {
  has_worker = false;
  is_ready = false;
  pending = [];
  next_request_id = 1;
  posted = [];
  settled = [];
}

-- `send` with the next number as its id.
unfoldable pub send : (ℕ → Posted) → Kind → Bool → Client → Client
send msg expected starts c =
    let id = c.next_request_id in
    record c {
      pending = record { id = id; expected = expected; starts = starts } ∷ c.pending;
      next_request_id = id + 1;
      posted = c.posted ++ msg id ∷ [];
    }

-- `start` up to its await: the worker that is there is terminated, with what it was posted.
unfoldable pub start : Client → Client
unfolding send
start c = send init ready true (record c { has_worker = true; posted = [] })

unfoldable pub purge_index : Client → Client
unfolding send
purge_index c = if c.has_worker then send purge purged false c else c

unfoldable pub search_body : Client → Client
unfolding send
search_body c = if c.has_worker && c.is_ready then send search search_result false c else c

post_plain : Posted → Client → Client
post_plain m c = if c.has_worker then record c { posted = c.posted ++ m ∷ [] } else c

unfoldable pub index_message : Client → Client
unfolding post_plain
index_message c = post_plain index c

unfoldable pub cancel_message : Client → Client
unfolding post_plain
cancel_message c = post_plain cancel c

unfoldable pub find_slot : ℕ → List Slot → Option Slot
find_slot id [] = none
find_slot id (s ∷ ss) = let rest = find_slot id ss in if s.id == id then some s else rest

unfoldable pub remove_slot : ℕ → List Slot → List Slot
remove_slot id [] = []
remove_slot id (s ∷ ss) = let rest = remove_slot id ss in if s.id == id then rest else s ∷ rest

-- The promise ends; `start` goes on where its own is resolved.
unfoldable pub settle : Slot → Ending → Client → Client
settle slot resolved c = record c {
  pending = remove_slot slot.id c.pending;
  settled = (slot.id, resolved) ∷ c.settled;
  is_ready = slot.starts || c.is_ready;
}
settle slot ending c = record c {
  pending = remove_slot slot.id c.pending;
  settled = (slot.id, ending) ∷ c.settled;
}

abbrev ending_of : Kind → Kind → Ending
ending_of expected search_result = resolved
ending_of expected kind = if same_kind expected kind then resolved else unexpected

take_reply : Kind → Option Slot → Client → Client
take_reply kind none c = c
take_reply kind (some slot) c = settle slot (ending_of slot.expected kind) c

route_reply : Kind → Option ℕ → Client → Client
unfolding take_reply
route_reply indexed id c = c
route_reply failed id c = c
route_reply kind none c = c
route_reply kind (some id) c = take_reply kind (find_slot id c.pending) c

-- Ids start at 1, so that none is falsy.
unfoldable pub on_message : Reply → Client → Client
unfolding route_reply
on_message r c = route_reply r.kind r.request_id c

end_by_timeout : Option Slot → Client → Client
end_by_timeout none c = c
end_by_timeout (some slot) c = settle slot timed_out c

-- The timer of a request, which is cleared where the request has ended.
unfoldable pub on_timeout : ℕ → Client → Client
unfolding end_by_timeout
on_timeout id c = end_by_timeout (find_slot id c.pending) c

unfoldable pub receive : Option Reply → Client → Client
receive none c = c
receive (some r) c = on_message r c

-- What can happen to the client. The worker answers one of the posted messages.
pub data Step (c : Client) : Client → Type 0 where
  calls_start : Step c (start c)
  calls_purge : Step c (purge_index c)
  calls_search : Step c (search_body c)
  calls_index : Step c (index_message c)
  calls_cancel : Step c (cancel_message c)
  answers :
      (before after : List Posted) (m : Posted) (ok : Bool)
      → c.posted ≡ before ++ m ∷ after
      → Step c (receive (reply_to m ok) (record c { posted = before ++ after }))
  times_out : (id : ℕ) → Step c (on_timeout id c)

pub data Reach : Client → Type 0 where
  fresh : Reach new_client
  next : {c d : Client} → Reach c → Step c d → Reach d
