-- ===== src/Search/Postings/Laws.antt =====
-- The postings of one term: how many there are, and which a message has.
use elvish_email.Base.{
  ◌+◌, ◌≡◌, refl, ap, sym, ◌∙◌, true, false, ◌||◌, Option, none, some, List, [], ◌∷◌, ◌++◌,
  if◌then◌else◌, length, length-append, arith, Bool-cases, inl, inr,
}
use elvish_email.Base.Text.{Text, text_eq, text_eq_iff}
use elvish_email.Search.Terms.{Bucket}
use elvish_email.Search.Postings.{Posting, Entry, has_posting, remove_posting, merge_posting}

-- No message has two postings.
abbrev pub AreDistinct : List Posting → Type 0
AreDistinct [] = Unit
AreDistinct (p ∷ ps) = (has_posting p.message_id ps ≡ false) × AreDistinct ps

pub record IsEntry (e : Entry) : Type 0 where
  pub counted : e.df ≡ length e.postings
  pub distinct : AreDistinct e.postings

has-append :
    (id : Text) (ps : List Posting) (p : Posting)
    → has_posting id (ps ++ p ∷ []) ≡ (has_posting id ps || text_eq p.message_id id)
unfolding has_posting
has-append id [] p = ground arith
has-append id (q ∷ ps) p = ground (arith, has-append id ps p)

has-remove_other :
    (i id : Text) (ps : List Posting)
    → has_posting i ps ≡ false
    → has_posting i (remove_posting id ps) ≡ false
unfolding has_posting remove_posting
has-remove_other i id [] h = refl
has-remove_other i id (p ∷ ps) h = ground (arith, h, has-remove_other i id ps)

has-remove :
    (id : Text) (ps : List Posting) → AreDistinct ps → has_posting id (remove_posting id ps) ≡ false
unfolding has_posting remove_posting
has-remove id [] d = refl
has-remove id (p ∷ ps) d =
    let same : text_eq p.message_id id ≡ true → has_posting id ps ≡ false =
      λ e. rw (← (text_eq_iff p.message_id id).0 e) d.0 in
    ground (arith, same, has-remove id ps d.1)

remove-AreDistinct :
    (id : Text) (ps : List Posting) → AreDistinct ps → AreDistinct (remove_posting id ps)
unfolding remove_posting
remove-AreDistinct id [] d = tt
remove-AreDistinct id (p ∷ ps) d = elim (Bool-cases (text_eq p.message_id id)) [
  | inl e ↦ rw e d.1
  | inr e ↦ rw e (has-remove_other p.message_id id ps d.0, remove-AreDistinct id ps d.1)
]

append-AreDistinct :
    (ps : List Posting) (p : Posting)
    → AreDistinct ps
    → has_posting p.message_id ps ≡ false
    → AreDistinct (ps ++ p ∷ [])
unfolding has_posting
append-AreDistinct [] p d h = (refl, tt)
append-AreDistinct (q ∷ ps) p d h = (
  has-append q.message_id ps p
      ∙ ground (
        arith,
        d.0,
        h,
        text_eq_iff q.message_id p.message_id,
        text_eq_iff p.message_id q.message_id,
      ),
  append-AreDistinct ps p d.1 (ground (arith, h)),
)

length-remove_posting :
    (id : Text) (ps : List Posting)
    → has_posting id ps ≡ true
    → length (remove_posting id ps) + 1 ≡ length ps
unfolding has_posting remove_posting
length-remove_posting id [] h = cc
length-remove_posting id (p ∷ ps) h = ground (arith, h, length-remove_posting id ps)

merge-IsEntry : (id : Text) (b : Bucket) (e : Entry) → IsEntry e → IsEntry (merge_posting id b e)
unfolding merge_posting
merge-IsEntry id b e w =
    let p : Posting = record { message_id = id; tf = b.tf; positions = b.positions } in
    elim (Bool-cases (has_posting id e.postings)) [
      | inl h ↦ rw h (record {
        counted =
            w.counted
            ∙ sym (
                length-append (remove_posting id e.postings) (p ∷ [])
                ∙ length-remove_posting id e.postings h);
        distinct =
            append-AreDistinct (remove_posting id e.postings) p
              (remove-AreDistinct id e.postings w.distinct) (has-remove id e.postings w.distinct);
      })
      | inr h ↦ rw h (record {
        counted = ap (λ n. n + 1) w.counted ∙ sym (length-append e.postings (p ∷ []));
        distinct = append-AreDistinct e.postings p w.distinct h;
      })
    ]

-- The posting of a message.
pub find_posting : Text → List Posting → Option Posting
find_posting m [] = none
find_posting m (p ∷ ps) = if text_eq p.message_id m then some p else find_posting m ps

find-append :
    (m : Text) (ps : List Posting) (p : Posting)
    → find_posting m (ps ++ p ∷ []) ≡ (
        if has_posting m ps
        then find_posting m ps
        else if text_eq p.message_id m
        then some p
        else none)
unfolding find_posting has_posting
find-append m [] p = ground arith
find-append m (q ∷ ps) p = ground (arith, find-append m ps p)

find-absent : (m : Text) (ps : List Posting) → has_posting m ps ≡ false → find_posting m ps ≡ none
unfolding find_posting has_posting
find-absent m [] h = refl
find-absent m (p ∷ ps) h = ground (arith, h, find-absent m ps)

find-remove :
    (m id : Text) (ps : List Posting)
    → text_eq id m ≡ false
    → (find_posting m (remove_posting id ps) ≡ find_posting m ps)
      × (has_posting m (remove_posting id ps) ≡ has_posting m ps)
unfolding find_posting remove_posting has_posting
find-remove m id [] h = (refl, refl)
find-remove m id (p ∷ ps) h =
    let other : text_eq p.message_id id ≡ true → text_eq p.message_id m ≡ false =
      λ e. rw ((text_eq_iff p.message_id id).0 e) h in
    let (found, has) = find-remove m id ps h in
    (ground (arith, other, found), ground (arith, other, has))

abbrev pub posting : Text → Bucket → Posting
posting id b = record { message_id = id; tf = b.tf; positions = b.positions }

find-last :
    (m id : Text) (b : Bucket) (others old : List Posting)
    → has_posting id others ≡ false
    → (text_eq id m ≡ false → find_posting m others ≡ find_posting m old)
    → find_posting m (others ++ posting id b ∷ [])
      ≡ (if text_eq id m then some (posting id b) else find_posting m old)
find-last m id b others old n f = elim (Bool-cases (text_eq id m)) [
  | inl h ↦
      let absent : has_posting m others ≡ false = rw (← (text_eq_iff id m).0 h) n in
      find-append m others (posting id b) ∙ rw (absent, h)
  | inr h ↦ find-append m others (posting id b) ∙ rw h (ground (arith, find-absent m others, f h))
]

find-merge :
    (m id : Text) (b : Bucket) (e : Entry)
    → AreDistinct e.postings
    → find_posting m (merge_posting id b e).postings
      ≡ (if text_eq id m then some (posting id b) else find_posting m e.postings)
unfolding merge_posting
find-merge m id b e d = elim (Bool-cases (has_posting id e.postings)) [
  | inl h ↦ rw h (
      find-last m id b (remove_posting id e.postings) e.postings (has-remove id e.postings d)
        (λ n. (find-remove m id e.postings n).0))
  | inr h ↦ rw h (find-last m id b e.postings e.postings h (λ n. refl))
]

-- An entry stays well formed, with the new posting for the message and the old ones for others.
pub merge_posting-Updates :
    (id : Text) (b : Bucket) (e : Entry)
    → IsEntry e
    → IsEntry (merge_posting id b e)
      × ((m : Text)
          → find_posting m (merge_posting id b e).postings
            ≡ (if text_eq id m then some (posting id b) else find_posting m e.postings))
merge_posting-Updates id b e w = (merge-IsEntry id b e w, λ m. find-merge m id b e w.distinct)
