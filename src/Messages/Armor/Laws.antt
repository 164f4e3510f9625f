-- ===== src/Messages/Armor/Laws.antt =====
-- What an extracted block is.
use mathlib.Core.Path.{subst}
use elvish_email.Base.{ℕ, ◌≡◌, ◌≢◌, ◌∙◌, refl, Option, none, some, List, [], ◌∷◌, ◌++◌, arith}
use elvish_email.Base.Text.{Text, trim}
use elvish_email.Base.Scan.{after_prefix, after_prefix-split}
use elvish_email.Messages.Armor.{
  alternative, place, found_or, first_of, close_block, open_block, extract_block,
}

-- One of a list.
pub data OneOf (m : Text) : List Text → Type 0 where
  first : {x : Text} {ms : List Text} → m ≡ x → OneOf m (x ∷ ms)
  later : {x : Text} {ms : List Text} → OneOf m ms → OneOf m (x ∷ ms)

-- A marker from the list stands in the text, after `front`.
pub record Found (ms : List Text) (s front m rest : Text) : Type 0 where
  pub split : s ≡ front ++ (m ++ rest)
  pub listed : OneOf m ms

Found-here :
    (x s m rest : Text) (ms : List Text) (o : Option Text) (others : Option (Text × Text))
    → after_prefix x s ≡ o
    → (others ≡ some (m, rest) → Found ms s [] m rest)
    → elim o [ some r ↦ some (x, r) | none ↦ others ] ≡ some (m, rest)
    → Found (x ∷ ms) s [] m rest
Found-here x s m rest ms none others e f h =
    let g = f h in record { split = g.split; listed = later g.listed }
Found-here x s m rest ms (some r) others e f h = record {
  split = after_prefix-split x s r e ∙ ground (arith, h);
  listed = first (ground (arith, h));
}

alternative-Found :
    (ms : List Text) (s m rest : Text) → alternative ms s ≡ some (m, rest) → Found ms s [] m rest
unfolding alternative
alternative-Found [] s m rest h = cc
alternative-Found (x ∷ ms) s m rest h =
    Found-here x s m rest ms (after_prefix x s) (alternative ms s) refl
      (λ k. alternative-Found ms s m rest k) h

found_or-Found :
    (ms : List Text) (s a m rest : Text) (o : Option (Text × Text))
    (next : Option (Text × Text × Text))
    → alternative ms s ≡ o
    → (next ≡ some (a, m, rest) → Found ms s a m rest)
    → found_or o next ≡ some (a, m, rest)
    → Found ms s a m rest
found_or-Found ms s a m rest none next e f h = f h
found_or-Found ms s a m rest (some (n, r)) next e f h =
    let g = alternative-Found ms s n r e in
    let same : (n ≡ m) × ([] ≡ a) × (r ≡ rest) = ground (arith, h) in
    record { split = ground (arith, g.split, h); listed = subst (λ k. OneOf k ms) same.0 g.listed }

place-Found :
    (ms : List Text) (s a m rest : Text) (c : ℕ) (next : Option (Text × Text × Text))
    → ((x y z : Text) → next ≡ some (x, y, z) → Found ms s x y z)
    → place c next ≡ some (a, m, rest)
    → Found ms (c ∷ s) a m rest
place-Found ms s a m rest c none f h = cc
place-Found ms s a m rest c (some (x, y, z)) f h =
    let g = f x y z refl in
    let same : (c ∷ x ≡ a) × (y ≡ m) × (z ≡ rest) = ground (arith, h) in
    record { split = ground (arith, g.split, h); listed = subst (λ k. OneOf k ms) same.1 g.listed }

first_of-Found :
    (ms : List Text) (s a m rest : Text) → first_of ms s ≡ some (a, m, rest) → Found ms s a m rest
unfolding first_of
first_of-Found ms [] a m rest h =
    found_or-Found ms [] a m rest (alternative ms []) none refl (λ k. cc (k)) h
first_of-Found ms (c ∷ s) a m rest h =
    found_or-Found ms (c ∷ s) a m rest (alternative ms (c ∷ s)) (place c (first_of ms s)) refl
      (place-Found ms s a m rest c (first_of ms s) (λ x y z k. first_of-Found ms s x y z k)) h

-- A block of a text, with what stands around it.
pub record IsBlock (begins ends : List Text) (text block : Text) : Type 0 where
  pub front : Text
  pub begin : Text
  pub inner : Text
  pub end : Text
  pub rest : Text
  pub split : text ≡ front ++ (begin ++ (inner ++ (end ++ rest)))
  pub begins_it : OneOf begin begins
  pub ends_it : OneOf end ends
  pub trimmed : block ≡ trim (begin ++ (inner ++ end))

close-IsBlock :
    (begins ends : List Text) (text front begin body : Text) (o : Option (Text × Text × Text))
    → Found begins text front begin body
    → first_of ends body ≡ o
    → close_block begin o ≢ []
    → IsBlock begins ends text (close_block begin o)
unfolding close_block
close-IsBlock begins ends text front begin body none f e n = absurd (n refl)
close-IsBlock begins ends text front begin body (some (inner, end, rest)) f e n =
    let g = first_of-Found ends body inner end rest e in
    record {
      front = front;
      begin = begin;
      inner = inner;
      end = end;
      rest = rest;
      split = ground (arith, f.split, g.split);
      begins_it = f.listed;
      ends_it = g.listed;
      trimmed = refl;
    }

open-IsBlock :
    (begins ends : List Text) (text : Text) (o : Option (Text × Text × Text))
    → first_of begins text ≡ o
    → open_block ends o ≢ []
    → IsBlock begins ends text (open_block ends o)
unfolding open_block
open-IsBlock begins ends text none e n = absurd (n refl)
open-IsBlock begins ends text (some (front, begin, body)) e n =
    close-IsBlock begins ends text front begin body (first_of ends body)
      (first_of-Found begins text front begin body e) refl n

-- A block that was found runs from the one of the beginnings to one of the ends behind it, and is
-- trimmed.
pub extract_block-IsBlock :
    (begins ends : List Text) (text : Text)
    → extract_block begins ends text ≢ []
    → IsBlock begins ends text (extract_block begins ends text)
unfolding extract_block
extract_block-IsBlock begins ends text n =
    open-IsBlock begins ends text (first_of begins text) refl n
