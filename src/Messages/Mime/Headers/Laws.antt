-- ===== src/Messages/Mime/Headers/Laws.antt =====
-- Headers that are written and read again.
use elvish_email.Base.{
  ◌≡◌, ◌∙◌, refl, ap, true, false, some, List, [], ◌∷◌, ◌++◌, arith, ◌==◌, map, any, all, All,
}
use elvish_email.Base.Text.{Text, truthy, text_eq_refl, trim, trim_start, is_space, ascii_lower}
use elvish_email.Base.Scan.{take_while, drop_while, split_skip, split_on}
use elvish_email.Base.Dict.{Dict, put, get-put}
use elvish_email.Messages.Mime.Headers.{
  is_name_char, is_terminator, rest_of_line, named, after_name, header_line, value_of, is_folded,
  start_header, parse_lines, parse_mime_headers,
}

-- A header as it is written: a name, a value and the lines into which the value is folded.
pub record Header : Type 0 where
  pub name : Text
  pub value : Text
  pub folds : List Text

-- A header that can be written.
pub record IsHeader (h : Header) : Type 0 where
  pub named : truthy h.name ≡ true
  pub name_chars : all is_name_char h.name ≡ true
  pub value_start : trim_start h.value ≡ h.value
  pub value_line : any is_terminator h.value ≡ false
  pub fold_lines : All (λ f. any is_terminator f ≡ false) h.folds

pub lines_of : Header → List Text
lines_of h = (h.name ++ (58 ∷ 32 ∷ h.value)) ∷ map (λ f. 32 ∷ f) h.folds

pub all_lines : List Header → List Text
all_lines [] = []
all_lines (h ∷ hs) = lines_of h ++ all_lines hs

-- The lines with a line feed between them.
pub join : List Text → Text
join [] = []
join (l ∷ []) = l
join (l ∷ k ∷ ls) = l ++ (10 ∷ join (k ∷ ls))

-- The value with its folds, each behind one space.
pub unfolded : Text → List Text → Text
unfolded v [] = v
unfolded v (f ∷ fs) = unfolded (v ++ (32 ∷ trim (32 ∷ f))) fs

pub collect : List Header → Dict Text → Dict Text
collect [] d = d
collect (h ∷ hs) d = collect hs (put (map ascii_lower h.name) (unfolded h.value h.folds) d)

take-name : (n s : Text) → all is_name_char n ≡ true → take_while is_name_char (n ++ 58 ∷ s) ≡ n
unfolding take_while is_name_char
take-name [] s h = refl
take-name (c ∷ n) s h = ground (arith, h, take-name n s)

drop-name :
    (n s : Text) → all is_name_char n ≡ true → drop_while is_name_char (n ++ 58 ∷ s) ≡ 58 ∷ s
unfolding drop_while is_name_char
drop-name [] s h = refl
drop-name (c ∷ n) s h = ground (arith, h, drop-name n s)

trim-space : (s : Text) → trim_start (32 ∷ s) ≡ trim_start s
unfolding trim_start is_space
trim-space s = refl

header_line-written :
    (h : Header) → IsHeader h → header_line (h.name ++ (58 ∷ 32 ∷ h.value)) ≡ some (h.name, h.value)
unfolding header_line after_name
header_line-written h i =
    rw
      (
        take-name h.name (32 ∷ h.value) i.name_chars,
        drop-name h.name (32 ∷ h.value) i.name_chars,
        trim-space h.value,
        i.value_start,
      )
      (unfold rest_of_line named in rw (i.value_line, i.named) refl)

-- A line that starts with a name is not folded.
is_folded-name :
    (n s : Text) → truthy n ≡ true → all is_name_char n ≡ true → is_folded (n ++ s) ≡ false
unfolding is_name_char
is_folded-name [] s t h = cc
is_folded-name (c ∷ n) s t h = ground (arith, h)

truthy-name : (n s : Text) → truthy n ≡ true → truthy (n ++ s) ≡ true
truthy-name [] s t = cc
truthy-name (c ∷ n) s t = refl

truthy-lower : (n : Text) → truthy n ≡ true → truthy (map ascii_lower n) ≡ true
truthy-lower [] t = cc
truthy-lower (c ∷ n) t = refl

get-put_self : (k : Text) (v : Text) (d : Dict Text) → value_of k (put k v d) ≡ v
unfolding value_of
get-put_self k v d = ground (arith, get-put k k v d, text_eq_refl k)

put-put : (k v w : Text) (d : Dict Text) → put k w (put k v d) ≡ put k w d
unfolding put
put-put k v w [] = rw (text_eq_refl k) refl
put-put k v w ((j, x) ∷ d) = ground (arith, put-put k v w d)

fold_step :
    (line : Text) (more : List Text) (d : Dict Text) (k : Text)
    → truthy line ≡ true
    → is_folded line ≡ true
    → truthy k ≡ true
    → parse_lines (line ∷ more) d k
      ≡ parse_lines more (put k (value_of k d ++ (32 ∷ trim line)) d) k
unfolding parse_lines
fold_step line more d k a b c = rw (a, b, c) refl

header_step :
    (line name value : Text) (more : List Text) (d : Dict Text) (k : Text)
    → truthy line ≡ true
    → is_folded line ≡ false
    → header_line line ≡ some (name, value)
    → parse_lines (line ∷ more) d k
      ≡ parse_lines more (put (map ascii_lower name) value d) (map ascii_lower name)
unfolding parse_lines start_header
header_step line name value more d k a b c = rw (a, b, c) refl

parse-folds :
    (fs : List Text) (more : List Text) (d : Dict Text) (k v : Text)
    → truthy k ≡ true
    → parse_lines (map (λ f. 32 ∷ f) fs ++ more) (put k v d) k
      ≡ parse_lines more (put k (unfolded v fs) d) k
unfolding unfolded
parse-folds [] more d k v t = refl
parse-folds (f ∷ fs) more d k v t =
    fold_step (32 ∷ f) (map (λ x. 32 ∷ x) fs ++ more) (put k v d) k refl refl t
    ∙ ap (λ e. parse_lines (map (λ x. 32 ∷ x) fs ++ more) e k)
        (rw (get-put_self k v d) (put-put k v (v ++ (32 ∷ trim (32 ∷ f))) d))
    ∙ parse-folds fs more d k (v ++ (32 ∷ trim (32 ∷ f))) t

parse-header :
    (h : Header) (more : List Text) (d : Dict Text) (k : Text)
    → IsHeader h
    → parse_lines (lines_of h ++ more) d k
      ≡ parse_lines more
          (put (map ascii_lower h.name) (unfolded h.value h.folds) d)
          (map ascii_lower h.name)
unfolding lines_of
parse-header h more d k i =
    header_step (h.name ++ (58 ∷ 32 ∷ h.value)) h.name h.value (map (λ f. 32 ∷ f) h.folds ++ more) d
      k (truthy-name h.name (58 ∷ 32 ∷ h.value) i.named)
      (is_folded-name h.name (58 ∷ 32 ∷ h.value) i.named i.name_chars) (header_line-written h i)
    ∙ parse-folds h.folds more d (map ascii_lower h.name) h.value (truthy-lower h.name i.named)

parse_lines-headers :
    (hs : List Header) (d : Dict Text) (k : Text)
    → All IsHeader hs
    → parse_lines (all_lines hs) d k ≡ some (collect hs d)
unfolding all_lines collect
parse_lines-headers [] d k i = unfold parse_lines in refl
parse_lines-headers (h ∷ hs) d k i =
    parse-header h (all_lines hs) d k i.0
    ∙ parse_lines-headers hs (put (map ascii_lower h.name) (unfolded h.value h.folds) d)
        (map ascii_lower h.name) i.1

-- A line without a line feed comes back whole.
split-line :
    (l s : Text)
    → any (λ c. c == 10) l ≡ false
    → split_skip (10 ∷ []) 0 (l ++ (10 ∷ s)) ≡ l ∷ split_skip (10 ∷ []) 0 s
unfolding split_skip
split-line [] s h = refl
split-line (c ∷ l) s h = ground (arith, h, split-line l s)

split-last : (l : Text) → any (λ c. c == 10) l ≡ false → split_skip (10 ∷ []) 0 l ≡ l ∷ []
unfolding split_skip
split-last [] h = refl
split-last (c ∷ l) h = ground (arith, h, split-last l)

split-join :
    (l : Text) (ls : List Text)
    → All (λ x. any (λ c. c == 10) x ≡ false) (l ∷ ls)
    → split_on (10 ∷ []) (join (l ∷ ls)) ≡ l ∷ ls
unfolding split_on join
split-join l [] i = split-last l i.0
split-join l (k ∷ ls) i = split-line l (join (k ∷ ls)) i.0 ∙ ap (λ r. l ∷ r) (split-join k ls i.1)

abbrev IsLine : Text → Type 0
IsLine l = any (λ c. c == 10) l ≡ false

name-IsLine : (n s : Text) → all is_name_char n ≡ true → IsLine s → IsLine (n ++ s)
unfolding is_name_char
name-IsLine [] s h k = k
name-IsLine (c ∷ n) s h k = ground (arith, h, name-IsLine n s, k)

value-IsLine : (s : Text) → any is_terminator s ≡ false → IsLine s
unfolding is_terminator
value-IsLine [] h = refl
value-IsLine (c ∷ s) h = ground (arith, h, value-IsLine s)

folds-IsLine :
    (fs more : List Text)
    → All (λ f. any is_terminator f ≡ false) fs
    → All IsLine more
    → All IsLine (map (λ f. 32 ∷ f) fs ++ more)
folds-IsLine [] more h k = k
folds-IsLine (f ∷ fs) more h k = (value-IsLine f h.0, folds-IsLine fs more h.1 k)

lines-IsLine : (hs : List Header) → All IsHeader hs → All IsLine (all_lines hs)
unfolding all_lines lines_of
lines-IsLine [] i = tt
lines-IsLine (h ∷ hs) i = (
  name-IsLine h.name (58 ∷ 32 ∷ h.value) i.0.name_chars (value-IsLine h.value i.0.value_line),
  folds-IsLine h.folds (all_lines hs) i.0.fold_lines (lines-IsLine hs i.1),
)

split-all_lines :
    (h : Header) (hs : List Header)
    → All IsLine (all_lines (h ∷ hs))
    → split_on (10 ∷ []) (join (all_lines (h ∷ hs))) ≡ all_lines (h ∷ hs)
unfolding all_lines lines_of
split-all_lines h hs i =
    split-join (h.name ++ (58 ∷ 32 ∷ h.value)) (map (λ f. 32 ∷ f) h.folds ++ all_lines hs) i

-- Headers that are written one behind the other, each with its folded lines, parse into the map of
-- their values, a fold joined by a space, where names are letters, digits and "-", values do not
-- start with white space, and no line holds a line end.
pub parse_mime_headers-join :
    (h : Header) (hs : List Header)
    → All IsHeader (h ∷ hs)
    → parse_mime_headers (join (all_lines (h ∷ hs))) ≡ some (collect (h ∷ hs) [])
unfolding parse_mime_headers
parse_mime_headers-join h hs i =
    let split : split_on (10 ∷ []) (join (all_lines (h ∷ hs))) ≡ all_lines (h ∷ hs) =
      split-all_lines h hs (lines-IsLine (h ∷ hs) i) in
    ap (λ ls. parse_lines ls [] []) split ∙ parse_lines-headers (h ∷ hs) [] [] i
