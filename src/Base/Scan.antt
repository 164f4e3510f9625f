-- ===== src/Base/Scan.antt =====
-- Searching in texts: what the client does by `indexOf`, `split` and regular expressions. A regular
-- expression with the flag `i` and a pattern in ASCII ignores the case of ASCII letters only.
use Prim.Native.Nat.{ℕ, zero, suc, ◌-◌}
use mathlib.Core.Bool.{Bool, ◌&&◌}
use mathlib.Core.Option.{Option, none, some}
use mathlib.Core.List.{List, [], ◌∷◌, ◌++◌, map, reverse}
use mathlib.Core.Path.{◌≡◌, refl, ◌∙◌}
use native.Mathlib.Omega.{arith}
use elvish_email.Base.Tests.{◌==◌, if◌then◌else◌}
use elvish_email.Base.Lists.{length}
use elvish_email.Base.Text.{Text, ascii_lower, includes, trim_start}

-- What follows a prefix.
unfoldable pub after_prefix : Text → Text → Option Text
after_prefix [] s = some s
after_prefix (p ∷ ps) [] = none
after_prefix (p ∷ ps) (c ∷ s) = let rest = after_prefix ps s in if p == c then rest else none

-- The same, without regard to the case of the text; the prefix is in lower case.
unfoldable pub after_prefix_ci : Text → Text → Option Text
after_prefix_ci [] s = some s
after_prefix_ci (p ∷ ps) [] = none
after_prefix_ci (p ∷ ps) (c ∷ s) =
    let rest = after_prefix_ci ps s in if p == ascii_lower c then rest else none

abbrev pub put_before : ℕ → Option (Text × Text) → Option (Text × Text)
put_before c none = none
put_before c (some (a, b)) = some (c ∷ a, b)

abbrev pub here_or : Option Text → Option (Text × Text) → Option (Text × Text)
here_or none later = later
here_or (some rest) later = some ([], rest)

-- The text before the first occurrence of `n` and behind it.
unfoldable pub split_first : Text → Text → Option (Text × Text)
unfolding after_prefix
split_first n [] = here_or (after_prefix n []) none
split_first n (c ∷ s) =
    let later = split_first n s in here_or (after_prefix n (c ∷ s)) (put_before c later)

abbrev add_head : ℕ → List Text → List Text
add_head c [] = (c ∷ []) ∷ []
add_head c (p ∷ ps) = (c ∷ p) ∷ ps

-- `s.split(n)` for an `n` that is not empty, with `k` characters of a separator still to skip.
unfoldable pub split_skip : Text → ℕ → Text → List Text
unfolding after_prefix
split_skip n k [] = [] ∷ []
split_skip n (suc k) (c ∷ s) = split_skip n k s
split_skip n zero (c ∷ s) =
    let next_part = [] ∷ split_skip n (length n - 1) s in
    let same_part = add_head c (split_skip n zero s) in
    elim (after_prefix n (c ∷ s)) [ some rest ↦ next_part | none ↦ same_part ]

unfoldable pub split_on : Text → Text → List Text
unfolding split_skip
split_on n s = split_skip n zero s

-- `/pattern/i.test(s)`
unfoldable pub includes_ci : Text → Text → Bool
unfolding includes
includes_ci s n = includes (map ascii_lower s) n

-- The longest prefix of characters that pass.
unfoldable pub take_while : (ℕ → Bool) → Text → Text
take_while p [] = []
take_while p (c ∷ s) = let rest = c ∷ take_while p s in if p c then rest else []

unfoldable pub drop_while : (ℕ → Bool) → Text → Text
drop_while p [] = []
drop_while p (c ∷ s) = let rest = drop_while p s in if p c then rest else c ∷ s

-- `s.trimEnd()`
unfoldable pub trim_end : Text → Text
unfolding trim_start
trim_end s = reverse (trim_start (reverse s))

-- `s.replace(/\r\n/g, "\n")`
unfoldable pub normalize_newlines : Text → Text
normalize_newlines [] = []
normalize_newlines (c ∷ []) = c ∷ []
normalize_newlines (c ∷ d ∷ s) =
    let rest = normalize_newlines (d ∷ s) in if c == 13 && d == 10 then rest else c ∷ rest

pub after_prefix-split : (n s t : Text) → after_prefix n s ≡ some t → s ≡ n ++ t
unfolding after_prefix
after_prefix-split [] s t h = ground (arith, h)
after_prefix-split (p ∷ ps) [] t h = cc
after_prefix-split (p ∷ ps) (c ∷ s) t h = ground (arith, h, after_prefix-split ps s t)

here_or-append :
    (n s a b : Text) (o : Option Text) (later : Option (Text × Text))
    → after_prefix n s ≡ o
    → (later ≡ some (a, b) → s ≡ a ++ (n ++ b))
    → here_or o later ≡ some (a, b)
    → s ≡ a ++ (n ++ b)
here_or-append n s a b none later e f h = f h
here_or-append n s a b (some t) later e f h = after_prefix-split n s t e ∙ ground (arith, h)

put_before-append :
    (n s a b : Text) (c : ℕ) (later : Option (Text × Text))
    → ((x y : Text) → later ≡ some (x, y) → s ≡ x ++ (n ++ y))
    → put_before c later ≡ some (a, b)
    → c ∷ s ≡ a ++ (n ++ b)
put_before-append n s a b c none f h = cc
put_before-append n s a b c (some (x, y)) f h = ground (arith, f x y refl, h)

-- The two parts and the separator make up the text.
pub split_first-append : (n s a b : Text) → split_first n s ≡ some (a, b) → s ≡ a ++ (n ++ b)
unfolding split_first
split_first-append n [] a b h =
    here_or-append n [] a b (after_prefix n []) none refl (λ e. cc (e)) h
split_first-append n (c ∷ s) a b h =
    here_or-append n (c ∷ s) a b (after_prefix n (c ∷ s)) (put_before c (split_first n s)) refl
      (put_before-append n s a b c (split_first n s) (λ x y e. split_first-append n s x y e)) h
