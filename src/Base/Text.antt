-- ===== src/Base/Text.antt =====
-- JavaScript strings as lists of UTF-16 code units, and what the client uses of them. The case
-- mappings of Unicode are tables of the host, so they are a parameter.
use Prim.Native.Nat.{ℕ, ◌+◌, ◌-◌, compare, Ordering}
use Prim.Native.Char.{code}
use Prim.Native.String.{String}
use mathlib.Core.Path.{◌≡◌, refl}
use mathlib.Core.Logic.{◌↔◌}
use mathlib.Core.Bool.{Bool, true, false, ◌&&◌, ◌||◌}
use mathlib.Core.List.{List, [], ◌∷◌, reverse, map}
use native.Mathlib.Omega.{arith}
use elvish_email.Base.Tests.{◌==◌, leb, if◌then◌else◌}
use elvish_email.Base.Lists.{length, drop}

abbrev pub Text : Type 0
Text = List ℕ

-- A literal of the source. It stays shut, so that proofs see it as one name.
unfoldable pub lit : String → Text
lit String.[] = []
lit (String.◌∷◌ c s) = code c ∷ lit s

-- `a === b`
unfoldable pub text_eq : Text → Text → Bool
text_eq [] [] = true
text_eq [] (y ∷ ys) = false
text_eq (x ∷ xs) [] = false
text_eq (x ∷ xs) (y ∷ ys) = x == y && text_eq xs ys

pub text_eq_iff : (a b : Text) → (text_eq a b ≡ true) ↔ (a ≡ b)
unfolding text_eq
text_eq_iff [] [] = ground arith
text_eq_iff [] (y ∷ ys) = ground arith
text_eq_iff (x ∷ xs) [] = ground arith
text_eq_iff (x ∷ xs) (y ∷ ys) = ground (arith, text_eq_iff xs ys)

pub text_eq_refl : (a : Text) → text_eq a a ≡ true
text_eq_refl a = (text_eq_iff a a).1 refl

-- A string is falsy when it is empty.
abbrev pub truthy : Text → Bool
truthy [] = false
truthy (x ∷ xs) = true

-- WhiteSpace and LineTerminator of ECMAScript.
unfoldable pub is_space : ℕ → Bool
is_space c =
    (leb 9 c && leb c 13)
    || c == 32
    || c == 160
    || c == 0x1680
    || (leb 0x2000 c && leb c 0x200a)
    || c == 0x2028
    || c == 0x2029
    || c == 0x202f
    || c == 0x205f
    || c == 0x3000
    || c == 0xfeff

unfoldable pub trim_start : Text → Text
trim_start [] = []
trim_start (c ∷ s) = if is_space c then trim_start s else c ∷ s

unfoldable pub trim : Text → Text
unfolding trim_start is_space
trim s = reverse (trim_start (reverse (trim_start s)))

unfoldable pub starts_with : Text → Text → Bool
starts_with s [] = true
starts_with [] (p ∷ ps) = false
starts_with (c ∷ s) (p ∷ ps) = c == p && starts_with s ps

unfoldable pub ends_with : Text → Text → Bool
unfolding starts_with
ends_with s p = starts_with (reverse s) (reverse p)

-- `s.indexOf(n) !== -1`
unfoldable pub includes : Text → Text → Bool
unfolding starts_with
includes [] n = starts_with [] n
includes (c ∷ s) n = starts_with (c ∷ s) n || includes s n

-- `s.slice(-n)`
unfoldable pub slice_last : ℕ → Text → Text
slice_last n s = drop (length s - n) s

-- `toLowerCase`, `toUpperCase` and `localeCompare` of the host.
pub record Unicode : Type 0 where
  pub lower : Text → Text
  pub upper : Text → Text
  pub collate : Text → Text → Ordering

abbrev pub ascii_lower : ℕ → ℕ
ascii_lower c = if leb 65 c && leb c 90 then c + 32 else c

abbrev ascii_upper : ℕ → ℕ
ascii_upper c = if leb 97 c && leb c 122 then c - 32 else c

abbrev by_code : Text → Text → Ordering
by_code [] [] = Ordering.eq
by_code [] (y ∷ ys) = Ordering.lt
by_code (x ∷ xs) [] = Ordering.gt
by_code (x ∷ xs) (y ∷ ys) = elim (compare x y) [ Ordering.eq ↦ by_code xs ys | o ↦ o ]

-- The mappings on ASCII text, and the order of code units, for tests.
abbrev pub ascii : Unicode
ascii = record { lower = map ascii_lower; upper = map ascii_upper; collate = by_code }
