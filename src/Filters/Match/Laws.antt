-- ===== src/Filters/Match/Laws.antt =====
-- What the string tests of a condition decide.
use elvish_email.Base.{
  ◌≡◌, ◌≢◌, ◌↔◌, refl, ap, ◌&&◌, sym, ◌∙◌, ◌⊎◌, Bool, true, false, [], ◌∷◌, ◌++◌, reverse, arith,
  Bool-cases, inl, inr,
}
use mathlib.Core.List.{reverse-append, reverse-reverse}
use elvish_email.Base.Text.{
  Text, lit, text_eq, text_eq_iff, truthy, starts_with, ends_with, includes, Unicode,
}
use elvish_email.Filters.Match.{norm, match_string}

starts_with-split : (s p : Text) → starts_with s p ≡ true → (t : Text) × (s ≡ p ++ t)
unfolding starts_with
starts_with-split s [] h = (s, refl)
starts_with-split [] (c ∷ p) h = cc
starts_with-split (c ∷ s) (d ∷ p) h =
    let (t, e) = starts_with-split s p (ground arith) in (t, ground (arith, e))

starts_with-append : (p t : Text) → starts_with (p ++ t) p ≡ true
unfolding starts_with
starts_with-append [] t = refl
starts_with-append (c ∷ p) t = ground (arith, starts_with-append p t)

-- `hay` holds `needle` somewhere.
pub record Occurs (needle hay : Text) : Type 0 where
  pub left : Text
  pub right : Text
  pub split : hay ≡ left ++ (needle ++ right)

includes-Occurs : (s n : Text) → includes s n ≡ true → Occurs n s
unfolding includes
includes-Occurs [] n h =
    let (t, e) = starts_with-split [] n h in record { left = []; right = t; split = e }
includes-Occurs (c ∷ s) n h = elim (Bool-cases (starts_with (c ∷ s) n)) [
  | inl here ↦
      let (t, e) = starts_with-split (c ∷ s) n here in record { left = []; right = t; split = e }
  | inr not_here ↦
      let o = includes-Occurs s n (rw not_here at h) in
      record { left = c ∷ o.left; right = o.right; split = ap (λ (t : Text). c ∷ t) o.split }
]

includes-append : (l n r : Text) → includes (l ++ (n ++ r)) n ≡ true
unfolding includes
includes-append [] [] [] = unfold starts_with in refl
includes-append [] [] (c ∷ r) = unfold starts_with in refl
includes-append [] (c ∷ n) r = rw (starts_with-append (c ∷ n) r)
includes-append (c ∷ l) n r = ground (arith, includes-append l n r)

ends_with-split : (s p : Text) → ends_with s p ≡ true → (t : Text) × (s ≡ t ++ p)
unfolding ends_with
ends_with-split s p h =
    let (t, e) = starts_with-split (reverse s) (reverse p) h in
    (
      reverse t,
      sym (reverse-reverse s)
          ∙ ap reverse e
          ∙ reverse-append (reverse p) t
          ∙ ap (λ (q : Text). reverse t ++ q) (reverse-reverse p),
    )

ends_with-append : (t p : Text) → ends_with (t ++ p) p ≡ true
unfolding ends_with
ends_with-append t p = rw (reverse-append t p) (starts_with-append (reverse p) (reverse t))

-- What an operator of a condition asks of the normalised text `h` and needle `n`.
pub data StringTest (op h n : Text) : Type 0 where
  equal : op ≡ lit "equals" → h ≡ n → StringTest op h n
  prefix : op ≡ lit "starts_with" → n ≢ [] → (t : Text) → h ≡ n ++ t → StringTest op h n
  suffix : op ≡ lit "ends_with" → n ≢ [] → (t : Text) → h ≡ t ++ n → StringTest op h n
  inside : (op ≡ lit "matches") ⊎ (op ≡ lit "contains") → n ≢ [] → Occurs n h → StringTest op h n

truthy-ne : (n : Text) → truthy n ≡ true → n ≢ []
truthy-ne [] h = cc
truthy-ne (c ∷ n) h = λ e. cc

ne-truthy : (n : Text) → n ≢ [] → truthy n ≡ true
ne-truthy [] h = absurd (h refl)
ne-truthy (c ∷ n) h = refl

module _ (U : Unicode) (hay needle : Text) where
  match-equals : match_string U hay needle (lit "equals") ≡ text_eq (norm U hay) (norm U needle)
  unfolding match_string lit text_eq
  match-equals = ground arith

  match-starts_with :
      match_string U hay needle (lit "starts_with")
      ≡ (truthy (norm U needle) && starts_with (norm U hay) (norm U needle))
  unfolding match_string lit text_eq
  match-starts_with = ground arith

  match-ends_with :
      match_string U hay needle (lit "ends_with")
      ≡ (truthy (norm U needle) && ends_with (norm U hay) (norm U needle))
  unfolding match_string lit text_eq
  match-ends_with = ground arith

  match-matches :
      match_string U hay needle (lit "matches")
      ≡ (truthy (norm U needle) && includes (norm U hay) (norm U needle))
  unfolding match_string lit text_eq
  match-matches = ground arith

  match-contains :
      match_string U hay needle (lit "contains")
      ≡ (truthy (norm U needle) && includes (norm U hay) (norm U needle))
  unfolding match_string lit text_eq
  match-contains = ground arith

  match-other :
      (op : Text)
      → text_eq op (lit "equals") ≡ false
      → text_eq op (lit "starts_with") ≡ false
      → text_eq op (lit "ends_with") ≡ false
      → text_eq op (lit "matches") ≡ false
      → text_eq op (lit "contains") ≡ false
      → match_string U hay needle op ≡ false
  unfolding match_string
  match-other op a b c d e = ground arith

  -- A conjunction of a non-empty needle and a test.
  both : {b : Bool} → (truthy (norm U needle) && b) ≡ true → (norm U needle ≢ []) × (b ≡ true)
  both {b} e = (truthy-ne (norm U needle) (ground arith), ground arith)

  match_string-StringTest :
      (op : Text) → match_string U hay needle op ≡ true → StringTest op (norm U hay) (norm U needle)
  match_string-StringTest op e = elim (Bool-cases (text_eq op (lit "equals"))) [
    | inl q ↦
        let o = (text_eq_iff op (lit "equals")).0 q in
        equal o ((text_eq_iff (norm U hay) (norm U needle)).0 (sym match-equals ∙ (rw o at e)))
    | inr a ↦ elim (Bool-cases (text_eq op (lit "starts_with"))) [
      | inl q ↦
          let o = (text_eq_iff op (lit "starts_with")).0 q in
          let (ne, sw) = both (sym match-starts_with ∙ (rw o at e)) in
          let (t, split) = starts_with-split (norm U hay) (norm U needle) sw in prefix o ne t split
      | inr b ↦ elim (Bool-cases (text_eq op (lit "ends_with"))) [
        | inl q ↦
            let o = (text_eq_iff op (lit "ends_with")).0 q in
            let (ne, ew) = both (sym match-ends_with ∙ (rw o at e)) in
            let (t, split) = ends_with-split (norm U hay) (norm U needle) ew in suffix o ne t split
        | inr c ↦ elim (Bool-cases (text_eq op (lit "matches"))) [
          | inl q ↦
              let o = (text_eq_iff op (lit "matches")).0 q in
              let (ne, inc) = both (sym match-matches ∙ (rw o at e)) in
              inside (inl o) ne (includes-Occurs (norm U hay) (norm U needle) inc)
          | inr d ↦ elim (Bool-cases (text_eq op (lit "contains"))) [
            | inl q ↦
                let o = (text_eq_iff op (lit "contains")).0 q in
                let (ne, inc) = both (sym match-contains ∙ (rw o at e)) in
                inside (inr o) ne (includes-Occurs (norm U hay) (norm U needle) inc)
            | inr f ↦ cc (match-other op a b c d f)
          ]
        ]
      ]
    ]
  ]

  included : Occurs (norm U needle) (norm U hay) → includes (norm U hay) (norm U needle) ≡ true
  included w = rw w.split (includes-append w.left (norm U needle) w.right)

  StringTest-match_string :
      (op : Text) → StringTest op (norm U hay) (norm U needle) → match_string U hay needle op ≡ true
  StringTest-match_string op (equal o e) =
      rw (o, match-equals) ((text_eq_iff (norm U hay) (norm U needle)).1 e)
  StringTest-match_string op (prefix o ne t e) =
      rw (o, match-starts_with, ne-truthy (norm U needle) ne, e)
        (starts_with-append (norm U needle) t)
  StringTest-match_string op (suffix o ne t e) =
      rw (o, match-ends_with, ne-truthy (norm U needle) ne, e) (ends_with-append t (norm U needle))
  StringTest-match_string op (inside (inl o) ne w) =
      rw (o, match-matches, ne-truthy (norm U needle) ne) (included w)
  StringTest-match_string op (inside (inr o) ne w) =
      rw (o, match-contains, ne-truthy (norm U needle) ne) (included w)

-- A string test of a condition succeeds exactly when the normalised texts are related as its
-- operator says; an unknown operator never succeeds, and only "equals" takes an empty needle.
pub match_string_iff :
    (U : Unicode) (hay needle op : Text)
    → (match_string U hay needle op ≡ true) ↔ StringTest op (norm U hay) (norm U needle)
match_string_iff U hay needle op =
    (match_string-StringTest U hay needle op, StringTest-match_string U hay needle op)
