-- ===== src/Messages/Mime/Transfer/Laws.antt =====
-- What quoted-printable text decodes to.
use elvish_email.Base.{ℕ, ◌≡◌, ◌≢◌, ◌<◌, ◌+◌, ◌*◌, refl, ap, some, List, [], ◌∷◌, arith}
use elvish_email.Base.Text.{Text, starts_with}
use elvish_email.Messages.Mime.Transfer.{
  join_lines, hex_value, quoted_bytes, quoted_printable_to_bytes,
}

-- The grammar of RFC 2045: literal characters, escaped bytes and soft line breaks.
pub data Encodes : Text → List ℕ → Type 0 where
  end : Encodes [] []
  literal :
      {c : ℕ} {t : Text} {bs : List ℕ} → c ≢ 61 → c < 256 → Encodes t bs → Encodes (c ∷ t) (c ∷ bs)
  escape :
      {h l a b : ℕ} {t : Text} {bs : List ℕ}
      → hex_value h ≡ some a
      → hex_value l ≡ some b
      → Encodes t bs
      → Encodes (61 ∷ h ∷ l ∷ t) ((a * 16 + b) ∷ bs)
  soft_lf : {t : Text} {bs : List ℕ} → Encodes t bs → Encodes (61 ∷ 10 ∷ t) bs
  soft_crlf : {t : Text} {bs : List ℕ} → Encodes t bs → Encodes (61 ∷ 13 ∷ 10 ∷ t) bs

-- The same without soft line breaks.
data Plain : Text → List ℕ → Type 0 where
  end : Plain [] []
  literal :
      {c : ℕ} {t : Text} {bs : List ℕ} → c ≢ 61 → c < 256 → Plain t bs → Plain (c ∷ t) (c ∷ bs)
  escape :
      {h l a b : ℕ} {t : Text} {bs : List ℕ}
      → hex_value h ≡ some a
      → hex_value l ≡ some b
      → Plain t bs
      → Plain (61 ∷ h ∷ l ∷ t) ((a * 16 + b) ∷ bs)

-- A digit is neither "=" nor a line end.
digit_apart : (h a : ℕ) → hex_value h ≡ some a → (h ≢ 61) × (h ≢ 10) × (h ≢ 13)
unfolding hex_value
digit_apart h a e =
    (λ q. ground (arith, q, e), λ q. ground (arith, q, e), λ q. ground (arith, q, e))

join-keep : (c : ℕ) (s : Text) → c ≢ 61 → join_lines 0 (c ∷ s) ≡ c ∷ join_lines 0 s
unfolding join_lines
join-keep c s n = ground (arith, n)

join-escape :
    (h l : ℕ) (s : Text)
    → h ≢ 61
    → h ≢ 10
    → h ≢ 13
    → l ≢ 61
    → join_lines 0 (61 ∷ h ∷ l ∷ s) ≡ 61 ∷ h ∷ l ∷ join_lines 0 s
unfolding join_lines starts_with
join-escape h l s a b c d = ground (arith, a, b, c, d)

join-soft_lf : (s : Text) → join_lines 0 (61 ∷ 10 ∷ s) ≡ join_lines 0 s
unfolding join_lines starts_with
join-soft_lf s = refl

join-soft_crlf : (s : Text) → join_lines 0 (61 ∷ 13 ∷ 10 ∷ s) ≡ join_lines 0 s
unfolding join_lines starts_with
join-soft_crlf s = refl

join-Plain : {t : Text} {bs : List ℕ} → Encodes t bs → Plain (join_lines 0 t) bs
join-Plain Encodes.end = unfold join_lines in Plain.end
join-Plain (Encodes.literal {c} {t} n lt e) =
    rw (join-keep c t n) (Plain.literal n lt (join-Plain e))
join-Plain (Encodes.escape {h} {l} {a} {b} {t} p q e) =
    let (x, y, z) = digit_apart h a p in
    rw (join-escape h l t x y z (digit_apart l b q).0) (Plain.escape p q (join-Plain e))
join-Plain (soft_lf {t} e) = rw (join-soft_lf t) (join-Plain e)
join-Plain (soft_crlf {t} e) = rw (join-soft_crlf t) (join-Plain e)

quoted-Plain : {t : Text} {bs : List ℕ} → Plain t bs → quoted_bytes 0 t ≡ bs
unfolding quoted_bytes
quoted-Plain Plain.end = refl
quoted-Plain (Plain.literal {c} {t} {bs} n lt e) = ground (arith, n, lt, quoted-Plain e)
quoted-Plain (Plain.escape {h} {l} {a} {b} {t} {bs} p q e) =
    rw (p, q) (ap (λ (k : List ℕ). (a * 16 + b) ∷ k) (quoted-Plain e))

-- A quoted-printable text decodes to the bytes that it encodes: characters below 256 but "=" by
-- themselves, two hexadecimal digits behind "=", and soft line breaks for nothing.
pub quoted_printable-Encodes :
    {t : Text} {bs : List ℕ} → Encodes t bs → quoted_printable_to_bytes t ≡ bs
unfolding quoted_printable_to_bytes
quoted_printable-Encodes e = quoted-Plain (join-Plain e)
