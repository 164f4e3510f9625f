-- ===== src/Envelope/Laws.antt =====
-- Which manifests pass.
use mathlib.Core.List.{Memᴰ}
use mathlib.Core.List.Memᴰ
use elvish_email.Base.{
  ◌≡◌, ◌≢◌, ◌↔◌, ◌≤◌, inl, inr, refl, sym, ℕ, true, Option, none, some, List, [], ◌∷◌, arith,
  Bool-cases,
}
use elvish_email.Base.Text.{Text, lit, text_eq, text_eq_iff, truthy}
use elvish_email.Envelope.{
  modes, body_ciphers, provenances, Manifest, holds, has_wraps, validate_manifest,
}

holds-Memᴰ : (xs : List Text) (t : Text) → holds xs t ≡ true → Memᴰ t xs
unfolding holds
holds-Memᴰ [] t h = cc
holds-Memᴰ (x ∷ xs) t h = elim (Bool-cases (text_eq x t)) [
  | inl e ↦ Memᴰ.head (sym ((text_eq_iff x t).0 e))
  | inr e ↦ Memᴰ.tail (holds-Memᴰ xs t (rw e at h))
]

Memᴰ-holds : (xs : List Text) (t : Text) → Memᴰ t xs → holds xs t ≡ true
unfolding holds
Memᴰ-holds [] t m = absurd (Memᴰ.not-nil m)
Memᴰ-holds (x ∷ xs) t (Memᴰ.head e) = rw ((text_eq_iff x t).1 (sym e)) refl
Memᴰ-holds (x ∷ xs) t (Memᴰ.tail m) = elim (Bool-cases (text_eq x t)) [
  | inl e ↦ rw e refl
  | inr e ↦ rw e (Memᴰ-holds xs t m)
]

-- What a manifest has to be.
pub record IsManifest (m : Manifest) : Type 0 where
  pub version : m.version ≡ lit "v1"
  pub mode : Memᴰ m.mode modes
  pub provenance : Memᴰ m.provenance provenances
  pub cipher : Memᴰ m.body_cipher body_ciphers
  pub stored : m.body_blob_ref ≢ []
  pub wraps : m.mode ≡ lit "native-encrypted" → (n : ℕ) × (m.recipient_wraps ≡ some n) × (1 ≤ n)

wraps_iff : (o : Option ℕ) → (has_wraps o ≡ true) ↔ ((n : ℕ) × (o ≡ some n) × (1 ≤ n))
unfolding has_wraps
wraps_iff none = (λ e. cc, λ (n, e, l). cc (e))
wraps_iff (some n) = (λ e. (n, refl, ground (arith, e)), λ (k, e, l). ground (arith, e, l))

truthy_iff : (t : Text) → (truthy t ≡ true) ↔ (t ≢ [])
truthy_iff [] = (λ e. cc, λ n. absurd (n refl))
truthy_iff (c ∷ t) = (λ e. λ q. cc (q), λ n. refl)

-- A manifest passes exactly when its version is v1, its mode, provenance and cipher are among the
-- listed ones, it refers to a body, and, in the native mode, it holds at least one recipient wrap.
pub validate_manifest_iff : (m : Manifest) → (validate_manifest (some m) ≡ none) ↔ IsManifest m
unfolding validate_manifest
validate_manifest_iff m = (there, back)
  where
    there : validate_manifest (some m) ≡ none → IsManifest m
    there h =
        let parts : (text_eq m.version (lit "v1") ≡ true)
            × (holds modes m.mode ≡ true)
            × (holds provenances m.provenance ≡ true)
            × (holds body_ciphers m.body_cipher ≡ true)
            × (truthy m.body_blob_ref ≡ true)
            × (text_eq m.mode (lit "native-encrypted") ≡ true
                → has_wraps m.recipient_wraps ≡ true) =
          unfold validate_manifest in ground (arith, h) in
        record {
          version = (text_eq_iff m.version (lit "v1")).0 parts.0;
          mode = holds-Memᴰ modes m.mode parts.1;
          provenance = holds-Memᴰ provenances m.provenance parts.2;
          cipher = holds-Memᴰ body_ciphers m.body_cipher parts.3;
          stored = (truthy_iff m.body_blob_ref).0 parts.4;
          wraps = λ e.
              (wraps_iff m.recipient_wraps).0
                (parts.5 ((text_eq_iff m.mode (lit "native-encrypted")).1 e));
        }

    back : IsManifest m → validate_manifest (some m) ≡ none
    back i =
        let a = (text_eq_iff m.version (lit "v1")).1 i.version in
        let b = Memᴰ-holds modes m.mode i.mode in
        let c = Memᴰ-holds provenances m.provenance i.provenance in
        let d = Memᴰ-holds body_ciphers m.body_cipher i.cipher in
        let e = (truthy_iff m.body_blob_ref).1 i.stored in
        let f : text_eq m.mode (lit "native-encrypted") ≡ true
            → has_wraps m.recipient_wraps ≡ true =
          λ q.
            (wraps_iff m.recipient_wraps).1
              (i.wraps ((text_eq_iff m.mode (lit "native-encrypted")).0 q)) in
        unfold validate_manifest in ground (arith, a, b, c, d, e, f)
