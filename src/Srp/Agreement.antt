-- ===== src/Srp/Agreement.antt =====
-- Both sides of static/auth/srp.js and internal/pake/srp.go come to the same proofs, and what the
-- modulus gives away.
use mathlib.Core.Path.{subst}
use native.Mathlib.Nat.{mod-mod_of_dvd}
use elvish_email.Base.{
  ℕ, ◌+◌, ◌*◌, ◌%◌, ◌^◌, ◌<◌, ◌≡◌, refl, ap, sym, ◌∙◌, none, some, List, if◌then◌else◌, ◌==◌, arith,
  Bool-cases, inl, inr,
}
use elvish_email.Base.Text.{Text}
use elvish_email.Srp.{modulus, generator, bytes_to_big_int, mod_pow}
use elvish_email.Srp.Power.{mod_pow_lem}
use elvish_email.Srp.Bytes.{big_int-bytes}
use elvish_email.Srp.Secret.{secrets_equal}
use elvish_email.Srp.Session.{
  Digest, Proofs, ServerSession, ClientState, base_of, padded, multiplier, scramble, compute_x,
  create_registration, begin, client_secret, client_proof_bytes, server_proof_bytes, client_proof,
  server_public_value, server_secret, server_session, new_server_session,
}

modulus_above : 1 < modulus
modulus_above = omega arith

padded-read : (n : ℕ) → bytes_to_big_int (padded n) ≡ n
unfolding padded
padded-read n = big_int-bytes n 138

module _ (D : Digest) where
  pow_lem : (e : ℕ) → mod_pow generator e modulus ≡ (generator ^ e) % modulus
  pow_lem e = mod_pow_lem generator e modulus modulus_above

  secret_lem :
      (s : ClientState) (salt : List ℕ) (v b : ℕ)
      → v ≡ mod_pow generator (compute_x D s.username s.password salt) modulus
      → s.public_value ≡ mod_pow generator s.exponent modulus
      → client_secret D s salt (server_public_value D v b)
        ≡ server_secret D s.public_value v (scramble D s.public_value (server_public_value D v b)) b
  unfolding client_secret server_public_value server_secret
  secret_lem s salt v b ev ea =
      let a = s.exponent in
      let x = compute_x D s.username s.password salt in
      let k = multiplier D in
      let u = scramble D s.public_value (server_public_value D v b) in
      let gx = (generator ^ x) % modulus in
      let ex : mod_pow generator x modulus ≡ gx = pow_lem x in
      let client : ℕ → ℕ → ℕ → ℕ =
        λ y w gb. mod_pow (base_of ((k * w + gb) % modulus) (k * y) modulus) (a + u * x) modulus in
      let server : ℕ → ℕ → ℕ = λ A w. mod_pow (A * mod_pow w u modulus) b modulus % modulus in
      ap (λ y. client y v (mod_pow generator b modulus)) ex
      ∙ ap (λ w. client gx w (mod_pow generator b modulus)) (ev ∙ ex)
      ∙ ap (λ gb. client gx gx gb) (pow_lem b)
      ∙ secrets_equal modulus generator k x a b u modulus_above
      ∙ sym (
          ap (λ A. server A v) (ea ∙ pow_lem a)
          ∙ ap (λ w. server ((generator ^ a) % modulus) w) (ev ∙ ex))

  -- The proofs that the client computes are those of the server's session.
  abbrev pub Agrees : Proofs → ServerSession → Type 0
  Agrees p t =
      (p.client_proof ≡ t.expected_client_proof) × (p.expected_server_proof ≡ t.server_proof)

  session-Agrees :
      (s : ClientState) (salt : List ℕ) (v b : ℕ)
      → v ≡ mod_pow generator (compute_x D s.username s.password salt) modulus
      → s.public_value ≡ mod_pow generator s.exponent modulus
      → let t = server_session D s.username salt s.public_value v b (server_public_value D v b) in
        Agrees (client_proof D s salt t.server_public) t
  unfolding client_proof server_session
  session-Agrees s salt v b ev ea =
      let bp = server_public_value D v b in
      let read : bytes_to_big_int (padded bp) ≡ bp = padded-read bp in
      let secret : client_secret D s salt (bytes_to_big_int (padded bp))
          ≡ server_secret D s.public_value v (scramble D s.public_value bp) b =
        ap (client_secret D s salt) read ∙ secret_lem s salt v b ev ea in
      let m1 : ℕ → ℕ → List ℕ =
        λ z c. client_proof_bytes D s.username salt s.public_value z (D.sha256 (padded c)) in
      let m2 : ℕ → ℕ → List ℕ =
        λ z c. server_proof_bytes D s.public_value (m1 z c) (D.sha256 (padded c)) in
      let there = server_secret D s.public_value v (scramble D s.public_value bp) b in
      (
        ap (m1 (bytes_to_big_int (padded bp))) secret ∙ ap (λ z. m1 z there) read,
        ap (m2 (bytes_to_big_int (padded bp))) secret ∙ ap (λ z. m2 z there) read,
      )

  opened_session :
      (username : Text) (salt : List ℕ) (a v b : ℕ) (t : ServerSession)
      → (if a % modulus == 0
          then none
          else if scramble D a (server_public_value D v b) == 0
          then none
          else some (server_session D username salt a v b (server_public_value D v b)))
        ≡ some t
      → server_session D username salt a v b (server_public_value D v b) ≡ t
  opened_session username salt a v b t h = elim (Bool-cases (a % modulus == 0)) [
    | inl e ↦ absurd (cc (rw e at h))
    | inr e ↦ elim (Bool-cases (scramble D a (server_public_value D v b) == 0)) [
      | inl f ↦ absurd (cc (rw (e, f) at h))
      | inr f ↦ cc (rw (e, f) at h)
    ]
  ]

  -- For every username, password, salt and random values, the proofs that the browser computes from
  -- the server's public value, its own proof and the one it expects of the server, are those of the
  -- session that the server opened with the verifier of the registration and the browser's public
  -- value.
  pub exchange-Agrees :
      (username password : Text) (salt random : List ℕ) (b : ℕ) (t : ServerSession)
      → new_server_session D username salt
          (create_registration D username password salt).verifier
          (padded (begin D username password random).public_value)
          b
        ≡ some t
      → Agrees (client_proof D (begin D username password random) salt t.server_public) t
  unfolding new_server_session create_registration begin
  exchange-Agrees username password salt random b t h =
      let s = begin D username password random in
      let v = mod_pow generator (compute_x D username password salt) modulus in
      let session : ℕ → ℕ → ServerSession =
        λ a w. server_session D username salt a w b (server_public_value D w b) in
      let same : session s.public_value v ≡ t =
        ap (λ a. session a v) (sym (padded-read s.public_value))
        ∙ ap (λ w. session (bytes_to_big_int (padded s.public_value)) w) (sym (padded-read v))
        ∙ opened_session username salt (bytes_to_big_int (padded s.public_value))
            (bytes_to_big_int (padded v)) b t h in
      subst (λ z. Agrees (client_proof D s salt z.server_public) z) same
        (session-Agrees s salt v b refl refl)

-- The public value that begin sends, reduced by 13, is the power of 2 by the secret exponent,
-- reduced by 13.
pub public_value-leaks :
    (D : Digest) (username password : Text) (random : List ℕ)
    → (begin D username password random).public_value % 13 ≡ (2 ^ bytes_to_big_int random) % 13
unfolding begin
public_value-leaks D username password random =
    let a = bytes_to_big_int random in
    ap (λ z. z % 13) (mod_pow_lem generator a modulus modulus_above)
    ∙ mod-mod_of_dvd 13 (2 ^ a) ∣ (
      703724812515454237212926688822344815620583241768596881320895108538622447182028535530644240549460920866327213887342552926510457197512782196374167034247221115895158234860073005393281871666266365441182432584226074731122618718359123112693508706118573910905264635514817879350541180338979932679139605119311009039648809809426617302495547,
      refl,
    ) ∣₁
