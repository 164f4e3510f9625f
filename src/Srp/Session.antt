-- ===== src/Srp/Session.antt =====
-- The two sides of the exchange: static/auth/srp.js, and the session of internal/pake/srp.go.
use Prim.Native.Nat.{bit_xor}
use elvish_email.Base.{
  ℕ, ◌+◌, ◌-◌, ◌*◌, ◌%◌, Bool, not, ◌&&◌, Option, none, some, List, [], ◌∷◌, ◌++◌, if◌then◌else◌,
  leb, ◌==◌,
}
use elvish_email.Base.Text.{Text, text_eq, truthy}
use elvish_email.Srp.{modulus, generator, pad_len, bytes_to_big_int, big_int_to_bytes, mod_pow}

-- `sha256` of the parts in a row, and `utf8`.
pub record Digest : Type 0 where
  pub sha256 : List ℕ → List ℕ
  pub utf8 : Text → List ℕ

-- What the browser sends to register.
pub record Registration : Type 0 where
  pub salt : List ℕ
  pub verifier : List ℕ

-- The state that `begin` gives.
pub record ClientState : Type 0 where
  pub username : Text
  pub password : Text
  pub exponent : ℕ
  pub public_value : ℕ

pub record Proofs : Type 0 where
  pub client_proof : List ℕ
  pub expected_server_proof : List ℕ

-- The server's session, as far as the client meets it.
pub record ServerSession : Type 0 where
  pub server_public : List ℕ
  pub expected_client_proof : List ℕ
  pub server_proof : List ℕ

unfoldable pub xor_bytes : List ℕ → List ℕ → List ℕ
xor_bytes [] ys = []
xor_bytes (x ∷ xs) [] = x ∷ xs
xor_bytes (x ∷ xs) (y ∷ ys) = bit_xor x y ∷ xor_bytes xs ys

-- `(B - (k * gx)) % N`, with `N` added where it is negative: `%` keeps the sign.
unfoldable pub base_of : ℕ → ℕ → ℕ → ℕ
base_of b kgx m =
    let below = (kgx - b) % m in
    if leb kgx b then (b - kgx) % m else if below == 0 then 0 else m - below

unfoldable pub padded : ℕ → List ℕ
unfolding big_int_to_bytes
padded n = big_int_to_bytes n pad_len

module _ (D : Digest) where
  unfoldable pub multiplier : ℕ
  multiplier = bytes_to_big_int (D.sha256 (padded modulus ++ padded generator))

  unfoldable pub scramble : ℕ → ℕ → ℕ
  scramble a b = bytes_to_big_int (D.sha256 (padded a ++ padded b))

  unfoldable pub compute_x : Text → Text → List ℕ → ℕ
  compute_x username password salt =
      bytes_to_big_int (D.sha256 (salt ++ D.sha256 (D.utf8 (username ++ (58 ∷ password)))))

  unfoldable pub create_registration : Text → Text → List ℕ → Registration
  create_registration username password salt = record {
    salt = salt;
    verifier = padded (mod_pow generator (compute_x username password salt) modulus);
  }

  unfoldable pub begin : Text → Text → List ℕ → ClientState
  begin username password random =
      let a = bytes_to_big_int random in
      record {
        username = username;
        password = password;
        exponent = a;
        public_value = mod_pow generator a modulus;
      }

  unfoldable pub client_secret : ClientState → List ℕ → ℕ → ℕ
  unfolding base_of
  client_secret s salt b =
      let x = compute_x s.username s.password salt in
      let gx = mod_pow generator x modulus in
      mod_pow (base_of b (multiplier * gx) modulus) (s.exponent + scramble s.public_value b * x)
        modulus

  -- The client's proof from the key.
  unfoldable pub client_proof_bytes : Text → List ℕ → ℕ → ℕ → List ℕ → List ℕ
  unfolding xor_bytes
  client_proof_bytes username salt a b key = D.sha256 (
      xor_bytes (D.sha256 (padded modulus)) (D.sha256 (padded generator))
      ++ (D.sha256 (D.utf8 username) ++ (salt ++ (padded a ++ (padded b ++ key)))))

  unfoldable pub server_proof_bytes : ℕ → List ℕ → List ℕ → List ℕ
  server_proof_bytes a m1 key = D.sha256 (big_int_to_bytes a 0 ++ (m1 ++ key))

  unfoldable pub client_proof : ClientState → List ℕ → List ℕ → Proofs
  client_proof s salt server_public_bytes =
      let b = bytes_to_big_int server_public_bytes in
      let key = D.sha256 (padded (client_secret s salt b)) in
      let m1 = client_proof_bytes s.username salt s.public_value b key in
      record { client_proof = m1; expected_server_proof = server_proof_bytes s.public_value m1 key }

  -- `NewServerSession`, with the random exponent given; `none` is an error.
  unfoldable pub server_public_value : ℕ → ℕ → ℕ
  server_public_value v b = (multiplier * v + mod_pow generator b modulus) % modulus

  unfoldable pub server_secret : ℕ → ℕ → ℕ → ℕ → ℕ
  server_secret a v u b = mod_pow (a * mod_pow v u modulus) b modulus % modulus

  unfoldable pub server_session : Text → List ℕ → ℕ → ℕ → ℕ → ℕ → ServerSession
  unfolding server_secret
  server_session username salt a v b b_public =
      let key = D.sha256 (padded (server_secret a v (scramble a b_public) b)) in
      let m1 = client_proof_bytes username salt a b_public key in
      record {
        server_public = padded b_public;
        expected_client_proof = m1;
        server_proof = server_proof_bytes a m1 key;
      }

  unfoldable pub new_server_session : Text → List ℕ → List ℕ → List ℕ → ℕ → Option ServerSession
  unfolding server_session server_public_value
  new_server_session username salt verifier client_public b =
      let a = bytes_to_big_int client_public in
      let v = bytes_to_big_int verifier in
      let b_public = server_public_value v b in
      if a % modulus == 0
      then none
      else if scramble a b_public == 0
      then none
      else some (server_session username salt a v b b_public)

-- What `exchange` does with the server's proof: `false` is the error.
unfoldable pub accepts_server_proof : Text → Text → Bool
accepts_server_proof expected given =
    not (truthy expected && (truthy given && not (text_eq expected given)))
