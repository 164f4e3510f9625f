-- ===== src/Srp/Tests.antt =====
-- Witnesses for static/auth/srp.js, with a digest that depends on the length alone.
use elvish_email.Base.{ℕ, ◌+◌, ◌%◌, ◌^◌, ◌≡◌, refl, some, List, [], ◌∷◌, length, arith}
use elvish_email.Base.Text.{lit}
use elvish_email.Srp.{modulus, mod_pow, bytes_to_big_int}
use elvish_email.Srp.Power.{mod_pow_lem}
use elvish_email.Srp.Session.{
  Digest, ServerSession, padded, create_registration, begin, client_proof, server_session,
  server_public_value, new_server_session, scramble, multiplier, compute_x,
}
use elvish_email.Srp.Agreement.{Agrees, exchange-Agrees, public_value-leaks}

abbrev short : Digest
short = record { sha256 = λ bytes. (length bytes % 5 + 1) ∷ []; utf8 = λ t. t }

abbrev salt : List ℕ
salt = 1 ∷ 2 ∷ 3 ∷ []

abbrev opened : ServerSession
opened =
    server_session short (lit "me") salt
      (bytes_to_big_int (padded (begin short (lit "me") (lit "pw") (7 ∷ [])).public_value))
      (bytes_to_big_int (create_registration short (lit "me") (lit "pw") salt).verifier) 3
      (server_public_value short
        (bytes_to_big_int (create_registration short (lit "me") (lit "pw") salt).verifier) 3)

opens :
    new_server_session short
      (lit "me")
      salt
      (create_registration short (lit "me") (lit "pw") salt).verifier
      (padded (begin short (lit "me") (lit "pw") (7 ∷ [])).public_value)
      3
    ≡ some opened
unfolding new_server_session lit bytes_to_big_int padded begin mod_pow scramble multiplier
    create_registration compute_x
opens = refl

exchange-Agrees_example :
    Agrees short
      (client_proof short (begin short (lit "me") (lit "pw") (7 ∷ [])) salt opened.server_public)
      opened
exchange-Agrees_example = exchange-Agrees short (lit "me") (lit "pw") salt (7 ∷ []) 3 opened opens

public_value-leaks_example :
    (begin short (lit "me") (lit "pw") (7 ∷ [])).public_value % 13
    ≡ (2 ^ bytes_to_big_int (7 ∷ [])) % 13
public_value-leaks_example = public_value-leaks short (lit "me") (lit "pw") (7 ∷ [])

mod_pow_lem_example : mod_pow 2 10 modulus ≡ (2 ^ 10) % modulus
mod_pow_lem_example = mod_pow_lem 2 10 modulus (omega arith)
