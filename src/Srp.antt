-- ===== src/Srp.antt =====
-- static/auth/srp.js: the arithmetic of SRP-6a and the client's side of the exchange. The digest and
-- the random bytes are arguments. The other side is internal/pake/srp.go.
pub mod Power
pub mod Bytes
pub mod Session
pub mod Secret
pub mod Agreement
mod Tests
use elvish_email.Base.{
  ℕ, zero, suc, ◌+◌, ◌-◌, ◌*◌, ◌/◌, ◌%◌, true, false, List, [], ◌∷◌, ◌++◌, if◌then◌else◌, ltb, ◌==◌,
  length,
}

-- `N_HEX` as a number.
abbrev pub modulus : ℕ
modulus =
    9148422562700905083768046954690482603067582142991759457171636411002091813366370961898375127142991971262253780535453188044635943567666168552864171445213874506637057053180949070112664331661462750735371623594938971504594043338668600465015613179541460841768440261692632431557035344406739124828814866551043117515434527522546024932442111

abbrev pub generator : ℕ
generator = 2

abbrev pub pad_len : ℕ
pad_len = 138

-- `bytesToBigInt`, with the number so far.
unfoldable pub bytes_to_number : ℕ → List ℕ → ℕ
bytes_to_number acc [] = acc
bytes_to_number acc (b ∷ bs) = bytes_to_number (acc * 256 + b) bs

unfoldable pub bytes_to_big_int : List ℕ → ℕ
unfolding bytes_to_number
bytes_to_big_int bytes = bytes_to_number 0 bytes

-- The bytes of a number, the highest first; 0 has one.
unfoldable pub number_bytes : ℕ → ℕ → List ℕ
number_bytes zero n = n ∷ []
number_bytes (suc fuel) n = elim (ltb n 256) [
  | true ↦ n ∷ []
  | false ↦ number_bytes fuel (n / 256) ++ n % 256 ∷ []
]

unfoldable pub zeros : ℕ → List ℕ
zeros zero = []
zeros (suc n) = 0 ∷ zeros n

-- `bigIntToBytes`; a pad length of 0 stands for none.
unfoldable pub big_int_to_bytes : ℕ → ℕ → List ℕ
unfolding number_bytes zeros
big_int_to_bytes n pad = let raw = number_bytes n n in zeros (pad - length raw) ++ raw

-- The loop of `modPow`.
unfoldable pub pow_loop : ℕ → ℕ → ℕ → ℕ → ℕ → ℕ
pow_loop zero m result b e = result
pow_loop (suc fuel) m result b e = elim (e == 0) [
  | true ↦ result
  | false ↦ pow_loop fuel m (if e % 2 == 1 then (result * b) % m else result) ((b * b) % m) (e / 2)
]

-- `modPow` of a base that is not negative, with as much fuel as the exponent.
unfoldable pub mod_pow : ℕ → ℕ → ℕ → ℕ
unfolding pow_loop
mod_pow base e m = pow_loop e m 1 (base % m) e
