-- ===== src/Srp/Bytes.antt =====
-- Numbers that are written as bytes and read again.
use elvish_email.Base.{
  ℕ, zero, suc, ◌+◌, ◌-◌, ◌*◌, ◌/◌, ◌%◌, ◌≤◌, ◌≡◌, refl, ap, ◌∙◌, List, [], ◌∷◌, ◌++◌, ltb, length,
  arith, Bool-cases, inl, inr,
}
use elvish_email.Srp.{bytes_to_number, bytes_to_big_int, number_bytes, zeros, big_int_to_bytes}

bytes_to_number-last :
    (acc b : ℕ) (bs : List ℕ)
    → bytes_to_number acc (bs ++ b ∷ []) ≡ bytes_to_number acc bs * 256 + b
unfolding bytes_to_number
bytes_to_number-last acc b [] = refl
bytes_to_number-last acc b (c ∷ bs) = bytes_to_number-last (acc * 256 + c) b bs

bytes_to_number-zeros :
    (n : ℕ) (bs : List ℕ) → bytes_to_number 0 (zeros n ++ bs) ≡ bytes_to_number 0 bs
unfolding bytes_to_number zeros
bytes_to_number-zeros zero bs = refl
bytes_to_number-zeros (suc n) bs = bytes_to_number-zeros n bs

bytes_to_number-bytes : (fuel n : ℕ) → n ≤ fuel → bytes_to_number 0 (number_bytes fuel n) ≡ n
unfolding bytes_to_number number_bytes
bytes_to_number-bytes zero n h = omega arith
bytes_to_number-bytes (suc fuel) n h = elim (Bool-cases (ltb n 256)) [
  | inl small ↦ rw (number_bytes, small) (omega arith)
  | inr large ↦
      let big : 256 ≤ n = ground (arith, large) in
      rw (number_bytes, large)
        (bytes_to_number-last 0 (n % 256) (number_bytes fuel (n / 256))
          ∙ ap (λ z. z * 256 + n % 256)
              (bytes_to_number-bytes fuel (n / 256) (omega (arith, h, big)))
          ∙ omega arith)
]

-- A number that is written, with or without a pad length, is read again.
pub big_int-bytes : (n pad : ℕ) → bytes_to_big_int (big_int_to_bytes n pad) ≡ n
unfolding bytes_to_big_int big_int_to_bytes
big_int-bytes n pad =
    bytes_to_number-zeros (pad - length (number_bytes n n)) (number_bytes n n)
    ∙ bytes_to_number-bytes n n (omega arith)
