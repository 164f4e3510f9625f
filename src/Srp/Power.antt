-- ===== src/Srp/Power.antt =====
-- The loop of `modPow` of static/auth/srp.js computes powers.
use native.Mathlib.Nat.{
  mod-eq_of_lt, mod-lt, pow-zero, pow-suc, mul-one, mul_assoc, mul_comm, one-mul,
}
use elvish_email.Base.{
  ℕ, zero, suc, ◌+◌, ◌*◌, ◌/◌, ◌%◌, ◌^◌, ◌≤◌, ◌<◌, ◌≡◌, ap, sym, ◌∙◌, ◌==◌, arith, Bool-cases, inl,
  inr,
}
use elvish_email.Base.Modular.{pow_add, mul_pow, mul-mod_left, mul-mod_right, pow-mod}
use elvish_email.Srp.{pow_loop, mod_pow}

done_lem : (result b e m : ℕ) → result < m → e ≡ 0 → result ≡ (result * b ^ e) % m
done_lem result b e m r h = sym (
    ap (λ z. (result * b ^ z) % m) h
    ∙ ap (λ z. (result * z) % m) (pow-zero b)
    ∙ ap (λ z. z % m) (mul-one result)
    ∙ mod-eq_of_lt r)

square_lem : (b h : ℕ) → (b * b) ^ h ≡ b ^ (h + h)
square_lem b h = mul_pow b b h ∙ sym (pow_add b h h)

-- The reduced square may be replaced by the square.
reduced_lem : (r b h m : ℕ) → (r * ((b * b) % m) ^ h) % m ≡ (r * b ^ (h + h)) % m
reduced_lem r b h m =
    sym (mul-mod_right r (((b * b) % m) ^ h) m)
    ∙ ap (λ z. (r * z) % m) (pow-mod (b * b) h m)
    ∙ mul-mod_right r ((b * b) ^ h) m
    ∙ ap (λ z. (r * z) % m) (square_lem b h)

odd_lem : (r b h m : ℕ) → ((r * b) % m * b ^ (h + h)) % m ≡ (r * b ^ (suc (h + h))) % m
odd_lem r b h m =
    mul-mod_left (r * b) (b ^ (h + h)) m
    ∙ ap (λ z. z % m)
        (mul_assoc r b (b ^ (h + h))
          ∙ ap (λ z. r * z) (mul_comm b (b ^ (h + h)) ∙ sym (pow-suc b (h + h))))

pow_loop_lem :
    (fuel m result b e : ℕ)
    → e ≤ fuel
    → result < m
    → pow_loop fuel m result b e ≡ (result * b ^ e) % m
unfolding pow_loop
pow_loop_lem zero m result b e f r = done_lem result b e m r (omega (arith, f))
pow_loop_lem (suc fuel) m result b e f r = elim (Bool-cases (e == 0)) [
  | inl h ↦ rw (pow_loop, h) (done_lem result b e m r (ground (arith, h)))
  | inr h ↦
      let some_bit : 1 ≤ e = ground (arith, h) in
      let half : e / 2 ≤ fuel = omega (arith, f, some_bit) in
      elim (Bool-cases (e % 2 == 1)) [
        | inl odd ↦
            let whole : suc (e / 2 + e / 2) ≡ e = ground (arith, odd) in
            rw (pow_loop, h, odd)
              (pow_loop_lem fuel m ((result * b) % m) ((b * b) % m) (e / 2) half
                  (mod-lt (result * b) (omega (arith, r)))
                ∙ reduced_lem ((result * b) % m) b (e / 2) m
                ∙ odd_lem result b (e / 2) m
                ∙ ap (λ z. (result * b ^ z) % m) whole)
        | inr even ↦
            let whole : e / 2 + e / 2 ≡ e = ground (arith, even) in
            rw (pow_loop, h, even)
              (pow_loop_lem fuel m result ((b * b) % m) (e / 2) half r
                ∙ reduced_lem result b (e / 2) m
                ∙ ap (λ z. (result * b ^ z) % m) whole)
      ]
]

-- modPow gives the power of a base that is not negative, reduced by the modulus, for every exponent
-- and every modulus above 1.
pub mod_pow_lem : (base e m : ℕ) → 1 < m → mod_pow base e m ≡ (base ^ e) % m
unfolding mod_pow
mod_pow_lem base e m h =
    pow_loop_lem e m 1 (base % m) e (omega arith) h
    ∙ ap (λ z. z % m) (one-mul ((base % m) ^ e))
    ∙ pow-mod base e m
