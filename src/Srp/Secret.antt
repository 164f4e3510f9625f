-- ===== src/Srp/Secret.antt =====
-- The number on which both sides agree, for any modulus and generator.
use native.Mathlib.Nat.{
  mod-mod, mod-add-div, mod-lt, add-mod-mod, add-mul-mod_self_left, mul_comm, mul-suc,
}
use elvish_email.Base.{
  ℕ, suc, ◌+◌, ◌-◌, ◌*◌, ◌/◌, ◌%◌, ◌^◌, ◌≤◌, ◌<◌, ◌≡◌, ap, sym, ◌∙◌, leb, ◌==◌, arith, Bool-cases,
  inl, inr,
}
use elvish_email.Base.Modular.{
  pow_add, pow_mul, mul-mod_left, mul-mod_right, pow-mod, add-mod_cancel,
}
use elvish_email.Srp.{mod_pow}
use elvish_email.Srp.Power.{mod_pow_lem}
use elvish_email.Srp.Session.{base_of}

-- The difference is taken modulo `m`, whichever of the numbers is the greater.
base_of_lem : (b kgx m : ℕ) → 1 < m → (kgx + base_of b kgx m) % m ≡ b % m
unfolding base_of
base_of_lem b kgx m h = elim (Bool-cases (leb kgx b)) [
  | inl above ↦
      let enough : kgx ≤ b = ground (arith, above) in
      rw above (add-mod-mod kgx (b - kgx) m ∙ ap (λ z. z % m) (omega (arith, enough)))
  | inr below ↦
      let less : b < kgx = ground (arith, below) in
      let r = (kgx - b) % m in
      let q = (kgx - b) / m in
      let whole : r + m * q ≡ kgx - b = mod-add-div (kgx - b) m in
      let small : r < m = mod-lt (kgx - b) (omega (arith, h)) in
      rw below (elim (Bool-cases ((kgx - b) % m == 0)) [
        | inl none ↦
            let no_rest : r ≡ 0 = ground (arith, none) in
            rw none
              (ap (λ z. z % m) (omega (arith, whole, less, no_rest)) ∙ add-mul-mod_self_left b m q)
        | inr some ↦
            let next : m * suc q ≡ m * q + m = mul-suc m q in
            rw some (
              ap (λ z. z % m) (omega (arith, whole, less, small, next))
              ∙ add-mul-mod_self_left b m (suc q))
      ])
]

module _ (m g k x a b u : ℕ) (h : 1 < m) where
  verifier : ℕ
  verifier = (g ^ x) % m

  server_value : ℕ
  server_value = (k * ((g ^ x) % m) + (g ^ b) % m) % m

  -- Without the verifier's part, the server's value is the power of its exponent.
  base-power :
      base_of ((k * ((g ^ x) % m) + (g ^ b) % m) % m) (k * ((g ^ x) % m)) m % m ≡ (g ^ b) % m
  base-power =
      let kv = k * ((g ^ x) % m) in
      let value = (kv + (g ^ b) % m) % m in
      add-mod_cancel kv (base_of value kv m) (g ^ b) m (omega (arith, h))
        (base_of_lem value kv m h ∙ mod-mod (kv + (g ^ b) % m) m ∙ add-mod-mod kv (g ^ b) m)

  client_power :
      (base : ℕ) → base % m ≡ (g ^ b) % m → (base ^ (a + u * x)) % m ≡ (g ^ (b * (a + u * x))) % m
  client_power base e =
      sym (pow-mod base (a + u * x) m)
      ∙ ap (λ z. (z ^ (a + u * x)) % m) e
      ∙ pow-mod (g ^ b) (a + u * x) m
      ∙ ap (λ z. z % m) (sym (pow_mul g b (a + u * x)))

  server_base : ((g ^ a) % m * ((((g ^ x) % m) ^ u) % m)) % m ≡ (g ^ (a + u * x)) % m
  server_base =
      mul-mod_left (g ^ a) ((((g ^ x) % m) ^ u) % m) m
      ∙ ap (λ z. (g ^ a * z) % m) (pow-mod (g ^ x) u m)
      ∙ mul-mod_right (g ^ a) ((g ^ x) ^ u) m
      ∙ ap (λ z. (g ^ a * z) % m) (sym (pow_mul g x u) ∙ ap (λ z. g ^ z) (mul_comm x u))
      ∙ ap (λ z. z % m) (sym (pow_add g a (u * x)))

  server_power : (((g ^ a) % m * ((((g ^ x) % m) ^ u) % m)) ^ b) % m ≡ (g ^ (b * (a + u * x))) % m
  server_power =
      sym (pow-mod ((g ^ a) % m * ((((g ^ x) % m) ^ u) % m)) b m)
      ∙ ap (λ z. (z ^ b) % m) server_base
      ∙ pow-mod (g ^ (a + u * x)) b m
      ∙ ap (λ z. z % m) (sym (pow_mul g (a + u * x) b) ∙ ap (λ z. g ^ z) (mul_comm (a + u * x) b))

  pub secrets_equal :
      mod_pow (base_of ((k * ((g ^ x) % m) + (g ^ b) % m) % m) (k * ((g ^ x) % m)) m) (a + u * x) m
      ≡ mod_pow ((g ^ a) % m * mod_pow ((g ^ x) % m) u m) b m % m
  secrets_equal =
      let base = base_of ((k * ((g ^ x) % m) + (g ^ b) % m) % m) (k * ((g ^ x) % m)) m in
      mod_pow_lem base (a + u * x) m h
      ∙ client_power base base-power
      ∙ sym server_power
      ∙ sym (
          ap (λ z. mod_pow ((g ^ a) % m * z) b m % m) (mod_pow_lem ((g ^ x) % m) u m h)
          ∙ ap (λ z. z % m) (mod_pow_lem ((g ^ a) % m * ((((g ^ x) % m) ^ u) % m)) b m h)
          ∙ mod-mod (((g ^ a) % m * ((((g ^ x) % m) ^ u) % m)) ^ b) m)
