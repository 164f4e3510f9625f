-- ===== src/Base/Modular.antt =====
-- Powers, and arithmetic modulo a number.
use Prim.Native.Nat.{ℕ, zero, suc, one, ◌+◌, ◌-◌, ◌*◌, ◌/◌, ◌%◌, ◌^◌, ◌≤◌}
use mathlib.Core.Path.{◌≡◌, ap, sym, ◌∙◌}
use native.Mathlib.Omega.{arith}
use native.Mathlib.Nat.{
  zero-add, suc-add, mul-zero, mul-suc, pow-zero, pow-suc, mul_comm, mul_assoc, add-mul,
  mod-add-div, add-mul-mod_self_left, add-mod-mod, mul_right_comm, mul-mul-mul_comm, one-mul,
  mul-one,
}

pub pow_add : (a n k : ℕ) → a ^ (n + k) ≡ a ^ n * a ^ k
pow_add a zero k =
    ap (λ z. a ^ z) (zero-add k) ∙ sym (one-mul (a ^ k)) ∙ ap (λ z. z * a ^ k) (sym (pow-zero a))
pow_add a (suc n) k =
    ap (λ z. a ^ z) (suc-add n k)
    ∙ pow-suc a (n + k)
    ∙ ap (λ z. z * a) (pow_add a n k)
    ∙ mul_right_comm (a ^ n) (a ^ k) a
    ∙ ap (λ z. z * a ^ k) (sym (pow-suc a n))

pub one_pow : (n : ℕ) → one ^ n ≡ one
one_pow zero = pow-zero one
one_pow (suc n) = pow-suc one n ∙ mul-one (one ^ n) ∙ one_pow n

pub mul_pow : (a b n : ℕ) → (a * b) ^ n ≡ a ^ n * b ^ n
mul_pow a b zero =
    pow-zero (a * b)
    ∙ sym (one-mul one)
    ∙ ap (λ z. z * one) (sym (pow-zero a))
    ∙ ap (λ z. a ^ 0 * z) (sym (pow-zero b))
mul_pow a b (suc n) =
    pow-suc (a * b) n
    ∙ ap (λ z. z * (a * b)) (mul_pow a b n)
    ∙ mul-mul-mul_comm (a ^ n) (b ^ n) a b
    ∙ ap (λ z. z * (b ^ n * b)) (sym (pow-suc a n))
    ∙ ap (λ z. a ^ suc n * z) (sym (pow-suc b n))

pub pow_mul : (a n k : ℕ) → a ^ (n * k) ≡ (a ^ n) ^ k
pow_mul a n zero = ap (λ z. a ^ z) (mul-zero n) ∙ pow-zero a ∙ sym (pow-zero (a ^ n))
pow_mul a n (suc k) =
    ap (λ z. a ^ z) (mul-suc n k)
    ∙ pow_add a (n * k) n
    ∙ ap (λ z. z * a ^ n) (pow_mul a n k)
    ∙ sym (pow-suc (a ^ n) k)

pub mul-mod_left : (a b m : ℕ) → (a % m * b) % m ≡ (a * b) % m
mul-mod_left a b m =
    let split : a * b ≡ a % m * b + m * (a / m * b) =
      ap (λ z. z * b) (sym (mod-add-div a m))
      ∙ add-mul (a % m) (m * (a / m)) b
      ∙ ap (λ z. a % m * b + z) (mul_assoc m (a / m) b) in
    sym (ap (λ z. z % m) split ∙ add-mul-mod_self_left (a % m * b) m (a / m * b))

pub mul-mod_right : (a b m : ℕ) → (a * (b % m)) % m ≡ (a * b) % m
mul-mod_right a b m =
    ap (λ z. z % m) (mul_comm a (b % m)) ∙ mul-mod_left b a m ∙ ap (λ z. z % m) (mul_comm b a)

pub pow-mod : (a n m : ℕ) → ((a % m) ^ n) % m ≡ (a ^ n) % m
pow-mod a zero m = ap (λ z. z % m) (pow-zero (a % m) ∙ sym (pow-zero a))
pow-mod a (suc n) m =
    ap (λ z. z % m) (pow-suc (a % m) n)
    ∙ mul-mod_right ((a % m) ^ n) a m
    ∙ sym (mul-mod_left ((a % m) ^ n) a m)
    ∙ ap (λ z. (z * a) % m) (pow-mod a n m)
    ∙ mul-mod_left (a ^ n) a m
    ∙ ap (λ z. z % m) (sym (pow-suc a n))

-- What is added on both sides is cancelled.
pub add-mod_cancel : (c a b m : ℕ) → 1 ≤ m → (c + a) % m ≡ (c + b) % m → a % m ≡ b % m
add-mod_cancel c a b m p h =
    let d = c * (m - 1) in
    let whole : d + c ≡ m * c =
      sym (mul-suc c (m - 1)) ∙ ap (λ z. c * z) (omega (arith, p)) ∙ mul_comm c m in
    let back : (x : ℕ) → (d + (c + x) % m) % m ≡ x % m = λ x.
      add-mod-mod d (c + x) m
      ∙ ap (λ z. z % m) (omega (arith, whole))
      ∙ add-mul-mod_self_left x m c in
    sym (back a) ∙ ap (λ z. (d + z) % m) h ∙ back b
