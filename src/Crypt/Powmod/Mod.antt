-- ===== src/Crypt/Powmod/Mod.antt =====
-- Products and powers modulo a number.
use native.Mathlib.Nat.{
  mul-add, mod-mod, add-mod, pow-zero, pow-suc, mul-suc, add-zero, add-suc, mul-one, mul-zero,
  add-mul-mod_self_left, mod-add-div, add-mul, mul_assoc, mul_comm,
}
use ue4_background.Prelude.{ℕ, zero, suc, ◌+◌, ◌*◌, ◌/◌, ◌%◌, ◌^◌, ◌≡◌, refl, sym, ap, ap₂, ◌∙◌}

pub mul_mod_left : (p a b : ℕ) → a % p * b % p ≡ a * b % p
mul_mod_left p a b =
    let e : a * b ≡ a % p * b + p * (a / p * b) =
      ap (λ x. x * b) (sym (mod-add-div a p))
      ∙ add-mul (a % p) (p * (a / p)) b
      ∙ ap (λ x. a % p * b + x) (mul_assoc p (a / p) b) in
    sym (ap (λ x. x % p) e ∙ add-mul-mod_self_left (a % p * b) p (a / p * b))

pub mul_mod_right : (p a b : ℕ) → a * (b % p) % p ≡ a * b % p
mul_mod_right p a b =
    ap (λ x. x % p) (mul_comm a (b % p)) ∙ mul_mod_left p b a ∙ ap (λ x. x % p) (mul_comm b a)

pub mul_mod_both : (p a b : ℕ) → a % p * (b % p) % p ≡ a * b % p
mul_mod_both p a b = mul_mod_left p a (b % p) ∙ mul_mod_right p a b

pub pow_mod : (p a k : ℕ) → (a % p) ^ k % p ≡ a ^ k % p
pow_mod p a zero = rw (pow-zero (a % p), pow-zero a) refl
pow_mod p a (suc k) =
    rw (pow-suc a k, pow-suc (a % p) k)
      (sym (mul_mod_left p ((a % p) ^ k) (a % p))
        ∙ ap (λ x. x * (a % p) % p) (pow_mod p a k)
        ∙ mul_mod_both p (a ^ k) a)

pub pow_plus : (a j k : ℕ) → a ^ (j + k) ≡ a ^ j * a ^ k
pow_plus a j zero = rw (pow-zero a, mul-one (a ^ j)) (ap (λ x. a ^ x) (add-zero j))
pow_plus a j (suc k) =
    rw (pow-suc a k, add-suc j k, pow-suc a (j + k))
      (ap (λ x. x * a) (pow_plus a j k) ∙ mul_assoc (a ^ j) (a ^ k) a)

pub pow_times : (a j k : ℕ) → a ^ (j * k) ≡ (a ^ j) ^ k
pow_times a j zero = rw (mul-zero j, pow-zero a, pow-zero (a ^ j)) refl
pow_times a j (suc k) =
    rw (pow-suc (a ^ j) k, mul-suc j k)
      (pow_plus a (j * k) j ∙ ap (λ x. x * a ^ j) (pow_times a j k))

-- The two ways to the power of a power are one.
pub pow_swap : (p a j k : ℕ) → (a ^ j % p) ^ k % p ≡ (a ^ k % p) ^ j % p
pow_swap p a j k =
    pow_mod p (a ^ j) k
    ∙ ap (λ x. x % p) (sym (pow_times a j k) ∙ ap (λ x. a ^ x) (mul_comm j k) ∙ pow_times a k j)
    ∙ sym (pow_mod p (a ^ k) j)

-- A sum with a product of remainders.
pub add_mul_mod : (p m a k : ℕ) → (m % p + a % p * k) % p ≡ (m + a * k) % p
add_mul_mod p m a k =
    add-mod (m % p) (a % p * k) p
    ∙ ap₂ (λ x y. (x + y) % p) (mod-mod m p) (mul_mod_left p a k)
    ∙ sym (add-mod m (a * k) p)

pub halves : (a b : ℕ) → b % 2 * a + 2 * a * (b / 2) ≡ a * b
halves a b =
    ap₂ (λ x y. x + y) (mul_comm (b % 2) a)
      (ap (λ x. x * (b / 2)) (mul_comm 2 a) ∙ mul_assoc a 2 (b / 2))
    ∙ sym (mul-add a (b % 2) (2 * (b / 2)))
    ∙ ap (λ x. a * x) (mod-add-div b 2)
