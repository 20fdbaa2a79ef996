-- ===== src/Crypt/Powmod/Multiply.antt =====
-- lualib-src/lua-crypt.c: `mul_mod_p` multiplies.
use ue4_background.Crypt.Powmod.Mod.{halves, add_mul_mod}
use native.Mathlib.Nat.{
  one-mul, add_assoc, mul-zero, add-zero, mod-eq_of_lt, pow-zero, pow-suc, zero-add,
}
use ue4_background.Crypt.Powmod.{u64, mul_loop, mul_mod_p, prime, add_mod_p, twice_mod_p}
use ue4_background.Prelude.{
  ℕ, zero, suc, ◌+◌, ◌*◌, ◌/◌, ◌%◌, ◌^◌, ◌<◌, ◌≡◌, sym, ap, ◌∙◌, inl, inr, true, some, arith, ◌==◌,
  if◌then◌else◌, Bool-cases,
}

add_mod_p_lem : (m a : ℕ) → m < prime → a < prime → add_mod_p m a ≡ (m + a) % prime
unfolding add_mod_p
add_mod_p_lem m a v w = ground arith

twice_mod_p_lem : (a : ℕ) → a < prime → twice_mod_p a ≡ 2 * a % prime
unfolding twice_mod_p
twice_mod_p_lem a w = ground arith

round_term :
    (m a r : ℕ)
    → m < prime
    → a < prime
    → r < 2
    → (if r == 1 then add_mod_p m a else m) ≡ (m + r * a) % prime
round_term m a zero v w l = ground arith
round_term m a (suc zero) v w l =
    add_mod_p_lem m a v w ∙ ap (λ x. (m + x) % prime) (sym (one-mul a))
round_term m a (suc (suc r)) v w l = absurd (omega arith)

-- One round keeps the sum modulo the prime.
round_keeps :
    (m a b : ℕ)
    → m < prime
    → a < prime
    → ((if b % 2 == 1 then add_mod_p m a else m) + twice_mod_p a * (b / 2)) % prime
      ≡ (m + a * b) % prime
round_keeps m a b v w =
    let q = b / 2 in
    let n = if b % 2 == 1 then add_mod_p m a else m in
    let e : n ≡ (m + b % 2 * a) % prime = round_term m a (b % 2) v w (omega arith) in
    let f : m + b % 2 * a + 2 * a * q ≡ m + a * b =
      add_assoc m (b % 2 * a) (2 * a * q) ∙ ap (λ x. m + x) (halves a b) in
    rw (twice_mod_p_lem a w) (
      ap (λ x. (x + 2 * a % prime * q) % prime) e
      ∙ add_mul_mod prime (m + b % 2 * a) (2 * a) q
      ∙ ap (λ x. x % prime) f)

round_bound :
    (m a b : ℕ) → m < prime → a < prime → (if b % 2 == 1 then add_mod_p m a else m) < prime
round_bound m a b v w = ground (arith, add_mod_p_lem m a v w)

nothing_left : (a b m : ℕ) → m < prime → b ≡ 0 → m ≡ (m + a * b) % prime
nothing_left a b m w z =
    let e : m + a * b ≡ m = ap (λ x. m + a * x) z ∙ ap (λ x. m + x) (mul-zero a) ∙ add-zero m in
    sym (ap (λ x. x % prime) e ∙ mod-eq_of_lt w)

mul_loop_lem :
    (fuel a b m : ℕ)
    → a < prime
    → m < prime
    → b < 2 ^ fuel
    → mul_loop fuel a b m ≡ some ((m + a * b) % prime)
unfolding mul_loop
mul_loop_lem zero a b m v w l =
    let z : b ≡ 0 = omega (arith, l, pow-zero 2) in
    let t : (b == 0) ≡ true = ground arith in rw t (ap some (nothing_left a b m w z))
mul_loop_lem (suc fuel) a b m v w l =
    let n = if b % 2 == 1 then add_mod_p m a else m in
    let h : b / 2 < 2 ^ fuel = omega (arith, l, pow-suc 2 fuel) in
    let t : twice_mod_p a < prime = rw (twice_mod_p_lem a v) (omega arith) in
    let rest = mul_loop_lem fuel (twice_mod_p a) (b / 2) n t (round_bound m a b w v) h in
    elim (Bool-cases (b == 0)) [
      | inl z ↦ rw z (ap some (nothing_left a b m w (ground arith)))
      | inr z ↦ rw z (rest ∙ ap some (round_keeps m a b w v))
    ]

-- The product of two words below the prime, modulo it; the loop ends.
pub mul_mod_p_lem : (a b : ℕ) → a < prime → b < u64 → mul_mod_p a b ≡ some (a * b % prime)
unfolding mul_mod_p
mul_mod_p_lem a b v w =
    mul_loop_lem 64 a b 0 v (omega arith) w ∙ ap (λ x. some (x % prime)) (zero-add (a * b))
