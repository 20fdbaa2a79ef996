-- ===== src/Crypt/Powmod/Power.antt =====
-- lualib-src/lua-crypt.c: `powmodp` raises to a power.
use native.Mathlib.Nat.{one-mul, mod-eq_of_lt, pow-zero, pow-suc}
use ue4_background.Crypt.Powmod.Mod.{pow_plus, mul_mod_both, mul_mod_left, pow_mod}
use ue4_background.Crypt.Powmod.Multiply.{mul_mod_p_lem}
use ue4_background.Crypt.Powmod.{mul_mod_p, u64, pow_mod_p, powmodp, prime}
use ue4_background.Prelude.{
  ℕ, zero, suc, ◌+◌, ◌*◌, ◌/◌, ◌%◌, ◌^◌, ◌<◌, ◌≡◌, refl, sym, ap, ◌∙◌, ◌≢◌, inl, inr, some, arith,
  ltb, ◌==◌, if◌then◌else◌, Bool-cases, ◌>>=◌,
}

-- The square of a power, and the square times the base.
square : (a k t : ℕ) → t ≡ a ^ k % prime → t * t % prime ≡ a ^ (2 * k) % prime
square a k t f =
    ap (λ x. x * x % prime) f
    ∙ mul_mod_both prime (a ^ k) (a ^ k)
    ∙ ap (λ x. x % prime) (sym (pow_plus a k k) ∙ ap (λ x. a ^ x) (omega arith))

square_times : (a k u : ℕ) → u ≡ a ^ (2 * k) % prime → u * a % prime ≡ a ^ (2 * k + 1) % prime
square_times a k u f =
    let s : 2 * k + 1 ≡ suc (2 * k) = omega arith in
    ap (λ x. x * a % prime) f
    ∙ mul_mod_left prime (a ^ (2 * k)) a
    ∙ ap (λ x. x % prime) (sym (pow-suc a (2 * k)) ∙ ap (λ x. a ^ x) (sym s))

-- A call, from the result of the call on half the exponent.
pow_step :
    (a b : ℕ)
    → a < prime
    → (mul_mod_p (a ^ (b / 2) % prime) (a ^ (b / 2) % prime) >>= λ t.
        if b % 2 == 0 then some t else mul_mod_p t a)
      ≡ some (a ^ b % prime)
pow_step a b v =
    let k = b / 2 in
    let s = a ^ k % prime in
    let l : s < prime = omega arith in
    let t = a ^ (2 * k) % prime in
    let e : mul_mod_p s s ≡ some t =
      mul_mod_p_lem s s l (omega arith) ∙ ap some (square a k s refl) in
    let f : mul_mod_p t a ≡ some (a ^ (2 * k + 1) % prime) =
      mul_mod_p_lem t a (omega arith) (omega arith) ∙ ap some (square_times a k t refl) in
    rw e (elim (Bool-cases (b % 2 == 0)) [
      | inl z ↦ rw z (ap (λ x. some (a ^ x % prime)) (ground arith))
      | inr z ↦ rw z (f ∙ ap (λ x. some (a ^ x % prime)) (ground arith))
    ])

one_power : (a b : ℕ) → a < prime → b ≡ 1 → a ≡ a ^ b % prime
one_power a b v z = sym (
    ap (λ x. a ^ x % prime) z
    ∙ ap (λ x. x % prime) (pow-suc a 0 ∙ ap (λ x. x * a) (pow-zero a) ∙ one-mul a)
    ∙ mod-eq_of_lt v)

pow_mod_p_lem :
    (fuel a b : ℕ) → a < prime → 0 < b → b < 2 ^ fuel → pow_mod_p fuel a b ≡ some (a ^ b % prime)
unfolding pow_mod_p
pow_mod_p_lem zero a b v w l = absurd (omega (arith, l, pow-zero 2))
pow_mod_p_lem (suc fuel) a b v w l = elim (Bool-cases (b == 1)) [
  | inl z ↦ rw z (ap some (one_power a b v (ground arith)))
  | inr z ↦
      let p : 0 < b / 2 = ground arith in
      let h : b / 2 < 2 ^ fuel = omega (arith, l, pow-suc 2 fuel) in
      rw (z, pow_mod_p_lem fuel a (b / 2) v p h) (pow_step a b v)
]

-- For `b` not zero and words other than the prime itself, `powmodp` ends and has the power modulo the
-- prime.
pub powmodp_lem :
    (a b : ℕ) → a < u64 → a ≢ prime → 0 < b → b < u64 → powmodp a b ≡ some (a ^ b % prime)
unfolding powmodp
powmodp_lem a b l n w v =
    let base = if ltb prime a then a % prime else a in
    let e : base ≡ a % prime = ground arith in
    pow_mod_p_lem 64 base b (omega (arith, e)) w v
    ∙ ap (λ x. some (x ^ b % prime)) e
    ∙ ap some (pow_mod prime a b)
