-- ===== src/Crypt/Powmod/Agreement.antt =====
-- lualib-src/lua-crypt.c: the two sides of an exchange have one secret.
use ue4_background.Crypt.Powmod.Mod.{pow_swap, mul_mod_left}
use ue4_background.Crypt.Powmod.Power.{powmodp_lem}
use ue4_background.Crypt.{ok, AllBytes}
use ue4_background.Crypt.Powmod.{
  ldhexchange, ldhsecret, push_power, prime, u64, generator, push64, word_of,
}
use native.Mathlib.Nat.{mod-lt, pow-suc, pow-zero}
use ue4_background.Prelude.{
  ℕ, zero, suc, ◌*◌, ◌/◌, ◌%◌, ◌^◌, ◌<◌, ◌≡◌, refl, sym, ap, subst, ◌∙◌, ◌≢◌, true, false, some,
  List, [], ◌∷◌, arith, ◌==◌, length,
}

-- A key of eight bytes that are not all zero.
pub record IsKey (x : List ℕ) : Type 0 where
  pub bytes : AllBytes x
  pub size : length x ≡ 8
  pub nonzero : 0 < word_of x

word_of-lt : (x : List ℕ) → AllBytes x → word_of x < 256 ^ length x
unfolding word_of
word_of-lt [] v = omega (arith, pow-zero 256)
word_of-lt (b ∷ bs) v = omega (arith, v.0, word_of-lt bs v.1, pow-suc 256 (length bs))

word_of-push64 : (r : ℕ) → r < u64 → word_of (push64 r) ≡ r
unfolding word_of push64
word_of-push64 r l = omega arith

power_nonzero : (k : ℕ) → 0 < generator ^ k % prime
power_nonzero zero = omega arith
power_nonzero (suc k) =
    let e : generator ^ suc k % prime ≡ generator ^ k % prime * 5 % prime =
      ap (λ x. x % prime) (pow-suc generator k)
      ∙ sym (mul_mod_left prime (generator ^ k) generator) in
    omega (arith, e, power_nonzero k)

IsKey-push64 : (r : ℕ) → r < u64 → 0 < r → IsKey (push64 r)
unfolding push64
IsKey-push64 r l p =
    let byte = λ (n : ℕ). mod-lt n {m = 256} (omega arith) in
    record {
      bytes = (
        byte r,
        (
          byte (r / 2 ^ 8),
          (
            byte (r / 2 ^ 16),
            (
              byte (r / 2 ^ 24),
              (
                byte (r / 2 ^ 32),
                (byte (r / 2 ^ 40), (byte (r / 2 ^ 48), (byte (r / 2 ^ 56), tt))),
              ),
            ),
          ),
        ),
      );
      size = refl;
      nonzero = rw (word_of-push64 r l) p;
    }

IsKey-lt : (x : List ℕ) → IsKey x → word_of x < u64
IsKey-lt x v = subst (λ n. word_of x < 256 ^ n) (v.size) (word_of-lt x (v.bytes))

push_power_lem :
    (a b : ℕ)
    → a < u64
    → a ≢ prime
    → 0 < b
    → b < u64
    → push_power a b ≡ some (ok (push64 (a ^ b % prime)))
unfolding push_power
push_power_lem a b l n p m = rw (powmodp_lem a b l n p m) refl

-- Of a key `ldhexchange` makes 5 to the power of the key, modulo the prime.
ldhexchange_lem :
    (x : List ℕ) → IsKey x → ldhexchange x ≡ some (ok (push64 (generator ^ word_of x % prime)))
unfolding ldhexchange
ldhexchange_lem x v =
    let a : (length x == 8) ≡ true = ground (arith, v.size) in
    let b : (word_of x == 0) ≡ false = ground (arith, v.nonzero) in
    rw (a, b)
      (push_power_lem generator (word_of x) (omega arith) (omega arith) v.nonzero (IsKey-lt x v))

-- With a key `ldhsecret` raises a public key, the bytes of a number below the prime.
ldhsecret_lem :
    (y : List ℕ) (r : ℕ)
    → IsKey y
    → 0 < r
    → r < prime
    → ldhsecret (push64 r) y ≡ some (ok (push64 (r ^ word_of y % prime)))
unfolding ldhsecret
ldhsecret_lem y r w p l =
    let m : r < u64 = omega arith in
    let key = IsKey-push64 r m p in
    let a : (length (push64 r) == 8) ≡ true = ground (arith, key.size) in
    let b : (length y == 8) ≡ true = ground (arith, w.size) in
    let c : (word_of (push64 r) == 0) ≡ false = ground (arith, key.nonzero) in
    let d : (word_of y == 0) ≡ false = ground (arith, w.nonzero) in
    let e = word_of-push64 r m in
    let n : r ≢ prime = omega arith in
    rw (a, b, c, d, e) (push_power_lem r (word_of y) m n w.nonzero (IsKey-lt y w))

-- Two sides with keys of eight bytes, not all zero, exchange what `ldhexchange` makes of them: the calls
-- of both functions end without an error, and `ldhsecret` gives both sides the same secret.
pub ldhsecret-ldhexchange :
    (x y : List ℕ)
    → IsKey x
    → IsKey y
    → (a b secret : List ℕ) × (ldhexchange x ≡ some (ok a))
      × (ldhexchange y ≡ some (ok b))
      × (ldhsecret a y ≡ some (ok secret))
      × (ldhsecret b x ≡ some (ok secret))
ldhsecret-ldhexchange x y v w =
    let i = word_of x in
    let j = word_of y in
    let r = generator ^ i % prime in
    let s = generator ^ j % prime in
    let at_y = ldhsecret_lem y r w (power_nonzero i) (omega arith) in
    let at_x = ldhsecret_lem x s v (power_nonzero j) (omega arith) in
    let same = ap (λ n. some (ok (push64 n))) (pow_swap prime generator j i) in
    (
      push64 r,
      push64 s,
      push64 (r ^ j % prime),
      ldhexchange_lem x v,
      ldhexchange_lem y w,
      at_y,
      at_x ∙ same,
    )
