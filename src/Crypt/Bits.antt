-- ===== src/Crypt/Bits.antt =====
-- Exclusive or and masks of words, as far as the ciphers need them.
use Prim.Native.Nat.{
  bit_and, bit_xor, bit_xor-bitwise, bit_and-bitwise, bit_or, bit_or-bitwise, max, differ, digits,
  min,
}
use native.Mathlib.Nat.{pow-suc, one-le-pow, div-eq_of_lt, div-lt_iff_lt-mul, div-div-eq-div-mul}
use ue4_background.Prelude.{
  ℕ, zero, suc, ◌+◌, ◌*◌, ◌/◌, ◌%◌, ◌^◌, ◌≤◌, ◌<◌, ◌≡◌, refl, sym, ap, ap₂, ◌∙◌, arith,
}

module _ (z : ℕ → ℕ) (f : ℕ → ℕ → ℕ) where
  -- More digits to go than there are change nothing.
  digits-enough : (b m n a : ℕ) → a ≤ m → a ≤ n → digits z f m a b ≡ digits z f n a b
  digits-enough b zero zero zero p q = refl
  digits-enough b zero (suc n) zero p q = refl
  digits-enough b (suc m) zero zero p q = refl
  digits-enough b (suc m) (suc n) zero p q = refl
  digits-enough b zero n (suc a) p q = absurd (omega arith)
  digits-enough b (suc m) zero (suc a) p q = absurd (omega arith)
  digits-enough b (suc m) (suc n) (suc a) p q =
      ap (λ d. d * 2 + f (suc a % 2) (b % 2))
        (digits-enough (b / 2) m n (suc a / 2) (omega arith) (omega arith))

differ_digits : (x y : ℕ) → x < 2 → y < 2 → differ x y ≡ (x + y) % 2
differ_digits zero y p q = omega arith
differ_digits (suc zero) zero p q = refl
differ_digits (suc zero) (suc zero) p q = refl
differ_digits (suc zero) (suc (suc y)) p q = absurd (omega arith)
differ_digits (suc (suc x)) y p q = absurd (omega arith)

bit_xor_step : (a b : ℕ) → bit_xor a b ≡ bit_xor (a / 2) (b / 2) * 2 + (a + b) % 2
bit_xor_step zero b = omega (arith, bit_xor-bitwise 0 b, bit_xor-bitwise 0 (b / 2))
bit_xor_step (suc a) b = omega (
  arith,
  bit_xor-bitwise (suc a) b,
  bit_xor-bitwise (suc a / 2) (b / 2),
  digits-enough (λ y. y) differ (b / 2) a (suc a / 2) (suc a / 2) (omega arith) (omega arith),
  differ_digits (suc a % 2) (b % 2) (omega arith) (omega arith),
)

bit_and_step : (a b : ℕ) → bit_and a b ≡ bit_and (a / 2) (b / 2) * 2 + min (a % 2) (b % 2)
bit_and_step zero b = omega (arith, bit_and-bitwise 0 b, bit_and-bitwise 0 (b / 2))
bit_and_step (suc a) b = omega (
  arith,
  bit_and-bitwise (suc a) b,
  bit_and-bitwise (suc a / 2) (b / 2),
  digits-enough (λ y. 0) min (b / 2) a (suc a / 2) (suc a / 2) (omega arith) (omega arith),
)

bit_xor_half : (a b : ℕ) → bit_xor a b / 2 ≡ bit_xor (a / 2) (b / 2)
bit_xor_half a b = omega (arith, bit_xor_step a b)

bit_xor_digit : (a b : ℕ) → bit_xor a b % 2 ≡ (a + b) % 2
bit_xor_digit a b = omega (arith, bit_xor_step a b)

zero-bit_xor : (b : ℕ) → bit_xor 0 b ≡ b
zero-bit_xor b = bit_xor-bitwise 0 b

bit_xor_self_below : (n a : ℕ) → a ≤ n → bit_xor a a ≡ 0
bit_xor_self_below zero a h = let e : a ≡ 0 = omega arith in rw e (zero-bit_xor 0)
bit_xor_self_below (suc n) a h =
    omega (arith, bit_xor_step a a, bit_xor_self_below n (a / 2) (omega arith))

pub bit_xor_self : (a : ℕ) → bit_xor a a ≡ 0
bit_xor_self a = bit_xor_self_below a a (omega arith)

bit_xor_comm_below : (n a b : ℕ) → a ≤ n → b ≤ n → bit_xor a b ≡ bit_xor b a
bit_xor_comm_below zero a b p q =
    let e : a ≡ 0 = omega arith in let f : b ≡ 0 = omega arith in rw (e, f)
bit_xor_comm_below (suc n) a b p q = omega (
  arith,
  bit_xor_step a b,
  bit_xor_step b a,
  bit_xor_comm_below n (a / 2) (b / 2) (omega arith) (omega arith),
)

pub bit_xor_comm : (a b : ℕ) → bit_xor a b ≡ bit_xor b a
bit_xor_comm a b = bit_xor_comm_below (a + b) a b (omega arith) (omega arith)

bit_xor_assoc_below :
    (n a b c : ℕ) → a ≤ n → b ≤ n → c ≤ n → bit_xor (bit_xor a b) c ≡ bit_xor a (bit_xor b c)
bit_xor_assoc_below zero a b c p q r =
    let e : a ≡ 0 = omega arith in
    let f : b ≡ 0 = omega arith in let g : c ≡ 0 = omega arith in rw (e, f, g)
bit_xor_assoc_below (suc n) a b c p q r =
    let ih =
      bit_xor_assoc_below n (a / 2) (b / 2) (c / 2) (omega arith) (omega arith) (omega arith) in
    let left = bit_xor_step (bit_xor a b) c in
    let right = bit_xor_step a (bit_xor b c) in
    let halves : bit_xor (bit_xor a b / 2) (c / 2) ≡ bit_xor (a / 2) (bit_xor b c / 2) =
      rw (bit_xor_half a b, bit_xor_half b c) ih in
    omega (arith, left, right, halves, bit_xor_digit a b, bit_xor_digit b c)

pub bit_xor_assoc : (a b c : ℕ) → bit_xor (bit_xor a b) c ≡ bit_xor a (bit_xor b c)
bit_xor_assoc a b c =
    bit_xor_assoc_below (a + b + c) a b c (omega arith) (omega arith) (omega arith)

-- What is added twice is gone.
pub bit_xor_twice : (a b : ℕ) → bit_xor (bit_xor a b) b ≡ a
bit_xor_twice a b =
    bit_xor_assoc a b b ∙ ap (bit_xor a) (bit_xor_self b) ∙ bit_xor_comm a 0 ∙ zero-bit_xor a

pub bit_xor_both : (a b t : ℕ) → bit_xor (bit_xor a t) (bit_xor b t) ≡ bit_xor a b
bit_xor_both a b t =
    sym (bit_xor_assoc (bit_xor a t) b t)
    ∙ ap (λ x. bit_xor x t)
        (bit_xor_assoc a t b ∙ ap (bit_xor a) (bit_xor_comm t b) ∙ sym (bit_xor_assoc a b t))
    ∙ bit_xor_twice (bit_xor a b) t

-- Two things that are added twice are gone.
pub bit_xor_two_twice : (y f g : ℕ) → bit_xor (bit_xor (bit_xor (bit_xor y f) g) f) g ≡ y
bit_xor_two_twice y f g =
    bit_xor_assoc (bit_xor (bit_xor y f) g) f g
    ∙ ap (λ z. bit_xor z (bit_xor f g)) (bit_xor_assoc y f g)
    ∙ bit_xor_twice y (bit_xor f g)

shift-suc : (k a : ℕ) → a / 2 ^ suc k ≡ a / 2 ^ k / 2
shift-suc k a = ap (λ d. a / d) (pow-suc 2 k) ∙ sym (div-div-eq-div-mul a (2 ^ k) 2)

pub bit_xor_shift : (k a b : ℕ) → bit_xor a b / 2 ^ k ≡ bit_xor (a / 2 ^ k) (b / 2 ^ k)
bit_xor_shift zero a b =
    let one : (x : ℕ) → x / 2 ^ 0 ≡ x = λ x. omega arith in
    one (bit_xor a b) ∙ sym (ap₂ bit_xor (one a) (one b))
bit_xor_shift (suc k) a b =
    shift-suc k (bit_xor a b)
    ∙ ap (λ x. x / 2) (bit_xor_shift k a b)
    ∙ bit_xor_half (a / 2 ^ k) (b / 2 ^ k)
    ∙ sym (ap₂ bit_xor (shift-suc k a) (shift-suc k b))

bit_and_le_below : (n a m : ℕ) → a ≤ n → bit_and a m ≤ m
bit_and_le_below zero a m h =
    let e : a ≡ 0 = omega arith in rw e (omega (arith, bit_and-bitwise 0 m))
bit_and_le_below (suc n) a m h =
    omega (arith, bit_and_step a m, bit_and_le_below n (a / 2) (m / 2) (omega arith))

-- A mask bounds.
pub bit_and_le : (a m : ℕ) → bit_and a m ≤ m
bit_and_le a m = bit_and_le_below a a m (omega arith)

pub bit_xor_lt : (k a b : ℕ) → a < 2 ^ k → b < 2 ^ k → bit_xor a b < 2 ^ k
bit_xor_lt k a b p q =
    let s = bit_xor_shift k a b in
    let z : bit_xor (a / 2 ^ k) (b / 2 ^ k) ≡ 0 = ap₂ bit_xor (div-eq_of_lt p) (div-eq_of_lt q) in
    let l =
      (div-lt_iff_lt-mul {k = 2 ^ k} {x = bit_xor a b} {y = 1} (one-le-pow k 2 (omega arith))).0
        (omega (arith, s, z)) in
    omega (arith, l)

bit_or_step : (a b : ℕ) → bit_or a b ≡ bit_or (a / 2) (b / 2) * 2 + max (a % 2) (b % 2)
bit_or_step zero b = omega (arith, bit_or-bitwise 0 b, bit_or-bitwise 0 (b / 2))
bit_or_step (suc a) b = omega (
  arith,
  bit_or-bitwise (suc a) b,
  bit_or-bitwise (suc a / 2) (b / 2),
  digits-enough (λ y. y) max (b / 2) a (suc a / 2) (suc a / 2) (omega arith) (omega arith),
)

pub bit_or_two : (a b : ℕ) → bit_or (2 * a) b ≡ bit_or a (b / 2) * 2 + b % 2
bit_or_two a b =
    let h : 2 * a / 2 ≡ a = omega arith in
    omega (arith, bit_or_step (2 * a) b, ap (λ x. bit_or x (b / 2)) h)

bit_or_zero_below : (n a : ℕ) → a ≤ n → bit_or a 0 ≡ a
bit_or_zero_below zero a h = let e : a ≡ 0 = omega arith in rw e (omega (arith, bit_or-bitwise 0 0))
bit_or_zero_below (suc n) a h =
    omega (arith, bit_or_step a 0, bit_or_zero_below n (a / 2) (omega arith))

pub bit_or_zero : (a : ℕ) → bit_or a 0 ≡ a
bit_or_zero a = bit_or_zero_below a a (omega arith)

pub bit_or_one : (b : ℕ) → bit_or b 1 ≡ b / 2 * 2 + 1
bit_or_one b = omega (arith, bit_or_step b 1, bit_or_zero (b / 2))
