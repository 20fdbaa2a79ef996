-- ===== src/Crypt/Powmod.antt =====
-- lualib-src/lua-crypt.c: powers modulo a prime, and the key exchange of Diffie and Hellman. Words have
-- 64 bits.
pub mod Mod
pub mod Multiply
pub mod Power
pub mod Agreement
use ue4_background.Crypt.{invalid, ok, Outcome}
use ue4_background.Prelude.{
  ℕ, zero, suc, ◌+◌, ◌-◌, ◌*◌, ◌/◌, ◌%◌, ◌^◌, ap, not, ◌||◌, Option, none, some, List, [], ◌∷◌, ltb,
  leb, ◌==◌, if◌then◌else◌, length, ◌>>=◌,
}

abbrev pub u64 : ℕ
u64 = 2 ^ 64

-- `P`
abbrev pub prime : ℕ
prime = 0xffffffffffffffc5

-- `x + y` and `x - y` of words.
abbrev pub plus : ℕ → ℕ → ℕ
plus x y = (x + y) % u64

abbrev pub minus : ℕ → ℕ → ℕ
minus x y = (x + (u64 - y)) % u64

-- The body of the loop of `mul_mod_p`: what becomes of `m` for a bit of `b`, and of `a`.
unfoldable pub add_mod_p : (m a : ℕ) → ℕ
add_mod_p m a = let t = minus prime a in if leb t m then minus m t else plus m a

unfoldable pub twice_mod_p : ℕ → ℕ
twice_mod_p a = if leb (minus prime a) a then minus (a * 2 % u64) prime else a * 2 % u64

-- The loop of `mul_mod_p`, in at most `fuel` rounds.
unfoldable pub mul_loop : (fuel a b m : ℕ) → Option ℕ
mul_loop zero a b m = if b == 0 then some m else none
mul_loop (suc fuel) a b m =
    let rest = mul_loop fuel (twice_mod_p a) (b / 2) (if b % 2 == 1 then add_mod_p m a else m) in
    if b == 0 then some m else rest

-- `mul_mod_p`: a word has 64 bits to shift out.
unfoldable pub mul_mod_p : (a b : ℕ) → Option ℕ
mul_mod_p a b = mul_loop 64 a b 0

-- `pow_mod_p`, at most `fuel` calls deep.
unfoldable pub pow_mod_p : (fuel a b : ℕ) → Option ℕ
pow_mod_p zero a b = none
pow_mod_p (suc fuel) a b =
    let rest = pow_mod_p fuel a (b / 2) >>= λ s.
    mul_mod_p s s >>= λ t. if b % 2 == 0 then some t else mul_mod_p t a in
    if b == 1 then some a else rest

-- `powmodp`; with `b` zero the calls have no end.
unfoldable pub powmodp : (a b : ℕ) → Option ℕ
powmodp a b = pow_mod_p 64 (if ltb prime a then a % prime else a) b

-- The word of eight bytes, as `read64` and its callers put it together: the parts do not overlap, so `|`
-- is a sum.
unfoldable pub word_of : List ℕ → ℕ
word_of [] = 0
word_of (b ∷ bs) = b + 256 * word_of bs

-- `push64`
unfoldable pub push64 : ℕ → List ℕ
push64 r =
    r % 256
    ∷ r / 2 ^ 8 % 256
    ∷ r / 2 ^ 16 % 256
    ∷ r / 2 ^ 24 % 256
    ∷ r / 2 ^ 32 % 256
    ∷ r / 2 ^ 40 % 256
    ∷ r / 2 ^ 48 % 256
    ∷ r / 2 ^ 56 % 256
    ∷ []

-- `powmodp` and `push64`, as the two functions below end.
unfoldable pub push_power : (a b : ℕ) → Option (Outcome (List ℕ))
push_power a b = powmodp a b >>= λ r. some (ok (push64 r))

-- `ldhsecret`; `none` is a call without an end.
unfoldable pub ldhsecret : (x y : List ℕ) → Option (Outcome (List ℕ))
ldhsecret x y =
    if not (length x == 8) || not (length y == 8)
    then some invalid
    else (if word_of x == 0 || word_of y == 0
        then some invalid
        else push_power (word_of x) (word_of y))

-- `G`
abbrev pub generator : ℕ
generator = 5

-- `ldhexchange`
unfoldable pub ldhexchange : (x : List ℕ) → Option (Outcome (List ℕ))
ldhexchange x =
    if not (length x == 8)
    then some invalid
    else (if word_of x == 0 then some invalid else push_power generator (word_of x))
