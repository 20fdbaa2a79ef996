-- ===== src/Crypt/Random.antt =====
-- lualib-src/lua-crypt.c: random keys and strings under a mask. The values of `random` are a parameter.
use ue4_background.Crypt.Bits.{bit_or_one, bit_xor_comm, bit_xor_twice}
use Prim.Native.Nat.{bit_xor-bitwise, bit_or, bit_xor}
use ue4_background.Crypt.{invalid, AllBytes, Outcome, ok}
use ue4_background.Crypt.Powmod.Agreement.{IsKey}
use ue4_background.Crypt.Powmod.{word_of}
use ue4_background.Prelude.{
  ℕ, zero, suc, ◌+◌, ◌%◌, ◌<◌, ◌≡◌, refl, ap, ap₂, ◌∙◌, ◌≢◌, inl, inr, false, List, [], ◌∷◌, arith,
  ◌==◌, if◌then◌else◌, Bool-cases, length, get_or, count,
}

-- The bytes that `lrandomkey` draws, from the call `i` on.
unfoldable pub draw_bytes : (random : ℕ → ℕ) (i count : ℕ) → List ℕ
draw_bytes random i zero = []
draw_bytes random i (suc count) = random i % 256 ∷ draw_bytes random (i + 1) count

-- What the loop makes of `x`.
unfoldable pub xor_all : ℕ → List ℕ → ℕ
xor_all x [] = x
xor_all x (b ∷ bs) = xor_all (bit_xor x b) bs

-- `tmp[0] |= 1`
unfoldable pub avoid_zero : List ℕ → List ℕ
avoid_zero [] = []
avoid_zero (b ∷ bs) = bit_or b 1 ∷ bs

-- `lrandomkey`
unfoldable pub lrandomkey : (random : ℕ → ℕ) → List ℕ
lrandomkey random =
    let tmp = draw_bytes random 0 8 in if xor_all 0 tmp == 0 then avoid_zero tmp else tmp

-- The loop of `lxor_str`, from the byte `i` on.
unfoldable pub xor_from : (s2 : List ℕ) (i : ℕ) → List ℕ → List ℕ
xor_from s2 i [] = []
xor_from s2 i (b ∷ bs) = bit_xor b (get_or s2 (i % length s2) 0) ∷ xor_from s2 (i + 1) bs

-- `lxor_str`
unfoldable pub lxor_str : (s1 s2 : List ℕ) → Outcome (List ℕ)
lxor_str s1 s2 = if length s2 == 0 then invalid else ok (xor_from s2 0 s1)

xor_from-twice : (s2 : List ℕ) (i : ℕ) (s1 : List ℕ) → xor_from s2 i (xor_from s2 i s1) ≡ s1
unfolding xor_from
xor_from-twice s2 i [] = refl
xor_from-twice s2 i (b ∷ bs) =
    ap₂ (λ x xs. x ∷ xs) (bit_xor_twice b (get_or s2 (i % length s2) 0))
      (xor_from-twice s2 (i + 1) bs)

-- With a mask that is not empty `lxor_str` succeeds, and the same call on its result gives the string
-- back.
pub lxor_str-twice :
    (s1 s2 : List ℕ)
    → 0 < length s2
    → (r : List ℕ) × (lxor_str s1 s2 ≡ ok r) × (lxor_str r s2 ≡ ok s1)
unfolding lxor_str
lxor_str-twice s1 s2 l =
    let z : (length s2 == 0) ≡ false = ground arith in
    (xor_from s2 0 s1, rw z refl, rw z (ap ok (xor_from-twice s2 0 s1)))

AllBytes-draw_bytes : (random : ℕ → ℕ) (i count : ℕ) → AllBytes (draw_bytes random i count)
unfolding draw_bytes
AllBytes-draw_bytes random i zero = tt
AllBytes-draw_bytes random i (suc count) = (omega arith, AllBytes-draw_bytes random (i + 1) count)

length-draw_bytes : (random : ℕ → ℕ) (i count : ℕ) → length (draw_bytes random i count) ≡ count
unfolding draw_bytes
length-draw_bytes random i zero = refl
length-draw_bytes random i (suc count) = omega (arith, length-draw_bytes random (i + 1) count)

-- Bytes whose word is zero change nothing.
xor_all-zero : (x : ℕ) (bs : List ℕ) → word_of bs ≡ 0 → xor_all x bs ≡ x
unfolding xor_all word_of
xor_all-zero x [] e = refl
xor_all-zero x (b ∷ bs) e =
    let z : b ≡ 0 = omega (arith, e) in
    let zs : word_of bs ≡ 0 = omega (arith, e) in
    xor_all-zero (bit_xor x b) bs zs ∙ ap (bit_xor x) z ∙ bit_xor_comm x 0 ∙ bit_xor-bitwise 0 x

avoid_zero-IsKey : (bs : List ℕ) → AllBytes bs → length bs ≡ 8 → IsKey (avoid_zero bs)
unfolding avoid_zero word_of
avoid_zero-IsKey [] v l = absurd (omega arith)
avoid_zero-IsKey (b ∷ bs) v l =
    let e = bit_or_one b in
    record { bytes = (omega (arith, e, v.0), v.1); size = l; nonzero = omega (arith, e) }

drawn-IsKey : (bs : List ℕ) → AllBytes bs → length bs ≡ 8 → (xor_all 0 bs == 0) ≡ false → IsKey bs
drawn-IsKey bs v l e =
    let p : word_of bs ≢ 0 = λ z. grind (arith, e, xor_all-zero 0 bs z) in
    record { bytes = v; size = l; nonzero = omega arith }

-- Whatever `random` returns, `lrandomkey` makes a key of eight bytes that are not all zero.
pub lrandomkey-IsKey : (random : ℕ → ℕ) → IsKey (lrandomkey random)
unfolding lrandomkey
lrandomkey-IsKey random =
    let tmp = draw_bytes random 0 8 in
    let v = AllBytes-draw_bytes random 0 8 in
    let l = length-draw_bytes random 0 8 in
    elim (Bool-cases (xor_all 0 tmp == 0)) [
      | inl z ↦ rw z (avoid_zero-IsKey tmp v l)
      | inr z ↦ rw z (drawn-IsKey tmp v l z)
    ]
