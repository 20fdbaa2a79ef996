-- ===== src/Crypt/Des/Rounds.antt =====
-- lualib-src/lua-crypt.c: the rounds of `des_crypt` undo themselves.
use ue4_background.Crypt.Des.Tables.{sb1, sb2, sb3, sb4, sb5, sb6, sb7, sb8}
use ue4_background.Crypt.Des.{shr, s_box, shl, swap, des_round, des_rounds, mix_even, mix_odd, u32}
use ue4_background.Crypt.Bits.{bit_xor_lt, bit_xor_two_twice}
use ue4_background.Crypt.Des.Inverse.{IsWord}
use mathlib.Core.List.{reverse, reverse-append}
use Prim.Native.Nat.{bit_xor}
use ue4_background.Prelude.{
  ℕ, zero, suc, ◌+◌, ◌%◌, ◌<◌, ◌≡◌, refl, sym, ap, subst, ◌∙◌, Bool, true, ◌&&◌, List, [], ◌∷◌,
  ◌++◌, arith, ltb, get_or,
}

des_round_twice : (k : ℕ × ℕ) (x y : ℕ) → des_round k x (des_round k x y) ≡ y
unfolding des_round
des_round_twice (k, k') x y = bit_xor_two_twice y (mix_even k x) (mix_odd k' x)

-- Two rounds for each step of the loop.
abbrev pub IsEven : List (ℕ × ℕ) → Type 0
IsEven [] = Unit {0}
IsEven (k ∷ []) = ⊥
IsEven (k ∷ k' ∷ ks) = IsEven ks

des_rounds-append :
    (ks ms : List (ℕ × ℕ)) (w : ℕ × ℕ)
    → IsEven ks
    → des_rounds (ks ++ ms) w ≡ des_rounds ms (des_rounds ks w)
unfolding des_rounds
des_rounds-append [] ms w e = refl
des_rounds-append (k ∷ []) ms w e = absurd e
des_rounds-append (k ∷ k' ∷ ks) ms (x, y) e =
    des_rounds-append ks ms (des_round k y x, des_round k' (des_round k y x) y) e

IsEven-append : (ks ms : List (ℕ × ℕ)) → IsEven ks → IsEven ms → IsEven (ks ++ ms)
IsEven-append [] ms e f = f
IsEven-append (k ∷ []) ms e f = absurd e
IsEven-append (k ∷ k' ∷ ks) ms e f = IsEven-append ks ms e f

reverse_two : (k k' : ℕ × ℕ) (ks : List (ℕ × ℕ)) → reverse (k ∷ k' ∷ ks) ≡ reverse ks ++ k' ∷ k ∷ []
reverse_two k k' ks = reverse-append (k ∷ k' ∷ []) ks

IsEven-reverse : (ks : List (ℕ × ℕ)) → IsEven ks → IsEven (reverse ks)
IsEven-reverse [] e = tt
IsEven-reverse (k ∷ []) e = absurd e
IsEven-reverse (k ∷ k' ∷ ks) e =
    subst IsEven (sym (reverse_two k k' ks))
      (IsEven-append (reverse ks) (k' ∷ k ∷ []) (IsEven-reverse ks e) tt)

des_rounds_last :
    (k k' : ℕ × ℕ) (x y : ℕ)
    → let x' = des_round k y x in des_rounds (k' ∷ k ∷ []) (des_round k' x' y, x') ≡ (y, x)
unfolding des_rounds
des_rounds_last k k' x y =
    let x' = des_round k y x in
    let e = des_round_twice k' x' y in
    ap (λ z. (z, des_round k z x')) e ∙ ap (λ z. (y, z)) (des_round_twice k y x)

pub des_rounds-reverse :
    (ks : List (ℕ × ℕ)) (w : ℕ × ℕ)
    → IsEven ks
    → des_rounds (reverse ks) (swap (des_rounds ks w)) ≡ swap w
unfolding des_rounds
des_rounds-reverse [] w e = refl
des_rounds-reverse (k ∷ []) w e = absurd e
des_rounds-reverse (k ∷ k' ∷ ks) (x, y) e =
    let x' = des_round k y x in
    let y' = des_round k' x' y in
    let out = des_rounds ks (x', y') in
    ap (λ l. des_rounds l (swap out)) (reverse_two k k' ks)
    ∙ des_rounds-append (reverse ks) (k' ∷ k ∷ []) (swap out) (IsEven-reverse ks e)
    ∙ ap (des_rounds (k' ∷ k ∷ [])) (des_rounds-reverse ks (x', y') e)
    ∙ des_rounds_last k k' x y

all_lt : ℕ → List ℕ → Bool
all_lt n [] = true
all_lt n (x ∷ xs) = ltb x n && all_lt n xs

get_or-lt : (n : ℕ) (xs : List ℕ) (i : ℕ) → 0 < n → all_lt n xs ≡ true → get_or xs i 0 < n
unfolding all_lt
get_or-lt n [] i p e = p
get_or-lt n (x ∷ xs) zero p e = ground arith
get_or-lt n (x ∷ xs) (suc i) p e = ground (arith, get_or-lt n xs i)

s_box-lt : (box : List ℕ) (t k : ℕ) → all_lt u32 box ≡ true → s_box box t k < u32
s_box-lt box t k e = get_or-lt u32 box (shr t k % 64) (omega arith) e

mix_even-lt : (k x : ℕ) → mix_even k x < u32
unfolding mix_even all_lt
mix_even-lt k x =
    let t = bit_xor k x in
    bit_xor_lt 32 _ _
      (bit_xor_lt 32 _ _ (bit_xor_lt 32 _ _ (s_box-lt sb8 t 0 refl) (s_box-lt sb6 t 8 refl))
        (s_box-lt sb4 t 16 refl))
      (s_box-lt sb2 t 24 refl)

mix_odd-lt : (k x : ℕ) → mix_odd k x < u32
unfolding mix_odd all_lt
mix_odd-lt k x =
    let t = bit_xor k (shl x 28 + shr x 4) in
    bit_xor_lt 32 _ _
      (bit_xor_lt 32 _ _ (bit_xor_lt 32 _ _ (s_box-lt sb7 t 0 refl) (s_box-lt sb5 t 8 refl))
        (s_box-lt sb3 t 16 refl))
      (s_box-lt sb1 t 24 refl)

des_round-lt : (k : ℕ × ℕ) (x y : ℕ) → y < u32 → des_round k x y < u32
unfolding des_round
des_round-lt (k, k') x y h =
    bit_xor_lt 32 _ _ (bit_xor_lt 32 _ _ h (mix_even-lt k x)) (mix_odd-lt k' x)

pub des_rounds-IsWord : (ks : List (ℕ × ℕ)) (w : ℕ × ℕ) → IsWord w → IsWord (des_rounds ks w)
unfolding des_rounds
des_rounds-IsWord [] w v = v
des_rounds-IsWord (k ∷ []) w v = v
des_rounds-IsWord (k ∷ k' ∷ ks) (x, y) v =
    des_rounds-IsWord ks _ (des_round-lt k y x v.0, des_round-lt k' (des_round k y x) y v.1)
