-- ===== src/Crypt/Padding.antt =====
-- lualib-src/lua-crypt.c: the padding of the last block.
use ue4_background.Crypt.{AllBytes, invalid, overrun, Outcome, ok}
use mathlib.Core.List.{reverse, reverse-append}
use ue4_background.Prelude.{
  ℕ, zero, suc, ◌+◌, ◌-◌, ◌<◌, ◌≡◌, refl, inl, inr, false, ◌||◌, List, [], ◌∷◌, ◌++◌, arith, leb,
  ◌==◌, if◌then◌else◌, Bool-cases, length, replicate, length-replicate,
}

-- `padding_add_iso7816_4` and `padding_add_pkcs7`: what stands from the offset on.
unfoldable pub padding_add_iso7816_4 : ℕ → List ℕ
padding_add_iso7816_4 offset = 0x80 ∷ replicate (7 - offset) 0

unfoldable pub padding_add_pkcs7 : ℕ → List ℕ
padding_add_pkcs7 offset = replicate (8 - offset) (8 - offset)

-- `add_padding`, of the bytes behind the last whole block, with `check_padding_mode`.
unfoldable pub add_padding : ℕ → List ℕ → Outcome (List ℕ)
unfolding padding_add_iso7816_4 padding_add_pkcs7
add_padding mode src =
    if leb 2 mode || leb 8 (length src)
    then invalid
    else ok (
        src
        ++ (if mode == 0
            then padding_add_iso7816_4 (length src)
            else padding_add_pkcs7 (length src)))

-- The loop of `padding_remove_iso7816_4`, over the bytes from `last` backwards, with the rounds left.
unfoldable pub count_zeros : (left padding : ℕ) → List ℕ → Outcome ℕ
count_zeros zero padding bs = ok 0
count_zeros (suc left) padding [] = overrun
count_zeros (suc left) padding (b ∷ bs) =
    let rest = count_zeros left (padding + 1) bs in
    if b == 0 then rest else if b == 0x80 then ok padding else ok 0

-- The loop of `padding_remove_pkcs7`.
unfoldable pub check_same : (left padding : ℕ) → List ℕ → Outcome ℕ
check_same zero padding bs = ok padding
check_same (suc left) padding [] = overrun
check_same (suc left) padding (b ∷ bs) =
    let rest = check_same left padding bs in if b == padding then rest else ok 0

unfoldable pub padding_remove_pkcs7 : List ℕ → Outcome ℕ
unfolding check_same
padding_remove_pkcs7 [] = overrun
padding_remove_pkcs7 (b ∷ bs) = check_same (b - 1) b bs

-- `remove_padding`, of the bytes from `last` backwards.
unfoldable pub remove_padding : ℕ → List ℕ → Outcome ℕ
unfolding count_zeros padding_remove_pkcs7
remove_padding mode last =
    if leb 2 mode
    then invalid
    else if mode == 0
    then count_zeros 8 1 last
    else padding_remove_pkcs7 last

-- What `add_padding` appends to `n` bytes.
abbrev pub padding_for : (mode n : ℕ) → List ℕ
padding_for mode n = if mode == 0 then padding_add_iso7816_4 n else padding_add_pkcs7 n

pub length-padding_for : (mode n : ℕ) → n < 8 → length (padding_for mode n) ≡ 8 - n
unfolding padding_add_iso7816_4 padding_add_pkcs7
length-padding_for mode n h = elim (Bool-cases (mode == 0)) [
  | inl y ↦ rw y (omega (arith, length-replicate {A = ℕ} (7 - n) 0))
  | inr y ↦ rw y (length-replicate (8 - n) (8 - n))
]

AllBytes-replicate : (n b : ℕ) → b < 256 → AllBytes (replicate n b)
AllBytes-replicate zero b h = tt
AllBytes-replicate (suc n) b h = (h, AllBytes-replicate n b h)

pub AllBytes-padding_for : (mode n : ℕ) → AllBytes (padding_for mode n)
unfolding padding_add_iso7816_4 padding_add_pkcs7
AllBytes-padding_for mode n = elim (Bool-cases (mode == 0)) [
  | inl y ↦ rw y (omega arith, AllBytes-replicate (7 - n) 0 (omega arith))
  | inr y ↦ rw y (AllBytes-replicate (8 - n) (8 - n) (omega arith))
]

pub add_padding_lem :
    (mode : ℕ) (src : List ℕ)
    → mode < 2
    → length src < 8
    → add_padding mode src ≡ ok (src ++ padding_for mode (length src))
unfolding add_padding
add_padding_lem mode src m l =
    let y : leb 2 mode ≡ false = ground arith in
    let z : leb 8 (length src) ≡ false = ground arith in rw (y, z)

-- A claim on every offset of a block, by its cases.
below_eight {ℓ} :
    (P : ℕ → Type ℓ) → P 0 → P 1 → P 2 → P 3 → P 4 → P 5 → P 6 → P 7 → (n : ℕ) → n < 8 → P n
below_eight P a b c d e f g h zero l = a
below_eight P a b c d e f g h (suc zero) l = b
below_eight P a b c d e f g h (suc (suc zero)) l = c
below_eight P a b c d e f g h (suc (suc (suc zero))) l = d
below_eight P a b c d e f g h (suc (suc (suc (suc zero)))) l = e
below_eight P a b c d e f g h (suc (suc (suc (suc (suc zero))))) l = f
below_eight P a b c d e f g h (suc (suc (suc (suc (suc (suc zero)))))) l = g
below_eight P a b c d e f g h (suc (suc (suc (suc (suc (suc (suc zero))))))) l = h
below_eight P a b c d e f g h (suc (suc (suc (suc (suc (suc (suc (suc n)))))))) l =
    absurd (omega arith)

remove_iso7816_4 :
    (bs : List ℕ) (n : ℕ)
    → n < 8
    → count_zeros 8 1 (reverse (padding_add_iso7816_4 n) ++ bs) ≡ ok (8 - n)
unfolding count_zeros padding_add_iso7816_4
remove_iso7816_4 bs =
    below_eight (λ n. count_zeros 8 1 (reverse (padding_add_iso7816_4 n) ++ bs) ≡ ok (8 - n)) refl
      refl refl refl refl refl refl refl

remove_pkcs7 :
    (bs : List ℕ) (n : ℕ)
    → n < 8
    → padding_remove_pkcs7 (reverse (padding_add_pkcs7 n) ++ bs) ≡ ok (8 - n)
unfolding padding_remove_pkcs7 padding_add_pkcs7
remove_pkcs7 bs =
    below_eight (λ n. padding_remove_pkcs7 (reverse (padding_add_pkcs7 n) ++ bs) ≡ ok (8 - n)) refl
      refl refl refl refl refl refl refl

-- What is appended in a mode is what is found and taken off in it.
pub remove_padding-padding_for :
    (mode n : ℕ) (text : List ℕ)
    → mode < 2
    → n < 8
    → remove_padding mode (reverse (text ++ padding_for mode n)) ≡ ok (8 - n)
unfolding remove_padding
remove_padding-padding_for mode n text m h =
    let y : leb 2 mode ≡ false = ground arith in
    elim (Bool-cases (mode == 0)) [
      | inl z ↦
          rw (y, z, reverse-append text (padding_add_iso7816_4 n))
            (remove_iso7816_4 (reverse text) n h)
      | inr z ↦
          rw (y, z, reverse-append text (padding_add_pkcs7 n)) (remove_pkcs7 (reverse text) n h)
    ]
