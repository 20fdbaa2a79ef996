-- ===== src/Crypt/Des/Block.antt =====
-- lualib-src/lua-crypt.c: `des_crypt` of a block, and back.
use ue4_background.Crypt.Des.Inverse.{
  des_fp-des_ip, des_ip-des_fp, des_fp-IsWord, des_ip-IsWord, IsWord,
}
use ue4_background.Crypt.Des.Rounds.{des_rounds-reverse, des_rounds-IsWord, IsEven}
use ue4_background.Crypt.Des.{
  swap, des_fp, des_ip, des_rounds, des_crypt, u32, get_uint32, put_uint32,
}
use ue4_background.Crypt.{AllBytes}
use mathlib.Core.List.{reverse}
use ue4_background.Prelude.{
  ℕ, zero, suc, ◌+◌, ◌<◌, ◌≡◌, refl, ap, ap₂, ◌∙◌, List, [], ◌∷◌, ◌++◌, arith, length, get_or,
}

-- A block of eight bytes.
abbrev pub IsBlock : List ℕ → Type 0
IsBlock b = (length b ≡ 8) × AllBytes b

put_uint32-IsBlock : (x y : ℕ) → IsBlock (put_uint32 x ++ put_uint32 y)
unfolding put_uint32
put_uint32-IsBlock x y = (refl, omega arith)

get-put_first : (x y : ℕ) → x < u32 → get_uint32 (put_uint32 x ++ put_uint32 y) 0 ≡ x
unfolding get_uint32 put_uint32
get-put_first x y h = omega arith

get-put_second : (x y : ℕ) → y < u32 → get_uint32 (put_uint32 x ++ put_uint32 y) 4 ≡ y
unfolding get_uint32 put_uint32
get-put_second x y h = omega arith

get_or-AllBytes : (b : List ℕ) (i : ℕ) → AllBytes b → get_or b i 0 < 256
get_or-AllBytes [] i v = omega arith
get_or-AllBytes (x ∷ b) zero v = v.0
get_or-AllBytes (x ∷ b) (suc i) v = get_or-AllBytes b i v.1

get_uint32-lt : (b : List ℕ) (i : ℕ) → AllBytes b → get_uint32 b i < u32
unfolding get_uint32
get_uint32-lt b i v =
    let byte = λ (j : ℕ). get_or-AllBytes b j v in
    omega (arith, byte i, byte (i + 1), byte (i + 2), byte (i + 3))

put-get : (b : List ℕ) → IsBlock b → put_uint32 (get_uint32 b 0) ++ put_uint32 (get_uint32 b 4) ≡ b
unfolding get_uint32 put_uint32
put-get (a ∷ b ∷ c ∷ d ∷ e ∷ f ∷ g ∷ h ∷ []) v = ground arith
put-get b v = absurd (omega (arith, v.0))

-- `des_crypt` of a block is a block, and `des_crypt` with the subkeys in reverse order turns it back.
pub des_crypt-reverse :
    (sk : List (ℕ × ℕ)) (b : List ℕ)
    → IsEven sk
    → IsBlock b
    → IsBlock (des_crypt sk b) × (des_crypt (reverse sk) (des_crypt sk b) ≡ b)
unfolding des_crypt
des_crypt-reverse sk b e v =
    let w : ℕ × ℕ = (get_uint32 b 0, get_uint32 b 4) in
    let vw : IsWord w = (get_uint32-lt b 0 v.1, get_uint32-lt b 4 v.1) in
    let r = des_rounds sk (des_ip w) in
    let vr = des_rounds-IsWord sk (des_ip w) (des_ip-IsWord w vw) in
    let out = des_fp (swap r) in
    let vo = des_fp-IsWord (swap r) (vr.1, vr.0) in
    let words : (get_uint32 (des_crypt sk b) 0, get_uint32 (des_crypt sk b) 4) ≡ out =
      ap₂ (λ x y. (x, y)) (get-put_first out.0 out.1 vo.0) (get-put_second out.0 out.1 vo.1) in
    let back : des_fp (
          swap (
            des_rounds (reverse sk)
              (des_ip (get_uint32 (des_crypt sk b) 0, get_uint32 (des_crypt sk b) 4))))
        ≡ w =
      ap (λ z. des_fp (swap (des_rounds (reverse sk) (des_ip z)))) words
      ∙ ap (λ z. des_fp (swap (des_rounds (reverse sk) z))) (des_ip-des_fp (swap r) (vr.1, vr.0))
      ∙ ap (λ z. des_fp (swap z)) (des_rounds-reverse sk (des_ip w) e)
      ∙ des_fp-des_ip w vw in
    (
      put_uint32-IsBlock out.0 out.1,
      ap (λ (z : ℕ × ℕ). put_uint32 z.0 ++ put_uint32 z.1) back ∙ put-get b v,
    )
