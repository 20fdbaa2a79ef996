-- ===== src/Crypt/Text.antt =====
-- lualib-src/lua-crypt.c: texts encoded with DES, block by block, while their length is an int.
pub mod RoundTrip
use ue4_background.Crypt.{◌>>=◌, invalid, ok, Outcome}
use ue4_background.Crypt.Padding.{add_padding, remove_padding}
use ue4_background.Crypt.Des.Keys.{des_main_ks}
use ue4_background.Crypt.Des.{des_crypt}
use mathlib.Core.List.{reverse}
use ue4_background.Prelude.{
  ℕ, zero, suc, ◌+◌, ◌-◌, ◌/◌, ◌%◌, not, ◌||◌, List, [], ◌++◌, ltb, leb, ◌==◌, if◌then◌else◌,
  length, take, drop, remove,
}

-- `des_key`
unfoldable pub des_key : List ℕ → Outcome (List (ℕ × ℕ))
des_key key = if length key == 8 then ok (des_main_ks key) else invalid

-- The loop of `ldesencode` with the last block, in as many rounds as bytes.
unfoldable pub encode_blocks : (sk : List (ℕ × ℕ)) (mode fuel : ℕ) → List ℕ → Outcome (List ℕ)
encode_blocks sk mode zero text = invalid
encode_blocks sk mode (suc fuel) text =
    let more = encode_blocks sk mode fuel (drop 8 text) >>= λ rest.
    ok (des_crypt sk (take 8 text) ++ rest) in
    if leb 8 (length text) then more else (add_padding mode text >>= λ tail. ok (des_crypt sk tail))

-- `ldesencode`
unfoldable pub ldesencode : (key text : List ℕ) (mode : ℕ) → Outcome (List ℕ)
unfolding des_key encode_blocks
ldesencode key text mode = des_key key >>= λ sk. encode_blocks sk mode (length text + 1) text

-- The loop of `ldesdecode`, in as many rounds as bytes.
unfoldable pub decode_blocks : (sk : List (ℕ × ℕ)) (fuel : ℕ) → List ℕ → List ℕ
decode_blocks sk zero text = []
decode_blocks sk (suc fuel) text =
    let more = des_crypt sk (take 8 text) ++ decode_blocks sk fuel (drop 8 text) in
    if length text == 0 then [] else more

-- `ldesdecode`
unfoldable pub ldesdecode : (key text : List ℕ) (mode : ℕ) → Outcome (List ℕ)
unfolding des_key decode_blocks
ldesdecode key text mode = des_key key >>= λ esk.
    let buffer = decode_blocks (reverse esk) (length text) text in
    if not (length text % 8 == 0) || length text == 0
    then invalid
    else (remove_padding mode (reverse buffer) >>= λ padding.
        if padding == 0 || ltb 8 padding then invalid else ok (take (length text - padding) buffer))
