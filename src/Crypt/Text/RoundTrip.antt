-- ===== src/Crypt/Text/RoundTrip.antt =====
-- lualib-src/lua-crypt.c: what `ldesencode` makes of a text, `ldesdecode` turns back.
use ue4_background.Crypt.Padding.{
  remove_padding-padding_for, AllBytes-padding_for, add_padding_lem, length-padding_for,
  padding_for,
}
use ue4_background.Crypt.Text.{des_key, ldesdecode, ldesencode, encode_blocks, decode_blocks}
use ue4_background.Crypt.Des.Keys.{des_main_ks}
use ue4_background.Crypt.Des.Block.{des_crypt-reverse, IsBlock}
use ue4_background.Crypt.{ok, AllBytes}
use ue4_background.Crypt.Des.{des_crypt}
use ue4_background.Crypt.Des.Rounds.{IsEven}
use mathlib.Core.List.{reverse}
use ue4_background.Prelude.{
  ℕ, zero, suc, ◌+◌, ◌-◌, ◌%◌, ◌≤◌, ◌<◌, ◌≡◌, refl, sym, ap, ◌∙◌, inl, inr, true, false, List, [],
  ◌∷◌, ◌++◌, append-nil, append_assoc, arith, ltb, leb, ◌==◌, Bool-cases, length, take, drop,
  length-append, take-drop, length-take_le, length-drop_le, take_front, drop_front,
}

-- The text is encoded as `enc`.
record Encoded (sk : List (ℕ × ℕ)) (mode : ℕ) (text enc : List ℕ) : Type 0 where
  size : length enc ≡ length text + (8 - length text % 8)
  back :
      (g : ℕ)
      → length enc ≤ g
      → decode_blocks (reverse sk) g enc ≡ text ++ padding_for mode (length text % 8)

AllBytes-take : (n : ℕ) (bs : List ℕ) → AllBytes bs → AllBytes (take n bs)
AllBytes-take zero bs v = tt
AllBytes-take (suc n) [] v = tt
AllBytes-take (suc n) (b ∷ bs) v = (v.0, AllBytes-take n bs v.1)

AllBytes-drop : (n : ℕ) (bs : List ℕ) → AllBytes bs → AllBytes (drop n bs)
AllBytes-drop zero bs v = v
AllBytes-drop (suc n) [] v = tt
AllBytes-drop (suc n) (b ∷ bs) v = AllBytes-drop n bs v.1

AllBytes-append : (bs cs : List ℕ) → AllBytes bs → AllBytes cs → AllBytes (bs ++ cs)
AllBytes-append [] cs v w = w
AllBytes-append (b ∷ bs) cs v w = (v.0, AllBytes-append bs cs v.1 w)

module _ (sk : List (ℕ × ℕ)) (e : IsEven sk) where
  -- A block in front of what is decoded.
  decode_block :
      (b rest : List ℕ) (g : ℕ)
      → IsBlock b
      → 0 < g
      → decode_blocks (reverse sk) g (des_crypt sk b ++ rest)
        ≡ b ++ decode_blocks (reverse sk) (g - 1) rest
  unfolding decode_blocks
  decode_block b rest zero v p = absurd (omega arith)
  decode_block b rest (suc g) v p =
      let (w, back) = des_crypt-reverse sk b e v in
      let enc = des_crypt sk b in
      let z : (length (enc ++ rest) == 0) ≡ false = ground (arith, length-append enc rest, w.0) in
      let left : suc g - 1 ≡ g = omega arith in
      rw (z, take_front 8 enc rest w.0, drop_front 8 enc rest w.0, left)
        (ap (λ x. x ++ decode_blocks (reverse sk) g rest) back)

  decode_nothing : (g : ℕ) → decode_blocks (reverse sk) g [] ≡ []
  unfolding decode_blocks
  decode_nothing zero = refl
  decode_nothing (suc g) = refl

  module _ (mode : ℕ) (m : mode < 2) (text : List ℕ) (v : AllBytes text) where
    -- The last block.
    last-Encoded :
        length text < 8
        → Encoded sk mode text (des_crypt sk (text ++ padding_for mode (length text)))
    last-Encoded l =
        let o : length text % 8 ≡ length text = ground arith in
        let pad = padding_for mode (length text) in
        let lp = length-padding_for mode (length text) l in
        let tail = text ++ pad in
        let block : IsBlock tail = (
          omega (arith, length-append text pad, lp),
          AllBytes-append text pad v (AllBytes-padding_for mode (length text)),
        ) in
        let (w, back) = des_crypt-reverse sk tail e block in
        record {
          size = omega (arith, w.0);
          back = λ g h.
              ap (decode_blocks (reverse sk) g) (sym (append-nil (des_crypt sk tail)))
              ∙ decode_block tail [] g block (omega (arith, w.0))
              ∙ ap (λ x. tail ++ x) (decode_nothing (g - 1))
              ∙ append-nil tail
              ∙ ap (λ k. text ++ padding_for mode k) (sym o);
        }

    -- A block in front of an encoded text.
    more-Encoded :
        (enc : List ℕ)
        → 8 ≤ length text
        → Encoded sk mode (drop 8 text) enc
        → Encoded sk mode text (des_crypt sk (take 8 text) ++ enc)
    more-Encoded enc l w =
        let b = take 8 text in
        let block : IsBlock b = (length-take_le 8 text l, AllBytes-take 8 text v) in
        let ld = length-drop_le 8 text l in
        let same : length (drop 8 text) % 8 ≡ length text % 8 = omega arith in
        let (eb, undo) = des_crypt-reverse sk b e block in
        let la = length-append (des_crypt sk b) enc in
        let pad = padding_for mode (length (drop 8 text) % 8) in
        record {
          size = omega (arith, la, eb.0, w.size);
          back = λ g h.
              decode_block b enc g block (omega (arith, la, eb.0))
              ∙ ap (λ x. b ++ x) (w.back (g - 1) (omega (arith, la, eb.0)))
              ∙ sym (append_assoc b (drop 8 text) pad)
              ∙ ap (λ x. x ++ pad) (take-drop 8 text)
              ∙ ap (λ k. text ++ padding_for mode k) same;
        }

  encode_blocks-Encoded :
      (mode f : ℕ) (text : List ℕ)
      → mode < 2
      → length text < f
      → AllBytes text
      → (enc : List ℕ) × (encode_blocks sk mode f text ≡ ok enc) × Encoded sk mode text enc
  unfolding encode_blocks
  encode_blocks-Encoded mode zero text m l v = absurd (omega arith)
  encode_blocks-Encoded mode (suc f) text m l v = elim (Bool-cases (leb 8 (length text))) [
    | inl y ↦
        let long : 8 ≤ length text = ground arith in
        let ld = length-drop_le 8 text long in
        let (enc, r, w) =
          encode_blocks-Encoded mode f (drop 8 text) m (omega arith) (AllBytes-drop 8 text v) in
        (des_crypt sk (take 8 text) ++ enc, rw (y, r), more-Encoded mode m text v enc long w)
    | inr y ↦
        let short : length text < 8 = ground arith in
        (_, rw (y, add_padding_lem mode text m short), last-Encoded mode m text v short)
  ]

des_main_ks-IsEven : (key : List ℕ) → IsEven (des_main_ks key)
unfolding des_main_ks
des_main_ks-IsEven key = tt

decode-Encoded :
    (key text enc : List ℕ) (mode : ℕ)
    → mode < 2
    → length key ≡ 8
    → Encoded (des_main_ks key) mode text enc
    → ldesdecode key enc mode ≡ ok text
unfolding ldesdecode
decode-Encoded key text enc mode m k w =
    let pad = padding_for mode (length text % 8) in
    let buffer = w.back (length enc) (omega arith) in
    let removed = remove_padding-padding_for mode (length text % 8) text m (omega arith) in
    let a : (length key == 8) ≡ true = ground arith in
    let b : (length enc % 8 == 0) ≡ true = ground (arith, w.size) in
    let c : (length enc == 0) ≡ false = ground (arith, w.size) in
    let d : (8 - length text % 8 == 0) ≡ false = ground arith in
    let f : ltb 8 (8 - length text % 8) ≡ false = ground arith in
    let n : length enc - (8 - length text % 8) ≡ length text = omega (arith, w.size) in
    rw (a, b, c, buffer, removed, d, f, n) (ap ok (take_front (length text) text pad refl))

-- A text of bytes that `ldesencode` encodes with a key of eight bytes, in one of the two padding modes:
-- the call succeeds, and `ldesdecode` with the same key and mode gives the text back.
pub ldesdecode-ldesencode :
    (key text : List ℕ) (mode : ℕ)
    → length key ≡ 8
    → mode < 2
    → AllBytes text
    → (enc : List ℕ) × (ldesencode key text mode ≡ ok enc) × (ldesdecode key enc mode ≡ ok text)
unfolding ldesencode des_key
ldesdecode-ldesencode key text mode k m v =
    let sk = des_main_ks key in
    let (enc, r, w) =
      encode_blocks-Encoded sk (des_main_ks-IsEven key) mode (length text + 1) text m (omega arith)
        v in
    let a : (length key == 8) ≡ true = ground arith in
    (enc, rw a r, decode-Encoded key text enc mode m k w)
