-- ===== src/Crypt/Base64/RoundTrip.antt =====
-- lualib-src/lua-crypt.c: what `lb64encode` prints, `lb64decode` reads back.
use ue4_background.Crypt.Base64.{
  Ending, write_codes, written, finished, bits, is_mark, decode_fours, four_codes, keep_code,
  lb64decode, lb64encode, count_marks, next_codes, digit, b64index,
}
use ue4_background.Crypt.{◌>>=◌, Outcome, AllBytes, ok}
use native.Mathlib.Nat.{eq-or-lt_of_le}
use ue4_background.Crypt.Base64.Tables.{decoding, other, mark, sextet, Code}
use ue4_background.Prelude.{
  ℕ, zero, suc, ◌+◌, ◌*◌, ◌/◌, ◌%◌, ◌^◌, ◌≤◌, ◌<◌, ◌≡◌, refl, ap, ap₂, ◌∙◌, inl, inr, Bool, true,
  false, ◌&&◌, some, List, [], ◌∷◌, ◌++◌, arith, ◌==◌, length,
}

-- A test that holds of the first `n` numbers holds of each.
unfoldable all_below : ℕ → (ℕ → Bool) → Bool
all_below zero f = true
all_below (suc n) f = f n && all_below n f

all_below-holds : (n : ℕ) (f : ℕ → Bool) → all_below n f ≡ true → (i : ℕ) → i < n → f i ≡ true
unfolding all_below
all_below-holds zero f e i l = absurd (omega arith)
all_below-holds (suc n) f e i l =
    let a : f n ≡ true = ground arith in
    let b : all_below n f ≡ true = ground arith in
    elim (eq-or-lt_of_le (omega arith)) [ inl q ↦ ap f q ∙ a | inr q ↦ all_below-holds n f b i q ]

unfoldable is_sextet : ℕ → Code → Bool
is_sextet k (sextet n) = n == k
is_sextet k mark = false
is_sextet k other = false

is_sextet-sextet : (k : ℕ) (c : Code) → is_sextet k c ≡ true → c ≡ sextet k
unfolding is_sextet
is_sextet-sextet k (sextet n) e = ap sextet (ground arith)
is_sextet-sextet k mark e = absurd (ground arith)
is_sextet-sextet k other e = absurd (ground arith)

b64index-digit : (k : ℕ) → k < 64 → b64index (digit k) ≡ sextet k
unfolding all_below b64index digit is_sextet decoding
b64index-digit k l =
    is_sextet-sextet k (b64index (digit k))
      (all_below-holds 64 (λ i. is_sextet i (b64index (digit i))) refl k l)

abbrev IsCode : Code → Type 0
IsCode (sextet k) = Unit {0}
IsCode mark = Unit {0}
IsCode other = ⊥

-- A character with a code `c`, in front of a text with the codes `w`.
module _ (n : ℕ) (text : List ℕ) (w : List Code × List ℕ) (e : next_codes n text ≡ ok w) where
  keep : Code → Outcome (List Code × List ℕ)
  keep c = next_codes n text >>= λ u. ok (keep_code c u)

  keep_by_code :
      (c : Code)
      → IsCode c
      → elim c as (λ u. Outcome (List Code × List ℕ)) [
        | other ↦ next_codes (suc n) text
        | mark ↦ keep mark
        | sextet k ↦ keep (sextet k)
      ]
        ≡ keep c
  keep_by_code (sextet k) h = refl
  keep_by_code mark h = refl
  keep_by_code other h = absurd h

  next_codes-code :
      (x : ℕ) (c : Code)
      → b64index x ≡ c
      → IsCode c
      → next_codes (suc n) (x ∷ text) ≡ ok (keep_code c w)
  unfolding next_codes keep
  next_codes-code x c f h =
      ap
        (λ d. elim d as (λ u. Outcome (List Code × List ℕ)) [
          | other ↦ next_codes (suc n) text
          | mark ↦ keep mark
          | sextet k ↦ keep (sextet k)
        ])
        f
      ∙ keep_by_code c h
      ∙ ap (λ r. r >>= λ u. ok (keep_code c u)) e

-- Four characters with codes that are decoded as `out`, in front of a text.
decode_four :
    (x y z w g : ℕ) (a b c d : Code) (text out rest : List ℕ)
    → (b64index x ≡ a) × IsCode a
    → (b64index y ≡ b) × IsCode b
    → (b64index z ≡ c) × IsCode c
    → (b64index w ≡ d) × IsCode d
    → four_codes (a ∷ b ∷ c ∷ d ∷ []) ≡ ok out
    → decode_fours g text ≡ (rest, finished)
    → decode_fours (suc g) (x ∷ y ∷ z ∷ w ∷ text) ≡ (out ++ rest, finished)
unfolding decode_fours next_codes write_codes
decode_four x y z w g a b c d text out rest p q r s f h =
    let one = next_codes-code 0 text ([], text) refl w d s.0 s.1 in
    let two = next_codes-code 1 (w ∷ text) (d ∷ [], text) one z c r.0 r.1 in
    let three = next_codes-code 2 (z ∷ w ∷ text) (c ∷ d ∷ [], text) two y b q.0 q.1 in
    let four = next_codes-code 3 (y ∷ z ∷ w ∷ text) (b ∷ c ∷ d ∷ [], text) three x a p.0 p.1 in
    let n : (suc (suc (suc (suc (length text)))) == 0) ≡ false = ground arith in
    rw (n, four, f, h) refl

three_bytes :
    (a b c : ℕ)
    → a < 256
    → b < 256
    → c < 256
    → let v = a * 2 ^ 16 + b * 2 ^ 8 + c in
      four_codes (
        sextet (v / 2 ^ 18)
        ∷ sextet (v / 2 ^ 12 % 64)
        ∷ sextet (v / 2 ^ 6 % 64)
        ∷ sextet (v % 64)
        ∷ [])
      ≡ ok (a ∷ b ∷ c ∷ [])
unfolding four_codes count_marks is_mark bits
three_bytes a b c l m n =
    ap ok (ap₂ (λ x xs. x ∷ xs) (omega arith) (ap₂ (λ x y. x ∷ y ∷ []) (omega arith) (omega arith)))

two_bytes :
    (a b : ℕ)
    → a < 256
    → b < 256
    → let v = a * 2 ^ 8 + b in
      four_codes (sextet (v / 2 ^ 10) ∷ sextet (v / 2 ^ 4 % 64) ∷ sextet (v % 16 * 4) ∷ mark ∷ [])
      ≡ ok (a ∷ b ∷ [])
unfolding four_codes count_marks is_mark bits
two_bytes a b l m =
    let v = a * 2 ^ 8 + b in
    let z : (v % 16 * 4 % 4 == 0) ≡ true = ground arith in
    rw z (ap ok (ap₂ (λ x y. x ∷ y ∷ []) (omega arith) (omega arith)))

one_byte :
    (a : ℕ)
    → a < 256
    → four_codes (sextet (a / 4) ∷ sextet (a % 4 * 16) ∷ mark ∷ mark ∷ []) ≡ ok (a ∷ [])
unfolding four_codes count_marks is_mark bits
one_byte a l =
    let z : (a % 4 * 16 % 16 == 0) ≡ true = ground arith in
    rw z (ap (λ x. ok (x ∷ [])) (omega arith))

code : (k : ℕ) → k < 64 → (b64index (digit k) ≡ sextet k) × IsCode (sextet k)
code k l = (b64index-digit k l, tt)

equals : (b64index 61 ≡ mark) × IsCode mark
unfolding b64index decoding
equals = (refl, tt)

decode_nothing : (g : ℕ) → decode_fours g [] ≡ ([], finished)
unfolding decode_fours
decode_nothing zero = refl
decode_nothing (suc g) = refl

decode_fours-lb64encode :
    (bs : List ℕ) (g : ℕ)
    → AllBytes bs
    → length (lb64encode bs) ≤ g
    → decode_fours g (lb64encode bs) ≡ (bs, finished)
unfolding lb64encode
decode_fours-lb64encode [] zero v l = decode_nothing 0
decode_fours-lb64encode [] (suc g) v l = decode_nothing (suc g)
decode_fours-lb64encode (a ∷ []) zero v l = absurd (omega arith)
decode_fours-lb64encode (a ∷ b ∷ []) zero v l = absurd (omega arith)
decode_fours-lb64encode (a ∷ b ∷ c ∷ text) zero v l = absurd (omega arith)
decode_fours-lb64encode (a ∷ []) (suc g) v l =
    decode_four (digit (a / 4)) (digit (a % 4 * 16)) 61 61 g _ _ _ _ [] _ []
      (code (a / 4) (omega (arith, v.0))) (code (a % 4 * 16) (omega arith)) equals equals
      (one_byte a v.0) (decode_nothing g)
decode_fours-lb64encode (a ∷ b ∷ []) (suc g) v l =
    let w = a * 2 ^ 8 + b in
    decode_four (digit (w / 2 ^ 10)) (digit (w / 2 ^ 4 % 64)) (digit (w % 16 * 4)) 61 g _ _ _ _ [] _
      [] (code (w / 2 ^ 10) (omega (arith, v.0, v.1.0))) (code (w / 2 ^ 4 % 64) (omega arith))
      (code (w % 16 * 4) (omega arith)) equals (two_bytes a b v.0 v.1.0) (decode_nothing g)
decode_fours-lb64encode (a ∷ b ∷ c ∷ text) (suc g) v l =
    let w = a * 2 ^ 16 + b * 2 ^ 8 + c in
    decode_four (digit (w / 2 ^ 18)) (digit (w / 2 ^ 12 % 64)) (digit (w / 2 ^ 6 % 64))
      (digit (w % 64)) g _ _ _ _ (lb64encode text) _ text
      (code (w / 2 ^ 18) (omega (arith, v.0, v.1.0, v.1.1.0)))
      (code (w / 2 ^ 12 % 64) (omega arith)) (code (w / 2 ^ 6 % 64) (omega arith))
      (code (w % 64) (omega arith)) (three_bytes a b c v.0 v.1.0 v.1.1.0)
      (decode_fours-lb64encode text g v.1.1.1 (omega arith))

-- What `lb64encode` makes of bytes, `lb64decode` turns back.
pub lb64decode-lb64encode : (bs : List ℕ) → AllBytes bs → lb64decode (lb64encode bs) ≡ some (ok bs)
unfolding lb64decode written
lb64decode-lb64encode bs v =
    let e = decode_fours-lb64encode bs (length (lb64encode bs)) v (omega arith) in
    rw (lb64decode, e) (ap (λ (u : List ℕ × Ending). some (ok u.0)) e)
