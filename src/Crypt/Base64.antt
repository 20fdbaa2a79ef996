-- ===== src/Crypt/Base64.antt =====
-- lualib-src/lua-crypt.c: texts in base 64, while their length is an int.
pub mod Tables
pub mod RoundTrip
pub mod Bounds
use ue4_background.Crypt.{overrun, invalid, ok, Outcome, ◌>>=◌}
use ue4_background.Crypt.Base64.Tables.{decoding, mark, other, sextet, Code, encoding}
use ue4_background.Prelude.{
  ℕ, zero, suc, ◌+◌, ◌-◌, ◌*◌, ◌/◌, ◌%◌, ◌^◌, ap, Bool, true, false, not, ◌||◌, Option, none, some,
  List, [], ◌∷◌, ◌++◌, ltb, ◌==◌, if◌then◌else◌, length, get_or, count,
}

-- `encoding[v]`
unfoldable pub digit : ℕ → ℕ
unfolding encoding
digit v = get_or encoding v 0

-- `lb64encode`. The parts of `v` do not overlap, so `|` is a sum.
unfoldable pub lb64encode : List ℕ → List ℕ
lb64encode [] = []
lb64encode (a ∷ []) = digit (a / 4) ∷ digit (a % 4 * 16) ∷ 61 ∷ 61 ∷ []
lb64encode (a ∷ b ∷ []) =
    let v = a * 2 ^ 8 + b in
    digit (v / 2 ^ 10) ∷ digit (v / 2 ^ 4 % 64) ∷ digit (v % 16 * 4) ∷ 61 ∷ []
lb64encode (a ∷ b ∷ c ∷ text) =
    let v = a * 2 ^ 16 + b * 2 ^ 8 + c in
    digit (v / 2 ^ 18)
    ∷ digit (v / 2 ^ 12 % 64)
    ∷ digit (v / 2 ^ 6 % 64)
    ∷ digit (v % 64)
    ∷ lb64encode text

-- `b64index`
unfoldable pub b64index : ℕ → Code
b64index c = if ltb c 43 then other else get_or decoding (c - 43) other

-- A code, in front of those that follow it.
abbrev pub keep_code : Code → List Code × List ℕ → List Code × List ℕ
keep_code c w = (c ∷ w.0, w.1)

-- The inner loop of `lb64decode`: the codes of the next `n` characters that have one, and what is left.
unfoldable pub next_codes : (n : ℕ) → List ℕ → Outcome (List Code × List ℕ)
next_codes zero text = ok ([], text)
next_codes (suc n) [] = invalid
next_codes (suc n) (x ∷ text) = elim (b64index x) [
  | other ↦ next_codes (suc n) text
  | mark ↦ next_codes n text >>= λ w. ok (keep_code mark w)
  | sextet k ↦ next_codes n text >>= λ w. ok (keep_code (sextet k) w)
]

-- `c[j] == -2`, and the six bits of a code that is not -2.
unfoldable pub is_mark : Code → Bool
is_mark (sextet k) = false
is_mark mark = true
is_mark other = false

unfoldable pub bits : Code → ℕ
bits (sextet k) = k
bits mark = 0
bits other = 0

unfoldable pub count_marks : List Code → ℕ
count_marks [] = 0
count_marks (c ∷ cs) = (if is_mark c then 1 else 0) + count_marks cs

-- The bytes of four codes, as the cases on `padding` have them. The parts of `v` do not overlap, so `|` is a sum.
unfoldable pub four_codes : List Code → Outcome (List ℕ)
four_codes cs =
    let c0 = bits (get_or cs 0 other) in
    let c1 = bits (get_or cs 1 other) in
    let c2 = bits (get_or cs 2 other) in
    let c3 = bits (get_or cs 3 other) in
    let padding = count_marks cs in
    if padding == 0
    then (let v = c0 * 2 ^ 18 + c1 * 2 ^ 12 + c2 * 2 ^ 6 + c3 in
        ok (v / 2 ^ 16 ∷ v / 2 ^ 8 % 256 ∷ v % 256 ∷ []))
    else (if padding == 1
        then (let v = c0 * 2 ^ 10 + c1 * 2 ^ 4 + c2 / 4 in
            if not (is_mark (get_or cs 3 other)) || not (c2 % 4 == 0)
            then invalid
            else ok (v / 2 ^ 8 ∷ v % 256 ∷ []))
        else (if padding == 2
            then (let v = c0 * 2 ^ 2 + c1 / 16 in
                if not (is_mark (get_or cs 3 other))
                  || not (is_mark (get_or cs 2 other))
                  || not (c1 % 16 == 0)
                then invalid
                else ok (v ∷ []))
            else invalid))

-- How the loop of `lb64decode` comes to its end; `unfinished` has no counterpart in the program.
pub data Ending : Type 0 where
  finished refused unfinished : Ending

-- The bytes of four codes, in front of what the following rounds write.
unfoldable pub write_codes : Outcome (List ℕ) → List ℕ × Ending → List ℕ × Ending
write_codes (ok bs) rest = (bs ++ rest.0, rest.1)
write_codes invalid rest = ([], refused)
write_codes overrun rest = ([], refused)

-- The loop of `lb64decode`, in at most `fuel` rounds: what is written to `buffer`, and how it ends.
unfoldable pub decode_fours : (fuel : ℕ) → List ℕ → List ℕ × Ending
decode_fours zero text = ([], if length text == 0 then finished else unfinished)
decode_fours (suc fuel) text =
    let more : List ℕ × Ending = elim (next_codes 4 text) [
      | ok w ↦ write_codes (four_codes w.0) (decode_fours fuel w.1)
      | invalid ↦ ([], refused)
      | overrun ↦ ([], refused)
    ] in
    if length text == 0 then ([], finished) else more

-- `decode_sz`
unfoldable pub decode_size : ℕ → ℕ
decode_size sz = (sz + 3) / 4 * 3

-- What `lb64decode` writes to its buffer, in rounds as many as bytes.
unfoldable pub written : List ℕ → List ℕ
written text = (decode_fours (length text) text).0

-- `lb64decode`; `none` is a loop that has not ended after as many rounds as bytes.
unfoldable pub lb64decode : List ℕ → Option (Outcome (List ℕ))
lb64decode text = elim (decode_fours (length text) text).1 [
  | finished ↦ some (ok (written text))
  | refused ↦ some invalid
  | unfinished ↦ none
]
