-- ===== src/Crypt/Hex.antt =====
-- lualib-src/lua-crypt.c: bytes in hexadecimal.
use ue4_background.Crypt.Bits.{bit_or_zero, bit_or_two}
use ue4_background.Crypt.{AllBytes, ◌>>=◌, invalid, ok, Outcome}
use Prim.Native.Nat.{bit_or}
use ue4_background.Prelude.{
  ℕ, ◌+◌, ◌-◌, ◌*◌, ◌/◌, ◌%◌, ◌<◌, ◌≡◌, refl, ap, true, false, ◌&&◌, ◌||◌, List, [], ◌∷◌, arith,
  ltb, leb, ◌==◌, if◌then◌else◌, length,
}

-- `hex`, of a number below 16.
unfoldable pub hex_digit : ℕ → ℕ
hex_digit n = if ltb n 10 then 48 + n else 87 + n

-- `ltohex`
unfoldable pub ltohex : List ℕ → List ℕ
ltohex [] = []
ltohex (b ∷ bs) = hex_digit (b / 16) ∷ hex_digit (b % 16) ∷ ltohex bs

-- `HEX`: the value of a character in a `uint8_t`.
unfoldable pub hex_value : ℕ → ℕ
hex_value c = if leb 48 c && leb c 57 then c - 48 else (c + 256 - 87) % 256

-- The loop of `lfromhex`, two characters a round; `hi << 4` is cut to the byte of `buffer`.
unfoldable pub from_pairs : List ℕ → Outcome (List ℕ)
from_pairs [] = ok []
from_pairs (x ∷ []) = invalid
from_pairs (x ∷ y ∷ text) =
    let hi = hex_value x in
    let low = hex_value y in
    let rest = from_pairs text >>= λ bs. ok (bit_or (hi * 16 % 256) low ∷ bs) in
    if ltb 16 hi || ltb 16 low then invalid else rest

-- `lfromhex`
unfoldable pub lfromhex : List ℕ → Outcome (List ℕ)
lfromhex text = if length text % 2 == 0 then from_pairs text else invalid

hex_value-hex_digit : (n : ℕ) → n < 16 → hex_value (hex_digit n) ≡ n
unfolding hex_value hex_digit
hex_value-hex_digit n l = ground arith

-- A byte of two digits.
or_digits : (hi low : ℕ) → hi < 16 → low < 16 → bit_or (hi * 16 % 256) low ≡ hi * 16 + low
or_digits hi low l m =
    let h : hi * 16 % 256 ≡ 2 * (2 * (2 * (2 * hi))) = omega arith in
    let z : low / 2 / 2 / 2 / 2 ≡ 0 = omega arith in
    rw h (
      omega (
        arith,
        bit_or_two (2 * (2 * (2 * hi))) low,
        bit_or_two (2 * (2 * hi)) (low / 2),
        bit_or_two (2 * hi) (low / 2 / 2),
        bit_or_two hi (low / 2 / 2 / 2),
        ap (bit_or hi) z,
        bit_or_zero hi,
      ))

length-ltohex : (bs : List ℕ) → length (ltohex bs) ≡ 2 * length bs
unfolding ltohex
length-ltohex [] = refl
length-ltohex (b ∷ bs) = omega (arith, length-ltohex bs)

from_pairs-ltohex : (bs : List ℕ) → AllBytes bs → from_pairs (ltohex bs) ≡ ok bs
unfolding from_pairs ltohex
from_pairs-ltohex [] v = refl
from_pairs-ltohex (b ∷ bs) v =
    let hi = b / 16 in
    let low = b % 16 in
    let h : hi < 16 = omega (arith, v.0) in
    let e = or_digits hi low h (omega arith) in
    let f : hi * 16 + low ≡ b = omega arith in
    let x : ltb 16 hi ≡ false = ground arith in
    let y : ltb 16 low ≡ false = ground arith in
    rw
      (
        hex_value-hex_digit hi h,
        hex_value-hex_digit low (omega arith),
        x,
        y,
        from_pairs-ltohex bs v.1,
        e,
        f,
      )
      refl

-- What `ltohex` prints of bytes, `lfromhex` reads back.
pub lfromhex-ltohex : (bs : List ℕ) → AllBytes bs → lfromhex (ltohex bs) ≡ ok bs
unfolding lfromhex
lfromhex-ltohex bs v =
    let e : (length (ltohex bs) % 2 == 0) ≡ true = ground (arith, length-ltohex bs) in
    rw e (from_pairs-ltohex bs v)
