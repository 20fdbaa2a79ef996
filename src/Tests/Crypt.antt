-- ===== src/Tests/Crypt.antt =====
-- lualib-src/lua-crypt.c at work.
use ue4_background.Crypt.{invalid, ok, overrun, AllBytes}
use ue4_background.Crypt.Base64.Bounds.{length-written, lb64decode-ends}
use ue4_background.Crypt.Base64.{
  decode_size, write_codes, written, bits, is_mark, count_marks, b64index, four_codes, lb64encode,
  next_codes, decode_fours, lb64decode,
}
use ue4_background.Crypt.Powmod.{
  twice_mod_p, add_mod_p, mul_loop, ldhsecret, mul_mod_p, pow_mod_p, prime, ldhexchange, powmodp,
  word_of,
}
use ue4_background.Crypt.Base64.Tables.{decoding}
use ue4_background.Crypt.Powmod.Agreement.{ldhsecret-ldhexchange, IsKey}
use ue4_background.Crypt.Text.RoundTrip.{ldesdecode-ldesencode}
use ue4_background.Crypt.Text.{ldesdecode, ldesencode}
use ue4_background.Crypt.Hex.{hex_value, lfromhex-ltohex, from_pairs, ltohex, lfromhex}
use ue4_background.Crypt.Random.{lrandomkey-IsKey, lrandomkey}
use ue4_background.Crypt.Powmod.Power.{powmodp_lem}
use ue4_background.Crypt.Base64.RoundTrip.{lb64decode-lb64encode}
use ue4_background.Crypt.Padding.{remove_padding}
use ue4_background.Crypt.Des.{rotate_right, rotate_left, des_crypt}
use ue4_background.Crypt.Des.Keys.{des_main_ks}
use ue4_background.Prelude.{
  ℕ, ◌%◌, ◌^◌, ◌≤◌, ◌<◌, ◌≡◌, refl, ◌≢◌, Bool, true, false, none, some, List, [], ◌∷◌, arith, ltb,
  if◌then◌else◌, length,
}

-- The example of the standard.
abbrev key : List ℕ
key = 0x13 ∷ 0x34 ∷ 0x57 ∷ 0x79 ∷ 0x9b ∷ 0xbc ∷ 0xdf ∷ 0xf1 ∷ []

abbrev block : List ℕ
block = 0x01 ∷ 0x23 ∷ 0x45 ∷ 0x67 ∷ 0x89 ∷ 0xab ∷ 0xcd ∷ 0xef ∷ []

des_standard :
    des_crypt (des_main_ks key) block ≡ 0x85 ∷ 0xe8 ∷ 0x13 ∷ 0x54 ∷ 0x0f ∷ 0x0a ∷ 0xb4 ∷ 0x05 ∷ []
unfolding des_crypt des_main_ks rotate_right rotate_left
des_standard = refl

abbrev text : List ℕ
text = 104 ∷ 101 ∷ 108 ∷ 108 ∷ 111 ∷ 44 ∷ 32 ∷ 119 ∷ 111 ∷ 114 ∷ []

unfoldable test_bytes : List ℕ → Bool
test_bytes [] = true
test_bytes (b ∷ bs) = if ltb b 256 then test_bytes bs else false

tested-AllBytes : (bs : List ℕ) → test_bytes bs ≡ true → AllBytes bs
unfolding test_bytes
tested-AllBytes [] e = tt
tested-AllBytes (b ∷ bs) e =
    let small : b < 256 = ground arith in (small, tested-AllBytes bs (ground arith))

text-AllBytes : AllBytes text
unfolding test_bytes
text-AllBytes = tested-AllBytes text refl

ldesdecode-ldesencode_example :
    (enc : List ℕ) × (ldesencode key text 1 ≡ ok enc) × (ldesdecode key enc 1 ≡ ok text)
ldesdecode-ldesencode_example = ldesdecode-ldesencode key text 1 refl (omega arith) text-AllBytes

-- A block of eight bytes 200: the loop of `padding_remove_pkcs7` looks in front of it.
padding_overrun : remove_padding 1 (200 ∷ 200 ∷ 200 ∷ 200 ∷ 200 ∷ 200 ∷ 200 ∷ 200 ∷ []) ≡ overrun
unfolding remove_padding
padding_overrun = refl

abbrev own_key : List ℕ
own_key = 3 ∷ 0 ∷ 0 ∷ 0 ∷ 0 ∷ 0 ∷ 0 ∷ 128 ∷ []

abbrev other_key : List ℕ
other_key = 0 ∷ 7 ∷ 0 ∷ 0 ∷ 0 ∷ 0 ∷ 0 ∷ 0 ∷ []

own_key-IsKey : IsKey own_key
unfolding word_of test_bytes
own_key-IsKey = record { bytes = tested-AllBytes own_key refl; size = refl; nonzero = omega arith }

other_key-IsKey : IsKey other_key
unfolding word_of test_bytes
other_key-IsKey = record {
  bytes = tested-AllBytes other_key refl;
  size = refl;
  nonzero = omega arith;
}

ldhsecret-ldhexchange_example :
    (a b secret : List ℕ) × (ldhexchange own_key ≡ some (ok a))
    × (ldhexchange other_key ≡ some (ok b))
    × (ldhsecret a other_key ≡ some (ok secret))
    × (ldhsecret b own_key ≡ some (ok secret))
ldhsecret-ldhexchange_example =
    ldhsecret-ldhexchange own_key other_key own_key-IsKey other_key-IsKey

powmodp_lem_example : powmodp 7 (2 ^ 63) ≡ some (7 ^ (2 ^ 63) % prime)
powmodp_lem_example = powmodp_lem 7 (2 ^ 63) (omega arith) (omega arith) (omega arith) (omega arith)

-- The prime itself is not reduced.
powmodp_at_prime : powmodp prime 1 ≡ some prime
unfolding powmodp pow_mod_p
powmodp_at_prime = refl

powmodp_small : powmodp 7 5 ≡ some 16807
unfolding powmodp pow_mod_p mul_mod_p mul_loop add_mod_p twice_mod_p
powmodp_small = refl

lb64decode-lb64encode_example : lb64decode (lb64encode text) ≡ some (ok text)
lb64decode-lb64encode_example = lb64decode-lb64encode text text-AllBytes

-- The line feed has no code; the text is refused for the missing characters at its end.
abbrev encoded : List ℕ
encoded = 97 ∷ 71 ∷ 10 ∷ 86 ∷ 115 ∷ 97 ∷ []

encoded_refused : (written encoded ≡ 104 ∷ 101 ∷ 108 ∷ []) × (lb64decode encoded ≡ some invalid)
unfolding lb64decode written decode_fours next_codes four_codes b64index decoding count_marks
    is_mark bits write_codes
encoded_refused = (refl, refl)

length-written_example : length (written encoded) ≤ decode_size (length encoded)
length-written_example = length-written encoded

lb64decode-ends_example : lb64decode encoded ≢ none
lb64decode-ends_example = lb64decode-ends encoded

lfromhex-ltohex_example : lfromhex (ltohex text) ≡ ok text
lfromhex-ltohex_example = lfromhex-ltohex text text-AllBytes

-- `lfromhex` takes a `g` for a digit.
hex_takes_g : lfromhex (103 ∷ 49 ∷ []) ≡ ok (1 ∷ [])
unfolding lfromhex from_pairs hex_value
hex_takes_g = refl

lrandomkey-IsKey_example : IsKey (lrandomkey (λ i. 0))
lrandomkey-IsKey_example = lrandomkey-IsKey (λ i. 0)
