-- ===== src/Crypt/Des/Keys.antt =====
-- lualib-src/lua-crypt.c: the subkeys of the DES cipher.
use ue4_background.Crypt.Des.Tables.{rhs, lhs}
use ue4_background.Crypt.Des.{shr, exchange, get_uint32, shl}
use Prim.Native.Nat.{bit_and, bit_or}
use ue4_background.Prelude.{
  ℕ, zero, suc, ◌-◌, ◌%◌, ◌^◌, ◌||◌, List, [], ◌∷◌, ltb, ◌==◌, if◌then◌else◌, get_or,
}

abbrev any_of : List ℕ → ℕ
any_of [] = 0
any_of (x ∷ xs) = bit_or x (any_of xs)

-- Permuted choice 1, of X and Y.
unfoldable pub permuted_choice : ℕ × ℕ → ℕ × ℕ
unfolding exchange
permuted_choice (x0, y0) =
    let (y, x) = exchange 0 0x10101010 (exchange 4 0x0f0f0f0f (y0, x0)) in
    let x' = any_of (
      shl (get_or lhs (shr x 0 % 16) 0) 3
      ∷ shl (get_or lhs (shr x 8 % 16) 0) 2
      ∷ shl (get_or lhs (shr x 16 % 16) 0) 1
      ∷ shl (get_or lhs (shr x 24 % 16) 0) 0
      ∷ shl (get_or lhs (shr x 5 % 16) 0) 7
      ∷ shl (get_or lhs (shr x 13 % 16) 0) 6
      ∷ shl (get_or lhs (shr x 21 % 16) 0) 5
      ∷ shl (get_or lhs (shr x 29 % 16) 0) 4
      ∷ []) in
    let y' = any_of (
      shl (get_or rhs (shr y 1 % 16) 0) 3
      ∷ shl (get_or rhs (shr y 9 % 16) 0) 2
      ∷ shl (get_or rhs (shr y 17 % 16) 0) 1
      ∷ shl (get_or rhs (shr y 25 % 16) 0) 0
      ∷ shl (get_or rhs (shr y 4 % 16) 0) 7
      ∷ shl (get_or rhs (shr y 12 % 16) 0) 6
      ∷ shl (get_or rhs (shr y 20 % 16) 0) 5
      ∷ shl (get_or rhs (shr y 28 % 16) 0) 4
      ∷ []) in
    (x' % 2 ^ 28, y' % 2 ^ 28)

-- One of the 28-bit halves, turned by one or two bits.
unfoldable pub turn : ℕ → ℕ → ℕ
turn i x =
    if ltb i 2 || i == 8 || i == 15
    then bit_or (shl x 1) (shr x 27) % 2 ^ 28
    else bit_or (shl x 2) (shr x 26) % 2 ^ 28

unfoldable pub subkey_even : ℕ × ℕ → ℕ
subkey_even (x, y) = any_of (
    bit_and (shl x 4) 0x24000000
    ∷ bit_and (shl x 28) 0x10000000
    ∷ bit_and (shl x 14) 0x08000000
    ∷ bit_and (shl x 18) 0x02080000
    ∷ bit_and (shl x 6) 0x01000000
    ∷ bit_and (shl x 9) 0x00200000
    ∷ bit_and (shr x 1) 0x00100000
    ∷ bit_and (shl x 10) 0x00040000
    ∷ bit_and (shl x 2) 0x00020000
    ∷ bit_and (shr x 10) 0x00010000
    ∷ bit_and (shr y 13) 0x00002000
    ∷ bit_and (shr y 4) 0x00001000
    ∷ bit_and (shl y 6) 0x00000800
    ∷ bit_and (shr y 1) 0x00000400
    ∷ bit_and (shr y 14) 0x00000200
    ∷ bit_and y 0x00000100
    ∷ bit_and (shr y 5) 0x00000020
    ∷ bit_and (shr y 10) 0x00000010
    ∷ bit_and (shr y 3) 0x00000008
    ∷ bit_and (shr y 18) 0x00000004
    ∷ bit_and (shr y 26) 0x00000002
    ∷ bit_and (shr y 24) 0x00000001
    ∷ [])

unfoldable pub subkey_odd : ℕ × ℕ → ℕ
subkey_odd (x, y) = any_of (
    bit_and (shl x 15) 0x20000000
    ∷ bit_and (shl x 17) 0x10000000
    ∷ bit_and (shl x 10) 0x08000000
    ∷ bit_and (shl x 22) 0x04000000
    ∷ bit_and (shr x 2) 0x02000000
    ∷ bit_and (shl x 1) 0x01000000
    ∷ bit_and (shl x 16) 0x00200000
    ∷ bit_and (shl x 11) 0x00100000
    ∷ bit_and (shl x 3) 0x00080000
    ∷ bit_and (shr x 6) 0x00040000
    ∷ bit_and (shl x 15) 0x00020000
    ∷ bit_and (shr x 4) 0x00010000
    ∷ bit_and (shr y 2) 0x00002000
    ∷ bit_and (shl y 8) 0x00001000
    ∷ bit_and (shr y 14) 0x00000808
    ∷ bit_and (shr y 9) 0x00000400
    ∷ bit_and y 0x00000200
    ∷ bit_and (shl y 7) 0x00000100
    ∷ bit_and (shr y 7) 0x00000020
    ∷ bit_and (shr y 3) 0x00000011
    ∷ bit_and (shl y 2) 0x00000004
    ∷ bit_and (shr y 21) 0x00000002
    ∷ [])

-- The loop that calculates the subkeys, with the rounds left.
unfoldable pub subkeys : ℕ → ℕ × ℕ → List (ℕ × ℕ)
unfolding turn subkey_even subkey_odd
subkeys zero w = []
subkeys (suc left) (x, y) =
    let w : ℕ × ℕ = (turn (15 - left) x, turn (15 - left) y) in
    (subkey_even w, subkey_odd w) ∷ subkeys left w

-- `des_main_ks`, of a key of eight bytes.
unfoldable pub des_main_ks : List ℕ → List (ℕ × ℕ)
unfolding subkeys permuted_choice get_uint32
des_main_ks key = subkeys 16 (permuted_choice (get_uint32 key 0, get_uint32 key 4))
