-- ===== src/Crypt/Des.antt =====
-- lualib-src/lua-crypt.c: the DES cipher. Words have 32 bits.
pub mod Tables
pub mod Keys
pub mod Inverse
pub mod Rounds
pub mod Block
use ue4_background.Crypt.Des.Tables.{sb1, sb3, sb5, sb7, sb2, sb4, sb6, sb8}
use Prim.Native.Nat.{bit_and, bit_or, bit_xor}
use ue4_background.Prelude.{
  ℕ, ◌+◌, ◌-◌, ◌*◌, ◌/◌, ◌%◌, ◌^◌, ◌<◌, ap, not, List, [], ◌∷◌, ◌++◌, get_or,
}

abbrev pub u32 : ℕ
u32 = 2 ^ 32

-- `x << k` and `x >> k` of a `uint32_t`.
abbrev pub shl : ℕ → ℕ → ℕ
shl x k = x * 2 ^ k % u32

abbrev pub shr : ℕ → ℕ → ℕ
shr x k = x / 2 ^ k

-- `GET_UINT32`, of four bytes: the parts do not overlap, so `|` is a sum.
unfoldable pub get_uint32 : List ℕ → ℕ → ℕ
get_uint32 b i =
    get_or b i 0 * 2 ^ 24
    + get_or b (i + 1) 0 * 2 ^ 16
    + get_or b (i + 2) 0 * 2 ^ 8
    + get_or b (i + 3) 0

-- `PUT_UINT32`
unfoldable pub put_uint32 : ℕ → List ℕ
put_uint32 n = shr n 24 % 256 ∷ shr n 16 % 256 ∷ shr n 8 % 256 ∷ n % 256 ∷ []

-- `T = ((A >> k) ^ B) & mask; B ^= T; A ^= (T << k);`
unfoldable pub exchange : (k mask : ℕ) → ℕ × ℕ → ℕ × ℕ
exchange k mask (a, b) =
    let t = bit_and (bit_xor (shr a k) b) mask in (bit_xor a (shl t k), bit_xor b t)

-- `((X << 1) | (X >> 31)) & 0xFFFFFFFF` and `((X << 31) | (X >> 1)) & 0xFFFFFFFF`; the parts do not overlap.
unfoldable pub rotate_left : ℕ → ℕ
rotate_left x = shl x 1 + shr x 31

unfoldable pub rotate_right : ℕ → ℕ
rotate_right x = shl x 31 + shr x 1

abbrev pub swap : ℕ × ℕ → ℕ × ℕ
swap w = (w.1, w.0)

-- The lines of `DES_IP` and of `DES_FP`: those that shift X, those that shift Y, and those that turn X
-- and Y.
unfoldable pub ip_x : ℕ × ℕ → ℕ × ℕ
ip_x w = exchange 16 0x0000ffff (exchange 4 0x0f0f0f0f w)

unfoldable pub ip_y : ℕ × ℕ → ℕ × ℕ
ip_y w = swap (exchange 8 0x00ff00ff (exchange 2 0x33333333 (swap w)))

unfoldable pub ip_turn : ℕ × ℕ → ℕ × ℕ
ip_turn w = let u = exchange 0 0xaaaaaaaa (w.0, rotate_left w.1) in (rotate_left u.0, u.1)

unfoldable pub fp_turn : ℕ × ℕ → ℕ × ℕ
fp_turn w = let u = exchange 0 0xaaaaaaaa (rotate_right w.0, w.1) in (u.0, rotate_right u.1)

unfoldable pub fp_y : ℕ × ℕ → ℕ × ℕ
fp_y w = swap (exchange 2 0x33333333 (exchange 8 0x00ff00ff (swap w)))

unfoldable pub fp_x : ℕ × ℕ → ℕ × ℕ
fp_x w = exchange 4 0x0f0f0f0f (exchange 16 0x0000ffff w)

-- `DES_IP`, of X and Y.
unfoldable pub des_ip : ℕ × ℕ → ℕ × ℕ
unfolding ip_x ip_y ip_turn
des_ip w = ip_turn (ip_y (ip_x w))

-- `DES_FP`, of X and Y.
unfoldable pub des_fp : ℕ × ℕ → ℕ × ℕ
unfolding fp_turn fp_y fp_x
des_fp w = fp_x (fp_y (fp_turn w))

abbrev pub s_box : List ℕ → ℕ → ℕ → ℕ
s_box box t k = get_or box (shr t k % 64) 0

-- What `DES_ROUND` adds to Y for X, with the first and with the second subkey at `SK`.
unfoldable pub mix_even : ℕ → ℕ → ℕ
mix_even k x =
    let t = bit_xor k x in
    bit_xor (bit_xor (bit_xor (s_box sb8 t 0) (s_box sb6 t 8)) (s_box sb4 t 16)) (s_box sb2 t 24)

unfoldable pub mix_odd : ℕ → ℕ → ℕ
mix_odd k x =
    let t = bit_xor k (shl x 28 + shr x 4) in
    bit_xor (bit_xor (bit_xor (s_box sb7 t 0) (s_box sb5 t 8)) (s_box sb3 t 16)) (s_box sb1 t 24)

-- `DES_ROUND(X,Y)`: the new Y.
unfoldable pub des_round : ℕ × ℕ → (x y : ℕ) → ℕ
unfolding mix_even mix_odd
des_round (k, k') x y = bit_xor (bit_xor y (mix_even k x)) (mix_odd k' x)

-- The rounds of `des_crypt`, two in each step, with `SK` as the list of its pairs.
unfoldable pub des_rounds : List (ℕ × ℕ) → ℕ × ℕ → ℕ × ℕ
unfolding des_round
des_rounds (k ∷ k' ∷ ks) (x, y) =
    let x' = des_round k y x in let y' = des_round k' x' y in des_rounds ks (x', y')
des_rounds (k ∷ []) w = w
des_rounds [] w = w

-- `des_crypt`, of a block of eight bytes.
unfoldable pub des_crypt : List (ℕ × ℕ) → List ℕ → List ℕ
unfolding des_ip des_fp des_rounds get_uint32 put_uint32
des_crypt sk input =
    let w = des_fp (swap (des_rounds sk (des_ip (get_uint32 input 0, get_uint32 input 4)))) in
    put_uint32 w.0 ++ put_uint32 w.1
