-- ===== src/Crypt/Des/Inverse.antt =====
-- lualib-src/lua-crypt.c: `des_crypt` with the subkeys in reverse order is its inverse.
use ue4_background.Crypt.Des.{
  fp_turn, fp_x, fp_y, ip_turn, ip_x, ip_y, swap, des_ip, des_fp, shl, shr, exchange, rotate_left,
  rotate_right, u32,
}
use ue4_background.Crypt.Bits.{bit_xor_twice, bit_xor_both, bit_xor_shift, bit_xor_lt, bit_and_le}
use native.Mathlib.Nat.{mod-eq_of_lt, mul-div_left, one-le-pow, mul-le-mul_right}
use Prim.Native.Nat.{bit_and, bit_xor}
use ue4_background.Prelude.{ℕ, ◌*◌, ◌/◌, ◌^◌, ◌<◌, ◌≡◌, ap, ap₂, ◌∙◌, arith}

abbrev pub IsWord : ℕ × ℕ → Type 0
IsWord (x, y) = (x < u32) × (y < u32)

-- `exchange` undoes itself, when the shifted mask is a word.
exchange_twice :
    (k mask : ℕ) (w : ℕ × ℕ) → mask * 2 ^ k < u32 → exchange k mask (exchange k mask w) ≡ w
unfolding exchange
exchange_twice k mask (a, b) h =
    let t = bit_and (bit_xor (shr a k) b) mask in
    let small : t * 2 ^ k < u32 =
      omega (arith, mul-le-mul_right (2 ^ k) (bit_and_le (bit_xor (shr a k) b) mask)) in
    let s : shl t k ≡ t * 2 ^ k = mod-eq_of_lt small in
    let back : t * 2 ^ k / 2 ^ k ≡ t = mul-div_left t (one-le-pow k 2 (omega arith)) in
    let same : bit_xor (shr (bit_xor a (shl t k)) k) (bit_xor b t) ≡ bit_xor (shr a k) b =
      ap (λ x. bit_xor x (bit_xor b t))
        (bit_xor_shift k a (shl t k) ∙ ap (bit_xor (shr a k)) (ap (λ x. x / 2 ^ k) s ∙ back))
      ∙ bit_xor_both (shr a k) b t in
    rw same (ap₂ (λ x y. (x, y)) (bit_xor_twice a (shl t k)) (bit_xor_twice b t))

exchange-IsWord : (k mask : ℕ) (w : ℕ × ℕ) → mask < u32 → IsWord w → IsWord (exchange k mask w)
unfolding exchange
exchange-IsWord k mask (a, b) h v =
    let t = bit_and (bit_xor (shr a k) b) mask in
    let l : t < u32 = omega (arith, bit_and_le (bit_xor (shr a k) b) mask) in
    (bit_xor_lt 32 a (shl t k) v.0 (omega arith), bit_xor_lt 32 b t v.1 l)

rotate_right-rotate_left : (x : ℕ) → x < u32 → rotate_right (rotate_left x) ≡ x
unfolding rotate_left rotate_right
rotate_right-rotate_left x h = omega arith

rotate_left-rotate_right : (x : ℕ) → x < u32 → rotate_left (rotate_right x) ≡ x
unfolding rotate_left rotate_right
rotate_left-rotate_right x h = omega arith

rotate_left-lt : (x : ℕ) → x < u32 → rotate_left x < u32
unfolding rotate_left
rotate_left-lt x h = omega arith

rotate_right-lt : (x : ℕ) → x < u32 → rotate_right x < u32
unfolding rotate_right
rotate_right-lt x h = omega arith

swapped : (w : ℕ × ℕ) → IsWord w → IsWord (swap w)
swapped w v = (v.1, v.0)

-- Two exchanges undone one after the other.
exchanges_undone :
    (k mask j mark : ℕ) (w : ℕ × ℕ)
    → mask * 2 ^ k < u32
    → mark * 2 ^ j < u32
    → exchange k mask (exchange j mark (exchange j mark (exchange k mask w))) ≡ w
exchanges_undone k mask j mark w h l =
    ap (exchange k mask) (exchange_twice j mark (exchange k mask w) l) ∙ exchange_twice k mask w h

fp_x-ip_x : (w : ℕ × ℕ) → fp_x (ip_x w) ≡ w
unfolding fp_x ip_x
fp_x-ip_x w = exchanges_undone 4 0x0f0f0f0f 16 0x0000ffff w (omega arith) (omega arith)

ip_x-fp_x : (w : ℕ × ℕ) → ip_x (fp_x w) ≡ w
unfolding fp_x ip_x
ip_x-fp_x w = exchanges_undone 16 0x0000ffff 4 0x0f0f0f0f w (omega arith) (omega arith)

fp_y-ip_y : (w : ℕ × ℕ) → fp_y (ip_y w) ≡ w
unfolding fp_y ip_y
fp_y-ip_y w =
    ap swap (exchanges_undone 2 0x33333333 8 0x00ff00ff (swap w) (omega arith) (omega arith))

ip_y-fp_y : (w : ℕ × ℕ) → ip_y (fp_y w) ≡ w
unfolding fp_y ip_y
ip_y-fp_y w =
    ap swap (exchanges_undone 8 0x00ff00ff 2 0x33333333 (swap w) (omega arith) (omega arith))

fp_turn-ip_turn : (w : ℕ × ℕ) → IsWord w → fp_turn (ip_turn w) ≡ w
unfolding fp_turn ip_turn
fp_turn-ip_turn w v =
    let u : ℕ × ℕ = (w.0, rotate_left w.1) in
    let x = exchange 0 0xaaaaaaaa u in
    let vx = exchange-IsWord 0 0xaaaaaaaa u (omega arith) (v.0, rotate_left-lt w.1 v.1) in
    let back : exchange 0 0xaaaaaaaa (rotate_right (rotate_left x.0), x.1) ≡ u =
      ap (λ z. exchange 0 0xaaaaaaaa (z, x.1)) (rotate_right-rotate_left x.0 vx.0)
      ∙ exchange_twice 0 0xaaaaaaaa u (omega arith) in
    ap (λ (z : ℕ × ℕ). (z.0, rotate_right z.1)) back
    ∙ ap (λ z. (w.0, z)) (rotate_right-rotate_left w.1 v.1)

ip_turn-fp_turn : (w : ℕ × ℕ) → IsWord w → ip_turn (fp_turn w) ≡ w
unfolding fp_turn ip_turn
ip_turn-fp_turn w v =
    let u : ℕ × ℕ = (rotate_right w.0, w.1) in
    let x = exchange 0 0xaaaaaaaa u in
    let vx = exchange-IsWord 0 0xaaaaaaaa u (omega arith) (rotate_right-lt w.0 v.0, v.1) in
    let back : exchange 0 0xaaaaaaaa (x.0, rotate_left (rotate_right x.1)) ≡ u =
      ap (λ z. exchange 0 0xaaaaaaaa (x.0, z)) (rotate_left-rotate_right x.1 vx.1)
      ∙ exchange_twice 0 0xaaaaaaaa u (omega arith) in
    ap (λ (z : ℕ × ℕ). (rotate_left z.0, z.1)) back
    ∙ ap (λ z. (z, w.1)) (rotate_left-rotate_right w.0 v.0)

ip_x-IsWord : (w : ℕ × ℕ) → IsWord w → IsWord (ip_x w)
unfolding ip_x
ip_x-IsWord w v =
    exchange-IsWord 16 0x0000ffff (exchange 4 0x0f0f0f0f w) (omega arith)
      (exchange-IsWord 4 0x0f0f0f0f w (omega arith) v)

ip_y-IsWord : (w : ℕ × ℕ) → IsWord w → IsWord (ip_y w)
unfolding ip_y
ip_y-IsWord w v = swapped (exchange 8 0x00ff00ff (exchange 2 0x33333333 (swap w))) (
    exchange-IsWord 8 0x00ff00ff (exchange 2 0x33333333 (swap w)) (omega arith)
      (exchange-IsWord 2 0x33333333 (swap w) (omega arith) (swapped w v)))

ip_turn-IsWord : (w : ℕ × ℕ) → IsWord w → IsWord (ip_turn w)
unfolding ip_turn
ip_turn-IsWord w v =
    let vx =
      exchange-IsWord 0 0xaaaaaaaa (w.0, rotate_left w.1) (omega arith)
        (v.0, rotate_left-lt w.1 v.1) in
    (rotate_left-lt _ vx.0, vx.1)

fp_turn-IsWord : (w : ℕ × ℕ) → IsWord w → IsWord (fp_turn w)
unfolding fp_turn
fp_turn-IsWord w v =
    let vx =
      exchange-IsWord 0 0xaaaaaaaa (rotate_right w.0, w.1) (omega arith)
        (rotate_right-lt w.0 v.0, v.1) in
    (vx.0, rotate_right-lt _ vx.1)

fp_y-IsWord : (w : ℕ × ℕ) → IsWord w → IsWord (fp_y w)
unfolding fp_y
fp_y-IsWord w v = swapped (exchange 2 0x33333333 (exchange 8 0x00ff00ff (swap w))) (
    exchange-IsWord 2 0x33333333 (exchange 8 0x00ff00ff (swap w)) (omega arith)
      (exchange-IsWord 8 0x00ff00ff (swap w) (omega arith) (swapped w v)))

fp_x-IsWord : (w : ℕ × ℕ) → IsWord w → IsWord (fp_x w)
unfolding fp_x
fp_x-IsWord w v =
    exchange-IsWord 4 0x0f0f0f0f (exchange 16 0x0000ffff w) (omega arith)
      (exchange-IsWord 16 0x0000ffff w (omega arith) v)

pub des_fp-des_ip : (w : ℕ × ℕ) → IsWord w → des_fp (des_ip w) ≡ w
unfolding des_fp des_ip
des_fp-des_ip w v =
    let vx = ip_x-IsWord w v in
    ap (λ z. fp_x (fp_y z)) (fp_turn-ip_turn (ip_y (ip_x w)) (ip_y-IsWord (ip_x w) vx))
    ∙ ap fp_x (fp_y-ip_y (ip_x w))
    ∙ fp_x-ip_x w

pub des_ip-des_fp : (w : ℕ × ℕ) → IsWord w → des_ip (des_fp w) ≡ w
unfolding des_fp des_ip
des_ip-des_fp w v =
    ap (λ z. ip_turn (ip_y z)) (ip_x-fp_x (fp_y (fp_turn w)))
    ∙ ap ip_turn (ip_y-fp_y (fp_turn w))
    ∙ ip_turn-fp_turn w v

pub des_ip-IsWord : (w : ℕ × ℕ) → IsWord w → IsWord (des_ip w)
unfolding des_ip
des_ip-IsWord w v = ip_turn-IsWord (ip_y (ip_x w)) (ip_y-IsWord (ip_x w) (ip_x-IsWord w v))

pub des_fp-IsWord : (w : ℕ × ℕ) → IsWord w → IsWord (des_fp w)
unfolding des_fp
des_fp-IsWord w v = fp_x-IsWord (fp_y (fp_turn w)) (fp_y-IsWord (fp_turn w) (fp_turn-IsWord w v))
