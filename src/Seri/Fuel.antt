-- ===== src/Seri/Fuel.antt =====
-- lualib-src/lua-seri.c: encodings have bytes, and fuel above their number is enough for a round.
use ue4_background.Seri.{
  unsupported, with_pairs, count_values, is_nil, Value, nil, boolean, integer, real, userdata,
  string, table,
}
use ue4_background.Seri.Encode.{
  IsLua, encode_pairs, encode_values, received, encode, encode_size, encode_string,
}
use ue4_background.Seri.Reads.{integer_form, size_form}
use ue4_background.Prelude.{
  ℕ, suc, ◌-◌, ◌^◌, ◌≤◌, ◌<◌, ◌≡◌, refl, sym, subst, ◌++◌, arith, length, length-append,
}

pub encode_size-pos : (n : ℕ) → n < 2 ^ 31 → 0 < length (encode_size n)
encode_size-pos n l = rw (size_form n l).form (omega arith)

pub encode-pos : (v : Value) → IsLua v → 0 < length (encode v)
unfolding encode encode_string
encode-pos nil l = omega arith
encode-pos (boolean b) l = omega arith
encode-pos (integer v) l = rw (integer_form v l).form (omega arith)
encode-pos (real v) l = omega arith
encode-pos (userdata v) l = omega arith
encode-pos (string str) l = ground arith
encode-pos (table vs ps) l = omega (
  arith,
  encode_size-pos (count_values vs) l.0,
  length-append (encode_size (count_values vs))
      (encode_values vs ++ encode_pairs (count_values vs) ps),
)
encode-pos (with_pairs ps) l =
    omega
      (arith, encode_size-pos 0 (omega arith), length-append (encode_size 0) (encode_pairs 0 ps))
encode-pos unsupported l = elim l [ ]

pub received-is_nil : (k : Value) → is_nil (received k) ≡ is_nil k
unfolding received
received-is_nil nil = refl
received-is_nil (boolean b) = refl
received-is_nil (integer x) = refl
received-is_nil (real x) = refl
received-is_nil (userdata x) = refl
received-is_nil (string x) = refl
received-is_nil (table vs ps) = refl
received-is_nil (with_pairs ps) = refl
received-is_nil unsupported = refl

-- Fuel that is enough for a number of rounds has them taken off.
pub one_round {ℓ} :
    (P : ℕ → Type ℓ) {bytes : ℕ} (step : (g : ℕ) → bytes ≤ g → P (suc g)) (f : ℕ) → bytes < f → P f
one_round P step f enough =
    let e : f ≡ suc (f - 1) = omega arith in subst P (sym e) (step (f - 1) (omega arith))

pub two_rounds {ℓ} :
    (P : ℕ → Type ℓ) {bytes : ℕ} (step : (g : ℕ) → bytes ≤ suc g → P (suc (suc g))) (f : ℕ)
    → bytes < f
    → 0 < bytes
    → P f
two_rounds P {bytes} step f enough pos =
    let e : f ≡ suc (suc (f - 2)) = omega arith in subst P (sym e) (step (f - 2) (omega arith))

pub three_rounds {ℓ} :
    (P : ℕ → Type ℓ) {bytes : ℕ} (step : (g : ℕ) → bytes ≤ suc (suc g) → P (suc (suc (suc g))))
    (f : ℕ)
    → bytes < f
    → 1 < bytes
    → P f
three_rounds P {bytes} step f enough pos =
    let e : f ≡ suc (suc (suc (f - 3))) = omega arith in
    subst P (sym e) (step (f - 3) (omega arith))
