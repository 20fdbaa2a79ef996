-- ===== src/Seri/Read.antt =====
-- lualib-src/lua-seri.c: the reader. A read block is the list of the bytes that are left.
use ue4_background.Seri.{
  table, is_nil, type_long_string, type_short_string, userdata, type_userdata, integer, no_pairs,
  real, boolean, pair, Pairs, type_boolean, nil, value, no_values, string, type_nil, type_number,
  type_table, Value, Values, max_cookie,
}
use ue4_background.Prelude.{
  ℕ, zero, suc, ◌+◌, ◌-◌, ◌*◌, ◌/◌, ◌%◌, ◌^◌, not, ◌||◌, List, [], ◌∷◌, ltb, ◌==◌, if◌then◌else◌,
  length, take, drop,
}

-- `invalid` is the error raised by `invalid_stream`, `fault` a read of a negative number of bytes.
-- `out_of_fuel` has no counterpart in the program.
pub data Result {ℓ} (A : Type ℓ) : Type ℓ where
  ok : A → Result A
  invalid fault out_of_fuel : Result A

abbrev pub Reader {ℓ} : Type ℓ → Type ℓ
Reader A = List ℕ → Result (A × List ℕ)

module _ {ℓ κ} {A : Type ℓ} {B : Type κ} where
  infixl 1 ◌>>=◌
  abbrev pub ◌>>=◌ : Reader A → (A → Reader B) → Reader B
  (p >>= f) bs = elim (p bs) [
    | ok (a, rest) ↦ f a rest
    | invalid ↦ invalid
    | fault ↦ fault
    | out_of_fuel ↦ out_of_fuel
  ]

abbrev pub pure {ℓ} : {A : Type ℓ} → A → Reader A
pure a bs = ok (a, bs)

abbrev pub fail {ℓ} : {A : Type ℓ} → Reader A
fail bs = invalid

-- `rb_read`, and the error that each caller raises at NULL.
unfoldable pub rb_read : ℕ → Reader (List ℕ)
rb_read sz bs = if ltb (length bs) sz then invalid else ok (take sz bs, drop sz bs)

abbrev pub from_le : List ℕ → ℕ
from_le [] = 0
from_le (b ∷ bs) = b + 256 * from_le bs

-- A number of `n` bytes.
unfoldable pub read_number : ℕ → Reader ℕ
unfolding rb_read
read_number n = rb_read n >>= λ bs. pure (from_le bs)

-- An `int32_t` as a 64-bit integer.
abbrev pub sign_extend : ℕ → ℕ
sign_extend n = if ltb n (2 ^ 31) then n else n + (2 ^ 64 - 2 ^ 32)

unfoldable pub get_integer : ℕ → Reader ℕ
get_integer cookie =
    if cookie == 0
    then pure 0
    else if cookie == 1
    then read_number 1
    else if cookie == 2
    then read_number 2
    else if cookie == 4
    then (read_number 4 >>= λ n. pure (sign_extend n))
    else if cookie == 6
    then read_number 8
    else fail

-- `get_buffer`, of a length that is an int.
unfoldable pub get_buffer : ℕ → Reader Value
get_buffer len bs =
    if ltb len (2 ^ 31) then (rb_read len >>= λ str. pure (string str)) bs else fault

unfoldable pub push_long_string : ℕ → Reader Value
push_long_string cookie =
    if cookie == 2
    then (read_number 2 >>= λ n. get_buffer n)
    else if cookie == 4
    then (read_number 4 >>= λ n. get_buffer n)
    else fail

-- `push_value`, for all types but that of a table.
unfoldable pub push_plain : ℕ → ℕ → Reader Value
push_plain type cookie =
    if type == type_nil
    then pure nil
    else if type == type_boolean
    then pure (boolean (not (cookie == 0)))
    else if type == type_number
    then (if cookie == 8
        then (read_number 8 >>= λ n. pure (real n))
        else (get_integer cookie >>= λ n. pure (integer n)))
    else if type == type_userdata
    then (read_number 8 >>= λ n. pure (userdata n))
    else if type == type_short_string
    then get_buffer cookie
    else if type == type_long_string
    then push_long_string cookie
    else fail

-- An integer taken for an int, as the number of rounds of a loop.
abbrev pub to_rounds : ℕ → ℕ
to_rounds n = if ltb (n % 2 ^ 32) (2 ^ 31) then n % 2 ^ 32 else 0

-- The first part of `unpack_table`.
unfoldable pub get_array_size : ℕ → Reader ℕ
get_array_size array_size =
    if array_size == max_cookie - 1
    then (read_number 1 >>= λ type.
        if not (type % 8 == type_number) || type / 8 == 8
        then fail
        else (get_integer (type / 8) >>= λ n. pure (to_rounds n)))
    else pure array_size

-- What a call leaves of the bytes is not a structural part of them, so each call costs a unit of fuel.
-- The table that is read is the values and the pairs that are put into it.
unfoldable mutual
  pub unpack_one : ℕ → Reader Value
  unpack_one zero bs = out_of_fuel
  unpack_one (suc f) bs = (read_number 1 >>= λ type. push_value f (type % 8) (type / 8)) bs

  pub push_value : ℕ → ℕ → ℕ → Reader Value
  push_value zero type cookie bs = out_of_fuel
  push_value (suc f) type cookie bs =
      let read_table = unpack_table f cookie bs in
      if type == type_table then read_table else push_plain type cookie bs

  pub unpack_table : ℕ → ℕ → Reader Value
  unpack_table zero cookie bs = out_of_fuel
  unpack_table (suc f) cookie bs =
      (get_array_size cookie >>= λ n.
      unpack_values f n >>= λ vs. unpack_pairs f >>= λ ps. pure (table vs ps))
        bs

  pub unpack_values : ℕ → ℕ → Reader Values
  unpack_values zero n bs = out_of_fuel
  unpack_values (suc f) zero bs = ok (no_values, bs)
  unpack_values (suc f) (suc n) bs =
      (unpack_one f >>= λ v. unpack_values f n >>= λ vs. pure (value v vs)) bs

  pub unpack_pairs : ℕ → Reader Pairs
  unpack_pairs zero bs = out_of_fuel
  unpack_pairs (suc f) bs =
      (unpack_one f >>= λ k.
      let more = (unpack_one f >>= λ v. unpack_pairs f >>= λ ps. pure (pair k v ps)) in
      if is_nil k then pure no_pairs else more)
        bs

-- The loop of `luaseri_unpack`.
unfoldable pub unpack_all : ℕ → Reader Values
unfolding unpack_one
unpack_all zero bs = out_of_fuel
unpack_all (suc f) [] = ok (no_values, [])
unpack_all (suc f) (type ∷ bs) =
    (push_value (4 * length bs + 4) (type % 8) (type / 8) >>= λ v.
    unpack_all f >>= λ vs. pure (value v vs))
      bs

-- `luaseri_unpack`, of a buffer that is not NULL.
unfoldable pub luaseri_unpack : Reader Values
unfolding unpack_all
luaseri_unpack bs = unpack_all (length bs + 1) bs
