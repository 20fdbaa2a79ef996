-- ===== src/Tests/Seri.antt =====
-- lualib-src/lua-seri.c at work.
use ue4_background.Seri.{
  Values, integer, string, boolean, table, no_values, value, no_pairs, pair, count_values,
}
use ue4_background.Seri.Encode.{AllLua, received_values}
use ue4_background.Seri.Read.{
  luaseri_unpack, unpack_all, unpack_one, ok, invalid, fault, rb_read, read_number, push_plain,
  push_long_string, get_integer, get_buffer, get_array_size,
}
use ue4_background.Seri.RoundTrip.{luaseri_unpack-luaseri_pack}
use ue4_background.Seri.Write.{
  luaseri_pack, pack_one, pack_from, wb_init, wb_nil, wb_boolean, wb_integer, wb_string,
  wb_array_size, wb_push, push_rounds, seri,
}
use ue4_background.Seri.Bounded.{Ended, luaseri_unpack-Ended}
use ue4_background.Prelude.{ℕ, ◌-◌, ◌^◌, ◌≡◌, refl, true, some, List, [], ◌∷◌, arith}

-- { 300, -1; [1] = 300, x = { } }, and true. The key 1 stands in the array too.
abbrev two_values : Values
two_values =
    value
      (table (value (integer 300) (value (integer (2 ^ 64 - 1)) no_values)) (
        pair (integer 1) (integer 300)
          (pair (string (120 ∷ [])) (table no_values no_pairs) no_pairs)))
      (value (boolean true) no_values)

abbrev two_values_bytes : List ℕ
two_values_bytes = 22 ∷ 18 ∷ 44 ∷ 1 ∷ 34 ∷ 255 ∷ 255 ∷ 255 ∷ 255 ∷ 12 ∷ 120 ∷ 6 ∷ 0 ∷ 0 ∷ 9 ∷ []

two_values-AllLua : AllLua two_values
unfolding count_values
two_values-AllLua = (
  (
    omega arith,
    (omega arith, (omega arith, tt)),
    (omega arith, omega arith, (omega arith, (omega arith, tt, tt, tt), tt)),
    (refl, (refl, tt)),
  ),
  (tt, tt),
)

two_values_packed : luaseri_pack two_values ≡ some two_values_bytes
unfolding luaseri_pack pack_from pack_one wb_init wb_nil wb_boolean wb_integer wb_string
    wb_array_size wb_push push_rounds seri count_values
two_values_packed = refl

luaseri_unpack-luaseri_pack_example :
    luaseri_unpack two_values_bytes ≡ ok (received_values two_values, [])
luaseri_unpack-luaseri_pack_example =
    luaseri_unpack-luaseri_pack two_values two_values_bytes two_values-AllLua two_values_packed

luaseri_unpack-Ended_example : Ended 1 (luaseri_unpack (14 ∷ 4 ∷ 33 ∷ []))
luaseri_unpack-Ended_example = luaseri_unpack-Ended (14 ∷ 4 ∷ 33 ∷ [])

-- A table that breaks off is an error.
broken_table : luaseri_unpack (14 ∷ 4 ∷ 33 ∷ []) ≡ invalid
unfolding luaseri_unpack unpack_all unpack_one rb_read read_number push_plain get_buffer
    get_array_size get_integer push_long_string
broken_table = refl

-- A long string whose length is negative as an int is not refused.
negative_length : luaseri_unpack (37 ∷ 0 ∷ 0 ∷ 0 ∷ 128 ∷ []) ≡ fault
unfolding luaseri_unpack unpack_all unpack_one rb_read read_number push_plain get_buffer
    get_array_size get_integer push_long_string
negative_length = refl
