-- ===== src/Seri.antt =====
-- lualib-src/lua-seri.c: Lua values as bytes. What the C API of Lua shows of a value is a tree; the
-- machine is little-endian, with 64-bit pointers.
pub mod Write
pub mod Read
pub mod Bytes
pub mod Blocks
pub mod Encode
pub mod Scalars
pub mod Pack
pub mod Reads
pub mod Plain
pub mod Fuel
pub mod RoundTrip
pub mod Bounded
use ue4_background.Prelude.{
  ℕ, suc, ◌+◌, ◌-◌, ◌*◌, ◌/◌, Bool, true, false, ◌&&◌, List, ltb, leb, count,
}

-- An integer, a float and a light userdata are their 64 bits. `table` has the values at 1 to
-- `lua_rawlen`, and the pairs that `lua_next` runs through; `with_pairs` is a table with the metamethod
-- `__pairs`, and what that runs through. `unsupported` is a function, a thread or a full userdata.
mutual
  pub data Value : Type 0 where
    nil : Value
    boolean : Bool → Value
    integer : ℕ → Value
    real : ℕ → Value
    userdata : ℕ → Value
    string : List ℕ → Value
    table : Values → Pairs → Value
    with_pairs : Pairs → Value
    unsupported : Value

  pub data Values : Type 0 where
    no_values : Values
    value : Value → Values → Values

  pub data Pairs : Type 0 where
    no_pairs : Pairs
    pair : Value → Value → Pairs → Pairs

abbrev pub type_nil : ℕ
type_nil = 0

abbrev pub type_boolean : ℕ
type_boolean = 1

abbrev pub type_number : ℕ
type_number = 2

abbrev pub type_userdata : ℕ
type_userdata = 3

abbrev pub type_short_string : ℕ
type_short_string = 4

abbrev pub type_long_string : ℕ
type_long_string = 5

abbrev pub type_table : ℕ
type_table = 6

abbrev pub max_cookie : ℕ
max_cookie = 32

-- The macro COMBINE_TYPE, for a type below 8 and a cookie below 32.
abbrev pub combine_type : ℕ → ℕ → ℕ
combine_type type v = type + v * 8

abbrev pub is_nil : Value → Bool
is_nil nil = true
is_nil _ = false

-- The test in `wb_table_hash` for a key that the array has already.
abbrev pub in_array : ℕ → Value → Bool
in_array array_size (integer x) = ltb 0 x && leb x array_size
in_array array_size _ = false

unfoldable pub count_values : Values → ℕ
count_values no_values = 0
count_values (value v vs) = suc (count_values vs)
