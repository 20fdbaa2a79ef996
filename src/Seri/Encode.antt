-- ===== src/Seri/Encode.antt =====
-- The bytes that stand for a value, and what is read back from them.
use ue4_background.Seri.{
  Pairs, Value, Values, combine_type, count_values, in_array, is_nil, max_cookie, type_boolean,
  type_nil, type_number, type_long_string, type_short_string, type_table, type_userdata, nil,
  boolean, integer, real, userdata, string, table, with_pairs, unsupported, no_values, value,
  no_pairs, pair,
}
use ue4_background.Seri.Write.{is_int32, le_bytes}
use ue4_background.Prelude.{
  ℕ, ◌-◌, ◌%◌, ◌^◌, ◌<◌, ◌≡◌, false, not, List, [], ◌∷◌, ◌++◌, ltb, leb, ◌==◌, if◌then◌else◌,
  length,
}

abbrev pub encode_number : ℕ → ℕ → ℕ → List ℕ
encode_number cookie n v = combine_type type_number cookie ∷ le_bytes n v

-- The shortest form that holds the integer.
unfoldable pub encode_integer : ℕ → List ℕ
encode_integer v =
    if v == 0
    then combine_type type_number 0 ∷ []
    else if not (is_int32 v)
    then encode_number 6 8 v
    else if leb (2 ^ 63) v
    then encode_number 4 4 (v % 2 ^ 32)
    else if ltb v 0x100
    then encode_number 1 1 v
    else if ltb v 0x10000
    then encode_number 2 2 v
    else encode_number 4 4 v

unfoldable pub encode_string : List ℕ → List ℕ
encode_string str =
    let len = length str in
    if ltb len max_cookie
    then combine_type type_short_string len ∷ str
    else if ltb len 0x10000
    then combine_type type_long_string 2 ∷ (le_bytes 2 len ++ str)
    else combine_type type_long_string 4 ∷ (le_bytes 4 len ++ str)

unfoldable pub encode_size : ℕ → List ℕ
unfolding encode_integer
encode_size n =
    if leb (max_cookie - 1) n
    then combine_type type_table (max_cookie - 1) ∷ encode_integer n
    else combine_type type_table n ∷ []

-- The array, the pairs that are not in it, and a nil.
unfoldable mutual
  pub encode : Value → List ℕ
  encode nil = type_nil ∷ []
  encode (boolean b) = combine_type type_boolean (if b then 1 else 0) ∷ []
  encode (integer v) = encode_integer v
  encode (real v) = encode_number 8 8 v
  encode (userdata v) = type_userdata ∷ le_bytes 8 v
  encode (string str) = encode_string str
  encode (table vs ps) =
      encode_size (count_values vs) ++ (encode_values vs ++ encode_pairs (count_values vs) ps)
  encode (with_pairs ps) = encode_size 0 ++ encode_pairs 0 ps
  encode unsupported = []

  pub encode_values : Values → List ℕ
  encode_values no_values = []
  encode_values (value v vs) = encode v ++ encode_values vs

  pub encode_pairs : ℕ → Pairs → List ℕ
  encode_pairs array_size no_pairs = type_nil ∷ []
  encode_pairs array_size (pair k v ps) =
      if is_nil k
      then type_nil ∷ []
      else if in_array array_size k
      then encode_pairs array_size ps
      else encode k ++ (encode v ++ encode_pairs array_size ps)

-- What comes back: tables have their array, and of their pairs those that are not in it.
unfoldable mutual
  pub received : Value → Value
  received nil = nil
  received (boolean b) = boolean b
  received (integer v) = integer v
  received (real v) = real v
  received (userdata v) = userdata v
  received (string str) = string str
  received (table vs ps) = table (received_values vs) (received_pairs (count_values vs) ps)
  received (with_pairs ps) = table no_values (received_pairs 0 ps)
  received unsupported = unsupported

  pub received_values : Values → Values
  received_values no_values = no_values
  received_values (value v vs) = value (received v) (received_values vs)

  pub received_pairs : ℕ → Pairs → Pairs
  received_pairs array_size no_pairs = no_pairs
  received_pairs array_size (pair k v ps) =
      if is_nil k
      then no_pairs
      else if in_array array_size k
      then received_pairs array_size ps
      else pair (received k) (received v) (received_pairs array_size ps)

-- Values of the types that are supported, with numbers of 64 bits, lengths of an int, and no nil among the keys that `lua_next` gives.
abbrev mutual
  pub IsLua : Value → Type 0
  IsLua nil = Unit
  IsLua (boolean b) = Unit
  IsLua (integer v) = v < 2 ^ 64
  IsLua (real v) = v < 2 ^ 64
  IsLua (userdata v) = v < 2 ^ 64
  IsLua (string str) = length str < 2 ^ 31
  IsLua (table vs ps) = (count_values vs < 2 ^ 31) × AllLua vs × PairsLua ps × KeysLua ps
  IsLua (with_pairs ps) = PairsLua ps
  IsLua unsupported = ⊥

  pub AllLua : Values → Type 0
  AllLua no_values = Unit
  AllLua (value v vs) = IsLua v × AllLua vs

  pub PairsLua : Pairs → Type 0
  PairsLua no_pairs = Unit
  PairsLua (pair k v ps) = IsLua k × IsLua v × PairsLua ps

  pub KeysLua : Pairs → Type 0
  KeysLua no_pairs = Unit
  KeysLua (pair k v ps) = (is_nil k ≡ false) × KeysLua ps
