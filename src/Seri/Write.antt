-- ===== src/Seri/Write.antt =====
-- lualib-src/lua-seri.c: the writer. `none` is an error raised in Lua.
use ue4_background.Seri.{
  no_pairs, no_values, unsupported, nil, table, is_nil, in_array, pair, Pairs, value, with_pairs,
  count_values, string, userdata, real, integer, type_long_string, boolean, type_boolean,
  type_number, type_short_string, type_table, Value, Values, combine_type, max_cookie, type_nil,
  type_userdata,
}
use ue4_background.Prelude.{
  ℕ, zero, suc, ◌+◌, ◌-◌, ◌/◌, ◌%◌, ◌^◌, Bool, not, ◌||◌, Option, none, some, List, [], ◌∷◌, ◌++◌,
  ltb, leb, ◌==◌, if◌then◌else◌, length, take, drop, ◌>>=◌,
}

abbrev pub block_size : ℕ
block_size = 128

abbrev pub max_depth : ℕ
max_depth = 32

-- `struct write_block`: the blocks before the current one, and the first `ptr` bytes of that.
-- `len` is an int of the source: what is packed is taken to be shorter than 2 ^ 31 bytes.
pub record WriteBlock : Type 0 where
  pub full : List (List ℕ)
  pub current : List ℕ
  pub len : ℕ

-- `wb_init`
unfoldable pub wb_init : WriteBlock
wb_init = record { full = []; current = []; len = 0 }

-- The label `_again`: a new block behind the current one.
abbrev pub next_block : WriteBlock → WriteBlock
next_block b = record b { full = b.full ++ b.current ∷ []; current = [] }

abbrev pub append_bytes : WriteBlock → List ℕ → WriteBlock
append_bytes b buffer = record b { current = b.current ++ buffer; len = b.len + length buffer }

-- The loop of `wb_push`, with the rounds left: each round but the last copies a byte at least.
unfoldable pub push_rounds : ℕ → WriteBlock → List ℕ → WriteBlock
push_rounds zero b buffer = b
push_rounds (suc n) b buffer =
    let b' = if length b.current == block_size then next_block b else b in
    let copy = block_size - length b'.current in
    let again = push_rounds n (append_bytes b' (take copy buffer)) (drop copy buffer) in
    if leb (length buffer) copy then append_bytes b' buffer else again

-- `wb_push`
unfoldable pub wb_push : WriteBlock → List ℕ → WriteBlock
wb_push b buffer = push_rounds (length buffer + 1) b buffer

-- The bytes of a number in memory.
abbrev pub le_bytes : ℕ → ℕ → List ℕ
le_bytes zero v = []
le_bytes (suc n) v = v % 256 ∷ le_bytes n (v / 256)

unfoldable pub wb_nil : WriteBlock → WriteBlock
wb_nil wb = wb_push wb (type_nil ∷ [])

unfoldable pub wb_boolean : WriteBlock → Bool → WriteBlock
wb_boolean wb b = wb_push wb (combine_type type_boolean (if b then 1 else 0) ∷ [])

-- `v == (int32_t)v`
abbrev pub is_int32 : ℕ → Bool
is_int32 v = ltb v (2 ^ 31) || leb (2 ^ 64 - 2 ^ 31) v

-- A number and its bytes, `n` of them, behind the byte of the type.
abbrev pub put_number : WriteBlock → ℕ → ℕ → ℕ → WriteBlock
put_number wb cookie n v =
    wb_push (wb_push wb (combine_type type_number cookie ∷ [])) (le_bytes n v)

-- `wb_integer`; from 2 ^ 63 on the integer is negative.
unfoldable pub wb_integer : WriteBlock → ℕ → WriteBlock
wb_integer wb v =
    if v == 0
    then wb_push wb (combine_type type_number 0 ∷ [])
    else if not (is_int32 v)
    then put_number wb 6 8 v
    else if leb (2 ^ 63) v
    then put_number wb 4 4 (v % 2 ^ 32)
    else if ltb v 0x100
    then put_number wb 1 1 v
    else if ltb v 0x10000
    then put_number wb 2 2 v
    else put_number wb 4 4 v

unfoldable pub wb_real : WriteBlock → ℕ → WriteBlock
wb_real wb v = put_number wb 8 8 v

unfoldable pub wb_pointer : WriteBlock → ℕ → WriteBlock
wb_pointer wb v = wb_push (wb_push wb (type_userdata ∷ [])) (le_bytes 8 v)

-- `wb_string`, for a string that is shorter than 2 ^ 31 bytes.
unfoldable pub wb_string : WriteBlock → List ℕ → WriteBlock
wb_string wb str =
    let len = length str in
    if ltb len max_cookie
    then (let wb' = wb_push wb (combine_type type_short_string len ∷ []) in
        if ltb 0 len then wb_push wb' str else wb')
    else if ltb len 0x10000
    then wb_push (wb_push (wb_push wb (combine_type type_long_string 2 ∷ [])) (le_bytes 2 len)) str
    else wb_push (wb_push (wb_push wb (combine_type type_long_string 4 ∷ [])) (le_bytes 4 len)) str

-- The first part of `wb_table_array`.
unfoldable pub wb_array_size : WriteBlock → ℕ → WriteBlock
wb_array_size wb array_size =
    if leb (max_cookie - 1) array_size
    then wb_integer (wb_push wb (combine_type type_table (max_cookie - 1) ∷ [])) array_size
    else wb_push wb (combine_type type_table array_size ∷ [])

-- The guard of `pack_one`.
abbrev pub at_depth : ℕ → Option WriteBlock → Option WriteBlock
at_depth depth r = if ltb max_depth depth then none else r

-- `pack_one` with `wb_table`; then the loops of `wb_table_array`, `wb_table_hash` and
-- `wb_table_metapairs`.
unfoldable mutual
  pub pack_one : ℕ → WriteBlock → Value → Option WriteBlock
  pack_one depth b nil = at_depth depth (some (wb_nil b))
  pack_one depth b (boolean x) = at_depth depth (some (wb_boolean b x))
  pack_one depth b (integer x) = at_depth depth (some (wb_integer b x))
  pack_one depth b (real n) = at_depth depth (some (wb_real b n))
  pack_one depth b (userdata p) = at_depth depth (some (wb_pointer b p))
  pack_one depth b (string str) = at_depth depth (some (wb_string b str))
  pack_one depth b (table vs ps) = at_depth depth (
      pack_values (suc depth) (wb_array_size b (count_values vs)) vs >>= λ b'.
      pack_hash (suc depth) (count_values vs) b' ps >>= λ b''. some (wb_nil b''))
  pack_one depth b (with_pairs ps) = at_depth depth (
      pack_metapairs (suc depth) (wb_push b (combine_type type_table 0 ∷ [])) ps >>= λ b'.
      some (wb_nil b'))
  pack_one depth b unsupported = none

  pub pack_values : ℕ → WriteBlock → Values → Option WriteBlock
  pack_values depth b no_values = some b
  pack_values depth b (value v vs) = pack_one depth b v >>= λ b'. pack_values depth b' vs

  pub pack_hash : ℕ → ℕ → WriteBlock → Pairs → Option WriteBlock
  pack_hash depth array_size b no_pairs = some b
  pack_hash depth array_size b (pair k v ps) =
      let skip = pack_hash depth array_size b ps in
      let packed = pack_one depth b k >>= λ b'.
      pack_one depth b' v >>= λ b''. pack_hash depth array_size b'' ps in
      if in_array array_size k then skip else packed

  pub pack_metapairs : ℕ → WriteBlock → Pairs → Option WriteBlock
  pack_metapairs depth b no_pairs = some b
  pack_metapairs depth b (pair k v ps) =
      let packed =
        pack_one depth b k >>= λ b'. pack_one depth b' v >>= λ b''. pack_metapairs depth b'' ps in
      if is_nil k then some b else packed

-- `pack_from`, of all arguments.
unfoldable pub pack_from : WriteBlock → Values → Option WriteBlock
unfolding pack_one
pack_from b vs = pack_values 0 b vs

-- The loop of `seri`: the blocks are copied one behind the other.
unfoldable pub seri : List (List ℕ) → ℕ → List ℕ
seri [] len = []
seri (b ∷ bs) len =
    let rest = seri bs (len - block_size) in
    if leb block_size len then take block_size b ++ rest else take len b

-- `luaseri_pack`
unfoldable pub luaseri_pack : Values → Option (List ℕ)
luaseri_pack vs = pack_from wb_init vs >>= λ wb. some (seri (wb.full ++ wb.current ∷ []) wb.len)
