-- ===== src/Seri/Scalars.antt =====
-- lualib-src/lua-seri.c: what the functions that write one number or string append.
use ue4_background.Seri.{combine_type, max_cookie, type_short_string, type_table}
use ue4_background.Seri.Encode.{encode_integer, encode_size, encode_string}
use ue4_background.Seri.Write.{
  WriteBlock, is_int32, le_bytes, wb_array_size, wb_integer, wb_push, wb_string,
}
use ue4_background.Seri.Blocks.{IsBlocks, Wrote, wb_push-Wrote, Wrote-Wrote}
use ue4_background.Prelude.{
  ℕ, ◌-◌, ◌%◌, ◌^◌, ◌≡◌, inl, inr, true, List, [], ◌∷◌, ◌++◌, arith, ltb, leb, ◌==◌, if◌then◌else◌,
  Bool-cases, length,
}

pub push_twice :
    (b : WriteBlock) (x y : List ℕ) → IsBlocks b → Wrote b (x ++ y) (wb_push (wb_push b x) y)
push_twice b x y v =
    let w = wb_push-Wrote b x v in Wrote-Wrote w (wb_push-Wrote (wb_push b x) y w.blocks)

pub wb_integer-Wrote :
    (b : WriteBlock) (v : ℕ) → IsBlocks b → Wrote b (encode_integer v) (wb_integer b v)
unfolding wb_integer encode_integer
wb_integer-Wrote b v i = elim (Bool-cases (v == 0)) [
  | inl y ↦ rw y (wb_push-Wrote b _ i)
  | inr y ↦ elim (Bool-cases (is_int32 v)) [
    | inr z ↦ rw (y, z) (push_twice b _ (le_bytes 8 v) i)
    | inl z ↦ elim (Bool-cases (leb (2 ^ 63) v)) [
      | inl u ↦ rw (y, z, u) (push_twice b _ (le_bytes 4 (v % 2 ^ 32)) i)
      | inr u ↦ elim (Bool-cases (ltb v 0x100)) [
        | inl t ↦ rw (y, z, u, t) (push_twice b _ (le_bytes 1 v) i)
        | inr t ↦ elim (Bool-cases (ltb v 0x10000)) [
          | inl s ↦ rw (y, z, u, t, s) (push_twice b _ (le_bytes 2 v) i)
          | inr s ↦ rw (y, z, u, t, s) (push_twice b _ (le_bytes 4 v) i)
        ]
      ]
    ]
  ]
]

pub push_thrice :
    (b : WriteBlock) (x : ℕ) (y z : List ℕ)
    → IsBlocks b
    → Wrote b (x ∷ (y ++ z)) (wb_push (wb_push (wb_push b (x ∷ [])) y) z)
push_thrice b x y z v =
    let w = push_twice b (x ∷ []) y v in Wrote-Wrote w (wb_push-Wrote _ z w.blocks)

pub wb_string-Wrote :
    (b : WriteBlock) (str : List ℕ) → IsBlocks b → Wrote b (encode_string str) (wb_string b str)
unfolding wb_string encode_string
wb_string-Wrote b str i = elim (Bool-cases (ltb (length str) max_cookie)) [
  | inl y ↦ rw y (short str)
  | inr y ↦ elim (Bool-cases (ltb (length str) 0x10000)) [
    | inl z ↦ rw (y, z) (push_thrice b _ (le_bytes 2 (length str)) str i)
    | inr z ↦ rw (y, z) (push_thrice b _ (le_bytes 4 (length str)) str i)
  ]
]
  where
    short :
        (s : List ℕ)
        → let b' = wb_push b (combine_type type_short_string (length s) ∷ []) in
          Wrote b
            (combine_type type_short_string (length s) ∷ s)
            (if ltb 0 (length s) then wb_push b' s else b')
    short [] = wb_push-Wrote b _ i
    short (c ∷ s) =
        let y : ltb 0 (length (c ∷ s)) ≡ true = ground arith in rw y (push_twice b _ (c ∷ s) i)

pub wb_array_size-Wrote :
    (b : WriteBlock) (n : ℕ) → IsBlocks b → Wrote b (encode_size n) (wb_array_size b n)
unfolding wb_array_size encode_size
wb_array_size-Wrote b n i = elim (Bool-cases (leb (max_cookie - 1) n)) [
  | inl y ↦
      let w = wb_push-Wrote b (combine_type type_table (max_cookie - 1) ∷ []) i in
      rw y (Wrote-Wrote w (wb_integer-Wrote _ n w.blocks))
  | inr y ↦ rw y (wb_push-Wrote b _ i)
]
