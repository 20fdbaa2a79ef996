-- ===== src/Seri/Plain.antt =====
-- The values without parts are read back, and a table is if its parts are.
use ue4_background.Seri.Bytes.{Fits-dword, Fits-qword, Fits-word}
use ue4_background.Seri.Read.{
  pure, ok, read_number, get_integer, get_buffer, get_array_size, push_plain, push_value,
  unpack_one, unpack_values, unpack_pairs, push_long_string,
}
use ue4_background.Seri.{
  Pairs, Values, combine_type, max_cookie, type_boolean, type_nil, type_number, type_long_string,
  type_short_string, type_table, type_userdata, nil, boolean, integer, real, userdata, string,
  table,
}
use ue4_background.Seri.Encode.{encode, encode_size, encode_string}
use ue4_background.Seri.Reads.{
  >>=-ok, get_buffer-append, integer_form, read_number-byte, read_number-le_bytes, size_form,
}
use ue4_background.Seri.Write.{le_bytes}
use ue4_background.Prelude.{
  ℕ, suc, ◌/◌, ◌%◌, ◌^◌, ◌<◌, ◌≡◌, refl, ap, ap₂, ◌∙◌, inl, inr, Bool, true, false, List, ◌∷◌, ◌++◌,
  append_assoc, arith, ltb, ◌==◌, ltb→lt, Bool-cases, length,
}

-- The first byte of a value and what follows it.
pub unpack_head :
    (f type cookie : ℕ) (body : List ℕ)
    → type < 8
    → unpack_one (suc f) (combine_type type cookie ∷ body) ≡ push_value f type cookie body
unfolding unpack_one
unpack_head f type cookie body l =
    let t : combine_type type cookie % 8 ≡ type = omega arith in
    let c : combine_type type cookie / 8 ≡ cookie = omega arith in
    >>=-ok (read_number 1) (λ x. push_value f (x % 8) (x / 8)) (combine_type type cookie ∷ body)
      body (combine_type type cookie) (read_number-byte (combine_type type cookie) body)
    ∙ ap₂ (λ x y. push_value f x y body) t c

pub unpack_plain :
    (f type cookie : ℕ) (body : List ℕ)
    → type < 6
    → unpack_one (suc (suc f)) (combine_type type cookie ∷ body) ≡ push_plain type cookie body
unfolding unpack_one
unpack_plain f type cookie body l =
    let y : (type == type_table) ≡ false = ground arith in
    unpack_head (suc f) type cookie body (omega arith) ∙ rw (push_value, y)

pub plain_string :
    (str rest : List ℕ)
    → length str < 2 ^ 31
    → (f : ℕ) → unpack_one (suc (suc f)) (encode_string str ++ rest) ≡ ok (string str, rest)
unfolding encode_string push_plain push_long_string
plain_string str rest l f = elim (Bool-cases (ltb (length str) max_cookie)) [
  | inl y ↦ rw y (
      unpack_plain f type_short_string (length str) (str ++ rest) (omega arith)
      ∙ get_buffer-append (length str) str rest refl l)
  | inr y ↦ elim (Bool-cases (ltb (length str) 0x10000)) [
    | inl z ↦
        rw (y, z)
          (unpack_plain f type_long_string 2 (le_bytes 2 (length str) ++ str ++ rest) (omega arith)
            ∙ ap (λ u. push_plain type_long_string 2 u)
                (append_assoc (le_bytes 2 (length str)) str rest)
            ∙ >>=-ok (read_number 2) (λ n. get_buffer n) _ (str ++ rest) (length str)
                (read_number-le_bytes 2 (length str) (str ++ rest)
                  (Fits-word (length str) (ltb→lt _ _ z)))
            ∙ get_buffer-append (length str) str rest refl l)
    | inr z ↦
        rw (y, z)
          (unpack_plain f type_long_string 4 (le_bytes 4 (length str) ++ str ++ rest) (omega arith)
            ∙ ap (λ u. push_plain type_long_string 4 u)
                (append_assoc (le_bytes 4 (length str)) str rest)
            ∙ >>=-ok (read_number 4) (λ n. get_buffer n) _ (str ++ rest) (length str)
                (read_number-le_bytes 4 (length str) (str ++ rest)
                  (Fits-dword (length str) (omega arith)))
            ∙ get_buffer-append (length str) str rest refl l)
  ]
]

pub plain_integer :
    (v : ℕ) (rest : List ℕ)
    → v < 2 ^ 64
    → (f : ℕ) → unpack_one (suc (suc f)) (encode (integer v) ++ rest) ≡ ok (integer v, rest)
unfolding encode push_plain
plain_integer v rest l f =
    let i = integer_form v l in
    let c : (i.cookie == 8) ≡ false = ground (arith, i.small) in
    rw i.form (
      unpack_plain f type_number i.cookie (i.body ++ rest) (omega arith)
      ∙ rw (push_plain, c)
          (>>=-ok (get_integer i.cookie) (λ n. pure (integer n)) (i.body ++ rest) rest v
            (i.reads rest)))

pub plain_real :
    (v : ℕ) (rest : List ℕ)
    → v < 2 ^ 64
    → (f : ℕ) → unpack_one (suc (suc f)) (encode (real v) ++ rest) ≡ ok (real v, rest)
unfolding encode push_plain
plain_real v rest l f =
    unpack_plain f type_number 8 (le_bytes 8 v ++ rest) (omega arith)
    ∙ >>=-ok (read_number 8) (λ n. pure (real n)) _ rest v
        (read_number-le_bytes 8 v rest (Fits-qword v l))

pub plain_userdata :
    (v : ℕ) (rest : List ℕ)
    → v < 2 ^ 64
    → (f : ℕ) → unpack_one (suc (suc f)) (encode (userdata v) ++ rest) ≡ ok (userdata v, rest)
unfolding encode push_plain
plain_userdata v rest l f =
    unpack_plain f type_userdata 0 (le_bytes 8 v ++ rest) (omega arith)
    ∙ >>=-ok (read_number 8) (λ n. pure (userdata n)) _ rest v
        (read_number-le_bytes 8 v rest (Fits-qword v l))

pub plain_boolean :
    (b : Bool) (rest : List ℕ) (f : ℕ)
    → unpack_one (suc (suc f)) (encode (boolean b) ++ rest) ≡ ok (boolean b, rest)
unfolding encode push_plain
plain_boolean true rest f = unpack_plain f type_boolean 1 rest (omega arith)
plain_boolean false rest f = unpack_plain f type_boolean 0 rest (omega arith)

pub plain_nil :
    (rest : List ℕ) (f : ℕ) → unpack_one (suc (suc f)) (type_nil ∷ rest) ≡ ok (nil, rest)
unfolding push_plain
plain_nil rest f = unpack_plain f type_nil 0 rest (omega arith)

-- A table, if its parts are read.
pub table_read :
    (f n : ℕ) (vs : Values) (ps : Pairs) (xs ys rest : List ℕ)
    → n < 2 ^ 31
    → unpack_values f n (xs ++ (ys ++ rest)) ≡ ok (vs, ys ++ rest)
    → unpack_pairs f (ys ++ rest) ≡ ok (ps, rest)
    → unpack_one (suc (suc (suc f))) (encode_size n ++ (xs ++ (ys ++ rest)))
      ≡ ok (table vs ps, rest)
unfolding unpack_one
table_read f n vs ps xs ys rest l e g =
    let s = size_form n l in
    rw s.form (
      unpack_head (suc (suc f)) type_table s.cookie (s.body ++ (xs ++ (ys ++ rest))) (omega arith)
      ∙ >>=-ok (get_array_size s.cookie) _ _ _ n (s.reads (xs ++ (ys ++ rest)))
      ∙ >>=-ok (unpack_values f n) _ _ _ vs e
      ∙ >>=-ok (unpack_pairs f) _ _ rest ps g)
