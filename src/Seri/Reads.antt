-- ===== src/Seri/Reads.antt =====
-- What each part of the reader gives at the bytes that the writer wrote for it.
use ue4_background.Seri.Read.{
  from_le, pure, Reader, ok, ◌>>=◌, rb_read, read_number, get_integer, get_buffer, get_array_size,
  sign_extend, to_rounds,
}
use ue4_background.Seri.{string, type_table, combine_type, max_cookie, type_number}
use ue4_background.Seri.Bytes.{
  Fits, Fits-byte, Fits-word, Fits-dword, Fits-qword, from_le-le_bytes, length-le_bytes,
}
use ue4_background.Seri.Encode.{encode_integer, encode_size}
use ue4_background.Seri.Write.{is_int32, le_bytes}
use ue4_background.Prelude.{
  ℕ, ◌+◌, ◌-◌, ◌*◌, ◌/◌, ◌%◌, ◌^◌, ◌≤◌, ◌<◌, ◌≡◌, refl, sym, ap, ◌∙◌, inl, inr, true, false, not,
  ◌||◌, List, [], ◌∷◌, ◌++◌, arith, ltb, leb, ◌==◌, ltb→lt, ==_iff, Bool-cases, length, take, drop,
  length-append,
}

pub >>=-ok {ℓ κ} :
    {A : Type ℓ} {B : Type κ} (p : Reader A) (f : A → Reader B) (bs rest : List ℕ) (a : A)
    → p bs ≡ ok (a, rest)
    → (p >>= f) bs ≡ f a rest
>>=-ok p f bs rest a e = rw (e, ◌>>=◌)

take-length : (p rest : List ℕ) → take (length p) (p ++ rest) ≡ p
take-length [] rest = refl
take-length (x ∷ p) rest = ap (λ z. x ∷ z) (take-length p rest)

drop-length : (p rest : List ℕ) → drop (length p) (p ++ rest) ≡ rest
drop-length [] rest = refl
drop-length (x ∷ p) rest = drop-length p rest

pub rb_read-append : (n : ℕ) (p rest : List ℕ) → n ≡ length p → rb_read n (p ++ rest) ≡ ok (p, rest)
unfolding rb_read
rb_read-append n p rest e =
    let y : ltb (length (p ++ rest)) n ≡ false = ground (arith, length-append p rest) in
    rw (y, e, take-length p rest, drop-length p rest)

pub read_number-le_bytes :
    (n v : ℕ) (rest : List ℕ) → Fits n v → read_number n (le_bytes n v ++ rest) ≡ ok (v, rest)
unfolding read_number
read_number-le_bytes n v rest f =
    >>=-ok (rb_read n) _ _ rest (le_bytes n v)
      (rb_read-append n (le_bytes n v) rest (sym (length-le_bytes n v)))
    ∙ ap (λ z. ok (z, rest)) (from_le-le_bytes n v f)

pub read_number-byte : (t : ℕ) (rest : List ℕ) → read_number 1 (t ∷ rest) ≡ ok (t, rest)
unfolding read_number
read_number-byte t rest =
    let e : t + 256 * 0 ≡ t = omega arith in
    >>=-ok (rb_read 1) (λ bs. pure (from_le bs)) (t ∷ rest) rest (t ∷ [])
      (rb_read-append 1 (t ∷ []) rest refl)
    ∙ ap (λ z. ok (z, rest)) e

-- The encoding of an integer is a byte with the cookie, and bytes from which it is read back.
pub record IntegerForm (v : ℕ) : Type 0 where
  pub cookie : ℕ
  pub body : List ℕ
  pub form : encode_integer v ≡ combine_type type_number cookie ∷ body
  pub small : cookie < 8
  pub reads : (rest : List ℕ) → get_integer cookie (body ++ rest) ≡ ok (v, rest)

pub integer_form : (v : ℕ) → v < 2 ^ 64 → IntegerForm v
unfolding encode_integer get_integer
integer_form v l = elim (Bool-cases (v == 0)) [
  | inl y ↦
      let e : v ≡ 0 = (==_iff v 0).0 y in
      record { cookie = 0; body = []; form = rw y; small = omega arith; reads = λ rest. rw e }
  | inr y ↦ elim (Bool-cases (is_int32 v)) [
    | inr z ↦ record {
      cookie = 6;
      body = le_bytes 8 v;
      form = rw (y, z);
      small = omega arith;
      reads = λ rest. read_number-le_bytes 8 v rest (Fits-qword v l);
    }
    | inl z ↦ elim (Bool-cases (leb (2 ^ 63) v)) [
      | inl u ↦
          let high : 2 ^ 64 - 2 ^ 31 ≤ v = ground arith in
          let e : sign_extend (v % 2 ^ 32) ≡ v = ground arith in
          record {
            cookie = 4;
            body = le_bytes 4 (v % 2 ^ 32);
            form = rw (y, z, u);
            small = omega arith;
            reads = λ rest.
                >>=-ok (read_number 4) _ _ rest _
                  (read_number-le_bytes 4 (v % 2 ^ 32) rest (Fits-dword (v % 2 ^ 32) (omega arith)))
                ∙ ap (λ x. ok (x, rest)) e;
          }
      | inr u ↦ elim (Bool-cases (ltb v 0x100)) [
        | inl t ↦ record {
          cookie = 1;
          body = le_bytes 1 v;
          form = rw (y, z, u, t);
          small = omega arith;
          reads = λ rest. read_number-le_bytes 1 v rest (Fits-byte v (ltb→lt _ _ t));
        }
        | inr t ↦ elim (Bool-cases (ltb v 0x10000)) [
          | inl s ↦ record {
            cookie = 2;
            body = le_bytes 2 v;
            form = rw (y, z, u, t, s);
            small = omega arith;
            reads = λ rest. read_number-le_bytes 2 v rest (Fits-word v (ltb→lt _ _ s));
          }
          | inr s ↦
              let low : v < 2 ^ 31 = ground arith in
              let e : sign_extend v ≡ v = ground arith in
              record {
                cookie = 4;
                body = le_bytes 4 v;
                form = rw (y, z, u, t, s);
                small = omega arith;
                reads = λ rest.
                    >>=-ok (read_number 4) _ _ rest _
                      (read_number-le_bytes 4 v rest (Fits-dword v (omega arith)))
                    ∙ ap (λ x. ok (x, rest)) e;
              }
        ]
      ]
    ]
  ]
]

-- Likewise the head of a table.
pub record SizeForm (n : ℕ) : Type 0 where
  pub cookie : ℕ
  pub body : List ℕ
  pub form : encode_size n ≡ combine_type type_table cookie ∷ body
  pub reads : (rest : List ℕ) → get_array_size cookie (body ++ rest) ≡ ok (n, rest)

pub size_form : (n : ℕ) → n < 2 ^ 31 → SizeForm n
unfolding encode_size get_array_size
size_form n l = elim (Bool-cases (leb (max_cookie - 1) n)) [
  | inr y ↦
      let z : (n == 31) ≡ false = ground arith in
      record { cookie = n; body = []; form = rw y; reads = λ rest. rw z }
  | inl y ↦
      let i = integer_form n (omega arith) in
      let head = combine_type type_number i.cookie in
      record {
        cookie = 31;
        body = head ∷ i.body;
        form = rw (y, i.form);
        reads = λ rest.
            let test : (not (head % 8 == type_number) || head / 8 == 8) ≡ false =
              ground (arith, i.small) in
            let c : head / 8 ≡ i.cookie = omega arith in
            let r : to_rounds n ≡ n = ground arith in
            >>=-ok (read_number 1) _ _ (i.body ++ rest) head
              (read_number-byte head (i.body ++ rest))
            ∙ rw (test, c)
                (>>=-ok (get_integer i.cookie) _ _ rest n (i.reads rest)
                  ∙ ap (λ x. ok (x, rest)) r);
      }
]

pub get_buffer-append :
    (n : ℕ) (str rest : List ℕ)
    → n ≡ length str
    → n < 2 ^ 31
    → get_buffer n (str ++ rest) ≡ ok (string str, rest)
unfolding get_buffer
get_buffer-append n str rest e l =
    let y : ltb n (2 ^ 31) ≡ true = ground arith in
    rw y (>>=-ok (rb_read n) _ _ rest str (rb_read-append n str rest e))
