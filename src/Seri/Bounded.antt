-- ===== src/Seri/Bounded.antt =====
-- The reader ends on every input.
use ue4_background.Seri.{
  is_nil, max_cookie, type_boolean, type_nil, type_number, type_long_string, type_short_string,
  type_table, type_userdata, nil, integer, real, userdata,
}
use ue4_background.Seri.Read.{
  Result, Reader, ok, invalid, fault, ◌>>=◌, pure, fail, rb_read, read_number, get_integer,
  get_buffer, get_array_size, push_long_string, push_plain, push_value, unpack_one, unpack_table,
  unpack_values, unpack_pairs, unpack_all, luaseri_unpack, sign_extend, to_rounds,
}
use ue4_background.Prelude.{
  ℕ, zero, suc, ◌+◌, ◌-◌, ◌*◌, ◌/◌, ◌%◌, ◌^◌, ◌≤◌, ◌<◌, ◌≡◌, refl, inl, inr, Bool, true, false, not,
  ◌||◌, List, [], ◌∷◌, arith, ltb, ◌==◌, if◌then◌else◌, ltb→le, Bool-cases, length, length-drop_le,
}

-- A call came to its end: with fewer than `bound` bytes left, with an error, or with a fault.
pub data Ended {ℓ} {A : Type ℓ} (bound : ℕ) : Result (A × List ℕ) → Type ℓ where
  finished : {a : A} {rest : List ℕ} → length rest < bound → Ended bound (ok (a, rest))
  raised : Ended bound invalid
  broke : Ended bound fault

module _ {ℓ} {A : Type ℓ} where
  Ended-mono : {m n : ℕ} {r : Result (A × List ℕ)} → m ≤ n → Ended m r → Ended n r
  Ended-mono h (finished l) = finished (omega arith)
  Ended-mono h raised = raised
  Ended-mono h broke = broke

  Ended-through {κ} :
      {B : Type κ} {m n : ℕ} (r : Result (A × List ℕ)) (p : Reader A) (f : A → Reader B)
      (bs : List ℕ)
      → Ended m r
      → p bs ≡ r
      → ((a : A) (rest : List ℕ) → length rest < m → Ended n (f a rest))
      → Ended n ((p >>= f) bs)
  Ended-through r p f bs (finished {a = a} {rest = rest} l) e k = rw (e, ◌>>=◌) (k a rest l)
  Ended-through r p f bs raised e k = rw (e, ◌>>=◌) raised
  Ended-through r p f bs broke e k = rw (e, ◌>>=◌) broke

  Ended-bind {κ} :
      {B : Type κ} {m n : ℕ} (p : Reader A) (f : A → Reader B) (bs : List ℕ)
      → Ended m (p bs)
      → ((a : A) (rest : List ℕ) → length rest < m → Ended n (f a rest))
      → Ended n ((p >>= f) bs)
  Ended-bind p f bs e k = Ended-through (p bs) p f bs e refl k

-- A reader that never takes the bytes for more than they are.
abbrev Ends {ℓ} : {A : Type ℓ} → Reader A → Type ℓ
Ends p = (bs : List ℕ) → Ended (suc (length bs)) (p bs)

Ends-pure {ℓ} : {A : Type ℓ} (a : A) → Ends (pure a)
Ends-pure a bs = finished (omega arith)

Ends-fail {ℓ} : {A : Type ℓ} → Ends (fail {A = A})
Ends-fail bs = raised

Ends-bind {ℓ κ} :
    {A : Type ℓ} {B : Type κ} (p : Reader A) (f : A → Reader B)
    → Ends p
    → ((a : A) → Ends (f a))
    → Ends (p >>= f)
Ends-bind p f e k bs = Ended-bind p f bs (e bs) (λ a rest l. Ended-mono (omega arith) (k a rest))

Ends-if {ℓ} : {A : Type ℓ} (b : Bool) {x y : Reader A} → Ends x → Ends y → Ends (if b then x else y)
Ends-if true p q = p
Ends-if false p q = q

rb_read-Ended : (n : ℕ) (bs : List ℕ) → Ended (suc (length bs) - n) (rb_read n bs)
unfolding rb_read
rb_read-Ended n bs = elim (Bool-cases (ltb (length bs) n)) [
  | inl y ↦ rw y raised
  | inr y ↦
      let l : n ≤ length bs = ltb→le _ _ y in rw y (finished (omega (arith, length-drop_le n bs l)))
]

read_number-Ended : (n : ℕ) (bs : List ℕ) → Ended (suc (length bs) - n) (read_number n bs)
unfolding read_number
read_number-Ended n bs = Ended-bind (rb_read n) _ bs (rb_read-Ended n bs) (λ a rest l. finished l)

read_number-Ends : (n : ℕ) → Ends (read_number n)
read_number-Ends n bs = Ended-mono (omega arith) (read_number-Ended n bs)

get_integer-Ends : (cookie : ℕ) → Ends (get_integer cookie)
unfolding get_integer
get_integer-Ends cookie = Ends-if (cookie == 0) (Ends-pure 0) (
    Ends-if (cookie == 1) (read_number-Ends 1) (
      Ends-if (cookie == 2) (read_number-Ends 2) (
        Ends-if (cookie == 4)
          (Ends-bind (read_number 4) _ (read_number-Ends 4) (λ n. Ends-pure (sign_extend n)))
          (Ends-if (cookie == 6) (read_number-Ends 8) Ends-fail))))

get_buffer-Ends : (n : ℕ) → Ends (get_buffer n)
unfolding get_buffer
get_buffer-Ends n bs = elim (Bool-cases (ltb n (2 ^ 31))) [
  | inl y ↦
      rw y (Ended-bind (rb_read n) _ bs (rb_read-Ended n bs) (λ a rest l. finished (omega arith)))
  | inr y ↦ rw y broke
]

push_plain-Ends : (type cookie : ℕ) → Ends (push_plain type cookie)
unfolding push_plain push_long_string
push_plain-Ends type cookie = Ends-if (type == type_nil) (Ends-pure nil) (
    Ends-if (type == type_boolean) (Ends-pure _) (
      Ends-if (type == type_number)
        (Ends-if (cookie == 8)
          (Ends-bind (read_number 8) _ (read_number-Ends 8) (λ n. Ends-pure (real n)))
          (Ends-bind (get_integer cookie) _ (get_integer-Ends cookie) (λ n. Ends-pure (integer n))))
        (Ends-if (type == type_userdata)
          (Ends-bind (read_number 8) _ (read_number-Ends 8) (λ n. Ends-pure (userdata n)))
          (Ends-if (type == type_short_string) (get_buffer-Ends cookie) (
            Ends-if (type == type_long_string)
              (Ends-if (cookie == 2)
                (Ends-bind (read_number 2) _ (read_number-Ends 2) get_buffer-Ends)
                (Ends-if (cookie == 4)
                  (Ends-bind (read_number 4) _ (read_number-Ends 4) get_buffer-Ends) Ends-fail))
              Ends-fail)))))

get_array_size-Ends : (cookie : ℕ) → Ends (get_array_size cookie)
unfolding get_array_size
get_array_size-Ends cookie =
    Ends-if (cookie == max_cookie - 1)
      (Ends-bind (read_number 1) _ (read_number-Ends 1) (λ type.
        Ends-if (not (type % 8 == type_number) || type / 8 == 8) Ends-fail (
          Ends-bind (get_integer (type / 8)) _ (get_integer-Ends (type / 8))
            (λ n. Ends-pure (to_rounds n)))))
      (Ends-pure cookie)

mutual
  unfolding unpack_one

  unpack_one-Ended : (f : ℕ) (bs : List ℕ) → 4 * length bs < f → Ended (length bs) (unpack_one f bs)
  unpack_one-Ended zero bs h = absurd (omega arith)
  unpack_one-Ended (suc f) bs h =
      Ended-bind (read_number 1) _ bs (read_number-Ended 1 bs) (λ type rest l.
        Ended-mono (omega arith) (push_value-Ended f (type % 8) (type / 8) rest (omega arith)))

  push_value-Ended :
      (f type cookie : ℕ) (bs : List ℕ)
      → 4 * length bs + 3 < f
      → Ended (suc (length bs)) (push_value f type cookie bs)
  push_value-Ended zero type cookie bs h = absurd (omega arith)
  push_value-Ended (suc f) type cookie bs h = elim (Bool-cases (type == type_table)) [
    | inl y ↦ rw y (unpack_table-Ended f cookie bs (omega arith))
    | inr y ↦ rw y (push_plain-Ends type cookie bs)
  ]

  unpack_table-Ended :
      (f cookie : ℕ) (bs : List ℕ)
      → 4 * length bs + 2 < f
      → Ended (suc (length bs)) (unpack_table f cookie bs)
  unpack_table-Ended zero cookie bs h = absurd (omega arith)
  unpack_table-Ended (suc f) cookie bs h =
      Ended-bind (get_array_size cookie) _ bs (get_array_size-Ends cookie bs) (λ n rest l.
        Ended-bind (unpack_values f n) _ rest (unpack_values-Ended f n rest (omega arith))
          (λ vs rest' l'.
            Ended-bind (unpack_pairs f) _ rest' (unpack_pairs-Ended f rest' (omega arith))
              (λ ps rest'' l''. finished (omega arith))))

  unpack_values-Ended :
      (f n : ℕ) (bs : List ℕ)
      → 4 * length bs + 1 < f
      → Ended (suc (length bs)) (unpack_values f n bs)
  unpack_values-Ended zero n bs h = absurd (omega arith)
  unpack_values-Ended (suc f) zero bs h = finished (omega arith)
  unpack_values-Ended (suc f) (suc n) bs h =
      Ended-bind (unpack_one f) _ bs (unpack_one-Ended f bs (omega arith)) (λ v rest l.
        Ended-bind (unpack_values f n) _ rest (unpack_values-Ended f n rest (omega arith))
          (λ vs rest' l'. finished (omega arith)))

  unpack_pairs-Ended :
      (f : ℕ) (bs : List ℕ) → 4 * length bs + 1 < f → Ended (suc (length bs)) (unpack_pairs f bs)
  unpack_pairs-Ended zero bs h = absurd (omega arith)
  unpack_pairs-Ended (suc f) bs h =
      Ended-bind (unpack_one f) _ bs (unpack_one-Ended f bs (omega arith)) (λ k rest l.
        elim (Bool-cases (is_nil k)) [
          | inl y ↦ rw y (finished (omega arith))
          | inr y ↦ rw y (
              Ended-bind (unpack_one f) _ rest (unpack_one-Ended f rest (omega arith))
                (λ v rest' l'.
                  Ended-bind (unpack_pairs f) _ rest' (unpack_pairs-Ended f rest' (omega arith))
                    (λ ps rest'' l''. finished (omega arith))))
        ])

unpack_all-Ended : (f : ℕ) (bs : List ℕ) → length bs < f → Ended 1 (unpack_all f bs)
unfolding unpack_all
unpack_all-Ended zero bs h = absurd (omega arith)
unpack_all-Ended (suc f) [] h = finished (omega arith)
unpack_all-Ended (suc f) (t ∷ bs) h =
    Ended-bind (push_value (4 * length bs + 4) (t % 8) (t / 8)) _ bs
      (push_value-Ended (4 * length bs + 4) (t % 8) (t / 8) bs (omega arith))
      (λ v rest l.
        Ended-bind (unpack_all f) _ rest (unpack_all-Ended f rest (omega arith))
          (λ vs rest' l'. finished l'))

-- On every list of bytes `luaseri_unpack` comes to its end: it has read all of them, or raised an error,
-- or faulted at a negative length. The model's fuel never runs out.
pub luaseri_unpack-Ended : (bs : List ℕ) → Ended 1 (luaseri_unpack bs)
unfolding luaseri_unpack
luaseri_unpack-Ended bs = unpack_all-Ended (length bs + 1) bs (omega arith)
