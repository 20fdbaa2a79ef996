-- ===== src/Crypt/Base64/Bounds.antt =====
-- lualib-src/lua-crypt.c: what the codec for base 64 writes stays in the buffers that it asks for.
use ue4_background.Crypt.Base64.{
  decode_size, write_codes, written, refused, finished, unfinished, Ending, b64index, keep_code,
  decode_fours, four_codes, lb64decode, lb64encode, next_codes,
}
use ue4_background.Crypt.Base64.Tables.{mark, sextet, other, Code}
use ue4_background.Crypt.{◌>>=◌, overrun, invalid, Outcome, ok}
use ue4_background.Prelude.{
  ℕ, zero, suc, ◌+◌, ◌*◌, ◌/◌, ◌≤◌, ◌≡◌, refl, ap, ◌≢◌, ◌⊎◌, inl, inr, true, Option, none, some,
  List, [], ◌∷◌, arith, ◌==◌, Bool-cases, length, length-append,
}

bind-ok :
    {A B : Type 0} (r : Outcome A) (f : A → Outcome B) (b : B)
    → (r >>= f) ≡ ok b
    → (a : A) × (r ≡ ok a) × (f a ≡ ok b)
bind-ok (ok a) f b e = (a, refl, e)
bind-ok invalid f b e = absurd (ground (arith, e))
bind-ok overrun f b e = absurd (ground (arith, e))

ok_inj : {A : Type 0} {a b : A} → ok a ≡ ok b → a ≡ b
ok_inj {A = A} {a = a} e = ap (λ r. elim r as (λ u. A) [ ok x ↦ x | invalid ↦ a | overrun ↦ a ]) e

module _ (n : ℕ) (text : List ℕ) (w : List Code × List ℕ) where
  kept_left :
      (c : Code)
      → ((u : List Code × List ℕ) → next_codes n text ≡ ok u → length u.1 + n ≤ length text)
      → (next_codes n text >>= λ u. ok (keep_code c u)) ≡ ok w
      → length w.1 + suc n ≤ suc (length text)
  kept_left c h e =
      let (u, p, q) = bind-ok (next_codes n text) (λ u. ok (keep_code c u)) w e in
      omega (arith, h u p, ap (λ v. length v.1) (ok_inj q))

  left_by_code :
      (c : Code)
      → ((u : List Code × List ℕ) → next_codes n text ≡ ok u → length u.1 + n ≤ length text)
      → (next_codes (suc n) text ≡ ok w → length w.1 + suc n ≤ length text)
      → elim c as (λ u. Outcome (List Code × List ℕ)) [
        | other ↦ next_codes (suc n) text
        | mark ↦ next_codes n text >>= λ u. ok (keep_code mark u)
        | sextet k ↦ next_codes n text >>= λ u. ok (keep_code (sextet k) u)
      ]
        ≡ ok w
      → length w.1 + suc n ≤ suc (length text)
  left_by_code (sextet k) h i e = kept_left (sextet k) h e
  left_by_code mark h i e = kept_left mark h e
  left_by_code other h i e = omega (arith, i e)

-- Each code takes a character.
next_codes-left :
    (n : ℕ) (text : List ℕ) (w : List Code × List ℕ)
    → next_codes n text ≡ ok w
    → length w.1 + n ≤ length text
unfolding next_codes
next_codes-left zero text w e = omega (arith, ap (λ u. length u.1) (ok_inj e))
next_codes-left (suc n) [] w e = absurd (ground (arith, e))
next_codes-left (suc n) (x ∷ text) w e =
    left_by_code n text w (b64index x) (next_codes-left n text) (next_codes-left (suc n) text w) e

size : Outcome (List ℕ) → ℕ
size (ok bs) = length bs
size invalid = 0
size overrun = 0

size-four_codes : (cs : List Code) → size (four_codes cs) ≤ 3
unfolding four_codes size
size-four_codes cs = ground arith

four_codes-length : (cs : List Code) (out : List ℕ) → four_codes cs ≡ ok out → length out ≤ 3
unfolding size
four_codes-length cs out e = omega (arith, size-four_codes cs, ap size e)

write_codes-length :
    (r : Outcome (List ℕ)) (rest : List ℕ × Ending)
    → length (write_codes r rest).0 ≤ size r + length rest.0
unfolding write_codes size
write_codes-length (ok bs) rest = omega (arith, length-append bs rest.0)
write_codes-length invalid rest = omega arith
write_codes-length overrun rest = omega arith

write_codes-ends :
    (r : Outcome (List ℕ)) (rest : List ℕ × Ending)
    → rest.1 ≢ unfinished
    → (write_codes r rest).1 ≢ unfinished
unfolding write_codes
write_codes-ends (ok bs) rest n = n
write_codes-ends invalid rest n = λ e. absurd (ground (arith, e))
write_codes-ends overrun rest n = λ e. absurd (ground (arith, e))

Outcome-cases :
    {A : Type 0} (r : Outcome A) → ((a : A) × (r ≡ ok a)) ⊎ ((r ≡ invalid) ⊎ (r ≡ overrun))
Outcome-cases (ok a) = inl (a, refl)
Outcome-cases invalid = inr (inl refl)
Outcome-cases overrun = inr (inr refl)

decode_fours-length : (g : ℕ) (text : List ℕ) → length (decode_fours g text).0 ≤ length text / 4 * 3
unfolding decode_fours
decode_fours-length zero text = omega arith
decode_fours-length (suc g) text = elim (Bool-cases (length text == 0)) [
  | inl z ↦ rw z (omega arith)
  | inr z ↦ elim (Outcome-cases (next_codes 4 text)) [
    | inl (w, p) ↦
        rw (z, p)
          (omega (
            arith,
            next_codes-left 4 text w p,
            size-four_codes w.0,
            write_codes-length (four_codes w.0) (decode_fours g w.1),
            decode_fours-length g w.1,
          ))
    | inr (inl p) ↦ rw (z, p) (omega arith)
    | inr (inr p) ↦ rw (z, p) (omega arith)
  ]
]

-- Whatever the text, and whether or not it is refused, the bytes that lb64decode writes fit in the
-- `decode_sz` bytes of its buffer.
pub length-written : (text : List ℕ) → length (written text) ≤ decode_size (length text)
unfolding written decode_size
length-written text = omega (arith, decode_fours-length (length text) text)

-- The characters of `lb64encode` are the `encode_sz` of its buffer.
pub length-lb64encode : (bs : List ℕ) → length (lb64encode bs) ≡ (length bs + 2) / 3 * 4
unfolding lb64encode
length-lb64encode [] = refl
length-lb64encode (a ∷ []) = refl
length-lb64encode (a ∷ b ∷ []) = refl
length-lb64encode (a ∷ b ∷ c ∷ bs) = omega (arith, length-lb64encode bs)

decode_fours-ends : (g : ℕ) (text : List ℕ) → length text ≤ g → (decode_fours g text).1 ≢ unfinished
unfolding decode_fours
decode_fours-ends zero text l =
    let z : (length text == 0) ≡ true = ground arith in rw z λ e. absurd (ground (arith, e))
decode_fours-ends (suc g) text l = elim (Bool-cases (length text == 0)) [
  | inl z ↦ rw z λ e. absurd (ground (arith, e))
  | inr z ↦ elim (Outcome-cases (next_codes 4 text)) [
    | inl (w, p) ↦
        let left = next_codes-left 4 text w p in
        let rest = decode_fours-ends g w.1 (omega (arith, left)) in
        rw (z, p) (write_codes-ends (four_codes w.0) (decode_fours g w.1) rest)
    | inr (inl p) ↦ rw (z, p) λ e. absurd (ground (arith, e))
    | inr (inr p) ↦ rw (z, p) λ e. absurd (ground (arith, e))
  ]
]

-- On every text the loop of `lb64decode` ends: the call returns bytes or raises an error.
pub lb64decode-ends : (text : List ℕ) → lb64decode text ≢ none
unfolding lb64decode
lb64decode-ends text =
    ended (decode_fours (length text) text).1 (decode_fours-ends (length text) text (omega arith))
  where
    ended :
        (e : Ending)
        → e ≢ unfinished
        → elim e as (λ u. Option (Outcome (List ℕ))) [
          | finished ↦ some (ok (written text))
          | refused ↦ some invalid
          | unfinished ↦ none
        ]
          ≢ none
    ended finished n = λ e. absurd (ground (arith, e))
    ended refused n = λ e. absurd (ground (arith, e))
    ended unfinished n = absurd (n refl)
