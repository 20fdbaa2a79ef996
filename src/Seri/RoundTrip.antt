-- ===== src/Seri/RoundTrip.antt =====
-- What was packed is unpacked.
use ue4_background.Seri.Fuel.{
  received-is_nil, one_round, three_rounds, two_rounds, encode-pos, encode_size-pos,
}
use ue4_background.Seri.Read.{
  ◌>>=◌, luaseri_unpack, unpack_all, pure, ok, read_number, push_value, unpack_one, unpack_values,
  unpack_pairs,
}
use ue4_background.Seri.Plain.{
  plain_string, plain_userdata, plain_real, plain_integer, plain_boolean, plain_nil, table_read,
}
use ue4_background.Seri.Pack.{luaseri_pack_refines}
use ue4_background.Seri.Write.{luaseri_pack}
use ue4_background.Seri.{
  no_values, in_array, unsupported, value, with_pairs, count_values, is_nil, pair, Value, no_pairs,
  Pairs, Values, type_nil, nil, boolean, integer, real, userdata, string, table,
}
use ue4_background.Seri.Encode.{
  received_pairs, received_values, IsLua, encode_pairs, encode_values, AllLua, PairsLua, received,
  encode, encode_size,
}
use ue4_background.Seri.Reads.{>>=-ok, read_number-byte}
use ue4_background.Prelude.{
  ℕ, zero, suc, ◌+◌, ◌*◌, ◌/◌, ◌%◌, ◌^◌, ◌<◌, ◌≡◌, refl, sym, ◌∙◌, inl, inr, false, some, List, [],
  ◌∷◌, ◌++◌, append_assoc, arith, Bool-cases, length, length-append,
}

abbrev ReadsBack : Value → Type 0
ReadsBack v =
    IsLua v
    → (rest : List ℕ) (f : ℕ) → 4 * length (encode v) < f
    → unpack_one f (encode v ++ rest) ≡ ok (received v, rest)

abbrev ValuesBack : Values → Type 0
ValuesBack vs =
    AllLua vs
    → (rest : List ℕ) (f : ℕ) → 4 * length (encode_values vs) + 1 < f
    → unpack_values f (count_values vs) (encode_values vs ++ rest) ≡ ok (received_values vs, rest)

abbrev PairsBack : Pairs → Type 0
PairsBack ps =
    PairsLua ps
    → (size : ℕ) (rest : List ℕ) (f : ℕ) → 4 * length (encode_pairs size ps) + 1 < f
    → unpack_pairs f (encode_pairs size ps ++ rest) ≡ ok (received_pairs size ps, rest)

values_back : (v : Value) (vs : Values) → ReadsBack v → ValuesBack vs → ValuesBack (value v vs)
unfolding unpack_one encode received count_values
values_back v vs one more (l, ls) rest = one_round _ λ f h.
    let n = length-append (encode v) (encode_values vs) in
    let p = encode-pos v l in
    rw (append_assoc (encode v) (encode_values vs) rest) (
      >>=-ok (unpack_one f) _ _ _ (received v)
        (one l (encode_values vs ++ rest) f (omega (arith, n)))
      ∙ >>=-ok (unpack_values f (count_values vs)) _ _ _ (received_values vs)
          (more ls rest f (omega (arith, n, p))))

pairs_end : (rest : List ℕ) (f : ℕ) → 5 < f → unpack_pairs f (type_nil ∷ rest) ≡ ok (no_pairs, rest)
unfolding unpack_one
pairs_end rest zero h = absurd (omega arith)
pairs_end rest (suc zero) h = absurd (omega arith)
pairs_end rest (suc (suc zero)) h = absurd (omega arith)
pairs_end rest (suc (suc (suc f))) h =
    >>=-ok (unpack_one (suc (suc f))) _ _ _ nil (plain_nil rest f)

pairs_back :
    (k v : Value) (ps : Pairs) → ReadsBack k → ReadsBack v → PairsBack ps → PairsBack (pair k v ps)
unfolding unpack_one encode received
pairs_back k v ps key one more (lk, lv, ls) size rest f h = elim (Bool-cases (is_nil k)) [
  | inl y ↦ rw y (pairs_end rest f (omega (arith, rw y at h)))
  | inr y ↦ elim (Bool-cases (in_array size k)) [
    | inl z ↦ rw (y, z) (more ls size rest f (rw (y, z) at h))
    | inr z ↦ rw (y, z) (kept y f (rw (y, z) at h))
  ]
]
  where
    kept :
        is_nil k ≡ false
        → (g : ℕ) → 4 * length (encode k ++ (encode v ++ encode_pairs size ps)) + 1 < g
        → unpack_pairs g (encode k ++ (encode v ++ encode_pairs size ps) ++ rest)
          ≡ ok (pair (received k) (received v) (received_pairs size ps), rest)
    kept y = one_round _ λ g q.
        let n = length-append (encode k) (encode v ++ encode_pairs size ps) in
        let m = length-append (encode v) (encode_pairs size ps) in
        let p = encode-pos k lk in
        let test : is_nil (received k) ≡ false = received-is_nil k ∙ y in
        rw
          (
            append_assoc (encode k) (encode v ++ encode_pairs size ps) rest,
            append_assoc (encode v) (encode_pairs size ps) rest,
          )
          (>>=-ok (unpack_one g) _ _ _ (received k) (key lk _ g (omega (arith, n, m)))
            ∙ rw test (
                >>=-ok (unpack_one g) _ _ _ (received v) (one lv _ g (omega (arith, n, m, p)))
                ∙ >>=-ok (unpack_pairs g) _ _ _ (received_pairs size ps)
                    (more ls size rest g (omega (arith, n, m, p)))))

table_back :
    (f size : ℕ) (vs : Values) (ps : Pairs) (xs ys rest : List ℕ)
    → size < 2 ^ 31
    → 4 * length (encode_size size ++ (xs ++ ys)) < f
    → ((g : ℕ)
        → 4 * length (xs ++ ys) + 1 < g
        → unpack_values g size (xs ++ (ys ++ rest)) ≡ ok (vs, ys ++ rest))
    → ((g : ℕ) → 4 * length (xs ++ ys) + 1 < g → unpack_pairs g (ys ++ rest) ≡ ok (ps, rest))
    → unpack_one f (encode_size size ++ (xs ++ ys) ++ rest) ≡ ok (table vs ps, rest)
table_back f size vs ps xs ys rest n h values pairs =
    let a = length-append (encode_size size) (xs ++ ys) in
    let p = encode_size-pos size n in
    rw (append_assoc (encode_size size) (xs ++ ys) rest, append_assoc xs ys rest)
      (three_rounds
        (λ g. unpack_one g (encode_size size ++ (xs ++ (ys ++ rest))) ≡ ok (table vs ps, rest))
        (λ g q.
          table_read g size vs ps xs ys rest n (values g (omega (arith, a, p)))
            (pairs g (omega (arith, a, p))))
        f h (omega (arith, a, p)))

no_values_back : ValuesBack no_values
unfolding unpack_one encode received count_values
no_values_back l rest = one_round (λ g. unpack_values g 0 rest ≡ ok (no_values, rest)) (λ g _. refl)

mutual
  unfolding unpack_one encode received count_values

  unpack_one-ReadsBack : (v : Value) → ReadsBack v
  unpack_one-ReadsBack nil l rest f h =
      two_rounds (λ g. unpack_one g (type_nil ∷ rest) ≡ ok (nil, rest)) (λ g _. plain_nil rest g) f
        h (omega arith)
  unpack_one-ReadsBack (boolean b) l rest f h =
      two_rounds (λ g. unpack_one g (encode (boolean b) ++ rest) ≡ ok (boolean b, rest))
        (λ g _. plain_boolean b rest g) f h (omega arith)
  unpack_one-ReadsBack (integer v) l rest f h =
      two_rounds (λ g. unpack_one g (encode (integer v) ++ rest) ≡ ok (integer v, rest))
        (λ g _. plain_integer v rest l g) f h (omega (arith, encode-pos (integer v) l))
  unpack_one-ReadsBack (real v) l rest f h =
      two_rounds (λ g. unpack_one g (encode (real v) ++ rest) ≡ ok (real v, rest))
        (λ g _. plain_real v rest l g) f h (omega arith)
  unpack_one-ReadsBack (userdata v) l rest f h =
      two_rounds (λ g. unpack_one g (encode (userdata v) ++ rest) ≡ ok (userdata v, rest))
        (λ g _. plain_userdata v rest l g) f h (omega arith)
  unpack_one-ReadsBack (string str) l rest f h =
      two_rounds (λ g. unpack_one g (encode (string str) ++ rest) ≡ ok (string str, rest))
        (λ g _. plain_string str rest l g) f h (omega (arith, encode-pos (string str) l))
  unpack_one-ReadsBack unsupported l rest f h = elim l [ ]
  unpack_one-ReadsBack (table vs ps) (n, lv, lp, lk) rest f h =
      let size = count_values vs in
      let b = length-append (encode_values vs) (encode_pairs size ps) in
      table_back f size (received_values vs) (received_pairs size ps) (encode_values vs)
        (encode_pairs size ps) rest n h
        (λ g q. unpack_values-ValuesBack vs lv (encode_pairs size ps ++ rest) g (omega (arith, b)))
        (λ g q. unpack_pairs-PairsBack ps lp size rest g (omega (arith, b)))
  unpack_one-ReadsBack (with_pairs ps) lp rest f h =
      table_back f 0 no_values (received_pairs 0 ps) [] (encode_pairs 0 ps) rest (omega arith) h
        (λ g q. no_values_back tt (encode_pairs 0 ps ++ rest) g (omega arith))
        (λ g q. unpack_pairs-PairsBack ps lp 0 rest g q)

  unpack_values-ValuesBack : (vs : Values) → ValuesBack vs
  unpack_values-ValuesBack no_values = no_values_back
  unpack_values-ValuesBack (value v vs) =
      values_back v vs (unpack_one-ReadsBack v) (unpack_values-ValuesBack vs)

  unpack_pairs-PairsBack : (ps : Pairs) → PairsBack ps
  unpack_pairs-PairsBack no_pairs = λ l size rest f h. pairs_end rest f (omega arith)
  unpack_pairs-PairsBack (pair k v ps) =
      pairs_back k v ps (unpack_one-ReadsBack k) (unpack_one-ReadsBack v)
        (unpack_pairs-PairsBack ps)

unpack_all-step :
    (f : ℕ) (bs rest : List ℕ) (v : Value)
    → 0 < length bs
    → unpack_one (4 * length bs + 1) bs ≡ ok (v, rest)
    → unpack_all (suc f) bs ≡ (unpack_all f >>= λ vs. pure (value v vs)) rest
unfolding unpack_all unpack_one
unpack_all-step f [] rest v p e = absurd (omega arith)
unpack_all-step f (t ∷ bs) rest v p e =
    let fuel : 4 * suc (length bs) + 1 ≡ suc (4 * length bs + 4) = omega arith in
    let first : unpack_one (suc (4 * length bs + 4)) (t ∷ bs)
        ≡ push_value (4 * length bs + 4) (t % 8) (t / 8) bs =
      >>=-ok (read_number 1) (λ x. push_value (4 * length bs + 4) (x % 8) (x / 8)) (t ∷ bs) bs t
        (read_number-byte t bs) in
    >>=-ok (push_value (4 * length bs + 4) (t % 8) (t / 8))
      (λ w. unpack_all f >>= λ vs. pure (value w vs)) bs rest v (sym first ∙ (rw fuel at e))

unpack_all-encode_values :
    (vs : Values) (f : ℕ)
    → AllLua vs
    → length (encode_values vs) < f
    → unpack_all f (encode_values vs) ≡ ok (received_values vs, [])
unfolding unpack_all encode received
unpack_all-encode_values no_values zero l h = absurd (omega arith)
unpack_all-encode_values no_values (suc f) l h = refl
unpack_all-encode_values (value v vs) zero l h = absurd (omega arith)
unpack_all-encode_values (value v vs) (suc f) (l, ls) h =
    let n = length-append (encode v) (encode_values vs) in
    let p = encode-pos v l in
    unpack_all-step f (encode v ++ encode_values vs) (encode_values vs) (received v)
      (omega (arith, n, p))
      (unpack_one-ReadsBack v l (encode_values vs) (4 * length (encode v ++ encode_values vs) + 1)
        (omega (arith, n)))
    ∙ >>=-ok (unpack_all f) _ _ _ (received_values vs)
        (unpack_all-encode_values vs f ls (omega (arith, n, p)))

-- Values that `luaseri_pack` takes without an error come back from `luaseri_unpack`, with no bytes left:
-- nil, booleans, integers, floats, light userdata and strings as they were, and each table as its array
-- with its other pairs. The values are of supported types, with numbers of 64 bits, strings and arrays
-- whose length is an int, and tables with no nil key.
pub luaseri_unpack-luaseri_pack :
    (vs : Values) (out : List ℕ)
    → AllLua vs
    → luaseri_pack vs ≡ some out
    → luaseri_unpack out ≡ ok (received_values vs, [])
unfolding luaseri_unpack
luaseri_unpack-luaseri_pack vs out l e =
    let q = luaseri_pack_refines vs out l e in
    rw q (unpack_all-encode_values vs (length (encode_values vs) + 1) l (omega arith))
