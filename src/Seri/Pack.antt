-- ===== src/Seri/Pack.antt =====
-- What `pack_one` writes is the encoding of the value.
use ue4_background.Seri.Scalars.{wb_array_size-Wrote, wb_string-Wrote, push_twice, wb_integer-Wrote}
use ue4_background.Seri.{
  no_pairs, no_values, is_nil, pair, type_nil, Pairs, value, unsupported, nil, count_values,
  with_pairs, table, string, userdata, real, boolean, integer, Values, in_array, Value,
  combine_type, type_table,
}
use ue4_background.Seri.Encode.{
  KeysLua, PairsLua, encode_pairs, IsLua, AllLua, encode_values, encode, encode_size,
}
use ue4_background.Seri.Write.{
  pack_metapairs, pack_hash, wb_pointer, wb_real, pack_values, wb_boolean, wb_nil, pack_from,
  luaseri_pack, pack_one, wb_init, WriteBlock, at_depth, le_bytes, max_depth, wb_array_size,
  wb_push,
}
use ue4_background.Seri.Blocks.{
  seri_lem, wb_init-IsBlocks, bytes, IsBlocks, Wrote, wb_push-Wrote, Wrote-Wrote,
}
use ue4_background.Prelude.{
  ℕ, suc, ◌≡◌, refl, sym, subst, ◌∙◌, inl, inr, false, Option, some, List, [], ◌∷◌, ◌++◌,
  append-nil, arith, ltb, Bool-cases, bind-some,
}

at_depth-some :
    (depth : ℕ) (r : Option WriteBlock) {x : WriteBlock} → at_depth depth r ≡ some x → r ≡ some x
at_depth-some depth r e = elim (Bool-cases (ltb max_depth depth)) [
  | inl y ↦ absurd (cc (rw y at e))
  | inr y ↦ rw y at e
]

-- Nothing is written.
Wrote-none : (b : WriteBlock) → IsBlocks b → Wrote b [] b
Wrote-none b i = record { blocks = i; content = sym (append-nil (bytes b)) }

encode_size_zero : encode_size 0 ≡ combine_type type_table 0 ∷ []
unfolding encode_size
encode_size_zero = refl

in_array_none : (k : Value) → in_array 0 k ≡ false
in_array_none (integer x) = ground arith
in_array_none nil = refl
in_array_none (boolean b) = refl
in_array_none (real x) = refl
in_array_none (userdata x) = refl
in_array_none (string x) = refl
in_array_none (table vs ps) = refl
in_array_none (with_pairs ps) = refl
in_array_none unsupported = refl

wb_init-bytes : (vs : Values) → bytes wb_init ++ encode_values vs ≡ encode_values vs
unfolding wb_init
wb_init-bytes vs = refl

written :
    (depth : ℕ) {b b' x : WriteBlock} {buffer : List ℕ}
    → at_depth depth (some x) ≡ some b'
    → Wrote b buffer x
    → Wrote b buffer b'
written depth {b = b} {x = x} {buffer = buffer} e w =
    subst (Wrote b buffer) (cc (at_depth-some depth (some x) e)) w

mutual
  unfolding pack_one encode wb_nil wb_boolean wb_real wb_pointer

  pack_one-Wrote :
      (v : Value) (depth : ℕ) (b b' : WriteBlock)
      → IsLua v
      → pack_one depth b v ≡ some b'
      → IsBlocks b
      → Wrote b (encode v) b'
  pack_one-Wrote nil depth b b' l e i = written depth e (wb_push-Wrote b _ i)
  pack_one-Wrote (boolean x) depth b b' l e i = written depth e (wb_push-Wrote b _ i)
  pack_one-Wrote (integer x) depth b b' l e i = written depth e (wb_integer-Wrote b x i)
  pack_one-Wrote (real x) depth b b' l e i = written depth e (push_twice b _ (le_bytes 8 x) i)
  pack_one-Wrote (userdata x) depth b b' l e i = written depth e (push_twice b _ (le_bytes 8 x) i)
  pack_one-Wrote (string str) depth b b' l e i = written depth e (wb_string-Wrote b str i)
  pack_one-Wrote unsupported depth b b' l e i = elim l [ ]
  pack_one-Wrote (table vs ps) depth b b' (n, lv, lp, lk) e i =
      let size = count_values vs in
      let w = wb_array_size-Wrote b size i in
      let (x, p, q) =
        bind-some (pack_values (suc depth) (wb_array_size b size) vs) _ (at_depth-some depth _ e) in
      let (y, r, t) = bind-some (pack_hash (suc depth) size x ps) _ q in
      let wv = pack_values-Wrote vs (suc depth) (wb_array_size b size) x lv p w.blocks in
      let wp = pack_hash-Wrote ps (suc depth) size x y lp lk r wv.blocks in
      subst (Wrote b (encode (table vs ps))) (cc t) (Wrote-Wrote w (Wrote-Wrote wv wp))
  pack_one-Wrote (with_pairs ps) depth b b' lp e i =
      let (y, r, t) =
        bind-some (pack_metapairs (suc depth) (wb_push b (combine_type type_table 0 ∷ [])) ps) _
          (at_depth-some depth _ e) in
      let w = wb_push-Wrote b (combine_type type_table 0 ∷ []) i in
      let wp = pack_metapairs-Wrote ps (suc depth) _ y lp r w.blocks in
      subst (Wrote b (encode (with_pairs ps))) (cc t) (
        subst (λ z. Wrote b (z ++ encode_pairs 0 ps) (wb_nil y)) (sym encode_size_zero)
          (Wrote-Wrote w wp))

  pack_values-Wrote :
      (vs : Values) (depth : ℕ) (b b' : WriteBlock)
      → AllLua vs
      → pack_values depth b vs ≡ some b'
      → IsBlocks b
      → Wrote b (encode_values vs) b'
  pack_values-Wrote no_values depth b b' l e i = subst (Wrote b []) (cc e) (Wrote-none b i)
  pack_values-Wrote (value v vs) depth b b' (l, ls) e i =
      let (x, p, q) = bind-some (pack_one depth b v) _ e in
      let w = pack_one-Wrote v depth b x l p i in
      Wrote-Wrote w (pack_values-Wrote vs depth x b' ls q w.blocks)

  pack_hash-Wrote :
      (ps : Pairs) (depth size : ℕ) (b b' : WriteBlock)
      → PairsLua ps
      → KeysLua ps
      → pack_hash depth size b ps ≡ some b'
      → IsBlocks b
      → Wrote b (encode_pairs size ps) (wb_nil b')
  pack_hash-Wrote no_pairs depth size b b' l k e i =
      subst (λ z. Wrote b (type_nil ∷ []) (wb_nil z)) (cc e) (wb_push-Wrote b _ i)
  pack_hash-Wrote (pair k v ps) depth size b b' (lk, lv, ls) (n, ns) e i =
      elim (Bool-cases (in_array size k)) [
        | inl y ↦ rw (n, y) (pack_hash-Wrote ps depth size b b' ls ns (rw y at e) i)
        | inr y ↦
            let (x, p, q) = bind-some (pack_one depth b k) _ (rw y at e) in
            let (z, r, t) = bind-some (pack_one depth x v) _ q in
            let wk = pack_one-Wrote k depth b x lk p i in
            let wv = pack_one-Wrote v depth x z lv r wk.blocks in
            rw (n, y)
              (Wrote-Wrote wk
                (Wrote-Wrote wv (pack_hash-Wrote ps depth size z b' ls ns t wv.blocks)))
      ]

  pack_metapairs-Wrote :
      (ps : Pairs) (depth : ℕ) (b b' : WriteBlock)
      → PairsLua ps
      → pack_metapairs depth b ps ≡ some b'
      → IsBlocks b
      → Wrote b (encode_pairs 0 ps) (wb_nil b')
  pack_metapairs-Wrote no_pairs depth b b' l e i =
      subst (λ z. Wrote b (type_nil ∷ []) (wb_nil z)) (cc e) (wb_push-Wrote b _ i)
  pack_metapairs-Wrote (pair k v ps) depth b b' (lk, lv, ls) e i = elim (Bool-cases (is_nil k)) [
    | inl y ↦
        let f : some b ≡ some b' = rw y at e in
        rw y (subst (λ z. Wrote b (type_nil ∷ []) (wb_nil z)) (cc f) (wb_push-Wrote b _ i))
    | inr y ↦
        let (x, p, q) = bind-some (pack_one depth b k) _ (rw y at e) in
        let (z, r, t) = bind-some (pack_one depth x v) _ q in
        let wk = pack_one-Wrote k depth b x lk p i in
        let wv = pack_one-Wrote v depth x z lv r wk.blocks in
        rw (y, in_array_none k)
          (Wrote-Wrote wk (Wrote-Wrote wv (pack_metapairs-Wrote ps depth z b' ls t wv.blocks)))
  ]

-- `luaseri_pack`, when no error is raised, gives the encodings of its arguments, one behind the other,
-- however the blocks divide them.
pub luaseri_pack_refines :
    (vs : Values) (out : List ℕ) → AllLua vs → luaseri_pack vs ≡ some out → out ≡ encode_values vs
unfolding luaseri_pack pack_from
luaseri_pack_refines vs out l e =
    let (wb, p, q) = bind-some (pack_values 0 wb_init vs) _ e in
    let w = pack_values-Wrote vs 0 wb_init wb l p wb_init-IsBlocks in
    sym (cc q) ∙ seri_lem wb w.blocks ∙ w.content ∙ wb_init-bytes vs
