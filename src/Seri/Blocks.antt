-- ===== src/Seri/Blocks.antt =====
-- The blocks of the writer are one list of bytes.
use ue4_background.Seri.Write.{
  WriteBlock, append_bytes, block_size, next_block, push_rounds, seri, wb_init, wb_push,
}
use ue4_background.Prelude.{
  ℕ, zero, suc, ◌+◌, ◌-◌, ◌≤◌, ◌<◌, ◌≡◌, refl, sym, ap, ap₂, subst, ◌∙◌, inl, inr, true, List, [],
  ◌∷◌, ◌++◌, append-nil, append_assoc, arith, leb, ◌==◌, if◌then◌else◌, ==_iff, Bool-cases, length,
  take, drop, length-append, take-drop, length-take_le, length-drop_le, take_all, joined,
  joined_snoc,
}

abbrev pub bytes : WriteBlock → List ℕ
bytes b = joined b.full ++ b.current

abbrev pub AllFull : List (List ℕ) → Type 0
AllFull [] = Unit
AllFull (b ∷ bs) = (length b ≡ block_size) × AllFull bs

-- The earlier blocks are full, the current one has room for no more than its size, and `len` counts.
pub record IsBlocks (b : WriteBlock) : Type 0 where
  pub full : AllFull b.full
  pub room : length b.current ≤ block_size
  pub counted : b.len ≡ length (bytes b)

-- `b'` is `b` with `buffer` written behind.
pub record Wrote (b : WriteBlock) (buffer : List ℕ) (b' : WriteBlock) : Type 0 where
  pub blocks : IsBlocks b'
  pub content : bytes b' ≡ bytes b ++ buffer

AllFull-snoc :
    (bs : List (List ℕ)) (b : List ℕ) → AllFull bs → length b ≡ block_size → AllFull (bs ++ b ∷ [])
AllFull-snoc [] b f l = (l, tt)
AllFull-snoc (c ∷ bs) b f l = (f.0, AllFull-snoc bs b f.1 l)

append_bytes-Wrote :
    (b : WriteBlock) (buffer : List ℕ)
    → IsBlocks b
    → length buffer + length b.current ≤ block_size
    → Wrote b buffer (append_bytes b buffer)
append_bytes-Wrote b buffer v l =
    let e : joined b.full ++ (b.current ++ buffer) ≡ bytes b ++ buffer =
      sym (append_assoc (joined b.full) b.current buffer) in
    record {
      blocks = record {
        full = v.full;
        room = omega (arith, length-append b.current buffer);
        counted = omega (arith, v.counted, ap length e, length-append (bytes b) buffer);
      };
      content = e;
    }

next_block-bytes : (b : WriteBlock) → bytes (next_block b) ≡ bytes b
next_block-bytes b = append-nil (joined (b.full ++ b.current ∷ [])) ∙ joined_snoc b.full b.current

next_block-IsBlocks :
    (b : WriteBlock) → IsBlocks b → length b.current ≡ block_size → IsBlocks (next_block b)
next_block-IsBlocks b v l = record {
  full = AllFull-snoc b.full b.current v.full l;
  room = omega arith;
  counted = v.counted ∙ ap length (sym (next_block-bytes b));
}

pub Wrote-Wrote :
    {b b' b'' : WriteBlock} {x y : List ℕ} → Wrote b x b' → Wrote b' y b'' → Wrote b (x ++ y) b''
Wrote-Wrote {b = b} {x = x} {y = y} w w' = record {
  blocks = w'.blocks;
  content = w'.content ∙ ap (λ z. z ++ y) w.content ∙ append_assoc (bytes b) x y;
}

module _ (n : ℕ)
    (again : (b : WriteBlock) (buffer : List ℕ)
      → IsBlocks b
      → length buffer < n
      → Wrote b buffer (push_rounds n b buffer)) where
  -- A round at a block with room.
  round :
      (b : WriteBlock) (buffer : List ℕ)
      → IsBlocks b
      → length b.current < block_size
      → length buffer < suc n
      → let copy = block_size - length b.current in
        Wrote b buffer (
          if leb (length buffer) copy
          then append_bytes b buffer
          else push_rounds n (append_bytes b (take copy buffer)) (drop copy buffer))
  round b buffer v l k =
      let copy = block_size - length b.current in
      elim (Bool-cases (leb (length buffer) copy)) [
        | inl y ↦ rw y (append_bytes-Wrote b buffer v (ground arith))
        | inr y ↦
            let q : copy < length buffer = ground arith in
            let len : length (drop copy buffer) + copy ≡ length buffer =
              length-drop_le copy buffer (omega arith) in
            let w =
              append_bytes-Wrote b (take copy buffer) v
                (omega (arith, length-take_le copy buffer (omega arith))) in
            rw y (
              subst
                (λ z.
                  Wrote b z (push_rounds n (append_bytes b (take copy buffer)) (drop copy buffer)))
                (take-drop copy buffer)
                (Wrote-Wrote w (
                  again (append_bytes b (take copy buffer)) (drop copy buffer) w.blocks
                    (omega arith))))
      ]

push_rounds_lem :
    (n : ℕ) (b : WriteBlock) (buffer : List ℕ)
    → IsBlocks b
    → length buffer < n
    → Wrote b buffer (push_rounds n b buffer)
unfolding push_rounds
push_rounds_lem zero b buffer v l = absurd (omega arith)
push_rounds_lem (suc n) b buffer v l = elim (Bool-cases (length b.current == block_size)) [
  | inl y ↦
      let full : length b.current ≡ block_size = (==_iff _ _).0 y in
      let w =
        round n (push_rounds_lem n) (next_block b) buffer (next_block-IsBlocks b v full)
          (omega arith) l in
      rw y (record {
        blocks = w.blocks;
        content = w.content ∙ ap (λ z. z ++ buffer) (next_block-bytes b);
      })
  | inr y ↦ rw y (round n (push_rounds_lem n) b buffer v (ground (arith, v.room)) l)
]

-- `wb_push` ends, and writes the buffer behind what is there.
pub wb_push-Wrote :
    (b : WriteBlock) (buffer : List ℕ) → IsBlocks b → Wrote b buffer (wb_push b buffer)
unfolding wb_push
wb_push-Wrote b buffer v = push_rounds_lem (length buffer + 1) b buffer v (omega arith)

pub wb_init-IsBlocks : IsBlocks wb_init
unfolding wb_init
wb_init-IsBlocks = record { full = tt; room = omega arith; counted = refl }

seri_rounds :
    (bs : List (List ℕ)) (c : List ℕ) (len : ℕ)
    → AllFull bs
    → length c ≤ block_size
    → len ≡ length (joined bs ++ c)
    → seri (bs ++ c ∷ []) len ≡ joined bs ++ c
unfolding seri
seri_rounds [] c len f l e = elim (Bool-cases (leb block_size len)) [
  | inl y ↦
      let q : block_size ≡ length c = ground arith in
      rw y (append-nil (take block_size c) ∙ ap (λ z. take z c) q ∙ take_all c)
  | inr y ↦ rw y (ap (λ z. take z c) e ∙ take_all c)
]
seri_rounds (b ∷ bs) c len f l e =
    let n : length (b ++ joined bs ++ c) ≡ block_size + length (joined bs ++ c) = omega (
      arith,
      length-append (b ++ joined bs) c,
      length-append b (joined bs),
      length-append (joined bs) c,
      f.0,
    ) in
    let y : leb block_size len ≡ true = ground (arith, n) in
    rw y (
      ap₂ (λ u v. u ++ v) (ap (λ z. take z b) (sym f.0) ∙ take_all b)
        (seri_rounds bs c (len - block_size) f.1 l (omega (arith, n, e)))
      ∙ sym (append_assoc b (joined bs) c))

-- `seri` copies all bytes.
pub seri_lem : (b : WriteBlock) → IsBlocks b → seri (b.full ++ b.current ∷ []) b.len ≡ bytes b
seri_lem b v = seri_rounds b.full b.current b.len v.full v.room v.counted
