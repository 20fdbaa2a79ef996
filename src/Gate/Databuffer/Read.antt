-- ===== src/Gate/Databuffer/Read.antt =====
-- The buffer of pieces is a queue of bytes.
use ue4_background.Gate.Databuffer.{databuffer_read, Databuffer, read_pieces}
use ue4_background.Prelude.{
  ℕ, ◌+◌, ◌-◌, ◌≤◌, ◌<◌, ◌≡◌, refl, sym, ap, ap₂, ◌∙◌, ◌≢◌, inl, inr, false, some, List, [], ◌∷◌,
  ◌++◌, arith, ltb, ◌==◌, ltb→lt, ltb_of_le, ltb→le, ==_iff, Bool-cases, length, take, drop,
  length-append, length-drop_le, drop-append, take-append, take-append_past, drop-append_past,
  drop-drop, take_all, joined,
}

-- The bytes that are not read yet.
abbrev pub unread : Databuffer → List ℕ
unread db = drop db.offset (joined db.pieces)

-- No piece is empty.
abbrev pub AllFilled : List (List ℕ) → Type 0
AllFilled [] = Unit
AllFilled (p ∷ ps) = (0 < length p) × AllFilled ps

-- `offset` is in the first piece.
abbrev pub InFirst : ℕ → List (List ℕ) → Type 0
InFirst offset [] = offset ≡ 0
InFirst offset (p ∷ ps) = offset < length p

pub record IsBuffer (db : Databuffer) : Type 0 where
  pub counted : length (unread db) ≡ db.size
  pub filled : AllFilled db.pieces
  pub in_first : InFirst db.offset db.pieces

AllFilled-InFirst : (ps : List (List ℕ)) → AllFilled ps → InFirst 0 ps
AllFilled-InFirst [] f = refl
AllFilled-InFirst (p ∷ ps) f = f.0

-- What the loop reads are the first bytes, and the others stay.
record PiecesRead (bytes : List ℕ) (sz : ℕ) (r : List ℕ × ℕ × List (List ℕ)) : Type 0 where
  copied : r.0 ≡ take sz bytes
  left : drop r.1 (joined r.2) ≡ drop sz bytes
  filled : AllFilled r.2
  in_first : InFirst r.1 r.2

PiecesRead-past :
    (current : List ℕ) (pieces : List (List ℕ)) (offset sz : ℕ) (r : List ℕ × ℕ × List (List ℕ))
    → offset < length current
    → length current - offset ≤ sz
    → PiecesRead (joined pieces) (sz - (length current - offset)) r
    → PiecesRead
        (drop offset (current ++ joined pieces))
        sz
        (take (length current - offset) (drop offset current) ++ r.0, r.1, r.2)
PiecesRead-past current pieces offset sz r i k x =
    let d = drop offset current in
    let bsz = length current - offset in
    let e : drop offset (current ++ joined pieces) ≡ d ++ joined pieces =
      drop-append offset current (joined pieces) (omega arith) in
    let n : length d + offset ≡ length current = length-drop_le offset current (omega arith) in
    let same : sz - length d ≡ sz - bsz = omega arith in
    let t : take bsz d ≡ d = ap (λ u. take u d) (omega arith) ∙ take_all d in
    let past : length d ≤ sz = omega arith in
    record {
      copied =
          ap₂ (λ u v. u ++ v) t x.copied
          ∙ ap (λ u. d ++ take u (joined pieces)) (sym same)
          ∙ sym (take-append_past sz d (joined pieces) past)
          ∙ ap (λ u. take sz u) (sym e);
      left =
          x.left
          ∙ ap (λ u. drop u (joined pieces)) (sym same)
          ∙ sym (drop-append_past sz d (joined pieces) past)
          ∙ ap (λ u. drop sz u) (sym e);
      filled = x.filled;
      in_first = x.in_first;
    }

read_pieces_lem :
    (pieces : List (List ℕ)) (offset sz : ℕ)
    → AllFilled pieces
    → InFirst offset pieces
    → 0 < sz
    → sz ≤ length (drop offset (joined pieces))
    → (r : List ℕ × ℕ × List (List ℕ)) × (read_pieces pieces offset sz ≡ some r)
      × PiecesRead (drop offset (joined pieces)) sz r
unfolding read_pieces
read_pieces_lem [] offset sz f i p l = let l' : sz ≤ 0 = rw i at l in absurd (omega arith)
read_pieces_lem (current ∷ pieces) offset sz (c, f) i p l =
    let d = drop offset current in
    let e : drop offset (current ++ joined pieces) ≡ d ++ joined pieces =
      drop-append offset current (joined pieces) (omega arith) in
    let n : length d + offset ≡ length current = length-drop_le offset current (omega arith) in
    let bsz = length current - offset in
    elim (Bool-cases (ltb sz bsz)) [
      | inl y ↦
          let k : sz < bsz = ltb→lt _ _ y in
          rw y (
            _,
            refl,
            record {
              copied = rw e (sym (take-append sz d (joined pieces) (omega arith)));
              left = sym (drop-drop sz offset (current ++ joined pieces));
              filled = (c, f);
              in_first = omega arith;
            },
          )
      | inr y ↦
          let k : bsz ≤ sz = ltb→le _ _ y in
          elim (Bool-cases (bsz == sz)) [
            | inl z ↦
                let q : bsz ≡ sz = (==_iff _ _).0 z in
                let none_left : sz - length d ≡ 0 = omega arith in
                rw (y, z)
                  (
                    _,
                    refl,
                    record {
                      copied = rw e (sym (take-append sz d (joined pieces) (omega arith)));
                      left = rw e (
                          sym (
                            drop-append_past sz d (joined pieces) (omega arith)
                            ∙ ap (λ u. drop u (joined pieces)) none_left));
                      filled = f;
                      in_first = AllFilled-InFirst pieces f;
                    },
                  )
            | inr z ↦
                let q : bsz ≢ sz = λ u. ground arith in
                let len : length (drop offset (current ++ joined pieces))
                    ≡ length d + length (joined pieces) =
                  ap length e ∙ length-append d (joined pieces) in
                let (r, g, x) =
                  read_pieces_lem pieces 0 (sz - bsz) f (AllFilled-InFirst pieces f) (omega arith)
                    (omega (arith, len, l)) in
                rw (y, z, g) (_, refl, PiecesRead-past current pieces offset sz r i k x)
          ]
    ]

-- What a read of `sz` bytes leaves.
pub record BytesRead (db : Databuffer) (sz : ℕ) (copied : List ℕ) (db' : Databuffer) : Type 0 where
  pub first : copied ≡ take sz (unread db)
  pub left : unread db' ≡ drop sz (unread db)
  pub same_header : db'.header ≡ db.header
  pub valid : IsBuffer db'

length-drop_from : (n : ℕ) (xs : List ℕ) → n ≤ length xs → length (drop n xs) ≡ length xs - n
length-drop_from n xs h = omega (arith, length-drop_le n xs h)

-- A read of at least one byte and at most all that are there succeeds: no assertion fails and no NULL is
-- read. It copies the first bytes, keeps the others and leaves a buffer in order.
pub databuffer_read_lem :
    (db : Databuffer) (sz : ℕ)
    → IsBuffer db
    → 0 < sz
    → sz ≤ db.size
    → (copied : List ℕ) × (db' : Databuffer) × (databuffer_read db sz ≡ some (copied, db'))
      × BytesRead db sz copied db'
unfolding databuffer_read
databuffer_read_lem db sz v p l =
    let (r, e, x) =
      read_pieces_lem db.pieces db.offset sz v.filled v.in_first p (omega (arith, v.counted)) in
    let fits : ltb db.size sz ≡ false = ltb_of_le _ _ l in
    (
      r.0,
      record db { size = db.size - sz; offset = r.1; pieces = r.2 },
      rw (fits, e) refl,
      record {
        first = x.copied;
        left = x.left;
        same_header = refl;
        valid = record {
          counted =
              ap length x.left
              ∙ length-drop_from sz (unread db) (omega (arith, v.counted))
              ∙ ap (λ z. z - sz) v.counted;
          filled = x.filled;
          in_first = x.in_first;
        };
      },
    )
