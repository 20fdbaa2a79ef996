-- ===== src/Gate/Databuffer/Push.antt =====
-- A piece pushed into the buffer comes last.
use ue4_background.Gate.Databuffer.{Databuffer, databuffer_push}
use ue4_background.Gate.Databuffer.Read.{AllFilled, InFirst, IsBuffer, unread}
use ue4_background.Prelude.{
  ℕ, ◌+◌, ◌≤◌, ◌<◌, ◌≡◌, ap, ◌∙◌, List, [], ◌∷◌, ◌++◌, arith, length, drop, length-append,
  drop-append, joined, joined_snoc,
}

AllFilled-snoc :
    (ps : List (List ℕ)) (buffer : List ℕ)
    → AllFilled ps
    → 0 < length buffer
    → AllFilled (ps ++ buffer ∷ [])
AllFilled-snoc [] buffer f l = (l, tt)
AllFilled-snoc (p ∷ ps) buffer f l = (f.0, AllFilled-snoc ps buffer f.1 l)

InFirst-snoc :
    (offset : ℕ) (ps : List (List ℕ)) (buffer : List ℕ)
    → InFirst offset ps
    → 0 < length buffer
    → InFirst offset (ps ++ buffer ∷ [])
InFirst-snoc offset [] buffer i l = rw i l
InFirst-snoc offset (p ∷ ps) buffer i l = i

offset_le : (offset : ℕ) (ps : List (List ℕ)) → InFirst offset ps → offset ≤ length (joined ps)
offset_le offset [] i = omega arith
offset_le offset (p ∷ ps) i = omega (arith, length-append p (joined ps))

-- A piece that is pushed, of at least one byte, comes behind the bytes that are there.
pub databuffer_push_lem :
    (db : Databuffer) (buffer : List ℕ)
    → IsBuffer db
    → 0 < length buffer
    → IsBuffer (databuffer_push db buffer)
      × (unread (databuffer_push db buffer) ≡ unread db ++ buffer)
unfolding databuffer_push
databuffer_push_lem db buffer v l =
    let e : drop db.offset (joined (db.pieces ++ buffer ∷ [])) ≡ unread db ++ buffer =
      ap (λ z. drop db.offset z) (joined_snoc db.pieces buffer)
      ∙ drop-append db.offset (joined db.pieces) buffer
          (offset_le db.offset db.pieces v.in_first) in
    (
      record {
        counted =
            ap length e ∙ length-append (unread db) buffer ∙ ap (λ z. z + length buffer) v.counted;
        filled = AllFilled-snoc db.pieces buffer v.filled l;
        in_first = InFirst-snoc db.offset db.pieces buffer v.in_first l;
      },
      e,
    )
