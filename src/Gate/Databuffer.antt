-- ===== src/Gate/Databuffer.antt =====
-- service-src/databuffer.h: the bytes of a connection that are not read yet, in the pieces in which they
-- came. The nodes that link the pieces, and the pool of them, are a list here; a node lives as long as
-- its piece.
pub mod Read
pub mod Push
pub mod Header
use mathlib.Core.Option
use ue4_background.Prelude.{
  ℕ, ◌+◌, ◌-◌, ◌*◌, ◌/◌, ◌%◌, ◌^◌, ap, not, ◌&&◌, Option, none, some, List, [], ◌∷◌, ◌++◌, map, ltb,
  leb, ◌==◌, if◌then◌else◌, length, get_or, set, take, drop, ◌>>=◌,
}

-- `struct databuffer`: `pieces` is the list from `head` to `tail`. `header` is the int as 32 bits.
pub record Databuffer : Type 0 where
  pub header : ℕ
  pub offset : ℕ
  pub size : ℕ
  pub pieces : List (List ℕ)

-- The loop of `databuffer_read`: what is copied, and the new `offset` and list. `none` is a read
-- through the NULL of an empty list.
unfoldable pub read_pieces : List (List ℕ) → ℕ → ℕ → Option (List ℕ × ℕ × List (List ℕ))
read_pieces [] offset sz = none
read_pieces (current ∷ pieces) offset sz =
    let bsz = length current - offset in
    let rest = read_pieces pieces 0 (sz - bsz) in
    if ltb sz bsz
    then some (take sz (drop offset current), offset + sz, current ∷ pieces)
    else if bsz == sz
    then some (take sz (drop offset current), 0, pieces)
    else Option.map (λ r. (take bsz (drop offset current) ++ r.0, r.1, r.2)) rest

-- `databuffer_read`
unfoldable pub databuffer_read : Databuffer → ℕ → Option (List ℕ × Databuffer)
databuffer_read db sz =
    if ltb db.size sz
    then none
    else Option.map (λ r. (r.0, record db { size = db.size - sz; offset = r.1; pieces = r.2 }))
        (read_pieces db.pieces db.offset sz)

-- `databuffer_push`
unfoldable pub databuffer_push : Databuffer → List ℕ → Databuffer
databuffer_push db buffer = record db {
  size = db.size + length buffer;
  pieces = db.pieces ++ buffer ∷ [];
}

-- What `databuffer_readheader` returns for the header, `none` for a negative number: -1 while bytes are
-- missing, or the header if its sign bit is set.
unfoldable pub header_result : ℕ → ℕ → Option ℕ
header_result header size = if ltb header (2 ^ 31) && leb header size then some header else none

-- The header out of `plen`. `none`: with another size than 2 or 4 the four bytes of `plen` are overrun, or
-- some of them are not set.
unfoldable pub header_of : ℕ → List ℕ → Option ℕ
header_of header_size plen =
    let p = λ (i : ℕ). get_or plen i 0 in
    if header_size == 2
    then some ((p 0 * 2 ^ 8 + p 1) % 2 ^ 32)
    else if header_size == 4
    then some ((p 0 * 2 ^ 24 + p 1 * 2 ^ 16 + p 2 * 2 ^ 8 + p 3) % 2 ^ 32)
    else none

-- `databuffer_readheader`; the outer `none` is a crash, of `databuffer_read` or at `plen`.
unfoldable pub databuffer_readheader : Databuffer → ℕ → Option (Option ℕ × Databuffer)
databuffer_readheader db header_size =
    let parsed = databuffer_read db header_size >>= λ r. header_of header_size r.0 >>= λ header.
    some (header_result header (r.1).size, record (r.1) { header = header }) in
    if db.header == 0
    then (if ltb db.size header_size then some (none, db) else parsed)
    else some (header_result db.header db.size, db)

-- `databuffer_reset`
unfoldable pub databuffer_reset : Databuffer → Databuffer
databuffer_reset db = record db { header = 0 }

-- `databuffer_clear`
unfoldable pub databuffer_clear : Databuffer → Databuffer
databuffer_clear db = record { header = 0; offset = 0; size = 0; pieces = [] }
