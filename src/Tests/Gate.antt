-- ===== src/Tests/Gate.antt =====
-- service-src/databuffer.h at work.
use Prim.Native.Nat.{bit_and}
use mathlib.Core.Option
use ue4_background.Gate.Hashid.{
  enlarge, hashid_remove, has_id, find_id, is_free, find_free, hashid_full, hashid_insert,
  hashid_lookup, Hashid, hashid_init,
}
use ue4_background.Gate.Hashid.Remove.{hashid_remove_lem}
use ue4_background.Gate.Hashid.Insert.{hashid_insert_lem}
use ue4_background.Gate.Hashid.Order.{hashid_init_lem, IsHashid}
use ue4_background.Gate.Databuffer.{header_result, Databuffer, databuffer_read}
use ue4_background.Gate.Databuffer.Read.{BytesRead, IsBuffer, databuffer_read_lem, unread}
use ue4_background.Gate.Databuffer.Header.{answer}
use ue4_background.Prelude.{
  ℕ, ◌≤◌, ◌<◌, ◌≡◌, refl, sym, ap, subst, Option, none, some, List, [], ◌∷◌, arith,
}

-- The second byte of the first piece is the next to be read.
abbrev two_pieces : Databuffer
two_pieces = record {
  header = 0;
  offset = 1;
  size = 4;
  pieces = (9 ∷ 0 ∷ []) ∷ (2 ∷ 7 ∷ 8 ∷ []) ∷ [];
}

two_pieces-IsBuffer : IsBuffer two_pieces
two_pieces-IsBuffer = record {
  counted = refl;
  filled = (omega arith, (omega arith, tt));
  in_first = omega arith;
}

databuffer_read_lem_example :
    (copied : List ℕ) × (db' : Databuffer) × (databuffer_read two_pieces 3 ≡ some (copied, db'))
    × BytesRead two_pieces 3 copied db'
databuffer_read_lem_example =
    databuffer_read_lem two_pieces 3 two_pieces-IsBuffer (omega arith) (omega arith)

-- The package of two bytes is announced.
package_there : answer 2 0 (unread two_pieces) ≡ some 2
unfolding header_result
package_there = refl

abbrev hash_of : Option Hashid → Hashid
hash_of none = record {
  hashmod = 0;
  cap = 0;
  used = 0;
  ids = λ c. none;
  places = 0;
  hash = λ h. [];
}
hash_of (some hi) = hi

abbrev two_nodes : Hashid
two_nodes = hash_of (hashid_init 2)

-- The hash of two nodes with the id 5.
abbrev with_five : Hashid
with_five = hash_of (Option.map (λ r. r.1) (hashid_insert two_nodes 5))

two_nodes-IsHashid : IsHashid two_nodes
two_nodes-IsHashid =
    let (hi, e, v, c, u, n, l, q) = hashid_init_lem 2 5 (omega arith) in
    subst IsHashid (sym (ap hash_of e)) v

with_five-IsHashid : IsHashid with_five
unfolding hashid_init enlarge hashid_full hashid_lookup find_id
with_five-IsHashid =
    let (c, hi, f, k, g, h, w) =
      hashid_insert_lem two_nodes 5 6 two_nodes-IsHashid refl refl (omega arith) (omega arith) in
    subst IsHashid (sym (ap (λ o. hash_of (Option.map (λ r. r.1) o)) f)) w

hashid_init_lem_example :
    (hi : Hashid) × (hashid_init 20 ≡ some hi)
    × IsHashid hi
    × (hi.cap ≡ 20)
    × (hi.used ≡ 0)
    × (hashid_lookup hi 63 ≡ none)
    × (20 ≤ hi.places)
    × (bit_and 63 hi.hashmod < hi.places)
hashid_init_lem_example = hashid_init_lem 20 63 (omega arith)

-- The id 21 is hashed to the place of 5.
hashid_insert_lem_example :
    (c : ℕ) × (hi : Hashid) × (hashid_insert with_five 21 ≡ some (c, hi))
    × (c < with_five.cap)
    × (hashid_lookup hi 21 ≡ some c)
    × (hashid_lookup hi 5 ≡ hashid_lookup with_five 5)
    × IsHashid hi
unfolding hashid_init hashid_insert find_free is_free hashid_lookup find_id has_id enlarge
    hashid_full
hashid_insert_lem_example =
    hashid_insert_lem with_five 21 5 with_five-IsHashid refl refl (omega arith) (omega arith)

hashid_remove_lem_example :
    (hi : Hashid) × (hashid_remove with_five 5 ≡ some (1, hi))
    × (hashid_lookup hi 5 ≡ none)
    × (hashid_lookup hi 21 ≡ hashid_lookup with_five 21)
    × IsHashid hi
unfolding hashid_init hashid_insert find_free is_free hashid_lookup find_id has_id enlarge
hashid_remove_lem_example = hashid_remove_lem with_five 5 1 21 with_five-IsHashid refl (omega arith)
