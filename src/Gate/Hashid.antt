-- ===== src/Gate/Hashid.antt =====
-- service-src/hashid.h: the hash of the ids of connections, which are not negative. A node is known by its
-- index in `id`; the nodes that `next` links from a place of `hash` are a list, and `next` of a node is
-- NULL outside of them. An int that leaves its 31 bits is `none`.
pub mod Order
pub mod Search
pub mod Insert
pub mod Remove
use mathlib.Core.Option
use Prim.Native.Nat.{bit_and}
use ue4_background.Prelude.{
  ℕ, zero, suc, ◌+◌, ◌-◌, ◌*◌, ◌/◌, ◌%◌, ◌^◌, ap, Bool, true, false, not, Option, none, some, List,
  [], ◌∷◌, map, ltb, leb, ◌==◌, if◌then◌else◌, update, remove,
}

-- `struct hashid`, with `none` for the id -1. `places` is the number of lists that `hash` has room for.
pub record Hashid : Type 0 where
  pub hashmod : ℕ
  pub cap : ℕ
  pub used : ℕ
  pub ids : ℕ → Option ℕ
  pub places : ℕ
  pub hash : ℕ → List ℕ

-- The loop of `hashid_init`, in at most `fuel` rounds.
unfoldable pub enlarge : (fuel hashcap max : ℕ) → Option ℕ
enlarge zero hashcap max = none
enlarge (suc fuel) hashcap max =
    let rest = enlarge fuel (hashcap * 2) max in
    if ltb hashcap max then (if leb (2 ^ 31) (hashcap * 2) then none else rest) else some hashcap

-- `hashid_init`
unfoldable pub hashid_init : ℕ → Option Hashid
hashid_init max =
    Option.map
      (λ hashcap. record {
        hashmod = hashcap - 1;
        cap = max;
        used = 0;
        ids = λ c. none;
        places = hashcap;
        hash = λ h. [];
      })
      (enlarge (max + 1) 16 max)

unfoldable pub has_id : Option ℕ → ℕ → Bool
has_id none id = false
has_id (some i) id = i == id

-- The loop of `hashid_lookup`.
unfoldable pub find_id : (ids : ℕ → Option ℕ) (id : ℕ) → List ℕ → Option ℕ
find_id ids id [] = none
find_id ids id (c ∷ cs) = let rest = find_id ids id cs in if has_id (ids c) id then some c else rest

-- `hashid_lookup`, with `none` for -1.
unfoldable pub hashid_lookup : Hashid → ℕ → Option ℕ
hashid_lookup hi id = find_id hi.ids id (hi.hash (bit_and id hi.hashmod))

-- The search of `hashid_remove`: the node with the id, and the list without it.
unfoldable pub unlink : (ids : ℕ → Option ℕ) (id : ℕ) → List ℕ → Option (ℕ × List ℕ)
unlink ids id [] = none
unlink ids id (c ∷ cs) =
    let rest = Option.map (λ r. (r.0, c ∷ r.1)) (unlink ids id cs) in
    if has_id (ids c) id then some (c, cs) else rest

-- `hashid_remove`, with `none` for -1.
unfoldable pub hashid_remove : Hashid → ℕ → Option (ℕ × Hashid)
hashid_remove hi id =
    let h = bit_and id hi.hashmod in
    Option.map
      (λ r. (
        r.0,
        record hi { used = hi.used - 1; ids = update hi.ids r.0 none; hash = update hi.hash h r.1 },
      ))
      (unlink hi.ids id (hi.hash h))

unfoldable pub is_free : Option ℕ → Bool
is_free none = true
is_free (some i) = false

-- The loop of `hashid_insert`, from `i` on with the rounds left.
unfoldable pub find_free : (left i : ℕ) → Hashid → ℕ → Option ℕ
find_free zero i hi id = none
find_free (suc left) i hi id =
    let index = (i + id) % hi.cap in
    let rest = find_free left (i + 1) hi id in
    let found = if is_free (hi.ids index) then some index else rest in
    if ltb (i + id) (2 ^ 31) then found else none

-- `hashid_insert`; `none` is also its assertion that a node was found.
unfoldable pub hashid_insert : Hashid → ℕ → Option (ℕ × Hashid)
hashid_insert hi id =
    let h = bit_and id hi.hashmod in
    Option.map
      (λ c. (
        c,
        record hi {
          used = hi.used + 1;
          ids = update hi.ids c (some id);
          hash = update hi.hash h (c ∷ hi.hash h);
        },
      ))
      (find_free hi.cap 0 hi id)

-- `hashid_full`
unfoldable pub hashid_full : Hashid → Bool
hashid_full hi = hi.used == hi.cap
