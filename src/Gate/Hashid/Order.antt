-- ===== src/Gate/Hashid/Order.antt =====
-- service-src/hashid.h: when the hash is in order, and what it then leads to.
use ue4_background.Crypt.Bits.{bit_and_le}
use mathlib.Core.Option
use ue4_background.Gate.Hashid.{
  enlarge, hashid_init, hashid_lookup, Hashid, find_id, has_id, is_free,
}
use Prim.Native.Nat.{bit_and}
use ue4_background.Prelude.{
  ℕ, zero, suc, ◌+◌, ◌-◌, ◌*◌, ◌^◌, ◌≤◌, ◌<◌, ◌≡◌, refl, sym, ap, ◌∙◌, ◌≢◌, inl, inr, Bool, true,
  false, Option, none, some, List, [], ◌∷◌, arith, ltb, leb, ◌==◌, if◌then◌else◌, Bool-cases, count,
  some_inj,
}

unfoldable pub in_bucket : (hashmod : ℕ) → Option ℕ → ℕ → Bool
in_bucket hashmod none h = false
in_bucket hashmod (some i) h = bit_and i hashmod == h

-- How many of the first `n` nodes have an id.
unfoldable pub taken : (ℕ → Option ℕ) → ℕ → ℕ
taken ids zero = 0
taken ids (suc n) = (if is_free (ids n) then 0 else 1) + taken ids n

pub record IsHashid (hi : Hashid) : Type 0 where
  pub linked :
      (h c : ℕ) → count c (hi.hash h) ≡ (if in_bucket hi.hashmod (hi.ids c) h then 1 else 0)
  pub distinct : (c d i : ℕ) → hi.ids c ≡ some i → hi.ids d ≡ some i → c ≡ d
  pub bounded : (c i : ℕ) → hi.ids c ≡ some i → c < hi.cap
  pub counted : hi.used ≡ taken hi.ids hi.cap

pub has_id-holds : (o : Option ℕ) (id : ℕ) → has_id o id ≡ true → o ≡ some id
unfolding has_id
has_id-holds none id e = absurd (ground (arith, e))
has_id-holds (some i) id e = ap some (ground (arith, e))

pub has_id-of : (o : Option ℕ) (id : ℕ) → o ≡ some id → has_id o id ≡ true
unfolding has_id
has_id-of none id e = absurd (ground (arith, e))
has_id-of (some i) id e = let q : i ≡ id = some_inj e in ground (arith, q)

pub in_bucket-of :
    (m : ℕ) (o : Option ℕ) (id : ℕ) → o ≡ some id → in_bucket m o (bit_and id m) ≡ true
unfolding in_bucket
in_bucket-of m none id e = absurd (ground (arith, e))
in_bucket-of m (some i) id e =
    let q : bit_and i m ≡ bit_and id m = ap (λ x. bit_and x m) (some_inj e) in ground (arith, q)

pub none_ne_some : {a : ℕ} → ¬ (none ≡ some a)
none_ne_some e = ground (arith, e)

pub true_ne_false : ¬ (true ≡ false)
true_ne_false e = ground (arith, e)

pub find_id-holds :
    (ids : ℕ → Option ℕ) (id : ℕ) (cs : List ℕ) (c : ℕ)
    → find_id ids id cs ≡ some c
    → ids c ≡ some id
unfolding find_id
find_id-holds ids id [] c e = absurd (ground (arith, e))
find_id-holds ids id (d ∷ cs) c e = elim (Bool-cases (has_id (ids d) id)) [
  | inl z ↦ ap ids (sym (some_inj (rw z at e))) ∙ has_id-holds (ids d) id z
  | inr z ↦ find_id-holds ids id cs c (rw z at e)
]

-- A node with the id in the list: the search finds one.
pub find_id-finds :
    (ids : ℕ → Option ℕ) (id : ℕ) (cs : List ℕ) (c : ℕ)
    → ids c ≡ some id
    → 0 < count c cs
    → (d : ℕ) × (find_id ids id cs ≡ some d)
unfolding find_id has_id
find_id-finds ids id [] c e p = absurd (omega arith)
find_id-finds ids id (d ∷ cs) c e p = elim (Bool-cases (has_id (ids d) id)) [
  | inl z ↦ (d, rw z refl)
  | inr z ↦
      let n : c ≢ d = λ q. true_ne_false (sym (has_id-of (ids d) id (ap ids (sym q) ∙ e)) ∙ z) in
      let q : 0 < count c cs = ground (arith, p, n) in
      let (b, f) = find_id-finds ids id cs c e q in (b, rw z f)
]

module _ (hi : Hashid) (v : IsHashid hi) where
  -- A node with an id is linked at the place of the id.
  pub listed : (c id : ℕ) → hi.ids c ≡ some id → 0 < count c (hi.hash (bit_and id hi.hashmod))
  listed c id e =
      let b = in_bucket-of hi.hashmod (hi.ids c) id e in
      omega (arith, rw b at (v.linked (bit_and id hi.hashmod) c))

  -- The node of an id is found.
  pub lookup-of : (c id : ℕ) → hi.ids c ≡ some id → hashid_lookup hi id ≡ some c
  unfolding hashid_lookup
  lookup-of c id e =
      let h = bit_and id hi.hashmod in
      let p : 0 < count c (hi.hash h) = listed c id e in
      let (d, f) = find_id-finds hi.ids id (hi.hash h) c e p in
      f ∙ ap some (v.distinct d c id (find_id-holds hi.ids id (hi.hash h) d f) e)

  pub of-lookup : (c id : ℕ) → hashid_lookup hi id ≡ some c → hi.ids c ≡ some id
  unfolding hashid_lookup
  of-lookup c id e = find_id-holds hi.ids id (hi.hash (bit_and id hi.hashmod)) c e

-- Two hashes with the same nodes for an id answer alike.
pub same_lookup :
    (hi hi' : Hashid) (id : ℕ)
    → IsHashid hi
    → IsHashid hi'
    → ((c : ℕ) → hi.ids c ≡ some id → hi'.ids c ≡ some id)
    → ((c : ℕ) → hi'.ids c ≡ some id → hi.ids c ≡ some id)
    → hashid_lookup hi' id ≡ hashid_lookup hi id
same_lookup hi hi' id v w f g = go (hashid_lookup hi id) (hashid_lookup hi' id) refl refl
  where
    go :
        (o o' : Option ℕ)
        → hashid_lookup hi id ≡ o
        → hashid_lookup hi' id ≡ o'
        → hashid_lookup hi' id ≡ hashid_lookup hi id
    go (some c) o' e e' = lookup-of hi' w c id (f c (of-lookup hi v c id e)) ∙ sym e
    go none (some c) e e' = e' ∙ sym (lookup-of hi v c id (g c (of-lookup hi' w c id e')))
    go none none e e' = e' ∙ sym e

-- A round of `hashid_init` comes at least one nearer to `max`.
enlarge-max :
    (fuel hashcap max : ℕ)
    → 0 < hashcap
    → 0 < fuel
    → max < hashcap + fuel
    → max ≤ 2 ^ 30
    → (c : ℕ) × (enlarge fuel hashcap max ≡ some c) × (max ≤ c) × (0 < c)
unfolding enlarge
enlarge-max zero hashcap max p f l b = absurd (omega arith)
enlarge-max (suc fuel) hashcap max p f l b = elim (Bool-cases (ltb hashcap max)) [
  | inl y ↦
      let z : leb (2 ^ 31) (hashcap * 2) ≡ false = ground arith in
      let (c, e, r, q) =
        enlarge-max fuel (hashcap * 2) max (omega arith) (ground arith) (omega arith) b in
      (c, rw (y, z) e, r, q)
  | inr y ↦ (hashcap, rw y refl, ground arith, p)
]

taken_nothing : (n : ℕ) → taken (λ c. none) n ≡ 0
unfolding taken is_free
taken_nothing zero = refl
taken_nothing (suc n) = omega (arith, taken_nothing n)

-- For at most 2 ^ 30 nodes hashid_init ends; the new hash is in order with all nodes free, no id leads
-- anywhere in it, it has at least as many places as nodes, and every id is hashed to one of its places.
pub hashid_init_lem :
    (max id : ℕ)
    → max ≤ 2 ^ 30
    → (hi : Hashid) × (hashid_init max ≡ some hi)
      × IsHashid hi
      × (hi.cap ≡ max)
      × (hi.used ≡ 0)
      × (hashid_lookup hi id ≡ none)
      × (max ≤ hi.places)
      × (bit_and id hi.hashmod < hi.places)
unfolding hashid_init hashid_lookup find_id in_bucket
hashid_init_lem max id b =
    let (hashcap, e, l, p) =
      enlarge-max (max + 1) 16 max (omega arith) (omega arith) (omega arith) b in
    (
      _,
      ap (Option.map _) e,
      record {
        linked = λ h c. refl;
        distinct = λ c d i e f. absurd (none_ne_some e);
        bounded = λ c i e. absurd (none_ne_some e);
        counted = sym (taken_nothing max);
      },
      refl,
      refl,
      refl,
      l,
      omega (arith, bit_and_le id (hashcap - 1), p),
    )
