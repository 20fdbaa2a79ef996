-- ===== src/Gate/Hashid/Insert.antt =====
-- service-src/hashid.h: an id inserted is found, and the others are found where they were.
use ue4_background.Gate.Hashid.Search.{
  find_free-finds, round_of, free_node, count-place, taken-fill, taken-le,
}
use ue4_background.Gate.Hashid.Order.{same_lookup, lookup-of, none_ne_some, in_bucket, IsHashid}
use mathlib.Core.Option
use ue4_background.Gate.Hashid.{hashid_lookup, bit_and, hashid_full, hashid_insert, Hashid}
use ue4_background.Prelude.{
  ℕ, ◌+◌, ◌^◌, ◌≤◌, ◌<◌, ◌≡◌, sym, ap, ◌∙◌, ◌≢◌, false, none, some, ◌∷◌, arith, ℕ_discrete,
  if◌then◌else◌, update, update_self, update_ne, count, some_inj,
}

-- The hash with a free node that is given an id.
module _ (hi : Hashid) (v : IsHashid hi) (c id : ℕ) (l : c < hi.cap) (free : hi.ids c ≡ none) where
  abbrev b : ℕ
  b = bit_and id hi.hashmod

  abbrev filled : Hashid
  filled = record hi {
    used = hi.used + 1;
    ids = update hi.ids c (some id);
    hash = update hi.hash b (c ∷ hi.hash b);
  }

  unlinked : (h : ℕ) → count c (hi.hash h) ≡ 0
  unfolding in_bucket
  unlinked h = v.linked h c ∙ ap {B = ℕ} (λ o. if in_bucket hi.hashmod o h then 1 else 0) free

  filled-linked :
      (h d : ℕ) → count d (filled.hash h) ≡ (if in_bucket hi.hashmod (filled.ids d) h then 1 else 0)
  unfolding in_bucket
  filled-linked h d = elim (ℕ_discrete d c) [
    | yes q ↦
        let o : filled.ids d ≡ some id = ap filled.ids q ∙ update_self hi.ids c (some id) in
        let u : count d (hi.hash h) ≡ 0 = ap (λ x. count x (hi.hash h)) q ∙ unlinked h in
        let w : count d (hi.hash b) ≡ 0 = ap (λ x. count x (hi.hash b)) q ∙ unlinked b in
        count-place hi.hash b h d (c ∷ hi.hash b)
        ∙ ground (arith, u, w, q)
        ∙ ap {B = ℕ} (λ x. if in_bucket hi.hashmod x h then 1 else 0) (sym o)
    | no q ↦
        let o : filled.ids d ≡ hi.ids d = update_ne hi.ids c d (some id) q in
        count-place hi.hash b h d (c ∷ hi.hash b)
        ∙ ground (arith, q)
        ∙ v.linked h d
        ∙ ap {B = ℕ} (λ x. if in_bucket hi.hashmod x h then 1 else 0) (sym o)
  ]

  kept : (d j : ℕ) → hi.ids d ≡ some j → filled.ids d ≡ some j
  kept d j e = elim (ℕ_discrete d c) [
    | yes q ↦ absurd (none_ne_some (sym free ∙ ap hi.ids (sym q) ∙ e))
    | no q ↦ update_ne hi.ids c d (some id) q ∙ e
  ]

  kept_back : (d j : ℕ) → j ≢ id → filled.ids d ≡ some j → hi.ids d ≡ some j
  kept_back d j n e = elim (ℕ_discrete d c) [
    | yes q ↦ absurd (n (some_inj (sym e ∙ ap filled.ids q ∙ update_self hi.ids c (some id))))
    | no q ↦ sym (update_ne hi.ids c d (some id) q) ∙ e
  ]

  only_node : ((d : ℕ) → hi.ids d ≢ some id) → (d : ℕ) → filled.ids d ≡ some id → d ≡ c
  only_node absent d e = elim (ℕ_discrete d c) [
    | yes q ↦ q
    | no q ↦ absurd (absent d (sym (update_ne hi.ids c d (some id) q) ∙ e))
  ]

  filled-IsHashid : ((d : ℕ) → hi.ids d ≢ some id) → IsHashid filled
  filled-IsHashid absent = record {
    linked = filled-linked;
    distinct = λ d d' i e e'. elim (ℕ_discrete i id) [
      | yes q ↦ only_node absent d (e ∙ ap some q) ∙ sym (only_node absent d' (e' ∙ ap some q))
      | no q ↦ v.distinct d d' i (kept_back d i q e) (kept_back d' i q e')
    ];
    bounded = λ d i e. elim (ℕ_discrete d c) [
      | yes q ↦ omega (arith, q)
      | no q ↦ v.bounded d i (sym (update_ne hi.ids c d (some id) q) ∙ e)
    ];
    counted = omega (arith, v.counted, taken-fill hi.ids c id hi.cap l free);
  }

-- While the hash is in order and not full, and `cap` and the id come to at most 2 ^ 31, hashid_insert of an id that leads nowhere finds a node; the id
-- then leads to this node, any other id where it led, and the hash is in order.
pub hashid_insert_lem :
    (hi : Hashid) (id j : ℕ)
    → IsHashid hi
    → hashid_lookup hi id ≡ none
    → hashid_full hi ≡ false
    → hi.cap + id ≤ 2 ^ 31
    → j ≢ id
    → (c : ℕ) × (hi' : Hashid) × (hashid_insert hi id ≡ some (c, hi'))
      × (c < hi.cap)
      × (hashid_lookup hi' id ≡ some c)
      × (hashid_lookup hi' j ≡ hashid_lookup hi j)
      × IsHashid hi'
unfolding hashid_insert hashid_full
hashid_insert_lem hi id j v e room small n =
    let bound = taken-le hi.ids hi.cap in
    let (d, l, free) = free_node hi.ids hi.cap (ground (arith, v.counted, bound, room)) in
    let (i, p, q) = round_of d id hi.cap l in
    let (c, f, is_none, k) =
      find_free-finds hi.cap 0 hi id i (omega arith) (omega arith) (ap hi.ids q ∙ free)
        (omega arith) (omega arith) in
    let absent : (d : ℕ) → hi.ids d ≢ some id =
      λ d h. none_ne_some (sym e ∙ lookup-of hi v d id h) in
    let next = filled hi v c id k is_none in
    let w = filled-IsHashid hi v c id k is_none absent in
    (
      c,
      next,
      ap (Option.map _) f,
      k,
      lookup-of next w c id (update_self hi.ids c (some id)),
      same_lookup hi next j v w (λ d. kept hi v c id k is_none d j)
          (λ d. kept_back hi v c id k is_none d j n),
      w,
    )
