-- ===== src/Gate/Hashid/Remove.antt =====
-- service-src/hashid.h: an id removed leads nowhere, and the others are found where they were.
use ue4_background.Gate.Hashid.Order.{
  true_ne_false, find_id-holds, has_id-of, same_lookup, in_bucket, none_ne_some, of-lookup,
  IsHashid, taken,
}
use ue4_background.Gate.Hashid.{
  has_id, bit_and, hashid_lookup, is_free, unlink, Hashid, find_id, hashid_remove,
}
use ue4_background.Gate.Hashid.Search.{count-place, taken-above}
use mathlib.Core.Option
use ue4_background.Prelude.{
  ℕ, zero, suc, ◌+◌, ◌-◌, ◌<◌, ◌≡◌, refl, sym, ap, ap₂, ◌∙◌, ◌≢◌, inl, inr, true, false, Option,
  none, some, List, [], ◌∷◌, arith, ℕ_discrete, ◌==◌, if◌then◌else◌, Bool-cases, update,
  update_self, update_ne, count, remove, count-remove, some_inj,
}

unlink-find_id :
    (ids : ℕ → Option ℕ) (id : ℕ) (cs : List ℕ) (c : ℕ)
    → find_id ids id cs ≡ some c
    → unlink ids id cs ≡ some (c, remove c cs)
unfolding find_id unlink
unlink-find_id ids id [] c e = absurd (none_ne_some e)
unlink-find_id ids id (d ∷ cs) c e = elim (Bool-cases (has_id (ids d) id)) [
  | inl z ↦
      let q : d ≡ c = some_inj (rw z at e) in
      let t : (d == c) ≡ true = ground (arith, q) in rw (z, t) (ap (λ x. some (x, cs)) q)
  | inr z ↦
      let f = rw z at e in
      let o = has_id-of (ids c) id (find_id-holds ids id cs c f) in
      let n : d ≢ c = λ q. true_ne_false (sym o ∙ ap (λ x. has_id (ids x) id) (sym q) ∙ z) in
      let t : (d == c) ≡ false = ground (arith, n) in
      rw (z, t) (ap (Option.map (λ r. (r.0, d ∷ r.1))) (unlink-find_id ids id cs c f))
]

taken-empty :
    (ids : ℕ → Option ℕ) (c id n : ℕ)
    → c < n
    → ids c ≡ some id
    → taken (update ids c none) n + 1 ≡ taken ids n
unfolding taken is_free
taken-empty ids c id zero l e = absurd (omega arith)
taken-empty ids c id (suc n) l e = elim (ℕ_discrete n c) [
  | yes q ↦
      let a = ap (update ids c none) q ∙ update_self ids c none in
      let b = taken-above ids c none n (omega arith) in
      let d = ap {B = ℕ} (λ x. if is_free x then 0 else 1) (ap ids q ∙ e) in
      ap (λ x. x + 1) (ap₂ (λ x y. (if is_free x then 0 else 1) + y) a b) ∙ omega (arith, d)
  | no q ↦
      let a = update_ne ids c n none q in
      let b = taken-empty ids c id n (omega (arith, q)) e in
      ap (λ x. (if is_free x then 0 else 1) + taken (update ids c none) n + 1) a ∙ omega (arith, b)
]

-- The hash without the id of a node.
module _ (hi : Hashid) (v : IsHashid hi) (c id : ℕ) (e : hi.ids c ≡ some id) where
  abbrev b : ℕ
  b = bit_and id hi.hashmod

  abbrev emptied : Hashid
  emptied = record hi {
    used = hi.used - 1;
    ids = update hi.ids c none;
    hash = update hi.hash b (remove c (hi.hash b));
  }

  linked_once : (h : ℕ) → count c (hi.hash h) ≡ (if b == h then 1 else 0)
  unfolding in_bucket
  linked_once h = v.linked h c ∙ ap {B = ℕ} (λ o. if in_bucket hi.hashmod o h then 1 else 0) e

  emptied-linked :
      (h d : ℕ)
      → count d (emptied.hash h) ≡ (if in_bucket hi.hashmod (emptied.ids d) h then 1 else 0)
  unfolding in_bucket
  emptied-linked h d =
      let once = linked_once h in
      let at_b = linked_once b in
      let one : count c (hi.hash b) ≡ 1 = ground (arith, at_b) in
      let cut = count-remove c d (hi.hash b) (omega (arith, one)) in
      elim (ℕ_discrete d c) [
        | yes q ↦
            let o : emptied.ids d ≡ none = ap emptied.ids q ∙ update_self hi.ids c none in
            let u : count d (hi.hash h) ≡ (if b == h then 1 else 0) =
              ap (λ x. count x (hi.hash h)) q ∙ once in
            let w : count d (hi.hash b) ≡ 1 = ap (λ x. count x (hi.hash b)) q ∙ one in
            count-place hi.hash b h d (remove c (hi.hash b))
            ∙ ground (arith, u, w, q, cut)
            ∙ ap {B = ℕ} (λ x. if in_bucket hi.hashmod x h then 1 else 0) (sym o)
        | no q ↦
            let o : emptied.ids d ≡ hi.ids d = update_ne hi.ids c d none q in
            let u : (h ≡ b) → count d (hi.hash h) ≡ count d (hi.hash b) =
              λ p. ap (λ x. count d (hi.hash x)) p in
            count-place hi.hash b h d (remove c (hi.hash b))
            ∙ ground (arith, q, cut, u)
            ∙ v.linked h d
            ∙ ap {B = ℕ} (λ x. if in_bucket hi.hashmod x h then 1 else 0) (sym o)
      ]

  left_over : (d j : ℕ) → emptied.ids d ≡ some j → (d ≢ c) × (hi.ids d ≡ some j)
  left_over d j f = elim (ℕ_discrete d c) [
    | yes q ↦ absurd (none_ne_some (sym (update_self hi.ids c none) ∙ ap emptied.ids (sym q) ∙ f))
    | no q ↦ (q, sym (update_ne hi.ids c d none q) ∙ f)
  ]

  stays : (d j : ℕ) → j ≢ id → hi.ids d ≡ some j → emptied.ids d ≡ some j
  stays d j n f = update_ne hi.ids c d none (λ q. n (some_inj (sym f ∙ ap hi.ids q ∙ e))) ∙ f

  emptied-IsHashid : IsHashid emptied
  emptied-IsHashid = record {
    linked = emptied-linked;
    distinct = λ d d' i f f'. v.distinct d d' i (left_over d i f).1 (left_over d' i f').1;
    bounded = λ d i f. v.bounded d i (left_over d i f).1;
    counted = omega (arith, v.counted, taken-empty hi.ids c id hi.cap (v.bounded c id e) e);
  }

  nowhere : (o : Option ℕ) → hashid_lookup emptied id ≡ o → o ≡ none
  nowhere none f = refl
  nowhere (some d) f =
      let (n, g) = left_over d id (of-lookup emptied emptied-IsHashid d id f) in
      absurd (n (v.distinct d c id g e))

-- When the hash is in order and an id leads to a node, hashid_remove returns the node; the id then leads
-- nowhere, any other id where it led, and the hash is in order.
pub hashid_remove_lem :
    (hi : Hashid) (id c j : ℕ)
    → IsHashid hi
    → hashid_lookup hi id ≡ some c
    → j ≢ id
    → (hi' : Hashid) × (hashid_remove hi id ≡ some (c, hi'))
      × (hashid_lookup hi' id ≡ none)
      × (hashid_lookup hi' j ≡ hashid_lookup hi j)
      × IsHashid hi'
unfolding hashid_remove hashid_lookup
hashid_remove_lem hi id c j v f n =
    let e = of-lookup hi v c id f in
    let next = emptied hi v c id e in
    let w = emptied-IsHashid hi v c id e in
    (
      next,
      ap (Option.map _) (unlink-find_id hi.ids id (hi.hash (bit_and id hi.hashmod)) c f),
      nowhere hi v c id e (hashid_lookup next id) refl,
      same_lookup hi next j v w (λ d. stays hi v c id e d j n)
          (λ d g. (left_over hi v c id e d j g).1),
      w,
    )
