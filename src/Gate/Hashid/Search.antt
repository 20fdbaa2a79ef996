-- ===== src/Gate/Hashid/Search.antt =====
-- service-src/hashid.h: how many nodes are taken, and the search of `hashid_insert` for a free one.
use ue4_background.Gate.Hashid.Order.{true_ne_false, taken}
use ue4_background.Gate.Hashid.{Hashid, find_free, is_free}
use native.Mathlib.Nat.{mod-lt, add-mod-mod, add-mod_right, mod-eq_of_lt}
use ue4_background.Prelude.{
  ℕ, zero, suc, ◌+◌, ◌-◌, ◌%◌, ◌^◌, ◌≤◌, ◌<◌, ◌≡◌, refl, sym, ap, ap₂, ◌∙◌, ◌≢◌, inl, inr, true,
  Option, none, some, List, arith, dec_lt, ℕ_discrete, ltb, ◌==◌, if◌then◌else◌, Bool-cases, update,
  update_self, update_ne, count,
}

pub taken-above :
    (ids : ℕ → Option ℕ) (c : ℕ) (o : Option ℕ) (n : ℕ)
    → n ≤ c
    → taken (update ids c o) n ≡ taken ids n
unfolding taken
taken-above ids c o zero l = refl
taken-above ids c o (suc n) l =
    let q : n ≢ c = omega arith in
    ap₂ (λ x y. (if is_free x then 0 else 1) + y) (update_ne ids c n o q)
      (taken-above ids c o n (omega arith))

-- A free node that is given an id.
pub taken-fill :
    (ids : ℕ → Option ℕ) (c id n : ℕ)
    → c < n
    → ids c ≡ none
    → taken (update ids c (some id)) n ≡ taken ids n + 1
unfolding taken is_free
taken-fill ids c id zero l e = absurd (omega arith)
taken-fill ids c id (suc n) l e = elim (ℕ_discrete n c) [
  | yes q ↦
      let a = ap (update ids c (some id)) q ∙ update_self ids c (some id) in
      let b = taken-above ids c (some id) n (omega arith) in
      let d = ap {B = ℕ} (λ x. if is_free x then 0 else 1) (ap ids q ∙ e) in
      ap₂ (λ x y. (if is_free x then 0 else 1) + y) a b ∙ omega (arith, d)
  | no q ↦
      let a = update_ne ids c n (some id) q in
      let b = taken-fill ids c id n (omega (arith, q)) e in
      ap₂ (λ x y. (if is_free x then 0 else 1) + y) a b ∙ omega arith
]

pub is_free-none : (o : Option ℕ) → is_free o ≡ true → o ≡ none
unfolding is_free
is_free-none none e = refl
is_free-none (some i) e = absurd (ground (arith, e))

-- While not all nodes are taken, one is free.
pub free_node : (ids : ℕ → Option ℕ) (n : ℕ) → taken ids n < n → (c : ℕ) × (c < n) × (ids c ≡ none)
unfolding taken
free_node ids zero l = absurd (omega arith)
free_node ids (suc n) l = elim (Bool-cases (is_free (ids n))) [
  | inl z ↦ (n, omega arith, is_free-none (ids n) z)
  | inr z ↦ let (c, q, e) = free_node ids n (omega (arith, rw z at l)) in (c, omega arith, e)
]

pub taken-le : (ids : ℕ → Option ℕ) (n : ℕ) → taken ids n ≤ n
unfolding taken
taken-le ids zero = omega arith
taken-le ids (suc n) = ground (arith, taken-le ids n)

-- The rounds of the search come to every node.
pub round_of : (c id cap : ℕ) → c < cap → (i : ℕ) × (i < cap) × ((i + id) % cap ≡ c)
round_of c id cap l =
    let r = id % cap in
    let p : r < cap = mod-lt id {m = cap} (omega arith) in
    elim (dec_lt c r) [
      | yes q ↦
          let i = c + cap - r in
          let e : i + r ≡ c + cap = omega arith in
          (
            i,
            omega arith,
            sym (add-mod-mod i id cap) ∙ ap (λ x. x % cap) e ∙ add-mod_right c cap ∙ mod-eq_of_lt l,
          )
      | no q ↦
          let i = c - r in
          let e : i + r ≡ c = omega (arith, q) in
          (i, omega arith, sym (add-mod-mod i id cap) ∙ ap (λ x. x % cap) e ∙ mod-eq_of_lt l)
    ]

pub find_free-finds :
    (left i : ℕ) (hi : Hashid) (id j : ℕ)
    → i ≤ j
    → j < i + left
    → hi.ids ((j + id) % hi.cap) ≡ none
    → 0 < hi.cap
    → j + id < 2 ^ 31
    → (c : ℕ) × (find_free left i hi id ≡ some c) × (hi.ids c ≡ none) × (c < hi.cap)
unfolding find_free is_free
find_free-finds zero i hi id j p q e pos small = absurd (omega arith)
find_free-finds (suc left) i hi id j p q e pos small =
    let index = (i + id) % hi.cap in
    let fits : ltb (i + id) (2 ^ 31) ≡ true = ground arith in
    elim (Bool-cases (is_free (hi.ids index))) [
      | inl z ↦ (
        index,
        rw (fits, z) refl,
        is_free-none (hi.ids index) z,
        mod-lt (i + id) {m = hi.cap} pos,
      )
      | inr z ↦
          let n : i ≢ j = λ q.
            true_ne_false (sym (ap is_free (ap (λ x. hi.ids ((x + id) % hi.cap)) q ∙ e)) ∙ z) in
          let (c, f, g, k) =
            find_free-finds left (i + 1) hi id j (omega (arith, n)) (omega arith) e pos small in
          (c, rw (fits, z) f, g, k)
    ]

-- A list linked at another place, seen from the place `h`.
pub count-place :
    (hash : ℕ → List ℕ) (b h d : ℕ) (cs : List ℕ)
    → count d (update hash b cs h) ≡ (if h == b then count d cs else count d (hash h))
count-place hash b h d cs = ground arith
