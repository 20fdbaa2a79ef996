-- ===== src/Timer/Place.antt =====
-- The lists of the wheel as `add_node` fills them, and the nodes of a list that expire at one time.
use ue4_background.Timer.{Timer, add_node, place, TimerNode, add_nodes}
use ue4_background.Prelude.{
  ℕ, ◌≡◌, refl, sym, ap, ◌∙◌, ◌≢◌, inl, inr, false, List, [], ◌∷◌, ◌++◌, append-nil, append_assoc,
  arith, ◌==◌, if◌then◌else◌, ==_iff, ==_refl, Bool-cases, update,
}

abbrev pub All : (TimerNode → Type 0) → List TimerNode → Type 0
All P [] = Unit
All P (n ∷ ns) = P n × All P ns

pub All-mono :
    (P Q : TimerNode → Type 0) (ns : List TimerNode)
    → ((n : TimerNode) → P n → Q n)
    → All P ns
    → All Q ns
All-mono P Q [] f h = tt
All-mono P Q (n ∷ ns) f h = (f n h.0, All-mono P Q ns f h.1)

pub All-append :
    (P : TimerNode → Type 0) (ms ns : List TimerNode) → All P ms → All P ns → All P (ms ++ ns)
All-append P [] ns h k = k
All-append P (m ∷ ms) ns h k = (h.0, All-append P ms ns h.1 k)

-- The nodes that expire at `e`, in order.
abbrev pub due : ℕ → List TimerNode → List TimerNode
due e [] = []
due e (n ∷ ns) = if n.expire == e then n ∷ due e ns else due e ns

-- The nodes that belong in the list `k` at the time `c`, in order.
abbrev pub placed : ℕ → ℕ → List TimerNode → List TimerNode
placed k c [] = []
placed k c (n ∷ ns) = if place n.expire c == k then n ∷ placed k c ns else placed k c ns

pub due-append : (e : ℕ) (ms ns : List TimerNode) → due e (ms ++ ns) ≡ due e ms ++ due e ns
due-append e [] ns = refl
due-append e (m ∷ ms) ns = ground (arith, due-append e ms ns)

pub due-eq-nil : (e : ℕ) (ns : List TimerNode) → All (λ n. n.expire ≢ e) ns → due e ns ≡ []
due-eq-nil e [] h = refl
due-eq-nil e (n ∷ ns) h = elim (Bool-cases (n.expire == e)) [
  | inl y ↦ absurd (h.0 ((==_iff n.expire e).0 y))
  | inr y ↦ rw y (due-eq-nil e ns h.1)
]

pub due-placed : (e c : ℕ) (ns : List TimerNode) → due e (placed (place e c) c ns) ≡ due e ns
due-placed e c [] = refl
due-placed e c (n ∷ ns) = elim (Bool-cases (n.expire == e)) [
  | inl y ↦
      let q : place n.expire c ≡ place e c = ap (λ z. place z c) ((==_iff n.expire e).0 y) in
      rw (q, ==_refl (place e c), y, due-placed e c ns)
  | inr y ↦ elim (Bool-cases (place n.expire c == place e c)) [
    | inl z ↦ rw (z, y) (due-placed e c ns)
    | inr z ↦ rw (z, y) (due-placed e c ns)
  ]
]

pub All-due :
    (P : TimerNode → Type 0) (e : ℕ) (ns : List TimerNode)
    → All P ns
    → All (λ n. P n × (n.expire ≡ e)) (due e ns)
All-due P e [] h = tt
All-due P e (n ∷ ns) h = elim (Bool-cases (n.expire == e)) [
  | inl y ↦ rw y ((h.0, (==_iff n.expire e).0 y), All-due P e ns h.1)
  | inr y ↦ rw y (All-due P e ns h.1)
]

pub All-placed :
    (P : TimerNode → Type 0) (k c : ℕ) (ns : List TimerNode)
    → All P ns
    → All (λ n. (place n.expire c ≡ k) × P n) (placed k c ns)
All-placed P k c [] h = tt
All-placed P k c (n ∷ ns) h = elim (Bool-cases (place n.expire c == k)) [
  | inl y ↦ rw y (((==_iff (place n.expire c) k).0 y, h.0), All-placed P k c ns h.1)
  | inr y ↦ rw y (All-placed P k c ns h.1)
]

-- `add_node` in turn for each node of a list puts each behind its list, and changes nothing else.
pub add_nodes-lists :
    (T : Timer) (ns : List TimerNode) (k : ℕ)
    → ((add_nodes T ns).lists k ≡ T.lists k ++ placed k T.time ns)
      × ((add_nodes T ns).time ≡ T.time)
unfolding add_nodes add_node
add_nodes-lists T [] k = (sym (append-nil (T.lists k)), refl)
add_nodes-lists T (n ∷ ns) k = let ih = add_nodes-lists (add_node T n) ns k in (ih.0 ∙ step, ih.1)
  where
    step :
        update T.lists (place n.expire T.time) (T.lists (place n.expire T.time) ++ n ∷ []) k
          ++ placed k T.time ns
        ≡ T.lists k ++ placed k T.time (n ∷ ns)
    step = elim (Bool-cases (place n.expire T.time == k)) [
      | inl y ↦
          rw (y, (==_iff (place n.expire T.time) k).0 y, ==_refl k)
            (append_assoc (T.lists k) (n ∷ []) (placed k T.time ns))
      | inr y ↦ let z : (k == place n.expire T.time) ≡ false = ground arith in rw (y, z)
    ]
