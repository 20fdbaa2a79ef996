-- ===== src/Mq/Global/Linked.antt =====
-- The linked list of the global queue holds a sequence of distinct message queues.
use ue4_background.Mq.Global.{globalmq_pop, globalmq_push, mq_init, GlobalQueue}
use ue4_background.Prelude.{
  ℕ, ◌<◌, ◌≡◌, refl, sym, ap, inl, inr, false, some, List, [], ◌∷◌, ◌++◌, arith, ◌==◌, ==_iff,
  Bool-cases, update, count, count-append,
}

-- From the address `h` the links lead through `xs` to NULL.
abbrev pub IsPath : (ℕ → ℕ) → ℕ → List ℕ → Type 0
IsPath next h [] = h ≡ 0
IsPath next h (x ∷ xs) = (h ≡ x) × (0 < x) × (count x xs ≡ 0) × IsPath next (next x) xs

abbrev pub last_or : ℕ → List ℕ → ℕ
last_or d [] = d
last_or d (x ∷ xs) = last_or x xs

-- The global queue is the list `xs`, and no queue outside it has a link.
pub record IsQueued (g : GlobalQueue) (xs : List ℕ) : Type 0 where
  pub path : IsPath g.next g.head xs
  pub last : g.tail ≡ last_or 0 xs
  pub unlinked : (a : ℕ) → count a xs ≡ 0 → g.next a ≡ 0

IsPath-update :
    (next : ℕ → ℕ) (a v h : ℕ) (xs : List ℕ)
    → count a xs ≡ 0
    → IsPath next h xs
    → IsPath (update next a v) h xs
IsPath-update next a v h [] c p = p
IsPath-update next a v h (x ∷ xs) c p = elim (Bool-cases (x == a)) [
  | inl e ↦ absurd (ground arith)
  | inr e ↦ (p.0, p.1, p.2, rw e (IsPath-update next a v (next x) xs (ground arith) p.3))
]

count-last_or : (d : ℕ) (xs : List ℕ) → 0 < count (last_or d xs) (d ∷ xs)
count-last_or d [] = ground arith
count-last_or d (x ∷ xs) = ground (arith, count-last_or x xs)

last_or-snoc : (d a : ℕ) (xs : List ℕ) → last_or d (xs ++ a ∷ []) ≡ a
last_or-snoc d a [] = refl
last_or-snoc d a (x ∷ xs) = last_or-snoc x a xs

-- Linking `a` behind the last element of a list that is not empty.
IsPath-snoc :
    (next : ℕ → ℕ) (a h x : ℕ) (xs : List ℕ)
    → 0 < a
    → next a ≡ 0
    → count a (x ∷ xs) ≡ 0
    → IsPath next h (x ∷ xs)
    → IsPath (update next (last_or x xs) a) h (x ∷ xs ++ a ∷ [])
IsPath-snoc next a h x [] pos free c p = ground arith
IsPath-snoc next a h x (y ∷ r) pos free c p =
    (p.0, p.1, distinct, rw kept (IsPath-snoc next a (next x) y r pos free (ground arith) p.3))
  where
    distinct : count x (y ∷ r ++ a ∷ []) ≡ 0
    distinct = ground (arith, count-append x (y ∷ r) (a ∷ []))

    kept : (x == last_or y r) ≡ false
    kept = elim (Bool-cases (x == last_or y r)) [
      | inl e ↦ absurd (
          omega (
            arith,
            count-last_or y r,
            ap (λ z. count z (y ∷ r)) ((==_iff x (last_or y r)).0 e),
            p.2,
          ))
      | inr e ↦ e
    ]

last_or-pos : (next : ℕ → ℕ) (h x : ℕ) (xs : List ℕ) → IsPath next h (x ∷ xs) → 0 < last_or x xs
last_or-pos next h x [] p = p.1
last_or-pos next h x (y ∷ r) p = last_or-pos next (next x) y r p.3

not-last_or :
    (b d a : ℕ) (xs : List ℕ)
    → count b (d ∷ xs ++ a ∷ []) ≡ 0
    → ((b == last_or d xs) ≡ false) × (count b (d ∷ xs) ≡ 0)
not-last_or b d a xs c = elim (Bool-cases (b == last_or d xs)) [
  | inl e ↦ absurd (
      omega (
        arith,
        count-last_or d xs,
        ap (λ z. count z (d ∷ xs)) ((==_iff b (last_or d xs)).0 e),
        count-append b (d ∷ xs) (a ∷ []),
      ))
  | inr e ↦ (e, omega (arith, count-append b (d ∷ xs) (a ∷ [])))
]

-- `skynet_globalmq_push` passes its assertion for a queue that is not in the list, and puts it last.
pub globalmq_push-IsQueued :
    (g : GlobalQueue) (xs : List ℕ) (a : ℕ)
    → IsQueued g xs
    → 0 < a
    → count a xs ≡ 0
    → (g' : GlobalQueue) × (globalmq_push g a ≡ some g') × IsQueued g' (xs ++ a ∷ [])
unfolding globalmq_push
globalmq_push-IsQueued g [] a v pos fresh = (
  record g { head = a; tail = a },
  ground (arith, v.unlinked a fresh),
  record {
    path = ground (arith, v.unlinked a fresh);
    last = refl;
    unlinked = λ b c. v.unlinked b refl;
  },
)
globalmq_push-IsQueued g (x ∷ xs) a v pos fresh = (
  record g { next = update g.next (last_or x xs) a; tail = a },
  pushed,
  record {
    path = IsPath-snoc g.next a g.head x xs pos (v.unlinked a fresh) fresh v.path;
    last = sym (last_or-snoc x a xs);
    unlinked = λ b c. let n = not-last_or b x a xs c in rw n.0 (v.unlinked b n.1);
  },
)
  where
    positive : (g.tail == 0) ≡ false
    positive = ground (arith, last_or-pos g.next g.head x xs v.path, v.last)

    pushed : globalmq_push g a ≡ some (record g { next = update g.next (last_or x xs) a; tail = a })
    pushed = rw (v.unlinked a fresh, positive, v.last)

-- `skynet_globalmq_pop` passes its assertion and takes the first queue, or finds none.
pub globalmq_pop-IsQueued :
    (g : GlobalQueue) (x : ℕ) (xs : List ℕ)
    → IsQueued g (x ∷ xs)
    → (g' : GlobalQueue) × (globalmq_pop g ≡ some (x, g')) × IsQueued g' xs
unfolding globalmq_pop
globalmq_pop-IsQueued g x [] v = (
  record { head = 0; tail = 0; next = update g.next x 0 },
  ground (arith, v.path, v.last),
  record { path = refl; last = refl; unlinked = λ b c. ground (arith, v.unlinked b) },
)
globalmq_pop-IsQueued g x (y ∷ r) v = (
  record g { head = g.next x; next = update g.next x 0 },
  popped,
  record {
    path = IsPath-update g.next x 0 (g.next x) (y ∷ r) v.path.2 v.path.3;
    last = v.last;
    unlinked = λ b c. ground (arith, v.unlinked b);
  },
)
  where
    here : (x == 0) ≡ false
    here = ground (arith, v.path)

    more : (g.next x == 0) ≡ false
    more = ground (arith, v.path)

    popped : globalmq_pop g ≡ some (x, record g { head = g.next x; next = update g.next x 0 })
    popped = rw (v.path.0, here, more)

pub globalmq_pop_empty : (g : GlobalQueue) → IsQueued g [] → globalmq_pop g ≡ some (0, g)
unfolding globalmq_pop
globalmq_pop_empty g v = ground (arith, v.path)

pub mq_init-IsQueued : IsQueued mq_init []
unfolding mq_init
mq_init-IsQueued = record { path = refl; last = refl; unlinked = λ a c. refl }

-- A new queue, outside the list, is given an empty link.
pub clear-IsQueued :
    (g : GlobalQueue) (xs : List ℕ) (a : ℕ)
    → IsQueued g xs
    → count a xs ≡ 0
    → IsQueued (record g { next = update g.next a 0 }) xs
clear-IsQueued g xs a v c = record {
  path = IsPath-update g.next a 0 g.head xs c v.path;
  last = v.last;
  unlinked = λ b d. ground (arith, v.unlinked b);
}
