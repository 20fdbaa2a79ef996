-- ===== src/Handle/Names/Search.antt =====
-- The binary search over sorted names finds what a look through all of them finds.
use ue4_background.Handle.Names.Order.{
  strcmp_flip, strcmp_flip_less, get_or-IsSorted, strcmp_trans, AllNames-intro, strcmp-eq-same,
  AllNames, IsSorted,
}
use ue4_background.Handle.Names.{
  more, no_name, same, at, before, less, strcmp, Found, HandleName, Sign, bisect, findname,
}
use ue4_background.Prelude.{
  ℕ, zero, suc, ◌+◌, ◌-◌, ◌/◌, ◌≤◌, ◌<◌, ◌≡◌, refl, sym, subst, ◌≢◌, ◌⊎◌, inl, inr, List, [], ◌∷◌,
  arith, ltb, ◌==◌, ltb→lt, ltb→le, ==_iff, Bool-cases, length, get_or,
}

-- The handle of the first entry with the name, 0 if there is none.
abbrev pub lookup_name : List HandleName → List ℕ → ℕ
lookup_name [] name = 0
lookup_name (n ∷ ns) name = elim (strcmp n.name name) [ same ↦ n.handle | _ ↦ lookup_name ns name ]

-- What a search has found out.
abbrev pub IsFound : List HandleName → List ℕ → Found → Type 0
IsFound ns name (at i) = (i < length ns) × (strcmp (get_or ns i no_name).name name ≡ same)
IsFound ns name (before i) =
    (i ≤ length ns)
    × ((j : ℕ) → j < i → strcmp (get_or ns j no_name).name name ≡ less)
    × ((j : ℕ) → i ≤ j → j < length ns → strcmp (get_or ns j no_name).name name ≡ more)

pub Sign-cases : (c : Sign) → (c ≡ less) ⊎ ((c ≡ same) ⊎ (c ≡ more))
Sign-cases less = inl refl
Sign-cases same = inr (inl refl)
Sign-cases more = inr (inr refl)

bisect_lem :
    (fuel b e : ℕ) (ns : List HandleName) (name : List ℕ)
    → IsSorted ns
    → b ≤ e
    → e ≤ length ns
    → e ≤ b + fuel
    → ((j : ℕ) → j < b → strcmp (get_or ns j no_name).name name ≡ less)
    → ((j : ℕ) → e ≤ j → j < length ns → strcmp (get_or ns j no_name).name name ≡ more)
    → IsFound ns name (bisect fuel b e ns name)
unfolding bisect
bisect_lem zero b e ns name s le len f low high =
    (omega arith, low, λ j p q. high j (omega arith) q)
bisect_lem (suc fuel) b e ns name s le len f low high = elim (Bool-cases (ltb b e)) [
  | inr n ↦ let z : e ≤ b = ltb→le _ _ n in rw n (omega arith, low, λ j p q. high j (omega arith) q)
  | inl y ↦
      let lt : b < e = ltb→lt _ _ y in
      let mid = (b + (e - 1)) / 2 in
      let m : (b ≤ mid) × (mid < e) = omega arith in
      elim (Sign-cases (strcmp (get_or ns mid no_name).name name)) [
        | inl c ↦
            rw (y, c)
              (bisect_lem fuel (mid + 1) e ns name s (omega arith) len (omega arith)
                (λ j p. elim (Bool-cases (j == mid)) [
                  | inl q ↦ rw ((==_iff j mid).0 q) c
                  | inr q ↦
                      strcmp_trans _ _ _ (get_or-IsSorted ns j mid s (ground arith) (omega arith)) c
                ])
                high)
        | inr (inl c) ↦ rw (y, c) (omega arith, c)
        | inr (inr c) ↦
            rw (y, c)
              (bisect_lem fuel b mid ns name s (omega arith) (omega arith) (omega arith) low
                (λ j p q. elim (Bool-cases (j == mid)) [
                  | inl r ↦ rw ((==_iff j mid).0 r) c
                  | inr r ↦ strcmp_flip_less _ _ (
                      strcmp_trans _ _ _ (strcmp_flip _ _ c)
                        (get_or-IsSorted ns mid j s (ground arith) q))
                ]))
      ]
]

-- `search` never runs out of rounds, and what it answers is so.
pub search_lem :
    (ns : List HandleName) (name : List ℕ)
    → IsSorted ns
    → IsFound ns name (bisect (length ns) 0 (length ns) ns name)
search_lem ns name s =
    bisect_lem (length ns) 0 (length ns) ns name s (omega arith) (omega arith) (omega arith)
      (λ j p. elim p [ ]) (λ j p q. absurd (omega arith))

lookup_name-at :
    (ns : List HandleName) (name : List ℕ) (i : ℕ)
    → i < length ns
    → ((j : ℕ) → j < i → strcmp (get_or ns j no_name).name name ≡ less)
    → strcmp (get_or ns i no_name).name name ≡ same
    → lookup_name ns name ≡ (get_or ns i no_name).handle
lookup_name-at [] name i l h c = elim l [ ]
lookup_name-at (n ∷ ns) name zero l h c = rw (c, lookup_name)
lookup_name-at (n ∷ ns) name (suc i) l h c =
    rw (h 0 (omega arith), lookup_name)
      (lookup_name-at ns name i (omega arith) (λ j p. h (suc j) (omega arith)) c)

pub lookup_name_absent :
    (ns : List HandleName) (name : List ℕ)
    → AllNames (λ n. strcmp n.name name ≢ same) ns
    → lookup_name ns name ≡ 0
lookup_name_absent [] name h = refl
lookup_name_absent (n ∷ ns) name h = elim (Sign-cases (strcmp n.name name)) [
  | inl c ↦ rw (c, lookup_name) (lookup_name_absent ns name h.1)
  | inr (inl c) ↦ absurd (h.0 c)
  | inr (inr c) ↦ rw (c, lookup_name) (lookup_name_absent ns name h.1)
]

pub before-absent :
    (ns : List HandleName) (name : List ℕ) (i : ℕ)
    → IsFound ns name (before i)
    → AllNames (λ n. strcmp n.name name ≢ same) ns
before-absent ns name i h = AllNames-intro _ ns (λ j l c. elim (Bool-cases (ltb j i)) [
  | inl y ↦ cc (c, h.1 j (ltb→lt _ _ y))
  | inr y ↦ cc (c, h.2 j (ltb→le _ _ y) l)
])

pub Found-cases : (f : Found) → ((i : ℕ) × (f ≡ at i)) ⊎ ((i : ℕ) × (f ≡ before i))
Found-cases (at i) = inl (i, refl)
Found-cases (before i) = inr (i, refl)

-- Over names that rise strictly, the binary search of `skynet_handle_findname` returns the handle that
-- a look through all of them returns, and 0 where there is none.
pub findname-eq-lookup :
    (ns : List HandleName) (name : List ℕ) → IsSorted ns → findname ns name ≡ lookup_name ns name
unfolding findname
findname-eq-lookup ns name s = elim (Found-cases (bisect (length ns) 0 (length ns) ns name)) [
  | inl (i, e) ↦
      let r : IsFound ns name (at i) = subst (IsFound ns name) e (search_lem ns name s) in
      rw (e, findname)
        (sym (
          lookup_name-at ns name i r.0
            (λ j p.
              subst (λ z. strcmp (get_or ns j no_name).name z ≡ less) (strcmp-eq-same _ _ r.1)
                (get_or-IsSorted ns j i s p r.0))
            r.1))
  | inr (i, e) ↦
      let r : IsFound ns name (before i) = subst (IsFound ns name) e (search_lem ns name s) in
      rw (e, findname) (sym (lookup_name_absent ns name (before-absent ns name i r)))
]
