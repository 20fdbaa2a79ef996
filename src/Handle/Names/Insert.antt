-- ===== src/Handle/Names/Insert.antt =====
-- `_insert_name` and the removal of a service's names keep the array sorted, and act as on a table.
use ue4_background.Handle.Names.Search.{
  before-absent, search_lem, lookup_name_absent, Found-cases, Sign-cases, findname-eq-lookup,
  IsFound, lookup_name,
}
use ue4_background.Handle.Names.Order.{
  strcmp_self, AllNames-mono, strcmp-eq-same, strcmp_flip, AllNames-intro, AllNames, IsSorted,
}
use ue4_background.Handle.Names.{
  at, bisect, before, findname, insert_at, no_name, same, HandleName, drop_names, insert_name,
  strcmp,
}
use ue4_background.Prelude.{
  ℕ, zero, suc, ◌<◌, ◌≡◌, sym, ap, subst, ◌∙◌, ◌≢◌, ◌⊎◌, inl, inr, none, some, List, [], ◌∷◌, arith,
  ◌==◌, if◌then◌else◌, Bool-cases, length, get_or,
}

AllNames-insert_at :
    (P : HandleName → Type 0) (i : ℕ) (x : HandleName) (ns : List HandleName)
    → P x
    → AllNames P ns
    → AllNames P (insert_at i x ns)
AllNames-insert_at P zero x ns p h = (p, h)
AllNames-insert_at P (suc i) x [] p h = (p, tt)
AllNames-insert_at P (suc i) x (n ∷ ns) p h = (h.0, AllNames-insert_at P i x ns p h.1)

insert_at-IsSorted :
    (i : ℕ) (x : HandleName) (ns : List HandleName)
    → IsSorted ns
    → IsFound ns x.name (before i)
    → IsSorted (insert_at i x ns)
insert_at-IsSorted zero x ns s h =
    (AllNames-intro _ ns (λ j l. strcmp_flip _ _ (h.2 j (omega arith) l)), s)
insert_at-IsSorted (suc i) x [] s h = (tt, tt)
insert_at-IsSorted (suc i) x (n ∷ ns) s h = (
  AllNames-insert_at _ i x ns (h.1 0 (omega arith)) s.0,
  insert_at-IsSorted i x ns s.1 (
    omega (arith, h.0),
    λ j p. h.1 (suc j) (omega arith),
    λ j p q. h.2 (suc j) (omega arith) (omega arith),
  ),
)

-- The answer of the table when `name` is given to `handle`.
abbrev pub given : List ℕ → ℕ → List ℕ → ℕ → ℕ
given name handle key old = elim (strcmp name key) [ same ↦ handle | _ ↦ old ]

lookup-insert_at :
    (i : ℕ) (x : HandleName) (ns : List HandleName) (key : List ℕ)
    → AllNames (λ n. strcmp n.name x.name ≢ same) ns
    → lookup_name (insert_at i x ns) key ≡ given x.name x.handle key (lookup_name ns key)
lookup-insert_at zero x ns key h = ground arith
lookup-insert_at (suc i) x [] key h = ground arith
lookup-insert_at (suc i) x (n ∷ ns) key h = elim (Sign-cases (strcmp x.name key)) [
  | inl c ↦ ground (arith, lookup-insert_at i x ns key h.1)
  | inr (inr c) ↦ ground (arith, lookup-insert_at i x ns key h.1)
  | inr (inl c) ↦
      let k : strcmp n.name key ≢ same = λ d. h.0 (ap (strcmp n.name) (strcmp-eq-same _ _ c) ∙ d) in
      ground (arith, k, lookup-insert_at i x ns key h.1)
]

-- Registering a name over names that rise strictly fails exactly when the name is taken; otherwise the
-- names still rise strictly, the new name leads to its handle, and every other name to where it led.
pub insert_name_lem :
    (ns : List HandleName) (name : List ℕ) (handle : ℕ)
    → IsSorted ns
    → ((insert_name ns name handle ≡ none)
        × ((i : ℕ) × (i < length ns) × ((get_or ns i no_name).name ≡ name)))
      ⊎ ((ms : List HandleName) × (insert_name ns name handle ≡ some ms)
          × IsSorted ms
          × AllNames (λ n. n.name ≢ name) ns
          × ((key : List ℕ) → findname ms key ≡ given name handle key (findname ns key)))
unfolding insert_name
insert_name_lem ns name handle s = elim (Found-cases (bisect (length ns) 0 (length ns) ns name)) [
  | inl (i, e) ↦
      let r : IsFound ns name (at i) = subst (IsFound ns name) e (search_lem ns name s) in
      inl (rw (e, insert_name), (i, r.0, strcmp-eq-same _ _ r.1))
  | inr (i, e) ↦
      let r : IsFound ns name (before i) = subst (IsFound ns name) e (search_lem ns name s) in
      let x : HandleName = record { name = name; handle = handle } in
      let away = before-absent ns name i r in
      let t = insert_at-IsSorted i x ns s r in
      inr (
        insert_at i x ns,
        rw (e, insert_name),
        t,
        AllNames-mono _ _ ns (λ n h q. h (ap (λ z. strcmp z name) q ∙ strcmp_self name)) away,
        λ key.
            findname-eq-lookup (insert_at i x ns) key t
            ∙ lookup-insert_at i x ns key away
            ∙ ap (given name handle key) (sym (findname-eq-lookup ns key s)),
      )
]

AllNames-drop_names :
    (P : HandleName → Type 0) (ns : List HandleName) (h : ℕ)
    → AllNames P ns
    → AllNames P (drop_names ns h)
unfolding drop_names
AllNames-drop_names P [] h a = tt
AllNames-drop_names P (n ∷ ns) h a = elim (Bool-cases (n.handle == h)) [
  | inl y ↦ rw y (AllNames-drop_names P ns h a.1)
  | inr y ↦ rw y (a.0, AllNames-drop_names P ns h a.1)
]

drop_names-IsSorted : (ns : List HandleName) (h : ℕ) → IsSorted ns → IsSorted (drop_names ns h)
unfolding drop_names
drop_names-IsSorted [] h s = tt
drop_names-IsSorted (n ∷ ns) h s = elim (Bool-cases (n.handle == h)) [
  | inl y ↦ rw y (drop_names-IsSorted ns h s.1)
  | inr y ↦ rw y (AllNames-drop_names _ ns h s.0, drop_names-IsSorted ns h s.1)
]

lookup-drop_names :
    (ns : List HandleName) (h : ℕ) (key : List ℕ)
    → IsSorted ns
    → lookup_name (drop_names ns h) key
      ≡ (if lookup_name ns key == h then 0 else lookup_name ns key)
unfolding drop_names
lookup-drop_names [] h key s = ground arith
lookup-drop_names (n ∷ ns) h key s =
    let ih = lookup-drop_names ns h key s.1 in
    elim (Sign-cases (strcmp n.name key)) [
      | inl c ↦ elim (Bool-cases (n.handle == h)) [
        | inl y ↦ ground (arith, ih)
        | inr y ↦ ground (arith, ih)
      ]
      | inr (inr c) ↦ elim (Bool-cases (n.handle == h)) [
        | inl y ↦ ground (arith, ih)
        | inr y ↦ ground (arith, ih)
      ]
      | inr (inl c) ↦
          let gone : lookup_name (drop_names ns h) key ≡ 0 = lookup_name_absent _ key (
            AllNames-drop_names _ ns h (
              AllNames-mono _ _ ns
                (λ m l q. cc (
                  l,
                  c,
                  q,
                  strcmp-eq-same n.name key c,
                  strcmp-eq-same m.name key q,
                  strcmp_self key,
                ))
                s.0)) in
          elim (Bool-cases (n.handle == h)) [
            | inl y ↦ ground (arith, ih, gone)
            | inr y ↦ ground (arith, ih, gone)
          ]
    ]

-- When a service retires, the names of its handle lead nowhere, every other name leads where it led,
-- and the names still rise strictly.
pub drop_names_lem :
    (ns : List HandleName) (h : ℕ)
    → IsSorted ns
    → IsSorted (drop_names ns h)
      × ((key : List ℕ)
          → findname (drop_names ns h) key ≡ (if findname ns key == h then 0 else findname ns key))
drop_names_lem ns h s = (
  drop_names-IsSorted ns h s,
  λ key.
      findname-eq-lookup (drop_names ns h) key (drop_names-IsSorted ns h s)
      ∙ lookup-drop_names ns h key s
      ∙ ap (λ z. if z == h then 0 else z) (sym (findname-eq-lookup ns key s)),
)
