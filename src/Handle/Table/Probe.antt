-- ===== src/Handle/Table/Probe.antt =====
-- What the inner loop of `skynet_handle_register` finds, and what the larger table holds.
use ue4_background.Handle.Table.{rehash, handle_mask, HandleStorage, probe}
use ue4_background.Prelude.{
  ℕ, zero, suc, ◌+◌, ◌-◌, ◌*◌, ◌%◌, ◌≤◌, ◌<◌, ◌≡◌, refl, sym, ap, ◌∙◌, ◌≢◌, ◌⊎◌, inl, inr, false,
  none, some, List, [], ◌∷◌, arith, ltb, leb, ◌==◌, ==_iff, Bool-cases, length, get_or, set,
  length-set, get_or-set_self, get_or-set_ne,
}
use native.Mathlib.Nat.{
  mod-mod_of_dvd, mod-eq_of_lt, mod-add-mod, mod-lt, add-mod_right, dvd-mul_right,
}

-- The table: every service stands in the slot of its handle.
pub record IsTable (handle_of : ℕ → ℕ) (s : HandleStorage) : Type 0 where
  pub size : length s.slot ≡ s.slot_size
  pub some_slot : 0 < s.slot_size
  pub index : 0 < s.handle_index
  pub home :
      (i : ℕ)
      → i < s.slot_size
      → get_or s.slot i 0 ≢ 0
      → handle_of (get_or s.slot i 0) % s.slot_size ≡ i

-- Within the 24 bits of a handle, the loop stops at the first free slot that it meets.
pub probe_lem :
    (n handle size : ℕ) (slot : List ℕ)
    → handle + n ≤ handle_mask + 1
    → ((j : ℕ) × (j < n)
        × (probe n handle size slot ≡ some ((handle + j) % size, handle + j))
        × (get_or slot ((handle + j) % size) 0 ≡ 0))
      ⊎ ((probe n handle size slot ≡ none)
          × ((j : ℕ) → j < n → get_or slot ((handle + j) % size) 0 ≢ 0))
unfolding probe
probe_lem zero handle size slot h = inr (refl, λ j l. elim l [ ])
probe_lem (suc n) handle size slot h =
    let m : ltb handle_mask handle ≡ false = ground arith in
    let z : handle + 0 ≡ handle = omega arith in
    elim (Bool-cases (get_or slot (handle % size) 0 == 0)) [
      | inl y ↦ inl (0, omega arith, rw (m, y, z), rw z ((==_iff _ _).0 y))
      | inr y ↦
          rw (m, y)
            (elim (probe_lem n (handle + 1) size slot (omega arith)) [
              | inl (j, l, e, f) ↦
                  let q : handle + 1 + j ≡ handle + suc j = omega arith in
                  inl (suc j, omega arith, rw q at e, rw q at f)
              | inr (e, f) ↦ inr (e, all_taken f y)
            ])
    ]
  where
    all_taken :
        ((j : ℕ) → j < n → get_or slot ((handle + 1 + j) % size) 0 ≢ 0)
        → (get_or slot (handle % size) 0 == 0) ≡ false
        → (j : ℕ) → j < suc n
        → get_or slot ((handle + j) % size) 0 ≢ 0
    all_taken f y zero l = let z : handle + 0 ≡ handle = omega arith in rw z (λ q. ground arith)
    all_taken f y (suc j) l =
        let q : handle + suc j ≡ handle + 1 + j = omega arith in rw q (f j (omega arith))

-- `size` handles in a row meet every slot.
pub every_slot : (handle size i : ℕ) → i < size → (j : ℕ) × (j < size) × ((handle + j) % size ≡ i)
every_slot handle size i l = elim (Bool-cases (leb (handle % size) i)) [
  | inl y ↦ (
    i - handle % size,
    ground (arith, mod-lt handle {m = size}),
    sym (mod-add-mod handle size (i - handle % size))
        ∙ ap (λ z. z % size) (ground arith)
        ∙ mod-eq_of_lt l,
  )
  | inr y ↦ (
    i + size - handle % size,
    ground (arith, mod-lt handle {m = size}),
    sym (mod-add-mod handle size (i + size - handle % size))
        ∙ ap (λ z. z % size) (ground (arith, mod-lt handle {m = size}))
        ∙ add-mod_right i size
        ∙ mod-eq_of_lt l,
  )
]

-- A remainder by twice a number gives the remainder by the number.
pub half-mod : (x size : ℕ) → x % (size * 2) % size ≡ x % size
half-mod x size = mod-mod_of_dvd size x (dvd-mul_right size 2)

module _ (handle_of : ℕ → ℕ) (size : ℕ) where
  -- The larger table so far: what stands in it stands in its slot, and came from the slots below `k`.
  abbrev pub IsPartial : ℕ → List ℕ → Type 0
  IsPartial k new_slot =
      (m : ℕ)
      → get_or new_slot m 0 ≢ 0
      → (handle_of (get_or new_slot m 0) % (size * 2) ≡ m)
        × (handle_of (get_or new_slot m 0) % size < k)

  -- The services still to be moved, from slot `k` on.
  abbrev pub IsTail : ℕ → List ℕ → Type 0
  IsTail k cs =
      (j : ℕ) → j < length cs → (get_or cs j 0 ≢ 0) × (handle_of (get_or cs j 0) % size ≡ k + j)

  -- What the loop makes of the services `cs`.
  pub record Rehashed (cs new_slot final : List ℕ) : Type 0 where
    pub kept : (m : ℕ) → get_or new_slot m 0 ≢ 0 → get_or final m 0 ≡ get_or new_slot m 0
    pub moved_all :
        (j : ℕ)
        → j < length cs
        → get_or final (handle_of (get_or cs j 0) % (size * 2)) 0 ≡ get_or cs j 0
    pub no_more :
        (m : ℕ)
        → get_or final m 0 ≢ 0
        → (get_or final m 0 ≡ get_or new_slot m 0)
          ⊎ ((j : ℕ) × (j < length cs) × (get_or final m 0 ≡ get_or cs j 0))

  free_cell :
      (k : ℕ) (new_slot : List ℕ) (c : ℕ)
      → IsPartial k new_slot
      → handle_of c % size ≡ k
      → get_or new_slot (handle_of c % (size * 2)) 0 ≡ 0
  free_cell k new_slot c p e =
      elim (Bool-cases (get_or new_slot (handle_of c % (size * 2)) 0 == 0)) [
        | inl y ↦ (==_iff _ _).0 y
        | inr y ↦
            let r = p (handle_of c % (size * 2)) (λ q. ground arith) in
            absurd (
              omega (
                arith,
                r.1,
                e,
                ap (λ z. z % size) r.0,
                half-mod (handle_of c) size,
                half-mod (handle_of (get_or new_slot (handle_of c % (size * 2)) 0)) size,
              ))
      ]

  set-IsPartial :
      (k : ℕ) (new_slot : List ℕ) (c : ℕ)
      → length new_slot ≡ size * 2
      → 0 < size
      → IsPartial k new_slot
      → handle_of c % size ≡ k
      → IsPartial (k + 1) (set new_slot (handle_of c % (size * 2)) c)
  set-IsPartial k new_slot c l s p e m ne = elim (Bool-cases (handle_of c % (size * 2) == m)) [
    | inl y ↦
        let q : handle_of c % (size * 2) ≡ m = (==_iff _ _).0 y in
        let v : get_or (set new_slot (handle_of c % (size * 2)) c) m 0 ≡ c = rw (← q) (
          get_or-set_self new_slot _ c 0 (omega (arith, l, mod-lt (handle_of c) {m = size * 2}))) in
        rw v (q, omega (arith, e))
    | inr y ↦
        let v : get_or (set new_slot (handle_of c % (size * 2)) c) m 0 ≡ get_or new_slot m 0 =
          get_or-set_ne new_slot _ m c 0 (λ q. ground arith) in
        let r = p m (rw v at ne) in rw v (r.0, omega (arith, r.1))
  ]

  Rehashed-cons :
      (c : ℕ) (cs new_slot final : List ℕ)
      → handle_of c % (size * 2) < length new_slot
      → c ≢ 0
      → get_or new_slot (handle_of c % (size * 2)) 0 ≡ 0
      → Rehashed cs (set new_slot (handle_of c % (size * 2)) c) final
      → Rehashed (c ∷ cs) new_slot final
  Rehashed-cons c cs new_slot final l nz free r = record {
    kept = λ m ne.
        let o = other m (λ q. ne (ap (λ x. get_or new_slot x 0) (sym q) ∙ free)) in
        r.kept m (λ q. ne (sym o ∙ q)) ∙ o;
    moved_all = moved;
    no_more = λ m ne. elim (r.no_more m ne) [
      | inr (j, q, e) ↦ inr (suc j, omega arith, e)
      | inl e ↦ elim (Bool-cases (h == m)) [
        | inl y ↦
            inr (0, omega arith, e ∙ ap (λ x. get_or next x 0) (sym ((==_iff h m).0 y)) ∙ at_hash)
        | inr y ↦ inl (e ∙ other m (λ q. ground arith))
      ]
    ];
  }
    where
      h : ℕ
      h = handle_of c % (size * 2)

      next : List ℕ
      next = set new_slot h c

      at_hash : get_or next h 0 ≡ c
      at_hash = get_or-set_self new_slot h c 0 l

      other : (m : ℕ) → h ≢ m → get_or next m 0 ≡ get_or new_slot m 0
      other m ne = get_or-set_ne new_slot h m c 0 ne

      moved :
          (j : ℕ)
          → j < suc (length cs)
          → get_or final (handle_of (get_or (c ∷ cs) j 0) % (size * 2)) 0 ≡ get_or (c ∷ cs) j 0
      moved zero q = r.kept h (λ e. nz (sym at_hash ∙ e)) ∙ at_hash
      moved (suc j) q = r.moved_all j (omega arith)

  -- The loop does not crash: no assertion fails, since two services of one slot of the larger table
  -- would have shared a slot of the smaller one.
  pub rehash_lem :
      (cs : List ℕ) (k : ℕ) (new_slot : List ℕ)
      → length new_slot ≡ size * 2
      → 0 < size
      → IsPartial k new_slot
      → IsTail k cs
      → (final : List ℕ) × (rehash handle_of (size * 2) cs new_slot ≡ some final)
        × (length final ≡ size * 2)
        × IsPartial (k + length cs) final
        × Rehashed cs new_slot final
  unfolding rehash
  rehash_lem [] k new_slot l s p t = (
    new_slot,
    refl,
    l,
    (let e : k + 0 ≡ k = omega arith in rw e p),
    record { kept = λ m ne. refl; moved_all = λ j q. elim q [ ]; no_more = λ m ne. inl refl },
  )
  rehash_lem (c ∷ cs) k new_slot l s p t =
      let here = t 0 (omega arith) in
      let home : handle_of c % size ≡ k = omega (arith, here.1) in
      let free = free_cell k new_slot c p home in
      let z : (c == 0) ≡ false = ground (arith, here.0) in
      let next = set new_slot (handle_of c % (size * 2)) c in
      let (final, e, len, part, r) =
        rehash_lem cs (k + 1) next (length-set new_slot _ c ∙ l) s
          (set-IsPartial k new_slot c l s p home)
          (λ j q. let u = t (suc j) (omega arith) in (u.0, omega (arith, u.1))) in
      let at_hash : get_or next (handle_of c % (size * 2)) 0 ≡ c =
        get_or-set_self new_slot _ c 0 (omega (arith, l, mod-lt (handle_of c) {m = size * 2})) in
      (
        final,
        rw (z, free) e,
        len,
        (let q : k + 1 + length cs ≡ k + suc (length cs) = omega arith in rw q at part),
        Rehashed-cons c cs new_slot final (omega (arith, l, mod-lt (handle_of c) {m = size * 2}))
            here.0 free r,
      )
