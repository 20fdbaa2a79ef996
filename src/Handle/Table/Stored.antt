-- ===== src/Handle/Table/Stored.antt =====
-- A service put into a free slot of the table.
use ue4_background.Handle.Table.Probe.{IsTable}
use ue4_background.Handle.Table.{HandleStorage, grab}
use ue4_background.Prelude.{
  ℕ, ◌+◌, ◌%◌, ◌<◌, ◌≡◌, ◌∙◌, ◌≢◌, inl, inr, false, none, some, arith, ◌==◌, ==_iff, ==_refl,
  Bool-cases, get_or, set, length-set, get_or-set_self, get_or-set_ne, update, update_ne,
}
use native.Mathlib.Nat.{mod-lt}

-- No slot holds the service.
abbrev pub IsAbsent : HandleStorage → ℕ → Type 0
IsAbsent s ctx = (m : ℕ) → get_or s.slot m 0 ≢ ctx

module _ (handle_of : ℕ → ℕ) where
  pub grab-none :
      (s : HandleStorage) (x : ℕ)
      → get_or s.slot (x % s.slot_size) 0 ≡ 0
      → grab handle_of s x ≡ none
  unfolding grab
  grab-none s x e = rw (e, grab)

  -- What has changed when a service has been given a handle.
  pub record Registered (s : HandleStorage) (ctx r : ℕ) (s' : HandleStorage) : Type 0 where
    pub fresh : grab handle_of s r ≡ none
    pub table : IsTable (update handle_of ctx r) s'
    pub found : grab (update handle_of ctx r) s' r ≡ some ctx
    pub others : (x : ℕ) → x ≢ r → grab (update handle_of ctx r) s' x ≡ grab handle_of s x

  module _ (s : HandleStorage) (v : IsTable handle_of s) (ctx h : ℕ) (nz : ctx ≢ 0)
      (away : IsAbsent s ctx) (free : get_or s.slot (h % s.slot_size) 0 ≡ 0)
      (aligned : (h + s.harbor) % s.slot_size ≡ h % s.slot_size) where
    unfoldable pub stored : HandleStorage
    stored = record s { slot = set s.slot (h % s.slot_size) ctx; handle_index = h + 1 }

    here : get_or (set s.slot (h % s.slot_size) ctx) (h % s.slot_size) 0 ≡ ctx
    here =
        get_or-set_self s.slot _ ctx 0
          (omega (arith, v.size, v.some_slot, mod-lt h {m = s.slot_size}))

    there :
        (m : ℕ)
        → h % s.slot_size ≢ m
        → get_or (set s.slot (h % s.slot_size) ctx) m 0 ≡ get_or s.slot m 0
    there m ne = get_or-set_ne s.slot _ m ctx 0 ne

    given-other : (c : ℕ) → c ≢ ctx → update handle_of ctx (h + s.harbor) c ≡ handle_of c
    given-other c ne = update_ne handle_of ctx c (h + s.harbor) ne

    store-home :
        (i : ℕ)
        → i < s.slot_size
        → get_or stored.slot i 0 ≢ 0
        → update handle_of ctx (h + s.harbor) (get_or stored.slot i 0) % s.slot_size ≡ i
    unfolding stored
    store-home i l ne = elim (Bool-cases (h % s.slot_size == i)) [
      | inl y ↦
          let q : h % s.slot_size ≡ i = (==_iff _ _).0 y in rw (← q, here, ==_refl ctx) aligned
      | inr y ↦
          let o = there i (λ q. ground arith) in
          rw (o, given-other (get_or s.slot i 0) (away i)) (v.home i l (rw o at ne))
    ]

    store-others :
        (x : ℕ)
        → x ≢ h + s.harbor
        → grab (update handle_of ctx (h + s.harbor)) stored x ≡ grab handle_of s x
    unfolding grab stored
    store-others x ne = elim (Bool-cases (h % s.slot_size == x % s.slot_size)) [
      | inl y ↦
          let q : h % s.slot_size ≡ x % s.slot_size = (==_iff _ _).0 y in
          let e : (h + s.harbor == x) ≡ false = ground arith in
          let z : (ctx == 0) ≡ false = ground arith in rw (grab, ← q, here, free, ==_refl ctx, e, z)
      | inr y ↦
          let o = there (x % s.slot_size) (λ q. ground arith) in
          rw (grab, o, given-other (get_or s.slot (x % s.slot_size) 0) (away (x % s.slot_size)))
    ]

    store-found : grab (update handle_of ctx (h + s.harbor)) stored (h + s.harbor) ≡ some ctx
    unfolding grab stored
    store-found =
        let z : (ctx == 0) ≡ false = ground arith in
        rw (grab, aligned, here, z, ==_refl ctx, ==_refl (h + s.harbor))

    pub store-Registered : Registered s ctx (h + s.harbor) stored
    unfolding stored
    store-Registered = record {
      fresh = grab-none s (h + s.harbor) (rw aligned free);
      table = record {
        size = length-set s.slot _ ctx ∙ v.size;
        some_slot = v.some_slot;
        index = omega arith;
        home = store-home;
      };
      found = store-found;
      others = store-others;
    }
