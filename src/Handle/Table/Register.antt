-- ===== src/Handle/Table/Register.antt =====
-- `skynet_handle_register` adds one service to the table and disturbs no other.
use ue4_background.Handle.Table.Stored.{IsAbsent, Registered, stored, store-Registered}
use ue4_background.Handle.Table.Probe.{
  every_slot, probe_lem, half-mod, rehash_lem, Rehashed, IsPartial, IsTable,
}
use ue4_background.Handle.Table.{handle_mask, register, rehash, HandleStorage, grab}
use ue4_background.Prelude.{
  ℕ, ◌+◌, ◌-◌, ◌*◌, ◌%◌, ◌≤◌, ◌<◌, ◌≡◌, sym, ap, subst, ◌∙◌, ◌≢◌, inl, inr, true, false, some, List,
  arith, leb, ◌==◌, ==_iff, Bool-cases, length, get_or, set, replicate, length-replicate,
  get_or-replicate,
}
use native.Mathlib.Nat.{add_comm, mod-add-mod, mod-lt, mod_self, mod-eq_of_lt}

module _ (handle_of : ℕ → ℕ) where
  -- A table with no free slot, and the larger one made of it.
  module _ (s : HandleStorage) (v : IsTable handle_of s)
      (full : (i : ℕ) → i < s.slot_size → get_or s.slot i 0 ≢ 0) where
    abbrev larger : List ℕ → HandleStorage
    larger final = record s { slot = final; slot_size = s.slot_size * 2 }

    rehash-full :
        (final : List ℕ) × (rehash handle_of
            (s.slot_size * 2)
            s.slot
            (replicate (s.slot_size * 2) 0)
          ≡ some final)
        × (length final ≡ s.slot_size * 2)
        × IsPartial handle_of s.slot_size (0 + length s.slot) final
        × Rehashed handle_of s.slot_size s.slot (replicate (s.slot_size * 2) 0) final
    rehash-full =
        rehash_lem handle_of s.slot_size s.slot 0 (replicate (s.slot_size * 2) 0)
          (length-replicate (s.slot_size * 2) 0) v.some_slot
          (λ m ne. absurd (ne (get_or-replicate (s.slot_size * 2) m 0)))
          (λ j l.
            let f = full j (omega (arith, v.size)) in
            (f, v.home j (omega (arith, v.size)) f ∙ omega arith))

    module _ (final : List ℕ) (len : length final ≡ s.slot_size * 2)
        (part : IsPartial handle_of s.slot_size (0 + length s.slot) final)
        (r : Rehashed handle_of s.slot_size s.slot (replicate (s.slot_size * 2) 0) final) where
      from_slot :
          (m : ℕ)
          → get_or final m 0 ≢ 0
          → (j : ℕ) × (j < s.slot_size)
            × (get_or final m 0 ≡ get_or s.slot j 0)
            × (handle_of (get_or final m 0) % s.slot_size ≡ j)
      from_slot m ne = elim (r.no_more m ne) [
        | inl e ↦ absurd (ne (e ∙ get_or-replicate (s.slot_size * 2) m 0))
        | inr (j, l, e) ↦
            let b : j < s.slot_size = omega (arith, v.size) in
            (j, b, e, rw e (v.home j b (full j b)))
      ]

      larger-IsTable : IsTable handle_of (larger final)
      larger-IsTable = record {
        size = len;
        some_slot = omega (arith, v.some_slot);
        index = v.index;
        home = λ i l ne. (part i ne).0;
      }

      larger-IsAbsent : (ctx : ℕ) → ctx ≢ 0 → IsAbsent s ctx → IsAbsent (larger final) ctx
      larger-IsAbsent ctx nz away m e =
          let (j, l, p, q) = from_slot m (λ z. nz (sym e ∙ z)) in away j (sym p ∙ e)

      not_both : get_or final 0 0 ≢ 0 → get_or final s.slot_size 0 ≢ 0 → ⊥
      not_both a b =
          let S = s.slot_size in
          let (i, l, e, p) = from_slot 0 a in
          let (j, m, f, q) = from_slot S b in
          let i₀ : i ≡ 0 =
            sym p
            ∙ sym (half-mod (handle_of (get_or final 0 0)) S)
            ∙ ap (λ z. z % S) (part 0 a).0
            ∙ mod-eq_of_lt v.some_slot in
          let j₀ : j ≡ 0 =
            sym q
            ∙ sym (half-mod (handle_of (get_or final S 0)) S)
            ∙ ap (λ z. z % S) (part S b).0
            ∙ mod_self S in
          let same : get_or final 0 0 ≡ get_or final S 0 =
            e ∙ ap (λ z. get_or s.slot z 0) (i₀ ∙ sym j₀) ∙ sym f in
          omega
            (arith, v.some_slot, (part 0 a).0, (part S b).0, ap (λ z. handle_of z % (S * 2)) same)

      -- One of the cells 0 and `slot_size` is free: the same service would stand in both.
      larger-free : (m : ℕ) × (m < s.slot_size * 2) × (get_or final m 0 ≡ 0)
      larger-free = elim (Bool-cases (get_or final 0 0 == 0)) [
        | inl y ↦ (0, omega (arith, v.some_slot), (==_iff _ _).0 y)
        | inr y ↦ elim (Bool-cases (get_or final s.slot_size 0 == 0)) [
          | inl z ↦ (s.slot_size, omega (arith, v.some_slot), (==_iff _ _).0 z)
          | inr z ↦ absurd (not_both (λ q. ground arith) (λ q. ground arith))
        ]
      ]

      larger-grab : (x : ℕ) → grab handle_of (larger final) x ≡ grab handle_of s x
      unfolding grab
      larger-grab x =
          let S = s.slot_size in
          let c = get_or s.slot (x % S) 0 in
          let d = get_or final (x % (S * 2)) 0 in
          let low : x % S < S = omega (arith, mod-lt x {m = S}, v.some_slot) in
          let c≢0 : (c == 0) ≡ false = ground (arith, full (x % S) low) in
          elim (Bool-cases (handle_of c == x)) [
            | inl y ↦
                let e : d ≡ c =
                  subst (λ z. get_or final (z % (S * 2)) 0 ≡ c) ((==_iff (handle_of c) x).0 y)
                    (r.moved_all (x % S) (omega (arith, v.size, low))) in
                rw (grab, e)
            | inr y ↦ elim (Bool-cases (d == 0)) [
              | inl z ↦ rw (grab, y, z, c≢0)
              | inr z ↦ elim (Bool-cases (handle_of d == x)) [
                | inr w ↦ rw (grab, y, z, w, c≢0)
                | inl w ↦
                    let (j, l, p, q) = from_slot (x % (S * 2)) (λ u. ground arith) in
                    let k : x % S ≡ j = ap (λ u. u % S) (sym ((==_iff (handle_of d) x).0 w)) ∙ q in
                    let g : handle_of c ≡ x =
                      ap (λ u. handle_of (get_or s.slot u 0)) k
                      ∙ ap handle_of (sym p)
                      ∙ (==_iff (handle_of d) x).0 w in
                    absurd (ground (arith, g, y))
              ]
            ]
          ]

aligned_lem : (a b m : ℕ) → 0 < m → b % m ≡ 0 → (a + b) % m ≡ a % m
aligned_lem a b m p e =
    ap (λ z. z % m) (add_comm a b)
    ∙ sym (mod-add-mod b m a)
    ∙ ap (λ z. (z + a) % m) e
    ∙ ap (λ z. z % m) (omega arith)

-- Registering a service, while the handles do not come round at the end of their 24 bits: the call
-- succeeds, doubling the table if it is full. The service is found by its handle, which led nowhere
-- before, every other handle leads where it led, and the table is in order.
pub register_lem :
    (handle_of : ℕ → ℕ) (s : HandleStorage) (ctx : ℕ)
    → IsTable handle_of s
    → ctx ≢ 0
    → IsAbsent s ctx
    → s.handle_index + s.slot_size * 2 ≤ handle_mask + 1
    → s.harbor % (s.slot_size * 2) ≡ 0
    → (r : ℕ) × (s' : HandleStorage) × (register 2 handle_of s ctx ≡ some (r, s'))
      × Registered handle_of s ctx r s'
unfolding register stored
register_lem handle_of s ctx v nz away room aligned =
    elim (probe_lem s.slot_size s.handle_index s.slot_size s.slot (omega arith)) [
      | inl (j, l, e, free) ↦
          let h = s.handle_index + j in
          (
            h + s.harbor,
            record s { slot = set s.slot (h % s.slot_size) ctx; handle_index = h + 1 },
            rw (e, register),
            store-Registered handle_of s v ctx h nz away free (low_aligned h),
          )
      | inr (e, taken) ↦
          let full : (i : ℕ) → i < s.slot_size → get_or s.slot i 0 ≢ 0 = λ i l.
            let (j, m, q) = every_slot s.handle_index s.slot_size i l in
            subst (λ z. get_or s.slot z 0 ≢ 0) q (taken j m) in
          let (final, f, len, part, r) = rehash-full handle_of s v full in
          let (m, lm, fm) = larger-free handle_of s v full final len part r in
          let t = larger-IsTable handle_of s v full final len part r in
          let big : HandleStorage = record s { slot = final; slot_size = s.slot_size * 2 } in
          let fits : leb (s.slot_size * 2 - 1) handle_mask ≡ true = ground (arith, v.index) in
          elim (probe_lem (s.slot_size * 2) s.handle_index (s.slot_size * 2) final (omega arith)) [
            | inr (d, all) ↦
                let (j, n, q) = every_slot s.handle_index (s.slot_size * 2) m lm in
                absurd (all j n (ap (λ z. get_or final z 0) q ∙ fm))
            | inl (j, n, d, free) ↦
                let h = s.handle_index + j in
                let done =
                  store-Registered handle_of big t ctx h nz
                    (larger-IsAbsent handle_of s v full final len part r ctx nz away) free
                    (aligned_lem h s.harbor (s.slot_size * 2) (omega (arith, v.some_slot))
                      aligned) in
                (
                  h + s.harbor,
                  record big { slot = set final (h % (s.slot_size * 2)) ctx; handle_index = h + 1 },
                  rw (e, register, fits, f, d),
                  record {
                    fresh =
                        sym (larger-grab handle_of s v full final len part r (h + s.harbor))
                        ∙ done.fresh;
                    table = done.table;
                    found = done.found;
                    others = λ x ne.
                        done.others x ne ∙ larger-grab handle_of s v full final len part r x;
                  },
                )
          ]
    ]
  where
    low_aligned : (h : ℕ) → (h + s.harbor) % s.slot_size ≡ h % s.slot_size
    low_aligned h = aligned_lem h s.harbor s.slot_size v.some_slot (
        sym (half-mod s.harbor s.slot_size)
        ∙ ap (λ z. z % s.slot_size) aligned
        ∙ mod-eq_of_lt v.some_slot)
