-- ===== src/Handle/Table/Retire.antt =====
-- `skynet_handle_retire` takes one service out of the table, with its names.
use ue4_background.Handle.Names.{findname, drop_names}
use ue4_background.Handle.Names.Insert.{drop_names_lem}
use ue4_background.Handle.Names.Order.{IsSorted}
use ue4_background.Handle.Table.{retire, HandleStorage, grab}
use ue4_background.Handle.Table.Probe.{IsTable}
use ue4_background.Prelude.{
  ℕ, ◌%◌, ◌<◌, ◌≡◌, sym, ap, ◌∙◌, ◌≢◌, ◌⊎◌, inl, inr, false, not, ◌&&◌, none, some, List, arith,
  ◌==◌, if◌then◌else◌, ==_iff, Bool-cases, get_or, set, length-set, get_or-set_self, get_or-set_ne,
}
use native.Mathlib.Nat.{mod-lt}

-- What a retired handle leaves behind.
pub record Retired (handle_of : ℕ → ℕ) (s : HandleStorage) (x : ℕ) (s' : HandleStorage)
    : Type 0 where
  pub table : IsTable handle_of s'
  pub gone : grab handle_of s' x ≡ none
  pub others : (y : ℕ) → y ≢ x → grab handle_of s' y ≡ grab handle_of s y
  pub sorted : IsSorted s'.name
  pub names :
      (key : List ℕ)
      → findname s'.name key ≡ (if findname s.name key == x then 0 else findname s.name key)

module _ (handle_of : ℕ → ℕ) (s : HandleStorage) (v : IsTable handle_of s) (x : ℕ) where
  emptied : List ℕ
  emptied = set s.slot (x % s.slot_size) 0

  here : get_or emptied (x % s.slot_size) 0 ≡ 0
  unfolding emptied
  here =
      get_or-set_self s.slot _ 0 0 (omega (arith, v.size, v.some_slot, mod-lt x {m = s.slot_size}))

  there : (m : ℕ) → x % s.slot_size ≢ m → get_or emptied m 0 ≡ get_or s.slot m 0
  unfolding emptied
  there m ne = get_or-set_ne s.slot _ m 0 0 ne

  emptied-home :
      (i : ℕ)
      → i < s.slot_size
      → get_or emptied i 0 ≢ 0
      → handle_of (get_or emptied i 0) % s.slot_size ≡ i
  emptied-home i l ne = elim (Bool-cases (x % s.slot_size == i)) [
    | inl y ↦ absurd (ne (ap (λ z. get_or emptied z 0) (sym ((==_iff _ _).0 y)) ∙ here))
    | inr y ↦ let o = there i (λ q. ground arith) in rw o (v.home i l (rw o at ne))
  ]

  emptied-others :
      (y : ℕ)
      → y ≢ x
      → handle_of (get_or s.slot (x % s.slot_size) 0) ≡ x
      → grab handle_of (record s { slot = emptied; name = drop_names s.name x }) y
        ≡ grab handle_of s y
  unfolding grab
  emptied-others y ne e = elim (Bool-cases (x % s.slot_size == y % s.slot_size)) [
    | inl z ↦
        let q : x % s.slot_size ≡ y % s.slot_size = (==_iff _ _).0 z in
        let f : (handle_of (get_or s.slot (y % s.slot_size) 0) == y) ≡ false =
          ground (arith, ap (λ u. handle_of (get_or s.slot u 0)) q, e) in
        let h : get_or emptied (y % s.slot_size) 0 ≡ 0 =
          ap (λ u. get_or emptied u 0) (sym q) ∙ here in
        ground (arith, f, h)
    | inr z ↦ let o = there (y % s.slot_size) (λ q. ground arith) in rw (grab, o)
  ]

-- A handle that leads to a service is retired: the service is returned for release, the handle and the
-- names of it lead nowhere any more, and all other handles and names lead where they led. A handle that
-- leads nowhere is left alone.
pub retire_lem :
    (handle_of : ℕ → ℕ) (s : HandleStorage) (x : ℕ)
    → IsTable handle_of s
    → IsSorted s.name
    → ((grab handle_of s x ≡ none) × (retire handle_of s x ≡ (none, s)))
      ⊎ ((ctx : ℕ) × (s' : HandleStorage) × (grab handle_of s x ≡ some ctx)
          × (retire handle_of s x ≡ (some ctx, s'))
          × Retired handle_of s x s')
unfolding grab retire emptied
retire_lem handle_of s x v sorted =
    let ctx = get_or s.slot (x % s.slot_size) 0 in
    elim (Bool-cases (not (ctx == 0) && handle_of ctx == x)) [
      | inr n ↦ inl (rw (n, grab), rw (n, retire))
      | inl y ↦
          let home : handle_of ctx ≡ x = ground arith in
          inr (
            ctx,
            record s { slot = set s.slot (x % s.slot_size) 0; name = drop_names s.name x },
            rw (y, grab),
            rw (y, retire),
            record {
              table = record {
                size = length-set s.slot _ 0 ∙ v.size;
                some_slot = v.some_slot;
                index = v.index;
                home = emptied-home handle_of s v x;
              };
              gone = rw (here handle_of s v x, grab);
              others = λ y ne. emptied-others handle_of s v x y ne home;
              sorted = (drop_names_lem s.name x sorted).0;
              names = (drop_names_lem s.name x sorted).1;
            },
          )
    ]
