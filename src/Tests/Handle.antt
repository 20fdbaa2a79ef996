-- ===== src/Tests/Handle.antt =====
-- skynet-src/skynet_handle.c at work.
use ue4_background.Handle.Table.Retire.{retire_lem, Retired}
use ue4_background.Handle.Names.Search.{findname-eq-lookup, lookup_name}
use ue4_background.Handle.Names.Order.{IsSorted}
use ue4_background.Handle.Table.Register.{register_lem}
use ue4_background.Handle.Table.Stored.{Registered, IsAbsent}
use ue4_background.Handle.Table.{rehash, probe, retire, HandleStorage, grab, register}
use ue4_background.Handle.Names.{HandleName, findname, strcmp}
use ue4_background.Handle.Table.Probe.{IsTable}
use ue4_background.Prelude.{
  ℕ, zero, suc, ◌-◌, ◌%◌, ◌<◌, ◌≡◌, refl, ◌≢◌, ◌⊎◌, none, some, List, [], ◌∷◌, arith, get_or,
}

abbrev two_names : List HandleName
two_names = record { name = 97 ∷ []; handle = 5 } ∷ record { name = 99 ∷ []; handle = 6 } ∷ []

two_names-IsSorted : IsSorted two_names
unfolding strcmp
two_names-IsSorted = ((refl, tt), (tt, tt))

findname-eq-lookup_example : findname two_names (99 ∷ []) ≡ lookup_name two_names (99 ∷ [])
findname-eq-lookup_example = findname-eq-lookup two_names (99 ∷ []) two_names-IsSorted

-- Four services fill the first table.
abbrev full_table : HandleStorage
full_table = record {
  harbor = 0;
  handle_index = 5;
  slot_size = 4;
  slot = 14 ∷ 11 ∷ 12 ∷ 13 ∷ [];
  name = two_names;
}

abbrev handles : ℕ → ℕ
handles ctx = ctx - 10

full_table-IsTable : IsTable handles full_table
full_table-IsTable = record {
  size = refl;
  some_slot = omega arith;
  index = omega arith;
  home = homes;
}
  where
    homes :
        (i : ℕ)
        → i < 4
        → get_or full_table.slot i 0 ≢ 0
        → handles (get_or full_table.slot i 0) % 4 ≡ i
    homes zero l ne = refl
    homes (suc zero) l ne = refl
    homes (suc (suc zero)) l ne = refl
    homes (suc (suc (suc zero))) l ne = refl
    homes (suc (suc (suc (suc i)))) l ne = absurd (omega arith)

fifteen-IsAbsent : IsAbsent full_table 15
fifteen-IsAbsent zero e = absurd (omega arith)
fifteen-IsAbsent (suc zero) e = absurd (omega arith)
fifteen-IsAbsent (suc (suc zero)) e = absurd (omega arith)
fifteen-IsAbsent (suc (suc (suc zero))) e = absurd (omega arith)
fifteen-IsAbsent (suc (suc (suc (suc i)))) e = absurd (omega arith)

register_lem_example :
    (r : ℕ) × (s' : HandleStorage) × (register 2 handles full_table 15 ≡ some (r, s'))
    × Registered handles full_table 15 r s'
register_lem_example =
    register_lem handles full_table 15 full_table-IsTable (omega arith) fifteen-IsAbsent
      (omega arith) (omega arith)

retire_lem_example :
    ((grab handles full_table 3 ≡ none) × (retire handles full_table 3 ≡ (none, full_table)))
    ⊎ ((ctx : ℕ) × (s' : HandleStorage) × (grab handles full_table 3 ≡ some ctx)
        × (retire handles full_table 3 ≡ (some ctx, s'))
        × Retired handles full_table 3 s')
retire_lem_example = retire_lem handles full_table 3 full_table-IsTable two_names-IsSorted

-- Where the handles come round to 1, slot 0 may be passed over: the table is then enlarged with a free
-- slot in it, whose handle is read through NULL.
register_comes_round :
    register 2 handles
      (record full_table { handle_index = 0xffffff; slot = 0 ∷ 11 ∷ 12 ∷ 13 ∷ [] })
      15
    ≡ none
unfolding register probe rehash
register_comes_round = refl
