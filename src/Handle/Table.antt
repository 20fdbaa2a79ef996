-- ===== src/Handle/Table.antt =====
-- skynet-src/skynet_handle.c: the hash table of services. Every call holds the lock. A service is the
-- address of its `struct skynet_context`, 0 is NULL; `handle_of` is `skynet_context_handle`.
pub mod Probe
pub mod Stored
pub mod Register
pub mod Retire
use ue4_background.Handle.Names.{HandleName, drop_names, insert_name}
use ue4_background.Prelude.{
  ℕ, zero, suc, ◌+◌, ◌-◌, ◌*◌, ◌/◌, ◌%◌, ◌^◌, ap, not, ◌&&◌, Option, none, some, List, [], ◌∷◌, map,
  ltb, leb, ◌==◌, if◌then◌else◌, get_or, set, replicate, drop, count,
}
use mathlib.Core.Option

abbrev pub handle_mask : ℕ
handle_mask = 0xffffff

-- `struct handle_storage` without its lock; `name` is the part of the array in use.
pub record HandleStorage : Type 0 where
  pub harbor : ℕ
  pub handle_index : ℕ
  pub slot_size : ℕ
  pub slot : List ℕ
  pub name : List HandleName

-- `skynet_handle_init`
unfoldable pub handle_init : ℕ → HandleStorage
handle_init harbor = record {
  harbor = harbor % 256 * 2 ^ 24;
  handle_index = 1;
  slot_size = 4;
  slot = replicate 4 0;
  name = [];
}

-- The inner loop of `skynet_handle_register`, with the rounds left: the free slot and its handle. As
-- `slot_size` is a power of two, `handle & (slot_size - 1)` is the remainder.
unfoldable pub probe : ℕ → ℕ → ℕ → List ℕ → Option (ℕ × ℕ)
probe zero handle slot_size slot = none
probe (suc n) handle slot_size slot =
    let h = if ltb handle_mask handle then 1 else handle in
    let rest = probe n (h + 1) slot_size slot in
    if get_or slot (h % slot_size) 0 == 0 then some (h % slot_size, h) else rest

-- The loop that fills the larger table. `none` is a crash: the handle of NULL is read, or the
-- assertion fails.
unfoldable pub rehash : (ℕ → ℕ) → ℕ → List ℕ → List ℕ → Option (List ℕ)
rehash handle_of slot_size [] new_slot = some new_slot
rehash handle_of slot_size (ctx ∷ slot) new_slot =
    let hash = handle_of ctx % slot_size in
    let rest = rehash handle_of slot_size slot (set new_slot hash ctx) in
    if ctx == 0 then none else if get_or new_slot hash 0 == 0 then rest else none

-- `skynet_handle_register`, with the rounds of its outer loop left. `none` is a crash or a failed
-- assertion. The harbor stands in the high byte, so `|` is a sum.
unfoldable pub register : ℕ → (ℕ → ℕ) → HandleStorage → ℕ → Option (ℕ × HandleStorage)
register zero handle_of s ctx = none
register (suc rounds) handle_of s ctx = elim (probe s.slot_size s.handle_index s.slot_size s.slot) [
  | some (hash, handle) ↦
      some (handle + s.harbor, record s { slot = set s.slot hash ctx; handle_index = handle + 1 })
  | none ↦
      if leb (s.slot_size * 2 - 1) handle_mask
      then elim (rehash handle_of (s.slot_size * 2) s.slot (replicate (s.slot_size * 2) 0)) [
        | none ↦ none
        | some new_slot ↦
            register rounds handle_of (record s { slot = new_slot; slot_size = s.slot_size * 2 })
              ctx
      ]
      else none
]

-- `skynet_handle_grab`, but for the count of the service that it returns.
unfoldable pub grab : (ℕ → ℕ) → HandleStorage → ℕ → Option ℕ
grab handle_of s handle =
    let ctx = get_or s.slot (handle % s.slot_size) 0 in
    if not (ctx == 0) && handle_of ctx == handle then some ctx else none

-- `skynet_handle_retire`: the service to release, and the storage.
unfoldable pub retire : (ℕ → ℕ) → HandleStorage → ℕ → Option ℕ × HandleStorage
retire handle_of s handle =
    let hash = handle % s.slot_size in
    let ctx = get_or s.slot hash 0 in
    if not (ctx == 0) && handle_of ctx == handle
    then (some ctx, record s { slot = set s.slot hash 0; name = drop_names s.name handle })
    else (none, s)

-- `skynet_handle_namehandle`
unfoldable pub namehandle : HandleStorage → ℕ → List ℕ → Option HandleStorage
namehandle s handle name =
    Option.map (λ ns. record s { name = ns }) (insert_name s.name name handle)
