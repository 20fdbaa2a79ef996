-- ===== src/Handle/Names.antt =====
-- skynet-src/skynet_handle.c: the sorted array of names. The list is the part of the array in use, its
-- first `name_count` cells. A name is its bytes up to the NUL.
pub mod Order
pub mod Search
pub mod Insert
use ue4_background.Prelude.{
  ℕ, zero, suc, ◌+◌, ◌-◌, ◌/◌, Option, none, some, List, [], ◌∷◌, ltb, ◌==◌, if◌then◌else◌, length,
  get_or, drop, count,
}

-- The sign of what `strcmp` returns.
pub data Sign : Type 0 where
  less same more : Sign

unfoldable pub strcmp : List ℕ → List ℕ → Sign
strcmp [] [] = same
strcmp [] (y ∷ ys) = less
strcmp (x ∷ xs) [] = more
strcmp (x ∷ xs) (y ∷ ys) =
    let rest = strcmp xs ys in if ltb x y then less else if ltb y x then more else rest

-- `struct handle_name`
pub record HandleName : Type 0 where
  pub name : List ℕ
  pub handle : ℕ

-- How a search ends: at an entry, or at the place where the name would go.
pub data Found : Type 0 where
  at : ℕ → Found
  before : ℕ → Found

abbrev pub no_name : HandleName
no_name = record { name = []; handle = 0 }

-- The loop of `skynet_handle_findname` and of `_insert_name`, with the rounds left. Here `end` is one
-- more than in the source, where it may be -1.
unfoldable pub bisect : ℕ → ℕ → ℕ → List HandleName → List ℕ → Found
bisect zero begin end names name = before begin
bisect (suc fuel) begin end names name =
    let mid = (begin + (end - 1)) / 2 in
    let right = bisect fuel (mid + 1) end names name in
    let left = bisect fuel begin mid names name in
    let c = strcmp (get_or names mid no_name).name name in
    if ltb begin end then elim c [ same ↦ at mid | less ↦ right | more ↦ left ] else before begin

-- Each round shortens the interval, so there are at most as many as names.
unfoldable pub findname : List HandleName → List ℕ → ℕ
findname names name = elim (bisect (length names) 0 (length names) names name) [
  | at i ↦ (get_or names i no_name).handle
  | before i ↦ 0
]

abbrev pub insert_at {ℓ} : {A : Type ℓ} → ℕ → A → List A → List A
insert_at zero x ys = x ∷ ys
insert_at (suc i) x [] = x ∷ []
insert_at (suc i) x (y ∷ ys) = y ∷ insert_at i x ys

-- `_insert_name`: `none` where it returns NULL.
unfoldable pub insert_name : List HandleName → List ℕ → ℕ → Option (List HandleName)
insert_name names name handle = elim (bisect (length names) 0 (length names) names name) [
  | at i ↦ none
  | before i ↦ some (insert_at i (record { name = name; handle = handle }) names)
]

-- The loop of `skynet_handle_retire` over the names.
unfoldable pub drop_names : List HandleName → ℕ → List HandleName
drop_names [] handle = []
drop_names (n ∷ ns) handle =
    let rest = drop_names ns handle in if n.handle == handle then rest else n ∷ rest
