-- ===== src/Mq/Ring/Copy.antt =====
-- The copy loop of `expand_queue`, which is also how the ring is read.
use ue4_background.Prelude.{
  ℕ, zero, suc, ◌+◌, ◌-◌, ◌%◌, ◌≤◌, ◌<◌, ◌≡◌, refl, ap₂, ap, ◌≢◌, Option, none, List, [], ◌∷◌, ◌++◌,
  arith, ltb, if◌then◌else◌, length, get_or, set, drop, get_or-set_ne, dec_lt,
}
use native.Mathlib.Nat.{mod-eq_of_lt, mod-eq-sub-mod, mod-add-mod}
use ue4_background.Mq.{Message, Cells, copy_cells}

-- An offset behind the head goes round the end of the array at most once.
pub offset-mod :
    (cap h j : ℕ)
    → h < cap
    → j ≤ cap
    → (h + j) % cap ≡ (if ltb (h + j) cap then h + j else h + j - cap)
offset-mod cap h j p q = elim (dec_lt (h + j) cap) [
  | yes r ↦ ground (arith, mod-eq_of_lt r)
  | no r ↦ ground (
    arith,
    mod-eq-sub-mod {n = h + j} {m = cap} (omega arith),
    mod-eq_of_lt {n = h + j - cap} {m = cap} (omega arith),
  )
]

module _ (queue : Cells) (cap h : ℕ) where
  pub length-copy_cells : (i n : ℕ) → length (copy_cells queue cap h i n) ≡ n
  unfolding copy_cells
  length-copy_cells i zero = refl
  length-copy_cells i (suc n) = ap suc (length-copy_cells (i + 1) n)

  pub copy_cells-snoc :
      (i n : ℕ)
      → copy_cells queue cap h i (suc n)
        ≡ copy_cells queue cap h i n ++ get_or queue ((h + (i + n)) % cap) none ∷ []
  unfolding copy_cells
  copy_cells-snoc i zero = let e : i + 0 ≡ i = omega arith in rw e
  copy_cells-snoc i (suc n) =
      let e : i + suc n ≡ i + 1 + n = omega arith in rw e (ap₂ ◌∷◌ refl (copy_cells-snoc (i + 1) n))

  pub copy_cells-set :
      (t i n : ℕ) (v : Option Message)
      → ((j : ℕ) → i ≤ j → j < i + n → t ≢ (h + j) % cap)
      → copy_cells (set queue t v) cap h i n ≡ copy_cells queue cap h i n
  unfolding copy_cells
  copy_cells-set t i zero v miss = refl
  copy_cells-set t i (suc n) v miss =
      ap₂ ◌∷◌ (get_or-set_ne queue t ((h + i) % cap) v none (miss i (omega arith) (omega arith)))
        (copy_cells-set t (i + 1) n v (λ j p q. miss j (omega arith) (omega arith)))

  -- Reading from one past the head is reading one further on.
  pub copy_cells-shift :
      (i n : ℕ) → copy_cells queue cap h (i + 1) n ≡ copy_cells queue cap ((h + 1) % cap) i n
  unfolding copy_cells
  copy_cells-shift i zero = refl
  copy_cells-shift i (suc n) =
      ap₂ ◌∷◌ (ap (λ k. get_or queue k none) same) (copy_cells-shift (i + 1) n)
    where
      same : (h + (i + 1)) % cap ≡ ((h + 1) % cap + i) % cap
      same = rw mod-add-mod (ap (λ k. k % cap) (omega arith))

get_or-drop :
    {A : Type 0} (xs ys : List A) (i : ℕ) (x d : A)
    → drop i xs ≡ x ∷ ys
    → (get_or xs i d ≡ x) × (drop (i + 1) xs ≡ ys)
get_or-drop [] ys zero x d h = cc
get_or-drop [] ys (suc i) x d h = cc
get_or-drop (z ∷ xs) ys zero x d h = ground arith
get_or-drop (z ∷ xs) ys (suc i) x d h =
    let r = get_or-drop xs ys i x d h in
    (r.0, let e : suc i + 1 ≡ suc (i + 1) = omega arith in rw e r.1)

-- From head 0 the cells are read as they stand.
pub copy_cells-plain :
    (queue ys : Cells) (cap i : ℕ) (xs : Cells)
    → drop i queue ≡ xs ++ ys
    → i + length xs ≤ cap
    → copy_cells queue cap 0 i (length xs) ≡ xs
unfolding copy_cells
copy_cells-plain queue ys cap i [] h p = refl
copy_cells-plain queue ys cap i (x ∷ xs) h p =
    let r = get_or-drop queue (xs ++ ys) i x none h in
    let e : (0 + i) % cap ≡ i =
      omega
        (arith, mod-eq_of_lt {n = i} {m = cap}, mod-eq_of_lt {n = 0 + i} {m = cap} (omega arith)) in
    ap₂ ◌∷◌ (rw e r.0) (copy_cells-plain queue ys cap (i + 1) xs r.1 (omega arith))
