-- ===== src/Handle/Names/Order.antt =====
-- `strcmp` is a total order.
use ue4_background.Handle.Names.{less, more, no_name, same, HandleName, strcmp}
use ue4_background.Prelude.{ℕ, zero, suc, ◌<◌, ◌≡◌, refl, List, [], ◌∷◌, arith, length, get_or}

pub strcmp_self : (a : List ℕ) → strcmp a a ≡ same
unfolding strcmp
strcmp_self [] = refl
strcmp_self (x ∷ a) = ground (arith, strcmp_self a)

pub strcmp-eq-same : (a b : List ℕ) → strcmp a b ≡ same → a ≡ b
unfolding strcmp
strcmp-eq-same [] [] h = refl
strcmp-eq-same [] (y ∷ b) h = cc
strcmp-eq-same (x ∷ a) [] h = cc
strcmp-eq-same (x ∷ a) (y ∷ b) h = ground (arith, strcmp-eq-same a b)

pub strcmp_flip : (a b : List ℕ) → strcmp a b ≡ more → strcmp b a ≡ less
unfolding strcmp
strcmp_flip [] [] h = cc
strcmp_flip [] (y ∷ b) h = cc
strcmp_flip (x ∷ a) [] h = refl
strcmp_flip (x ∷ a) (y ∷ b) h = ground (arith, strcmp_flip a b)

pub strcmp_flip_less : (a b : List ℕ) → strcmp a b ≡ less → strcmp b a ≡ more
unfolding strcmp
strcmp_flip_less [] [] h = cc
strcmp_flip_less [] (y ∷ b) h = refl
strcmp_flip_less (x ∷ a) [] h = cc
strcmp_flip_less (x ∷ a) (y ∷ b) h = ground (arith, strcmp_flip_less a b)

pub strcmp_trans : (a b c : List ℕ) → strcmp a b ≡ less → strcmp b c ≡ less → strcmp a c ≡ less
unfolding strcmp
strcmp_trans [] [] c h k = cc
strcmp_trans [] (y ∷ b) [] h k = cc
strcmp_trans [] (y ∷ b) (z ∷ c) h k = refl
strcmp_trans (x ∷ a) [] c h k = cc
strcmp_trans (x ∷ a) (y ∷ b) [] h k = cc
strcmp_trans (x ∷ a) (y ∷ b) (z ∷ c) h k = ground (arith, strcmp_trans a b c)

-- Every name of the list is before, or not, and so on.
abbrev pub AllNames : (HandleName → Type 0) → List HandleName → Type 0
AllNames P [] = Unit
AllNames P (n ∷ ns) = P n × AllNames P ns

-- The names rise strictly.
abbrev pub IsSorted : List HandleName → Type 0
IsSorted [] = Unit
IsSorted (n ∷ ns) = AllNames (λ m. strcmp n.name m.name ≡ less) ns × IsSorted ns

pub AllNames-get_or :
    (P : HandleName → Type 0) (ns : List HandleName) (i : ℕ)
    → AllNames P ns
    → i < length ns
    → P (get_or ns i no_name)
AllNames-get_or P [] i h l = elim l [ ]
AllNames-get_or P (n ∷ ns) zero h l = h.0
AllNames-get_or P (n ∷ ns) (suc i) h l = AllNames-get_or P ns i h.1 (omega arith)

pub AllNames-intro :
    (P : HandleName → Type 0) (ns : List HandleName)
    → ((i : ℕ) → i < length ns → P (get_or ns i no_name))
    → AllNames P ns
AllNames-intro P [] h = tt
AllNames-intro P (n ∷ ns) h =
    (h 0 (omega arith), AllNames-intro P ns (λ i l. h (suc i) (omega arith)))

pub AllNames-mono :
    (P Q : HandleName → Type 0) (ns : List HandleName)
    → ((n : HandleName) → P n → Q n)
    → AllNames P ns
    → AllNames Q ns
AllNames-mono P Q [] f h = tt
AllNames-mono P Q (n ∷ ns) f h = (f n h.0, AllNames-mono P Q ns f h.1)

pub get_or-IsSorted :
    (ns : List HandleName) (i j : ℕ)
    → IsSorted ns
    → i < j
    → j < length ns
    → strcmp (get_or ns i no_name).name (get_or ns j no_name).name ≡ less
get_or-IsSorted [] i j s l m = elim m [ ]
get_or-IsSorted (n ∷ ns) i zero s l m = absurd (omega arith)
get_or-IsSorted (n ∷ ns) zero (suc j) s l m = AllNames-get_or _ ns j s.0 (omega arith)
get_or-IsSorted (n ∷ ns) (suc i) (suc j) s l m =
    get_or-IsSorted ns i j s.1 (omega arith) (omega arith)
