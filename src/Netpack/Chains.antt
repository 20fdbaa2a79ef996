-- ===== src/Netpack/Chains.antt =====
-- The incomplete packages of lua-netpack.c: at most one for each file descriptor.
use ue4_background.Netpack.Frames.{IsShort}
use ue4_background.Netpack.{
  push_data, Progress, Queue, Uncomplete, find_uncomplete, hash_fd, header, body, read_size,
  save_uncomplete, take_out,
}
use ue4_background.Prelude.{
  ℕ, ◌<◌, ◌≡◌, refl, sym, subst, ◌≢◌, inl, inr, false, Option, none, some, List, [], ◌∷◌, arith,
  ◌==◌, ==_iff, ==_refl, Bool-cases, length, update_self, update_ne,
}

-- What a file descriptor has waiting is these bytes.
abbrev pub Waits : Progress → List ℕ → Type 0
Waits (header b) rest = rest ≡ b ∷ []
Waits (body size filled) rest =
    (b₀ : ℕ) × (b₁ : ℕ) × (size ≡ read_size b₀ b₁)
    × (rest ≡ b₀ ∷ b₁ ∷ filled)
    × (length filled < size)

abbrev pub WaitsOrNone : Option Uncomplete → List ℕ → Type 0
WaitsOrNone none rest = rest ≡ []
WaitsOrNone (some u) rest = Waits u.progress rest

-- No incomplete package of the file descriptor is in the table.
abbrev pub IsFree : Queue → ℕ → Type 0
IsFree q fd = (take_out fd (q.hash (hash_fd fd))).0 ≡ none

-- The table holds one incomplete package of the file descriptor, with these bytes, or none, and no
-- bytes.
abbrev pub Holds : Queue → ℕ → List ℕ → Type 0
Holds q fd rest =
    WaitsOrNone (take_out fd (q.hash (hash_fd fd))).0 rest
    × ((take_out fd (take_out fd (q.hash (hash_fd fd))).1).0 ≡ none)

pub take_out-none :
    (fd : ℕ) (us : List Uncomplete) → (take_out fd us).0 ≡ none → (take_out fd us).1 ≡ us
take_out-none fd [] e = refl
take_out-none fd (u ∷ us) e = ground (arith, take_out-none fd us)

pub find_uncomplete-IsFree :
    (q : Queue) (fd : ℕ) (rest : List ℕ) → Holds q fd rest → IsFree (find_uncomplete q fd).1 fd
unfolding find_uncomplete
find_uncomplete-IsFree q fd rest h =
    rw (update_self q.hash (hash_fd fd) (take_out fd (q.hash (hash_fd fd))).1) h.1

pub IsFree-Holds : (q : Queue) (fd : ℕ) → IsFree q fd → Holds q fd []
IsFree-Holds q fd e = (rw e refl, rw (take_out-none fd (q.hash (hash_fd fd)) e) e)

pub save_uncomplete-Holds :
    (q : Queue) (fd : ℕ) (progress : Progress) (rest : List ℕ)
    → IsFree q fd
    → Waits progress rest
    → Holds (save_uncomplete q fd progress) fd rest
unfolding save_uncomplete
save_uncomplete-Holds q fd progress rest e w =
    rw
      (
        update_self q.hash (hash_fd fd)
            (record { id = fd; progress = progress } ∷ q.hash (hash_fd fd)),
        ==_refl fd,
      )
      (w, e)

-- Another file descriptor's bytes stay as they are.
abbrev pub Same : Queue → Queue → ℕ → Type 0
Same q q' other = (rest : List ℕ) → Holds q other rest → Holds q' other rest

take_out_other :
    (fd other : ℕ) (us : List Uncomplete)
    → other ≢ fd
    → (take_out other (take_out fd us).1).0 ≡ (take_out other us).0
take_out_other fd other [] ne = refl
take_out_other fd other (u ∷ us) ne = ground (arith, take_out_other fd other us ne)

take_out_swap :
    (fd other : ℕ) (us : List Uncomplete)
    → other ≢ fd
    → (take_out other (take_out fd us).1).1 ≡ (take_out fd (take_out other us).1).1
take_out_swap fd other [] ne = refl
take_out_swap fd other (u ∷ us) ne = ground (arith, take_out_swap fd other us ne)

pub find_uncomplete-Same :
    (q : Queue) (fd other : ℕ) → other ≢ fd → Same q (find_uncomplete q fd).1 other
unfolding find_uncomplete
find_uncomplete-Same q fd other ne rest (w, e) = elim (Bool-cases (hash_fd other == hash_fd fd)) [
  | inr n ↦
      let o =
        update_ne q.hash (hash_fd fd) (hash_fd other) (take_out fd (q.hash (hash_fd fd))).1
          (λ y. ground arith) in
      rw o (w, e)
  | inl y ↦
      let us = q.hash (hash_fd fd) in
      let same : hash_fd other ≡ hash_fd fd = (==_iff _ _).0 y in
      let w' : WaitsOrNone (take_out other us).0 rest =
        subst (λ z. WaitsOrNone (take_out other (q.hash z)).0 rest) same w in
      let e' : (take_out other (take_out other us).1).0 ≡ none =
        subst (λ z. (take_out other (take_out other (q.hash z)).1).0 ≡ none) same e in
      rw
        (
          same,
          update_self q.hash (hash_fd fd) (take_out fd us).1,
          take_out_other fd other us ne,
          take_out_swap fd other us ne,
          take_out_other fd other (take_out other us).1 ne,
        )
        (w', e')
]

pub save_uncomplete-Same :
    (q : Queue) (fd other : ℕ) (progress : Progress)
    → other ≢ fd
    → Same q (save_uncomplete q fd progress) other
unfolding save_uncomplete
save_uncomplete-Same q fd other progress ne rest (w, e) =
    let h = hash_fd fd in
    let u : Uncomplete = record { id = fd; progress = progress } in
    elim (Bool-cases (hash_fd other == h)) [
      | inr n ↦
          let o = update_ne q.hash h (hash_fd other) (u ∷ q.hash h) (λ y. ground arith) in
          rw o (w, e)
      | inl y ↦
          let same : hash_fd other ≡ h = (==_iff _ _).0 y in
          let w' : WaitsOrNone (take_out other (q.hash h)).0 rest =
            subst (λ z. WaitsOrNone (take_out other (q.hash z)).0 rest) same w in
          let e' : (take_out other (take_out other (q.hash h)).1).0 ≡ none =
            subst (λ z. (take_out other (take_out other (q.hash z)).1).0 ≡ none) same e in
          let d : (fd == other) ≡ false = ground arith in
          rw (same, update_self q.hash h (u ∷ q.hash h), d) (w', rw d e')
    ]

pub push_data-IsFree :
    (q : Queue) (fd : ℕ) (p : List ℕ) → IsFree q fd → IsFree (push_data q fd p) fd
unfolding push_data
push_data-IsFree q fd p f = f

pub find_uncomplete-WaitsOrNone :
    (q : Queue) (fd : ℕ) (rest : List ℕ)
    → Holds q fd rest
    → WaitsOrNone (find_uncomplete q fd).0 rest
unfolding find_uncomplete
find_uncomplete-WaitsOrNone q fd rest h = h.0

WaitsOrNone-IsShort : (o : Option Uncomplete) (rest : List ℕ) → WaitsOrNone o rest → IsShort rest
WaitsOrNone-IsShort none rest w = subst IsShort (sym w) tt
WaitsOrNone-IsShort (some u) rest w = waits u.progress w
  where
    waits : (progress : Progress) → Waits progress rest → IsShort rest
    waits (header b) e = subst IsShort (sym e) tt
    waits (body size filled) (b₀, b₁, e, r, l) = subst IsShort (sym r) (omega arith)

-- What waits is less than a package.
pub Holds-IsShort : (q : Queue) (fd : ℕ) (rest : List ℕ) → Holds q fd rest → IsShort rest
Holds-IsShort q fd rest h = WaitsOrNone-IsShort (take_out fd (q.hash (hash_fd fd))).0 rest h.0
