-- ===== src/Netpack/Frames.antt =====
-- The packages of a byte stream, as a relation: what has been completed, and the bytes that are left.
use ue4_background.Netpack.{read_size}
use ue4_background.Prelude.{
  ℕ, ◌<◌, ◌≡◌, refl, sym, ap, ap₂, subst, ◌∙◌, List, [], ◌∷◌, ◌++◌, append_assoc, arith, length,
  length-append,
}

-- Fewer bytes than one package.
abbrev pub IsShort : List ℕ → Type 0
IsShort [] = Unit
IsShort (b ∷ []) = Unit
IsShort (b₀ ∷ b₁ ∷ rest) = length rest < read_size b₀ b₁

pub data Frames : List ℕ → List (List ℕ) → List ℕ → Type 0 where
  done : (rest : List ℕ) → IsShort rest → Frames rest [] rest
  frame :
      (b₀ b₁ : ℕ) (p tail rest bytes : List ℕ) (ps : List (List ℕ))
      → bytes ≡ b₀ ∷ b₁ ∷ p ++ tail
      → length p ≡ read_size b₀ b₁
      → Frames tail ps rest
      → Frames bytes (p ∷ ps) rest

-- Packages that are complete stay so when more bytes come.
pub Frames-append :
    {a r r' : List ℕ} {ps qs : List (List ℕ)} (b : List ℕ)
    → Frames a ps r
    → Frames (r ++ b) qs r'
    → Frames (a ++ b) (ps ++ qs) r'
Frames-append b (done rest s) g = g
Frames-append {r' = r'} {qs = qs} b (frame b₀ b₁ p tail rest bytes ps e l f) g =
    frame b₀ b₁ p (tail ++ b) r' (bytes ++ b) (ps ++ qs)
      (rw e (ap (λ z. b₀ ∷ b₁ ∷ z) (append_assoc p tail b))) l (Frames-append b f g)

append-split : (p p' t t' : List ℕ) → length p ≡ length p' → p ++ t ≡ p' ++ t' → (p ≡ p') × (t ≡ t')
append-split [] [] t t' l e = (refl, e)
append-split [] (x ∷ p') t t' l e = absurd (omega arith)
append-split (x ∷ p) [] t t' l e = absurd (omega arith)
append-split (x ∷ p) (y ∷ p') t t' l e =
    let (q, r) = append-split p p' t t' (omega arith) (cc e) in (cc (e, q), r)

not_short :
    (b₀ b₁ : ℕ) (p tail bytes : List ℕ)
    → bytes ≡ b₀ ∷ b₁ ∷ p ++ tail
    → length p ≡ read_size b₀ b₁
    → IsShort bytes
    → ⊥
not_short b₀ b₁ p tail bytes e l s = omega (arith, subst IsShort e s, length-append p tail, l)

-- A stream has one division into packages.
pub Frames-unique :
    {a r r' : List ℕ} {ps qs : List (List ℕ)}
    → Frames a ps r
    → Frames a qs r'
    → (ps ≡ qs) × (r ≡ r')
Frames-unique (done _ s) (done _ t) = (refl, refl)
Frames-unique (done _ s) (frame b₀ b₁ p tail _ bytes _ e l g) =
    absurd (not_short b₀ b₁ p tail bytes e l s)
Frames-unique (frame b₀ b₁ p tail _ bytes _ e l f) (done _ t) =
    absurd (not_short b₀ b₁ p tail bytes e l t)
Frames-unique {r = r} (frame b₀ b₁ p tail _ _ ps e l f) (frame c₀ c₁ p' tail' _ _ qs e' l' g) =
    let same : b₀ ∷ b₁ ∷ p ++ tail ≡ c₀ ∷ c₁ ∷ p' ++ tail' = sym e ∙ e' in
    let x₀ : b₀ ≡ c₀ = cc same in
    let x₁ : b₁ ≡ c₁ = cc same in
    let (x, y) = append-split p p' tail tail' (l ∙ ap₂ read_size x₀ x₁ ∙ sym l') (cc same) in
    let (z, w) = Frames-unique (subst (λ t. Frames t ps r) y f) g in (ap₂ (λ u v. u ∷ v) x z, w)
