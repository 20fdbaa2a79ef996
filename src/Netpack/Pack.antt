-- ===== src/Netpack/Pack.antt =====
-- What `lpack` writes, `filter_data_` reads.
use ue4_background.Netpack.Frames.{frame, done, Frames, Frames-unique}
use ue4_background.Netpack.Stream.{arrive_all_lem, arrive_all, packages_of, NoneEmpty, sent, Piece}
use ue4_background.Netpack.{new_queue, pack, read_size}
use ue4_background.Prelude.{
  ℕ, ◌/◌, ◌%◌, ◌<◌, ◌≡◌, refl, ap, subst, inl, inr, Option, none, some, List, [], ◌∷◌, ◌++◌, arith,
  ltb, ltb→lt, Bool-cases, Option-cases, length,
}

-- The packages of the messages, one after the other.
unfoldable pub pack_all : List (List ℕ) → Option (List ℕ)
pack_all [] = some []
pack_all (m ∷ ms) = elim (pack m) [
  | none ↦ none
  | some bytes ↦ elim (pack_all ms) [ none ↦ none | some more_bytes ↦ some (bytes ++ more_bytes) ]
]

-- The header of a package that is small enough gives its length.
read_size-pack : (n : ℕ) → n < 0x10000 → n ≡ read_size (n / 256 % 256) (n % 256)
read_size-pack n l = omega arith

pack_lem :
    (m bytes : List ℕ)
    → pack m ≡ some bytes
    → (b₀ : ℕ) × (b₁ : ℕ) × (bytes ≡ b₀ ∷ b₁ ∷ m) × (length m ≡ read_size b₀ b₁)
unfolding pack
pack_lem m bytes e = elim (Bool-cases (ltb (length m) 0x10000)) [
  | inl y ↦
      let f : some (length m / 256 % 256 ∷ length m % 256 ∷ m) ≡ some bytes = rw y at e in
      (length m / 256 % 256, length m % 256, cc f, read_size-pack (length m) (ltb→lt _ _ y))
  | inr n ↦ let f : none ≡ some bytes = rw n at e in absurd (cc f)
]

pack_all-Frames :
    (ms : List (List ℕ)) (bytes : List ℕ) → pack_all ms ≡ some bytes → Frames bytes ms []
unfolding pack_all
pack_all-Frames [] bytes e = let f : [] ≡ bytes = cc e in subst (λ z. Frames z [] []) f (done [] tt)
pack_all-Frames (m ∷ ms) bytes e = elim (Option-cases (pack m)) [
  | inl p ↦ let f : none ≡ some bytes = rw (pack_all, p) at e in absurd (cc f)
  | inr (bs, p) ↦ elim (Option-cases (pack_all ms)) [
    | inl r ↦ let f : none ≡ some bytes = rw (pack_all, p, r) at e in absurd (cc f)
    | inr (rest, r) ↦
        let f : some (bs ++ rest) ≡ some bytes = rw (pack_all, p, r) at e in
        let (b₀, b₁, q, l) = pack_lem m bs p in
        let g : bytes ≡ b₀ ∷ b₁ ∷ m ++ rest = cc (f, ap (λ z. z ++ rest) q) in
        frame b₀ b₁ m rest [] bytes ms g l (pack_all-Frames ms rest r)
  ]
]

-- Messages are packed, sent from `fd` one after the other and cut into pieces in any way, none of them
-- empty, with any pieces from other file descriptors between them. With a new queue, the packages read
-- from `fd` are the messages, in order.
pub arrive_all-pack_all :
    (fd : ℕ) (ms : List (List ℕ)) (pieces : List Piece)
    → pack_all ms ≡ some (sent fd pieces)
    → NoneEmpty pieces
    → packages_of fd (arrive_all new_queue pieces).0 ≡ ms
unfolding new_queue
arrive_all-pack_all fd ms pieces e n =
    let d = (arrive_all_lem new_queue (λ x. []) pieces refl (λ x. (refl, refl)) n).1 fd in
    (Frames-unique d.1 (pack_all-Frames ms (sent fd pieces) e)).0
