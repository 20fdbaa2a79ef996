-- ===== src/Timer/Slot.antt =====
-- Where a node stands in the wheel, in closed form, and when it has to move.
use ue4_background.Timer.{or_low, place, shift_list}
use ue4_background.Prelude.{
  ℕ, ◌+◌, ◌-◌, ◌/◌, ◌%◌, ◌^◌, ◌<◌, ◌≡◌, ◌≢◌, inl, inr, false, Option, none, some, arith, ltb, ◌==◌,
  if◌then◌else◌, ltb→lt, Bool-cases,
}

-- `e` lies ahead of `c` on the circle of 32-bit times, by less than half of it.
pub record IsAhead (c e : ℕ) : Type 0 where
  pub word : e < 2 ^ 32
  pub ahead : (e + 2 ^ 32 - c) % 2 ^ 32 < 2 ^ 31

abbrev pub digit : ℕ → ℕ
digit e = e % 64

-- The list of an expiry time `e` at the time `c`.
abbrev pub slot : ℕ → ℕ → ℕ
slot e c =
    if e / 256 == c / 256
    then e % 256
    else if e / 16384 == c / 16384
    then 256 + e / 256 % 64
    else if e / 1048576 == c / 1048576
    then 320 + e / 16384 % 64
    else if e / 67108864 == c / 67108864
    then 384 + e / 1048576 % 64
    else 448 + e / 67108864 % 64

or_low_near-eq : (a b : ℕ) → (or_low a 256 == or_low b 256) ≡ (a / 256 == b / 256)
or_low_near-eq a b = ground arith

or_low_first-eq : (a b : ℕ) → (or_low a 16384 == or_low b 16384) ≡ (a / 16384 == b / 16384)
or_low_first-eq a b = ground arith

or_low_second-eq : (a b : ℕ) → (or_low a 1048576 == or_low b 1048576) ≡ (a / 1048576 == b / 1048576)
or_low_second-eq a b = ground arith

or_low_third-eq :
    (a b : ℕ) → (or_low a 67108864 == or_low b 67108864) ≡ (a / 67108864 == b / 67108864)
or_low_third-eq a b = ground arith

pub place-slot : (e c : ℕ) → place e c ≡ slot e c
unfolding place
place-slot e c =
    simp (or_low_near-eq e c, or_low_first-eq e c, or_low_second-eq e c, or_low_third-eq e c)
      (ground arith)

-- The list that `timer_shift` empties, in closed form.
abbrev pub shifted : ℕ → Option ℕ
shifted c =
    if c == 0
    then some 448
    else if c % 256 == 0
    then (if c / 256 % 64 == 0
        then (if c / 16384 % 64 == 0
            then (if c / 1048576 % 64 == 0
                then some (448 + c / 67108864 % 64)
                else some (384 + c / 1048576 % 64))
            else some (320 + c / 16384 % 64))
        else some (256 + c / 256 % 64))
    else none

pub shift_list-shifted : (c : ℕ) → c < 2 ^ 32 → shift_list c ≡ shifted c
unfolding shift_list
shift_list-shifted c h = ground arith

-- The times `c` and `d` in the same block of 256, 2 ^ 14, 2 ^ 20 or 2 ^ 26.
stays_near :
    (e c d : ℕ)
    → d / 256 ≡ c / 256
    → d / 16384 ≡ c / 16384
    → d / 1048576 ≡ c / 1048576
    → d / 67108864 ≡ c / 67108864
    → slot e d ≡ slot e c
stays_near e c d p q r s = rw (p, q, r, s)

stays_first :
    (e c d : ℕ)
    → d / 16384 ≡ c / 16384
    → d / 1048576 ≡ c / 1048576
    → d / 67108864 ≡ c / 67108864
    → e / 256 ≢ c / 256
    → 256 + d / 256 % 64 ≢ slot e c
    → slot e d ≡ slot e c
stays_first e c d q r s far ne = ground arith

stays_second :
    (e c d : ℕ)
    → d / 1048576 ≡ c / 1048576
    → d / 67108864 ≡ c / 67108864
    → e / 16384 ≢ c / 16384
    → 320 + d / 16384 % 64 ≢ slot e c
    → slot e d ≡ slot e c
stays_second e c d r s far ne = ground arith

stays_third :
    (e c d : ℕ)
    → d / 67108864 ≡ c / 67108864
    → e / 1048576 ≢ c / 1048576
    → 384 + d / 1048576 % 64 ≢ slot e c
    → slot e d ≡ slot e c
stays_third e c d s far ne = ground arith

stays_last :
    (e c d : ℕ)
    → e / 67108864 ≢ c / 67108864
    → 448 + d / 67108864 % 64 ≢ slot e c
    → e < 2 ^ 32
    → d < 2 ^ 32
    → slot e d ≡ slot e c
stays_last e c d far ne w u = ground arith

-- Just behind a whole block, nothing ahead is in the block that ends.
leaves_block :
    (e c : ℕ)
    → c < 2 ^ 32
    → IsAhead ((c + 1) % 2 ^ 32) e
    → ((c + 1) % 256 ≡ 0 → e / 256 ≢ c / 256)
      × ((c + 1) % 16384 ≡ 0 → e / 16384 ≢ c / 16384)
      × ((c + 1) % 1048576 ≡ 0 → e / 1048576 ≢ c / 1048576)
      × ((c + 1) % 67108864 ≡ 0 → e / 67108864 ≢ c / 67108864)
leaves_block e c w h =
    (λ p q. omega arith, λ p q. omega arith, λ p q. omega arith, λ p q. omega arith)

-- The same without the wrap at 2 ^ 32.
stays_next :
    (e c : ℕ)
    → c + 1 < 2 ^ 32
    → IsAhead ((c + 1) % 2 ^ 32) e
    → shifted (c + 1) ≢ some (slot e c)
    → slot e (c + 1) ≡ slot e c
stays_next e c w h ne =
    let b = leaves_block e c (omega arith) h in
    let z : (c + 1 == 0) ≡ false = ground arith in
    elim (Bool-cases ((c + 1) % 256 == 0)) [
      | inr n ↦
          let k : (c + 1) % 256 ≢ 0 = ground arith in
          stays_near e c (c + 1) (omega arith) (omega arith) (omega arith) (omega arith)
      | inl y₀ ↦
          let k₀ : (c + 1) % 256 ≡ 0 = ground arith in
          elim (Bool-cases ((c + 1) / 256 % 64 == 0)) [
            | inr n ↦
                let k : (c + 1) / 256 % 64 ≢ 0 = ground arith in
                stays_first e c (c + 1) (omega arith) (omega arith) (omega arith) (b.0 k₀)
                  (λ q. ne (rw (z, y₀, n, q)))
            | inl y₁ ↦
                let k₁ : (c + 1) / 256 % 64 ≡ 0 = ground arith in
                elim (Bool-cases ((c + 1) / 16384 % 64 == 0)) [
                  | inr n ↦
                      let k : (c + 1) / 16384 % 64 ≢ 0 = ground arith in
                      stays_second e c (c + 1) (omega arith) (omega arith) (b.1 (omega arith))
                        (λ q. ne (rw (z, y₀, y₁, n, q)))
                  | inl y₂ ↦
                      let k₂ : (c + 1) / 16384 % 64 ≡ 0 = ground arith in
                      elim (Bool-cases ((c + 1) / 1048576 % 64 == 0)) [
                        | inr n ↦
                            let k : (c + 1) / 1048576 % 64 ≢ 0 = ground arith in
                            stays_third e c (c + 1) (omega arith) (b.2 (omega arith))
                              (λ q. ne (rw (z, y₀, y₁, y₂, n, q)))
                        | inl y₃ ↦
                            let k₃ : (c + 1) / 1048576 % 64 ≡ 0 = ground arith in
                            stays_last e c (c + 1) (b.3 (omega arith))
                              (λ q. ne (rw (z, y₀, y₁, y₂, y₃, q))) h.word w
                      ]
                ]
          ]
    ]

-- A node that is not in the list being moved is already where it belongs at the next time.
pub slot-stays :
    (e c : ℕ)
    → c < 2 ^ 32
    → IsAhead ((c + 1) % 2 ^ 32) e
    → shifted ((c + 1) % 2 ^ 32) ≢ some (slot e c)
    → slot e ((c + 1) % 2 ^ 32) ≡ slot e c
slot-stays e c w h ne = elim (Bool-cases (ltb (c + 1) (2 ^ 32))) [
  | inl y ↦
      let d : (c + 1) % 2 ^ 32 ≡ c + 1 = ground arith in
      rw d (stays_next e c (ltb→lt _ _ y) h (rw d at ne))
  | inr n ↦
      let d : (c + 1) % 2 ^ 32 ≡ 0 = ground arith in
      let b = leaves_block e c w h in
      rw d (stays_last e c 0 (b.3 (omega arith)) (λ q. ne (rw (d, ← q))) h.word (omega arith))
]
