-- ===== src/Timer/Due.antt =====
-- What the wheel holds for each expiry time, and what is due at the present one.
use ue4_background.Timer.{place, shift_list, Timer, TimerNode}
use ue4_background.Timer.Slot.{shift_list-shifted, slot-stays, place-slot, IsAhead}
use ue4_background.Timer.Place.{All-mono, due-eq-nil, All, due}
use ue4_background.Prelude.{
  ℕ, ◌+◌, ◌%◌, ◌^◌, ◌<◌, ◌≡◌, refl, sym, ap, ◌∙◌, ◌≢◌, some, List, [], ◌∷◌, arith,
}

-- Ahead of the time, and not yet due.
abbrev pub IsLater : ℕ → ℕ → Type 0
IsLater c e = IsAhead c e × (e ≢ c)

abbrev pub Sits : ℕ → ℕ → TimerNode → Type 0
Sits k c n = (place n.expire c ≡ k) × IsLater c n.expire

-- Every node is in the list where `add_node` would put it now, and is due later.
pub record IsWheel (T : Timer) : Type 0 where
  pub clock : T.time < 2 ^ 32
  pub sits : (k : ℕ) → All (Sits k T.time) (T.lists k)

-- What the wheel holds for the expiry time `e`, in order.
abbrev pub pending : Timer → ℕ → List TimerNode
pending T e = due e (T.lists (place e T.time))

abbrev pub next_time : Timer → ℕ
next_time T = (T.time + 1) % 2 ^ 32

pub soon : (c e : ℕ) → c < 2 ^ 32 → IsLater c e → IsAhead ((c + 1) % 2 ^ 32) e
soon c e w h = record { word = h.0.word; ahead = ground (arith, h.0, h.1) }

-- The list of the present time is empty: nothing in the wheel is due now.
pub now-empty : (T : Timer) → IsWheel T → T.lists (T.time % 256) ≡ []
now-empty T v = go (T.lists (T.time % 256)) (v.sits (T.time % 256))
  where
    go : (ns : List TimerNode) → All (Sits (T.time % 256) T.time) ns → ns ≡ []
    go [] h = refl
    go (n ∷ ns) h = absurd (h.0.1.1 (ground (arith, place-slot n.expire T.time, h.0.0)))

-- A node that is not in the list being moved stays where it belongs.
pub place-stays :
    (e c : ℕ)
    → c < 2 ^ 32
    → IsLater c e
    → shift_list ((c + 1) % 2 ^ 32) ≢ some (place e c)
    → place e ((c + 1) % 2 ^ 32) ≡ place e c
place-stays e c w h ne =
    place-slot e ((c + 1) % 2 ^ 32)
    ∙ slot-stays e c w (soon c e w h) (λ q.
      ne (shift_list-shifted ((c + 1) % 2 ^ 32) (omega arith) ∙ q ∙ ap some (sym (place-slot e c))))
    ∙ sym (place-slot e c)

-- A list with no node for `e`.
pub no-due : (e k c : ℕ) (ns : List TimerNode) → place e c ≢ k → All (Sits k c) ns → due e ns ≡ []
no-due e k c ns ne h =
    due-eq-nil e ns (All-mono _ _ ns (λ n s q. ne (ap (λ z. place z c) (sym q) ∙ s.0)) h)

-- Where nodes stand just after `timer_shift`: in place, and due now or later.
abbrev pub Moved : ℕ → ℕ → TimerNode → Type 0
Moved k d n = (place n.expire d ≡ k) × IsAhead d n.expire
