-- ===== src/Timer/Ticks.antt =====
-- Several ticks in a row, and `skynet_updatetime`.
use ue4_background.Timer.{
  shift_list, moved, timer_shift, add_nodes, move_list, timer_execute, timer_update, place, Timer,
  add_node, TimerNode, ticks, timer_add, timer_create_timer, updatetime,
}
use ue4_background.Timer.Wheel.{timer_update_refines}
use ue4_background.Timer.Due.{next_time, pending, IsLater, IsWheel}
use ue4_background.Timer.Slot.{place-slot}
use ue4_background.Prelude.{
  ℕ, zero, suc, ◌+◌, ◌-◌, ◌%◌, ◌^◌, ◌≤◌, ◌<◌, ◌≡◌, refl, sym, ap, ap₂, ◌∙◌, inl, inr, false, Option,
  none, some, List, [], ◌∷◌, ◌++◌, arith, ltb, ◌==◌, ==_iff, Bool-cases, update,
}

-- What a table of expiry times holds for the `n` ticks after the time `c`, tick by tick.
abbrev pub gather : ℕ → ℕ → (ℕ → List TimerNode) → List TimerNode
gather zero c f = []
gather (suc n) c f = let d = (c + 1) % 2 ^ 32 in f d ++ gather n d f

gather_ext :
    (n c : ℕ) (f g : ℕ → List TimerNode)
    → c < 2 ^ 32
    → ((j : ℕ) → 0 < j → j ≤ n → f ((c + j) % 2 ^ 32) ≡ g ((c + j) % 2 ^ 32))
    → gather n c f ≡ gather n c g
gather_ext zero c f g w h = refl
gather_ext (suc n) c f g w h = ap₂ ◌++◌ (h 1 (omega arith) (omega arith)) (
    gather_ext n ((c + 1) % 2 ^ 32) f g (omega arith) (λ j p q.
      let e : ((c + 1) % 2 ^ 32 + j) % 2 ^ 32 ≡ (c + (j + 1)) % 2 ^ 32 = omega arith in
      rw e (h (j + 1) (omega arith) (omega arith))))

-- `n` calls of `timer_update`, for less than half the circle of times, hand out what the wheel holds
-- for the next `n` ticks, tick by tick and within a tick in the order of registration; they move the
-- time by `n`, keep the wheel in order, and keep what is due later.
pub ticks_refines :
    (n : ℕ) (T : Timer)
    → IsWheel T
    → n < 2 ^ 31
    → let (fired, T') = ticks n T in
      (fired ≡ gather n T.time (pending T))
      × IsWheel T'
      × (T'.time ≡ (T.time + n) % 2 ^ 32)
      × ((e : ℕ)
          → IsLater T.time e
          → n < (e + 2 ^ 32 - T.time) % 2 ^ 32
          → pending T' e ≡ pending T e)
unfolding ticks
ticks_refines zero T v h = (refl, v, omega (arith, v.clock), λ e l q. refl)
ticks_refines (suc n) T v h =
    let u = timer_update_refines T v in
    let T' = (timer_update T).1 in
    let ih = ticks_refines n T' u.1 (omega arith) in
    (
      ap₂ ◌++◌ u.0 (
          ih.0
          ∙ ap (λ c. gather n c (pending T')) u.2
          ∙ gather_ext n (next_time T) (pending T') (pending T) (omega arith) rest),
      ih.1,
      omega (arith, ih.2, u.2, v.clock),
      λ e l q.
          ih.3 e (later e l q) (omega (arith, u.2, v.clock, l.0.word))
          ∙ u.3 e l (omega (arith, v.clock, l.0.word)),
    )
  where
    rest :
        (j : ℕ)
        → 0 < j
        → j ≤ n
        → pending (timer_update T).1 ((next_time T + j) % 2 ^ 32)
          ≡ pending T ((next_time T + j) % 2 ^ 32)
    rest j p q =
        (timer_update_refines T v).3 _
          (
            record { word = omega arith; ahead = omega (arith, v.clock, h) },
            omega (arith, v.clock, h),
          )
          (omega (arith, v.clock, h))

    later :
        (e : ℕ)
        → IsLater T.time e
        → suc n < (e + 2 ^ 32 - T.time) % 2 ^ 32
        → IsLater (timer_update T).1.time e
    later e l q =
        let s = (timer_update_refines T v).2 in
        (
          record { word = l.0.word; ahead = omega (arith, s, v.clock, l.0.word, l.0.ahead) },
          omega (arith, s, v.clock, l.0.word),
        )

-- A wheel just made is in order and holds nothing.
pub timer_create_timer-IsWheel :
    IsWheel timer_create_timer × ((e : ℕ) → pending timer_create_timer e ≡ [])
unfolding timer_create_timer
timer_create_timer-IsWheel = (record { clock = omega arith; sits = λ k. tt }, λ e. refl)

same_place : (c e : ℕ) → c % 256 ≡ place e c → e ≡ c
same_place c e p = ground (arith, place-slot e c, p)

-- While `timer_execute` has released the lock, a `timer_add` with a positive delay does not touch the
-- list that it works on.
pub timer_add_misses :
    (T : Timer) (handle session delay : ℕ)
    → T.time < 2 ^ 32
    → 0 < delay
    → delay < 2 ^ 31
    → (timer_add T handle session delay).lists (T.time % 256) ≡ T.lists (T.time % 256)
unfolding timer_add add_node
timer_add_misses T handle session delay w p q =
    let z : (T.time % 256 == place ((delay + T.time) % 2 ^ 32) T.time) ≡ false =
      let d : ℕ = (delay + T.time) % 2 ^ 32 in
      elim (Bool-cases (T.time % 256 == place d T.time)) [
        | inl y ↦ absurd (omega (arith, same_place T.time d ((==_iff _ _).0 y)))
        | inr y ↦ y
      ] in
    rw z

-- What the calls of the wheel leave of the clock.
abbrev clock_of : Timer → ℕ × ℕ
clock_of T = (T.current, T.current_point)

add_nodes-clock : (T : Timer) (ns : List TimerNode) → clock_of (add_nodes T ns) ≡ clock_of T
unfolding add_nodes add_node
add_nodes-clock T [] = refl
add_nodes-clock T (n ∷ ns) = add_nodes-clock (add_node T n) ns

moved-clock : (T : Timer) (o : Option ℕ) → clock_of (moved T o) ≡ clock_of T
unfolding move_list
moved-clock T none = refl
moved-clock T (some k) = add_nodes-clock (record T { lists = update T.lists k [] }) (T.lists k)

ticks-clock : (n : ℕ) (T : Timer) → clock_of (ticks n T).1 ≡ clock_of T
unfolding ticks timer_update timer_execute timer_shift
ticks-clock zero T = refl
ticks-clock (suc n) T =
    let T₁ = (timer_execute T).1 in
    let ct = (T₁.time + 1) % 2 ^ 32 in
    ticks-clock n (timer_update T).1 ∙ moved-clock (record T₁ { time = ct }) (shift_list ct)

-- `skynet_updatetime` on a wheel in order, at a clock less than 2 ^ 31 ticks ahead: what was registered
-- for the ticks passed is handed out (nothing if the clock has gone back), the time moves on by their
-- number and the wheel stays in order; `current_point` is the clock, and `current`, a word of 64 bits,
-- has moved on by the ticks.
pub updatetime_refines :
    (T : Timer) (cp : ℕ)
    → IsWheel T
    → T.current < 2 ^ 64
    → cp < T.current_point + 2 ^ 31
    → ((updatetime T cp).0 ≡ gather (cp - T.current_point) T.time (pending T))
      × IsWheel (updatetime T cp).1
      × ((updatetime T cp).1.time ≡ (T.time + (cp - T.current_point)) % 2 ^ 32)
      × ((updatetime T cp).1.current_point ≡ cp)
      × ((updatetime T cp).1.current ≡ (T.current + (cp - T.current_point)) % 2 ^ 64)
unfolding updatetime
updatetime_refines T cp v c h = elim (Bool-cases (ltb cp T.current_point)) [
  | inl y ↦
      let d : cp - T.current_point ≡ 0 = ground arith in
      rw (y, d)
        (refl, record { clock = v.clock; sits = v.sits }, omega (arith, v.clock), refl, omega arith)
  | inr y ↦ elim (Bool-cases (cp == T.current_point)) [
    | inl z ↦
        let d : cp - T.current_point ≡ 0 = ground arith in
        rw (y, z, d) (refl, v, omega (arith, v.clock), sym ((==_iff _ _).0 z), omega arith)
    | inr z ↦
        let d : (cp - T.current_point) % 2 ^ 32 ≡ cp - T.current_point = ground arith in
        let set : Timer = record T {
          current_point = cp;
          current = (T.current + (cp - T.current_point)) % 2 ^ 64;
        } in
        let r =
          ticks_refines (cp - T.current_point) set (record { clock = v.clock; sits = v.sits })
            (ground arith) in
        let k = ticks-clock (cp - T.current_point) set in
        rw (y, z, d) (r.0, r.1, r.2, ap (λ (u : ℕ × ℕ). u.1) k, ap (λ (u : ℕ × ℕ). u.0) k)
  ]
]
