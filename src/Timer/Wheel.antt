-- ===== src/Timer/Wheel.antt =====
-- The wheel is a table from expiry times to lists of nodes: each call does what that table says.
use ue4_background.Timer.Shift.{shift-due, shift-Moved, time-shift}
use ue4_background.Timer.Due.{Moved, IsLater, next_time, now-empty, pending, IsWheel}
use ue4_background.Timer.{
  add_node, timer_add, timer_execute, timer_update, timer_shift, place, Timer, TimerNode,
}
use mathlib.Core.Path.{fun_ext}
use ue4_background.Timer.Slot.{place-slot}
use ue4_background.Timer.Place.{All-append, All-mono, due-append, All, due}
use ue4_background.Prelude.{
  ℕ, ◌+◌, ◌/◌, ◌%◌, ◌^◌, ◌<◌, ◌≡◌, refl, sym, ap, ap₂, ◌∙◌, ◌≢◌, inl, inr, false, List, [], ◌∷◌,
  ◌++◌, append-nil, arith, ◌==◌, if◌then◌else◌, ==_iff, ==_refl, Bool-cases, update,
}

-- What `timer_update` finds in the list of the new time.
module _ (T : Timer) (v : IsWheel T) where
  execute-idle : timer_execute T ≡ ([], T)
  unfolding timer_execute
  execute-idle = ap₂ (λ l f. (l, record T { lists = f })) (now-empty T v) (fun_ext same)
    where
      same : (k : ℕ) → update T.lists (T.time % 256) [] k ≡ T.lists k
      same k = elim (Bool-cases (k == T.time % 256)) [
        | inl y ↦ rw (y, (==_iff _ _).0 y) (sym (now-empty T v))
        | inr y ↦ rw y
      ]

  place_now : (c : ℕ) → place c c ≡ c % 256
  place_now c = place-slot c c ∙ rw (==_refl (c / 256))

  -- The list of the present time holds what is due at the present time, and only that.
  now-due : (c e : ℕ) → place e c ≡ c % 256 → e ≡ c
  now-due c e p = ground (arith, place-slot e c, p)

  due-eq_self : (c : ℕ) (ns : List TimerNode) → All (Moved (c % 256) c) ns → due c ns ≡ ns
  due-eq_self c [] h = refl
  due-eq_self c (n ∷ ns) h = rw (now-due c n.expire h.0.0, ==_refl c, due-eq_self c ns h.1)

  next-IsLater : IsLater T.time (next_time T)
  next-IsLater =
      (record { word = omega arith; ahead = omega (arith, v.clock) }, omega (arith, v.clock))

  update-eq-execute : timer_update T ≡ timer_execute (timer_shift T)
  unfolding timer_update
  update-eq-execute = rw execute-idle

  -- The list that is executed after the shift.
  now-lists : (timer_shift T).lists (next_time T % 256) ≡ pending T (next_time T)
  now-lists =
      let n = next_time T in
      sym (due-eq_self n ((timer_shift T).lists (n % 256)) (shift-Moved T v (n % 256)))
      ∙ ap (λ k. due n ((timer_shift T).lists k)) (sym (place_now n))
      ∙ shift-due T v n next-IsLater

  fired-eq : (timer_execute (timer_shift T)).0 ≡ pending T (next_time T)
  unfolding timer_execute
  fired-eq = rw (time-shift T v) now-lists

  executed-IsWheel : IsWheel (timer_execute (timer_shift T)).1
  unfolding timer_execute
  executed-IsWheel = rw (time-shift T v) (record {
    clock = omega arith;
    sits = λ k. elim (Bool-cases (k == next_time T % 256)) [
      | inl y ↦ rw y tt
      | inr y ↦ rw y (
          All-mono _ _ ((timer_shift T).lists k)
            (λ n s. (s.0, (s.1, λ q. not_now k n.expire y s.0 q))) (shift-Moved T v k))
    ];
  })
    where
      not_now :
          (k e : ℕ)
          → (k == next_time T % 256) ≡ false
          → place e (next_time T) ≡ k
          → e ≡ next_time T
          → ⊥
      not_now k e y s q = ground (arith, ap (λ z. place z (next_time T)) q, place_now (next_time T))

  executed-pending :
      (e : ℕ)
      → IsLater T.time e
      → e ≢ next_time T
      → pending (timer_execute (timer_shift T)).1 e ≡ pending T e
  unfolding timer_execute
  executed-pending e h ne = rw (time-shift T v) (
      let z : (place e (next_time T) == next_time T % 256) ≡ false =
        elim (Bool-cases (place e (next_time T) == next_time T % 256)) [
          | inl y ↦ absurd (ne (now-due (next_time T) e ((==_iff _ _).0 y)))
          | inr y ↦ y
        ] in
      rw z (shift-due T v e h))

-- `timer_update` moves the time on by one tick, modulo 2 ^ 32, and hands out exactly the nodes whose
-- expiry time is the new time, in the order in which they were added. The wheel stays in order, and for
-- every other time ahead it holds what it held.
pub timer_update_refines :
    (T : Timer)
    → IsWheel T
    → let (fired, T') = timer_update T in
      (fired ≡ pending T (next_time T))
      × IsWheel T'
      × (T'.time ≡ next_time T)
      × ((e : ℕ) → IsLater T.time e → e ≢ next_time T → pending T' e ≡ pending T e)
timer_update_refines T v = rw (update-eq-execute T v) (
  fired-eq T v,
  executed-IsWheel T v,
  unfold timer_execute in time-shift T v,
  executed-pending T v,
)

-- `timer_add` with a delay below half the circle of times puts the node last among those of its expiry
-- time, leaves all other times alone, and keeps the wheel in order.
pub timer_add_refines :
    (T : Timer) (handle session delay : ℕ)
    → IsWheel T
    → 0 < delay
    → delay < 2 ^ 31
    → let T' = timer_add T handle session delay in
      let expire = (delay + T.time) % 2 ^ 32 in
      IsWheel T'
      × (T'.time ≡ T.time)
      × ((e : ℕ)
          → pending T' e
            ≡ pending T e
              ++ (if expire == e
                  then record { expire = expire; handle = handle; session = session } ∷ []
                  else []))
unfolding timer_add add_node
timer_add_refines T handle session delay v p q = (
  record {
    clock = v.clock;
    sits = λ k. elim (Bool-cases (k == list)) [
      | inl y ↦ rw y (
          All-append _ (T.lists list) (node ∷ []) (rw ((==_iff k list).0 y) (v.sits list))
            (((sym ((==_iff k list).0 y), later), tt)))
      | inr y ↦ rw y (v.sits k)
    ];
  },
  refl,
  λ e. elim (Bool-cases (place e T.time == list)) [
    | inl y ↦ rw y (due-append e (T.lists list) (node ∷ []) ∙ rw ((==_iff _ list).0 y))
    | inr y ↦
        let z : (node.expire == e) ≡ false = ground (arith, ap (λ x. place x T.time), y) in
        rw (y, z) (sym (append-nil (pending T e)))
  ],
)
  where
    node : TimerNode
    node = record { expire = (delay + T.time) % 2 ^ 32; handle = handle; session = session }

    list : ℕ
    list = place node.expire T.time

    later : IsLater T.time node.expire
    later = (record { word = omega arith; ahead = omega (arith, v.clock) }, omega (arith, v.clock))
