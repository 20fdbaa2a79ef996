-- ===== src/Timer/Shift.antt =====
-- skynet-src/skynet_timer.c: `timer_shift` moves each node to where its time stands.
use ue4_background.Timer.Due.{
  Sits, soon, Moved, no-due, place-stays, IsLater, next_time, pending, IsWheel,
}
use ue4_background.Timer.{move_list, timer_shift, place, shift_list, Timer}
use ue4_background.Timer.Place.{
  All-placed, due-placed, All-append, All-mono, due-append, add_nodes-lists, placed, All, due,
}
use ue4_background.Prelude.{
  ℕ, ◌≡◌, ap, ◌∙◌, ◌≢◌, inl, inr, false, none, some, [], ◌++◌, append-nil, arith, ◌==◌, ==_iff,
  Bool-cases, Option-cases, update,
}

module _ (T : Timer) (v : IsWheel T) where
  pub stays-Moved :
      (k : ℕ) → shift_list (next_time T) ≢ some k → All (Moved k (next_time T)) (T.lists k)
  stays-Moved k ne =
      All-mono _ _ (T.lists k)
        (λ n s. (
          place-stays n.expire T.time v.clock s.1 (λ q. ne (q ∙ ap some s.0)) ∙ s.0,
          soon T.time n.expire v.clock s.1,
        ))
        (v.sits k)

  pub time-shift : (timer_shift T).time ≡ next_time T
  unfolding timer_shift move_list
  time-shift = elim (Option-cases (shift_list (next_time T))) [
    | inl e ↦ rw e
    | inr (m, e) ↦ rw e (add_nodes-lists _ (T.lists m) 0).1
  ]

  pub shift_idle : (k : ℕ) → shift_list (next_time T) ≡ none → (timer_shift T).lists k ≡ T.lists k
  unfolding timer_shift
  shift_idle k e = rw e

  module _ (m : ℕ) (e : shift_list (next_time T) ≡ some m) where
    shift_lists :
        (k : ℕ)
        → (timer_shift T).lists k ≡ update T.lists m [] k ++ placed k (next_time T) (T.lists m)
    unfolding timer_shift move_list
    shift_lists k = rw e (add_nodes-lists _ (T.lists m) k).0

    shift_some-Moved : (k : ℕ) → All (Moved k (next_time T)) ((timer_shift T).lists k)
    shift_some-Moved k = rw (shift_lists k) (
        All-append _ (update T.lists m [] k) _ kept (
          All-mono _ _ (placed k (next_time T) (T.lists m))
            (λ n s. (s.0, soon T.time n.expire v.clock s.1.1))
            (All-placed (Sits m T.time) k (next_time T) (T.lists m) (v.sits m))))
      where
        kept : All (Moved k (next_time T)) (update T.lists m [] k)
        kept = elim (Bool-cases (k == m)) [
          | inl y ↦ rw y tt
          | inr y ↦ rw y (stays-Moved k (λ q. ground arith))
        ]

    shift_some-due :
        (x : ℕ)
        → IsLater T.time x
        → due x ((timer_shift T).lists (place x (next_time T))) ≡ pending T x
    shift_some-due x h = rw (shift_lists s) (
        due-append x (update T.lists m [] s) (placed s (next_time T) (T.lists m))
        ∙ ap (λ l. due x (update T.lists m [] s) ++ l) (due-placed x (next_time T) (T.lists m))
        ∙ joined)
      where
        s : ℕ
        s = place x (next_time T)

        cleared : place x T.time ≡ m → due x (update T.lists m [] s) ≡ []
        cleared q = elim (Bool-cases (s == m)) [
          | inl y ↦ rw y
          | inr y ↦ rw y (no-due x s T.time (T.lists s) (λ r. ground arith) (v.sits s))
        ]

        kept : place x T.time ≢ m → due x (update T.lists m [] s) ++ due x (T.lists m) ≡ pending T x
        kept ne =
            let stay : s ≡ place x T.time = place-stays x T.time v.clock h (λ q. ne (cc (e, q))) in
            let z : (s == m) ≡ false = ground arith in
            rw (z, no-due x m T.time (T.lists m) ne (v.sits m), append-nil, stay)

        joined : due x (update T.lists m [] s) ++ due x (T.lists m) ≡ pending T x
        joined = elim (Bool-cases (place x T.time == m)) [
          | inl y ↦ rw (cleared ((==_iff _ m).0 y), (==_iff _ m).0 y)
          | inr y ↦ kept (λ q. ground arith)
        ]

  pub shift-Moved : (k : ℕ) → All (Moved k (next_time T)) ((timer_shift T).lists k)
  shift-Moved k = elim (Option-cases (shift_list (next_time T))) [
    | inl e ↦ rw (shift_idle k e) (stays-Moved k (λ q. cc (e, q)))
    | inr (m, e) ↦ shift_some-Moved m e k
  ]

  pub shift-due :
      (x : ℕ)
      → IsLater T.time x
      → due x ((timer_shift T).lists (place x (next_time T))) ≡ pending T x
  shift-due x h = elim (Option-cases (shift_list (next_time T))) [
    | inl e ↦
        rw (shift_idle (place x (next_time T)) e)
          (ap (λ k. due x (T.lists k)) (place-stays x T.time v.clock h (λ q. cc (e, q))))
    | inr (m, e) ↦ shift_some-due m e x h
  ]
