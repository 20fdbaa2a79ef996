-- ===== src/Mq/Dispatch/Hands.antt =====
-- A queue that is created, published or taken by a worker keeps the scheduling invariant.
use ue4_background.Mq.Dispatch.Invariant.{update-IsWaiting, IsWaiting, IsScheduled}
use ue4_background.Mq.{create}
use ue4_background.Mq.Global.Linked.{
  globalmq_pop-IsQueued, globalmq_pop_empty, clear-IsQueued, globalmq_push-IsQueued,
}
use ue4_background.Mq.Global.{globalmq_pop}
use ue4_background.Mq.Schedule.{mq_create}
use ue4_background.Mq.Dispatch.{took, take_next, new, publish, Allowed, step, System}
use ue4_background.Prelude.{
  ℕ, ◌<◌, ◌≡◌, refl, inl, inr, true, false, Option, some, List, [], ◌∷◌, ◌++◌, arith, ◌==◌,
  Bool-cases, count, remove, count-remove, count-snoc,
}

-- Each call succeeds and keeps the invariant, for some new global queue.
abbrev pub Keeps : Option System → Type 0
Keeps r = (t : System) × (ys : List ℕ) × (r ≡ some t) × IsScheduled t ys

module _ {s : System} (xs : List ℕ) (v : IsScheduled s xs) where
  pub held-live :
      (a : ℕ) → 0 < count a s.held → (s.world.live a ≡ true) × (0 < a) × (count a xs ≡ 0)
  held-live a h = elim (Bool-cases (s.world.live a)) [
    | inl e ↦ (e, ground (arith, v.null), ground (arith, v.once a))
    | inr e ↦ absurd (ground (arith, v.once a))
  ]

  pub new-Keeps : (a handle : ℕ) → Allowed s (new a handle) → Keeps (step s (new a handle))
  unfolding step mq_create create
  new-Keeps a handle ok = (
    _,
    xs,
    refl,
    record {
      queued = clear-IsQueued s.world.global xs a v.queued (ground (arith, v.once a));
      once = λ b. ground (arith, v.once b);
      waiting = λ b l.
          update-IsWaiting s.world.mqs a (create handle) (unfold create in fresh) b
            (λ ne. v.waiting b (ground arith));
      null = ground (arith, v.null);
    },
  )
    where
      fresh : IsWaiting (create handle)
      fresh = record { ring = omega arith; flag = omega arith; busy = λ _. refl }

  pub publish-Keeps : (a : ℕ) → Allowed s (publish a) → Keeps (step s (publish a))
  unfolding step
  publish-Keeps a ok =
      let l = held-live a ok in
      let (g, e, q) = globalmq_push-IsQueued s.world.global xs a v.queued l.1 l.2 in
      (
        record { world = record (s.world) { global = g }; held = remove a s.held },
        xs ++ a ∷ [],
        rw e,
        record {
          queued = q;
          once = λ b. omega (arith, v.once b, count-remove a b s.held ok, count-snoc a b xs);
          waiting = v.waiting;
          null = v.null;
        },
      )

  pub take_next-Keeps : Keeps (step s take_next)
  unfolding step
  take_next-Keeps = go xs v
    where
      go :
          (zs : List ℕ)
          → IsScheduled s zs
          → Keeps (took s.world s.held (globalmq_pop s.world.global))
      go [] u = (s, [], rw (globalmq_pop_empty s.world.global u.queued), u)
      go (a ∷ zs) u =
          let (g, e, q) = globalmq_pop-IsQueued s.world.global a zs u.queued in
          let z : (a == 0) ≡ false = ground (arith, u.once a, u.null) in
          (
            record { world = record (s.world) { global = g }; held = a ∷ s.held },
            zs,
            rw (e, z),
            record {
              queued = q;
              once = λ b. ground (arith, u.once b);
              waiting = u.waiting;
              null = u.null;
            },
          )
