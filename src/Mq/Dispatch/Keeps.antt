-- ===== src/Mq/Dispatch/Keeps.antt =====
-- Every call keeps the scheduling invariant of the message queues.
use ue4_background.Mq.Dispatch.Hands.{held-live, Keeps}
use ue4_background.Mq.Dispatch.Invariant.{
  pop_message_fields, push_message_fields, update-IsWaiting, is_scheduled, places, IsWaiting,
  IsScheduled,
}
use ue4_background.Mq.{
  mq_overload, mq_in_global, Message, mq_pop, pop_message, push_message, MessageQueue,
}
use ue4_background.Mq.Global.Linked.{globalmq_push-IsQueued}
use ue4_background.Mq.Global.{globalmq_push}
use ue4_background.Mq.Schedule.{with_global, mark_release, mq_push, mq_release}
use ue4_background.Mq.Dispatch.{in_world, send, discard, fetch, mark, Allowed, step, System}
use ue4_background.Prelude.{
  ℕ, ◌+◌, ◌≡◌, refl, inl, inr, true, false, List, [], ◌∷◌, ◌++◌, arith, ◌==◌, ==_iff, ==_refl,
  Bool-cases, update, count, remove, count-remove, count-snoc,
}

module _ {s : System} (xs : List ℕ) (v : IsScheduled s xs) where
  module _ (a : ℕ) (q : MessageQueue) (l : s.world.live a ≡ true) (w : IsWaiting q) where
    -- A queue that keeps its place.
    stay-IsScheduled :
        is_scheduled q ≡ is_scheduled (s.world.mqs a)
        → IsScheduled (record s { world = record (s.world) { mqs = update s.world.mqs a q } }) xs
    stay-IsScheduled e = record {
      queued = v.queued;
      once = λ b. elim (Bool-cases (b == a)) [
        | inl same ↦ rw ((==_iff b a).0 same, ==_refl a, l) (ground (arith, v.once a))
        | inr other ↦ rw other (v.once b)
      ];
      waiting = λ b h. update-IsWaiting s.world.mqs a q w b (λ ne. v.waiting b h);
      null = v.null;
    }

    -- A queue with no place is put into the global queue.
    enqueue-Keeps :
        is_scheduled (s.world.mqs a) ≡ false
        → is_scheduled q ≡ true
        → Keeps (
            in_world
              (with_global
                (record (s.world) { mqs = update s.world.mqs a q })
                (globalmq_push s.world.global a))
              s.held)
    enqueue-Keeps idle busy =
        let (g, e, u) =
          globalmq_push-IsQueued s.world.global xs a v.queued (ground (arith, v.null))
            (ground (arith, v.once a)) in
        (
          record s { world = record (s.world) { mqs = update s.world.mqs a q; global = g } },
          xs ++ a ∷ [],
          rw e,
          record {
            queued = u;
            once = λ b. elim (Bool-cases (b == a)) [
              | inl same ↦
                  rw ((==_iff b a).0 same, ==_refl a, l)
                    (ground (arith, v.once a, count-snoc a a xs))
              | inr other ↦ rw other (ground (arith, v.once b, count-snoc a b xs))
            ];
            waiting = λ b h. update-IsWaiting s.world.mqs a q w b (λ ne. v.waiting b h);
            null = v.null;
          },
        )

  pub mark-Keeps : (a : ℕ) → Allowed s (mark a) → Keeps (step s (mark a))
  unfolding step mark_release
  mark-Keeps a ok =
      let q = s.world.mqs a in
      let w = v.waiting a ok.0 in
      let marked : IsWaiting (record q { release = 1 }) = record {
        ring = ground (arith, w.ring);
        flag = w.flag;
        busy = w.busy;
      } in
      elim (Bool-cases (q.in_global == mq_in_global)) [
        | inl e ↦ (
          _,
          xs,
          rw (ok.1, e),
          stay-IsScheduled a (record q { release = 1 }) ok.0 marked (ground arith),
        )
        | inr e ↦
            rw (ok.1, e)
              (enqueue-Keeps a (record q { release = 1 }) ok.0 marked (ground (arith, w.flag))
                (ground arith))
      ]

  pub discard-Keeps : (a : ℕ) → Allowed s (discard a) → Keeps (step s (discard a))
  unfolding step mq_release
  discard-Keeps a ok =
      let l = held-live xs v a ok in
      let u : s.world.global.next a ≡ 0 = v.queued.unlinked a l.2 in
      elim (Bool-cases ((s.world.mqs a).release == 0)) [
        | inl e ↦
            let (g, p, q) = globalmq_push-IsQueued s.world.global xs a v.queued l.1 l.2 in
            (
              record { world = record (s.world) { global = g }; held = remove a s.held },
              xs ++ a ∷ [],
              rw (e, p),
              record {
                queued = q;
                once = λ b. omega (arith, v.once b, count-remove a b s.held ok, count-snoc a b xs);
                waiting = v.waiting;
                null = v.null;
              },
            )
        | inr e ↦ (
          record {
            world = record (s.world) { live = update s.world.live a false };
            held = remove a s.held;
          },
          xs,
          rw (e, u),
          record {
            queued = v.queued;
            once = λ b. discard_once b;
            waiting = λ b h. v.waiting b (ground arith);
            null = ground (arith, v.null);
          },
        )
      ]
    where
      discard_once :
          (b : ℕ)
          → count b xs + count b (remove a s.held)
            ≡ places (update s.world.live a false b) (s.world.mqs b)
      discard_once b = elim (Bool-cases (b == a)) [
        | inl same ↦
            rw ((==_iff b a).0 same, ==_refl a)
              (ground (arith, held-live xs v a ok, v.once a, count-remove a a s.held ok))
        | inr other ↦ rw other (ground (arith, v.once b, count-remove a b s.held ok))
      ]

  pub fetch-Keeps : (a : ℕ) → Allowed s (fetch a) → Keeps (step s (fetch a))
  unfolding step mq_pop
  fetch-Keeps a ok =
      let q = s.world.mqs a in
      let l = held-live xs v a ok.0 in
      let w = v.waiting a l.0 in
      elim (Bool-cases (q.head == q.tail)) [
        | inl e ↦ rw e (
          _,
          xs,
          refl,
          record {
            queued = v.queued;
            once = λ b. fetch_once b;
            waiting = λ b h.
                update-IsWaiting s.world.mqs a _
                  (record {
                    ring = ground (arith, w.ring);
                    flag = omega arith;
                    busy = λ _. ground arith;
                  })
                  b (λ ne. v.waiting b h);
            null = v.null;
          },
        )
        | inr e ↦
            let f = pop_message_fields q w.ring in
            rw e (
              _,
              xs,
              refl,
              stay-IsScheduled a (pop_message q) l.0
                  (record {
                    ring = f.0;
                    flag = omega (arith, f.1, w.flag);
                    busy = λ z. absurd (ground (arith, f, v.once a));
                  })
                  (rw (f.1, f.2)),
            )
      ]
    where
      emptied : MessageQueue
      emptied = record (s.world.mqs a) { overload_threshold = mq_overload; in_global = 0 }

      fetch_once :
          (b : ℕ)
          → count b xs + count b (remove a s.held)
            ≡ places (s.world.live b) (update s.world.mqs a emptied b)
      fetch_once b = elim (Bool-cases (b == a)) [
        | inl same ↦
            rw ((==_iff b a).0 same, ==_refl a)
              (ground (arith, held-live xs v a ok.0, ok.1, v.once a, count-remove a a s.held ok.0))
        | inr other ↦ rw other (ground (arith, v.once b, count-remove a b s.held ok.0))
      ]

  pub send-Keeps : (a : ℕ) (m : Message) → Allowed s (send a m) → Keeps (step s (send a m))
  unfolding step mq_push
  send-Keeps a m ok =
      let q = push_message (s.world.mqs a) m in
      let w = v.waiting a ok.0 in
      let f = push_message_fields (s.world.mqs a) m w.ring in
      elim (Bool-cases (q.in_global == 0)) [
        | inl e ↦ rw e (
            enqueue-Keeps a (record q { in_global = mq_in_global }) ok.0
              (record {
                ring = ground (arith, f.0);
                flag = omega arith;
                busy = λ z. absurd (omega arith);
              })
              (ground (arith, f)) (ground arith))
        | inr e ↦ rw e (
          _,
          xs,
          refl,
          stay-IsScheduled a q ok.0
              (record {
                ring = f.0;
                flag = omega (arith, f.1, w.flag);
                busy = λ z. absurd (ground arith);
              })
              (ground (arith, f)),
        )
      ]
