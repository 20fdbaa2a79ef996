-- ===== src/Mq/Dispatch/Safety.antt =====
-- What holds of the message queues in every execution.
use ue4_background.Mq.Dispatch.{
  take_next, begin, discard, mark, fetch, send, publish, after, new, step, Allowed, start, Action,
  Reach, System,
}
use ue4_background.Mq.Dispatch.Hands.{take_next-Keeps, publish-Keeps, new-Keeps, Keeps}
use ue4_background.Mq.Dispatch.Keeps.{discard-Keeps, mark-Keeps, fetch-Keeps, send-Keeps}
use ue4_background.Mq.Dispatch.Invariant.{IsScheduled}
use ue4_background.Mq.Global.Linked.{mq_init-IsQueued, IsQueued}
use ue4_background.Mq.{MessageQueue, mq_length}
use ue4_background.Prelude.{
  ℕ, ◌+◌, ◌≤◌, ◌<◌, ◌≡◌, refl, subst, inl, inr, true, some, List, [], arith, Bool-cases, count,
}

start-IsScheduled : (memory : ℕ → MessageQueue) → IsScheduled (start memory) []
start-IsScheduled memory = record {
  queued = mq_init-IsQueued;
  once = λ a. refl;
  waiting = λ a h. absurd (cc);
  null = refl;
}

step-Keeps :
    {s : System} (xs : List ℕ) (v : IsScheduled s xs) (c : Action) → Allowed s c → Keeps (step s c)
step-Keeps xs v (new a handle) ok = new-Keeps xs v a handle ok
step-Keeps xs v (publish a) ok = publish-Keeps xs v a ok
step-Keeps xs v (send a m) ok = send-Keeps xs v a m ok
step-Keeps xs v take_next ok = take_next-Keeps xs v
step-Keeps xs v (fetch a) ok = fetch-Keeps xs v a ok
step-Keeps xs v (mark a) ok = mark-Keeps xs v a ok
step-Keeps xs v (discard a) ok = discard-Keeps xs v a ok

pub Reach-IsScheduled :
    {memory : ℕ → MessageQueue} {s : System} → Reach memory s → (xs : List ℕ) × IsScheduled s xs
Reach-IsScheduled {memory} begin = ([], start-IsScheduled memory)
Reach-IsScheduled (after {t = t} c r ok e) =
    let (xs, v) = Reach-IsScheduled r in
    let (u, ys, p, w) = step-Keeps xs v c ok in
    let same : u ≡ t = cc (p, e) in (ys, subst (λ z. IsScheduled z ys) same w)

-- In every state that the services and workers can reach, no call that they may make fails an
-- assertion of skynet_mq.c: `skynet_globalmq_push` never meets a queue that is linked already,
-- `skynet_globalmq_pop` never meets a broken list, and no queue is freed while it is linked.
pub Reach-step :
    {memory : ℕ → MessageQueue} {s : System} (c : Action)
    → Reach memory s
    → Allowed s c
    → (t : System) × (step s c ≡ some t)
Reach-step c r ok =
    let (xs, v) = Reach-IsScheduled r in let (u, ys, p, w) = step-Keeps xs v c ok in (u, p)

-- In every reachable state a message queue has at most one place, in the global queue or in the hands
-- of one worker or creator: so no two workers ever dispatch one service's messages at a time.
pub Reach-exclusive :
    {memory : ℕ → MessageQueue} {s : System} (a : ℕ)
    → Reach memory s
    → (xs : List ℕ) × IsQueued s.world.global xs × (count a xs + count a s.held ≤ 1)
Reach-exclusive {s} a r =
    let (xs, v) = Reach-IsScheduled r in
    (
      xs,
      v.queued,
      elim (Bool-cases (s.world.live a)) [
        | inl e ↦ ground (arith, v.once a)
        | inr e ↦ ground (arith, v.once a)
      ],
    )

-- In every reachable state a queue with messages in it is in the global queue or in somebody's hands:
-- no service with work is forgotten.
pub Reach-waiting :
    {memory : ℕ → MessageQueue} {s : System} (a : ℕ)
    → Reach memory s
    → s.world.live a ≡ true
    → 0 < mq_length (s.world.mqs a)
    → (xs : List ℕ) × IsQueued s.world.global xs × (0 < count a xs + count a s.held)
unfolding mq_length
Reach-waiting {s} a r l m =
    let (xs, v) = Reach-IsScheduled r in
    let w = v.waiting a l in (xs, v.queued, ground (arith, v.once a, w.busy, w.ring))
