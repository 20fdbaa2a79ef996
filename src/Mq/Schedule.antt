-- ===== src/Mq/Schedule.antt =====
-- skynet-src/skynet_mq.c: the message queues of all services together with the global queue, as the
-- worker threads and the services use them. Each call runs under the locks of what it touches, so an
-- execution is a sequence of calls; `held` names the queues taken from the global queue by a worker,
-- or not yet put there by `skynet_context_new`.
use ue4_background.Mq.{mq_length, mq_pop, push_message, Message, MessageQueue, create, mq_in_global}
use ue4_background.Mq.Global.{globalmq_push, GlobalQueue}
use ue4_background.Prelude.{
  ℕ, zero, suc, ◌+◌, Bool, true, false, Option, none, some, List, [], ◌∷◌, ◌==◌, if◌then◌else◌,
  update,
}
use mathlib.Core.Option

-- `struct message_queue` at each address, whether it is allocated, and `Q`.
pub record World : Type 0 where
  pub mqs : ℕ → MessageQueue
  pub live : ℕ → Bool
  pub global : GlobalQueue

abbrev pub with_global : World → Option GlobalQueue → Option World
with_global w none = none
with_global w (some g) = some (record w { global = g })

-- `skynet_mq_create`: `a` is the address that the allocator returns.
unfoldable pub mq_create : World → ℕ → ℕ → World
mq_create w a handle = record {
  mqs = update w.mqs a (create handle);
  live = update w.live a true;
  global = record { head = w.global.head; tail = w.global.tail; next = update w.global.next a 0 };
}

-- `skynet_mq_push`
unfoldable pub mq_push : World → ℕ → Message → Option World
mq_push w a message =
    let q = push_message (w.mqs a) message in
    let scheduled = record w { mqs = update w.mqs a (record q { in_global = mq_in_global }) } in
    if q.in_global == 0
    then with_global scheduled (globalmq_push w.global a)
    else some (record w { mqs = update w.mqs a q })

-- `skynet_mq_mark_release`
unfoldable pub mark_release : World → ℕ → Option World
mark_release w a =
    let q = w.mqs a in
    let marked = record w { mqs = update w.mqs a (record q { release = 1 }) } in
    if q.release == 0
    then (if q.in_global == mq_in_global
        then some marked
        else with_global marked (globalmq_push w.global a))
    else none

-- The loop of `_drop_queue`: the messages handed to `drop_func`, in order.
unfoldable pub drop_messages : ℕ → MessageQueue → List (Option Message)
drop_messages zero q = []
drop_messages (suc fuel) q =
    let r = mq_pop q in let rest = drop_messages fuel r.2 in if r.0 == 0 then r.1 ∷ rest else []

-- `skynet_mq_release`: the messages dropped, and the world with the queue freed or put back.
unfoldable pub mq_release : World → ℕ → Option (List (Option Message) × World)
mq_release w a =
    let q = w.mqs a in
    let freed = record w { live = update w.live a false } in
    if q.release == 0
    then Option.map (λ v. ([], v)) (with_global w (globalmq_push w.global a))
    else (if w.global.next a == 0 then some (drop_messages (mq_length q + 1) q, freed) else none)
