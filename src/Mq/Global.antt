-- ===== src/Mq/Global.antt =====
-- skynet-src/skynet_mq.c: the global queue of the message queues that have work. The list is linked
-- through the field `next` of `struct message_queue`, so `next` is here a store over their addresses.
pub mod Linked
use ue4_background.Prelude.{ℕ, Option, none, some, ◌==◌, if◌then◌else◌, update}

-- `struct global_queue` without its lock, and every `next`; the address 0 is NULL.
pub record GlobalQueue : Type 0 where
  pub head : ℕ
  pub tail : ℕ
  pub next : ℕ → ℕ

-- `skynet_mq_init`
unfoldable pub mq_init : GlobalQueue
mq_init = record { head = 0; tail = 0; next = λ _. 0 }

-- `none` is the failure of the assertion.
unfoldable pub globalmq_push : GlobalQueue → ℕ → Option GlobalQueue
globalmq_push q queue =
    if q.next queue == 0
    then some (
        if q.tail == 0
        then record q { head = queue; tail = queue }
        else record q { next = update q.next q.tail queue; tail = queue })
    else none

-- The queue taken, 0 if there is none.
unfoldable pub globalmq_pop : GlobalQueue → Option (ℕ × GlobalQueue)
globalmq_pop q =
    let mq = q.head in
    let rest = q.next mq in
    let cleared = update q.next mq 0 in
    if mq == 0
    then some (0, q)
    else if rest == 0
    then (if mq == q.tail then some (mq, record { head = 0; tail = 0; next = cleared }) else none)
    else some (mq, record q { head = rest; next = cleared })
