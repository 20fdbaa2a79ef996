-- ===== src/Mq/Dispatch/Invariant.antt =====
-- The scheduling invariant of the message queues.
use ue4_background.Mq.{
  copy_cells, mq_length, Message, expand_queue, pop_message, push_message, MessageQueue,
}
use ue4_background.Mq.Global.Linked.{IsQueued}
use ue4_background.Mq.Ring.Copy.{length-copy_cells}
use ue4_background.Mq.Dispatch.{System}
use ue4_background.Mq.Ring.{IsRing}
use ue4_background.Prelude.{
  ℕ, ◌+◌, ◌≤◌, ◌≡◌, ◌≢◌, inl, inr, Bool, true, false, not, ◌||◌, Option, none, some, List, arith,
  ◌==◌, if◌then◌else◌, Bool-cases, set, replicate, length-append, length-set, length-replicate,
  update, count,
}

abbrev pub is_scheduled : MessageQueue → Bool
is_scheduled q = not (q.in_global == 0) || not (q.release == 0)

abbrev pub places : Bool → MessageQueue → ℕ
places false q = 0
places true q = if is_scheduled q then 1 else 0

-- What holds of one queue: its indices are in range, its flag is 0 or 1, and with messages in it the
-- flag is 1.
pub record IsWaiting (q : MessageQueue) : Type 0 where
  pub ring : IsRing q
  pub flag : q.in_global ≤ 1
  pub busy : q.in_global ≡ 0 → q.head ≡ q.tail

-- `xs` is the global queue. An allocated queue whose flag is set, or that is marked for release, has
-- exactly one place, in the global queue or in somebody's hands; any other has none.
pub record IsScheduled (s : System) (xs : List ℕ) : Type 0 where
  pub queued : IsQueued s.world.global xs
  pub once : (a : ℕ) → count a xs + count a s.held ≡ places (s.world.live a) (s.world.mqs a)
  pub waiting : (a : ℕ) → s.world.live a ≡ true → IsWaiting (s.world.mqs a)
  pub null : s.world.live 0 ≡ false

pub push_message_fields :
    (q : MessageQueue) (m : Message)
    → IsRing q
    → IsRing (push_message q m)
      × ((push_message q m).in_global ≡ q.in_global)
      × ((push_message q m).release ≡ q.release)
unfolding push_message expand_queue mq_length
push_message_fields q m v = ground (
  arith,
  v,
  length-set q.queue q.tail (some m),
  length-append (copy_cells (set q.queue q.tail (some m)) q.cap q.head 0 q.cap)
      (replicate q.cap none),
  length-copy_cells (set q.queue q.tail (some m)) q.cap q.head 0 q.cap,
  length-replicate {A = Option Message} q.cap none,
)

pub pop_message_fields :
    (q : MessageQueue)
    → IsRing q
    → IsRing (pop_message q)
      × ((pop_message q).in_global ≡ q.in_global)
      × ((pop_message q).release ≡ q.release)
unfolding pop_message
pop_message_fields q v = ground (arith, v)

pub update-IsWaiting :
    (mqs : ℕ → MessageQueue) (a : ℕ) (q : MessageQueue)
    → IsWaiting q
    → (b : ℕ) → ((b ≢ a) → IsWaiting (mqs b))
    → IsWaiting (update mqs a q b)
update-IsWaiting mqs a q v b h = elim (Bool-cases (b == a)) [
  | inl e ↦ rw e v
  | inr e ↦ rw e (h (λ s. ground arith))
]
