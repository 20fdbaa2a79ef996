-- ===== src/Mq/Fifo.antt =====
-- A message queue under any sequence of calls, against a plain first-in, first-out queue.
use ue4_background.Mq.{
  raise_threshold, Message, MessageQueue, mq_length, mq_pop, mq_overload, push_message,
  expand_queue, take_overload,
}
use ue4_background.Prelude.{
  ℕ, ◌+◌, ◌*◌, ◌≤◌, ◌<◌, ◌≡◌, ap, ◌∙◌, ◌⊎◌, inl, inr, Option, none, some, List, [], ◌∷◌, ◌++◌,
  arith, ◌==◌, Bool-cases, length,
}
use ue4_background.Mq.Ring.{Holds, mq_length-Holds, push_message-Holds}
use ue4_background.Mq.Pop.{mq_pop-Holds_cons, raise_threshold_lem, pop_message_marks}

-- The calls of a client of one queue, and what each returns.
pub data Op : Type 0 where
  push : Message → Op
  pop : Op
  overload : Op

-- A popped message with the status, or what `skynet_mq_overload` returns.
pub data Answer : Type 0 where
  popped : ℕ → Option Message → Answer
  noted : ℕ → Answer

-- What the calls return, and the queue that they leave.
unfoldable pub run : MessageQueue → List Op → List Answer × MessageQueue
run q [] = ([], q)
run q (push m ∷ ops) = run (push_message q m) ops
run q (pop ∷ ops) =
    let (ret, m, q') = mq_pop q in
    let (answers, last) = run q' ops in (popped ret m ∷ answers, last)
run q (overload ∷ ops) =
    let (mark, q') = take_overload q in
    let (answers, last) = run q' ops in (noted mark ∷ answers, last)

-- The answers of a plain queue of messages with an overload mark and its threshold: a pop that leaves
-- more messages than the threshold notes their number.
unfoldable pub fifo : List Message → (mark threshold : ℕ) → List Op → List Answer
fifo ms mark threshold [] = []
fifo ms mark threshold (push m ∷ ops) = fifo (ms ++ m ∷ []) mark threshold ops
fifo [] mark threshold (pop ∷ ops) = popped 1 none ∷ fifo [] mark mq_overload ops
fifo (m ∷ ms) mark threshold (pop ∷ ops) =
    let n = length ms in
    let (mark', threshold') = raise_threshold n n mark threshold in
    popped 0 (some m) ∷ fifo ms mark' threshold' ops
fifo ms mark threshold (overload ∷ ops) = noted mark ∷ fifo ms 0 threshold ops

pub take_overload-Holds :
    {q : MessageQueue} (ms : List Message) → Holds q ms → Holds (take_overload q).1 ms
unfolding take_overload mq_length
take_overload-Holds {q} ms h = elim (Bool-cases (q.overload == 0)) [
  | inl e ↦ rw e h
  | inr e ↦ rw e (record { ring = ground (arith, h.ring); items = h.items })
]

pub emptied-Holds :
    {q : MessageQueue}
    → Holds q []
    → Holds (record q { overload_threshold = mq_overload; in_global = 0 }) []
unfolding mq_length
emptied-Holds h = record { ring = ground (arith, h.ring); items = h.items }

-- A push leaves the array as it is or makes it exactly twice as long as the messages then held, and
-- it grows only when the ring is full: so below 2 ^ 30 messages `cap` stays an `int`.
pub cap-push_message :
    (ms : List Message) (m : Message) (q : MessageQueue)
    → Holds q ms
    → ((push_message q m).cap ≡ q.cap) × (length ms + 1 < q.cap)
      ⊎ ((push_message q m).cap ≡ 2 * length (ms ++ m ∷ [])) × (length ms + 1 ≡ q.cap)
unfolding push_message expand_queue mq_length
cap-push_message ms m q h = ground (
  arith,
  h.ring,
  mq_length-Holds ms h,
  mq_length-Holds (ms ++ m ∷ []) (push_message-Holds ms m h),
)

-- After a pop that finds a message, the mark and the threshold fit the messages that are left: the
-- threshold is at least their number, and a number above the old threshold is noted.
pub mq_pop_overload :
    (ms : List Message) (m : Message) (q : MessageQueue)
    → Holds q (m ∷ ms)
    → 0 < q.overload_threshold
    → let q' = (mq_pop q).2 in
      (length ms ≤ q'.overload_threshold)
      × (length ms ≤ q.overload_threshold
          → (q'.overload ≡ q.overload) × (q'.overload_threshold ≡ q.overload_threshold))
      × (q.overload_threshold < length ms
          → (q'.overload ≡ length ms) × (q'.overload_threshold < 2 * length ms))
mq_pop_overload ms m q h p =
    let r = mq_pop-Holds_cons m ms h in
    let n = length ms in
    let e = pop_message_marks q n (mq_length-Holds ms r.1) in
    let l = raise_threshold_lem n n q.overload q.overload_threshold p (omega arith) in
    rw r.0 (
      rw e.1 l.0,
      λ le. (e.0 ∙ ap (λ (s : ℕ × ℕ). s.0) (l.1 le), e.1 ∙ ap (λ (s : ℕ × ℕ). s.1) (l.1 le)),
      λ lt. (e.0 ∙ (l.2 lt).0, rw e.1 (l.2 lt).1),
    )
