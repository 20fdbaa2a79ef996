-- ===== src/Mq.antt =====
-- skynet-src/skynet_mq.c: the message queue of one service.
pub mod Ring
pub mod Pop
pub mod Fifo
pub mod Global
pub mod Schedule
pub mod Dispatch
use ue4_background.Prelude.{
  ℕ, zero, suc, ◌+◌, ◌-◌, ◌*◌, ◌%◌, ◌^◌, ◌≡◌, refl, Bool, true, false, Option, none, some, List, [],
  ◌∷◌, ◌++◌, ltb, leb, ◌==◌, if◌then◌else◌, get_or, set, replicate,
}

-- `struct skynet_message`; a pointer is an address, and `msg_data` is the field `data`.
pub record Message : Type 0 where
  pub source : ℕ
  pub session : ℕ
  pub msg_data : ℕ
  pub sz : ℕ

-- A cell of the array is `none` until it is first written.
abbrev pub Cells : Type 0
Cells = List (Option Message)

-- `struct message_queue` without its lock and its `next`, which belongs to the global queue.
-- `cap` is an int of the source: it is taken to stay one, as it does below 2 ^ 30 messages.
pub record MessageQueue : Type 0 where
  pub handle : ℕ
  pub cap : ℕ
  pub head : ℕ
  pub tail : ℕ
  pub release : ℕ
  pub in_global : ℕ
  pub overload : ℕ
  pub overload_threshold : ℕ
  pub queue : Cells

abbrev pub default_queue_size : ℕ
default_queue_size = 64

abbrev pub mq_in_global : ℕ
mq_in_global = 1

abbrev pub mq_overload : ℕ
mq_overload = 1024

unfoldable pub create : ℕ → MessageQueue
create handle = record {
  handle = handle;
  cap = default_queue_size;
  head = 0;
  tail = 0;
  release = 0;
  in_global = mq_in_global;
  overload = 0;
  overload_threshold = mq_overload;
  queue = replicate default_queue_size none;
}

unfoldable pub mq_length : MessageQueue → ℕ
mq_length q = if leb q.head q.tail then q.tail - q.head else q.tail + q.cap - q.head

-- What `skynet_mq_overload` returns, and the queue with the mark cleared.
unfoldable pub take_overload : MessageQueue → ℕ × MessageQueue
take_overload q = if q.overload == 0 then (0, q) else (q.overload, record q { overload = 0 })

-- `while (length > q->overload_threshold)`: the new `overload` and `overload_threshold`.
unfoldable pub raise_threshold : ℕ → ℕ → ℕ → ℕ → ℕ × ℕ
raise_threshold zero len overload threshold = (overload, threshold)
raise_threshold (suc fuel) len overload threshold =
    let rest = raise_threshold fuel len len (threshold * 2) in
    if ltb threshold len then rest else (overload, threshold)

-- The branch of `skynet_mq_pop` for a queue that is not empty. `length` rounds are enough for the
-- loop, since the threshold is positive and doubles.
unfoldable pub pop_message : MessageQueue → MessageQueue
pop_message q =
    let h = q.head + 1 in
    let head' = if leb q.cap h then 0 else h in
    let len = if ltb q.tail head' then q.tail + q.cap - head' else q.tail - head' in
    let marks = raise_threshold len len q.overload q.overload_threshold in
    record q { head = head'; overload = marks.0; overload_threshold = marks.1 }

-- The status, what is written through `message`, and the queue.
unfoldable pub mq_pop : MessageQueue → ℕ × Option Message × MessageQueue
mq_pop q =
    if q.head == q.tail
    then (1, none, record q { overload_threshold = mq_overload; in_global = 0 })
    else (0, get_or q.queue q.head none, pop_message q)

-- `n` cells of the ring from offset `i` behind `head` on.
unfoldable pub copy_cells : Cells → ℕ → ℕ → ℕ → ℕ → Cells
copy_cells queue cap head i zero = []
copy_cells queue cap head i (suc n) =
    get_or queue ((head + i) % cap) none ∷ copy_cells queue cap head (i + 1) n

unfoldable pub expand_queue : MessageQueue → MessageQueue
expand_queue q = record q {
  head = 0;
  tail = q.cap;
  cap = q.cap * 2;
  queue = copy_cells q.queue q.cap q.head 0 q.cap ++ replicate q.cap none;
}

-- `skynet_mq_push` as far as the ring goes.
unfoldable pub push_message : MessageQueue → Message → MessageQueue
unfolding expand_queue
push_message q message =
    let t = q.tail + 1 in
    let tail' = if leb q.cap t then 0 else t in
    let stored = record q { queue = set q.queue q.tail (some message); tail = tail' } in
    if q.head == tail' then expand_queue stored else stored
