-- ===== src/Server/Dispatch.antt =====
-- skynet-src/skynet_server.c: a worker takes messages out of a queue and hands them to the service. The
-- callback of a service is `cb`: it may change the node, by sending, and says whether it keeps the data.
-- `malloc` gives the address for a remote message. The profile, the monitor and the log files of services are
-- left out.
pub mod Turn
pub mod Turns
pub mod Calls
pub mod Drop
use ue4_background.Server.{skynet_error, context_release, handle_grab, set_context, Node}
use ue4_background.Mq.Schedule.{mq_release}
use ue4_background.Mq.{MessageQueue, mq_length, mq_pop, take_overload, Message}
use ue4_background.Server.Send.{send}
use ue4_background.Mq.Global.{globalmq_pop, globalmq_push}
use ue4_background.Prelude.{
  ℕ, zero, suc, ◌+◌, ◌-◌, ◌/◌, ◌%◌, ◌^◌, ap, Bool, true, false, not, ◌&&◌, Option, none, some, List,
  [], ◌∷◌, ◌++◌, ◌==◌, if◌then◌else◌, length, set, take, drop, update, count, ◌>>=◌,
}

-- What the callback is called with, beside the service.
pub record Call : Type 0 where
  pub type : ℕ
  pub session : ℕ
  pub source : ℕ
  pub msg : ℕ
  pub sz : ℕ

abbrev pub Callback : Type 0
Callback = Node → ℕ → Call → Option (Bool × Node)

abbrev pub ptype_error : ℕ
ptype_error = 7

abbrev pub call_of : Message → Call
call_of m = record {
  type = m.sz / 2 ^ 56;
  session = m.session;
  source = m.source;
  msg = m.msg_data;
  sz = m.sz % 2 ^ 56;
}

abbrev pub count_call : Node → ℕ → Node
count_call n ctx =
    set_context n ctx
      (record (n.contexts ctx) { message_count = (n.contexts ctx).message_count + 1 })

-- `dispatch_message`: what is freed, and the node. `none` is the failed assertion, or a
-- call of NULL.
unfoldable pub dispatch_message : Callback → Node → ℕ → Message → Option (List ℕ × Node)
dispatch_message cb n ctx m =
    if (n.contexts ctx).is_init && (n.contexts ctx).has_cb
    then (cb (count_call n ctx) ctx (call_of m) >>= λ r.
        some (if r.0 then [] else m.msg_data ∷ [], r.1))
    else none

-- A call of `skynet_mq_pop` or `skynet_mq_overload` on a queue of the node.
abbrev pub with_mq : Node → ℕ → MessageQueue → Node
with_mq n q mq = record n { world = record (n.world) { mqs = update n.world.mqs q mq } }

-- One message popped, in the loop of `skynet_context_message_dispatch`; `none` also for a cell that was
-- never written.
unfoldable pub handle_message :
    Callback → Node → (ctx q : ℕ) → Option Message → Option (List ℕ × Node)
handle_message cb n ctx q none = none
handle_message cb n ctx q (some m) =
    let (mark, mq) = take_overload (n.world.mqs q) in
    let n' = with_mq n q mq in
    (if mark == 0 then some n' else skynet_error n' ctx) >>= λ n''.
    if (n''.contexts ctx).has_cb then dispatch_message cb n'' ctx m else some (m.msg_data ∷ [], n'')

-- Rounds of that loop: whether the queue was found empty, what was freed, and the node.
unfoldable pub rounds : Callback → ℕ → Node → (ctx q : ℕ) → Option (Bool × List ℕ × Node)
rounds cb zero n ctx q = some (false, [], n)
rounds cb (suc k) n ctx q =
    let (ret, m, mq) = mq_pop (n.world.mqs q) in
    let rest = handle_message cb (with_mq n q mq) ctx q m >>= λ h.
    rounds cb k h.1 ctx q >>= λ t. some (t.0, h.0 ++ t.1, t.2) in
    if ret == 0 then rest else some (true, [], with_mq n q mq)

-- The number of rounds once a message is popped: all that are left, shifted by the weight, but not none.
-- A negative weight is `none`.
unfoldable pub rounds_for : Option ℕ → ℕ → ℕ
rounds_for none left = 1
rounds_for (some weight) left = if left / 2 ^ weight == 0 then 1 else left / 2 ^ weight

-- The whole loop.
unfoldable pub loop : Callback → Option ℕ → Node → (ctx q : ℕ) → Option (Bool × List ℕ × Node)
loop cb weight n ctx q =
    rounds cb (rounds_for weight (mq_length (mq_pop (n.world.mqs q)).2)) n ctx q

-- `skynet_globalmq_pop`
abbrev next_queue : Node → Option (ℕ × Node)
next_queue n = globalmq_pop n.world.global >>= λ g.
    some (g.0, record n { world = record (n.world) { global = g.1 } })

-- `drop_message`, with the handle in `d`.
unfoldable pub drop_message :
    (malloc : Node → ℕ) → Node → (handle : ℕ) → Message → Option (List ℕ × Node)
drop_message malloc n handle m =
    if handle == 0
    then none
    else (send n 0 handle m.source ptype_error 0 0 0 0 (malloc n) >>= λ r.
        some (m.msg_data ∷ r.freed, r.node))

-- The calls of `drop_message` that `skynet_mq_release` makes. They run here once the queue is freed,
-- which none of them looks at.
unfoldable pub drop_all :
    (malloc : Node → ℕ) → Node → (handle : ℕ) → List (Option Message) → Option (List ℕ × Node)
unfolding drop_message
drop_all malloc n handle [] = some ([], n)
drop_all malloc n handle (none ∷ ms) = none
drop_all malloc n handle (some m ∷ ms) = drop_message malloc n handle m >>= λ h.
    drop_all malloc h.1 handle ms >>= λ t. some (h.0 ++ t.0, t.1)

-- The queue that the worker takes up next: this one again if no other waits.
abbrev swap_queue : Node → ℕ → Option (ℕ × Node)
swap_queue n q = next_queue n >>= λ g.
    if g.0 == 0
    then some (q, g.1)
    else (globalmq_push g.1.world.global q >>= λ pushed.
        some (g.0, record (g.1) { world = record (g.1.world) { global = pushed } }))

-- The part of `skynet_context_message_dispatch` with a queue: the next queue (0 for NULL), what was
-- freed, and the node.
unfoldable pub dispatch_queue :
    Callback → (malloc : Node → ℕ) → Option ℕ → Node → (q : ℕ) → Option (ℕ × List ℕ × Node)
unfolding loop drop_all
dispatch_queue cb malloc weight n q = elim (handle_grab n (n.world.mqs q).handle).0 [
  | none ↦ mq_release n.world q >>= λ w.
      drop_all malloc (record n { world = w.1 }) (n.world.mqs q).handle w.0 >>= λ d.
      next_queue d.1 >>= λ g. some (g.0, d.0, g.1)
  | some ctx ↦ loop cb weight (handle_grab n (n.world.mqs q).handle).1 ctx q >>= λ t.
      if t.0
      then (context_release t.2 ctx >>= λ r. next_queue r.1 >>= λ g. some (g.0, t.1, g.1))
      else if q == (t.2.contexts ctx).queue
      then (swap_queue t.2 q >>= λ g. context_release g.1 ctx >>= λ r. some (g.0, t.1, r.1))
      else none
]

-- `skynet_context_message_dispatch`; `q` is 0 for NULL.
unfoldable pub message_dispatch :
    Callback → (malloc : Node → ℕ) → Option ℕ → Node → (q : ℕ) → Option (ℕ × List ℕ × Node)
unfolding dispatch_queue
message_dispatch cb malloc weight n q =
    if q == 0
    then (next_queue n >>= λ g.
        if g.0 == 0 then some (0, [], g.1) else dispatch_queue cb malloc weight g.1 g.0)
    else dispatch_queue cb malloc weight n q
