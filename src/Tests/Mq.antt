-- ===== src/Tests/Mq.antt =====
-- skynet-src/skynet_mq.c at work.
use ue4_background.Mq.Fifo.{noted, popped, overload, pop, push, Op, run}
use ue4_background.Mq.Dispatch.{begin, new, send, after, Reach, publish, start, System, step}
use ue4_background.Mq.{
  take_overload, pop_message, create, Message, MessageQueue, mq_length, mq_pop, push_message,
  raise_threshold,
}
use ue4_background.Mq.Dispatch.Safety.{Reach-step, Reach-waiting, Reach-exclusive}
use ue4_background.Mq.Global.Linked.{IsQueued}
use ue4_background.Mq.Schedule.{mq_push, mq_create}
use ue4_background.Prelude.{
  ℕ, ◌+◌, ◌≤◌, ◌<◌, ◌≡◌, refl, none, some, List, [], ◌∷◌, arith, update, count,
}

abbrev msg : ℕ → Message
msg n = record { source = 1; session = n; msg_data = 0; sz = 0 }

abbrev fresh : MessageQueue
fresh = create 7

abbrev script : List Op
script = push (msg 1) ∷ push (msg 2) ∷ pop ∷ overload ∷ pop ∷ pop ∷ []

run-script :
    (run fresh script).0
    ≡ popped 0 (some (msg 1)) ∷ noted 0 ∷ popped 0 (some (msg 2)) ∷ popped 1 none ∷ []
unfolding run create mq_pop push_message pop_message take_overload raise_threshold
run-script = refl

abbrev memory : ℕ → MessageQueue
memory a = create 0

abbrev created : System
created = record { world = mq_create (start memory).world 16 7; held = 16 ∷ [] }

created-Reach : Reach memory created
unfolding step
created-Reach = after (new 16 7) begin (omega arith, refl) refl

abbrev sent : System
sent = record created {
  world = record (created.world) {
    mqs = update created.world.mqs 16 (push_message (create 7) (msg 1));
  };
}

sent-Reach : Reach memory sent
unfolding step mq_create mq_push push_message create
sent-Reach = after (send 16 (msg 1)) created-Reach (refl, refl) refl

Reach-step_example : (t : System) × (step sent (publish 16) ≡ some t)
Reach-step_example = Reach-step (publish 16) sent-Reach (omega arith)

Reach-exclusive_example :
    (xs : List ℕ) × IsQueued sent.world.global xs × (count 16 xs + count 16 sent.held ≤ 1)
Reach-exclusive_example = Reach-exclusive 16 sent-Reach

Reach-waiting_example :
    (xs : List ℕ) × IsQueued sent.world.global xs × (0 < count 16 xs + count 16 sent.held)
unfolding mq_create create mq_length push_message
Reach-waiting_example = Reach-waiting 16 sent-Reach refl (omega arith)
