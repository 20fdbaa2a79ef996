-- ===== src/Mq/Dispatch.antt =====
-- Executions over the message queues: the calls of skynet-src/skynet_mq.c in the order in which they
-- take their locks, with the part of skynet-src/skynet_server.c that makes each.
pub mod Invariant
pub mod Hands
pub mod Keeps
pub mod Safety
use ue4_background.Mq.Schedule.{mq_release, mark_release, mq_push, with_global, World, mq_create}
use ue4_background.Mq.{mq_pop, Message, MessageQueue}
use ue4_background.Mq.Global.{globalmq_pop, globalmq_push, GlobalQueue, mq_init}
use ue4_background.Prelude.{
  ℕ, ◌-◌, ◌/◌, ◌<◌, ◌≡◌, true, false, not, Option, none, some, List, [], ◌∷◌, ◌==◌, if◌then◌else◌,
  take, update, count, remove,
}

-- The world, and the queues held: taken by a worker, or new.
pub record System : Type 0 where
  pub world : World
  pub held : List ℕ

pub data Action : Type 0 where
  -- `skynet_context_new` creates the queue at an address that is free
  new : (a handle : ℕ) → Action
  -- `skynet_globalmq_push`, by `skynet_context_new` or after a worker's turn
  publish : (a : ℕ) → Action
  -- `skynet_context_push`
  send : (a : ℕ) (m : Message) → Action
  -- a worker's `skynet_globalmq_pop`
  take_next : Action
  -- a worker's `skynet_mq_pop`
  fetch : (a : ℕ) → Action
  -- `delete_context`
  mark : (a : ℕ) → Action
  -- a worker finds no service behind the handle
  discard : (a : ℕ) → Action

abbrev in_world : Option World → List ℕ → Option System
in_world none held = none
in_world (some w) held = some (record { world = w; held = held })

abbrev took : World → List ℕ → Option (ℕ × GlobalQueue) → Option System
took w held none = none
took w held (some (a, g)) =
    some (record { world = record w { global = g }; held = if a == 0 then held else a ∷ held })

abbrev discarded : List ℕ → Option (List (Option Message) × World) → Option System
discarded held none = none
discarded held (some (ms, w)) = some (record { world = w; held = held })

-- One call. A queue found empty is no longer the worker's.
unfoldable pub step : System → Action → Option System
step s (new a handle) = some (record { world = mq_create s.world a handle; held = a ∷ s.held })
step s (publish a) =
    in_world (with_global s.world (globalmq_push s.world.global a)) (remove a s.held)
step s (send a m) = in_world (mq_push s.world a m) s.held
step s take_next = took s.world s.held (globalmq_pop s.world.global)
step s (fetch a) =
    let (ret, _, q) = mq_pop (s.world.mqs a) in
    some (record {
      world = record (s.world) { mqs = update s.world.mqs a q };
      held = if ret == 0 then s.held else remove a s.held;
    })
step s (mark a) = in_world (mark_release s.world a) s.held
step s (discard a) = discarded (remove a s.held) (mq_release s.world a)

-- When the callers make a call. The reference count of a service keeps its queue alive and unmarked
-- while a sender or a worker has grabbed it, and `delete_context` runs once.
abbrev pub Allowed : System → Action → Type 0
Allowed s (new a handle) = (0 < a) × (s.world.live a ≡ false)
Allowed s (publish a) = 0 < count a s.held
Allowed s (send a m) = (s.world.live a ≡ true) × ((s.world.mqs a).release ≡ 0)
Allowed s take_next = Unit
Allowed s (fetch a) = (0 < count a s.held) × ((s.world.mqs a).release ≡ 0)
Allowed s (mark a) = (s.world.live a ≡ true) × ((s.world.mqs a).release ≡ 0)
Allowed s (discard a) = 0 < count a s.held

-- After `skynet_mq_init`; nothing is known of memory that is not allocated.
abbrev pub start : (ℕ → MessageQueue) → System
start memory = record {
  world = record { mqs = memory; live = λ _. false; global = mq_init };
  held = [];
}

pub data Reach (memory : ℕ → MessageQueue) : System → Type 0 where
  begin : Reach memory (start memory)
  after :
      {s t : System} (c : Action)
      → Reach memory s
      → Allowed s c
      → step s c ≡ some t
      → Reach memory t
