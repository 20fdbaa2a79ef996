-- ===== src/Server/Create.antt =====
-- skynet-src/skynet_server.c: `skynet_context_new`. `init` is the module's init function, which may change
-- the node and says whether it returned 0; `ctx` and `queue` are the addresses of the new memory.
pub mod Launch
pub mod Undo
pub mod Fail
use ue4_background.Server.{
  skynet_error, context_inc, handle_of, handle_retire, context_release, set_context, Context, Node,
}
use ue4_background.Server.Dispatch.{drop_all}
use ue4_background.Mq.Schedule.{mq_release, mq_create}
use ue4_background.Mq.Global.{globalmq_push}
use ue4_background.Handle.Table.{HandleStorage, register}
use ue4_background.Prelude.{
  ℕ, ◌-◌, ◌/◌, Bool, true, false, Option, some, List, [], if◌then◌else◌, set, drop, update, count,
  ◌>>=◌,
}

abbrev pub Init : Type 0
Init = Node → ℕ → Option (Bool × Node)

-- The context as it is filled before its handle is known, with the queue created later.
abbrev pub fresh_context : ℕ → Context
fresh_context queue = record {
  queue = queue;
  handle = 0;
  session_id = 0;
  ref = 2;
  message_count = 0;
  is_init = false;
  endless = false;
  has_cb = false;
}

abbrev pub allocated : Node → (ctx queue : ℕ) → Node
allocated n ctx queue = set_context n ctx (fresh_context queue)

-- The service and its queue once they have the handle.
abbrev pub with_handle : Node → (ctx queue handle : ℕ) → HandleStorage → Node
with_handle n ctx queue handle s = record n {
  contexts = update n.contexts ctx (record (fresh_context queue) { handle = handle });
  storage = s;
  world = mq_create n.world queue handle;
  total = context_inc n.total;
}

-- The branch for an init function that returns 0: the service that is returned, and the node.
unfoldable pub launch : Node → (ctx queue : ℕ) → Option (ℕ × Node)
launch n ctx queue = context_release n ctx >>= λ r.
    let n' =
      if r.0 then set_context r.1 ctx (record (r.1.contexts ctx) { is_init = true }) else r.1 in
    globalmq_push n'.world.global queue >>= λ g.
    let pushed = record n' { world = record (n'.world) { global = g } } in
    if r.0 then (skynet_error pushed ctx >>= λ m. some (ctx, m)) else some (0, pushed)

-- The other branch: what is freed, and the node.
unfoldable pub fail_launch : (malloc : Node → ℕ) → Node → (ctx queue : ℕ) → Option (List ℕ × Node)
fail_launch malloc n ctx queue = skynet_error n ctx >>= λ m.
    let handle = (m.contexts ctx).handle in
    context_release m ctx >>= λ r. handle_retire r.1 handle >>= λ t.
    mq_release t.1.world queue >>= λ w. drop_all malloc (record (t.1) { world = w.1 }) handle w.0

-- `skynet_context_new`, where `instance` says whether there is a module of that name that makes an
-- instance: the service, 0 for NULL, what is freed of messages, and the node.
unfoldable pub context_new :
    Init
    → (malloc : Node → ℕ) → (instance : Bool) → Node
    → (ctx queue : ℕ) → Option (ℕ × List ℕ × Node)
unfolding launch fail_launch
context_new init malloc instance n ctx queue =
    let n0 = allocated n ctx queue in
    if instance
    then (register 2 (handle_of n0) n0.storage ctx >>= λ h.
        init (with_handle n0 ctx queue h.0 h.1) ctx >>= λ r.
        if r.0
        then (launch r.1 ctx queue >>= λ l. some (l.0, [], l.1))
        else (fail_launch malloc r.1 ctx queue >>= λ f. some (0, f.0, f.1)))
    else some (0, [], n)
