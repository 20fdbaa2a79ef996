-- ===== src/Server.antt =====
-- skynet-src/skynet_server.c, with skynet-src/skynet_harbor.c: the services, their reference counts and
-- the calls that bring a message to one, and skynet-src/skynet_error.c, by which a line goes to the logger. An
-- address names a `struct skynet_context`, 0 is NULL. What a module does when its instance is released is
-- left to it; the call is noted.
pub mod Session
pub mod Refs
pub mod Send
pub mod Dispatch
pub mod Monitor
pub mod Harbor
pub mod Create
use ue4_background.Handle.Names.{findname}
use ue4_background.Handle.Table.{HandleStorage, grab, retire}
use ue4_background.Mq.{Message}
use ue4_background.Mq.Schedule.{World, mark_release, mq_push}
use ue4_background.Prelude.{
  ℕ, ◌+◌, ◌-◌, ◌*◌, ◌/◌, ◌%◌, ◌^◌, ap, Bool, true, false, not, ◌&&◌, Option, none, some, List, [],
  ◌∷◌, leb, ◌==◌, if◌then◌else◌, length, set, update, count, ◌>>=◌,
}

-- `struct skynet_context`, as far as it decides what happens to messages; `has_cb` is `cb != NULL`.
pub record Context : Type 0 where
  pub queue : ℕ
  pub handle : ℕ
  pub session_id : ℕ
  pub ref : ℕ
  pub message_count : ℕ
  pub is_init : Bool
  pub endless : Bool
  pub has_cb : Bool

-- The contexts in memory, the handles, the message queues, `G_NODE.total` as the 32 bits of an int, and
-- `HARBOR` and `REMOTE` of skynet_harbor.c; the services whose instance was released, the last one first;
-- the handle that `skynet_error` remembers, and the addresses and lengths that the lines to be logged will
-- have, with the number of lines logged.
pub record Node : Type 0 where
  pub contexts : ℕ → Context
  pub storage : HandleStorage
  pub world : World
  pub total : ℕ
  pub harbor : ℕ
  pub remote : ℕ
  pub unloaded : List ℕ
  pub logger : ℕ
  pub lines : ℕ → ℕ × ℕ
  pub logged : ℕ

abbrev pub handle_of : Node → ℕ → ℕ
handle_of n ctx = (n.contexts ctx).handle

abbrev pub set_context : Node → ℕ → Context → Node
set_context n ctx c = record n { contexts = update n.contexts ctx c }

-- `skynet_context_newsession`: the session, and the context. At 2 ^ 31 the int is negative.
unfoldable pub newsession : Context → ℕ × Context
newsession c =
    let session = c.session_id + 1 in
    if leb (2 ^ 31) session
    then (1, record c { session_id = 1 })
    else (session, record c { session_id = session })

-- `context_inc` and `context_dec`, of `G_NODE.total`.
abbrev pub context_inc : ℕ → ℕ
context_inc total = (total + 1) % 2 ^ 32

abbrev pub context_dec : ℕ → ℕ
context_dec total = (total + (2 ^ 32 - 1)) % 2 ^ 32

-- `skynet_context_grab`
unfoldable pub context_grab : Node → ℕ → Node
context_grab n ctx = set_context n ctx (record (n.contexts ctx) { ref = (n.contexts ctx).ref + 1 })

-- `delete_context`; `none` is a failed assertion in `skynet_mq_mark_release`.
unfoldable pub delete_context : Node → ℕ → Option Node
delete_context n ctx = mark_release n.world (n.contexts ctx).queue >>= λ w.
    some (record n { world = w; total = context_dec n.total; unloaded = ctx ∷ n.unloaded })

-- `skynet_context_release`: whether the context is still there.
unfoldable pub context_release : Node → ℕ → Option (Bool × Node)
unfolding delete_context
context_release n ctx =
    let c = n.contexts ctx in
    let released = set_context n ctx (record c { ref = c.ref - 1 }) in
    if c.ref == 1
    then (delete_context released ctx >>= λ n'. some (false, n'))
    else some (true, released)

-- `skynet_handle_grab`, with the count.
unfoldable pub handle_grab : Node → ℕ → Option ℕ × Node
unfolding context_grab
handle_grab n handle = elim (grab (handle_of n) n.storage handle) [
  | none ↦ (none, n)
  | some ctx ↦ (some ctx, context_grab n ctx)
]

-- `skynet_context_push`: whether there is a service with the handle.
unfoldable pub context_push : Node → ℕ → Message → Option (Bool × Node)
unfolding handle_grab context_release
context_push n handle message = elim (grab (handle_of n) n.storage handle) [
  | none ↦ some (false, n)
  | some ctx ↦
      let n' = context_grab n ctx in
      mq_push n'.world (n'.contexts ctx).queue message >>= λ w.
      context_release (record n' { world = w }) ctx >>= λ r. some (true, r.1)
]

-- The name "logger".
abbrev pub logger_name : List ℕ
logger_name = 108 ∷ 111 ∷ 103 ∷ 103 ∷ 101 ∷ 114 ∷ []

-- `skynet_error`, with the line as `lines` has it: a message of the type PTYPE_TEXT, which is 0, for the
-- logger, if there is one.
unfoldable pub skynet_error : Node → (context : ℕ) → Option Node
skynet_error n context =
    let logger = if n.logger == 0 then findname n.storage.name logger_name else n.logger in
    let line = n.lines n.logged in
    let smsg : Message = record {
      source = if context == 0 then 0 else (n.contexts context).handle;
      session = 0;
      msg_data = line.0;
      sz = line.1;
    } in
    let pushed =
      context_push (record n { logger = logger; logged = n.logged + 1 }) logger smsg >>= λ r.
      some r.1 in
    if logger == 0 then some n else pushed

-- `skynet_context_endless`
unfoldable pub context_endless : Node → ℕ → Option Node
unfolding handle_grab context_release
context_endless n handle = elim (grab (handle_of n) n.storage handle) [
  | none ↦ some n
  | some ctx ↦
      let n' = context_grab n ctx in
      context_release (set_context n' ctx (record (n'.contexts ctx) { endless = true })) ctx
      >>= λ r. some r.1
]

-- `skynet_handle_retire`, with the release of the service.
unfoldable pub handle_retire : Node → ℕ → Option (Bool × Node)
unfolding context_release
handle_retire n handle =
    let (found, storage) = retire (handle_of n) n.storage handle in
    let n' = record n { storage = storage } in
    elim found [
      | none ↦ some (false, n')
      | some ctx ↦ context_release n' ctx >>= λ r. some (true, r.1)
    ]

-- `skynet_context_send`: the type stands in the high byte of the size.
unfoldable pub context_send : Node → ℕ → (msg sz source type session : ℕ) → Option Node
context_send n ctx msg sz source type session =
    mq_push n.world (n.contexts ctx).queue
      (record { source = source; session = session; msg_data = msg; sz = sz + type * 2 ^ 56 })
    >>= λ w. some (record n { world = w })

-- `skynet_harbor_message_isremote`, once `skynet_harbor_init` has set `HARBOR`.
unfoldable pub message_isremote : Node → ℕ → Bool
message_isremote n handle = let h = handle / 2 ^ 24 * 2 ^ 24 in not (h == n.harbor) && not (h == 0)
