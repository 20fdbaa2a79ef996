-- ===== src/Server/Send.antt =====
-- skynet-src/skynet_server.c: `skynet_send` and what it calls. `copy` and `rmsg` are the addresses that
-- the allocator would return for the copy of the data and for the remote message.
pub mod Owner
pub mod Delivers
use ue4_background.Server.{
  skynet_error, Context, Node, context_push, context_send, message_isremote, newsession,
  set_context,
}
use ue4_background.Mq.{Message}
use ue4_background.Prelude.{
  ℕ, ◌+◌, ◌-◌, ◌*◌, ◌/◌, ◌%◌, ◌^◌, Bool, not, ◌&&◌, ◌||◌, Option, none, some, List, [], ◌∷◌, leb,
  ◌==◌, if◌then◌else◌, set, drop, ◌>>=◌,
}

-- `struct remote_message`, for a destination with a handle.
pub record RemoteMessage : Type 0 where
  pub destination : ℕ
  pub message : ℕ
  pub sz : ℕ
  pub type : ℕ

-- What is returned: a session, -1 or -2.
pub data SendResult : Type 0 where
  session : ℕ → SendResult
  no_destination too_large : SendResult

-- The returned value, what `skynet_free` was called with, the messages put into the queue of the
-- destination (not the logger's), the remote
-- messages handed to the harbor, and the node.
pub record Sent : Type 0 where
  pub result : SendResult
  pub freed : List ℕ
  pub pushed : List Message
  pub remotes : List RemoteMessage
  pub node : Node

-- The bits PTYPE_TAG_DONTCOPY and PTYPE_TAG_ALLOCSESSION.
abbrev pub is_dontcopy : ℕ → Bool
is_dontcopy type = type / 0x10000 % 2 == 1

abbrev pub is_allocsession : ℕ → Bool
is_allocsession type = type / 0x20000 % 2 == 1

abbrev pub ptype_system : ℕ
ptype_system = 4

abbrev pub ptype_harbor : ℕ
ptype_harbor = 5

-- The session for the message, and the node. `none` is the failed assertion, or a read of NULL.
unfoldable pub alloc_session : Node → ℕ → ℕ → ℕ → Option (ℕ × Node)
alloc_session n context type s =
    let (next, c) = newsession (n.contexts context) in
    if not (is_allocsession type)
    then some (s, n)
    else if s == 0 && not (context == 0)
    then some (next, set_context n context c)
    else none

-- `_filter_args`: the session, the data, the size with the type in its high byte, and the node.
unfoldable pub filter_args : Node → (context type s msg sz copy : ℕ) → Option (ℕ × ℕ × ℕ × Node)
filter_args n context type s msg sz copy = alloc_session n context type s >>= λ a.
    some (a.0, if is_dontcopy type || msg == 0 then msg else copy, sz + type % 256 * 2 ^ 56, a.1)

-- `skynet_harbor_send`; `none` is the failed assertion.
unfoldable pub harbor_send : Node → RemoteMessage → (rmsg source s : ℕ) → Option Node
harbor_send n r rmsg source s =
    if r.type == ptype_system || r.type == ptype_harbor || n.remote == 0
    then none
    else context_send n n.remote rmsg 48 source ptype_system s

-- The part of `skynet_send` behind `_filter_args`.
unfoldable pub send_filtered : Node → (context source destination s msg sz rmsg : ℕ) → Option Sent
send_filtered n context source destination s msg sz rmsg =
    let remote : RemoteMessage = record {
      destination = destination;
      message = msg;
      sz = sz % 2 ^ 56;
      type = sz / 2 ^ 56;
    } in
    let smsg : Message = record { source = source; session = s; msg_data = msg; sz = sz } in
    let returned : List Message → List RemoteMessage → Node → Sent =
      λ ms rs m. record { result = session s; freed = []; pushed = ms; remotes = rs; node = m } in
    let dropped : Node → Sent = λ m. record {
      result = no_destination;
      freed = msg ∷ [];
      pushed = [];
      remotes = [];
      node = m;
    } in
    if destination == 0
    then (if msg == 0
        then some (returned [] [] n)
        else (skynet_error n context >>= λ m. some (dropped m)))
    else if message_isremote n destination
    then (harbor_send n remote rmsg source s >>= λ n'. some (returned [] (remote ∷ []) n'))
    else (context_push n destination smsg >>= λ r.
        some (if r.0 then returned (smsg ∷ []) [] r.1 else dropped r.1))

-- `skynet_send`. With no context, the source is given.
unfoldable pub send : Node → (context source destination type s msg sz copy rmsg : ℕ) → Option Sent
unfolding filter_args send_filtered
send n context source destination type s msg sz copy rmsg =
    let refused : Sent = record {
      result = too_large;
      freed = if is_dontcopy type then msg ∷ [] else [];
      pushed = [];
      remotes = [];
      node = n;
    } in
    if leb (2 ^ 56) sz
    then some refused
    else (filter_args n context type s msg sz copy >>= λ a.
        let source' = if source == 0 then (a.3.contexts context).handle else source in
        if source == 0 && context == 0
        then none
        else send_filtered a.3 context source' destination a.0 a.1 a.2 rmsg)
