-- ===== src/Server/Dispatch/Drop.antt =====
-- skynet-src/skynet_server.c: the messages of a queue whose service is gone.
use ue4_background.Server.Send.Delivers.{send_delivers, source_of}
use ue4_background.Mq.Schedule.{mq_push, World}
use ue4_background.Server.{handle_of, message_isremote, Node}
use ue4_background.Handle.Table.{grab}
use ue4_background.Server.Dispatch.{ptype_error, drop_message}
use ue4_background.Server.Send.Owner.{carried}
use ue4_background.Server.Send.{alloc_session}
use ue4_background.Mq.{Message}
use ue4_background.Prelude.{
  ℕ, ◌*◌, ◌^◌, ◌<◌, ◌≡◌, refl, ◌≢◌, false, ◌&&◌, some, [], ◌∷◌, arith, ◌==◌,
}

-- The message that tells a sender.
abbrev pub error_from : ℕ → Message
error_from handle = record { source = handle; session = 0; msg_data = 0; sz = ptype_error * 2 ^ 56 }

no_session : (n : Node) → alloc_session n 0 ptype_error 0 ≡ some (0, n)
unfolding alloc_session
no_session n = refl

-- `drop_message`, with a handle that is not 0, for a sender that is a service of this node, has a
-- reference and takes the push: the data is freed, and the sender has one
-- error message with no data put into its queue, from the handle of the service that is gone.
pub drop_message_lem :
    (malloc : Node → ℕ) (n : Node) (handle : ℕ) (m : Message) (ctx : ℕ) (w : World)
    → 0 < handle
    → m.source ≢ 0
    → message_isremote n m.source ≡ false
    → grab (handle_of n) n.storage m.source ≡ some ctx
    → 0 < (n.contexts ctx).ref
    → mq_push n.world (n.contexts ctx).queue (error_from handle) ≡ some w
    → drop_message malloc n handle m ≡ some (m.msg_data ∷ [], record n { world = w })
unfolding drop_message carried
drop_message_lem malloc n handle m ctx w h s l g r p =
    let y : (handle == 0) ≡ false = ground arith in
    let from : source_of n 0 handle ≡ handle = rw y in
    let alone : (handle == 0 && 0 == 0) ≡ false = rw y in
    let sent =
      send_delivers n 0 handle m.source ptype_error 0 0 0 0 (malloc n) 0 n ctx w (omega arith) alone
        (no_session n) s l g r (rw y p) in
    rw (drop_message, y, sent)
