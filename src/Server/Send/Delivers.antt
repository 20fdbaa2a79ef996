-- ===== src/Server/Send/Delivers.antt =====
-- skynet-src/skynet_server.c: where `skynet_send` brings a message, on all its branches.
use ue4_background.Server.{context_push, handle_of, message_isremote, context_send, Node}
use ue4_background.Server.Refs.{context_push_lem}
use ue4_background.Server.Send.{
  ptype_harbor, session, ptype_system, alloc_session, filter_args, harbor_send, send, send_filtered,
}
use ue4_background.Mq.Schedule.{mq_push, World}
use ue4_background.Handle.Table.{grab}
use ue4_background.Server.Send.Owner.{carried}
use ue4_background.Mq.{Message}
use ue4_background.Prelude.{
  ℕ, ◌+◌, ◌*◌, ◌/◌, ◌%◌, ◌^◌, ◌<◌, ◌≡◌, sym, subst, ◌≢◌, inl, inr, true, false, ◌&&◌, some, [], ◌∷◌,
  arith, leb, ◌==◌, if◌then◌else◌,
}

-- The message of a call of `skynet_send`, with its session and its sender's handle.
abbrev pub message_of : (source type s msg sz copy : ℕ) → Message
message_of source type s msg sz copy = record {
  source = source;
  session = s;
  msg_data = carried type msg copy;
  sz = sz + type % 256 * 2 ^ 56;
}

abbrev pub source_of : Node → (context source : ℕ) → ℕ
source_of n context source = if source == 0 then (n.contexts context).handle else source

-- Behind the assignment of a session, `skynet_send` goes on like this.
send_assigned :
    (n : Node) (context source destination type s msg sz copy rmsg s' : ℕ) (n' : Node)
    → sz < 2 ^ 56
    → source == 0 && context == 0 ≡ false
    → alloc_session n context type s ≡ some (s', n')
    → send n context source destination type s msg sz copy rmsg
      ≡ send_filtered n' context
          (source_of n' context source)
          destination
          s'
          (carried type msg copy)
          (sz + type % 256 * 2 ^ 56)
          rmsg
unfolding send filter_args carried
send_assigned n context source destination type s msg sz copy rmsg s' n' h g e =
    let y : leb (2 ^ 56) sz ≡ false = ground arith in rw (send, y, e, g)

-- `skynet_send` to a service of this node that has a reference and takes the push, with a size below
-- 2 ^ 56, from a service or with a source, when the session is assigned: it returns the session, frees nothing, and puts exactly this message into the
-- queue of the service, whose count of references is as before.
pub send_delivers :
    (n : Node) (context source destination type s msg sz copy rmsg s' : ℕ) (n' : Node) (ctx : ℕ)
    (w : World)
    → sz < 2 ^ 56
    → source == 0 && context == 0 ≡ false
    → alloc_session n context type s ≡ some (s', n')
    → destination ≢ 0
    → message_isremote n' destination ≡ false
    → grab (handle_of n') n'.storage destination ≡ some ctx
    → 0 < (n'.contexts ctx).ref
    → let m = message_of (source_of n' context source) type s' msg sz copy in
      mq_push n'.world (n'.contexts ctx).queue m ≡ some w
      → send n context source destination type s msg sz copy rmsg
        ≡ some (record {
          result = session s';
          freed = [];
          pushed = m ∷ [];
          remotes = [];
          node = record n' { world = w };
        })
unfolding send_filtered
send_delivers n context source destination type s msg sz copy rmsg s' n' ctx w h g e d i u f p =
    let z : (destination == 0) ≡ false = ground arith in
    let m = message_of (source_of n' context source) type s' msg sz copy in
    elim (context_push_lem n' destination m) [
      | inl (u', q) ↦ absurd (cc (u, u'))
      | inr (ctx', u', q) ↦
          let same : ctx ≡ ctx' = cc (u, u') in
          let q' =
            subst
              (λ x.
                (w : World)
                → mq_push n'.world (n'.contexts x).queue m ≡ some w
                → 0 < (n'.contexts x).ref
                → context_push n' destination m ≡ some (true, record n' { world = w }))
              (sym same) q w p f in
          rw (
            send_assigned n context source destination type s msg sz copy rmsg s' n' h g e,
            send_filtered,
            z,
            i,
            q',
          )
    ]

-- `skynet_send` to another node, with a size below 2 ^ 56 and a type that is not the system's or the
-- harbor's, from a service or with a source, when the session is assigned and there is a harbor service
-- that takes the push: the harbor service has one system
-- message put into its queue, for the remote message with the same data, size and type.
pub send_remote :
    (n : Node) (context source destination type s msg sz copy rmsg s' : ℕ) (n' : Node) (w : World)
    → sz < 2 ^ 56
    → source == 0 && context == 0 ≡ false
    → alloc_session n context type s ≡ some (s', n')
    → destination ≢ 0
    → message_isremote n' destination ≡ true
    → n'.remote ≢ 0
    → type % 256 ≢ ptype_system
    → type % 256 ≢ ptype_harbor
    → mq_push n'.world (n'.contexts n'.remote).queue (record {
      source = source_of n' context source;
      session = s';
      msg_data = rmsg;
      sz = 48 + ptype_system * 2 ^ 56;
    })
      ≡ some w
    → send n context source destination type s msg sz copy rmsg
      ≡ some (record {
        result = session s';
        freed = [];
        pushed = [];
        remotes =
            record {
              destination = destination;
              message = carried type msg copy;
              sz = sz;
              type = type % 256;
            }
            ∷ [];
        node = record n' { world = w };
      })
unfolding send_filtered harbor_send context_send
send_remote n context source destination type s msg sz copy rmsg s' n' w h g e d i k t u p =
    let z : (destination == 0) ≡ false = ground arith in
    let a : (type % 256 == 4) ≡ false = ground arith in
    let b : (type % 256 == 5) ≡ false = ground arith in
    let c : (n'.remote == 0) ≡ false = ground arith in
    let hi : (sz + type % 256 * 2 ^ 56) / 2 ^ 56 ≡ type % 256 = omega arith in
    let lo : (sz + type % 256 * 2 ^ 56) % 2 ^ 56 ≡ sz = omega arith in
    rw (
      send_assigned n context source destination type s msg sz copy rmsg s' n' h g e,
      send_filtered,
      z,
      i,
      hi,
      lo,
      harbor_send,
      a,
      b,
      c,
      context_send,
      p,
    )
