-- ===== src/Server/Dispatch/Calls.antt =====
-- skynet-src/skynet_server.c: the message that `skynet_send` makes, seen by the callback.
use ue4_background.Server.{context_push, message_isremote, Context, skynet_error, newsession, Node}
use ue4_background.Server.Send.{
  harbor_send, is_allocsession, session, Sent, filter_args, alloc_session, send, send_filtered,
}
use ue4_background.Server.Send.Owner.{filter_args-carried, if-none, carried}
use ue4_background.Mq.{Message}
use ue4_background.Server.Send.Delivers.{source_of}
use ue4_background.Server.Dispatch.{call_of}
use ue4_background.Prelude.{
  ℕ, ◌+◌, ◌*◌, ◌/◌, ◌%◌, ◌^◌, ◌<◌, ◌≡◌, refl, sym, ap, ap₂, ◌∙◌, inl, inr, not, ◌&&◌, some, [], ◌∷◌,
  arith, leb, ◌==◌, if◌then◌else◌, Bool-cases, update_self, bind-some, some_inj,
}

newsession-handle : (c : Context) → (newsession c).1.handle ≡ c.handle
unfolding newsession
newsession-handle c = ground arith

-- The context that takes a session keeps its handle.
alloc_session-handle :
    (n : Node) (context type s s' : ℕ) (n' : Node)
    → alloc_session n context type s ≡ some (s', n')
    → (n'.contexts context).handle ≡ (n.contexts context).handle
unfolding alloc_session
alloc_session-handle n context type s s' n' e =
    let c = n.contexts context in
    let taken = (newsession c).1 in
    elim (Bool-cases (is_allocsession type)) [
      | inr a ↦
          let same = some_inj (rw (alloc_session, a) at e) in
          ap (λ (x : ℕ × Node). (x.1.contexts context).handle) (sym same)
      | inl a ↦ elim (Bool-cases (s == 0 && not (context == 0))) [
        | inr b ↦ absurd (cc (rw (alloc_session, a, b) at e))
        | inl b ↦
            let same = some_inj (rw (alloc_session, a, b) at e) in
            ap (λ (x : ℕ × Node). (x.1.contexts context).handle) (sym same)
            ∙ ap (λ (x : Context). x.handle) (update_self n.contexts context taken)
            ∙ newsession-handle c
      ]
    ]

pushed_nothing : {x r : Sent} {m : Message} → x ≡ r → r.pushed ≡ m ∷ [] → ¬ (x.pushed ≡ [])
pushed_nothing e f g = absurd (cc (sym g ∙ ap (λ (y : Sent). y.pushed) e ∙ f))

first_inj : {a b : Message} → a ∷ [] ≡ b ∷ [] → a ≡ b
first_inj e = cc e

send_filtered-pushed :
    (n : Node) (context source destination s msg sz rmsg : ℕ) (r : Sent) (m : Message)
    → send_filtered n context source destination s msg sz rmsg ≡ some r
    → r.pushed ≡ m ∷ []
    → (r.result ≡ session s)
      × (m ≡ record { source = source; session = s; msg_data = msg; sz = sz })
unfolding send_filtered
send_filtered-pushed n context source destination s msg sz rmsg r m e f =
    elim (Bool-cases (destination == 0)) [
      | inl d ↦ elim (Bool-cases (msg == 0)) [
        | inl z ↦ absurd (pushed_nothing (some_inj (rw (send_filtered, d, z) at e)) f refl)
        | inr z ↦
            let (n', p, q) = bind-some (skynet_error n context) _ (rw (send_filtered, d, z) at e) in
            absurd (pushed_nothing (some_inj q) f refl)
      ]
      | inr d ↦ elim (Bool-cases (message_isremote n destination)) [
        | inl i ↦
            let (n', p, q) =
              bind-some (harbor_send n _ rmsg source s) _ (rw (send_filtered, d, i) at e) in
            absurd (pushed_nothing (some_inj q) f refl)
        | inr i ↦
            let (t, p, q) =
              bind-some (context_push n destination _) _ (rw (send_filtered, d, i) at e) in
            elim (Bool-cases t.0) [
              | inl y ↦
                  let same = some_inj (rw y at q) in
                  (
                    ap (λ (x : Sent). x.result) (sym same),
                    first_inj (sym f ∙ ap (λ (x : Sent). x.pushed) (sym same)),
                  )
              | inr y ↦ absurd (pushed_nothing (some_inj (rw y at q)) f refl)
            ]
      ]
    ]

-- Whatever message `skynet_send` puts into the queue of its destination, the callback of the service is
-- called for it with the session that `skynet_send` returned, the type that was given without its tags,
-- the sender, the data that the message carries, and the size that was given.
pub call_of-send :
    (n : Node) (context source destination type s msg sz copy rmsg : ℕ) (r : Sent) (m : Message)
    → send n context source destination type s msg sz copy rmsg ≡ some r
    → r.pushed ≡ m ∷ []
    → (r.result ≡ session m.session)
      × (call_of m ≡ record {
        type = type % 256;
        session = m.session;
        source = source_of n context source;
        msg = carried type msg copy;
        sz = sz;
      })
unfolding send filter_args
call_of-send n context source destination type s msg sz copy rmsg r m e f =
    elim (Bool-cases (leb (2 ^ 56) sz)) [
      | inl y ↦ absurd (pushed_nothing (some_inj (rw (send, y) at e)) f refl)
      | inr y ↦
          let small : sz < 2 ^ 56 = ground (arith, y) in
          let (a, p, q) =
            bind-some (filter_args n context type s msg sz copy) _ (rw (send, y) at e) in
          let (b, u, w) = bind-some (alloc_session n context type s) _ p in
          let same = some_inj w in
          let (x, z) =
            send_filtered-pushed a.3 context _ destination a.0 a.1 a.2 rmsg r m (if-none _ _ q) f in
          let t : m.sz ≡ sz + type % 256 * 2 ^ 56 =
            ap (λ (k : Message). k.sz) z ∙ ap (λ (k : ℕ × ℕ × ℕ × Node). k.2) (sym same) in
          let d : m.msg_data ≡ carried type msg copy =
            ap (λ (k : Message). k.msg_data) z
            ∙ filter_args-carried n context type s msg sz copy p in
          let h = alloc_session-handle n context type s b.0 b.1 u in
          let o : m.source ≡ source_of n context source =
            ap (λ (k : Message). k.source) z
            ∙ ap
                (λ (k : ℕ × ℕ × ℕ × Node).
                  if source == 0 then (k.3.contexts context).handle else source)
                (sym same)
            ∙ ap (λ k. if source == 0 then k else source) h in
          let hi : m.sz / 2 ^ 56 ≡ type % 256 = omega (arith, t) in
          let lo : m.sz % 2 ^ 56 ≡ sz = omega (arith, t) in
          (
            x ∙ ap session (ap (λ (k : Message). k.session) (sym z)),
            ap₂
                (λ (k : ℕ × ℕ) (l : ℕ × ℕ). record {
                  type = k.0;
                  session = m.session;
                  source = l.0;
                  msg = l.1;
                  sz = k.1;
                })
                (ap₂ (λ i j. (i, j)) hi lo) (ap₂ (λ i j. (i, j)) o d),
          )
    ]
