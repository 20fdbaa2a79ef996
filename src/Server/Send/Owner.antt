-- ===== src/Server/Send/Owner.antt =====
-- skynet-src/skynet_server.c: who has the data of a message after `skynet_send`.
use ue4_background.Server.{skynet_error, context_push, message_isremote, Node}
use ue4_background.Server.Send.{
  alloc_session, filter_args, harbor_send, send, Sent, is_dontcopy, send_filtered,
}
use ue4_background.Prelude.{
  ℕ, ◌+◌, ◌*◌, ◌%◌, ◌^◌, ◌≡◌, sym, ap, ◌∙◌, ◌≢◌, inl, inr, Bool, true, false, ◌||◌, Option, none,
  some, List, [], ◌∷◌, ◌++◌, map, append-nil, arith, leb, ◌==◌, if◌then◌else◌, Bool-cases,
  bind-some, some_inj,
}

-- Where buffers are when the call is over: freed, in a message in the queue of the destination, or in a
-- message for the harbor.
unfoldable pub holders : Sent → List ℕ
holders r = r.freed ++ map (λ m. m.msg_data) r.pushed ++ map (λ m. m.message) r.remotes

-- The buffer that the message carries.
unfoldable pub carried : (type msg copy : ℕ) → ℕ
carried type msg copy = if is_dontcopy type || msg == 0 then msg else copy

pub if-none :
    {A : Type 0} (b : Bool) (o : Option A) {a : A} → (if b then none else o) ≡ some a → o ≡ some a
if-none true o e = absurd (cc e)
if-none false o e = e

holders-some : {x r : Sent} → some x ≡ some r → holders r ≡ holders x
holders-some e = ap holders (sym (some_inj e))

send_filtered-holders :
    (n : Node) (context source destination s msg sz rmsg : ℕ) (r : Sent)
    → msg ≢ 0
    → send_filtered n context source destination s msg sz rmsg ≡ some r
    → holders r ≡ msg ∷ []
unfolding send_filtered holders
send_filtered-holders n context source destination s msg sz rmsg r h e =
    let m : (msg == 0) ≡ false = ground arith in
    elim (Bool-cases (destination == 0)) [
      | inl d ↦
          let (n', p, q) = bind-some (skynet_error n context) _ (rw (send_filtered, d, m) at e) in
          holders-some q
      | inr d ↦ elim (Bool-cases (message_isremote n destination)) [
        | inl i ↦
            let (n', p, q) =
              bind-some (harbor_send n _ rmsg source s) _ (rw (send_filtered, d, i) at e) in
            holders-some q
        | inr i ↦
            let (t, p, q) =
              bind-some (context_push n destination _) _ (rw (send_filtered, d, i) at e) in
            elim (Bool-cases t.0) [
              | inl f ↦ holders-some (rw f at q)
              | inr f ↦ holders-some (rw f at q)
            ]
      ]
    ]

pub filter_args-carried :
    (n : Node) (context type s msg sz copy : ℕ) {a : ℕ × ℕ × ℕ × Node}
    → filter_args n context type s msg sz copy ≡ some a
    → a.1 ≡ carried type msg copy
unfolding filter_args carried
filter_args-carried n context type s msg sz copy {a} e =
    let (b, p, q) = bind-some (alloc_session n context type s) _ e in
    let same : (b.0, carried type msg copy, sz + type % 256 * 2 ^ 56, b.1) ≡ a = cc q in
    ap (λ x. x.1) (sym same)

-- Whatever `skynet_send` does, once it returns the data has one place. Too large, it is freed when it
-- was handed over by PTYPE_TAG_DONTCOPY, and otherwise left to the caller. If not, what the message
-- carries, the data handed over or else the copy, is freed or lies in one message, for the destination
-- or for the harbor; so nothing is freed twice or lost, and data that is copied is left to the caller.
-- The message carries data.
pub holders-send :
    (n : Node) (context source destination type s msg sz copy rmsg : ℕ) (r : Sent)
    → carried type msg copy ≢ 0
    → send n context source destination type s msg sz copy rmsg ≡ some r
    → holders r ≡ (
        if leb (2 ^ 56) sz
        then if is_dontcopy type then msg ∷ [] else []
        else carried type msg copy ∷ [])
unfolding send holders
holders-send n context source destination type s msg sz copy rmsg r c e =
    elim (Bool-cases (leb (2 ^ 56) sz)) [
      | inl y ↦ rw y (holders-some (rw (send, y) at e) ∙ append-nil _ ∙ append-nil _)
      | inr y ↦
          let (a, p, q) =
            bind-some (filter_args n context type s msg sz copy) _ (rw (send, y) at e) in
          let m = filter_args-carried n context type s msg sz copy p in
          rw y (
            send_filtered-holders a.3 context _ destination a.0 a.1 a.2 rmsg r (rw m c)
              (if-none _ _ q)
            ∙ ap (λ x. x ∷ []) m)
    ]
