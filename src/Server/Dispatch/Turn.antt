-- ===== src/Server/Dispatch/Turn.antt =====
-- skynet-src/skynet_server.c: the messages that a worker handles in one turn at a queue.
use ue4_background.Mq.Fifo.{mq_pop_overload, emptied-Holds}
use ue4_background.Mq.{mq_overload, pop_message, mq_pop, MessageQueue, take_overload, Message}
use ue4_background.Mq.Pop.{mq_pop-Holds_cons, mq_pop-Holds_nil}
use ue4_background.Server.Dispatch.{
  rounds, count_call, with_mq, call_of, dispatch_message, Call, Callback, handle_message,
}
use ue4_background.Mq.Ring.{Holds}
use ue4_background.Server.{Node, Context}
use ue4_background.Prelude.{
  ℕ, zero, suc, ◌+◌, ◌≤◌, ◌<◌, ◌≡◌, refl, sym, ap, subst, ◌∙◌, Bool, true, false, ◌&&◌, Option,
  none, some, List, [], ◌∷◌, ◌++◌, arith, ltb, ◌==◌, if◌then◌else◌, length, take, drop, update_self,
  ◌>>=◌,
}

-- The data that is freed, when `keep` says what the callback keeps.
unfoldable pub released : (Call → Bool) → List Message → List ℕ
released keep [] = []
released keep (m ∷ ms) = (if keep (call_of m) then [] else m.msg_data ∷ []) ++ released keep ms

-- A callback that keeps data as `keep` says, and that leaves the service's own queue `q` and the
-- service's own context as they are: it sends nothing to the queue and takes no session. It may change the
-- rest of the node.
abbrev pub IsQuiet : Callback → (ctx q : ℕ) → (Call → Bool) → Type 0
IsQuiet cb ctx q keep =
    (n : Node) (c : Call)
    → (n' : Node) × (cb n ctx c ≡ some (keep c, n'))
      × (n'.world.mqs q ≡ n.world.mqs q)
      × (n'.contexts ctx ≡ n.contexts ctx)

-- A queue that holds `ms`, no more than its threshold, and that has no overload noted.
pub record IsCalm (q : MessageQueue) (ms : List Message) : Type 0 where
  pub holds : Holds q ms
  pub unmarked : q.overload ≡ 0
  pub positive : 0 < q.overload_threshold
  pub fits : length ms ≤ q.overload_threshold

pub pop-IsCalm :
    (m : Message) (ms : List Message) (q : MessageQueue)
    → IsCalm q (m ∷ ms)
    → (mq_pop q ≡ (0, some m, pop_message q)) × IsCalm (pop_message q) ms
pop-IsCalm m ms q v =
    let (p, left) = mq_pop-Holds_cons m ms v.holds in
    let w = (mq_pop_overload ms m q v.holds v.positive).1 (omega (arith, v.fits)) in
    let a = ap (λ (r : ℕ × Option Message × MessageQueue). r.2.overload) p in
    let b = ap (λ (r : ℕ × Option Message × MessageQueue). r.2.overload_threshold) p in
    (
      p,
      record {
        holds = left;
        unmarked = omega (arith, w.0, a, v.unmarked);
        positive = omega (arith, w.1, b, v.positive);
        fits = omega (arith, w.1, b, v.fits);
      },
    )

emptied-IsCalm :
    (q : MessageQueue)
    → IsCalm q []
    → IsCalm (record q { overload_threshold = mq_overload; in_global = 0 }) []
emptied-IsCalm q v = record {
  holds = emptied-Holds v.holds;
  unmarked = v.unmarked;
  positive = omega arith;
  fits = omega arith;
}

unmarked-take_overload : (q : MessageQueue) → q.overload ≡ 0 → take_overload q ≡ (0, q)
unfolding take_overload
unmarked-take_overload q e = let z : (q.overload == 0) ≡ true = ground (arith, e) in rw z refl

abbrev pub more_messages : Context → ℕ → Context
more_messages c k = record c { message_count = c.message_count + k }

if-true : {A : Type 0} (b : Bool) (x y : A) → b ≡ true → (if b then x else y) ≡ x
if-true b x y e = rw e

-- An initialised service with a callback has it called with the message's type and size, taken apart.
pub dispatch_message_lem :
    (cb : Callback) (n : Node) (ctx : ℕ) (m : Message)
    → (n.contexts ctx).is_init ≡ true
    → (n.contexts ctx).has_cb ≡ true
    → dispatch_message cb n ctx m ≡ (
        cb (count_call n ctx) ctx (call_of m) >>= λ r.
        some (if r.0 then [] else m.msg_data ∷ [], r.1))
unfolding dispatch_message
dispatch_message_lem cb n ctx m i c =
    if-true ((n.contexts ctx).is_init && (n.contexts ctx).has_cb) _ _ (rw (i, c))

handle_message-quiet :
    (cb : Callback) (keep : Call → Bool) (n : Node) (ctx q : ℕ) (m : Message) (ms : List Message)
    → IsQuiet cb ctx q keep
    → (n.contexts ctx).is_init ≡ true
    → (n.contexts ctx).has_cb ≡ true
    → IsCalm (n.world.mqs q) ms
    → (n' : Node) × (handle_message cb n ctx q (some m)
        ≡ some (if keep (call_of m) then [] else m.msg_data ∷ [], n'))
      × IsCalm (n'.world.mqs q) ms
      × (n'.contexts ctx ≡ more_messages (n.contexts ctx) 1)
unfolding handle_message
handle_message-quiet cb keep n ctx q m ms quiet i c h =
    let t = unmarked-take_overload (n.world.mqs q) h.unmarked in
    let seen = with_mq n q (n.world.mqs q) in
    let n1 = count_call seen ctx in
    let (n', e, w, s) = quiet n1 (call_of m) in
    (
      n',
      rw (handle_message, t)
          (if-true (n.contexts ctx).has_cb _ _ c
            ∙ dispatch_message_lem cb seen ctx m i c
            ∙ ap (λ o. o >>= λ r. some (if r.0 then [] else m.msg_data ∷ [], r.1)) e),
      subst (λ x. IsCalm x ms) (sym (w ∙ update_self n.world.mqs q _)) h,
      s ∙ update_self n.contexts ctx _,
    )

rounds_none : (cb : Callback) (n : Node) (ctx q : ℕ) → rounds cb 0 n ctx q ≡ some (false, [], n)
unfolding rounds
rounds_none cb n ctx q = refl

rounds-empty :
    (cb : Callback) (k : ℕ) (n : Node) (ctx q : ℕ) (mq : MessageQueue)
    → mq_pop (n.world.mqs q) ≡ (1, none, mq)
    → rounds cb (suc k) n ctx q ≡ some (true, [], with_mq n q mq)
unfolding rounds
rounds-empty cb k n ctx q mq p = rw p

rounds-more :
    (cb : Callback) (k : ℕ) (n : Node) (ctx q : ℕ) (m : Message) (mq : MessageQueue) (f g : List ℕ)
    (n1 n2 : Node) (b : Bool)
    → mq_pop (n.world.mqs q) ≡ (0, some m, mq)
    → handle_message cb (with_mq n q mq) ctx q (some m) ≡ some (f, n1)
    → rounds cb k n1 ctx q ≡ some (b, g, n2)
    → rounds cb (suc k) n ctx q ≡ some (b, f ++ g, n2)
unfolding rounds
rounds-more cb k n ctx q m mq f g n1 n2 b p h r = rw (p, h, r)

-- A worker's rounds at a calm queue that holds `ms`, for an initialised service with a quiet callback: it handles the first messages, one in each round, in order, frees the data of those that
-- the callback does not keep, and leaves the others in the queue; it finds the queue empty when there
-- are fewer messages than rounds. Each message is counted once.
pub rounds_lem :
    (cb : Callback) (keep : Call → Bool) (k : ℕ) (n : Node) (ctx q : ℕ) (ms : List Message)
    → IsQuiet cb ctx q keep
    → (n.contexts ctx).is_init ≡ true
    → (n.contexts ctx).has_cb ≡ true
    → IsCalm (n.world.mqs q) ms
    → (n' : Node) × (rounds cb k n ctx q ≡ some (ltb (length ms) k, released keep (take k ms), n'))
      × IsCalm (n'.world.mqs q) (drop k ms)
      × (n'.contexts ctx ≡ more_messages (n.contexts ctx) (length (take k ms)))
unfolding released
rounds_lem cb keep zero n ctx q ms quiet i c h =
    let z : ltb (length ms) 0 ≡ false = ground arith in
    let same : n.contexts ctx ≡ more_messages (n.contexts ctx) 0 =
      ap (λ x. record (n.contexts ctx) { message_count = x }) (omega arith) in
    (n, rw z (rounds_none cb n ctx q), h, same)
rounds_lem cb keep (suc k) n ctx q [] quiet i c h =
    let same : n.contexts ctx ≡ more_messages (n.contexts ctx) 0 =
      ap (λ x. record (n.contexts ctx) { message_count = x }) (omega arith) in
    let z : ltb 0 (suc k) ≡ true = ground arith in
    (
      with_mq n q (record (n.world.mqs q) { overload_threshold = mq_overload; in_global = 0 }),
      rw z (rounds-empty cb k n ctx q _ (mq_pop-Holds_nil h.holds)),
      rw (update_self n.world.mqs q _) (emptied-IsCalm _ h),
      same,
    )
rounds_lem cb keep (suc k) n ctx q (m ∷ ms) quiet i c h =
    let (p, left) = pop-IsCalm m ms (n.world.mqs q) h in
    let popped = with_mq n q (pop_message (n.world.mqs q)) in
    let (n1, e, h1, s1) =
      handle_message-quiet cb keep popped ctx q m ms quiet i c
        (rw (update_self n.world.mqs q _) left) in
    let (n2, r, h2, s2) = rounds_lem cb keep k n1 ctx q ms quiet (rw s1 i) (rw s1 c) h1 in
    let z : ltb (suc (length ms)) (suc k) ≡ ltb (length ms) k = ground arith in
    (
      n2,
      rw z (rounds-more cb k n ctx q m _ _ _ n1 n2 _ p e r),
      h2,
      s2
          ∙ ap (λ x. more_messages x (length (take k ms))) s1
          ∙ ap (λ x. record (n.contexts ctx) { message_count = x }) (omega arith),
    )
