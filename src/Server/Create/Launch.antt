-- ===== src/Server/Create/Launch.antt =====
-- skynet-src/skynet_server.c: a service whose init function succeeds.
use ue4_background.Server.{context_inc, skynet_error, handle_of, set_context, Node, Context}
use ue4_background.Handle.Table.{register, HandleStorage, grab, handle_mask}
use ue4_background.Mq.Global.Linked.{globalmq_push-IsQueued, IsQueued}
use ue4_background.Server.Create.{with_handle, fresh_context, allocated, Init, context_new, launch}
use ue4_background.Handle.Table.Register.{register_lem}
use ue4_background.Handle.Table.Stored.{IsAbsent}
use ue4_background.Handle.Table.Probe.{IsTable}
use ue4_background.Mq.Schedule.{mq_create}
use mathlib.Core.Path.{fun_ext}
use ue4_background.Server.Refs.{update-update, release_alive}
use ue4_background.Mq.Global.{globalmq_push, GlobalQueue}
use ue4_background.Prelude.{
  ℕ, ◌+◌, ◌-◌, ◌*◌, ◌%◌, ◌≤◌, ◌<◌, ◌≡◌, refl, ap, subst, ◌∙◌, ◌≢◌, inl, inr, true, Option, none,
  some, List, [], ◌∷◌, ◌++◌, arith, ◌==◌, ==_iff, ==_refl, Bool-cases, update, update_self, count,
  ◌>>=◌,
}

pub handle_of-update :
    (f : ℕ → Context) (ctx : ℕ) (c : Context)
    → (λ (a : ℕ). (update f ctx c a).handle) ≡ update (λ (a : ℕ). (f a).handle) ctx c.handle
handle_of-update f ctx c = fun_ext λ b. elim (Bool-cases (b == ctx)) [ inl y ↦ rw y | inr y ↦ rw y ]

bind_assoc :
    {A B C : Type 0} (o : Option A) (f : A → Option B) (g : B → Option C)
    → ((o >>= f) >>= g) ≡ (o >>= λ a. f a >>= g)
bind_assoc none f g = refl
bind_assoc (some a) f g = refl

launch_lem :
    (n : Node) (ctx queue : ℕ) (g : GlobalQueue)
    → (n.contexts ctx).ref ≡ 2
    → globalmq_push n.world.global queue ≡ some g
    → launch n ctx queue ≡ (
        skynet_error
          (record n {
            contexts = update n.contexts ctx (record (n.contexts ctx) { ref = 1; is_init = true });
            world = record (n.world) { global = g };
          })
          ctx
        >>= λ m. some (ctx, m))
unfolding launch
launch_lem n ctx queue g r p =
    let c = n.contexts ctx in
    let one : c.ref - 1 ≡ 1 = omega arith in
    let less : Context = record c { ref = c.ref - 1 } in
    let at_ctx : update n.contexts ctx less ctx ≡ less = update_self n.contexts ctx less in
    let same =
      ap (λ (x : Context). update (update n.contexts ctx less) ctx (record x { is_init = true }))
        at_ctx
      ∙ update-update n.contexts ctx less (record less { is_init = true })
      ∙ ap (λ k. update n.contexts ctx (record c { ref = k; is_init = true })) one in
    rw (launch, release_alive n ctx (omega (arith, r)), p)
      (ap
        (λ f.
          skynet_error (record n { contexts = f; world = record (n.world) { global = g } }) ctx
          >>= λ m. some (ctx, m))
        same)

pub IsQueued-create :
    (g : GlobalQueue) (xs : List ℕ) (queue : ℕ)
    → IsQueued g xs
    → count queue xs ≡ 0
    → IsQueued (record { head = g.head; tail = g.tail; next = update g.next queue 0 }) xs
IsQueued-create g xs queue v fresh =
    let same : g.next ≡ update g.next queue 0 = fun_ext λ b. elim (Bool-cases (b == queue)) [
      | inl y ↦
          let q : b ≡ queue = (==_iff b queue).0 y in rw (q, ==_refl queue) (v.unlinked queue fresh)
      | inr y ↦ rw y
    ] in
    subst (λ f. IsQueued (record { head = g.head; tail = g.tail; next = f }) xs) same v

context_new-some :
    (init : Init) (malloc : Node → ℕ) (n : Node) (ctx queue r : ℕ) (s' : HandleStorage)
    (n1 n' : Node)
    → register 2 (handle_of (allocated n ctx queue)) n.storage ctx ≡ some (r, s')
    → init (with_handle (allocated n ctx queue) ctx queue r s') ctx ≡ some (true, n1)
    → launch n1 ctx queue ≡ (skynet_error n' ctx >>= λ m. some (ctx, m))
    → context_new init malloc true n ctx queue ≡ (skynet_error n' ctx >>= λ m. some (ctx, [], m))
unfolding context_new
context_new-some init malloc n ctx queue r s' n1 n' e i l =
    rw (e, i, l) (bind_assoc (skynet_error n' ctx) _ _)

-- `skynet_context_new` with an init function that sets the callback and returns 0, while handles are at
-- hand, with new addresses, a table of handles in order and a well-linked global queue: the last thing it does is to log a line, in a node in which the service is initialised, has one reference and is found by
-- a handle of its own; every other handle leads where it led, the queue of the service comes last in the
-- global queue, and the total, an int of 32 bits, is one more. If the logging succeeds it returns the
-- service, and frees no message.
pub context_new-launch :
    (init : Init) (malloc : Node → ℕ) (n : Node) (ctx queue : ℕ) (xs : List ℕ)
    → ((m : Node)
        → init m ctx ≡ some (true, set_context m ctx (record (m.contexts ctx) { has_cb = true })))
    → IsTable (handle_of (allocated n ctx queue)) n.storage
    → ctx ≢ 0
    → IsAbsent n.storage ctx
    → n.storage.handle_index + n.storage.slot_size * 2 ≤ handle_mask + 1
    → n.storage.harbor % (n.storage.slot_size * 2) ≡ 0
    → IsQueued n.world.global xs
    → 0 < queue
    → count queue xs ≡ 0
    → (r : ℕ) × (n' : Node) × (context_new init malloc true n ctx queue
        ≡ (skynet_error n' ctx >>= λ m. some (ctx, [], m)))
      × (n'.contexts ctx
          ≡ record (fresh_context queue) { handle = r; ref = 1; is_init = true; has_cb = true })
      × (grab (handle_of n') n'.storage r ≡ some ctx)
      × ((x : ℕ)
          → x ≢ r
          → grab (handle_of n') n'.storage x ≡ grab (handle_of (allocated n ctx queue)) n.storage x)
      × IsQueued n'.world.global (xs ++ queue ∷ [])
      × (n'.total ≡ context_inc n.total)
unfolding mq_create
context_new-launch init malloc n ctx queue xs starts v nz away room aligned lined pos fresh =
    let n0 = allocated n ctx queue in
    let (r, s', e, reg) = register_lem (handle_of n0) n0.storage ctx v nz away room aligned in
    let m = with_handle n0 ctx queue r s' in
    let n1 = set_context m ctx (record (m.contexts ctx) { has_cb = true }) in
    let (g, p, last) =
      globalmq_push-IsQueued n1.world.global xs queue
        (IsQueued-create n.world.global xs queue lined fresh) pos fresh in
    let at_m : m.contexts ctx ≡ record (fresh_context queue) { handle = r } =
      update_self n0.contexts ctx _ in
    let at_n1 : n1.contexts ctx ≡ record (fresh_context queue) { handle = r; has_cb = true } =
      update_self m.contexts ctx _ ∙ ap (λ (x : Context). record x { has_cb = true }) at_m in
    let final : Context = record (fresh_context queue) {
      handle = r;
      ref = 1;
      is_init = true;
      has_cb = true;
    } in
    let l = launch_lem n1 ctx queue g (ap (λ (x : Context). x.ref) at_n1) p in
    let n' : Node = record n1 {
      contexts = update n0.contexts ctx final;
      world = record (n1.world) { global = g };
    } in
    let same : update n1.contexts ctx (record (n1.contexts ctx) { ref = 1; is_init = true })
        ≡ update n0.contexts ctx final =
      ap (λ (x : Context). update n1.contexts ctx (record x { ref = 1; is_init = true })) at_n1
      ∙ update-update m.contexts ctx (record (m.contexts ctx) { has_cb = true }) final
      ∙ update-update n0.contexts ctx (record (fresh_context queue) { handle = r }) final in
    let handles : handle_of n' ≡ update (handle_of n0) ctx r =
      handle_of-update n0.contexts ctx final in
    (
      r,
      n',
      context_new-some init malloc n ctx queue r s' n1 n' e (starts m) (
          l
          ∙ ap
              (λ f.
                skynet_error (record n1 { contexts = f; world = record (n1.world) { global = g } })
                  ctx
                >>= λ m. some (ctx, m))
              same),
      update_self n0.contexts ctx final,
      rw handles reg.found,
      λ x d. rw handles (reg.others x d),
      last,
      refl,
    )
