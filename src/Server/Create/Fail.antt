-- ===== src/Server/Create/Fail.antt =====
-- skynet-src/skynet_server.c: a service whose init function fails.
use ue4_background.Server.Refs.{
  skynet_error-silent, update-update, release_last, release_alive, with_ref,
}
use ue4_background.Server.{
  context_dec, logger_name, skynet_error, context_release, Context, handle_of, Node,
}
use ue4_background.Handle.Names.{findname}
use ue4_background.Server.Create.Undo.{
  fail_launch_steps, retire_steps, frees_marked, marks_fresh, same_handles, gone_world,
  register_name,
}
use ue4_background.Server.Create.Launch.{IsQueued-create, handle_of-update}
use ue4_background.Handle.Table.Retire.{retire_lem}
use ue4_background.Handle.Table.Register.{register_lem}
use ue4_background.Handle.Table.{grab, retire, handle_mask, HandleStorage, register}
use ue4_background.Mq.Global.Linked.{IsQueued}
use ue4_background.Handle.Table.Stored.{IsAbsent}
use ue4_background.Server.Create.{
  with_handle, allocated, Init, context_new, fresh_context, fail_launch,
}
use ue4_background.Handle.Names.Order.{IsSorted}
use ue4_background.Handle.Table.Probe.{IsTable}
use ue4_background.Mq.Schedule.{mq_create, mark_release}
use ue4_background.Mq.{create}
use ue4_background.Prelude.{
  ℕ, ◌+◌, ◌-◌, ◌*◌, ◌%◌, ◌^◌, ◌≤◌, ◌<◌, ◌≡◌, refl, sym, ap, subst, ◌∙◌, ◌≢◌, inl, inr, true, false,
  some, List, [], ◌∷◌, arith, ◌==◌, ==_iff, Bool-cases, update, update_self, count, some_inj,
}

-- Both references are given back, the handle is retired between, and the queue is freed.
fail_launch_lem :
    (malloc : Node → ℕ) (m : Node) (ctx queue r : ℕ) (s2 : HandleStorage)
    → m.contexts ctx ≡ record (fresh_context queue) { handle = r }
    → retire (handle_of m) m.storage r ≡ (some ctx, s2)
    → m.world.mqs queue ≡ create r
    → m.world.global.next queue ≡ 0
    → skynet_error m ctx ≡ some m
    → fail_launch malloc m ctx queue
      ≡ some (
        [],
        record m {
          contexts = update m.contexts ctx (record (fresh_context queue) { handle = r; ref = 0 });
          storage = s2;
          world = gone_world m.world queue r;
          total = context_dec m.total;
          unloaded = ctx ∷ m.unloaded;
        },
      )
fail_launch_lem malloc m ctx queue r s2 c t q z quiet =
    let m1 = with_ref m ctx ((m.contexts ctx).ref - 1) in
    let first : context_release m ctx ≡ some (true, m1) =
      release_alive m ctx (omega (arith, ap (λ (x : Context). x.ref) c)) in
    let at_m1 : m1.contexts ctx ≡ record (fresh_context queue) { handle = r; ref = 1 } =
      update_self m.contexts ctx _ ∙ ap (λ (x : Context). record x { ref = x.ref - 1 }) c in
    let same : handle_of m1 ≡ handle_of m = same_handles m.contexts ctx _ in
    let m2 = record m1 { storage = s2 } in
    let w1 = record (m.world) {
      mqs = update m.world.mqs queue (record (create r) { release = 1 });
    } in
    let mk : mark_release m2.world (m2.contexts ctx).queue ≡ some w1 =
      ap (λ (x : Context). mark_release m.world x.queue) at_m1 ∙ marks_fresh m.world queue r q in
    let second = release_last m2 ctx w1 (ap (λ (x : Context). x.ref) at_m1) mk in
    let freed = frees_marked w1 queue r (update_self m.world.mqs queue _) z in
    let retired = retire_steps m1 _ ctx r s2 (ap (λ f. retire f m.storage r) same ∙ t) second in
    let done =
      fail_launch_steps malloc m m1 _ ctx queue r _ quiet (ap (λ (x : Context). x.handle) c) first
        retired freed in
    let last : update m1.contexts ctx (record (m1.contexts ctx) { ref = 0 })
        ≡ update m.contexts ctx (record (fresh_context queue) { handle = r; ref = 0 }) =
      ap (λ (x : Context). update m1.contexts ctx (record x { ref = 0 })) at_m1
      ∙ update-update m.contexts ctx (record (m.contexts ctx) { ref = (m.contexts ctx).ref - 1 })
          (record (fresh_context queue) { handle = r; ref = 0 }) in
    done
    ∙ ap
        (λ f. some (
          [],
          record m {
            contexts = f;
            storage = s2;
            world = gone_world m.world queue r;
            total = context_dec m.total;
            unloaded = ctx ∷ m.unloaded;
          },
        ))
        last

context_new-none :
    (init : Init) (malloc : Node → ℕ) (n : Node) (ctx queue r : ℕ) (s' : HandleStorage)
    (n1 n' : Node)
    → register 2 (handle_of (allocated n ctx queue)) n.storage ctx ≡ some (r, s')
    → init (with_handle (allocated n ctx queue) ctx queue r s') ctx ≡ some (false, n1)
    → fail_launch malloc n1 ctx queue ≡ some ([], n')
    → context_new init malloc true n ctx queue ≡ some (0, [], n')
unfolding context_new
context_new-none init malloc n ctx queue r s' n1 n' e i l = rw (e, i, l)

abbrev handle_of_all : (ℕ → Context) → ℕ → ℕ
handle_of_all f a = (f a).handle

-- `skynet_context_new` with an init function that does nothing and returns another number than 0, while
-- handles are at hand, with new addresses, the table of handles and the names in order and a well-linked
-- global queue, while no service has the name logger, so that the failure is not logged: it returns NULL.
-- Every handle leads where it led before, the queue of the service is freed and not in the global queue,
-- no message is dropped, the instance of the module is released, once, and the total is as before.
pub context_new-fail :
    (init : Init) (malloc : Node → ℕ) (n : Node) (ctx queue : ℕ) (xs : List ℕ)
    → ((m : Node) → init m ctx ≡ some (false, m))
    → IsTable (handle_of (allocated n ctx queue)) n.storage
    → IsSorted n.storage.name
    → ctx ≢ 0
    → IsAbsent n.storage ctx
    → n.storage.handle_index + n.storage.slot_size * 2 ≤ handle_mask + 1
    → n.storage.harbor % (n.storage.slot_size * 2) ≡ 0
    → IsQueued n.world.global xs
    → count queue xs ≡ 0
    → n.logger ≡ 0
    → findname n.storage.name logger_name ≡ 0
    → n.total < 2 ^ 32
    → (n' : Node) × (context_new init malloc true n ctx queue ≡ some (0, [], n'))
      × ((x : ℕ)
          → grab (handle_of n') n'.storage x ≡ grab (handle_of (allocated n ctx queue)) n.storage x)
      × (n'.world.live queue ≡ false)
      × IsQueued n'.world.global xs
      × (n'.total ≡ n.total)
      × (n'.unloaded ≡ ctx ∷ n.unloaded)
unfolding mq_create
context_new-fail init malloc n ctx queue xs fails v sorted nz away room aligned lined fresh first
      nobody int =
    let n0 = allocated n ctx queue in
    let (r, s', e, reg) = register_lem (handle_of n0) n0.storage ctx v nz away room aligned in
    let m = with_handle n0 ctx queue r s' in
    let c : m.contexts ctx ≡ record (fresh_context queue) { handle = r } =
      update_self n0.contexts ctx _ in
    let handles : handle_of m ≡ update (handle_of n0) ctx r = handle_of-update n0.contexts ctx _ in
    let same_names = register_name 2 (handle_of n0) n.storage ctx r s' e in
    let names : IsSorted s'.name = subst IsSorted (sym same_names) sorted in
    let quiet =
      skynet_error-silent m ctx first (ap (λ x. findname x logger_name) same_names ∙ nobody) in
    elim (retire_lem (update (handle_of n0) ctx r) s' r reg.table names) [
      | inl (g, t) ↦ absurd (cc (g, reg.found))
      | inr (ctx', s2, g, t, gone) ↦
          let same : ctx' ≡ ctx = some_inj (sym g ∙ reg.found) in
          let t' : retire (handle_of m) m.storage r ≡ (some ctx, s2) =
            ap (λ f. retire f s' r) handles ∙ t ∙ ap (λ x. (some x, s2)) same in
          let done =
            fail_launch_lem malloc m ctx queue r s2 c t' (update_self n.world.mqs queue _)
              (update_self n.world.global.next queue _) quiet in
          let final : Context = record (fresh_context queue) { handle = r; ref = 0 } in
          let left : Node = record m {
            contexts = update m.contexts ctx final;
            storage = s2;
            world = gone_world m.world queue r;
            total = context_dec m.total;
            unloaded = ctx ∷ m.unloaded;
          } in
          let at_end : handle_of left ≡ update (handle_of n0) ctx r =
            ap handle_of_all
              (update-update n0.contexts ctx (record (fresh_context queue) { handle = r }) final)
            ∙ handle_of-update n0.contexts ctx final in
          let back : (x : ℕ)
              → grab (update (handle_of n0) ctx r) s2 x ≡ grab (handle_of n0) n.storage x =
            λ x. elim (Bool-cases (x == r)) [
              | inl y ↦ let q : x ≡ r = (==_iff x r).0 y in rw q (gone.gone ∙ sym reg.fresh)
              | inr y ↦ let d : x ≢ r = ground arith in gone.others x d ∙ reg.others x d
            ] in
          (
            left,
            context_new-none init malloc n ctx queue r s' m left e (fails m) done,
            λ x. rw at_end (back x),
            update_self m.world.live queue false,
            IsQueued-create n.world.global xs queue lined fresh,
            omega (arith, int),
            refl,
          )
    ]
