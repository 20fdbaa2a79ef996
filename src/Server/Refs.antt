-- ===== src/Server/Refs.antt =====
-- The reference counts: a message is pushed and the count is as before; the last release deletes.
use ue4_background.Server.{
  logger_name, context_dec, skynet_error, delete_context, set_context, Context, Node, context_grab,
  context_push, context_release, handle_of,
}
use ue4_background.Handle.Names.{findname}
use ue4_background.Mq.Schedule.{mark_release, World, mq_push}
use mathlib.Core.Path.{fun_ext}
use ue4_background.Handle.Table.{grab}
use ue4_background.Mq.{Message}
use ue4_background.Prelude.{
  ℕ, zero, suc, ◌+◌, ◌-◌, ◌<◌, ◌≡◌, refl, sym, ap, subst, ◌∙◌, ◌⊎◌, inl, inr, true, false, Option,
  none, some, ◌∷◌, arith, ◌==◌, ==_iff, ==_refl, Bool-cases, Option-cases, update, update_self,
  ◌>>=◌,
}

pub update_back :
    (f : ℕ → Context) (a : ℕ) (c d : Context) → d ≡ f a → update (update f a c) a d ≡ f
update_back f a c d e = fun_ext λ b. elim (Bool-cases (b == a)) [
  | inl y ↦ let q : b ≡ a = (==_iff b a).0 y in rw (q, ==_refl a) e
  | inr n ↦ rw n
]

-- A push to a service that the handles know, if it has a reference and its queue takes the push,
-- reaches this queue and nothing else: the service is referenced as often as before. Without such a service nothing is done.
pub context_push_lem :
    (n : Node) (handle : ℕ) (message : Message)
    → ((grab (handle_of n) n.storage handle ≡ none)
        × (context_push n handle message ≡ some (false, n)))
      ⊎ ((ctx : ℕ) × (grab (handle_of n) n.storage handle ≡ some ctx)
          × ((w : World)
              → mq_push n.world (n.contexts ctx).queue message ≡ some w
              → 0 < (n.contexts ctx).ref
              → context_push n handle message ≡ some (true, record n { world = w })))
unfolding context_push context_grab context_release
context_push_lem n handle message = elim (Option-cases (grab (handle_of n) n.storage handle)) [
  | inl e ↦ inl (e, rw (context_push, e))
  | inr (ctx, e) ↦ inr (
    ctx,
    e,
    λ w p r.
        let c = n.contexts ctx in
        let grabbed : Context = record c { ref = c.ref + 1 } in
        let at_ctx : update n.contexts ctx grabbed ctx ≡ grabbed =
          update_self n.contexts ctx grabbed in
        let many : (c.ref + 1 == 1) ≡ false = ground arith in
        let one_less : c.ref + 1 - 1 ≡ c.ref = omega arith in
        let back : update (update n.contexts ctx grabbed) ctx
              (record grabbed { ref = c.ref + 1 - 1 })
            ≡ n.contexts =
          update_back n.contexts ctx grabbed (record grabbed { ref = c.ref + 1 - 1 })
            (ap (λ k. record c { ref = k }) one_less) in
        rw (context_push, e, at_ctx, p, many, back),
  )
]

pub update-update :
    (f : ℕ → Context) (a : ℕ) (c d : Context) → update (update f a c) a d ≡ update f a d
update-update f a c d = fun_ext λ b. ground arith

-- A number of releases, one after the other.
unfoldable pub releases : ℕ → Node → ℕ → Option Node
releases zero n ctx = some n
releases (suc k) n ctx = context_release n ctx >>= λ r. releases k r.1 ctx

-- The service with the count that `k` releases leave.
abbrev pub with_ref : Node → ℕ → ℕ → Node
with_ref n ctx k = set_context n ctx (record (n.contexts ctx) { ref = k })

pub release_alive :
    (n : Node) (ctx : ℕ)
    → 1 < (n.contexts ctx).ref
    → context_release n ctx ≡ some (true, with_ref n ctx ((n.contexts ctx).ref - 1))
unfolding context_release
release_alive n ctx h =
    let y : ((n.contexts ctx).ref == 1) ≡ false = ground arith in rw (context_release, y)

releases_alive :
    (k : ℕ) (n : Node) (ctx : ℕ)
    → k < (n.contexts ctx).ref
    → releases k n ctx ≡ some (with_ref n ctx ((n.contexts ctx).ref - k))
unfolding releases
releases_alive zero n ctx h =
    let c = n.contexts ctx in
    let e : c.ref - 0 ≡ c.ref = omega arith in
    let f : update n.contexts ctx (record c { ref = c.ref - 0 }) ≡ n.contexts = fun_ext λ b.
      elim (Bool-cases (b == ctx)) [
        | inl y ↦
            let q : b ≡ ctx = (==_iff b ctx).0 y in
            rw (q, ==_refl ctx) (ap (λ u. record c { ref = u }) e)
        | inr y ↦ rw y
      ] in
    rw f
releases_alive (suc k) n ctx h =
    let c = n.contexts ctx in
    let n' = with_ref n ctx (c.ref - 1) in
    let at_ctx : n'.contexts ctx ≡ record c { ref = c.ref - 1 } = update_self n.contexts ctx _ in
    let ih = releases_alive k n' ctx (omega (arith, ap (λ u. u.ref) at_ctx)) in
    let m : c.ref - 1 - k ≡ c.ref - suc k = omega arith in
    rw (release_alive n ctx (omega arith)) (ih ∙ rw (at_ctx, update-update, m))

pub release_last :
    (n : Node) (ctx : ℕ) (w : World)
    → (n.contexts ctx).ref ≡ 1
    → mark_release n.world (n.contexts ctx).queue ≡ some w
    → context_release n ctx
      ≡ some (
        false,
        record (with_ref n ctx 0) {
          world = w;
          total = context_dec n.total;
          unloaded = ctx ∷ n.unloaded;
        },
      )
unfolding context_release delete_context
release_last n ctx w e m =
    let c = n.contexts ctx in
    let y : (c.ref == 1) ≡ true = ground arith in
    let z : c.ref - 1 ≡ 0 = omega arith in
    let at_ctx : update n.contexts ctx (record c { ref = c.ref - 1 }) ctx
        ≡ record c { ref = c.ref - 1 } =
      update_self n.contexts ctx _ in
    rw (context_release, y, delete_context, at_ctx, m, z)

releases_all :
    (k : ℕ) (n : Node) (ctx : ℕ) (w : World)
    → (n.contexts ctx).ref ≡ suc k
    → mark_release n.world (n.contexts ctx).queue ≡ some w
    → releases (suc k) n ctx
      ≡ some (record (with_ref n ctx 0) {
        world = w;
        total = context_dec n.total;
        unloaded = ctx ∷ n.unloaded;
      })
unfolding releases
releases_all zero n ctx w e m = rw (release_last n ctx w e m)
releases_all (suc k) n ctx w e m =
    let c = n.contexts ctx in
    let n' = with_ref n ctx (c.ref - 1) in
    let at_ctx : n'.contexts ctx ≡ record c { ref = c.ref - 1 } = update_self n.contexts ctx _ in
    let q : (n'.contexts ctx).queue ≡ c.queue = ap (λ u. u.queue) at_ctx in
    let ih = releases_all k n' ctx w (omega (arith, ap (λ u. u.ref) at_ctx)) (rw q m) in
    rw (release_alive n ctx (omega arith)) (ih ∙ rw (at_ctx, update-update))

-- For a service with a reference and a queue that can be marked, as many releases as there are references
-- delete it: the instance of its module is released and its queue is marked for release, once, and the
-- total, an int of 32 bits, is one less. Fewer releases only lower the count.
pub releases_lem :
    (n : Node) (ctx : ℕ) (w : World)
    → 0 < (n.contexts ctx).ref
    → mark_release n.world (n.contexts ctx).queue ≡ some w
    → ((k : ℕ)
        → k < (n.contexts ctx).ref
        → releases k n ctx ≡ some (with_ref n ctx ((n.contexts ctx).ref - k)))
      × (releases (n.contexts ctx).ref n ctx
          ≡ some (record (with_ref n ctx 0) {
            world = w;
            total = context_dec n.total;
            unloaded = ctx ∷ n.unloaded;
          }))
releases_lem n ctx w p m =
    let r = (n.contexts ctx).ref in
    let e : r ≡ suc (r - 1) = omega arith in
    (
      λ k h. releases_alive k n ctx h,
      subst
          (λ z.
            releases z n ctx
            ≡ some (record (with_ref n ctx 0) {
              world = w;
              total = context_dec n.total;
              unloaded = ctx ∷ n.unloaded;
            }))
          (sym e) (releases_all (r - 1) n ctx w e m),
    )

-- While nobody is called logger, nothing is logged.
pub skynet_error-silent :
    (n : Node) (context : ℕ)
    → n.logger ≡ 0
    → findname n.storage.name logger_name ≡ 0
    → skynet_error n context ≡ some n
unfolding skynet_error
skynet_error-silent n context e f =
    let a : (n.logger == 0) ≡ true = ground (arith, e) in
    let b : (findname n.storage.name logger_name == 0) ≡ true = ground (arith, f) in
    rw (skynet_error, a, b) refl
