-- ===== src/Server/Harbor.antt =====
-- skynet-src/skynet_harbor.c: the harbor service, which stands for the other nodes.
use ue4_background.Server.{
  context_dec, Context, context_release, Node, context_grab, message_isremote,
}
use ue4_background.Server.Refs.{update_back, with_ref, release_alive}
use ue4_background.Prelude.{
  ℕ, ◌+◌, ◌-◌, ◌*◌, ◌/◌, ◌%◌, ◌^◌, ◌<◌, ◌≡◌, ap, ap₂, ◌∙◌, false, not, ◌&&◌, Option, some, arith,
  ◌==◌, if◌then◌else◌, update_self, ◌>>=◌,
}

-- `skynet_context_reserve`
unfoldable pub context_reserve : Node → ℕ → Node
unfolding context_grab
context_reserve n ctx = let n' = context_grab n ctx in record n' { total = context_dec n'.total }

-- `skynet_harbor_init`
unfoldable pub harbor_init : Node → ℕ → Node
harbor_init n harbor = record n { harbor = harbor * 2 ^ 24 % 2 ^ 32 }

-- `skynet_harbor_start`
unfoldable pub harbor_start : Node → ℕ → Node
unfolding context_reserve
harbor_start n ctx = record (context_reserve n ctx) { remote = ctx }

-- `skynet_harbor_exit`
unfoldable pub harbor_exit : Node → Option Node
harbor_exit n =
    if n.remote == 0
    then some (record n { remote = 0 })
    else (context_release (record n { remote = 0 }) n.remote >>= λ r. some r.1)

-- After `skynet_harbor_init` the handles of this node are those with its harbor in their high byte; those
-- with 0 there are also not remote, and all others are.
pub message_isremote-harbor_init :
    (n : Node) (harbor handle : ℕ)
    → harbor < 256
    → handle < 2 ^ 32
    → message_isremote (harbor_init n harbor) handle
      ≡ (not (handle / 2 ^ 24 == harbor) && not (handle / 2 ^ 24 == 0))
unfolding message_isremote harbor_init
message_isremote-harbor_init n harbor handle h l =
    let a : (handle / 2 ^ 24 * 2 ^ 24 == harbor * 2 ^ 24 % 2 ^ 32) ≡ (handle / 2 ^ 24 == harbor) =
      ground arith in
    let b : (handle / 2 ^ 24 * 2 ^ 24 == 0) ≡ (handle / 2 ^ 24 == 0) = ground arith in
    ap₂ (λ x y. not x && not y) a b

-- A service that is started as the harbor and then taken off by `skynet_harbor_exit` is referenced as
-- often as before; it stays uncounted in the number of services.
pub harbor_exit-harbor_start :
    (n : Node) (ctx : ℕ)
    → 0 < ctx
    → 0 < (n.contexts ctx).ref
    → harbor_exit (harbor_start n ctx) ≡ some (record n { remote = 0; total = context_dec n.total })
unfolding harbor_exit harbor_start context_grab
harbor_exit-harbor_start n ctx p r =
    let c = n.contexts ctx in
    let started = record (harbor_start n ctx) { remote = 0 } in
    let z : (ctx == 0) ≡ false = ground arith in
    let at_ctx : started.contexts ctx ≡ record c { ref = c.ref + 1 } =
      update_self n.contexts ctx _ in
    let released = release_alive started ctx (omega (arith, ap (λ (x : Context). x.ref) at_ctx)) in
    let one_less : c.ref + 1 - 1 ≡ c.ref = omega arith in
    let back : (with_ref started ctx ((started.contexts ctx).ref - 1)).contexts ≡ n.contexts =
      update_back n.contexts ctx (record c { ref = c.ref + 1 }) _
        (ap (λ (x : Context). record x { ref = x.ref - 1 }) at_ctx
          ∙ ap (λ k. record c { ref = k }) one_less) in
    rw (z, released)
      (ap (λ f. some (record n { contexts = f; remote = 0; total = context_dec n.total })) back)
