-- ===== src/Server/Monitor.antt =====
-- skynet-src/skynet_monitor.c: the monitor of one worker, and the thread that looks at it from time to
-- time. The log is left out.
use ue4_background.Server.Refs.{update-update, with_ref, release_alive}
use ue4_background.Server.{Context, handle_of, context_grab, set_context, Node, context_endless}
use ue4_background.Handle.Table.{grab}
use ue4_background.Prelude.{
  ℕ, suc, ◌+◌, ◌-◌, ◌%◌, ◌^◌, ◌<◌, ◌≡◌, refl, ap, ◌∙◌, ◌≢◌, true, false, Option, some, List, [],
  ◌∷◌, arith, ◌==◌, if◌then◌else◌, length, update, update_self, ◌>>=◌,
}

-- `struct skynet_monitor`
pub record Monitor : Type 0 where
  pub version : ℕ
  pub check_version : ℕ
  pub source : ℕ
  pub destination : ℕ

-- `skynet_monitor_new`
unfoldable pub monitor_new : Monitor
monitor_new = record { version = 0; check_version = 0; source = 0; destination = 0 }

-- `skynet_monitor_trigger`; the version is an int that comes round.
unfoldable pub monitor_trigger : Monitor → (source destination : ℕ) → Monitor
monitor_trigger sm source destination = record sm {
  version = (sm.version + 1) % 2 ^ 32;
  source = source;
  destination = destination;
}

-- `skynet_monitor_check`
unfoldable pub monitor_check : Monitor → Node → Option (Monitor × Node)
monitor_check sm n =
    if sm.version == sm.check_version
    then if sm.destination == 0
      then some (sm, n)
      else (context_endless n sm.destination >>= λ n'. some (sm, n'))
    else some (record sm { check_version = sm.version }, n)

-- Calls of `skynet_monitor_trigger`, one behind the other.
unfoldable pub triggers : Monitor → List (ℕ × ℕ) → Monitor
triggers sm [] = sm
triggers sm (t ∷ ts) = triggers (monitor_trigger sm t.0 t.1) ts

version-triggers :
    (sm : Monitor) (ts : List (ℕ × ℕ))
    → sm.version < 2 ^ 32
    → ((triggers sm ts).version ≡ (sm.version + length ts) % 2 ^ 32)
      × ((triggers sm ts).check_version ≡ sm.check_version)
unfolding triggers monitor_trigger
version-triggers sm [] h = (omega arith, refl)
version-triggers sm (t ∷ ts) h =
    let (v, c) = version-triggers (monitor_trigger sm t.0 t.1) ts (omega arith) in
    (omega (arith, v), c)

-- The service with the `endless` mark.
abbrev pub marked_endless : Node → ℕ → Node
marked_endless n ctx = set_context n ctx (record (n.contexts ctx) { endless = true })

context_endless_lem :
    (n : Node) (handle ctx : ℕ)
    → grab (handle_of n) n.storage handle ≡ some ctx
    → 0 < (n.contexts ctx).ref
    → context_endless n handle ≡ some (marked_endless n ctx)
unfolding context_endless context_grab
context_endless_lem n handle ctx e r =
    let c = n.contexts ctx in
    let grabbed : Context = record c { ref = c.ref + 1 } in
    let n1 = marked_endless (context_grab n ctx) ctx in
    let seen : update n.contexts ctx grabbed ctx ≡ grabbed = update_self n.contexts ctx grabbed in
    let at_ctx : n1.contexts ctx ≡ record grabbed { endless = true } =
      update_self (context_grab n ctx).contexts ctx _
      ∙ ap (λ (x : Context). record x { endless = true }) seen in
    let released = release_alive n1 ctx (omega (arith, ap (λ (x : Context). x.ref) at_ctx)) in
    let one_less : c.ref + 1 - 1 ≡ c.ref = omega arith in
    let back : with_ref n1 ctx ((n1.contexts ctx).ref - 1) ≡ marked_endless n ctx =
      rw (at_ctx, update-update, update-update, one_less) in
    rw (context_endless, e, released) (ap some back)

check_still :
    (sm : Monitor) (n : Node) (ctx : ℕ)
    → sm.check_version ≡ sm.version
    → sm.destination ≢ 0
    → context_endless n sm.destination ≡ some (marked_endless n ctx)
    → monitor_check sm n ≡ some (sm, marked_endless n ctx)
unfolding monitor_check
check_still sm n ctx c d e =
    let y : (sm.version == sm.check_version) ≡ true = ground arith in
    let z : (sm.destination == 0) ≡ false = ground arith in rw (y, z, e)

check_moved :
    (sm : Monitor) (n : Node)
    → sm.check_version ≢ sm.version
    → monitor_check sm n ≡ some (record sm { check_version = sm.version }, n)
unfolding monitor_check
check_moved sm n c = let y : (sm.version == sm.check_version) ≡ false = ground arith in rw y

triggers_none : (sm : Monitor) → triggers sm [] ≡ sm
unfolding triggers
triggers_none sm = refl

-- A worker at a message for a service that the handles know and that has a reference was just looked at. It
-- makes fewer than 2 ^ 32 calls of `skynet_monitor_trigger`, and is then looked at again. If it made
-- none, just this service is marked as endless, and no reference is gained or lost. If it made any,
-- nothing is marked, and the next look compares with the present version.
pub monitor_check_lem :
    (sm : Monitor) (n : Node) (ts : List (ℕ × ℕ)) (ctx : ℕ)
    → sm.version < 2 ^ 32
    → sm.check_version ≡ sm.version
    → length ts < 2 ^ 32
    → sm.destination ≢ 0
    → grab (handle_of n) n.storage sm.destination ≡ some ctx
    → 0 < (n.contexts ctx).ref
    → let after = triggers sm ts in
      monitor_check after n ≡ (
        if length ts == 0
        then some (sm, marked_endless n ctx)
        else some (record after { check_version = after.version }, n))
monitor_check_lem sm n [] ctx v c l d g r =
    ap (λ m. monitor_check m n) (triggers_none sm)
    ∙ check_still sm n ctx c d (context_endless_lem n sm.destination ctx g r)
monitor_check_lem sm n (t ∷ ts) ctx v c l d g r =
    let (p, q) = version-triggers sm (t ∷ ts) v in
    let k : length (t ∷ ts) ≡ suc (length ts) = refl in
    let z : (suc (length ts) == 0) ≡ false = ground arith in
    rw z (check_moved (triggers sm (t ∷ ts)) n (λ e. absurd (omega (arith, p, q, c, e, k))))
