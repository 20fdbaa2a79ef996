-- ===== src/Server/Create/Undo.antt =====
-- skynet-src/skynet_server.c: the steps that take a service back.
use ue4_background.Server.{skynet_error, context_release, handle_retire, Context, handle_of, Node}
use ue4_background.Handle.Table.{retire, rehash, handle_mask, probe, HandleStorage, register}
use ue4_background.Server.Create.{fail_launch}
use ue4_background.Mq.Schedule.{drop_messages, World, mark_release, mq_release}
use ue4_background.Server.Dispatch.{drop_all}
use ue4_background.Mq.{mq_pop, mq_length, create}
use mathlib.Core.Path.{fun_ext}
use ue4_background.Prelude.{
  ℕ, zero, suc, ◌-◌, ◌*◌, ◌≡◌, sym, ap, inl, inr, true, false, Option, some, [], leb, ◌==◌, ==_iff,
  ==_refl, Bool-cases, Option-cases, replicate, update, some_inj,
}

pub register_name :
    (k : ℕ) (f : ℕ → ℕ) (s : HandleStorage) (ctx r : ℕ) (s' : HandleStorage)
    → register k f s ctx ≡ some (r, s')
    → s'.name ≡ s.name
unfolding register
register_name zero f s ctx r s' e = absurd (cc e)
register_name (suc k) f s ctx r s' e =
    elim (Option-cases (probe s.slot_size s.handle_index s.slot_size s.slot)) [
      | inr ((hash, handle), p) ↦
          ap (λ (x : ℕ × HandleStorage). x.1.name) (sym (some_inj (rw (register, p) at e)))
      | inl p ↦ elim (Bool-cases (leb (s.slot_size * 2 - 1) handle_mask)) [
        | inr y ↦ absurd (cc (rw (register, p, y) at e))
        | inl y ↦
            elim (Option-cases
              (rehash f (s.slot_size * 2) s.slot (replicate (s.slot_size * 2) 0))) [
                | inl z ↦ absurd (cc (rw (register, p, y, z) at e))
                | inr (slot, z) ↦ register_name k f _ ctx r s' (rw (register, p, y, z) at e)
              ]
      ]
    ]

-- The world once the empty queue of the service is freed.
abbrev pub gone_world : World → (queue handle : ℕ) → World
gone_world w queue handle = record w {
  mqs = update w.mqs queue (record (create handle) { release = 1 });
  live = update w.live queue false;
}

pub same_handles :
    (f : ℕ → Context) (ctx k : ℕ)
    → ◌≡◌ {A = ℕ → ℕ}
        (λ b. (update f ctx (record (f ctx) { ref = k }) b).handle)
        (λ b. (f b).handle)
same_handles f ctx k = fun_ext λ b. elim (Bool-cases (b == ctx)) [
  | inl y ↦ let q : b ≡ ctx = (==_iff b ctx).0 y in rw (q, ==_refl ctx)
  | inr y ↦ rw y
]

pub marks_fresh :
    (w : World) (queue handle : ℕ)
    → w.mqs queue ≡ create handle
    → mark_release w queue
      ≡ some (record w { mqs = update w.mqs queue (record (create handle) { release = 1 }) })
unfolding mark_release create
marks_fresh w queue handle e = rw e

pub frees_marked :
    (w : World) (queue handle : ℕ)
    → w.mqs queue ≡ record (create handle) { release = 1 }
    → w.global.next queue ≡ 0
    → mq_release w queue ≡ some ([], record w { live = update w.live queue false })
unfolding mq_release create drop_messages mq_length mq_pop
frees_marked w queue handle e z = rw (e, z)

pub retire_steps :
    (m m' : Node) (ctx handle : ℕ) (s : HandleStorage)
    → retire (handle_of m) m.storage handle ≡ (some ctx, s)
    → context_release (record m { storage = s }) ctx ≡ some (false, m')
    → handle_retire m handle ≡ some (true, m')
unfolding handle_retire
retire_steps m m' ctx handle s t c = rw (
  handle_retire,
  ap (λ (x : Option ℕ × HandleStorage). x.0) t,
  ap (λ (x : Option ℕ × HandleStorage). x.1) t,
  c,
)

pub fail_launch_steps :
    (malloc : Node → ℕ) (m m1 m2 : Node) (ctx queue r : ℕ) (w : World)
    → skynet_error m ctx ≡ some m
    → (m.contexts ctx).handle ≡ r
    → context_release m ctx ≡ some (true, m1)
    → handle_retire m1 r ≡ some (true, m2)
    → mq_release m2.world queue ≡ some ([], w)
    → fail_launch malloc m ctx queue ≡ some ([], record m2 { world = w })
unfolding fail_launch drop_all
fail_launch_steps malloc m m1 m2 ctx queue r w l h a b c = rw (l, a, h, b, c)
