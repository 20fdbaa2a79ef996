-- ===== src/Tests/Create.antt =====
-- `skynet_context_new` of skynet-src/skynet_server.c at work.
use ue4_background.Handle.Names.{findname, bisect}
use ue4_background.Server.{skynet_error, handle_of, set_context, Node}
use ue4_background.Mq.Global.Linked.{mq_init-IsQueued, IsQueued}
use ue4_background.Server.Create.Fail.{context_new-fail}
use ue4_background.Server.Create.Launch.{context_new-launch}
use ue4_background.Server.Create.{allocated, fresh_context, context_new, Init}
use ue4_background.Handle.Table.{grab}
use ue4_background.Tests.Server.{node}
use ue4_background.Handle.Table.Stored.{IsAbsent}
use ue4_background.Handle.Table.Probe.{IsTable}
use ue4_background.Prelude.{
  ℕ, zero, suc, ◌%◌, ◌<◌, ◌≡◌, refl, ◌≢◌, true, false, some, [], ◌∷◌, arith, get_or, ◌>>=◌,
}

abbrev starts : Init
starts m ctx = some (true, set_context m ctx (record (m.contexts ctx) { has_cb = true }))

abbrev fails : Init
fails m ctx = some (false, m)

allocated-IsTable : IsTable (handle_of (allocated node 200 60)) node.storage
allocated-IsTable = record {
  size = refl;
  some_slot = omega arith;
  index = omega arith;
  home = homes;
}
  where
    homes :
        (i : ℕ)
        → i < 4
        → get_or node.storage.slot i 0 ≢ 0
        → handle_of (allocated node 200 60) (get_or node.storage.slot i 0) % 4 ≡ i
    homes zero l ne = absurd (ne refl)
    homes (suc zero) l ne = refl
    homes (suc (suc zero)) l ne = absurd (ne refl)
    homes (suc (suc (suc zero))) l ne = absurd (ne refl)
    homes (suc (suc (suc (suc i)))) l ne = absurd (omega arith)

two_hundred-IsAbsent : IsAbsent node.storage 200
two_hundred-IsAbsent zero e = absurd (omega arith)
two_hundred-IsAbsent (suc zero) e = absurd (omega arith)
two_hundred-IsAbsent (suc (suc zero)) e = absurd (omega arith)
two_hundred-IsAbsent (suc (suc (suc zero))) e = absurd (omega arith)
two_hundred-IsAbsent (suc (suc (suc (suc i)))) e = absurd (omega arith)

context_new-launch_example :
    (r : ℕ) × (n' : Node) × (context_new starts (λ _. 11) true node 200 60
      ≡ (skynet_error n' 200 >>= λ m. some (200, [], m)))
    × (n'.contexts 200
        ≡ record (fresh_context 60) { handle = r; ref = 1; is_init = true; has_cb = true })
    × (grab (handle_of n') n'.storage r ≡ some 200)
    × ((x : ℕ)
        → x ≢ r
        → grab (handle_of n') n'.storage x
          ≡ grab (handle_of (allocated node 200 60)) node.storage x)
    × IsQueued n'.world.global (60 ∷ [])
    × (n'.total ≡ 2)
context_new-launch_example =
    context_new-launch starts (λ _. 11) node 200 60 [] (λ m. refl) allocated-IsTable (omega arith)
      two_hundred-IsAbsent (omega arith) (omega arith) mq_init-IsQueued (omega arith) refl

context_new-fail_example :
    (n' : Node) × (context_new fails (λ _. 11) true node 200 60 ≡ some (0, [], n'))
    × ((x : ℕ)
        → grab (handle_of n') n'.storage x
          ≡ grab (handle_of (allocated node 200 60)) node.storage x)
    × (n'.world.live 60 ≡ false)
    × IsQueued n'.world.global []
    × (n'.total ≡ 1)
    × (n'.unloaded ≡ 200 ∷ [])
unfolding findname bisect
context_new-fail_example =
    context_new-fail fails (λ _. 11) node 200 60 [] (λ m. refl) allocated-IsTable tt (omega arith)
      two_hundred-IsAbsent (omega arith) (omega arith) mq_init-IsQueued refl refl refl (omega arith)
