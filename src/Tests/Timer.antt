-- ===== src/Tests/Timer.antt =====
-- skynet-src/skynet_timer.c at work.
use ue4_background.Timer.{
  find_shift, find_level, shift_list, add_nodes, move_list, place, add_node, timer_shift,
  timer_create_timer, timer_execute, Timer, ticks, timer_add, timer_update, updatetime,
}
use ue4_background.Timer.Wheel.{timer_update_refines, timer_add_refines}
use ue4_background.Timer.Due.{next_time, pending, IsLater, IsWheel}
use ue4_background.Timer.Ticks.{
  ticks_refines, timer_create_timer-IsWheel, updatetime_refines, gather,
}
use ue4_background.Prelude.{
  ℕ, ◌+◌, ◌-◌, ◌%◌, ◌^◌, ◌<◌, ◌≡◌, refl, ◌≢◌, [], ◌∷◌, ◌++◌, arith, ◌==◌, if◌then◌else◌,
}

abbrev added : Timer
added = timer_add timer_create_timer 7 1 300

added-IsWheel : IsWheel added
added-IsWheel =
    (timer_add_refines timer_create_timer 7 1 300 timer_create_timer-IsWheel.0 (omega arith)
      (omega arith)).0

timer_add_refines_example :
    let T' = timer_add timer_create_timer 7 1 300 in
    IsWheel T'
    × (T'.time ≡ timer_create_timer.time)
    × ((e : ℕ)
        → pending T' e
          ≡ pending timer_create_timer e
            ++ (if (300 + timer_create_timer.time) % 2 ^ 32 == e
                then record {
                  expire = (300 + timer_create_timer.time) % 2 ^ 32;
                  handle = 7;
                  session = 1;
                }
                  ∷ []
                else []))
timer_add_refines_example =
    timer_add_refines timer_create_timer 7 1 300 timer_create_timer-IsWheel.0 (omega arith)
      (omega arith)

timer_update_refines_example :
    let (fired, T') = timer_update added in
    (fired ≡ pending added (next_time added))
    × IsWheel T'
    × (T'.time ≡ next_time added)
    × ((e : ℕ) → IsLater added.time e → e ≢ next_time added → pending T' e ≡ pending added e)
timer_update_refines_example = timer_update_refines added added-IsWheel

ticks_refines_example :
    let (fired, T') = ticks 300 added in
    (fired ≡ gather 300 added.time (pending added))
    × IsWheel T'
    × (T'.time ≡ (added.time + 300) % 2 ^ 32)
    × ((e : ℕ)
        → IsLater added.time e
        → 300 < (e + 2 ^ 32 - added.time) % 2 ^ 32
        → pending T' e ≡ pending added e)
ticks_refines_example = ticks_refines 300 added added-IsWheel (omega arith)

updatetime_refines_example :
    ((updatetime added 300).0 ≡ gather (300 - added.current_point) added.time (pending added))
    × IsWheel (updatetime added 300).1
    × ((updatetime added 300).1.time ≡ (added.time + (300 - added.current_point)) % 2 ^ 32)
    × ((updatetime added 300).1.current_point ≡ 300)
    × ((updatetime added 300).1.current ≡ (added.current + (300 - added.current_point)) % 2 ^ 64)
unfolding timer_add add_node timer_create_timer
updatetime_refines_example = updatetime_refines added 300 added-IsWheel (omega arith) (omega arith)

-- A timeout of 300 is moved from the outer wheel to the inner one, and fires at the tick 300.
fires_at_300 :
    ((ticks 299 added).0 ≡ [])
    × ((ticks 300 added).0 ≡ record { expire = 300; handle = 7; session = 1 } ∷ [])
unfolding ticks timer_update timer_execute timer_shift timer_add add_node place timer_create_timer
    move_list add_nodes shift_list find_level find_shift
fires_at_300 = (refl, refl)
