-- ===== src/Timer.antt =====
-- skynet-src/skynet_timer.c: the hierarchical timing wheel. The lock is held over each call but for
-- the dispatch of a list that is already taken out of the wheel.
pub mod Slot
pub mod Place
pub mod Due
pub mod Shift
pub mod Wheel
pub mod Ticks
use ue4_background.Prelude.{
  ℕ, zero, suc, ◌+◌, ◌-◌, ◌*◌, ◌/◌, ◌%◌, ◌^◌, not, Option, none, some, List, [], ◌∷◌, ◌++◌, ltb,
  ◌==◌, if◌then◌else◌, take, update,
}

-- `struct timer_node` with the `struct timer_event` behind it.
pub record TimerNode : Type 0 where
  pub expire : ℕ
  pub handle : ℕ
  pub session : ℕ

-- `struct timer` without its lock. The lists `near[256]` and `t[4][64]` stand one behind the other, as
-- in the struct: `near[k]` is list `k`, and `t[i][k]` is list `256 + i * 64 + k`.
pub record Timer : Type 0 where
  pub lists : ℕ → List TimerNode
  pub time : ℕ
  pub starttime : ℕ
  pub current : ℕ
  pub current_point : ℕ

abbrev pub time_near : ℕ
time_near = 256

abbrev pub time_level : ℕ
time_level = 64

abbrev pub u32 : ℕ
u32 = 2 ^ 32

abbrev pub t : ℕ → ℕ → ℕ
t i k = time_near + i * time_level + k

-- `x | (m - 1)` for a power of two `m`.
abbrev pub or_low : ℕ → ℕ → ℕ
or_low x m = x / m * m + (m - 1)

-- The loop of `add_node` over `i`, with the rounds left: the level at which two times part.
unfoldable pub find_level : ℕ → ℕ → ℕ → ℕ → ℕ → ℕ
find_level zero time current_time i mask = i
find_level (suc n) time current_time i mask =
    if or_low time mask == or_low current_time mask
    then i
    else find_level n time current_time (i + 1) (mask * 64)

-- The list that `add_node` links a node to.
unfoldable pub place : ℕ → ℕ → ℕ
unfolding find_level
place time current_time =
    let i = find_level 3 time current_time 0 (time_near * 64) in
    if or_low time time_near == or_low current_time time_near
    then time % time_near
    else t i (time / 2 ^ (8 + i * 6) % time_level)

abbrev pub link : (ℕ → List TimerNode) → ℕ → TimerNode → ℕ → List TimerNode
link lists k node = update lists k (lists k ++ node ∷ [])

unfoldable pub add_node : Timer → TimerNode → Timer
add_node T node = record T { lists = link T.lists (place node.expire T.time) node }

-- `timer_add`, for the event of `skynet_timeout`.
unfoldable pub timer_add : Timer → ℕ → ℕ → ℕ → Timer
timer_add T handle session time =
    add_node T (record { expire = (time + T.time) % u32; handle = handle; session = session })

unfoldable pub add_nodes : Timer → List TimerNode → Timer
add_nodes T [] = T
add_nodes T (node ∷ nodes) = add_nodes (add_node T node) nodes

-- `move_list`, of the list `k`.
unfoldable pub move_list : Timer → ℕ → Timer
move_list T k = add_nodes (record T { lists = update T.lists k [] }) (T.lists k)

-- The loop of `timer_shift`, with the rounds left: the list that it moves.
unfoldable pub find_shift : ℕ → ℕ → ℕ → ℕ → ℕ → Option ℕ
find_shift zero ct time mask i = none
find_shift (suc n) ct time mask i =
    let idx = time % time_level in
    let rest = find_shift n ct (time / 64) (mask * 64) (i + 1) in
    if ct % mask == 0 then (if idx == 0 then rest else some (t i idx)) else none

-- The list that `timer_shift` moves when the time becomes `ct`. Four rounds are enough: a time that is
-- a multiple of 2 ^ 32 is 0.
unfoldable pub shift_list : ℕ → Option ℕ
unfolding find_shift
shift_list ct = if ct == 0 then some (t 3 0) else find_shift 4 ct (ct / time_near) time_near 0

abbrev pub moved : Timer → Option ℕ → Timer
moved T none = T
moved T (some k) = move_list T k

unfoldable pub timer_shift : Timer → Timer
unfolding move_list shift_list
timer_shift T = let ct = (T.time + 1) % u32 in moved (record T { time = ct }) (shift_list ct)

-- `timer_execute`: the nodes handed to `dispatch_list`, in order. A round of its loop empties the list,
-- and `timer_add` with a positive delay does not fill it while the lock is released.
unfoldable pub timer_execute : Timer → List TimerNode × Timer
timer_execute T =
    (T.lists (T.time % time_near), record T { lists = update T.lists (T.time % time_near) [] })

unfoldable pub timer_update : Timer → List TimerNode × Timer
timer_update T =
    let (early, T₁) = timer_execute T in
    let (due, T₂) = timer_execute (timer_shift T₁) in (early ++ due, T₂)

-- `timer_create_timer`
unfoldable pub timer_create_timer : Timer
timer_create_timer = record {
  lists = λ _. [];
  time = 0;
  starttime = 0;
  current = 0;
  current_point = 0;
}

unfoldable pub ticks : ℕ → Timer → List TimerNode × Timer
ticks zero T = ([], T)
ticks (suc n) T =
    let (fired, T') = timer_update T in let (later, T'') = ticks n T' in (fired ++ later, T'')

-- `skynet_updatetime` at the monotonic time `cp`, in centiseconds.
unfoldable pub updatetime : Timer → ℕ → List TimerNode × Timer
updatetime T cp =
    let diff = (cp - T.current_point) % u32 in
    if ltb cp T.current_point
    then ([], record T { current_point = cp })
    else if cp == T.current_point
    then ([], T)
    else ticks diff (record T { current_point = cp; current = (T.current + diff) % 2 ^ 64 })
