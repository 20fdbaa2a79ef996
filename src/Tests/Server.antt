-- ===== src/Tests/Server.antt =====
-- skynet-src/skynet_server.c at work.
use ue4_background.Server.{
  context_push, message_isremote, handle_of, set_context, Context, Node, newsession,
}
use ue4_background.Server.Send.{
  send_filtered, filter_args, no_destination, session, send, alloc_session,
}
use ue4_background.Server.Dispatch.{call_of, Call, Callback}
use ue4_background.Server.Dispatch.Turn.{IsCalm, more_messages, released, IsQuiet}
use ue4_background.Server.Monitor.{monitor_check_lem, monitor_check, Monitor, triggers}
use ue4_background.Server.Dispatch.Turns.{turns_lem, turns}
use ue4_background.Server.Send.Delivers.{send_remote, send_delivers, message_of}
use ue4_background.Server.Send.Owner.{holders-send, holders, carried}
use ue4_background.Server.Dispatch.Calls.{call_of-send}
use ue4_background.Mq.Ring.{Holds}
use ue4_background.Mq.{copy_cells, mq_length, push_message, Message, MessageQueue}
use ue4_background.Server.Refs.{releases_lem, with_ref, releases}
use ue4_background.Server.Session.{allocate, nth_session_distinct, nth_session}
use ue4_background.Mq.Global.{mq_init}
use ue4_background.Mq.Schedule.{World, mark_release, mq_push}
use ue4_background.Handle.Table.{grab}
use ue4_background.Prelude.{
  ℕ, ◌+◌, ◌-◌, ◌*◌, ◌%◌, ◌^◌, ◌<◌, ◌≡◌, refl, ◌≢◌, Bool, true, false, none, some, [], ◌∷◌, arith,
  ◌==◌, update,
}

-- A service with handle 1 at address 100, its queue at 50, and room for three more.
abbrev service : Context
service = record {
  queue = 50;
  handle = 1;
  session_id = 2 ^ 31 - 2;
  ref = 2;
  message_count = 0;
  is_init = true;
  endless = false;
  has_cb = true;
}

abbrev waiting : ℕ → Message
waiting a = record { source = 2; session = 0; msg_data = a; sz = 8 + 3 * 2 ^ 56 }

abbrev two_waiting : MessageQueue
two_waiting = record {
  handle = 1;
  cap = 4;
  head = 3;
  tail = 1;
  release = 0;
  in_global = 1;
  overload = 0;
  overload_threshold = 1024;
  queue = some (waiting 6) ∷ none ∷ none ∷ some (waiting 5) ∷ [];
}

abbrev world : World
world = record { mqs = λ _. two_waiting; live = λ _. true; global = mq_init }

abbrev pub node : Node
node = record {
  contexts = λ _. service;
  storage = record {
    harbor = 0;
    handle_index = 2;
    slot_size = 4;
    slot = 0 ∷ 100 ∷ 0 ∷ 0 ∷ [];
    name = [];
  };
  world = world;
  total = 1;
  harbor = 0;
  remote = 100;
  unloaded = [];
  logger = 0;
  lines = λ i. (300 + i, 20);
  logged = 0;
}

nth_session_distinct_example :
    (0 < nth_session 0 service)
    × (nth_session 0 service < 2 ^ 31)
    × (nth_session 0 service ≢ nth_session 1 service)
nth_session_distinct_example =
    nth_session_distinct service 0 1 (omega arith) (omega arith) (omega arith)

-- The session is 2 ^ 31 - 1, and 1 after it.
sessions : (nth_session 0 service ≡ 2 ^ 31 - 1) × (nth_session 1 service ≡ 1)
unfolding newsession allocate
sessions = (refl, refl)

abbrev marked : World
marked = record world { mqs = update world.mqs 50 (record two_waiting { release = 1 }) }

marks : mark_release world 50 ≡ some marked
unfolding mark_release
marks = refl

releases_lem_example :
    ((k : ℕ) → k < 2 → releases k node 100 ≡ some (with_ref node 100 (2 - k)))
    × (releases 2 node 100
        ≡ some (record (with_ref node 100 0) { world = marked; total = 0; unloaded = 100 ∷ [] }))
releases_lem_example = releases_lem node 100 marked (omega arith) marks

-- The data is at address 9, the copy would be at 10.
abbrev pushed : World
pushed = record world {
  mqs = update world.mqs 50 (push_message two_waiting (message_of 1 0x20003 (2 ^ 31 - 1) 9 4 10));
}

pushes : mq_push world 50 (message_of 1 0x20003 (2 ^ 31 - 1) 9 4 10) ≡ some pushed
unfolding mq_push push_message
pushes = refl

abbrev assigned : Node
assigned = set_context node 100 (record service { session_id = 2 ^ 31 - 1 })

assigns : alloc_session node 100 0x20003 0 ≡ some (2 ^ 31 - 1, assigned)
unfolding alloc_session newsession
assigns = refl

finds : grab (handle_of assigned) assigned.storage 1 ≡ some 100
unfolding grab
finds = refl

send_delivers_example :
    send node 100 0 1 0x20003 0 9 4 10 11
    ≡ some (record {
      result = session (2 ^ 31 - 1);
      freed = [];
      pushed = message_of 1 0x20003 (2 ^ 31 - 1) 9 4 10 ∷ [];
      remotes = [];
      node = record assigned { world = pushed };
    })
unfolding carried message_isremote
send_delivers_example =
    send_delivers node 100 0 1 0x20003 0 9 4 10 11 (2 ^ 31 - 1) assigned 100 pushed (omega arith)
      refl assigns (omega arith) refl finds (omega arith) pushes

-- Data that is handed over is freed when there is no service 2.
refuses :
    send node 100 0 2 0x10003 7 9 4 10 11
    ≡ some
        (record { result = no_destination; freed = 9 ∷ []; pushed = []; remotes = []; node = node })
unfolding send filter_args send_filtered alloc_session message_isremote context_push grab
refuses = refl

holders-send_example :
    holders
      (record { result = no_destination; freed = 9 ∷ []; pushed = []; remotes = []; node = node })
    ≡ 9 ∷ []
unfolding carried
holders-send_example = holders-send node 100 0 2 0x10003 7 9 4 10 11 _ (omega arith) refuses

abbrev wrapped : Message
wrapped = record { source = 1; session = 7; msg_data = 11; sz = 48 + 4 * 2 ^ 56 }

abbrev forwarded : World
forwarded = record world { mqs = update world.mqs 50 (push_message two_waiting wrapped) }

forwards : mq_push world 50 wrapped ≡ some forwarded
unfolding mq_push push_message
forwards = refl

send_remote_example :
    send node 100 0 0x2000001 3 7 9 4 10 11
    ≡ some (record {
      result = session 7;
      freed = [];
      pushed = [];
      remotes = record { destination = 0x2000001; message = 10; sz = 4; type = 3 } ∷ [];
      node = record node { world = forwarded };
    })
unfolding carried message_isremote alloc_session
send_remote_example =
    send_remote node 100 0 0x2000001 3 7 9 4 10 11 7 node forwarded (omega arith) refl refl
      (omega arith) refl (omega arith) (omega arith) (omega arith) forwards

-- A callback that keeps messages of odd type.
abbrev keeps : Call → Bool
keeps c = c.type % 2 == 1

abbrev callback : Callback
callback n ctx c = some (keeps c, n)

callback-IsQuiet : IsQuiet callback 100 50 keeps
callback-IsQuiet n c = (n, refl, refl, refl)

call_of-send_example :
    (session (2 ^ 31 - 1) ≡ session (2 ^ 31 - 1))
    × (call_of (message_of 1 0x20003 (2 ^ 31 - 1) 9 4 10)
        ≡ record { type = 3; session = 2 ^ 31 - 1; source = 1; msg = 10; sz = 4 })
unfolding carried
call_of-send_example =
    call_of-send node 100 0 1 0x20003 0 9 4 10 11 _ (message_of 1 0x20003 (2 ^ 31 - 1) 9 4 10)
      send_delivers_example refl

two_waiting-Holds : Holds two_waiting (waiting 5 ∷ waiting 6 ∷ [])
unfolding mq_length copy_cells
two_waiting-Holds = record {
  ring = record { size = refl; head_in = omega arith; tail_in = omega arith };
  items = refl;
}

two_waiting-IsCalm : IsCalm two_waiting (waiting 5 ∷ waiting 6 ∷ [])
two_waiting-IsCalm = record {
  holds = two_waiting-Holds;
  unmarked = refl;
  positive = omega arith;
  fits = omega arith;
}

turns_lem_example :
    (n' : Node) × (turns callback 3 (some 0) node 100 50
      ≡ some (released keeps (waiting 5 ∷ waiting 6 ∷ []), n'))
    × IsCalm (n'.world.mqs 50) []
    × (n'.contexts 100 ≡ more_messages service 2)
turns_lem_example =
    turns_lem callback keeps 3 (some 0) node 100 50 (waiting 5 ∷ waiting 6 ∷ []) callback-IsQuiet
      refl refl two_waiting-IsCalm (omega arith)

abbrev watched : Monitor
watched = record { version = 2 ^ 32 - 1; check_version = 2 ^ 32 - 1; source = 2; destination = 1 }

finds_service : grab (handle_of node) node.storage 1 ≡ some 100
unfolding grab
finds_service = refl

-- The worker has gone on to another message.
monitor_check_lem_example :
    let after = triggers watched ((2, 1) ∷ []) in
    monitor_check after node ≡ some (record after { check_version = after.version }, node)
monitor_check_lem_example =
    monitor_check_lem watched node ((2, 1) ∷ []) 100 (omega arith) refl (omega arith) (omega arith)
      finds_service (omega arith)
