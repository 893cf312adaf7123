-- ===== src/Concurrent/Tests.antt =====
-- Two requests at a list of pending events, and the theorems at it.
use mathlib.Core.Option
use libcutils.Base.{
  ℕ, ◌≡◌, refl, [], ◌∷◌, ◌++◌, Bool, true, false, Option, none, some, ◌==◌, if◌then◌else◌, arith,
  ◌<◌,
}
use libcutils.Concurrent.Events.{Message, EventBase}
use libcutils.Concurrent.{
  Concurrent, wake, push, add_event_to_master, del_event_of_master, add_new_event, add_new_events,
}
use libcutils.Concurrent.Requests.{added, deleted}
use libcutils.Concurrent.Slaves.{
  Master, assign, choose_slave, notify_slave, add_message, timer_event_handler, process_message,
}
use libcutils.Concurrent.Served.{IsServed}
use libcutils.Concurrent.Dispatch.{Trace, Trace-IsServed, waiting-woken}
use libcutils.Concurrent.Dispatch.Trace.{start, assigned, added as appended, taken}
use libcutils.Concurrent.Order.{add_new_events-settled, swapped_faults}

-- The base tells of each event whether it is pending.
abbrev events : EventBase
events = record {
  Base = ℕ → Bool;
  pending = λ q b. b q;
  event_assign = λ m b q. if q == m.event then false else b q;
  pending-event_assign = λ q m b other. rw other refl;
  event_add = λ e sec usec b q. if q == e then true else b q;
  pending-event_add = λ q e sec usec b. refl;
  event_del = λ e b q. if q == e then false else b q;
  pending-event_del = λ q e b. refl;
}

abbrev timer : ℕ → Message
timer e = record { event = e; ev_events = 1; ev_callback = 0; tv_sec = 2; tv_usec = 0 }

abbrev idle : Concurrent events
idle = record { event_base = λ q. q == 5; new_ev_que = []; pipe = [] }

program : Unit {0}
unfolding wake push add_event_to_master del_event_of_master add_new_event add_new_events assign
    choose_slave notify_slave add_message timer_event_handler process_message
program = tt

-- The event 5 is deleted and 6 added.
abbrev asked : Concurrent events
asked = record {
  event_base = λ q. q == 5;
  new_ev_que = timer 5 ∷ timer 6 ∷ [];
  pipe = 100 ∷ 114 ∷ [];
}

asked_runs : add_event_to_master (del_event_of_master idle 5 (timer 0) true) (timer 6) true ≡ asked
unfolding program
asked_runs = refl

after_runs :
    Option.map
      (λ (c : Concurrent events). c.event_base 5 ∷ c.event_base 6 ∷ [])
      (add_new_events 2 asked)
    ≡ some (false ∷ true ∷ [])
unfolding program
after_runs = refl

-- A byte without a message.
fault_runs : add_new_event (wake idle 114 true) ≡ none
unfolding program
fault_runs = refl

add_new_events-settled_example :
    add_new_events 2 asked
    ≡ some (record {
      event_base =
          events.event_add 6 2 0 (events.event_assign (timer 6) (events.event_del 5 (λ q. q == 5)));
      new_ev_que = [];
      pipe = [];
    })
add_new_events-settled_example =
    add_new_events-settled asked (deleted (timer 5) ∷ added (timer 6) ∷ [])
      (record { queued = refl; woken = refl })

swapped_faults_example :
    add_new_events 2 (wake (wake (push (push idle (timer 6)) (timer 5)) 100 true) 114 true)
    ≡ some (record {
      event_base =
          events.event_add 5 2 0 (events.event_assign (timer 5) (events.event_del 6 (λ q. q == 5)));
      new_ev_que = [];
      pipe = [];
    })
swapped_faults_example = swapped_faults idle (timer 6) (timer 5) refl refl

-- Two slaves; the second is woken for the message 7.
abbrev master : Master
master = record {
  message_que = 7 ∷ [];
  assignment_count = 1;
  slave_amount = 2;
  pipes = [] ∷ (99 ∷ []) ∷ [];
}

master-IsServed : IsServed 0 master
master-IsServed = record {
  slaves = refl;
  some_slave = omega arith;
  commands = (tt, ((refl, tt), tt));
  waiting = refl;
}

-- The message 8 of a timer wakes the first slave, which takes the message 7.
abbrev busy : Master
busy = record {
  message_que = 7 ∷ 8 ∷ [];
  assignment_count = 2;
  slave_amount = 2;
  pipes = (99 ∷ []) ∷ (99 ∷ []) ∷ [];
}

abbrev eased : Master
eased = record busy { message_que = 8 ∷ []; pipes = [] ∷ (99 ∷ []) ∷ [] }

timer_runs : timer_event_handler master 8 true ≡ some busy
unfolding program
timer_runs = refl

take_runs : process_message busy 0 ≡ some (some 7, eased)
unfolding program
take_runs = refl

add_runs : add_message (assign master) 8 true ≡ some busy
unfolding program
add_runs = refl

-- The message 9 comes, and the write of its wake-up fails.
abbrev unwoken : Master
unwoken = record eased { message_que = 8 ∷ 9 ∷ [] }

fail_runs : add_message eased 9 false ≡ some unwoken
unfolding program
fail_runs = refl

three_turns : Trace master (8 ∷ 9 ∷ []) (7 ∷ []) 1 unwoken
three_turns =
    appended 9 false (taken 0 7 (appended 8 true (assigned start) add_runs) (omega arith) take_runs)
      fail_runs

Trace-IsServed_example :
    IsServed 1 unwoken
    × ((7 ∷ []) ++ unwoken.message_que ≡ master.message_que ++ 8 ∷ 9 ∷ [])
    × (o : Option ℕ) × (m'' : Master) × (process_message unwoken 1 ≡ some (o, m''))
Trace-IsServed_example =
    Trace-IsServed 0 master unwoken (8 ∷ 9 ∷ []) (7 ∷ []) 1 1 master-IsServed three_turns
      (omega arith)

-- Two slaves at the start, then the messages 7 and 8; the second write fails.
abbrev resting : Master
resting = record { message_que = []; assignment_count = 0; slave_amount = 2; pipes = [] ∷ [] ∷ [] }

abbrev one_waits : Master
one_waits = record resting { message_que = 7 ∷ []; pipes = (99 ∷ []) ∷ [] ∷ [] }

abbrev two_wait : Master
two_wait = record one_waits { message_que = 7 ∷ 8 ∷ [] }

first_runs : add_message resting 7 true ≡ some one_waits
unfolding program
first_runs = refl

second_runs : add_message one_waits 8 false ≡ some two_wait
unfolding program
second_runs = refl

waiting-woken_example :
    (i : ℕ) × (m'' : Master) × (i < 2)
    × (process_message two_wait i ≡ some (some 7, m''))
    × (m''.message_que ≡ 8 ∷ [])
waiting-woken_example =
    waiting-woken resting two_wait (7 ∷ 8 ∷ []) [] 1 7 (8 ∷ []) (omega arith) refl refl
      (appended 8 false (appended 7 true start first_runs) second_runs) refl (omega arith)
