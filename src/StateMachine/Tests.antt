-- ===== src/StateMachine/Tests.antt =====
-- A machine of two states, and the theorems at it.
use mathlib.Core.Option
use mathlib.Core.Option.{some-injective}
use libcutils.Base.{
  ℕ, zero, suc, ◌≡◌, refl, ap, sym, ◌∙◌, [], ◌∷◌, Bool, true, false, Option, none, some, arith,
  ◌==◌, if◌then◌else◌, ◌≢◌, inl,
}
use libcutils.Base.Memory.{store, overwrite}
use libcutils.Vector
use libcutils.Vector.{Vector}
use libcutils.StateMachine.Loop.{EventLoop}
use libcutils.StateMachine.{
  StateEntry, StateMachine, init, init_state_entry, construct_state_entry, construct_entries,
  destroy_entry_timers, tmr_user, tmr_user_reuse, tmr_user_stop, setup_entry_timer,
  stop_entry_timer, change_state_force, change_state,
}
use libcutils.StateMachine.Timed.{timer_of, IsTimed}
use libcutils.StateMachine.Change.{change_state_force-IsTimed}
use libcutils.StateMachine.Reach.{IsRunning, Reach}

armed_before : (q t : ℕ) (b : ℕ → Bool) → (if q == t then false else b q) ≡ true → b q ≡ true
armed_before q t b h = ground (arith, h)

abbrev loop : EventLoop
loop = record {
  Events = ℕ → Bool;
  armed = λ q b. b q;
  add = λ t sec usec b q. if q == t then true else b q;
  del = λ t b q. if q == t then false else b q;
  armed-add = λ q t sec usec b. refl;
  armed-del = λ q t b. refl;
  Moves = λ b b'. (t : ℕ) × (b' ≡ λ q. if q == t then false else b q);
  armed-Moves = λ q b b' (t, e) on. armed_before q t b (sym (ap (λ f. f q) e) ∙ on);
}

abbrev entry : ℕ → Option ℕ → StateEntry
entry cb t = record {
  action_callback = cb;
  process_timer_task_cb = 7;
  tv_sec = 2;
  tv_usec = 0;
  timer = t;
  entry_name = [];
}

-- In the state 0, whose timer 5 runs; the state 1 has no timer yet.
abbrev machine : StateMachine loop
machine = record {
  vector = record {
    vector_head = entry 1 (some 5) ∷ entry 2 none ∷ [];
    data_size = 104;
    step = 2;
    capacity = 2;
    lock_type = 0;
    begin = 0;
    end = 2;
  };
  entry_num = 2;
  current_state = 0;
  last_state = 0;
  events = λ q. q == 5;
  timers = λ q. record { tv_sec = 2; tv_usec = 0; process_timer_task_cb = 7 };
}

-- An action that leaves the machine as it is.
abbrev idle : ℕ → StateMachine loop → Option (StateMachine loop)
idle cb m = some m

-- The loop has no other users.
abbrev others : ℕ → Bool
others q = false

program : Unit {0}
unfolding init init_state_entry construct_state_entry construct_entries destroy_entry_timers
    tmr_user tmr_user_reuse tmr_user_stop setup_entry_timer stop_entry_timer change_state_force
    change_state Vector.get Vector.push_back Vector.init store overwrite
program = tt

-- After the change to the state 1, with the timer 6.
abbrev moved : StateMachine loop
moved = record machine {
  vector = record machine.vector { vector_head = entry 1 (some 5) ∷ entry 2 (some 6) ∷ [] };
  current_state = 1;
  events = λ q. if q == 6 then true else if q == 5 then false else q == 5;
  timers = λ q.
      if q == 6
      then record { tv_sec = 2; tv_usec = 0; process_timer_task_cb = 7 }
      else machine.timers q;
}

same_state_runs : change_state idle machine 0 none ≡ some machine
unfolding program
same_state_runs = refl

no_entry_runs : change_state idle machine 9 (some 6) ≡ none
unfolding program
no_entry_runs = refl

timer_5 : (i t : ℕ) → timer_of machine i ≡ some t → (i ≡ 0) × (t ≡ 5)
timer_5 zero t h = (refl, sym (some-injective 5 t h))
timer_5 (suc zero) t h = absurd (ground (arith, h))
timer_5 (suc (suc i)) t h = absurd (ground (arith, h))

machine-IsRunning : IsRunning others machine
machine-IsRunning = record {
  timed = record {
    apart = λ i j t a b. (timer_5 i t a).0 ∙ sym (timer_5 j t b).0;
    only = λ i t a on. (timer_5 i t a).0;
  };
  owned = λ q on. inl (ground (arith, on));
  byte = omega arith;
  entry = (entry 1 (some 5), refl);
}

free_6 : (i t : ℕ) → timer_of machine i ≡ some t → some 6 ≢ some t
free_6 i t h e = absurd (ground (arith, timer_5 i t h, some-injective 6 t e))

change_state_force-IsTimed_example :
    (m : StateMachine loop) × (t : ℕ) × (change_state_force idle machine 1 (some 6) ≡ some m)
    × IsTimed m
    × (m.current_state ≡ 1)
    × (m.last_state ≡ 0)
    × (timer_of m 1 ≡ some t)
    × (loop.armed t m.events ≡ true)
change_state_force-IsTimed_example =
    change_state_force-IsTimed idle machine 1 6 (entry 1 (some 5)) (entry 2 none)
      machine-IsRunning.timed (omega arith) (omega arith) refl refl free_6

-- A table of one state, read up to the empty name.
table_runs :
    Option.map
      (λ (s : StateMachine loop). s.vector.end)
      (construct_entries
        (init machine 2 (some (entry 0 none ∷ entry 0 none ∷ [])))
        (record {
          entry_name = 65 ∷ [];
          action_callback = 1;
          process_timer_task_cb = 7;
          tv_sec = 1;
          tv_usec = 0;
        }
          ∷ record {
            entry_name = [];
            action_callback = 0;
            process_timer_task_cb = 0;
            tv_sec = 0;
            tv_usec = 0;
          }
          ∷ [])
        (some (entry 0 none))
        none)
    ≡ some 1
unfolding program
table_runs = refl
