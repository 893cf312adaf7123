-- ===== src/StateMachine.antt =====
-- src/libstate_machine/state_machine.c with src/include/libstate_machine/state_machine.h, and the
-- timers of src/libconcurrent/tmr_user.c: a vector of entries, each with an action and a timer that
-- runs while the machine is in its state. Timers are addresses. The allocator's answers are
-- arguments, `none` for a null pointer; a result of `none` is a fault. A state is not negative. A callback
-- is a number, and what the actions do to the machine is an argument.
pub mod Loop
pub mod Timed
pub mod Change
pub mod Reach
mod Tests
use libcutils.StateMachine.Loop.{EventLoop}
use libcutils.Vector
use libcutils.Vector.{Vector}
use libcutils.Base.{
  ℕ, zero, suc, ◌+◌, ◌-◌, ◌*◌, ◌%◌, ◌^◌, List, [], ◌∷◌, ◌++◌, Bool, true, false, Option, none, some,
  ◌==◌, leb, ltb, if◌then◌else◌, set, get_elem?, length, replicate, drop,
}
use libcutils.Base.Monad.{◌>>=◌}
use libcutils.Base.Memory.{store}

-- `tmr_user_t`: what the later calls read of it.
pub record Tmr : Type 0 where
  pub tv_sec : ℕ
  pub tv_usec : ℕ
  pub process_timer_task_cb : ℕ

-- `state_entry_t`, but for the pointer back to the machine; the name is its 50 bytes.
pub record StateEntry : Type 0 where
  pub action_callback : ℕ
  pub process_timer_task_cb : ℕ
  pub tv_sec : ℕ
  pub tv_usec : ℕ
  pub timer : Option ℕ
  pub entry_name : List ℕ

-- `state_entry_config_t`; the name is given by the bytes before its NUL.
pub record StateEntryConfig : Type 0 where
  pub entry_name : List ℕ
  pub action_callback : ℕ
  pub process_timer_task_cb : ℕ
  pub tv_sec : ℕ
  pub tv_usec : ℕ

-- `timer` is left as it is; a name that is longer than its field is written behind the entry.
unfoldable pub init_state_entry : StateEntry → StateEntryConfig → Option StateEntry
init_state_entry e c = do
  name ← store (replicate 50 0) 0 c.entry_name
  some (record e {
    process_timer_task_cb = c.process_timer_task_cb;
    action_callback = c.action_callback;
    tv_sec = c.tv_sec;
    tv_usec = c.tv_usec;
    entry_name = name;
  })

abbrev pub put_timer : (ℕ → Tmr) → ℕ → Tmr → ℕ → Tmr
put_timer timers t v q = if q == t then v else timers q

module _ (loop : EventLoop) where
  open loop use {Events}

  -- `state_machine_t`, with the timers and the events around it.
  pub record StateMachine : Type 0 where
    pub vector : Vector StateEntry
    pub entry_num : ℕ
    pub current_state : ℕ
    pub last_state : ℕ
    pub events : Events
    pub timers : ℕ → Tmr

module _ {loop : EventLoop} where
  open loop use {Events, add, del}

  -- `state_machine_init`; the block is what `vector_init` is given for the entries.
  unfoldable pub init : StateMachine loop → ℕ → Option (List StateEntry) → StateMachine loop
  init s entry_num block = record s {
    vector = Vector.init s.vector 104 entry_num block;
    entry_num = entry_num;
  }

  -- `state_machine_construct_state_entry` with the registration: the entry is copied into the vector,
  -- which may ask for a larger block.
  unfoldable pub construct_state_entry :
      StateMachine loop
      → StateEntryConfig
      → Option StateEntry
      → Option (List StateEntry)
      → Option (StateMachine loop)
  construct_state_entry s c none block = some s
  construct_state_entry s c (some fresh) block = do
    e ← init_state_entry fresh c
    vector ← Vector.push_back s.vector e block
    some (record s { vector = vector })

  -- The loop of `state_machine` over the configuration, up to the empty name that ends it.
  unfoldable pub construct_entries :
      StateMachine loop
      → List StateEntryConfig
      → Option StateEntry
      → Option (List StateEntry)
      → Option (StateMachine loop)
  construct_entries s [] fresh block = none
  construct_entries s (c ∷ cs) fresh block = elim (length c.entry_name == 0) [
    | true ↦ some s
    | false ↦ do s' ← construct_state_entry s c fresh block; construct_entries s' cs fresh block
  ]

  -- `tmr_user`, with the event added; `none` is a null pointer.
  unfoldable pub tmr_user : StateMachine loop → StateEntry → Option ℕ → Option ℕ × StateMachine loop
  tmr_user s e none = (none, s)
  tmr_user s e (some t) = (
    some t,
    record s {
      timers = put_timer s.timers t (record {
        tv_sec = e.tv_sec;
        tv_usec = e.tv_usec;
        process_timer_task_cb = e.process_timer_task_cb;
      });
      events = add t e.tv_sec e.tv_usec s.events;
    },
  )

  unfoldable pub tmr_user_reuse : StateMachine loop → ℕ → StateMachine loop
  tmr_user_reuse s t = record s { events = add t (s.timers t).tv_sec (s.timers t).tv_usec s.events }

  unfoldable pub tmr_user_stop : StateMachine loop → ℕ → StateMachine loop
  tmr_user_stop s t = record s { events = del t s.events }

  -- An entry is changed through the pointer that `vector_get` returns.
  abbrev pub put_timer_of : StateMachine loop → ℕ → StateEntry → Option ℕ → StateMachine loop
  put_timer_of s i e t = record s {
    vector = record s.vector { vector_head = set s.vector.vector_head i (record e { timer = t }) };
  }

  -- The parameter is a `uint8_t`.
  unfoldable pub setup_entry_timer : StateMachine loop → ℕ → Option ℕ → Option (StateMachine loop)
  unfolding tmr_user tmr_user_reuse
  setup_entry_timer s state alloc = do
    let i = state % 2 ^ 8
    e ← Vector.get s.vector i
    elim e.timer [
      | none ↦ some (let (t, s') = tmr_user s e alloc in put_timer_of s' i e t)
      | some t ↦ some (put_timer_of (tmr_user_reuse s t) i e (some t))
    ]

  unfoldable pub stop_entry_timer : StateMachine loop → ℕ → Option (StateMachine loop)
  unfolding tmr_user_stop
  stop_entry_timer s state = do
    let i = state % 2 ^ 8
    e ← Vector.get s.vector i
    elim e.timer [ none ↦ some s | some t ↦ some (tmr_user_stop s t) ]

  -- `state_machine_change_state_force`. The name of the last entry is handed to the log.
  unfoldable pub change_state_force :
      (ℕ → StateMachine loop → Option (StateMachine loop))
      → StateMachine loop
      → ℕ
      → Option ℕ
      → Option (StateMachine loop)
  change_state_force action s state alloc = do
    let s₁ : StateMachine loop = record s { last_state = s.current_state; current_state = state }
    s₂ ← stop_entry_timer s₁ s₁.last_state
    s₃ ← setup_entry_timer s₂ s₂.current_state alloc
    e ← Vector.get s₃.vector s₃.current_state
    action e.action_callback s₃

  unfoldable pub change_state :
      (ℕ → StateMachine loop → Option (StateMachine loop))
      → StateMachine loop
      → ℕ
      → Option ℕ
      → Option (StateMachine loop)
  unfolding change_state_force
  change_state action s state alloc =
      if state == s.current_state then some s else change_state_force action s state alloc

  -- The entries from the first position to the end: the loop of `state_machine_destroy_entry_timers`
  -- with `tmr_user_destroy`.
  unfoldable pub destroy_entry_timers : StateMachine loop → List StateEntry → StateMachine loop
  destroy_entry_timers s [] = s
  destroy_entry_timers s (e ∷ es) =
      destroy_entry_timers
        (elim e.timer [ none ↦ s | some t ↦ record s { events = del t s.events } ]) es
