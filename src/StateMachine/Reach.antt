-- ===== src/StateMachine/Reach.antt =====
-- Changes of state and the master thread's own steps in any order: the states that a machine can come to.
use mathlib.Core.Option.{some-injective}
use libcutils.Base.{
  ℕ, ◌^◌, ◌<◌, ◌≡◌, refl, sym, ap, ◌∙◌, subst, true, Bool, Option, some, ◌==◌, get_elem?,
  Bool-cases, inl, inr, ◌⊎◌, ◌≢◌,
}
use libcutils.StateMachine.Loop.{EventLoop}
use libcutils.StateMachine.{StateEntry, StateMachine, change_state_force, change_state}
use libcutils.StateMachine.Timed.{timer_of, IsTimed}
use libcutils.StateMachine.Change.{Entered, change_state_force_lem}

module _ {loop : EventLoop} where
  open loop use {armed, armed-del}

  -- A machine whose current state has an entry, with its timers in order; `others` are the events of
  -- the loop's other users, and every other event that waits is the timer of the current state.
  pub record IsRunning (others : ℕ → Bool) (s : StateMachine loop) : Type 0 where
    pub timed : IsTimed s
    pub owned :
        (q : ℕ)
        → armed q s.events ≡ true
        → (timer_of s s.current_state ≡ some q) ⊎ (others q ≡ true)
    pub byte : s.current_state < 2 ^ 8
    pub entry : (e : StateEntry) × (get_elem? s.vector.vector_head s.current_state ≡ some e)

  -- An action that hands on such a machine.
  abbrev pub Keeps : (ℕ → Bool) → (StateMachine loop → Option (StateMachine loop)) → Type 0
  Keeps others act =
      (m m' : StateMachine loop) → act m ≡ some m' → IsRunning others m → IsRunning others m'

  -- What happens to a machine: a change of state to one that has an entry, plain or forced, with an
  -- answer of the allocator that is no timer in use, or what the master thread does by itself.
  pub data Step (action : ℕ → StateMachine loop → Option (StateMachine loop))
      (s s' : StateMachine loop) : Type 0 where
    change :
        (state : ℕ) (alloc : Option ℕ) (e : StateEntry)
        → state < 2 ^ 8
        → get_elem? s.vector.vector_head state ≡ some e
        → ((i t : ℕ) → timer_of s i ≡ some t → alloc ≢ some t)
        → change_state action s state alloc ≡ some s'
        → Step action s s'
    force :
        (state : ℕ) (alloc : Option ℕ) (e : StateEntry)
        → state < 2 ^ 8
        → get_elem? s.vector.vector_head state ≡ some e
        → ((i t : ℕ) → timer_of s i ≡ some t → alloc ≢ some t)
        → change_state_force action s state alloc ≡ some s'
        → Step action s s'
    turn :
        (events : loop.Events)
        → loop.Moves s.events events
        → s' ≡ record s { events = events }
        → Step action s s'

  pub data Reach (action : ℕ → StateMachine loop → Option (StateMachine loop))
      (s : StateMachine loop) : StateMachine loop → Type 0 where
    here : Reach action s s
    next : {t u : StateMachine loop} → Reach action s t → Step action t u → Reach action s u

  turn-IsRunning :
      (others : ℕ → Bool) (s : StateMachine loop) (events : loop.Events)
      → IsRunning others s
      → loop.Moves s.events events
      → IsRunning others (record s { events = events })
  turn-IsRunning others s events k moved = record {
    timed = record {
      apart = k.timed.apart;
      only = λ i q own on. k.timed.only i q own (loop.armed-Moves q s.events events moved on);
    };
    owned = λ q on. k.owned q (loop.armed-Moves q s.events events moved on);
    byte = k.byte;
    entry = k.entry;
  }

  force-IsRunning :
      (others : ℕ → Bool) (action : ℕ → StateMachine loop → Option (StateMachine loop))
      (s s' : StateMachine loop) (state : ℕ) (alloc : Option ℕ) (e : StateEntry)
      → ((cb : ℕ) → Keeps others (action cb))
      → IsRunning others s
      → state < 2 ^ 8
      → get_elem? s.vector.vector_head state ≡ some e
      → ((i t : ℕ) → timer_of s i ≡ some t → alloc ≢ some t)
      → change_state_force action s state alloc ≡ some s'
      → IsRunning others s'
  unfolding Entered
  force-IsRunning others action s s' state alloc e keeps k byte there fresh run =
      let (last, here') = k.entry in
      let (m, handed, (timed, current, before, e', entry, starts, waits)) =
        change_state_force_lem action s state alloc last e k.timed k.byte byte here' there fresh in
      keeps e.action_callback m s' (sym handed ∙ run) (record {
        timed = timed;
        owned = λ q on. elim (waits q on) [
          | inl own ↦ inl (ap (timer_of m) current ∙ own)
          | inr (was, other) ↦ elim (k.owned q was) [
            | inl own ↦ absurd (other own)
            | inr foreign ↦ inr foreign
          ]
        ];
        byte = rw current byte;
        entry = (e', rw current entry);
      })

  change-IsRunning :
      (others : ℕ → Bool) (action : ℕ → StateMachine loop → Option (StateMachine loop))
      (s s' : StateMachine loop) (state : ℕ) (alloc : Option ℕ)
      → (change_state_force action s state alloc ≡ some s' → IsRunning others s')
      → IsRunning others s
      → change_state action s state alloc ≡ some s'
      → IsRunning others s'
  unfolding change_state
  change-IsRunning others action s s' state alloc forced k run =
      elim (Bool-cases (state == s.current_state)) [
        | inl same ↦ subst (IsRunning others) (some-injective s s' (rw (sym run, same) refl)) k
        | inr other ↦ forced (rw (sym run, other) refl)
      ]

  pub Step-IsRunning :
      (others : ℕ → Bool) (action : ℕ → StateMachine loop → Option (StateMachine loop))
      (s s' : StateMachine loop)
      → ((cb : ℕ) → Keeps others (action cb))
      → IsRunning others s
      → Step action s s'
      → IsRunning others s'
  Step-IsRunning others action s s' keeps k (change state alloc e byte there fresh run) =
      change-IsRunning others action s s' state alloc
        (force-IsRunning others action s s' state alloc e keeps k byte there fresh) k run
  Step-IsRunning others action s s' keeps k (force state alloc e byte there fresh run) =
      force-IsRunning others action s s' state alloc e keeps k byte there fresh run
  Step-IsRunning others action s s' keeps k (turn events moved run) =
      subst (IsRunning others) (sym run) (turn-IsRunning others s events k moved)
