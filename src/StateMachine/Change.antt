-- ===== src/StateMachine/Change.antt =====
-- `state_machine_change_state_force`: the machine that the action of the new state is given.
use libcutils.Base.{ℕ, ◌^◌, ◌<◌, ◌≡◌, refl, ◌∙◌, true, Option, some, get_elem?, inl, inr, ◌⊎◌, ◌≢◌}
use libcutils.Base.Monad.{◌>>=◌}
use libcutils.Base.Nodes.{eq_self}
use libcutils.Vector
use libcutils.StateMachine.Loop.{EventLoop}
use libcutils.StateMachine.{
  StateEntry, StateMachine, put_timer_of, setup_entry_timer, stop_entry_timer, change_state_force,
}
use libcutils.StateMachine.Timed.{
  timer_of, IsTimed, IsQuiet, Setup, get_elem?-written, timer_in-set, stop-IsQuiet, written-IsTimed,
  setup_entry_timer_lem,
}

-- Three steps that succeed.
three_steps :
    {A B C D : Type 0} (m : Option A) (f : A → Option B) (g : B → Option C) (k : C → B → Option D)
    (a : A) (b : B) (c : C)
    → m ≡ some a
    → f a ≡ some b
    → g b ≡ some c
    → (m >>= λ x. f x >>= λ y. g y >>= λ z. k z y) ≡ k c b
three_steps m f g k a b c p q r = rw p (rw q (rw r refl))

module _ {loop : EventLoop} where
  open loop use {armed}

  -- What `state_machine_change_state_force` hands to the action of the new state: a machine in that
  -- state, in which no entry's timer runs but that state's, and with memory that one does; and every
  -- event that waits is that timer, or waited before and was not the last state's timer.
  unfoldable pub Entered : StateMachine loop → ℕ → Option ℕ → StateMachine loop → Type 0
  Entered s state alloc m =
      IsTimed m
      × (m.current_state ≡ state)
      × (m.last_state ≡ s.current_state)
      × (e : StateEntry) × (get_elem? m.vector.vector_head state ≡ some e)
      × ((a : ℕ)
          → alloc ≡ some a
          → (t : ℕ) × (timer_of m state ≡ some t) × (armed t m.events ≡ true))
      × ((q : ℕ)
          → armed q m.events ≡ true
          → (timer_of m state ≡ some q)
            ⊎ ((armed q s.events ≡ true) × (timer_of s s.current_state ≢ some q)))

  pub change_state_force_lem :
      (action : ℕ → StateMachine loop → Option (StateMachine loop)) (s : StateMachine loop)
      (state : ℕ) (alloc : Option ℕ) (last e : StateEntry)
      → IsTimed s
      → s.current_state < 2 ^ 8
      → state < 2 ^ 8
      → get_elem? s.vector.vector_head s.current_state ≡ some last
      → get_elem? s.vector.vector_head state ≡ some e
      → ((i t : ℕ) → timer_of s i ≡ some t → alloc ≢ some t)
      → (m : StateMachine loop) × (change_state_force action s state alloc
          ≡ action e.action_callback m)
        × Entered s state alloc m
  unfolding change_state_force Entered Setup Vector.get IsQuiet
  change_state_force_lem action s state alloc last e k byte byte' here there fresh =
      let s₁ : StateMachine loop = record s {
        last_state = s.current_state;
        current_state = state;
      } in
      let (events, stopped, quiet, stays) = stop-IsQuiet s₁ last s.current_state k.only byte here in
      let s₂ : StateMachine loop = record s₁ { events = events } in
      let (o, events', timers, run, own, added, starts) =
        setup_entry_timer_lem s₂ e alloc k.apart fresh byte' there in
      let m = put_timer_of (record s₂ { events = events'; timers = timers }) state e o in
      let stored : timer_of m state ≡ o =
        timer_in-set s.vector.vector_head state state e o there ∙ rw (eq_self state) refl in
      let entry = get_elem?-written s.vector.vector_head state e o there in
      (
        m,
        three_steps (stop_entry_timer s₁ s₁.last_state)
            (λ x. setup_entry_timer x x.current_state alloc)
            (λ x. Vector.get x.vector x.current_state) (λ y x. action y.action_callback x) s₂ m
            (record e { timer = o }) stopped run entry,
        (
          written-IsTimed s₂ e o events' timers k.apart quiet own added there,
          refl,
          refl,
          record e { timer = o },
          entry,
          λ a granted. let (t, is, on) = starts a granted in (t, stored ∙ is, on),
          λ q on. elim (added q on) [
            | inl own_timer ↦ inl (stored ∙ own_timer)
            | inr before ↦ inr (stays q before)
          ],
        ),
      )

  -- With memory for a timer, a forced change between two states below 256 with entries, from a machine in which
  -- no two entries share a timer and none runs but that of the current state, calls the action of the
  -- new state with a machine that is in that state, remembers the last one, has its timers in the same
  -- order, and waits for the timer of the new state.
  pub change_state_force-IsTimed :
      (action : ℕ → StateMachine loop → Option (StateMachine loop)) (s : StateMachine loop)
      (state a : ℕ) (last e : StateEntry)
      → IsTimed s
      → s.current_state < 2 ^ 8
      → state < 2 ^ 8
      → get_elem? s.vector.vector_head s.current_state ≡ some last
      → get_elem? s.vector.vector_head state ≡ some e
      → ((i t : ℕ) → timer_of s i ≡ some t → some a ≢ some t)
      → (m : StateMachine loop) × (t : ℕ) × (change_state_force action s state (some a)
          ≡ action e.action_callback m)
        × IsTimed m
        × (m.current_state ≡ state)
        × (m.last_state ≡ s.current_state)
        × (timer_of m state ≡ some t)
        × (armed t m.events ≡ true)
  unfolding Entered
  change_state_force-IsTimed action s state a last e k byte byte' here there fresh =
      let (m, handed, (timed, current, before, e', entry, starts, waits)) =
        change_state_force_lem action s state (some a) last e k byte byte' here there fresh in
      let (t, own, on) = starts a refl in (m, t, handed, timed, current, before, own, on)
