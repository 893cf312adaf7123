-- ===== src/StateMachine/Timed.antt =====
-- Which timers run: at most that of the current state, whatever changes of state and timeouts happen.
use libcutils.Base.{
  ℕ, zero, suc, ◌%◌, ◌^◌, ◌<◌, ◌≡◌, refl, sym, ap, ◌∙◌, List, [], ◌∷◌, true, false, Option, none,
  some, arith, ◌==◌, if◌then◌else◌, set, get_elem?, Bool-cases, Option-cases, inl, inr, ◌⊎◌, ◌≢◌,
}
use libcutils.Vector
use libcutils.StateMachine.Loop.{EventLoop}
use libcutils.StateMachine.{
  Tmr, StateEntry, StateMachine, put_timer, put_timer_of, tmr_user, tmr_user_reuse,
  setup_entry_timer, stop_entry_timer,
}

-- The timer of an entry of the vector.
abbrev pub timer_in : List StateEntry → ℕ → Option ℕ
timer_in [] i = none
timer_in (e ∷ es) zero = e.timer
timer_in (e ∷ es) (suc i) = timer_in es i

timer_in-get :
    (es : List StateEntry) (i : ℕ) (e : StateEntry)
    → get_elem? es i ≡ some e
    → timer_in es i ≡ e.timer
timer_in-get [] i e h = absurd (ground arith)
timer_in-get (x ∷ es) zero e h = ground (arith, h)
timer_in-get (x ∷ es) (suc i) e h = timer_in-get es i e h

pub timer_in-set :
    (es : List StateEntry) (i j : ℕ) (e : StateEntry) (t : Option ℕ)
    → get_elem? es i ≡ some e
    → timer_in (set es i (record e { timer = t })) j ≡ (if j == i then t else timer_in es j)
timer_in-set [] i j e t h = absurd (ground arith)
timer_in-set (x ∷ es) zero zero e t h = refl
timer_in-set (x ∷ es) zero (suc j) e t h = ground arith
timer_in-set (x ∷ es) (suc i) zero e t h = ground arith
timer_in-set (x ∷ es) (suc i) (suc j) e t h = timer_in-set es i j e t h ∙ ground arith

none_or_some : {t : ℕ} → none ≡ some t → ⊥
none_or_some h = cc

pub get_elem?-written :
    (es : List StateEntry) (n : ℕ) (e : StateEntry) (o : Option ℕ)
    → get_elem? es n ≡ some e
    → get_elem? (set es n (record e { timer = o })) n ≡ some (record e { timer = o })
get_elem?-written [] n e o here = absurd (ground arith)
get_elem?-written (x ∷ es) zero e o here = refl
get_elem?-written (x ∷ es) (suc n) e o here = get_elem?-written es n e o here

added_lem :
    (loop : EventLoop) (t sec usec : ℕ) (b : loop.Events) (q : ℕ)
    → loop.armed q (loop.add t sec usec b) ≡ true
    → (some t ≡ some q) ⊎ (loop.armed q b ≡ true)
added_lem loop t sec usec b q on = elim (Bool-cases (q == t)) [
  | inl e ↦ inl (ground arith)
  | inr e ↦ inr (ground (arith, on, loop.armed-add q t sec usec b))
]

armed_self :
    (loop : EventLoop) (t sec usec : ℕ) (b : loop.Events)
    → loop.armed t (loop.add t sec usec b) ≡ true
armed_self loop t sec usec b = ground (arith, loop.armed-add t t sec usec b)

module _ {loop : EventLoop} where
  open loop use {armed, armed-add, armed-del}

  abbrev pub timer_of : StateMachine loop → ℕ → Option ℕ
  timer_of s i = timer_in s.vector.vector_head i

  -- No timer belongs to two entries, and a timer runs only for the current state.
  pub record IsTimed (s : StateMachine loop) : Type 0 where
    pub apart : (i j t : ℕ) → timer_of s i ≡ some t → timer_of s j ≡ some t → i ≡ j
    pub only : (i t : ℕ) → timer_of s i ≡ some t → armed t s.events ≡ true → i ≡ s.current_state

  -- No timer of an entry runs.
  unfoldable pub IsQuiet : StateMachine loop → Type 0
  IsQuiet s = (i t : ℕ) → timer_of s i ≡ some t → armed t s.events ≡ false

  pub stop-IsQuiet :
      (s : StateMachine loop) (e : StateEntry) (last : ℕ)
      → ((i t : ℕ) → timer_of s i ≡ some t → armed t s.events ≡ true → i ≡ last)
      → last < 2 ^ 8
      → get_elem? s.vector.vector_head last ≡ some e
      → (events : loop.Events) × (stop_entry_timer s last ≡ some (record s { events = events }))
        × IsQuiet (record s { events = events })
        × ((q : ℕ) → armed q events ≡ true → (armed q s.events ≡ true) × (timer_of s last ≢ some q))
  unfolding stop_entry_timer IsQuiet Vector.get
  stop-IsQuiet s e last only byte here =
      let w : last % 2 ^ 8 ≡ last = omega arith in
      let held = timer_in-get s.vector.vector_head last e here in
      elim (Option-cases e.timer) [
        | inl idle ↦ (
          s.events,
          rw (w, here, idle) refl,
          λ i q own. elim (Bool-cases (armed q s.events)) [
            | inl on ↦
                (let same = ap (timer_of s) (only i q own on) in
                  absurd (none_or_some (sym idle ∙ sym held ∙ sym same ∙ own)))
            | inr off ↦ off
          ],
          λ q on. (on, λ is. none_or_some (sym idle ∙ sym held ∙ is)),
        )
        | inr (t, timed) ↦ (
          loop.del t s.events,
          rw (w, here, timed) refl,
          λ i q own. elim (Bool-cases (armed q s.events)) [
            | inl on ↦
                (let same = ap (timer_of s) (only i q own on) in
                  let equal : some q ≡ some t = sym own ∙ same ∙ held ∙ timed in
                  ground (arith, armed-del q t s.events, equal))
            | inr off ↦ ground (arith, armed-del q t s.events, off)
          ],
          λ q on. (
            ground (arith, armed-del q t s.events, on),
            λ is.
                let equal : some q ≡ some t = sym is ∙ held ∙ timed in
                ground (arith, armed-del q t s.events, on, equal),
          ),
        )
      ]

  -- The state's entry takes a timer that is no other entry's, and no event but its own is added.
  pub written-IsTimed :
      (s : StateMachine loop) (e : StateEntry) (o : Option ℕ) (events : loop.Events)
      (timers : ℕ → Tmr)
      → ((i j t : ℕ) → timer_of s i ≡ some t → timer_of s j ≡ some t → i ≡ j)
      → IsQuiet s
      → ((i t : ℕ) → timer_of s i ≡ some t → o ≡ some t → i ≡ s.current_state)
      → ((q : ℕ) → armed q events ≡ true → (o ≡ some q) ⊎ (armed q s.events ≡ true))
      → get_elem? s.vector.vector_head s.current_state ≡ some e
      → IsTimed (put_timer_of (record s { events = events; timers = timers }) s.current_state e o)
  unfolding IsQuiet
  written-IsTimed s e o events timers apart quiet fresh added here =
      let n = s.current_state in
      let es = s.vector.vector_head in
      record {
        apart = λ i j t hi hj. ground (
          arith,
          hi,
          hj,
          timer_in-set es n i e o here,
          timer_in-set es n j e o here,
          apart i j t,
          fresh i t,
          fresh j t,
        );
        only = λ i t h on.
            ground (arith, h, on, timer_in-set es n i e o here, added t on, quiet i t, fresh i t);
      }

  -- What setting up an entry's timer comes to.
  unfoldable pub Setup : StateMachine loop → StateEntry → Option ℕ → Type 0
  Setup s e alloc =
      (o : Option ℕ) × (events : loop.Events) × (timers : ℕ → Tmr) × (setup_entry_timer s
          s.current_state alloc
        ≡ some (put_timer_of (record s { events = events; timers = timers }) s.current_state e o))
      × ((i t : ℕ) → timer_of s i ≡ some t → o ≡ some t → i ≡ s.current_state)
      × ((q : ℕ) → armed q events ≡ true → (o ≡ some q) ⊎ (armed q s.events ≡ true))
      × ((a : ℕ) → alloc ≡ some a → (t : ℕ) × (o ≡ some t) × (armed t events ≡ true))

  pub setup_entry_timer_lem :
      (s : StateMachine loop) (e : StateEntry) (alloc : Option ℕ)
      → ((i j t : ℕ) → timer_of s i ≡ some t → timer_of s j ≡ some t → i ≡ j)
      → ((i t : ℕ) → timer_of s i ≡ some t → alloc ≢ some t)
      → s.current_state < 2 ^ 8
      → get_elem? s.vector.vector_head s.current_state ≡ some e
      → Setup s e alloc
  unfolding setup_entry_timer Vector.get tmr_user tmr_user_reuse Setup
  setup_entry_timer_lem s e alloc apart fresh byte here =
      let w : s.current_state % 2 ^ 8 ≡ s.current_state = omega arith in
      let held = timer_in-get s.vector.vector_head s.current_state e here in
      elim (Option-cases e.timer) [
        | inr (t, timed) ↦ (
          some t,
          loop.add t (s.timers t).tv_sec (s.timers t).tv_usec s.events,
          s.timers,
          ground (arith, w, here, timed),
          λ i q own is. apart i s.current_state q own (held ∙ timed ∙ is),
          added_lem loop t (s.timers t).tv_sec (s.timers t).tv_usec s.events,
          λ a m. (t, refl, armed_self loop t (s.timers t).tv_sec (s.timers t).tv_usec s.events),
        )
        | inl idle ↦ elim (Option-cases alloc) [
          | inl no_memory ↦ (
            none,
            s.events,
            s.timers,
            ground (arith, w, here, idle, no_memory),
            λ i q own is. absurd (none_or_some is),
            λ q on. inr on,
            λ a m. absurd (none_or_some (sym no_memory ∙ m)),
          )
          | inr (t, granted) ↦ (
            some t,
            loop.add t e.tv_sec e.tv_usec s.events,
            put_timer s.timers t (record {
              tv_sec = e.tv_sec;
              tv_usec = e.tv_usec;
              process_timer_task_cb = e.process_timer_task_cb;
            }),
            ground (arith, w, here, idle, granted),
            λ i q own is. absurd (fresh i q own (granted ∙ is)),
            added_lem loop t e.tv_sec e.tv_usec s.events,
            λ a m. (t, refl, armed_self loop t e.tv_sec e.tv_usec s.events),
          )
        ]
      ]
