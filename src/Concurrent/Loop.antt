-- ===== src/Concurrent/Loop.antt =====
-- The requests as the event loop that the state machine's timers use.
use libcutils.Base.{
  ℕ, ◌≡◌, refl, sym, ap, ap₂, subst, ◌∙◌, List, [], ◌∷◌, ◌++◌, Bool, true, false, some, arith, ◌==◌,
  if◌then◌else◌, Bool-cases, inl, inr,
}
use mathlib.Core.Option.{some-injective}
use libcutils.Concurrent.Events.{Message, EventBase}
use libcutils.Concurrent.{
  Concurrent, wake, push, add_event_to_master, del_event_of_master, add_new_event,
}
use libcutils.Concurrent.Requests.{
  Request, added, deleted, messages, commands, carried, settled, settled-++, IsPaired, add-IsPaired,
  del-IsPaired, handled_lem,
}
use libcutils.StateMachine.Loop.{EventLoop}

module _ (api : EventBase) where
  open api use {Base, pending, event_del}

  -- The requests' state, with the requests that stand in it.
  pub record Requested : Type 0 where
    pub concurrent : Concurrent api
    pub requests : List Request
    pub paired : IsPaired api concurrent requests

  -- Whether an event is pending when every request is handled.
  abbrev pub armed : ℕ → Requested → Bool
  armed q s = pending q (settled api s.requests s.concurrent.event_base)

  -- The message of a timer: `EV_TIMEOUT` is 1, and its callback is `timer_event_handler`, 0 here.
  abbrev pub message : ℕ → ℕ → ℕ → Message
  message t sec usec = record {
    event = t;
    ev_events = 1;
    ev_callback = 0;
    tv_sec = sec;
    tv_usec = usec;
  }

  abbrev pub add : ℕ → ℕ → ℕ → Requested → Requested
  add t sec usec s = record {
    concurrent = add_event_to_master s.concurrent (message t sec usec) true;
    requests = s.requests ++ added (message t sec usec) ∷ [];
    paired = add-IsPaired s.concurrent s.requests (message t sec usec) s.paired;
  }

  abbrev pub del : ℕ → Requested → Requested
  del t s = record {
    concurrent = del_event_of_master s.concurrent t (message 0 0 0) true;
    requests = s.requests ++ deleted (message t 0 0) ∷ [];
    paired = del-IsPaired s.concurrent s.requests t (message 0 0 0) s.paired;
  }

  -- The master handles a request, or the time of a pending event comes.
  pub data Moves (s s' : Requested) : Type 0 where
    handled :
        (r : Request)
        → s.requests ≡ r ∷ s'.requests
        → add_new_event s.concurrent ≡ some s'.concurrent
        → Moves s s'
    expired :
        (t : ℕ)
        → pending t s.concurrent.event_base ≡ true
        → s'.requests ≡ s.requests
        → s'.concurrent.event_base ≡ event_del t s.concurrent.event_base
        → Moves s s'

  pending-carried :
      (q : ℕ) (r : Request) (b b' : Base)
      → (pending q b' ≡ true → pending q b ≡ true)
      → pending q (carried api r b') ≡ true
      → pending q (carried api r b) ≡ true
  pending-carried q (added m) b b' before on = elim (Bool-cases (q == m.event)) [
    | inl e ↦ api.pending-event_add q m.event m.tv_sec m.tv_usec (api.event_assign m b) ∙ rw e refl
    | inr e ↦ ground (
      arith,
      e,
      on,
      before,
      api.pending-event_add q m.event m.tv_sec m.tv_usec (api.event_assign m b),
      api.pending-event_add q m.event m.tv_sec m.tv_usec (api.event_assign m b'),
      api.pending-event_assign q m b e,
      api.pending-event_assign q m b' e,
    )
  ]
  pending-carried q (deleted m) b b' before on =
      ground
        (arith, on, before, api.pending-event_del q m.event b, api.pending-event_del q m.event b')

  -- An event less to begin with is not an event more in the end.
  pending-settled :
      (q : ℕ) (rs : List Request) (b b' : Base)
      → (pending q b' ≡ true → pending q b ≡ true)
      → pending q (settled api rs b') ≡ true
      → pending q (settled api rs b) ≡ true
  pending-settled q [] b b' before on = before on
  pending-settled q (r ∷ rs) b b' before on =
      pending-settled q rs (carried api r b) (carried api r b') (pending-carried q r b b' before) on

  pub armed-Moves : (q : ℕ) (s s' : Requested) → Moves s s' → armed q s' ≡ true → armed q s ≡ true
  armed-Moves q s s' (handled r e run) on =
      let b = s.concurrent.event_base in
      let gone =
        handled_lem s.concurrent r s'.requests (subst (IsPaired api s.concurrent) e s.paired) in
      let base =
        ap (λ (c : Concurrent api). c.event_base)
          (some-injective s'.concurrent
            (record {
              event_base = carried api r b;
              new_ev_que = messages s'.requests;
              pipe = commands s'.requests;
            })
            (sym run ∙ gone)) in
      ap (λ rs. pending q (settled api rs b)) e
      ∙ ap (λ b'. pending q (settled api s'.requests b')) (sym base)
      ∙ on
  armed-Moves q s s' (expired t was same base) on =
      let b = s.concurrent.event_base in
      pending-settled q s.requests b (event_del t b)
        (λ h. ground (arith, h, api.pending-event_del q t b))
        (sym (ap₂ (λ rs b'. pending q (settled api rs b')) same base) ∙ on)

  pub armed-add :
      (q t sec usec : ℕ) (s : Requested)
      → armed q (add t sec usec s) ≡ (if q == t then true else armed q s)
  unfolding add_event_to_master wake push
  armed-add q t sec usec s =
      let m = message t sec usec in
      let b = settled api s.requests s.concurrent.event_base in
      ap (pending q) (settled-++ api s.requests (added m) s.concurrent.event_base)
      ∙ api.pending-event_add q t sec usec (api.event_assign m b)
      ∙ elim (Bool-cases (q == t)) [
        | inl e ↦ rw e refl
        | inr e ↦ rw e (api.pending-event_assign q m b e)
      ]

  pub armed-del :
      (q t : ℕ) (s : Requested) → armed q (del t s) ≡ (if q == t then false else armed q s)
  unfolding del_event_of_master wake push
  armed-del q t s =
      ap (pending q) (settled-++ api s.requests (deleted (message t 0 0)) s.concurrent.event_base)
      ∙ api.pending-event_del q t (settled api s.requests s.concurrent.event_base)

  abbrev pub requested_loop : EventLoop
  requested_loop = record {
    Events = Requested;
    armed = armed;
    add = add;
    del = del;
    armed-add = armed-add;
    armed-del = armed-del;
    Moves = Moves;
    armed-Moves = armed-Moves;
  }
