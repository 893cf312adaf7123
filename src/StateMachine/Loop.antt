-- ===== src/StateMachine/Loop.antt =====
-- What the timers use of the master thread of src/libconcurrent/concurrent.c: a set of events that wait
-- for their time, and that the thread goes on with by itself. Concurrent.Loop has it for the code.
use libcutils.Base.{ℕ, ◌≡◌, Bool, true, false, ◌==◌, if◌then◌else◌}

pub record EventLoop : Type 1 where
  -- the events that are known
  pub Events : Type 0
  -- whether the event of a timer waits, once every request is handled
  pub armed : ℕ → Events → Bool
  -- `concurrent_add_event_to_master` with the seconds and microseconds of a timeout
  pub add : ℕ → ℕ → ℕ → Events → Events
  -- `concurrent_del_event_of_master`
  pub del : ℕ → Events → Events
  pub armed-add :
      (q t sec usec : ℕ) (b : Events)
      → armed q (add t sec usec b) ≡ (if q == t then true else armed q b)
  pub armed-del : (q t : ℕ) (b : Events) → armed q (del t b) ≡ (if q == t then false else armed q b)
  -- what the master thread does: it handles a request, or the time of an event comes
  pub Moves : Events → Events → Type 0
  pub armed-Moves : (q : ℕ) (b b' : Events) → Moves b b' → armed q b' ≡ true → armed q b ≡ true
