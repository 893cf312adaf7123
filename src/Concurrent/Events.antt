-- ===== src/Concurrent/Events.antt =====
-- What src/libconcurrent/concurrent.c uses of libevent: an event base and the documented effect of
-- assigning, adding and deleting an event, which is an address.
use libcutils.Base.{ℕ, ◌≡◌, Bool, true, false, ◌==◌, if◌then◌else◌}

-- `struct concurrent_message_s` of a request for an event, but for the base, the descriptor and the
-- callback's argument; the timeout stands for what `tv` points to.
pub record Message : Type 0 where
  pub event : ℕ
  pub ev_events : ℕ
  pub ev_callback : ℕ
  pub tv_sec : ℕ
  pub tv_usec : ℕ

pub record EventBase : Type 1 where
  -- an event base
  pub Base : Type 0
  -- `event_pending`
  pub pending : ℕ → Base → Bool
  -- `event_assign`, which other events do not notice
  pub event_assign : Message → Base → Base
  pub pending-event_assign :
      (q : ℕ) (m : Message) (b : Base)
      → q == m.event ≡ false
      → pending q (event_assign m b) ≡ pending q b
  -- `event_add` with a timeout
  pub event_add : ℕ → ℕ → ℕ → Base → Base
  pub pending-event_add :
      (q e sec usec : ℕ) (b : Base)
      → pending q (event_add e sec usec b) ≡ (if q == e then true else pending q b)
  -- `event_del`, which a timeout also does to an event that does not persist
  pub event_del : ℕ → Base → Base
  pub pending-event_del :
      (q e : ℕ) (b : Base) → pending q (event_del e b) ≡ (if q == e then false else pending q b)
