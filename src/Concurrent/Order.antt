-- ===== src/Concurrent/Order.antt =====
-- Every request is handled once and in its order, and what goes wrong when two threads' pushes and
-- writes interleave.
use libcutils.Base.{◌≡◌, refl, sym, ap, ◌∙◌, List, [], ◌∷◌, true, some, length}
use libcutils.Base.Monad.{◌>>=◌}
use libcutils.Concurrent.Events.{Message, EventBase}
use libcutils.Concurrent.{Concurrent, wake, push, add_new_event, add_new_events}
use libcutils.Concurrent.Requests.{
  Request, messages, commands, carried, settled, IsPaired, handled_lem,
}

module _ {api : EventBase} where
  -- When every message in the queue has its byte in the pipe, in the same order, the master's handler
  -- run once for each request never meets an empty queue, leaves queue and pipe empty, and has carried
  -- out each request once, in the order they were made.
  pub add_new_events-settled :
      (c : Concurrent api) (rs : List Request)
      → IsPaired api c rs
      → add_new_events (length rs) c
        ≡ some (record { event_base = settled api rs c.event_base; new_ev_que = []; pipe = [] })
  unfolding add_new_events
  add_new_events-settled c [] k = rw (sym k.queued, sym k.woken) refl
  add_new_events-settled c (r ∷ rs) k =
      let c' : Concurrent api = record {
        event_base = carried api r c.event_base;
        new_ev_que = messages rs;
        pipe = commands rs;
      } in
      ap (λ o. o >>= λ d. add_new_events (length rs) d) (handled_lem c r rs k)
      ∙ add_new_events-settled c' rs (record { queued = refl; woken = refl })

  -- Two threads at once, on an empty queue: one pushes a message to add an event and another one to
  -- delete an event, and the second writes its byte first. The master then deletes the event that was
  -- to be added, and assigns and adds the one that was to be deleted from a message that does not
  -- describe it.
  pub swapped_faults :
      (c : Concurrent api) (a d : Message)
      → c.new_ev_que ≡ []
      → c.pipe ≡ []
      → add_new_events 2 (wake (wake (push (push c a) d) 100 true) 114 true)
        ≡ some (record {
          event_base =
              api.event_add d.event d.tv_sec d.tv_usec
                (api.event_assign d (api.event_del a.event c.event_base));
          new_ev_que = [];
          pipe = [];
        })
  unfolding add_new_events add_new_event wake push
  swapped_faults c a d empty quiet = rw (empty, quiet) refl
