-- ===== src/Concurrent.antt =====
-- src/libconcurrent/concurrent.c with src/include/libconcurrent/concurrent.h: how other threads ask the
-- master thread to add and delete events. A request is a message in a queue and a byte in a pipe that
-- wakes the master; the queue is a list of messages, the pipe a list of bytes. A result of `none` is a
-- fault: the message of an empty queue is read. The master has started, so no caller waits for it.
pub mod Events
pub mod Requests
pub mod Order
pub mod Loop
pub mod Slaves
pub mod Pipes
pub mod Served
pub mod Dispatch
mod Tests
use mathlib.Core.Option
use libcutils.Base.{
  ℕ, List, [], ◌∷◌, ◌++◌, Bool, Option, none, some, ◌==◌, if◌then◌else◌, zero, suc,
}
use libcutils.Base.Monad.{◌>>=◌}
use libcutils.Concurrent.Events.{Message, EventBase}

module _ (api : EventBase) where
  open api use {Base}

  -- `concurrent_t` and its master, as far as requests go.
  pub record Concurrent : Type 0 where
    pub event_base : Base
    pub new_ev_que : List Message
    pub pipe : List ℕ

module _ {api : EventBase} where
  open api use {event_assign, event_add, event_del}

  -- A write of one byte that may fail, which is only logged.
  unfoldable pub wake : Concurrent api → ℕ → Bool → Concurrent api
  wake c command written = if written then record c { pipe = c.pipe ++ command ∷ [] } else c

  unfoldable pub push : Concurrent api → Message → Concurrent api
  push c message = record c { new_ev_que = c.new_ev_que ++ message ∷ [] }

  -- The command is `r`.
  unfoldable pub add_event_to_master : Concurrent api → Message → Bool → Concurrent api
  unfolding wake push
  add_event_to_master c message written = wake (push c message) 114 written

  -- The command is `d`; what the message holds beside the event is left as it was on the stack.
  unfoldable pub del_event_of_master : Concurrent api → ℕ → Message → Bool → Concurrent api
  unfolding wake push
  del_event_of_master c event stack written =
      wake (push c (record stack { event = event })) 100 written

  -- `master_event_handler_add_new_event`; an empty pipe has no byte to read.
  unfoldable pub add_new_event : Concurrent api → Option (Concurrent api)
  add_new_event c = elim c.pipe [
    | [] ↦ some c
    | buf ∷ pipe ↦
        if buf == 114
        then elim c.new_ev_que [
          | [] ↦ none
          | m ∷ que ↦ some (record c {
            pipe = pipe;
            new_ev_que = que;
            event_base = event_add m.event m.tv_sec m.tv_usec (event_assign m c.event_base);
          })
        ]
        else if buf == 100
        then elim c.new_ev_que [
          | [] ↦ none
          | m ∷ que ↦ some (record c {
            pipe = pipe;
            new_ev_que = que;
            event_base = event_del m.event c.event_base;
          })
        ]
        else some (record c { pipe = pipe })
  ]

  -- The handler run as often as the count says.
  unfoldable pub add_new_events : ℕ → Concurrent api → Option (Concurrent api)
  unfolding add_new_event
  add_new_events zero c = some c
  add_new_events (suc n) c = do c' ← add_new_event c; add_new_events n c'
