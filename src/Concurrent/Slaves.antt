-- ===== src/Concurrent/Slaves.antt =====
-- The slaves of src/libconcurrent/concurrent.c: the master puts a message into a queue that all slaves
-- share, and wakes one of them by a byte in its pipe. A message is what its work function and its task
-- make of it, here a number. A result of `none` is a fault: a division by zero, a pipe that is not
-- there, the message of an empty queue. Whether a write to a pipe succeeds is an argument.
use libcutils.Base.{
  ℕ, ◌+◌, ◌%◌, ◌^◌, List, [], ◌∷◌, ◌++◌, Bool, Option, none, some, ◌==◌, if◌then◌else◌, get_elem?,
  set,
}
use libcutils.Base.Monad.{◌>>=◌}

-- `concurrent_master_t`, as far as messages go: a pipe for each slave.
pub record Master : Type 0 where
  pub message_que : List ℕ
  pub assignment_count : ℕ
  pub slave_amount : ℕ
  pub pipes : List (List ℕ)

-- `assignment_count` is a `uint8_t`.
unfoldable pub assign : Master → Master
assign master = record master { assignment_count = (master.assignment_count + 1) % 2 ^ 8 }

unfoldable pub choose_slave : Master → Option ℕ
choose_slave master =
    if master.slave_amount == 0 then none else some (master.assignment_count % master.slave_amount)

-- A write that fails is only logged: the slave is not woken.
unfoldable pub notify_slave : Master → ℕ → Bool → Option Master
unfolding choose_slave
notify_slave master command written = do
  i ← choose_slave master
  pipe ← get_elem? master.pipes i
  some (
      if written
      then record master { pipes = set master.pipes i (pipe ++ command ∷ []) }
      else master)

-- The command is `c`.
unfoldable pub add_message : Master → ℕ → Bool → Option Master
unfolding notify_slave
add_message master message written =
    notify_slave (record master { message_que = master.message_que ++ message ∷ [] }) 99 written

-- What the timers do when their time comes.
unfoldable pub timer_event_handler : Master → ℕ → Bool → Option Master
unfolding assign add_message
timer_event_handler master message written = add_message (assign master) message written

-- `slave_event_handler_process_message` of a slave: the message whose work it does, if it does any.
unfoldable pub process_message : Master → ℕ → Option (Option ℕ × Master)
process_message master i = do
  pipe ← get_elem? master.pipes i
  elim pipe [
    | [] ↦ some (none, master)
    | buf ∷ rest ↦
        let woken : Master = record master { pipes = set master.pipes i rest } in
        if buf == 99
        then elim master.message_que [
          | [] ↦ none
          | message ∷ que ↦ some (some message, record woken { message_que = que })
        ]
        else some (none, woken)
  ]
