-- ===== src/Concurrent/Served.antt =====
-- What a slave's turn and a new message do to the queue and to the wake-ups in the pipes.
use libcutils.Base.{
  ℕ, suc, ◌+◌, ◌%◌, Bool, ◌<◌, ◌≡◌, refl, ap, ◌∙◌, List, [], ◌∷◌, ◌++◌, true, false, Option, none,
  some, arith, ◌==◌, get_elem?, set, length, length-append, length-set, inl, inr,
}
use native.Mathlib.Nat.{mod-lt}
use libcutils.Concurrent.Pipes.{
  total, total-set, get_elem?-lt, AreCommands-push, AllCommands, AllCommands-get, AllCommands-set,
  List-cases,
}
use libcutils.Concurrent.Slaves.{
  Master, assign, choose_slave, notify_slave, add_message, process_message,
}

-- A pipe for each slave, and one byte in all of them for each message, but for the number of wake-ups
-- that are lost.
pub record IsServed (lost : ℕ) (m : Master) : Type 0 where
  pub slaves : length m.pipes ≡ m.slave_amount
  pub some_slave : 0 < m.slave_amount
  pub commands : AllCommands m.pipes
  pub waiting : total m.pipes + lost ≡ length m.message_que

pub assign-IsServed : (lost : ℕ) (m : Master) → IsServed lost m → IsServed lost (assign m)
unfolding assign
assign-IsServed lost m k = record {
  slaves = k.slaves;
  some_slave = k.some_slave;
  commands = k.commands;
  waiting = k.waiting;
}

-- The wake-ups that are lost after one more write.
abbrev pub lost_after : Bool → ℕ → ℕ
lost_after true lost = lost
lost_after false lost = suc lost

pub add_message_lem :
    (lost : ℕ) (m : Master) (t : ℕ) (written : Bool)
    → IsServed lost m
    → (m' : Master) × (add_message m t written ≡ some m')
      × IsServed (lost_after written lost) m'
      × (m'.message_que ≡ m.message_que ++ t ∷ [])
unfolding add_message notify_slave choose_slave
add_message_lem lost m t written k =
    let i = m.assignment_count % m.slave_amount in
    let below : i < m.slave_amount = mod-lt m.assignment_count k.some_slave in
    let less : i < length m.pipes = omega (arith, below, k.slaves) in
    let amount : m.slave_amount == 0 ≡ false = ground (arith, k.some_slave) in
    let (pipe, here) = get_elem?-lt m.pipes i less in
    let more = length-append m.message_que (t ∷ []) in
    elim written
      as (λ w.
        (m' : Master) × (add_message m t w ≡ some m')
        × IsServed (lost_after w lost) m'
        × (m'.message_que ≡ m.message_que ++ t ∷ [])) [
          | true ↦ (
            record m {
              message_que = m.message_que ++ t ∷ [];
              pipes = set m.pipes i (pipe ++ 99 ∷ []);
            },
            rw (amount, here) refl,
            record {
              slaves = length-set m.pipes i (pipe ++ 99 ∷ []) ∙ k.slaves;
              some_slave = k.some_slave;
              commands =
                  AllCommands-set m.pipes i (pipe ++ 99 ∷ []) k.commands
                    (AreCommands-push pipe (AllCommands-get m.pipes i pipe k.commands here));
              waiting = omega (
                arith,
                total-set m.pipes i pipe (pipe ++ 99 ∷ []) here,
                length-append pipe (99 ∷ []),
                more,
                k.waiting,
              );
            },
            refl,
          )
          | false ↦ (
            record m { message_que = m.message_que ++ t ∷ [] },
            rw (amount, here) refl,
            record {
              slaves = k.slaves;
              some_slave = k.some_slave;
              commands = k.commands;
              waiting = omega (arith, more, k.waiting);
            },
            refl,
          )
        ]

-- A slave that is woken gets the message at the front.
pub woken_lem :
    (lost : ℕ) (m : Master) (i b : ℕ) (rest : List ℕ)
    → IsServed lost m
    → get_elem? m.pipes i ≡ some (b ∷ rest)
    → (t : ℕ) × (m' : Master) × (process_message m i ≡ some (some t, m'))
      × IsServed lost m'
      × (m.message_que ≡ t ∷ m'.message_que)
unfolding process_message
woken_lem lost m i b rest k here =
    let moved = total-set m.pipes i (b ∷ rest) rest here in
    let ours = AllCommands-get m.pipes i (b ∷ rest) k.commands here in
    let command : b == 99 ≡ true = ground (arith, ours.0) in
    elim (List-cases m.message_que) [
      | inl empty ↦
          (let none_left : length m.message_que ≡ 0 = ap length empty in
            absurd (omega (arith, moved, k.waiting, none_left)))
      | inr (t, que, front) ↦
          (let count : length m.message_que ≡ suc (length que) = ap length front in
            (
              t,
              record m { pipes = set m.pipes i rest; message_que = que },
              rw (here, command, front) refl,
              record {
                slaves = length-set m.pipes i rest ∙ k.slaves;
                some_slave = k.some_slave;
                commands = AllCommands-set m.pipes i rest k.commands ours.1;
                waiting = omega (arith, moved, k.waiting, count);
              },
              front,
            ))
    ]

idle_lem :
    (m : Master) (i : ℕ) → get_elem? m.pipes i ≡ some [] → process_message m i ≡ some (none, m)
unfolding process_message
idle_lem m i here = rw here refl

-- The turn of a slave: a message from the front, or none.
unfoldable pub Turn : Master → Option ℕ → Master → Type 0
Turn m none m' = m'.message_que ≡ m.message_que
Turn m (some t) m' = m.message_que ≡ t ∷ m'.message_que

pub turn_lem :
    (lost : ℕ) (m : Master) (i : ℕ)
    → IsServed lost m
    → i < m.slave_amount
    → (o : Option ℕ) × (m' : Master) × (process_message m i ≡ some (o, m'))
      × IsServed lost m'
      × Turn m o m'
unfolding Turn
turn_lem lost m i k below =
    let less : i < length m.pipes = omega (arith, below, k.slaves) in
    let (pipe, here) = get_elem?-lt m.pipes i less in
    elim (List-cases pipe) [
      | inl empty ↦ (none, m, idle_lem m i (here ∙ ap (λ p. some p) empty), k, refl)
      | inr (b, rest, e) ↦
          (let (t, m', run, k', front) = woken_lem lost m i b rest k (here ∙ ap (λ p. some p) e) in
            (some t, m', run, k', front))
    ]
