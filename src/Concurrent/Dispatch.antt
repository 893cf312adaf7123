-- ===== src/Concurrent/Dispatch.antt =====
-- Which slave gets which message, whatever order the master and the slaves take turns in.
use libcutils.Base.{
  ℕ, ◌+◌, subst, Bool, ◌<◌, ◌≡◌, refl, sym, ap, ◌∙◌, List, [], ◌∷◌, ◌++◌, true, false, Option, none,
  some, arith, length, append-nil, append_assoc,
}
use libcutils.Concurrent.Pipes.{
  total, empty_pipes, empty_pipes_lem, append-cancel_left, waiting_pipe, AllCommands,
  cons-injective, same_result,
}
use libcutils.Concurrent.Slaves.{Master, assign, add_message, process_message}
use libcutils.Concurrent.Served.{
  IsServed, lost_after, assign-IsServed, add_message_lem, woken_lem, Turn, turn_lem,
}

-- The messages added, those handed to slaves and the number of writes that failed, while the master
-- and the slaves take turns in any order.
pub data Trace (m : Master) : List ℕ → List ℕ → ℕ → Master → Type 0 where
  start : Trace m [] [] 0 m
  assigned :
      {given done : List ℕ} {failed : ℕ} {m₁ : Master}
      → Trace m given done failed m₁
      → Trace m given done failed (assign m₁)
  added :
      {given done : List ℕ} {failed : ℕ} {m₁ m₂ : Master} (t : ℕ) (written : Bool)
      → Trace m given done failed m₁
      → add_message m₁ t written ≡ some m₂
      → Trace m (given ++ t ∷ []) done (lost_after written failed) m₂
  taken :
      {given done : List ℕ} {failed : ℕ} {m₁ m₂ : Master} (i t : ℕ)
      → Trace m given done failed m₁
      → i < m₁.slave_amount
      → process_message m₁ i ≡ some (some t, m₂)
      → Trace m given (done ++ t ∷ []) failed m₂
  idle :
      {given done : List ℕ} {failed : ℕ} {m₁ m₂ : Master} (i : ℕ)
      → Trace m given done failed m₁
      → i < m₁.slave_amount
      → process_message m₁ i ≡ some (none, m₂)
      → Trace m given done failed m₂

lost_after_lem :
    (written : Bool) (failed lost : ℕ)
    → lost_after written (failed + lost) ≡ lost_after written failed + lost
lost_after_lem true failed lost = refl
lost_after_lem false failed lost = omega arith

Trace-order :
    (lost : ℕ) (m : Master) (given done : List ℕ) (failed : ℕ) (m' : Master)
    → IsServed lost m
    → Trace m given done failed m'
    → IsServed (failed + lost) m' × (done ++ m'.message_que ≡ m.message_que ++ given)
unfolding assign Turn
Trace-order lost m _ _ _ _ k start =
    let none_failed : lost ≡ 0 + lost = omega arith in
    (subst (λ n. IsServed n m) none_failed k, sym (append-nil m.message_que))
Trace-order lost m given done failed _ k (assigned {m₁ = m₁} before) =
    let (k₁, e) = Trace-order lost m given done failed m₁ k before in
    (assign-IsServed (failed + lost) m₁ k₁, e)
Trace-order lost m _ done _ m₂ k
      (added {given = given} {failed = failed} {m₁ = m₁} t written before run) =
    let (k₁, e) = Trace-order lost m given done failed m₁ k before in
    let (m', run', k', que) = add_message_lem (failed + lost) m₁ t written k₁ in
    let (k₂, que₂) =
      same_result
        (λ n.
          IsServed (lost_after written (failed + lost)) n
          × (n.message_que ≡ m₁.message_que ++ t ∷ []))
        (add_message m₁ t written) m' m₂ run' run (k', que) in
    (
      subst (λ n. IsServed n m₂) (lost_after_lem written failed lost) k₂,
      ap (λ q. done ++ q) que₂
          ∙ sym (append_assoc done m₁.message_que (t ∷ []))
          ∙ ap (λ q. q ++ t ∷ []) e
          ∙ append_assoc m.message_que given (t ∷ []),
    )
Trace-order lost m given _ failed m₂ k (taken {done = done} {m₁ = m₁} i t before below run) =
    let (k₁, e) = Trace-order lost m given done failed m₁ k before in
    let (o, m', run', k', front) = turn_lem (failed + lost) m₁ i k₁ below in
    let (k₂, front') =
      same_result (λ (x : Option ℕ × Master). IsServed (failed + lost) x.1 × Turn m₁ x.0 x.1)
        (process_message m₁ i) (o, m') (some t, m₂) run' run (k', front) in
    (k₂, append_assoc done (t ∷ []) m₂.message_que ∙ ap (λ q. done ++ q) (sym front') ∙ e)
Trace-order lost m given done failed m₂ k (idle {m₁ = m₁} i before below run) =
    let (k₁, e) = Trace-order lost m given done failed m₁ k before in
    let (o, m', run', k', kept) = turn_lem (failed + lost) m₁ i k₁ below in
    let (k₂, same) =
      same_result (λ (x : Option ℕ × Master). IsServed (failed + lost) x.1 × Turn m₁ x.0 x.1)
        (process_message m₁ i) (o, m') (none, m₂) run' run (k', kept) in
    (k₂, ap (λ q. done ++ q) same ∙ e)

-- From a state with a pipe for each slave, and in all of them as many bytes, all of them `c`, as messages
-- wait, less the wake-ups that are lost, however the master and the slaves take turns, where a message
-- and its wake-up are one turn, and whichever writes to the pipes fail: the messages handed to slaves
-- and then those that still wait are those that waited at first and then those added, so each message
-- is handed out once at most, and in order. The wake-ups in the pipes and those lost, at first or by a
-- write that failed, are as many as the messages that wait, so no slave ever reads the message of an
-- empty queue.
pub Trace-IsServed :
    (lost : ℕ) (m m' : Master) (given done : List ℕ) (failed i : ℕ)
    → IsServed lost m
    → Trace m given done failed m'
    → i < m'.slave_amount
    → IsServed (failed + lost) m'
      × (done ++ m'.message_que ≡ m.message_que ++ given)
      × (o : Option ℕ) × (m'' : Master) × (process_message m' i ≡ some (o, m''))
Trace-IsServed lost m m' given done failed i k trace below =
    let (k', order) = Trace-order lost m given done failed m' k trace in
    let (o, m'', run, served, front) = turn_lem (failed + lost) m' i k' below in
    (k', order, o, m'', run)

start-IsServed :
    (m : Master)
    → 0 < m.slave_amount
    → m.message_que ≡ []
    → m.pipes ≡ empty_pipes m.slave_amount
    → IsServed 0 m
start-IsServed m some_slave no_messages no_bytes =
    let (count, bytes, commands) = empty_pipes_lem m.slave_amount in
    let unread : total m.pipes ≡ 0 = ap total no_bytes ∙ bytes in
    let unsent : length m.message_que ≡ 0 = ap length no_messages in
    record {
      slaves = ap length no_bytes ∙ count;
      some_slave = some_slave;
      commands = subst AllCommands (sym no_bytes) commands;
      waiting = omega (arith, unread, unsent);
    }

-- From a start without messages, with at least one slave and empty pipes, however the master and the
-- slaves take turns, where a message and its wake-up are one turn: when a message is the next of those
-- added that no slave has been handed, and fewer writes to the pipes have failed than messages wait, some
-- slave is woken, and its turn hands it that message.
pub waiting-woken :
    (m m' : Master) (given done : List ℕ) (failed t : ℕ) (que : List ℕ)
    → 0 < m.slave_amount
    → m.message_que ≡ []
    → m.pipes ≡ empty_pipes m.slave_amount
    → Trace m given done failed m'
    → given ≡ done ++ t ∷ que
    → failed < length (t ∷ que)
    → (i : ℕ) × (m'' : Master) × (i < m'.slave_amount)
      × (process_message m' i ≡ some (some t, m''))
      × (m''.message_que ≡ que)
waiting-woken m m' given done failed t que some_slave no_messages no_bytes trace next fewer =
    let served = start-IsServed m some_slave no_messages no_bytes in
    let (k, order) = Trace-order 0 m given done failed m' served trace in
    let front : m'.message_que ≡ t ∷ que =
      append-cancel_left done m'.message_que (t ∷ que)
        (order ∙ ap (λ q. q ++ given) no_messages ∙ next) in
    let count : length m'.message_que ≡ length (t ∷ que) = ap length front in
    let (i, b, rest, less, here) = waiting_pipe m'.pipes (omega (arith, k.waiting, count, fewer)) in
    let (t', m'', run, k', front') = woken_lem (failed + 0) m' i b rest k here in
    let below : i < m'.slave_amount = omega (arith, less, k.slaves) in
    let same = cons-injective t' t m''.message_que que (sym front' ∙ front) in
    (i, m'', below, run ∙ ap (λ x. some (some x, m'')) same.0, same.1)
