-- ===== src/Inproc/Disconnect.antt =====
-- What destroying a line does to the other end: InprocLine::~InprocLine of src/common/inproc.cpp.
use libcppio.Prelude.{
  ℕ, ◌^◌, ◌<◌, ◌≡◌, ◌≢◌, refl, sym, ◌∙◌, Bool, true, false, some, List, [], get_elem?,
}
use libcppio.Line.{connection_lost, read_failed}
use libcppio.DataQueue.{
  entering, expired, notified, waits, read_with_timeout_step, DataQueue, Phase, returns, read_step,
  set_connection_flag,
}
use libcppio.DataQueue.Steps.{bytes_of, QueueIsValid, read_step_empty, read_with_timeout_step_empty}
use libcppio.Inproc.{InprocLine, disconnect_queue, destroy_line}
use libcppio.Inproc.Store.{replace_at, get_elem?-replace_at, get_elem?-other, get_elem?-bound}

abbrev pub off : DataQueue → DataQueue
off q = record q { m_connected = false }

set_connection_flag-off : (q : DataQueue) → (set_connection_flag q false).0 ≡ off q
unfolding set_connection_flag
set_connection_flag-off q = by_flag q.m_connected refl
  where
    by_flag : (t : Bool) → q.m_connected ≡ t → (set_connection_flag q false).0 ≡ off q
    by_flag true e = rw e
    by_flag false e = rw e refl

disconnect_queue-off :
    (i : ℕ) (q : DataQueue) (queues : List DataQueue)
    → get_elem? queues i ≡ some q
    → disconnect_queue (some i) queues ≡ some (replace_at i (off q) queues)
unfolding disconnect_queue
disconnect_queue-off i q queues e = rw (disconnect_queue, e, set_connection_flag-off q) refl

-- Destroying a line that is connected disconnects both of its queues, which keep their bytes. If the
-- line's outgoing queue is empty, a reader at the other end then fails with a lost connection: without
-- a time limit newly and after a wait; with one newly and when its time is over, while one that is
-- only notified waits on.
pub destroy_line-reader :
    (queues : List DataQueue) (line : InprocLine) (i o : ℕ) (q_in q_out : DataQueue) (phase : Phase)
    (n : ℕ)
    → line.m_in ≡ some i
    → line.m_out ≡ some o
    → o ≢ i
    → get_elem? queues i ≡ some q_in
    → get_elem? queues o ≡ some q_out
    → QueueIsValid q_out
    → n < 2 ^ 64
    → bytes_of q_out ≡ []
    → (queues' : List DataQueue) × (destroy_line queues line ≡ some queues')
      × (get_elem? queues' i ≡ some (off q_in))
      × (get_elem? queues' o ≡ some (off q_out))
      × (read_step phase (off q_out) n ≡ returns (read_failed connection_lost) (off q_out))
      × (read_with_timeout_step entering (off q_out) n
          ≡ returns (read_failed connection_lost) (off q_out))
      × (read_with_timeout_step expired (off q_out) n
          ≡ returns (read_failed connection_lost) (off q_out))
      × (read_with_timeout_step notified (off q_out) n ≡ waits (off q_out))
unfolding destroy_line replace_at
destroy_line-reader queues line i o q_in q_out phase n ei eo ne gi go v hn empty =
    let (at_once, late, waiting) = read_with_timeout_step_empty (off q_out) n v empty refl in
    (
      after,
      destroyed,
      get_elem?-replace_at i (off q_in) between (get_elem?-bound i between q_in between_in),
      get_elem?-other i o (off q_in) between (λ e. ne (sym e))
          ∙ get_elem?-replace_at o (off q_out) queues (get_elem?-bound o queues q_out go),
      read_step_empty phase (off q_out) n v empty refl,
      at_once,
      late,
      waiting,
    )
  where
    between : List DataQueue
    between = replace_at o (off q_out) queues

    after : List DataQueue
    after = replace_at i (off q_in) between

    between_in : get_elem? between i ≡ some q_in
    between_in = get_elem?-other o i (off q_out) queues ne ∙ gi

    destroyed : destroy_line queues line ≡ some after
    destroyed =
        rw
          (
            destroy_line,
            eo,
            disconnect_queue-off o q_out queues go,
            ei,
            disconnect_queue-off i q_in between between_in,
          )
          refl
