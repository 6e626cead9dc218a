-- ===== src/DataQueue/Threads/Outcomes.antt =====
-- The outcomes of one step of a thread, in the form that the invariant needs.
use libcppio.Prelude.{
  ℕ, zero, suc, ◌^◌, ◌<◌, ◌≡◌, refl, ◌⊎◌, inl, inr, Bool, true, false, List, [], ◌∷◌, length, leb,
  if◌then◌else◌,
}
use libcppio.Line.{
  ErrorCode, timeout, connection_lost, too_big_buffer, Received, read_failed, Accepted,
  write_failed,
}
use libcppio.Ring.{capacity}
use libcppio.Ring.Put.{free}
use libcppio.DataQueue.{
  DataQueue, Phase, entering, notified, expired, Step, returns, waits, read_step,
  read_with_timeout_step, write_step,
}
use libcppio.DataQueue.Steps.{
  bytes_of, QueueIsValid, Gave, ReadLaw, read_step_lem, TimedReadLaw, read_with_timeout_step_lem,
}
use libcppio.DataQueue.Writes.{Took, WriteLaw, write_step_lem}
use libcppio.DataQueue.Threads.{ReadCall, call_read}

-- A step of the reader gives bytes, or at an empty queue fails and leaves it as it is, or waits there,
-- without a time limit only if the queue is connected.
pub data ReadEnd (q : DataQueue) (call : ReadCall) (step : Step Received) : Type 0 where
  gives : Gave q call.buflen step → ReadEnd q call step
  fails : (e : ErrorCode) → step ≡ returns (read_failed e) q → bytes_of q ≡ [] → ReadEnd q call step
  sleeps :
      step ≡ waits q
      → bytes_of q ≡ []
      → (call.timed ≡ true) ⊎ (q.m_connected ≡ true)
      → ReadEnd q call step

read_end :
    (q : DataQueue) (n : ℕ) (step : Step Received) (held : List ℕ) (flag : Bool)
    → bytes_of q ≡ held
    → q.m_connected ≡ flag
    → ReadLaw held flag q n step
    → ReadEnd q (record { timed = false; buflen = n }) step
unfolding ReadLaw
read_end q n step [] false e f law = fails connection_lost law e
read_end q n step [] true e f law = sleeps law e (inr f)
read_end q n step (b ∷ bs) flag e f law = gives law

timed-ReadEnd :
    (phase : Phase) (q : DataQueue) (n : ℕ) (step : Step Received) (held : List ℕ) (flag : Bool)
    → bytes_of q ≡ held
    → q.m_connected ≡ flag
    → TimedReadLaw phase held flag q n step
    → ReadEnd q (record { timed = true; buflen = n }) step
unfolding TimedReadLaw
timed-ReadEnd entering q n step [] false e f law = fails connection_lost law e
timed-ReadEnd entering q n step [] true e f law = sleeps law e (inl refl)
timed-ReadEnd notified q n step [] flag e f law = sleeps law e (inl refl)
timed-ReadEnd expired q n step [] false e f law = fails connection_lost law e
timed-ReadEnd expired q n step [] true e f law = fails timeout law e
timed-ReadEnd entering q n step (b ∷ bs) flag e f law = gives law
timed-ReadEnd notified q n step (b ∷ bs) flag e f law = gives law
timed-ReadEnd expired q n step (b ∷ bs) flag e f law = gives law

either-ReadEnd :
    (timed : Bool) (phase : Phase) (q : DataQueue) (n : ℕ)
    → QueueIsValid q
    → n < 2 ^ 64
    → ReadEnd q
        (record { timed = timed; buflen = n })
        (if timed then read_with_timeout_step phase q n else read_step phase q n)
either-ReadEnd true phase q n v h =
    timed-ReadEnd phase q n (read_with_timeout_step phase q n) (bytes_of q) q.m_connected refl refl
      (read_with_timeout_step_lem phase q n v h)
either-ReadEnd false phase q n v h =
    read_end q n (read_step phase q n) (bytes_of q) q.m_connected refl refl
      (read_step_lem phase q n v h)

pub call_read-ReadEnd :
    (phase : Phase) (q : DataQueue) (call : ReadCall)
    → QueueIsValid q
    → call.buflen < 2 ^ 64
    → ReadEnd q call (call_read phase q call)
unfolding call_read
call_read-ReadEnd phase q call v h = either-ReadEnd call.timed phase q call.buflen v h

-- A step of the writer accepts bytes, fails and leaves the queue as it is, or waits, which it does
-- only at a full queue.
pub data WriteEnd (q : DataQueue) (buffer : List ℕ) (step : Step Accepted) : Type 0 where
  takes : Took q buffer step → WriteEnd q buffer step
  fails : (e : ErrorCode) → step ≡ returns (write_failed e) q → WriteEnd q buffer step
  sleeps : step ≡ waits q → free q.m_buffer ≡ 0 → WriteEnd q buffer step

write_end :
    (phase : Phase) (large : Bool) (room : ℕ) (flag : Bool) (q : DataQueue) (buffer : List ℕ)
    (step : Step Accepted)
    → free q.m_buffer ≡ room
    → WriteLaw phase large room flag q buffer step
    → WriteEnd q buffer step
unfolding WriteLaw
write_end entering true room flag q buffer step e law = fails too_big_buffer law
write_end entering false zero false q buffer step e law = fails connection_lost law
write_end entering false zero true q buffer step e law = sleeps law e
write_end entering false (suc k) flag q buffer step e law = takes law
write_end notified large zero flag q buffer step e law = sleeps law e
write_end notified large (suc k) flag q buffer step e law = takes law
write_end expired large zero flag q buffer step e law = sleeps law e
write_end expired large (suc k) flag q buffer step e law = takes law

pub write_step_end :
    (phase : Phase) (q : DataQueue) (buffer : List ℕ)
    → QueueIsValid q
    → length buffer < 2 ^ 64
    → WriteEnd q buffer (write_step phase q buffer)
write_step_end phase q buffer v h =
    write_end phase (leb (capacity q.m_buffer) (length buffer)) (free q.m_buffer) q.m_connected q
      buffer (write_step phase q buffer) refl (write_step_lem phase q buffer v h)
