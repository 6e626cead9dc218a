-- ===== src/DataQueue.antt =====
-- DataQueue of src/common/inproc.h and, in the blocking variant, src/common/inproc.cpp: a ring with a
-- connection flag, on which threads wait. A method runs under the queue's mutex and gives it up only
-- while it waits, so it is modelled as one step from where it has the mutex to where it returns or
-- waits; only setConnectionFlag takes no mutex, and may come between such a step and the wait.
pub mod Steps
pub mod Writes
pub mod Threads
mod Tests
use libcppio.Prelude.{
  ℕ, ◌<◌, ◌≤◌, Bool, true, false, ◌&&◌, not, List, [], length, leb, ltb, ◌==◌, if◌then◌else◌,
}
use libcppio.Memory.{Outcome, ok, length_error, out_of_bounds, out_of_fuel}
use libcppio.Line.{
  ErrorCode, timeout, connection_lost, too_big_buffer, Received, received, read_failed, Accepted,
  accepted, write_failed,
}
use libcppio.Ring.{
  RingBuffer, Reading, Writing, make_ring, capacity, available_read_size, available_write_size,
}
use libcppio.Ring

pub record DataQueue : Type 0 where
  pub m_buffer : RingBuffer
  pub m_connected : Bool

-- `DataQueue::DataQueue`
unfoldable pub make_queue : ℕ → DataQueue
make_queue buffer_size = record { m_buffer = Ring.make_ring buffer_size; m_connected = false }

-- Where a thread has the mutex: at the start of the method, after a wait that was notified, or after
-- a wait whose time is over.
pub data Phase : Type 0 where
  entering notified expired : Phase

-- The method returns, it waits and gives the mutex up, or it has touched memory outside the ring.
pub data Step (R : Type 0) : Type 0 where
  returns : R → DataQueue → Step R
  waits : DataQueue → Step R
  faults : Step R

-- The `return m_buffer.read(buffer, buflen)` of the reading methods.
unfoldable pub read_buffer : DataQueue → ℕ → Step Received
read_buffer q buflen = elim (Ring.read q.m_buffer buflen) [
  | ok out ↦ returns (received out.bytes) (record q { m_buffer = out.ring })
  | length_error ↦ faults
  | out_of_bounds ↦ faults
  | out_of_fuel ↦ faults
]

-- `DataQueue::read`. A wait that ends is always a notified one; the loop's test follows the check.
unfoldable pub read_step : Phase → DataQueue → ℕ → Step Received
unfolding read_buffer
read_step phase q buflen =
    if available_read_size q.m_buffer == 0
    then (if not q.m_connected then returns (read_failed connection_lost) q else waits q)
    else read_buffer q buflen

-- `DataQueue::readWithTimeout`. `wait_for` goes on waiting after a notification while its predicate
-- is false, and returns the predicate when the time is over.
unfoldable pub read_with_timeout_step : Phase → DataQueue → ℕ → Step Received
unfolding read_buffer
read_with_timeout_step entering q buflen =
    if available_read_size q.m_buffer == 0
    then (if not q.m_connected then returns (read_failed connection_lost) q else waits q)
    else read_buffer q buflen
read_with_timeout_step notified q buflen =
    if ltb 0 (available_read_size q.m_buffer) then read_buffer q buflen else waits q
read_with_timeout_step expired q buflen =
    if ltb 0 (available_read_size q.m_buffer)
    then read_buffer q buflen
    else (if not q.m_connected
        then returns (read_failed connection_lost) q
        else returns (read_failed timeout) q)

-- The end of `DataQueue::write`, with the number of threads waiting to read that it notifies left
-- out: all of them.
unfoldable pub write_buffer : DataQueue → List ℕ → Step Accepted
write_buffer q buffer = elim (Ring.write q.m_buffer buffer) [
  | ok out ↦ returns (accepted out.count) (record q { m_buffer = out.ring })
  | length_error ↦ faults
  | out_of_bounds ↦ faults
  | out_of_fuel ↦ faults
]

-- `DataQueue::write`. Its wait has no time limit, and a predicate that asks only for room.
unfoldable pub write_step : Phase → DataQueue → List ℕ → Step Accepted
unfolding write_buffer
write_step entering q buffer =
    if leb (capacity q.m_buffer) (length buffer)
    then returns (write_failed too_big_buffer) q
    else (if available_write_size q.m_buffer == 0
        then (if not q.m_connected then returns (write_failed connection_lost) q else waits q)
        else write_buffer q buffer)
write_step _ q buffer =
    if ltb 0 (available_write_size q.m_buffer) then write_buffer q buffer else waits q

-- `DataQueue::setConnectionFlag`: the queue afterwards, and whether the waiting threads are notified.
unfoldable pub set_connection_flag : DataQueue → Bool → DataQueue × Bool
set_connection_flag q c =
    if c
    then (record q { m_connected = c }, false)
    else (if q.m_connected then (record q { m_connected = false }, true) else (q, false))
