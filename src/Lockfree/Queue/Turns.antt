-- ===== src/Lockfree/Queue/Turns.antt =====
-- The calls of the queue over the ring without a lock, and the steps of its threads in any order:
-- DataQueue of src/common/inproc.cpp with one reader, one writer and a thread that sets the flag.
use libcppio.Prelude.{ℕ, ◌≡◌, Bool, true, false, Option, none, some, List, if◌then◌else◌}
use libcppio.DataQueue.Threads.{ReadCall}
use libcppio.Lockfree.{start_system}
use libcppio.Lockfree.Queue.{
  ReaderAt, idle, checking, asleep, late, WriterAt, w_idle, w_opening, QueueSystem, reader_to,
  writer_to, wake_reader, wake_writer, step_queue_reader, step_queue_writer,
}

-- What happens next: a thread in no call begins one, a thread takes a step, the time of a sleeping
-- reader is over, the flag is set or cleared, or the threads are notified that it was cleared.
pub data QueueTurn : Type 0 where
  read_called : ReadCall → QueueTurn
  write_called : List ℕ → QueueTurn
  reader_goes writer_goes time_over : QueueTurn
  flag_set : Bool → QueueTurn
  cleared : QueueTurn

unfoldable pub read_call : QueueSystem → ReadCall → ReaderAt → QueueSystem
read_call s call (idle last) = reader_to s (checking call)
read_call s call _ = s

unfoldable pub write_call : QueueSystem → List ℕ → WriterAt → QueueSystem
write_call s buffer (w_idle last) = writer_to s (w_opening buffer)
write_call s buffer _ = s

unfoldable pub expire : QueueSystem → ReaderAt → QueueSystem
expire s (asleep call) = if call.timed then reader_to s (late call) else s
expire s _ = s

-- `setConnectionFlag`, to the notifications.
unfoldable pub set_queue_flag : QueueSystem → Bool → QueueSystem
set_queue_flag s true = record s { m_connected = true }
set_queue_flag s false =
    if s.m_connected then record s { m_connected = false; clearing = true } else s

unfoldable pub notify_cleared : QueueSystem → QueueSystem
unfolding wake_reader wake_writer
notify_cleared s =
    if s.clearing
    then record s { clearing = false; reader = wake_reader s.reader; writer = wake_writer s.writer }
    else s

unfoldable pub run_queue : QueueSystem → QueueTurn → Option QueueSystem
unfolding step_queue_reader step_queue_writer read_call write_call expire set_queue_flag
    notify_cleared
run_queue s (read_called call) = some (read_call s call s.reader)
run_queue s (write_called buffer) = some (write_call s buffer s.writer)
run_queue s reader_goes = step_queue_reader s s.reader
run_queue s writer_goes = step_queue_writer s s.writer
run_queue s time_over = some (expire s s.reader)
run_queue s (flag_set c) = some (set_queue_flag s c)
run_queue s cleared = some (notify_cleared s)

-- `DataQueue::DataQueue`
abbrev pub start_queue : ℕ → QueueSystem
start_queue size = record {
  rings = start_system size;
  m_connected = false;
  reader = idle none;
  writer = w_idle none;
  clearing = false;
}

-- The states that a queue of the size comes to.
pub data QueueReach (size : ℕ) : QueueSystem → Type 0 where
  start : QueueReach size (start_queue size)
  later :
      {s t : QueueSystem} (turn : QueueTurn)
      → QueueReach size s
      → run_queue s turn ≡ some t
      → QueueReach size t
