-- ===== src/DataQueue/Threads.antt =====
-- A thread that reads and a thread that writes at one DataQueue of src/common/inproc.cpp, and a third
-- party that connects and disconnects it. A method of the first two is one step from where it has the
-- mutex to where it returns or is about to wait, and the wait itself is another: until then it has the
-- mutex, but `setConnectionFlag` takes none. The ring cannot change in a step, and no step looks at
-- the flag again once it has found it cleared, so a step sees the flag as it is at its last look. A
-- thread that waits sleeps on a condition variable until it is notified; then it has to get the mutex
-- before it goes on.
pub mod Outcomes
pub mod Invariant
pub mod Preserved
pub mod Safety
mod Tests
use libcppio.Prelude.{
  ℕ, ◌^◌, ◌<◌, ◌≡◌, Bool, true, false, List, [], ◌++◌, length, take, if◌then◌else◌, Option, none,
  some,
}
use libcppio.Line.{Received, received, read_failed, Accepted, accepted, write_failed}
use libcppio.DataQueue.{
  DataQueue, make_queue, Phase, entering, notified, expired, Step, returns, waits, faults,
  read_step, read_with_timeout_step, write_step, set_connection_flag,
}

-- Where a thread is: outside the methods, with the mutex and about to wait, asleep on the condition
-- variable in a call, or notified and about to take the mutex.
pub data Thread (Call : Type 0) : Type 0 where
  outside : Thread Call
  falling : Call → Thread Call
  asleep : Call → Thread Call
  woken : Call → Thread Call

-- `notify_all` on the condition variable, which a thread that does not sleep yet misses.
abbrev pub wake : {Call : Type 0} → Thread Call → Thread Call
wake outside = outside
wake (falling call) = falling call
wake (asleep call) = woken call
wake (woken call) = woken call

-- A call of `read`, or of `readWithTimeout`.
pub record ReadCall : Type 0 where
  pub timed : Bool
  pub buflen : ℕ

unfoldable pub call_read : Phase → DataQueue → ReadCall → Step Received
call_read phase q call =
    if call.timed then read_with_timeout_step phase q call.buflen else read_step phase q call.buflen

-- The queue, the two threads, whether the flag was cleared and the notifications of that are to come,
-- and what has gone through: all bytes accepted by `write` and all bytes given by the reading methods.
pub record System : Type 0 where
  pub queue : DataQueue
  pub reader : Thread ReadCall
  pub writer : Thread (List ℕ)
  pub clearing : Bool
  pub sent : List ℕ
  pub got : List ℕ

-- What the reader's step does to the system; `none` is a fault.
unfoldable pub after_read : System → ReadCall → Step Received → Option System
after_read s call (returns (received bs) q) =
    some (record s { queue = q; reader = outside; got = s.got ++ bs })
after_read s call (returns (read_failed e) q) = some (record s { queue = q; reader = outside })
after_read s call (waits q) = some (record s { queue = q; reader = falling call })
after_read s call faults = none

-- What the writer's step does: a write that has put bytes in the queue notifies the readers.
unfoldable pub after_write : System → List ℕ → Step Accepted → Option System
after_write s buffer (returns (accepted n) q) = some (record s {
  queue = q;
  writer = outside;
  reader = wake s.reader;
  sent = s.sent ++ take n buffer;
})
after_write s buffer (returns (write_failed e) q) = some (record s { queue = q; writer = outside })
after_write s buffer (waits q) = some (record s { queue = q; writer = falling buffer })
after_write s buffer faults = none

-- The reading methods notify the writers once, when they start.
abbrev pub writers_notified : System → System
writers_notified s = record s { writer = wake s.writer }

unfoldable pub begin_read : System → ReadCall → Option System
unfolding after_read call_read
begin_read s call = after_read (writers_notified s) call (call_read entering s.queue call)

unfoldable pub resume_read : System → ReadCall → Option System
unfolding after_read call_read
resume_read s call = after_read s call (call_read notified s.queue call)

unfoldable pub expire_read : System → ReadCall → Option System
unfolding after_read call_read
expire_read s call = after_read s call (call_read expired s.queue call)

unfoldable pub begin_write : System → List ℕ → Option System
unfolding after_write
begin_write s buffer = after_write s buffer (write_step entering s.queue buffer)

unfoldable pub resume_write : System → List ℕ → Option System
unfolding after_write
resume_write s buffer = after_write s buffer (write_step notified s.queue buffer)

-- `setConnectionFlag` up to the notifications, and these.
unfoldable pub set_flag : System → Bool → System
unfolding set_connection_flag
set_flag s c =
    let (q, notifies) = set_connection_flag s.queue c in
    record s { queue = q; clearing = if notifies then true else s.clearing }

unfoldable pub notify_flag : System → System
notify_flag s = record s { reader = wake s.reader; writer = wake s.writer; clearing = false }

-- What happens next: a thread outside begins a call, one that is about to wait sleeps and gives the
-- mutex up, a notified one goes on, a sleeping one wakes for no reason, the time of a reader is over,
-- the flag is set, or the notifications of `setConnectionFlag` are made.
pub data Turn : Type 0 where
  reader_begins reader_sleeps reader_resumes reader_expires : ReadCall → Turn
  writer_begins writer_sleeps writer_resumes : List ℕ → Turn
  reader_stirs writer_stirs : Turn
  flag_set : Bool → Turn
  flag_notifies : Turn

unfoldable pub run : System → Turn → Option System
unfolding begin_read resume_read expire_read begin_write resume_write set_flag notify_flag
run s (reader_begins call) = begin_read s call
run s (reader_sleeps call) = some (record s { reader = asleep call })
run s (reader_resumes call) = resume_read s call
run s (reader_expires call) = expire_read s call
run s (writer_begins buffer) = begin_write s buffer
run s (writer_sleeps buffer) = some (record s { writer = asleep buffer })
run s (writer_resumes buffer) = resume_write s buffer
run s reader_stirs = some (record s { reader = wake s.reader })
run s writer_stirs = some (record s { writer = wake s.writer })
run s (flag_set c) = some (set_flag s c)
run s flag_notifies = some (notify_flag s)

-- A thread does not have the mutex between its steps, unless it is about to wait.
abbrev pub LeavesMutex : {Call : Type 0} → Thread Call → Type 0
LeavesMutex (falling _) = ⊥
LeavesMutex outside = Unit
LeavesMutex (asleep _) = Unit
LeavesMutex (woken _) = Unit

-- When a turn may be taken: a step of a method takes the mutex, which the other thread must not have.
-- The length of a buffer fits a `size_t`.
abbrev pub Enabled : System → Turn → Type 0
Enabled s (reader_begins call) =
    (s.reader ≡ outside) × (call.buflen < 2 ^ 64) × LeavesMutex s.writer
Enabled s (reader_sleeps call) = s.reader ≡ falling call
Enabled s (reader_resumes call) = (s.reader ≡ woken call) × LeavesMutex s.writer
Enabled s (reader_expires call) =
    (s.reader ≡ asleep call) × (call.timed ≡ true) × LeavesMutex s.writer
Enabled s (writer_begins buffer) =
    (s.writer ≡ outside) × (length buffer < 2 ^ 64) × LeavesMutex s.reader
Enabled s (writer_sleeps buffer) = s.writer ≡ falling buffer
Enabled s (writer_resumes buffer) = (s.writer ≡ woken buffer) × LeavesMutex s.reader
Enabled s reader_stirs = Unit
Enabled s writer_stirs = Unit
Enabled s (flag_set c) = Unit
Enabled s flag_notifies = s.clearing ≡ true

abbrev pub start_system : ℕ → System
start_system size = record {
  queue = make_queue size;
  reader = outside;
  writer = outside;
  clearing = false;
  sent = [];
  got = [];
}

-- The states that a queue of the size comes to, in any order of the turns.
pub data Reach (size : ℕ) : System → Type 0 where
  start : Reach size (start_system size)
  later :
      {s t : System} (turn : Turn)
      → Reach size s
      → Enabled s turn
      → run s turn ≡ some t
      → Reach size t
