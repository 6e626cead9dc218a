-- ===== src/Lockfree/Queue.antt =====
-- DataQueue of src/common/inproc.cpp over the ring without a lock: a thread that reads, one that
-- writes, and one that sets the connection flag. A step of a thread is one access to a pointer of the
-- ring that the other thread moves, to the flag or to the mutex, or one notification. A thread that
-- asks for the mutex while another has it stays where it is, and one that sleeps wakes only when it
-- is notified or its time is over.
pub mod Turns
pub mod Sound
pub mod Moves
pub mod Reader
pub mod Writer
pub mod Preserved
pub mod Sizes
pub mod Wakeups
mod Tests
use libcppio.Prelude.{
  ℕ, ◌+◌, ◌-◌, ◌%◌, ◌^◌, ◌≡◌, Bool, true, false, ◌&&◌, not, Option, none, some, List, [], ◌∷◌,
  length, take, drop, leb, ltb, ◌==◌, if◌then◌else◌,
}
use libcppio.Memory.{add_size, sub_size}
use libcppio.Line.{
  timeout, connection_lost, too_big_buffer, Received, received, read_failed, Accepted, accepted,
  write_failed,
}
use libcppio.Ring.{RingBuffer, capacity}
use libcppio.DataQueue.Threads.{ReadCall}
use libcppio.Lockfree
use libcppio.Lockfree.{
  At, outside, starting, loaded, copying, copied, System, reader_begins, writer_begins,
  reader_steps, writer_steps, run, start_system,
}

-- `availableReadSize` and `availableWriteSize` of the ring. The thread that asks loads two pointers,
-- of which one is its own, so it sees them as they are when it loads the other.
unfoldable pub ring_read_size : RingBuffer → ℕ
ring_read_size r =
    if r.m_rdptr == r.m_wrptr
    then 0
    else (if ltb r.m_rdptr r.m_wrptr
        then sub_size r.m_wrptr r.m_rdptr
        else add_size (sub_size (capacity r) r.m_rdptr) r.m_wrptr)

unfoldable pub ring_write_size : RingBuffer → ℕ
ring_write_size r =
    if r.m_rdptr == r.m_wrptr
    then sub_size (capacity r) 1
    else (if ltb r.m_rdptr r.m_wrptr
        then sub_size (add_size (sub_size (capacity r) r.m_wrptr) r.m_rdptr) 1
        else sub_size (sub_size r.m_rdptr r.m_wrptr) 1)

-- Where the reading thread is: in no call, with the result of the last one; before the first test;
-- before the look at the flag that `readWithTimeout` takes without the mutex; asking for the mutex;
-- at the test under it, and at the second one where that found no connection; about to sleep; asleep;
-- notified or out of time and asking for the mutex, and at the two tests after that; at the test for a
-- full ring, and asking for the mutex at one. The last two
-- are in `RingBuffer::read` and before the notification, with the mutex or not, and with the number
-- of bytes that all calls had given before.
pub data ReaderAt : Type 0 where
  idle : Option Received → ReaderAt
  checking flagging asking deciding refused falling asleep : ReadCall → ReaderAt
  woken rechecking emptied late ending ended testing_full asking_full : ReadCall → ReaderAt
  reading notifying : Bool → ℕ → ReaderAt

-- The same of the writing thread, with the buffer: before the test of its size, and that of the room.
pub data WriterAt : Type 0 where
  w_idle : Option Accepted → WriterAt
  w_opening w_checking w_asking w_deciding w_crowded w_testing w_falling : List ℕ → WriterAt
  w_asleep w_woken w_probing w_asking_empty : List ℕ → WriterAt
  w_writing w_notifying : Bool → ℕ → WriterAt

-- The queue, its threads, and whether the one that has cleared the flag has still to notify.
pub record QueueSystem : Type 0 where
  pub rings : System
  pub m_connected : Bool
  pub reader : ReaderAt
  pub writer : WriterAt
  pub clearing : Bool

-- Where a thread has the mutex.
unfoldable pub reader_holds : ReaderAt → Bool
reader_holds (deciding _) = true
reader_holds (refused _) = true
reader_holds (emptied _) = true
reader_holds (ended _) = true
reader_holds (falling _) = true
reader_holds (rechecking _) = true
reader_holds (ending _) = true
reader_holds (reading locked _) = locked
reader_holds (notifying locked _) = locked
reader_holds _ = false

unfoldable pub writer_holds : WriterAt → Bool
writer_holds (w_deciding _) = true
writer_holds (w_crowded _) = true
writer_holds (w_testing _) = true
writer_holds (w_falling _) = true
writer_holds (w_writing locked _) = locked
writer_holds (w_notifying locked _) = locked
writer_holds _ = false

-- A notification reaches a thread that is asleep, and no other.
unfoldable pub wake_reader : ReaderAt → ReaderAt
wake_reader (asleep call) = woken call
wake_reader at = at

unfoldable pub wake_writer : WriterAt → WriterAt
wake_writer (w_asleep buffer) = w_woken buffer
wake_writer at = at

abbrev pub reader_to : QueueSystem → ReaderAt → QueueSystem
reader_to s at = record s { reader = at }

abbrev pub writer_to : QueueSystem → WriterAt → QueueSystem
writer_to s at = record s { writer = at }

-- The call of `RingBuffer::read`; `buflen` is a `size_t`.
unfoldable pub begin_ring_read : QueueSystem → Bool → ReadCall → QueueSystem
begin_ring_read s locked call = record s {
  rings = record s.rings { reader = starting (record { buflen = call.buflen % 2 ^ 64; out = [] }) };
  reader = reading locked (length s.rings.given);
}

-- The call of `RingBuffer::write`; the length of the buffer is a `size_t`.
unfoldable pub begin_ring_write : QueueSystem → Bool → List ℕ → QueueSystem
begin_ring_write s locked buffer = record s {
  rings = record s.rings {
    writer = starting (record { buffer = take (length buffer % 2 ^ 64) buffer; written = [] });
  };
  writer = w_writing locked (length s.rings.accepted);
}

unfoldable pub ring_stepped : QueueSystem → Option System → Option QueueSystem
ring_stepped s none = none
ring_stepped s (some rings) = some (record s { rings = rings })

-- The reading thread in `RingBuffer::read`, which has returned when it is outside.
unfoldable pub in_ring_read : QueueSystem → Bool → ℕ → At Lockfree.ReadCall → Option QueueSystem
unfolding run ring_stepped
in_ring_read s locked before outside = some (reader_to s (notifying locked before))
in_ring_read s locked before _ = ring_stepped s (run s.rings reader_steps)

unfoldable pub in_ring_write : QueueSystem → Bool → ℕ → At Lockfree.WriteCall → Option QueueSystem
unfolding run ring_stepped
in_ring_write s locked before outside = some (writer_to s (w_notifying locked before))
in_ring_write s locked before _ = ring_stepped s (run s.rings writer_steps)

-- The reading thread's next step; `none` is an access outside the storage.
unfoldable pub step_queue_reader : QueueSystem → ReaderAt → Option QueueSystem
unfolding ring_read_size ring_write_size begin_ring_read in_ring_read writer_holds wake_writer
step_queue_reader s (idle last) = some s
step_queue_reader s (checking call) = some (
    if ring_read_size s.rings.ring == 0
    then reader_to s (if call.timed then flagging call else asking call)
    else (if call.timed then begin_ring_read s false call else reader_to s (testing_full call)))
step_queue_reader s (flagging call) =
    some (
      reader_to s
        (if s.m_connected then asking call else idle (some (read_failed connection_lost))))
step_queue_reader s (asking call) =
    some (if writer_holds s.writer then s else reader_to s (deciding call))
step_queue_reader s (deciding call) = some (
    if call.timed
    then (if ltb 0 (ring_read_size s.rings.ring)
        then begin_ring_read s false call
        else reader_to s (falling call))
    else reader_to s (if s.m_connected then falling call else refused call))
step_queue_reader s (refused call) = some (
    reader_to s (
      if ring_read_size s.rings.ring == 0
      then idle (some (read_failed connection_lost))
      else checking call))
step_queue_reader s (falling call) = some (reader_to s (asleep call))
step_queue_reader s (asleep call) = some s
step_queue_reader s (woken call) =
    some (if writer_holds s.writer then s else reader_to s (rechecking call))
step_queue_reader s (rechecking call) = some (
    if call.timed
    then (if ltb 0 (ring_read_size s.rings.ring)
        then begin_ring_read s false call
        else reader_to s (falling call))
    else reader_to s (if ring_read_size s.rings.ring == 0 then emptied call else checking call))
step_queue_reader s (emptied call) = some (
    reader_to s
      (if s.m_connected then checking call else idle (some (read_failed connection_lost))))
step_queue_reader s (late call) =
    some (if writer_holds s.writer then s else reader_to s (ending call))
step_queue_reader s (ending call) = some (
    if ltb 0 (ring_read_size s.rings.ring)
    then begin_ring_read s false call
    else reader_to s (ended call))
step_queue_reader s (ended call) =
    some
      (reader_to s (idle (some (read_failed (if s.m_connected then timeout else connection_lost)))))
step_queue_reader s (testing_full call) = some (
    if ring_write_size s.rings.ring == 0
    then reader_to s (asking_full call)
    else begin_ring_read s false call)
step_queue_reader s (asking_full call) =
    some (if writer_holds s.writer then s else begin_ring_read s true call)
step_queue_reader s (reading locked before) = in_ring_read s locked before s.rings.reader
step_queue_reader s (notifying locked before) = some (record s {
  writer = wake_writer s.writer;
  reader = idle (some (received (drop before s.rings.given)));
})

-- The writing thread's next step.
unfoldable pub step_queue_writer : QueueSystem → WriterAt → Option QueueSystem
unfolding ring_read_size ring_write_size begin_ring_write in_ring_write reader_holds wake_reader
step_queue_writer s (w_idle last) = some s
step_queue_writer s (w_opening buffer) = some (
    writer_to s (
      if leb (capacity s.rings.ring) (length buffer)
      then w_idle (some (write_failed too_big_buffer))
      else w_checking buffer))
step_queue_writer s (w_checking buffer) = some (
    writer_to s (
      if ltb (ring_write_size s.rings.ring) (length buffer)
      then w_asking buffer
      else w_probing buffer))
step_queue_writer s (w_asking buffer) =
    some (if reader_holds s.reader then s else writer_to s (w_deciding buffer))
step_queue_writer s (w_deciding buffer) = some (
    writer_to s (
      if ltb (ring_write_size s.rings.ring) (length buffer)
      then w_crowded buffer
      else w_testing buffer))
step_queue_writer s (w_crowded buffer) = some (
    writer_to s
      (if s.m_connected then w_testing buffer else w_idle (some (write_failed connection_lost))))
step_queue_writer s (w_testing buffer) = some (
    writer_to s (
      if leb (length buffer) (ring_write_size s.rings.ring)
      then w_probing buffer
      else w_falling buffer))
step_queue_writer s (w_falling buffer) = some (writer_to s (w_asleep buffer))
step_queue_writer s (w_asleep buffer) = some s
step_queue_writer s (w_woken buffer) =
    some (if reader_holds s.reader then s else writer_to s (w_testing buffer))
step_queue_writer s (w_probing buffer) = some (
    if ring_read_size s.rings.ring == 0
    then writer_to s (w_asking_empty buffer)
    else begin_ring_write s false buffer)
step_queue_writer s (w_asking_empty buffer) =
    some (if reader_holds s.reader then s else begin_ring_write s true buffer)
step_queue_writer s (w_writing locked before) = in_ring_write s locked before s.rings.writer
step_queue_writer s (w_notifying locked before) = some (record s {
  reader = wake_reader s.reader;
  writer = w_idle (some (accepted (length s.rings.accepted - before)));
})
