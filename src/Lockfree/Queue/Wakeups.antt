-- ===== src/Lockfree/Queue/Wakeups.antt =====
-- Notifications of the queue over the ring without a lock that reach nobody: src/common/inproc.cpp
-- calls `notify_one` and `notify_all` there without the mutex.
use libcppio.Prelude.{ℕ, ◌-◌, ◌≡◌, refl, Bool, true, false, Option, some, none, length}
use libcppio.Line.{Accepted, accepted}
use libcppio.DataQueue.Threads.{ReadCall}
use libcppio.Lockfree.Queue.{
  falling, asleep, checking, asking, deciding, w_idle, w_notifying, QueueSystem, step_queue_reader,
  step_queue_writer, wake_reader, wake_writer,
}
use libcppio.Lockfree.Queue.Turns.{
  notify_cleared, QueueTurn, reader_goes, writer_goes, cleared, flag_set, read_called, start_queue,
  QueueReach, start, later, run_queue,
}

-- Neither thread has a step left.
pub record Stuck (s : QueueSystem) : Type 0 where
  pub reader_stays : run_queue s reader_goes ≡ some s
  pub writer_stays : run_queue s writer_goes ≡ some s

asleep-Stuck :
    (s : QueueSystem) (call : ReadCall) (result : Option Accepted)
    → s.reader ≡ asleep call
    → s.writer ≡ w_idle result
    → Stuck s
unfolding run_queue step_queue_reader step_queue_writer
asleep-Stuck s call result er ew = record { reader_stays = rw er; writer_stays = rw ew }

-- From one state a turn and a step of the reader lead to another, where the reader sleeps and neither
-- thread has a step left.
abbrev pub SleepsOn : QueueSystem → QueueTurn → ReadCall → (QueueSystem → Type 0) → Type 0
SleepsOn s turn call After =
    (s1 : QueueSystem) × (s2 : QueueSystem) × (run_queue s turn ≡ some s1)
    × (run_queue s1 reader_goes ≡ some s2)
    × (s2.reader ≡ asleep call)
    × Stuck s2
    × After s2

-- A reader that has found the ring empty and is about to sleep does not notice the notification of a
-- write that ends before it sleeps: it then sleeps at the ring as the write has left it, the writer is
-- in no call, and neither thread has a step left.
pub notify-falling :
    (s : QueueSystem) (call : ReadCall) (locked : Bool) (before : ℕ)
    → s.reader ≡ falling call
    → s.writer ≡ w_notifying locked before
    → SleepsOn s writer_goes call (λ t. t.rings ≡ s.rings)
unfolding run_queue step_queue_reader step_queue_writer wake_reader
notify-falling s call locked before er ew = (
  record s {
    reader = falling call;
    writer = w_idle (some (accepted (length s.rings.accepted - before)));
  },
  record s {
    reader = asleep call;
    writer = w_idle (some (accepted (length s.rings.accepted - before)));
  },
  rw (ew, er) refl,
  refl,
  refl,
  asleep-Stuck _ call (some (accepted (length s.rings.accepted - before))) refl refl,
  refl,
)

-- A reader that has found the queue connected and is about to sleep does not notice that it has been
-- disconnected, if the notification comes before it sleeps: it then sleeps at a queue that is not
-- connected, no notification is to come, and, with the writer in no call, neither thread has a step
-- left.
pub cleared-falling :
    (s : QueueSystem) (call : ReadCall) (result : Option Accepted)
    → s.reader ≡ falling call
    → s.writer ≡ w_idle result
    → s.m_connected ≡ false
    → s.clearing ≡ true
    → SleepsOn s cleared call (λ t. (t.m_connected ≡ false) × (t.clearing ≡ false))
unfolding run_queue step_queue_reader wake_reader wake_writer notify_cleared
cleared-falling s call result er ew off ec = (
  record s { clearing = false; reader = falling call; writer = w_idle result },
  record s { clearing = false; reader = asleep call; writer = w_idle result },
  rw (ec, ew, er) refl,
  refl,
  refl,
  asleep-Stuck _ call result refl refl,
  (off, refl),
)

-- In the variant without a lock too, a reader without a time limit may be left asleep at a queue that
-- has been disconnected: for every size of the queue and every length that it asks for, there is a
-- state that is reached in which it sleeps, the queue is not connected, no notification is to come,
-- the writer is in no call, and neither thread has a step left.
pub disconnection_missed :
    (size n : ℕ)
    → (s : QueueSystem) × QueueReach size s
      × (s.reader ≡ asleep (record { timed = false; buflen = n }))
      × (s.m_connected ≡ false)
      × (s.clearing ≡ false)
      × (s.writer ≡ w_idle none)
      × Stuck s
unfolding run_queue
disconnection_missed size n =
    let call : ReadCall = record { timed = false; buflen = n } in
    let connected : QueueSystem = record (start_queue size) { m_connected = true } in
    let r1 : QueueReach size connected = later (flag_set true) start refl in
    let r2 : QueueReach size (record connected { reader = checking call }) =
      later (read_called call) r1 refl in
    let r3 : QueueReach size (record connected { reader = asking call }) =
      later reader_goes r2 refl in
    let r4 : QueueReach size (record connected { reader = deciding call }) =
      later reader_goes r3 refl in
    let before : QueueSystem = record connected { reader = falling call } in
    let r5 : QueueReach size before = later reader_goes r4 refl in
    let off : QueueSystem = record before { m_connected = false; clearing = true } in
    let r6 : QueueReach size off = later (flag_set false) r5 refl in
    let told : QueueSystem = record off { clearing = false } in
    let r7 : QueueReach size told = later cleared r6 refl in
    let left : QueueSystem = record told { reader = asleep call } in
    (left, later reader_goes r7 refl, refl, refl, refl, refl, asleep-Stuck left call none refl refl)
