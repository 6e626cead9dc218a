-- ===== src/DataQueue/Threads/Invariant.antt =====
-- What holds in every state that the two threads reach.
use libcppio.Prelude.{
  ℕ, ◌^◌, ◌<◌, ◌≡◌, refl, ap, ◌∙◌, ◌⊎◌, inl, inr, List, [], ◌++◌, length, take, min, arith,
  take-min-length, Option, none, some,
}
use libcppio.Ring.{RingBuffer, capacity}
use libcppio.Ring.Queue.{contents}
use libcppio.Ring.Put.{free}
use libcppio.DataQueue.Steps.{bytes_of, QueueIsValid}
use libcppio.DataQueue.Threads.{
  Thread, outside, falling, asleep, woken, wake, ReadCall, System, LeavesMutex,
}

-- A reader's call fits a machine word. While it sleeps, or is about to, there is nothing to read.
abbrev pub ReaderOk : RingBuffer → Thread ReadCall → Type 0
ReaderOk r outside = Unit
ReaderOk r (falling call) = (call.buflen < 2 ^ 64) × (contents r ≡ [])
ReaderOk r (asleep call) = (call.buflen < 2 ^ 64) × (contents r ≡ [])
ReaderOk r (woken call) = call.buflen < 2 ^ 64

-- A writer's call fits a machine word. While it is about to sleep the queue is full; while it sleeps
-- the queue is full, or the reader is outside.
abbrev pub WriterOk : RingBuffer → Thread ReadCall → Thread (List ℕ) → Type 0
WriterOk r reader outside = Unit
WriterOk r reader (falling buffer) = (length buffer < 2 ^ 64) × (free r ≡ 0)
WriterOk r reader (asleep buffer) = (length buffer < 2 ^ 64) × ((free r ≡ 0) ⊎ (reader ≡ outside))
WriterOk r reader (woken buffer) = length buffer < 2 ^ 64

-- The ring is valid and of its first size, the bytes given and held are those accepted, in order, and
-- the threads are as above.
pub record IsSound (size : ℕ) (s : System) : Type 0 where
  pub valid : QueueIsValid s.queue
  pub sized : capacity s.queue.m_buffer ≡ size
  pub in_order : s.got ++ bytes_of s.queue ≡ s.sent
  pub reader_ok : ReaderOk s.queue.m_buffer s.reader
  pub writer_ok : WriterOk s.queue.m_buffer s.reader s.writer

abbrev pub Sound : ℕ → Option System → Type 0
Sound size none = ⊥
Sound size (some t) = IsSound size t

-- A notification keeps the threads in order.
pub ReaderOk-wake :
    (r : RingBuffer) (reader : Thread ReadCall) → ReaderOk r reader → ReaderOk r (wake reader)
ReaderOk-wake r outside ok = tt
ReaderOk-wake r (falling call) ok = ok
ReaderOk-wake r (asleep call) ok = ok.0
ReaderOk-wake r (woken call) ok = ok

pub WriterOk-wake :
    (r : RingBuffer) (reader reader' : Thread ReadCall) (writer : Thread (List ℕ))
    → WriterOk r reader writer
    → WriterOk r reader' (wake writer)
WriterOk-wake r reader reader' outside ok = tt
WriterOk-wake r reader reader' (falling buffer) ok = ok
WriterOk-wake r reader reader' (asleep buffer) ok = ok.0
WriterOk-wake r reader reader' (woken buffer) ok = ok

-- The ring may be in any state after a notification that the reader does not miss.
pub ReaderOk-woken :
    (r r' : RingBuffer) (reader : Thread ReadCall)
    → LeavesMutex reader
    → ReaderOk r reader
    → ReaderOk r' (wake reader)
ReaderOk-woken r r' outside leaves ok = tt
ReaderOk-woken r r' (falling call) leaves ok = absurd leaves
ReaderOk-woken r r' (asleep call) leaves ok = ok.0
ReaderOk-woken r r' (woken call) leaves ok = ok

-- With the reader outside a sleeping writer is in order.
pub WriterOk-outside :
    (r r' : RingBuffer) (reader : Thread ReadCall) (writer : Thread (List ℕ))
    → LeavesMutex writer
    → WriterOk r reader writer
    → WriterOk r' outside writer
WriterOk-outside r r' reader outside leaves ok = tt
WriterOk-outside r r' reader (falling buffer) leaves ok = absurd leaves
WriterOk-outside r r' reader (asleep buffer) leaves ok = (ok.0, inr refl)
WriterOk-outside r r' reader (woken buffer) leaves ok = ok

-- A reader that is inside, and goes on there, finds the writer asleep only at a full queue.
pub WriterOk-inside :
    (r : RingBuffer) (reader reader' : Thread ReadCall) (writer : Thread (List ℕ))
    → (reader ≡ outside → ⊥)
    → WriterOk r reader writer
    → WriterOk r reader' writer
WriterOk-inside r reader reader' outside ne ok = tt
WriterOk-inside r reader reader' (falling buffer) ne ok = ok
WriterOk-inside r reader reader' (asleep buffer) ne (small, inl full) = (small, inl full)
WriterOk-inside r reader reader' (asleep buffer) ne (small, inr out) = absurd (ne out)
WriterOk-inside r reader reader' (woken buffer) ne ok = ok

-- Waking the reader leaves the writer in order.
pub WriterOk-stirred :
    (r : RingBuffer) (reader : Thread ReadCall) (writer : Thread (List ℕ))
    → WriterOk r reader writer
    → WriterOk r (wake reader) writer
WriterOk-stirred r outside writer ok = ok
WriterOk-stirred r (falling call) writer ok = ok
WriterOk-stirred r (asleep call) writer ok =
    WriterOk-inside r (asleep call) (woken call) writer (λ out. cc) ok
WriterOk-stirred r (woken call) writer ok = ok

pub LeavesMutex-wake : {Call : Type 0} (t : Thread Call) → LeavesMutex t → LeavesMutex (wake t)
LeavesMutex-wake outside leaves = tt
LeavesMutex-wake (falling call) leaves = absurd leaves
LeavesMutex-wake (asleep call) leaves = tt
LeavesMutex-wake (woken call) leaves = tt

pub take_accepted :
    (room : ℕ) (buffer : List ℕ) → take (min (length buffer) room) buffer ≡ take room buffer
take_accepted room buffer =
    ap (λ k. take k buffer) {x = min (length buffer) room} {y = min room (length buffer)}
      (omega arith)
    ∙ take-min-length room buffer
