-- ===== src/Lockfree/Invariant.antt =====
-- What holds of the lock-free ring of src/common/inproc.cpp in every state that its two threads reach.
use libcppio.Prelude.{
  ℕ, ◌+◌, ◌-◌, ◌^◌, ◌≤◌, ◌<◌, ◌≡◌, ◌≢◌, List, [], ◌++◌, length, take, drop, leb, if◌then◌else◌,
  arith,
}
use libcppio.Ring.{RingBuffer, capacity}
use libcppio.Ring.Queue.{IsValid, contents}
use libcppio.Lockfree.{
  At, outside, starting, loaded, copying, copied, ReadCall, WriteCall, System, read_count,
  write_count, wrapped,
}
use libcppio.Lockfree.Held.{advance, Claimed, Reserved}

-- How far it is from one place to another, round the end.
abbrev pub distance : ℕ → ℕ → ℕ → ℕ
distance size a b = if leb a b then b - a else b + size - a

-- A value of `m_wrptr` that the reader may have loaded, now or before: from the read pointer it is no
-- further than the write pointer.
abbrev pub SeenWriter : RingBuffer → ℕ → Type 0
SeenWriter r wrptr =
    (wrptr < capacity r)
    × (distance (capacity r) r.m_rdptr wrptr ≤ distance (capacity r) r.m_rdptr r.m_wrptr)

-- A value of `m_rdptr` that the writer may have loaded: to the write pointer it is no nearer than the
-- read pointer.
abbrev pub SeenReader : RingBuffer → ℕ → Type 0
SeenReader r rdptr =
    (rdptr < capacity r)
    × (distance (capacity r) r.m_rdptr r.m_wrptr ≤ distance (capacity r) rdptr r.m_wrptr)

abbrev pub MayCopy : RingBuffer → ReadCall → ℕ → ℕ → Type 0
MayCopy r call wrptr rdptr =
    (call.buflen < 2 ^ 64) × (rdptr ≡ r.m_rdptr) × (wrptr ≢ rdptr) × SeenWriter r wrptr

-- The reader's own pointer stands still in a call, what it has loaded of the writer's is as above, and
-- what it has copied is still in the storage.
abbrev pub ReaderOk : RingBuffer → At ReadCall → Type 0
ReaderOk r outside = Unit
ReaderOk r (starting call) = call.buflen < 2 ^ 64
ReaderOk r (loaded call wrptr) = (call.buflen < 2 ^ 64) × SeenWriter r wrptr
ReaderOk r (copying call wrptr rdptr) = MayCopy r call wrptr rdptr
ReaderOk r (copied call wrptr rdptr bytes) =
    MayCopy r call wrptr rdptr
    × (bytes ≡ take (read_count (capacity r) wrptr rdptr call.buflen) (drop rdptr r.m_data))

abbrev pub MayStore : RingBuffer → WriteCall → ℕ → ℕ → Type 0
MayStore r call wrptr rdptr =
    (length call.buffer < 2 ^ 64) × (wrptr ≡ r.m_wrptr) × SeenReader r rdptr

-- The same of the writer: what it has stored stands behind the write pointer.
abbrev pub WriterOk : RingBuffer → At WriteCall → Type 0
WriterOk r outside = Unit
WriterOk r (starting call) = length call.buffer < 2 ^ 64
WriterOk r (loaded call wrptr) = (length call.buffer < 2 ^ 64) × (wrptr ≡ r.m_wrptr)
WriterOk r (copying call wrptr rdptr) = MayStore r call wrptr rdptr
WriterOk r (copied call wrptr rdptr bytes) =
    MayStore r call wrptr rdptr
    × (take (write_count (capacity r) wrptr rdptr (length call.buffer)) (drop wrptr r.m_data)
        ≡ bytes)

-- What the call in progress has copied, or written, so far.
abbrev pub out_of : At ReadCall → List ℕ
out_of outside = []
out_of (starting call) = call.out
out_of (loaded call _) = call.out
out_of (copying call _ _) = call.out
out_of (copied call _ _ _) = call.out

abbrev pub written_of : At WriteCall → List ℕ
written_of outside = []
written_of (starting call) = call.written
written_of (loaded call _) = call.written
written_of (copying call _ _) = call.written
written_of (copied call _ _ _) = call.written

-- The ring is valid and of its first size; the bytes read and those held are the bytes written, in
-- order; and the threads are as above.
pub record IsSound (size : ℕ) (s : System) : Type 0 where
  pub valid : IsValid s.ring
  pub sized : capacity s.ring ≡ size
  pub in_order : (s.given ++ out_of s.reader) ++ contents s.ring ≡ s.accepted ++ written_of s.writer
  pub reader_ok : ReaderOk s.ring s.reader
  pub writer_ok : WriterOk s.ring s.writer

-- The reader copies bytes that are held in one piece, up to the end of the storage at most, and
-- leaves the pointer where it belongs.
pub read_count_lem :
    (r : RingBuffer) (call : ReadCall) (wrptr rdptr : ℕ)
    → IsValid r
    → MayCopy r call wrptr rdptr
    → let k = read_count (capacity r) wrptr rdptr call.buflen in
      Claimed (capacity r) r.m_rdptr r.m_wrptr k
      × (k ≤ call.buflen)
      × (rdptr + k ≤ capacity r)
      × (wrapped (capacity r) rdptr k ≡ advance (capacity r) rdptr k)
unfolding read_count wrapped
read_count_lem r call wrptr rdptr v (small, e, ne, (seen, near)) = ground arith

-- The writer stores bytes in places that are free.
pub write_count_lem :
    (r : RingBuffer) (call : WriteCall) (wrptr rdptr : ℕ)
    → IsValid r
    → MayStore r call wrptr rdptr
    → let k = write_count (capacity r) wrptr rdptr (length call.buffer) in
      Reserved (capacity r) r.m_rdptr r.m_wrptr k
      × (k ≤ length call.buffer)
      × (wrptr + k ≤ capacity r)
      × (wrapped (capacity r) wrptr k ≡ advance (capacity r) wrptr k)
unfolding write_count wrapped
write_count_lem r call wrptr rdptr v (small, e, (seen, near)) = ground arith
