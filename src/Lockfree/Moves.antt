-- ===== src/Lockfree/Moves.antt =====
-- How the steps of one thread of the lock-free ring of src/common/inproc.cpp look to the other.
use libcppio.Prelude.{ℕ, ◌≡◌, sym, ap, ◌∙◌, List, length, take, drop, arith}
use libcppio.Memory.Access.{patch}
use libcppio.Ring.{RingBuffer, capacity}
use libcppio.Ring.Queue.{IsValid}
use libcppio.Lockfree.{
  At, outside, starting, loaded, copying, copied, ReadCall, WriteCall, read_count,
}
use libcppio.Lockfree.Held.{advance, Claimed, Reserved, same_size, Claimed-kept}
use libcppio.Lockfree.Invariant.{SeenWriter, SeenReader, ReaderOk, WriterOk, read_count_lem}

-- The reader publishes `k` bytes.
module _ (r : RingBuffer) (k : ℕ) (v : IsValid r)
    (claim : Claimed (capacity r) r.m_rdptr r.m_wrptr k) where
  abbrev pub read_ring : RingBuffer
  read_ring = record r { m_rdptr = advance (capacity r) r.m_rdptr k }

  pub read_ring-IsValid : IsValid read_ring
  read_ring-IsValid = ground (arith, v)

  SeenReader-read : (rdptr : ℕ) → SeenReader r rdptr → SeenReader read_ring rdptr
  SeenReader-read rdptr (inside, far) = ground (arith, v)

  pub WriterOk-read : (writer : At WriteCall) → WriterOk r writer → WriterOk read_ring writer
  WriterOk-read outside ok = tt
  WriterOk-read (starting call) ok = ok
  WriterOk-read (loaded call wrptr) ok = ok
  WriterOk-read (copying call wrptr rdptr) (small, e, seen) = (small, e, SeenReader-read rdptr seen)
  WriterOk-read (copied call wrptr rdptr bytes) ((small, e, seen), stands) =
      ((small, e, SeenReader-read rdptr seen), stands)

-- The writer publishes `k` bytes.
module _ (r : RingBuffer) (k : ℕ) (v : IsValid r)
    (room : Reserved (capacity r) r.m_rdptr r.m_wrptr k) where
  abbrev pub written_ring : RingBuffer
  written_ring = record r { m_wrptr = advance (capacity r) r.m_wrptr k }

  pub written_ring-IsValid : IsValid written_ring
  written_ring-IsValid = ground (arith, v)

  SeenWriter-write : (wrptr : ℕ) → SeenWriter r wrptr → SeenWriter written_ring wrptr
  SeenWriter-write wrptr (inside, near) = ground (arith, v)

  pub ReaderOk-write : (reader : At ReadCall) → ReaderOk r reader → ReaderOk written_ring reader
  ReaderOk-write outside ok = tt
  ReaderOk-write (starting call) ok = ok
  ReaderOk-write (loaded call wrptr) (small, seen) = (small, SeenWriter-write wrptr seen)
  ReaderOk-write (copying call wrptr rdptr) (small, e, ne, seen) =
      (small, e, ne, SeenWriter-write wrptr seen)
  ReaderOk-write (copied call wrptr rdptr bytes) ((small, e, ne, seen), stands) =
      ((small, e, ne, SeenWriter-write wrptr seen), stands)

-- The writer stores bytes.
module _ (r : RingBuffer) (bytes : List ℕ) (v : IsValid r)
    (room : Reserved (capacity r) r.m_rdptr r.m_wrptr (length bytes)) where
  abbrev pub stored_ring : RingBuffer
  stored_ring = record r { m_data = patch r.m_data r.m_wrptr bytes }

  pub same_capacity : capacity stored_ring ≡ capacity r
  same_capacity = same_size r.m_data r.m_rdptr r.m_wrptr bytes v.reads_inside v.writes_inside room

  pub stored_ring-IsValid : IsValid stored_ring
  stored_ring-IsValid = omega (arith, same_capacity, v.reads_inside, v.writes_inside, v.addressable)

  SeenWriter-store : (wrptr : ℕ) → SeenWriter r wrptr → SeenWriter stored_ring wrptr
  SeenWriter-store wrptr (inside, near) = ground (arith, same_capacity)

  pub ReaderOk-store : (reader : At ReadCall) → ReaderOk r reader → ReaderOk stored_ring reader
  ReaderOk-store outside ok = tt
  ReaderOk-store (starting call) ok = ok
  ReaderOk-store (loaded call wrptr) (small, seen) = (small, SeenWriter-store wrptr seen)
  ReaderOk-store (copying call wrptr rdptr) (small, e, ne, seen) =
      (small, e, ne, SeenWriter-store wrptr seen)
  ReaderOk-store (copied call wrptr rdptr bytes') ((small, e, ne, seen), stands) = (
    (small, e, ne, SeenWriter-store wrptr seen),
    stands
        ∙ ap (λ p. take (count (capacity r)) (drop p r.m_data)) e
        ∙ sym (
            Claimed-kept r.m_data r.m_rdptr r.m_wrptr bytes v.reads_inside v.writes_inside room
              (count (capacity r)) (read_count_lem r call wrptr rdptr v (small, e, ne, seen)).0)
        ∙ ap (λ p. take (count (capacity r)) (drop p stored_ring.m_data)) (sym e)
        ∙ ap (λ n. take (count n) (drop rdptr stored_ring.m_data)) (sym same_capacity),
  )
    where
      count : ℕ → ℕ
      count n = read_count n wrptr rdptr call.buflen
