-- ===== src/Lockfree/Races.antt =====
-- Which memory the threads of the lock-free ring of src/common/inproc.cpp touch at the same time.
use libcppio.Prelude.{ℕ, ◌+◌, ◌^◌, ◌≤◌, ◌<◌, ◌≡◌, ◌⊎◌, inl, inr, subst, length, arith}
use native.Mathlib.Decide.{dec_le}
use libcppio.Ring.{capacity}
use libcppio.Lockfree.{copying, ReadCall, WriteCall, System, read_count, write_count, Reach}
use libcppio.Lockfree.Held.{Claimed, Reserved}
use libcppio.Lockfree.Invariant.{
  ReaderOk, WriterOk, MayCopy, MayStore, read_count_lem, write_count_lem,
}
use libcppio.Lockfree.Preserved.{Lockfree-IsSound}

-- In a state that is reached in which both threads are at their copies, the bytes of the storage that
-- the reader copies and those that the writer overwrites do not overlap. The size is positive and
-- below 2^63.
pub race_free :
    {size : ℕ} {s : System} (r_call : ReadCall) (w_call : WriteCall)
    (r_wrptr r_rdptr w_wrptr w_rdptr : ℕ)
    → 0 < size
    → size < 2 ^ 63
    → Reach size s
    → s.reader ≡ copying r_call r_wrptr r_rdptr
    → s.writer ≡ copying w_call w_wrptr w_rdptr
    → (r_rdptr + read_count size r_wrptr r_rdptr r_call.buflen ≤ w_wrptr)
      ⊎ (w_wrptr + write_count size w_wrptr w_rdptr (length w_call.buffer) ≤ r_rdptr)
race_free {size} {s} r_call w_call r_wrptr r_rdptr w_wrptr w_rdptr pos small r at_r at_w =
    subst
      (λ n.
        (r_rdptr + read_count n r_wrptr r_rdptr r_call.buflen ≤ w_wrptr)
        ⊎ (w_wrptr + write_count n w_wrptr w_rdptr (length w_call.buffer) ≤ r_rdptr))
      (Lockfree-IsSound pos small r).sized
      (elim (dec_le s.ring.m_rdptr s.ring.m_wrptr) [
        | yes up ↦ inl (ground (arith, claim, may.1, store.1))
        | no round ↦ inr (ground (arith, room, may.1, store.1))
      ])
  where
    may : MayCopy s.ring r_call r_wrptr r_rdptr
    may = subst (ReaderOk s.ring) at_r (Lockfree-IsSound pos small r).reader_ok

    store : MayStore s.ring w_call w_wrptr w_rdptr
    store = subst (WriterOk s.ring) at_w (Lockfree-IsSound pos small r).writer_ok

    claim :
        Claimed
          (capacity s.ring)
          s.ring.m_rdptr
          s.ring.m_wrptr
          (read_count (capacity s.ring) r_wrptr r_rdptr r_call.buflen)
    claim =
        (read_count_lem s.ring r_call r_wrptr r_rdptr (Lockfree-IsSound pos small r).valid may).0

    room :
        Reserved
          (capacity s.ring)
          s.ring.m_rdptr
          s.ring.m_wrptr
          (write_count (capacity s.ring) w_wrptr w_rdptr (length w_call.buffer))
    room =
        (write_count_lem s.ring w_call w_wrptr w_rdptr (Lockfree-IsSound pos small r).valid store).0
