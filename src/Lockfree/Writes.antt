-- ===== src/Lockfree/Writes.antt =====
-- The steps of RingBuffer::write without a lock, of src/common/inproc.cpp, keep the invariant.
use libcppio.Prelude.{
  ℕ, ◌≤◌, ◌<◌, ◌≡◌, inl, inr, refl, sym, ap, ap₂, subst, ◌∙◌, List, ◌++◌, length, take, drop, arith,
  append-nil, length-take,
}
use libcppio.Ring.{RingBuffer, capacity}
use libcppio.Lockfree.{
  At, outside, starting, loaded, copying, copied, WriteCall, System, write_count, write_returns,
  publish_write, step_writer,
}
use libcppio.Lockfree.Kept.{Sound, writer_goes, writer_moves, writer_stores}
use libcppio.Lockfree.Held.{Reserved, stored}
use libcppio.Lockfree.Invariant.{distance, MayStore, WriterOk, written_of, IsSound, write_count_lem}
use libcppio.Lockfree.Moves.{stored_ring, same_capacity}
use libcppio.Lockfree.Ends.{storing_result, written_by, more_to_write, write_end, WriteEnd}

module _ (size : ℕ) (s : System) (sound : IsSound size s) where
  publish_write-IsSound :
      (call : WriteCall) (wrptr rdptr : ℕ) (bytes : List ℕ)
      → s.writer ≡ copied call wrptr rdptr bytes
      → IsSound size (publish_write s call wrptr rdptr bytes)
  unfolding write_returns
  publish_write-IsSound call wrptr rdptr bytes at =
      by_end (write_end s call wrptr rdptr bytes sound.valid may)
    where
      writer_fine : WriterOk s.ring (copied call wrptr rdptr bytes)
      writer_fine = subst (WriterOk s.ring) at sound.writer_ok

      may : MayStore s.ring call wrptr rdptr
      may = writer_fine.0

      k : ℕ
      k = written_by s call wrptr rdptr bytes sound.valid may

      room : Reserved (capacity s.ring) s.ring.m_rdptr s.ring.m_wrptr k
      room = (write_count_lem s.ring call wrptr rdptr sound.valid may).0

      written :
          call.written ++ bytes ≡ written_of s.writer ++ take k (drop s.ring.m_wrptr s.ring.m_data)
      written =
          ap₂ ◌++◌ (ap written_of (sym at))
            (sym writer_fine.1 ∙ ap (λ p. take k (drop p s.ring.m_data)) may.1)

      by_end :
          WriteEnd s call wrptr rdptr bytes sound.valid may
          → IsSound size (publish_write s call wrptr rdptr bytes)
      by_end (inl returned) = subst (IsSound size) (sym returned) (
          writer_moves size s sound k outside (s.accepted ++ (call.written ++ bytes)) room tt (
            append-nil (s.accepted ++ (call.written ++ bytes)) ∙ ap (λ t. s.accepted ++ t) written))
      by_end (inr (goes, first, moved, small)) = subst (IsSound size) (sym goes) (
          writer_moves size s sound k
            (starting (more_to_write s call wrptr rdptr bytes sound.valid may)) s.accepted room
            small (ap (λ t. s.accepted ++ t) written))

  storing-Sound :
      (call : WriteCall) (wrptr rdptr : ℕ)
      → s.writer ≡ copying call wrptr rdptr
      → Sound size (step_writer s (copying call wrptr rdptr))
  unfolding step_writer
  storing-Sound call wrptr rdptr at =
      subst (Sound size) (sym (storing_result s call wrptr rdptr sound.valid may)) (
        writer_stores size s sound bytes (copied call wrptr rdptr bytes) room fine
          (ap written_of (sym at)))
    where
      may : MayStore s.ring call wrptr rdptr
      may = subst (WriterOk s.ring) at sound.writer_ok

      k : ℕ
      k = write_count (capacity s.ring) wrptr rdptr (length call.buffer)

      bytes : List ℕ
      bytes = take k call.buffer

      measure : length bytes ≡ k
      measure = omega (
        arith,
        length-take k call.buffer,
        write_count_lem s.ring call wrptr rdptr sound.valid may,
      )

      room : Reserved (capacity s.ring) s.ring.m_rdptr s.ring.m_wrptr (length bytes)
      room =
          subst (Reserved (capacity s.ring) s.ring.m_rdptr s.ring.m_wrptr) (sym measure)
            (write_count_lem s.ring call wrptr rdptr sound.valid may).0

      ring' : RingBuffer
      ring' = stored_ring s.ring bytes sound.valid room

      same : capacity ring' ≡ capacity s.ring
      same = same_capacity s.ring bytes sound.valid room

      SeenAt : ℕ → Type 0
      SeenAt n =
          (rdptr < n) × (distance n s.ring.m_rdptr s.ring.m_wrptr ≤ distance n rdptr s.ring.m_wrptr)

      fine : WriterOk ring' (copied call wrptr rdptr bytes)
      fine = (
        (may.0, may.1, subst (λ n. SeenAt n) (sym same) may.2),
        ap (λ n. take (write_count n wrptr rdptr (length call.buffer)) (drop wrptr ring'.m_data))
              same
            ∙ ap (λ p. take k (drop p ring'.m_data)) may.1
            ∙ ap (λ j. take j (drop s.ring.m_wrptr ring'.m_data)) (sym measure)
            ∙ stored s.ring.m_data s.ring.m_rdptr s.ring.m_wrptr bytes sound.valid.reads_inside
                sound.valid.writes_inside room,
      )

  pub step_writer-Sound :
      (writer : At WriteCall) → s.writer ≡ writer → Sound size (step_writer s writer)
  unfolding step_writer
  step_writer-Sound outside at = sound
  step_writer-Sound (starting call) at =
      writer_goes size s sound (loaded call s.ring.m_wrptr) s.accepted
        (subst (WriterOk s.ring) at sound.writer_ok, refl)
        (ap (λ w. s.accepted ++ written_of w) (sym at))
  step_writer-Sound (loaded call wrptr) at =
      writer_goes size s sound (copying call wrptr s.ring.m_rdptr) s.accepted
        (
          (subst (WriterOk s.ring) at sound.writer_ok).0,
          (subst (WriterOk s.ring) at sound.writer_ok).1,
          (sound.valid.reads_inside, omega arith),
        )
        (ap (λ w. s.accepted ++ written_of w) (sym at))
  step_writer-Sound (copying call wrptr rdptr) at = storing-Sound call wrptr rdptr at
  step_writer-Sound (copied call wrptr rdptr bytes) at =
      publish_write-IsSound call wrptr rdptr bytes at
