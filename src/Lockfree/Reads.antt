-- ===== src/Lockfree/Reads.antt =====
-- The steps of RingBuffer::read without a lock, of src/common/inproc.cpp, keep the invariant.
use libcppio.Prelude.{
  ℕ, ◌≡◌, inl, inr, refl, sym, ap, ap₂, subst, ◌∙◌, List, ◌++◌, take, drop, arith, append-nil,
}
use libcppio.Ring.{capacity}
use libcppio.Lockfree.{
  At, outside, starting, loaded, copying, copied, ReadCall, System, read_count, read_returns,
  publish_read, step_reader,
}
use libcppio.Lockfree.Kept.{Sound, reader_goes, reader_moves}
use libcppio.Lockfree.Held.{Claimed}
use libcppio.Lockfree.Invariant.{MayCopy, ReaderOk, out_of, IsSound, read_count_lem}
use libcppio.Lockfree.Ends.{
  equal_or_not, loaded_empty, loaded_held, copying_result, read_by, more_to_read, read_end, ReadEnd,
}

module _ (size : ℕ) (s : System) (sound : IsSound size s) where
  publish_read-IsSound :
      (call : ReadCall) (wrptr rdptr : ℕ) (bytes : List ℕ)
      → s.reader ≡ copied call wrptr rdptr bytes
      → IsSound size (publish_read s call wrptr rdptr bytes)
  unfolding read_returns
  publish_read-IsSound call wrptr rdptr bytes at =
      by_end (read_end s call wrptr rdptr bytes sound.valid may)
    where
      reader_fine : ReaderOk s.ring (copied call wrptr rdptr bytes)
      reader_fine = subst (ReaderOk s.ring) at sound.reader_ok

      may : MayCopy s.ring call wrptr rdptr
      may = reader_fine.0

      k : ℕ
      k = read_by s call wrptr rdptr bytes sound.valid may

      claim : Claimed (capacity s.ring) s.ring.m_rdptr s.ring.m_wrptr k
      claim = (read_count_lem s.ring call wrptr rdptr sound.valid may).0

      out : call.out ++ bytes ≡ out_of s.reader ++ take k (drop s.ring.m_rdptr s.ring.m_data)
      out =
          ap₂ ◌++◌ (ap out_of (sym at))
            (reader_fine.1 ∙ ap (λ p. take k (drop p s.ring.m_data)) may.1)

      by_end :
          ReadEnd s call wrptr rdptr bytes sound.valid may
          → IsSound size (publish_read s call wrptr rdptr bytes)
      by_end (inl returned) = subst (IsSound size) (sym returned) (
          reader_moves size s sound k outside (s.given ++ (call.out ++ bytes)) claim tt
            (append-nil (s.given ++ (call.out ++ bytes)) ∙ ap (λ t. s.given ++ t) out))
      by_end (inr (goes, first, moved, small)) = subst (IsSound size) (sym goes) (
          reader_moves size s sound k
            (starting (more_to_read s call wrptr rdptr bytes sound.valid may)) s.given claim small
            (ap (λ t. s.given ++ t) out))

  loaded-Sound :
      (call : ReadCall) (wrptr : ℕ)
      → s.reader ≡ loaded call wrptr
      → Sound size (step_reader s (loaded call wrptr))
  unfolding step_reader read_returns
  loaded-Sound call wrptr at = elim (equal_or_not wrptr s.ring.m_rdptr) [
    | inl empty ↦ subst (Sound size) (sym (loaded_empty s call wrptr empty)) (
        reader_goes size s sound outside (s.given ++ call.out) tt
          (append-nil (s.given ++ call.out) ∙ ap (λ r. s.given ++ out_of r) (sym at)))
    | inr some_held ↦ subst (Sound size) (sym (loaded_held s call wrptr some_held)) (
        reader_goes size s sound (copying call wrptr s.ring.m_rdptr) s.given
          (reader_fine.0, refl, some_held, reader_fine.1) (ap (λ r. s.given ++ out_of r) (sym at)))
  ]
    where
      reader_fine : ReaderOk s.ring (loaded call wrptr)
      reader_fine = subst (ReaderOk s.ring) at sound.reader_ok

  copying-Sound :
      (call : ReadCall) (wrptr rdptr : ℕ)
      → s.reader ≡ copying call wrptr rdptr
      → Sound size (step_reader s (copying call wrptr rdptr))
  unfolding step_reader
  copying-Sound call wrptr rdptr at =
      subst (Sound size) (sym (copying_result s call wrptr rdptr sound.valid may)) (
        reader_goes size s sound (copied call wrptr rdptr bytes) s.given (may, refl)
          (ap (λ r. s.given ++ out_of r) (sym at)))
    where
      may : MayCopy s.ring call wrptr rdptr
      may = subst (ReaderOk s.ring) at sound.reader_ok

      k : ℕ
      k = read_count (capacity s.ring) wrptr rdptr call.buflen

      bytes : List ℕ
      bytes = take k (drop rdptr s.ring.m_data)

  pub step_reader-Sound :
      (reader : At ReadCall) → s.reader ≡ reader → Sound size (step_reader s reader)
  unfolding step_reader
  step_reader-Sound outside at = sound
  step_reader-Sound (starting call) at =
      reader_goes size s sound (loaded call s.ring.m_wrptr) s.given
        (subst (ReaderOk s.ring) at sound.reader_ok, (sound.valid.writes_inside, omega arith))
        (ap (λ r. s.given ++ out_of r) (sym at))
  step_reader-Sound (loaded call wrptr) at = loaded-Sound call wrptr at
  step_reader-Sound (copying call wrptr rdptr) at = copying-Sound call wrptr rdptr at
  step_reader-Sound (copied call wrptr rdptr bytes) at =
      publish_read-IsSound call wrptr rdptr bytes at
