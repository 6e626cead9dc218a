-- ===== src/Lockfree/Steps.antt =====
-- A step of a thread of the lock-free ring of src/common/inproc.cpp brings its call nearer to the end.
use libcppio.Prelude.{
  ℕ, ◌-◌, ◌≤◌, ◌≡◌, inl, inr, refl, sym, subst, List, [], ◌==◌, if◌then◌else◌, arith, Option, none,
  some,
}
use libcppio.Lockfree.{
  At, outside, starting, loaded, copying, copied, ReadCall, WriteCall, System, publish_read,
  publish_write, read_returns, write_returns, step_reader, step_writer,
}
use libcppio.Lockfree.Invariant.{IsSound, ReaderOk, WriterOk, MayCopy, MayStore}
use libcppio.Lockfree.Ends.{
  read_to, written_to, equal_or_not, loaded_empty, loaded_held, copying_result, storing_result,
  read_end, ReadEnd, write_end, WriteEnd,
}

-- How many steps a call has left at most, by the thread's own pointer: only a call that finds its
-- pointer away from the start of the storage can go on there.
abbrev pub left : {Call : Type 0} → ℕ → At Call → ℕ
left ptr outside = 0
left ptr (starting _) = if ptr == 0 then 4 else 8
left ptr (loaded _ _) = if ptr == 0 then 3 else 7
left ptr (copying _ _ _) = if ptr == 0 then 2 else 6
left ptr (copied _ _ _ _) = if ptr == 0 then 1 else 5

pub left-bound : {Call : Type 0} (ptr : ℕ) (thread : At Call) → left ptr thread ≤ 8
left-bound ptr outside = omega arith
left-bound ptr (starting _) = ground arith
left-bound ptr (loaded _ _) = ground arith
left-bound ptr (copying _ _ _) = ground arith
left-bound ptr (copied _ _ _ _) = ground arith

pub left-outside :
    {Call : Type 0} (ptr : ℕ) (thread : At Call) → left ptr thread ≡ 0 → thread ≡ outside
left-outside ptr outside e = refl
left-outside ptr (starting _) e = absurd (ground arith)
left-outside ptr (loaded _ _) e = absurd (ground arith)
left-outside ptr (copying _ _ _) e = absurd (ground arith)
left-outside ptr (copied _ _ _ _) e = absurd (ground arith)

abbrev pub reads_left : System → ℕ
reads_left s = left s.ring.m_rdptr s.reader

abbrev pub writes_left : System → ℕ
writes_left s = left s.ring.m_wrptr s.writer

-- A step of the reader: it has one less left, and the writer has as many as before.
abbrev pub ReaderStepped : System → Option System → Type 0
ReaderStepped s none = ⊥
ReaderStepped s (some t) = (reads_left t ≤ reads_left s - 1) × (writes_left t ≡ writes_left s)

abbrev pub WriterStepped : System → Option System → Type 0
WriterStepped s none = ⊥
WriterStepped s (some t) = (writes_left t ≤ writes_left s - 1) × (reads_left t ≡ reads_left s)

module _ (size : ℕ) (s : System) (sound : IsSound size s) where
  reads_on :
      (reader next : At ReadCall)
      → s.reader ≡ reader
      → left s.ring.m_rdptr next ≤ left s.ring.m_rdptr reader - 1
      → left s.ring.m_rdptr next ≤ reads_left s - 1
  reads_on reader next at h =
      subst (λ r. left s.ring.m_rdptr next ≤ left s.ring.m_rdptr r - 1) (sym at) h

  published_read :
      (call : ReadCall) (wrptr rdptr : ℕ) (bytes : List ℕ)
      → s.reader ≡ copied call wrptr rdptr bytes
      → (may : MayCopy s.ring call wrptr rdptr) → ReadEnd s call wrptr rdptr bytes sound.valid may
      → ReaderStepped s (some (publish_read s call wrptr rdptr bytes))
  unfolding read_returns
  published_read call wrptr rdptr bytes at may (inl returned) =
      subst (λ t. ReaderStepped s (some t)) (sym returned) (omega arith, refl)
  published_read call wrptr rdptr bytes at may (inr (goes, first, moved, small)) =
      subst (λ t. ReaderStepped s (some t)) (sym goes)
        (
          subst (λ r. (if read_next == 0 then 4 else 8) ≤ left s.ring.m_rdptr r - 1) (sym at)
              (ground arith),
          refl,
        )
    where
      read_next : ℕ
      read_next = (read_to s call wrptr rdptr bytes sound.valid may).ring.m_rdptr

  pub reader_step :
      (reader : At ReadCall) → s.reader ≡ reader → ReaderStepped s (step_reader s reader)
  unfolding step_reader read_returns
  reader_step outside at = (
    reads_on outside s.reader at (subst (λ r. left s.ring.m_rdptr r ≤ 0) (sym at) (omega arith)),
    refl,
  )
  reader_step (starting call) at =
      (reads_on (starting call) (loaded call s.ring.m_wrptr) at (ground arith), refl)
  reader_step (loaded call wrptr) at = elim (equal_or_not wrptr s.ring.m_rdptr) [
    | inl empty ↦
        subst (ReaderStepped s) (sym (loaded_empty s call wrptr empty)) (omega arith, refl)
    | inr held ↦
        subst (ReaderStepped s) (sym (loaded_held s call wrptr held))
          (reads_on (loaded call wrptr) (copying call wrptr s.ring.m_rdptr) at (ground arith), refl)
  ]
  reader_step (copying call wrptr rdptr) at =
      subst (ReaderStepped s)
        (sym (
          copying_result s call wrptr rdptr sound.valid
            (subst (ReaderOk s.ring) at sound.reader_ok)))
        (reads_on (copying call wrptr rdptr) (copied call wrptr rdptr []) at (ground arith), refl)
  reader_step (copied call wrptr rdptr bytes) at =
      let may = (subst (ReaderOk s.ring) at sound.reader_ok).0 in
      published_read call wrptr rdptr bytes at may
        (read_end s call wrptr rdptr bytes sound.valid may)

  writes_on :
      (writer next : At WriteCall)
      → s.writer ≡ writer
      → left s.ring.m_wrptr next ≤ left s.ring.m_wrptr writer - 1
      → left s.ring.m_wrptr next ≤ writes_left s - 1
  writes_on writer next at h =
      subst (λ w. left s.ring.m_wrptr next ≤ left s.ring.m_wrptr w - 1) (sym at) h

  published_write :
      (call : WriteCall) (wrptr rdptr : ℕ) (bytes : List ℕ)
      → s.writer ≡ copied call wrptr rdptr bytes
      → (may : MayStore s.ring call wrptr rdptr) → WriteEnd s call wrptr rdptr bytes sound.valid may
      → WriterStepped s (some (publish_write s call wrptr rdptr bytes))
  unfolding write_returns
  published_write call wrptr rdptr bytes at may (inl returned) =
      subst (λ t. WriterStepped s (some t)) (sym returned) (omega arith, refl)
  published_write call wrptr rdptr bytes at may (inr (goes, first, moved, small)) =
      subst (λ t. WriterStepped s (some t)) (sym goes)
        (
          subst (λ w. (if write_next == 0 then 4 else 8) ≤ left s.ring.m_wrptr w - 1) (sym at)
              (ground arith),
          refl,
        )
    where
      write_next : ℕ
      write_next = (written_to s call wrptr rdptr bytes sound.valid may).ring.m_wrptr

  pub writer_step :
      (writer : At WriteCall) → s.writer ≡ writer → WriterStepped s (step_writer s writer)
  unfolding step_writer
  writer_step outside at = (
    writes_on outside s.writer at (subst (λ w. left s.ring.m_wrptr w ≤ 0) (sym at) (omega arith)),
    refl,
  )
  writer_step (starting call) at =
      (writes_on (starting call) (loaded call s.ring.m_wrptr) at (ground arith), refl)
  writer_step (loaded call wrptr) at =
      (writes_on (loaded call wrptr) (copying call wrptr s.ring.m_rdptr) at (ground arith), refl)
  writer_step (copying call wrptr rdptr) at =
      subst (WriterStepped s)
        (sym (
          storing_result s call wrptr rdptr sound.valid
            (subst (WriterOk s.ring) at sound.writer_ok)))
        (writes_on (copying call wrptr rdptr) (copied call wrptr rdptr []) at (ground arith), refl)
  writer_step (copied call wrptr rdptr bytes) at =
      let may = (subst (WriterOk s.ring) at sound.writer_ok).0 in
      published_write call wrptr rdptr bytes at may
        (write_end s call wrptr rdptr bytes sound.valid may)
