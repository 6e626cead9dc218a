-- ===== src/Lockfree/Preserved.antt =====
-- Every step of the two threads at the lock-free ring of src/common/inproc.cpp keeps the invariant.
use libcppio.Prelude.{
  ℕ, ◌^◌, ◌<◌, ◌≡◌, refl, sym, ap, subst, List, [], ◌++◌, length, Option, none, some,
  length-replicate,
}
use libcppio.Ring.{make_ring}
use libcppio.Ring.Queue.{contents, make_ring-IsValid}
use libcppio.Lockfree.{
  outside, starting, System, Turn, reader_begins, writer_begins, reader_steps, writer_steps, run,
  Enabled, start_system, Reach, start, later,
}
use libcppio.Lockfree.Kept.{Sound, reader_goes, writer_goes}
use libcppio.Lockfree.Invariant.{out_of, written_of, IsSound}
use libcppio.Lockfree.Reads.{step_reader-Sound}
use libcppio.Lockfree.Writes.{step_writer-Sound}

module _ (size : ℕ) (s : System) (sound : IsSound size s) where
  begin_read-IsSound :
      (n : ℕ)
      → s.reader ≡ outside
      → n < 2 ^ 64
      → IsSound size (record s { reader = starting (record { buflen = n; out = [] }) })
  begin_read-IsSound n out small =
      reader_goes size s sound (starting (record { buflen = n; out = [] })) s.given small
        (ap (λ r. s.given ++ out_of r) (sym out))

  begin_write-IsSound :
      (bs : List ℕ)
      → s.writer ≡ outside
      → length bs < 2 ^ 64
      → IsSound size (record s { writer = starting (record { buffer = bs; written = [] }) })
  begin_write-IsSound bs out small =
      writer_goes size s sound (starting (record { buffer = bs; written = [] })) s.accepted small
        (ap (λ w. s.accepted ++ written_of w) (sym out))

run-Sound :
    (size : ℕ) (s : System) (turn : Turn)
    → IsSound size s
    → Enabled s turn
    → Sound size (run s turn)
unfolding run
run-Sound size s (reader_begins n) sound (out, small) = begin_read-IsSound size s sound n out small
run-Sound size s (writer_begins bs) sound (out, small) =
    begin_write-IsSound size s sound bs out small
run-Sound size s reader_steps sound _ = step_reader-Sound size s sound s.reader refl
run-Sound size s writer_steps sound _ = step_writer-Sound size s sound s.writer refl

start-IsSound : (size : ℕ) → 0 < size → size < 2 ^ 63 → IsSound size (start_system size)
unfolding make_ring contents
start-IsSound size pos small =
    let (valid, empty) = make_ring-IsValid size pos small in
    record {
      valid = valid;
      sized = length-replicate size 0;
      in_order = empty;
      reader_ok = tt;
      writer_ok = tt;
    }

-- In every state that is reached, for a size that is positive and below 2^63: the pointers lie in the
-- storage, which keeps its size; the bytes that `read` has copied out and those that the ring holds
-- are together, in order, the bytes that `write` has stored and published; what the reader has copied
-- but not yet given free is still in the storage, and what the writer has stored but not yet published
-- is where the reader will find it.
pub Lockfree-IsSound :
    {size : ℕ} {s : System} → 0 < size → size < 2 ^ 63 → Reach size s → IsSound size s
Lockfree-IsSound {size} pos small start = start-IsSound size pos small
Lockfree-IsSound {size} pos small (later {s} turn r enabled e) =
    subst (Sound size) e (run-Sound size s turn (Lockfree-IsSound pos small r) enabled)

Sound-some : (size : ℕ) (o : Option System) → Sound size o → (t : System) × (o ≡ some t)
Sound-some size (some t) sound = (t, refl)
Sound-some size none bad = absurd bad

-- In every state that is reached, each turn that may be taken leads to a state: no step of either
-- thread touches memory outside the storage. The size is positive and below 2^63.
pub lockfree_total :
    {size : ℕ} {s : System} (turn : Turn)
    → 0 < size
    → size < 2 ^ 63
    → Reach size s
    → Enabled s turn
    → (t : System) × (run s turn ≡ some t)
lockfree_total {size} {s} turn pos small r enabled =
    Sound-some size (run s turn) (run-Sound size s turn (Lockfree-IsSound pos small r) enabled)
