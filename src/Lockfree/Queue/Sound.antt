-- ===== src/Lockfree/Queue/Sound.antt =====
-- What holds of every state of the queue over the ring without a lock: its calls of the ring are those
-- of one reader and one writer, and not both threads have the mutex.
use libcppio.Prelude.{ℕ, ◌≡◌, refl, Bool, true, false, ◌&&◌, Option, none, some, if◌then◌else◌}
use libcppio.Lockfree.{
  At, outside, starting, loaded, copying, copied, System, reader_begins, writer_begins,
  reader_steps, writer_steps, run,
}
use libcppio.Lockfree
use libcppio.Lockfree.Steps.{left}
use libcppio.Lockfree.Queue.{
  ReaderAt, idle, checking, flagging, asking, deciding, refused, falling, asleep, woken, rechecking,
  emptied, late, ending, ended, testing_full, asking_full, reading, notifying, WriterAt, w_idle,
  w_opening, w_checking, w_asking, w_deciding, w_crowded, w_testing, w_falling, w_asleep, w_woken,
  w_probing, w_asking_empty, w_writing, w_notifying, QueueSystem, reader_holds, writer_holds,
  wake_reader, wake_writer,
}

-- Whether a thread is in a call of the ring.
unfoldable pub in_read : ReaderAt → Bool
in_read (reading _ _) = true
in_read _ = false

unfoldable pub in_write : WriterAt → Bool
in_write (w_writing _ _) = true
in_write _ = false

-- What holds of every state that is reached.
pub record QueueIsSound (size : ℕ) (s : QueueSystem) : Type 0 where
  pub rings_reached : Lockfree.Reach size s.rings
  pub reader_out : in_read s.reader ≡ false → s.rings.reader ≡ outside
  pub writer_out : in_write s.writer ≡ false → s.rings.writer ≡ outside
  pub one_holder : (reader_holds s.reader && writer_holds s.writer) ≡ false

unfoldable pub SoundAfter : ℕ → Option QueueSystem → Type 0
SoundAfter size none = ⊥
SoundAfter size (some s) = QueueIsSound size s

pub wake_writer-same :
    (at : WriterAt)
    → (in_write (wake_writer at) ≡ in_write at) × (writer_holds (wake_writer at) ≡ writer_holds at)
unfolding wake_writer in_write writer_holds
wake_writer-same (w_idle _) = (refl, refl)
wake_writer-same (w_opening _) = (refl, refl)
wake_writer-same (w_checking _) = (refl, refl)
wake_writer-same (w_asking _) = (refl, refl)
wake_writer-same (w_deciding _) = (refl, refl)
wake_writer-same (w_crowded _) = (refl, refl)
wake_writer-same (w_testing _) = (refl, refl)
wake_writer-same (w_falling _) = (refl, refl)
wake_writer-same (w_asleep _) = (refl, refl)
wake_writer-same (w_woken _) = (refl, refl)
wake_writer-same (w_probing _) = (refl, refl)
wake_writer-same (w_asking_empty _) = (refl, refl)
wake_writer-same (w_writing _ _) = (refl, refl)
wake_writer-same (w_notifying _ _) = (refl, refl)

pub wake_reader-same :
    (at : ReaderAt)
    → (in_read (wake_reader at) ≡ in_read at) × (reader_holds (wake_reader at) ≡ reader_holds at)
unfolding wake_reader in_read reader_holds
wake_reader-same (idle _) = (refl, refl)
wake_reader-same (checking _) = (refl, refl)
wake_reader-same (flagging _) = (refl, refl)
wake_reader-same (asking _) = (refl, refl)
wake_reader-same (deciding _) = (refl, refl)
wake_reader-same (refused _) = (refl, refl)
wake_reader-same (falling _) = (refl, refl)
wake_reader-same (asleep _) = (refl, refl)
wake_reader-same (woken _) = (refl, refl)
wake_reader-same (rechecking _) = (refl, refl)
wake_reader-same (emptied _) = (refl, refl)
wake_reader-same (late _) = (refl, refl)
wake_reader-same (ending _) = (refl, refl)
wake_reader-same (ended _) = (refl, refl)
wake_reader-same (testing_full _) = (refl, refl)
wake_reader-same (asking_full _) = (refl, refl)
wake_reader-same (reading _ _) = (refl, refl)
wake_reader-same (notifying _ _) = (refl, refl)

pub and_false : (b : Bool) → (b && false) ≡ false
and_false true = refl
and_false false = refl

-- A property of both branches of a test holds of the result.
pub by_test :
    {A : Type 0} (P : A → Type 0) (b : Bool) (x y : A)
    → (b ≡ true → P x)
    → (b ≡ false → P y)
    → P (if b then x else y)
by_test P true x y left right = left refl
by_test P false x y left right = right refl
