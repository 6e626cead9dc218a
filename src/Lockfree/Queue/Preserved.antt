-- ===== src/Lockfree/Queue/Preserved.antt =====
-- Every turn of the queue over the ring without a lock keeps what Lockfree/Queue/Sound says.
use libcppio.Prelude.{
  ℕ, ◌<◌, ◌≡◌, refl, sym, ap, ap₂, subst, ◌∙◌, Bool, true, false, ◌&&◌, Option, none, some, List,
  ◌++◌, ◌^◌,
}
use libcppio.DataQueue.Threads.{ReadCall}
use libcppio.Lockfree.{
  At, outside, starting, loaded, copying, copied, System, reader_begins, writer_begins,
  reader_steps, writer_steps, run,
}
use libcppio.Lockfree
use libcppio.Ring.Queue.{contents}
use libcppio.Lockfree.Invariant.{out_of, written_of}
use libcppio.Lockfree.Preserved.{Lockfree-IsSound}
use libcppio.Lockfree.Queue.{
  ReaderAt, idle, checking, flagging, asking, deciding, refused, falling, asleep, woken, rechecking,
  emptied, late, ending, ended, testing_full, asking_full, reading, notifying, WriterAt, w_idle,
  w_opening, w_checking, w_asking, w_deciding, w_crowded, w_testing, w_falling, w_asleep, w_woken,
  w_probing, w_asking_empty, w_writing, w_notifying, QueueSystem, reader_holds, writer_holds,
}
use libcppio.Lockfree.Queue.Turns.{
  QueueTurn, read_called, write_called, reader_goes, writer_goes, time_over, flag_set, cleared,
  read_call, write_call, expire, set_queue_flag, notify_cleared, run_queue, start_queue, QueueReach,
  start, later,
}
use libcppio.Lockfree.Queue.Sound.{
  in_read, in_write, QueueIsSound, SoundAfter, wake_reader-same, wake_writer-same, and_false,
  by_test,
}
use libcppio.Lockfree.Queue.Moves.{reader_moves, writer_moves}
use libcppio.Lockfree.Queue.Reader.{reader_goes-Sound}
use libcppio.Lockfree.Queue.Writer.{writer_goes-Sound}

module _ (size : ℕ) (pos : 0 < size) (small : size < 2 ^ 63) (s : QueueSystem)
    (sound : QueueIsSound size s) where
  read_call-Sound :
      (call : ReadCall) (at : ReaderAt) → s.reader ≡ at → QueueIsSound size (read_call s call at)
  unfolding read_call in_read reader_holds
  read_call-Sound call (idle _) e =
      reader_moves size pos small s sound (checking call) (ap in_read e) refl
  read_call-Sound call (checking _) e = sound
  read_call-Sound call (flagging _) e = sound
  read_call-Sound call (asking _) e = sound
  read_call-Sound call (deciding _) e = sound
  read_call-Sound call (refused _) e = sound
  read_call-Sound call (falling _) e = sound
  read_call-Sound call (asleep _) e = sound
  read_call-Sound call (woken _) e = sound
  read_call-Sound call (rechecking _) e = sound
  read_call-Sound call (emptied _) e = sound
  read_call-Sound call (late _) e = sound
  read_call-Sound call (ending _) e = sound
  read_call-Sound call (ended _) e = sound
  read_call-Sound call (testing_full _) e = sound
  read_call-Sound call (asking_full _) e = sound
  read_call-Sound call (reading _ _) e = sound
  read_call-Sound call (notifying _ _) e = sound

  expire-Sound : (at : ReaderAt) → s.reader ≡ at → QueueIsSound size (expire s at)
  unfolding expire in_read reader_holds
  expire-Sound (asleep call) e =
      by_test (QueueIsSound size) call.timed _ s
        (λ _. reader_moves size pos small s sound (late call) (ap in_read e) refl) (λ _. sound)
  expire-Sound (idle _) e = sound
  expire-Sound (checking _) e = sound
  expire-Sound (flagging _) e = sound
  expire-Sound (asking _) e = sound
  expire-Sound (deciding _) e = sound
  expire-Sound (refused _) e = sound
  expire-Sound (falling _) e = sound
  expire-Sound (woken _) e = sound
  expire-Sound (rechecking _) e = sound
  expire-Sound (emptied _) e = sound
  expire-Sound (late _) e = sound
  expire-Sound (ending _) e = sound
  expire-Sound (ended _) e = sound
  expire-Sound (testing_full _) e = sound
  expire-Sound (asking_full _) e = sound
  expire-Sound (reading _ _) e = sound
  expire-Sound (notifying _ _) e = sound

  write_call-Sound :
      (buffer : List ℕ) (at : WriterAt) → s.writer ≡ at → QueueIsSound size (write_call s buffer at)
  unfolding write_call in_write writer_holds
  write_call-Sound buffer (w_idle _) e =
      writer_moves size pos small s sound (w_opening buffer) (ap in_write e)
        (and_false (reader_holds s.reader))
  write_call-Sound buffer (w_opening _) e = sound
  write_call-Sound buffer (w_checking _) e = sound
  write_call-Sound buffer (w_asking _) e = sound
  write_call-Sound buffer (w_deciding _) e = sound
  write_call-Sound buffer (w_crowded _) e = sound
  write_call-Sound buffer (w_testing _) e = sound
  write_call-Sound buffer (w_falling _) e = sound
  write_call-Sound buffer (w_asleep _) e = sound
  write_call-Sound buffer (w_woken _) e = sound
  write_call-Sound buffer (w_probing _) e = sound
  write_call-Sound buffer (w_asking_empty _) e = sound
  write_call-Sound buffer (w_writing _ _) e = sound
  write_call-Sound buffer (w_notifying _ _) e = sound

  -- The flag, and who is to be notified, are in no part of it.
  flag_set-Sound : (c : Bool) → QueueIsSound size (set_queue_flag s c)
  unfolding set_queue_flag
  flag_set-Sound true = record {
    rings_reached = sound.rings_reached;
    reader_out = sound.reader_out;
    writer_out = sound.writer_out;
    one_holder = sound.one_holder;
  }
  flag_set-Sound false =
      by_test (QueueIsSound size) s.m_connected _ s
        (λ _. record {
          rings_reached = sound.rings_reached;
          reader_out = sound.reader_out;
          writer_out = sound.writer_out;
          one_holder = sound.one_holder;
        })
        (λ _. sound)

  cleared-Sound : QueueIsSound size (notify_cleared s)
  unfolding notify_cleared
  cleared-Sound =
      by_test (QueueIsSound size) s.clearing _ s
        (λ _. record {
          rings_reached = sound.rings_reached;
          reader_out = λ out. sound.reader_out (sym (wake_reader-same s.reader).0 ∙ out);
          writer_out = λ out. sound.writer_out (sym (wake_writer-same s.writer).0 ∙ out);
          one_holder =
              ap₂ ◌&&◌ (wake_reader-same s.reader).1 (wake_writer-same s.writer).1
              ∙ sound.one_holder;
        })
        (λ _. sound)

  run_queue-Sound : (turn : QueueTurn) → SoundAfter size (run_queue s turn)
  unfolding run_queue SoundAfter
  run_queue-Sound (read_called call) = read_call-Sound call s.reader refl
  run_queue-Sound (write_called buffer) = write_call-Sound buffer s.writer refl
  run_queue-Sound reader_goes = reader_goes-Sound size pos small s sound s.reader refl
  run_queue-Sound writer_goes = writer_goes-Sound size pos small s sound s.writer refl
  run_queue-Sound time_over = expire-Sound s.reader refl
  run_queue-Sound (flag_set c) = flag_set-Sound c
  run_queue-Sound cleared = cleared-Sound

start_queue-Sound : (size : ℕ) → QueueIsSound size (start_queue size)
unfolding reader_holds
start_queue-Sound size = record {
  rings_reached = Lockfree.start;
  reader_out = λ _. refl;
  writer_out = λ _. refl;
  one_holder = refl;
}

Queue-IsSound :
    {size : ℕ} {s : QueueSystem}
    → 0 < size
    → size < 2 ^ 63
    → QueueReach size s
    → QueueIsSound size s
unfolding SoundAfter
Queue-IsSound {size} pos small start = start_queue-Sound size
Queue-IsSound {size} pos small (later {s} {t} turn r e) =
    subst (SoundAfter size) e (run_queue-Sound size pos small s (Queue-IsSound pos small r) turn)

SoundAfter-some :
    (size : ℕ) (o : Option QueueSystem) → SoundAfter size o → (t : QueueSystem) × (o ≡ some t)
unfolding SoundAfter
SoundAfter-some size none fault = absurd fault
SoundAfter-some size (some t) _ = (t, refl)

-- In every state that the calls of the queue lead to, whatever the order of the threads' steps: the
-- ring is in a state that one reader and one writer of it reach; so the bytes that its reads have
-- copied out and those that it holds are together, in order, those that its writes have stored and
-- published; not both threads have the mutex; and every turn leads to a state, so no step touches
-- memory outside the storage. The size is positive and below 2^63.
pub queue_refines_ring :
    {size : ℕ} {s : QueueSystem} (turn : QueueTurn)
    → 0 < size
    → size < 2 ^ 63
    → QueueReach size s
    → Lockfree.Reach size s.rings
      × ((s.rings.given ++ out_of s.rings.reader) ++ contents s.rings.ring
          ≡ s.rings.accepted ++ written_of s.rings.writer)
      × ((reader_holds s.reader && writer_holds s.writer) ≡ false)
      × ((t : QueueSystem) × (run_queue s turn ≡ some t))
queue_refines_ring {size} {s} turn pos small r =
    let sound = Queue-IsSound pos small r in
    (
      sound.rings_reached,
      (Lockfree-IsSound pos small sound.rings_reached).in_order,
      sound.one_holder,
      SoundAfter-some size (run_queue s turn) (run_queue-Sound size pos small s sound turn),
    )
