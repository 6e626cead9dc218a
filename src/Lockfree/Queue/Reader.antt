-- ===== src/Lockfree/Queue/Reader.antt =====
-- The steps of the reading thread of the queue over the ring without a lock.
use libcppio.Prelude.{ℕ, ◌<◌, ◌≡◌, refl, sym, ap, ◌∙◌, true, false, ltb, ◌==◌, ◌^◌}
use libcppio.Lockfree.Queue.{
  ReaderAt, idle, checking, flagging, asking, deciding, refused, falling, asleep, woken, rechecking,
  emptied, late, ending, ended, testing_full, asking_full, reading, notifying, QueueSystem,
  reader_holds, ring_read_size, ring_write_size, step_queue_reader,
}
use libcppio.Lockfree.Queue.Sound.{in_read, QueueIsSound, SoundAfter, wake_writer-same, by_test}
use libcppio.Lockfree.Queue.Moves.{
  reader_moves, ring_read-Sound, reader_ringing, reader_alone, reader_to_either, reader_asks,
  ring_read_or,
}

module _ (size : ℕ) (pos : 0 < size) (small : size < 2 ^ 63) (s : QueueSystem)
    (sound : QueueIsSound size s) where
  pub reader_goes-Sound : (at : ReaderAt) → s.reader ≡ at → SoundAfter size (step_queue_reader s at)
  unfolding step_queue_reader SoundAfter in_read reader_holds
  reader_goes-Sound (idle _) e = sound
  reader_goes-Sound (checking call) e =
      by_test (QueueIsSound size) (ring_read_size s.rings.ring == 0) _ _
        (λ _.
          reader_to_either size pos small s sound call.timed (flagging call) (asking call)
            (ap in_read e) refl refl)
        (λ _.
          ring_read_or size pos small s sound call.timed call _ (ap in_read e)
            (reader_moves size pos small s sound (testing_full call) (ap in_read e) refl))
  reader_goes-Sound (flagging call) e =
      reader_to_either size pos small s sound s.m_connected (asking call) _ (ap in_read e) refl refl
  reader_goes-Sound (asking call) e =
      reader_asks size pos small s sound _
        (λ free. reader_moves size pos small s sound (deciding call) (ap in_read e) free)
  reader_goes-Sound (deciding call) e =
      by_test (QueueIsSound size) call.timed _ _
        (λ _.
          ring_read_or size pos small s sound (ltb 0 (ring_read_size s.rings.ring)) call _
            (ap in_read e)
            (reader_moves size pos small s sound (falling call) (ap in_read e)
              (reader_alone size pos small s sound (deciding call) e)))
        (λ _.
          reader_to_either size pos small s sound s.m_connected (falling call) (refused call)
            (ap in_read e) (reader_alone size pos small s sound (deciding call) e)
            (reader_alone size pos small s sound (deciding call) e))
  reader_goes-Sound (refused call) e =
      reader_to_either size pos small s sound (ring_read_size s.rings.ring == 0) _ (checking call)
        (ap in_read e) refl refl
  reader_goes-Sound (falling call) e =
      reader_moves size pos small s sound (asleep call) (ap in_read e) refl
  reader_goes-Sound (asleep call) e = sound
  reader_goes-Sound (woken call) e =
      reader_asks size pos small s sound _
        (λ free. reader_moves size pos small s sound (rechecking call) (ap in_read e) free)
  reader_goes-Sound (rechecking call) e =
      by_test (QueueIsSound size) call.timed _ _
        (λ _.
          ring_read_or size pos small s sound (ltb 0 (ring_read_size s.rings.ring)) call _
            (ap in_read e)
            (reader_moves size pos small s sound (falling call) (ap in_read e)
              (reader_alone size pos small s sound (rechecking call) e)))
        (λ _.
          reader_to_either size pos small s sound (ring_read_size s.rings.ring == 0) (emptied call)
            (checking call) (ap in_read e) (reader_alone size pos small s sound (rechecking call) e)
            refl)
  reader_goes-Sound (emptied call) e =
      reader_to_either size pos small s sound s.m_connected (checking call) _ (ap in_read e) refl
        refl
  reader_goes-Sound (late call) e =
      reader_asks size pos small s sound _
        (λ free. reader_moves size pos small s sound (ending call) (ap in_read e) free)
  reader_goes-Sound (ending call) e =
      ring_read_or size pos small s sound (ltb 0 (ring_read_size s.rings.ring)) call _
        (ap in_read e)
        (reader_moves size pos small s sound (ended call) (ap in_read e)
          (reader_alone size pos small s sound (ending call) e))
  reader_goes-Sound (ended call) e = reader_moves size pos small s sound _ (ap in_read e) refl
  reader_goes-Sound (testing_full call) e =
      by_test (QueueIsSound size) (ring_write_size s.rings.ring == 0) _ _
        (λ _. reader_moves size pos small s sound (asking_full call) (ap in_read e) refl)
        (λ _. ring_read-Sound size pos small s sound false call (ap in_read e) refl)
  reader_goes-Sound (asking_full call) e =
      reader_asks size pos small s sound _
        (λ free. ring_read-Sound size pos small s sound true call (ap in_read e) free)
  reader_goes-Sound (reading locked before) e =
      reader_ringing size pos small s sound locked before s.rings.reader e refl
  reader_goes-Sound (notifying locked before) e = record {
    rings_reached = sound.rings_reached;
    reader_out = λ _. sound.reader_out (ap in_read e);
    writer_out = λ out. sound.writer_out (sym (wake_writer-same s.writer).0 ∙ out);
    one_holder = refl;
  }
