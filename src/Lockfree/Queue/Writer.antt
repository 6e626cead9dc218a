-- ===== src/Lockfree/Queue/Writer.antt =====
-- The steps of the writing thread of the queue over the ring without a lock.
use libcppio.Prelude.{
  ℕ, ◌<◌, ◌≡◌, refl, sym, ap, ◌∙◌, true, false, ◌&&◌, some, length, leb, ◌==◌, ◌^◌,
}
use libcppio.Line.{write_failed, connection_lost, too_big_buffer}
use libcppio.Ring.{capacity}
use libcppio.Lockfree.Queue.{
  WriterAt, w_idle, w_opening, w_checking, w_asking, w_deciding, w_crowded, w_testing, w_falling,
  w_asleep, w_woken, w_probing, w_asking_empty, w_writing, w_notifying, QueueSystem, reader_holds,
  writer_holds, wake_reader, ring_read_size, step_queue_writer,
}
use libcppio.Lockfree.Queue.Sound.{
  in_write, QueueIsSound, SoundAfter, wake_reader-same, and_false, by_test,
}
use libcppio.Lockfree.Queue.Moves.{
  writer_moves, ring_write-Sound, writer_ringing, writer_alone, writer_to_either, writer_asks,
}

module _ (size : ℕ) (pos : 0 < size) (small : size < 2 ^ 63) (s : QueueSystem)
    (sound : QueueIsSound size s) where
  pub writer_goes-Sound : (at : WriterAt) → s.writer ≡ at → SoundAfter size (step_queue_writer s at)
  unfolding step_queue_writer SoundAfter in_write writer_holds
  writer_goes-Sound (w_idle _) e = sound
  writer_goes-Sound (w_opening bs) e =
      writer_to_either size pos small s sound (leb (capacity s.rings.ring) (length bs))
        (w_idle (some (write_failed too_big_buffer))) (w_checking bs) (ap in_write e)
        (and_false (reader_holds s.reader)) (and_false (reader_holds s.reader))
  writer_goes-Sound (w_checking bs) e =
      writer_to_either size pos small s sound _ (w_asking bs) (w_probing bs) (ap in_write e)
        (and_false (reader_holds s.reader)) (and_false (reader_holds s.reader))
  writer_goes-Sound (w_asking bs) e = writer_asks size pos small s sound _ (λ free.
      writer_moves size pos small s sound (w_deciding bs) (ap in_write e)
        (ap (λ b. b && true) free))
  writer_goes-Sound (w_deciding bs) e =
      writer_to_either size pos small s sound _ (w_crowded bs) (w_testing bs) (ap in_write e)
        (writer_alone size pos small s sound (w_deciding bs) e)
        (writer_alone size pos small s sound (w_deciding bs) e)
  writer_goes-Sound (w_crowded bs) e =
      writer_to_either size pos small s sound s.m_connected (w_testing bs)
        (w_idle (some (write_failed connection_lost))) (ap in_write e)
        (writer_alone size pos small s sound (w_crowded bs) e) (and_false (reader_holds s.reader))
  writer_goes-Sound (w_testing bs) e =
      writer_to_either size pos small s sound _ (w_probing bs) (w_falling bs) (ap in_write e)
        (and_false (reader_holds s.reader)) (writer_alone size pos small s sound (w_testing bs) e)
  writer_goes-Sound (w_falling bs) e =
      writer_moves size pos small s sound (w_asleep bs) (ap in_write e)
        (and_false (reader_holds s.reader))
  writer_goes-Sound (w_asleep bs) e = sound
  writer_goes-Sound (w_woken bs) e = writer_asks size pos small s sound _ (λ free.
      writer_moves size pos small s sound (w_testing bs) (ap in_write e) (ap (λ b. b && true) free))
  writer_goes-Sound (w_probing bs) e =
      by_test (QueueIsSound size) (ring_read_size s.rings.ring == 0) _ _
        (λ _.
          writer_moves size pos small s sound (w_asking_empty bs) (ap in_write e)
            (and_false (reader_holds s.reader)))
        (λ _.
          ring_write-Sound size pos small s sound false bs (ap in_write e)
            (and_false (reader_holds s.reader)))
  writer_goes-Sound (w_asking_empty bs) e = writer_asks size pos small s sound _ (λ free.
      ring_write-Sound size pos small s sound true bs (ap in_write e) (ap (λ b. b && true) free))
  writer_goes-Sound (w_writing locked before) e =
      writer_ringing size pos small s sound locked before s.rings.writer e refl
  writer_goes-Sound (w_notifying locked before) e = record {
    rings_reached = sound.rings_reached;
    reader_out = λ out. sound.reader_out (sym (wake_reader-same s.reader).0 ∙ out);
    writer_out = λ _. sound.writer_out (ap in_write e);
    one_holder = and_false (reader_holds (wake_reader s.reader));
  }
