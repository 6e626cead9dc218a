-- ===== src/DataQueue/Threads/Preserved.antt =====
-- Every step of the two threads keeps the invariant.
use libcppio.Prelude.{
  ℕ, ◌^◌, ◌<◌, ◌≡◌, refl, sym, ap, ap₂, subst, ◌∙◌, inl, Bool, true, false, List, ◌++◌, length,
  take, append_assoc, take-append-drop, if◌then◌else◌, length-replicate, Option, none, some,
}
use libcppio.Line.{Received, Accepted}
use libcppio.Ring.{make_ring}
use libcppio.Ring.Queue.{make_ring-IsValid}
use libcppio.Ring.Put.{free}
use libcppio.DataQueue.{
  DataQueue, entering, notified, expired, Step, make_queue, write_step, set_connection_flag,
}
use libcppio.DataQueue.Steps.{bytes_of}
use libcppio.DataQueue.Threads.{
  Thread, outside, asleep, woken, wake, ReadCall, call_read, System, after_read, after_write,
  begin_read, resume_read, expire_read, begin_write, resume_write, writers_notified, set_flag, Turn,
  reader_begins, reader_resumes, reader_expires, reader_stirs, writer_begins, writer_resumes,
  writer_stirs, flag_set, reader_sleeps, writer_sleeps, flag_notifies, falling, LeavesMutex,
  notify_flag, start_system, run, Enabled, Reach, start, later,
}
use libcppio.DataQueue.Threads.Invariant.{
  ReaderOk, WriterOk, IsSound, Sound, ReaderOk-wake, ReaderOk-woken, WriterOk-wake,
  WriterOk-outside, LeavesMutex-wake, WriterOk-inside, WriterOk-stirred, take_accepted,
}
use libcppio.DataQueue.Threads.Outcomes.{
  ReadEnd, gives, fails, sleeps, call_read-ReadEnd, WriteEnd, takes, write_step_end,
}

module _ (size : ℕ) (s : System) (sound : IsSound size s) where
  -- Only the reader, or only the writer, is elsewhere.
  resting :
      (reader : Thread ReadCall)
      → ReaderOk s.queue.m_buffer reader
      → WriterOk s.queue.m_buffer reader s.writer
      → IsSound size (record s { reader = reader })
  resting reader reader_ok writer_ok = record {
    valid = sound.valid;
    sized = sound.sized;
    in_order = sound.in_order;
    reader_ok = reader_ok;
    writer_ok = writer_ok;
  }

  pausing :
      (writer : Thread (List ℕ))
      → WriterOk s.queue.m_buffer s.reader writer
      → IsSound size (record s { writer = writer })
  pausing writer writer_ok = record {
    valid = sound.valid;
    sized = sound.sized;
    in_order = sound.in_order;
    reader_ok = sound.reader_ok;
    writer_ok = writer_ok;
  }

  -- A step of a reader in a call, whose writer may stay as it is while the reader sleeps.
  after_read-Sound :
      (call : ReadCall) (step : Step Received)
      → call.buflen < 2 ^ 64
      → LeavesMutex s.writer
      → ((t : Thread ReadCall) → WriterOk s.queue.m_buffer t s.writer)
      → ReadEnd s.queue call step
      → Sound size (after_read s call step)
  unfolding after_read
  after_read-Sound call step small leaves writer_ok (gives gave) =
      subst (λ st. Sound size (after_read s call st)) (sym gave.result)
        (record {
          valid = gave.valid;
          sized = gave.same_size ∙ sound.sized;
          in_order =
              append_assoc s.got (take call.buflen (bytes_of s.queue)) (bytes_of gave.after)
              ∙ ap (λ rest. s.got ++ (take call.buflen (bytes_of s.queue) ++ rest)) gave.left
              ∙ ap (◌++◌ s.got) (take-append-drop call.buflen (bytes_of s.queue))
              ∙ sound.in_order;
          reader_ok = tt;
          writer_ok =
              WriterOk-outside s.queue.m_buffer gave.after.m_buffer outside s.writer leaves
                (writer_ok outside);
        })
  after_read-Sound call step small leaves writer_ok (fails e p none_held) =
      subst (λ st. Sound size (after_read s call st)) (sym p)
        (resting outside tt (writer_ok outside))
  after_read-Sound call step small leaves writer_ok (sleeps p none_held live) =
      subst (λ st. Sound size (after_read s call st)) (sym p)
        (resting (falling call) (small, none_held) (writer_ok (falling call)))

  after_write-Sound :
      (buffer : List ℕ) (step : Step Accepted)
      → length buffer < 2 ^ 64
      → LeavesMutex s.reader
      → WriteEnd s.queue buffer step
      → Sound size (after_write s buffer step)
  unfolding after_write
  after_write-Sound buffer step small leaves (takes took) =
      subst (λ st. Sound size (after_write s buffer st)) (sym took.result)
        (record {
          valid = took.valid;
          sized = took.same_size ∙ sound.sized;
          in_order =
              ap (◌++◌ s.got) took.holds
              ∙ sym (append_assoc s.got (bytes_of s.queue) (take (free s.queue.m_buffer) buffer))
              ∙ ap₂ ◌++◌ sound.in_order (sym (take_accepted (free s.queue.m_buffer) buffer));
          reader_ok =
              ReaderOk-woken s.queue.m_buffer took.after.m_buffer s.reader leaves sound.reader_ok;
          writer_ok = tt;
        })
  after_write-Sound buffer step small leaves (fails e p) =
      subst (λ st. Sound size (after_write s buffer st)) (sym p) (pausing outside tt)
  after_write-Sound buffer step small leaves (sleeps p full) =
      subst (λ st. Sound size (after_write s buffer st)) (sym p)
        (pausing (falling buffer) (small, full))

  writer_inside :
      (reader : Thread ReadCall)
      → (s.reader ≡ outside → ⊥)
      → WriterOk s.queue.m_buffer reader s.writer
  writer_inside reader ne =
      WriterOk-inside s.queue.m_buffer s.reader reader s.writer ne sound.writer_ok

  resume_read-Sound :
      (call : ReadCall)
      → s.reader ≡ woken call
      → LeavesMutex s.writer
      → Sound size (resume_read s call)
  unfolding resume_read
  resume_read-Sound call e leaves =
      after_read-Sound call (call_read notified s.queue call) small leaves
        (λ reader. writer_inside reader (λ out. cc))
        (call_read-ReadEnd notified s.queue call sound.valid small)
    where
      small : call.buflen < 2 ^ 64
      small = subst (ReaderOk s.queue.m_buffer) e sound.reader_ok

  expire_read-Sound :
      (call : ReadCall)
      → s.reader ≡ asleep call
      → LeavesMutex s.writer
      → Sound size (expire_read s call)
  unfolding expire_read
  expire_read-Sound call e leaves =
      after_read-Sound call (call_read expired s.queue call) small leaves
        (λ reader. writer_inside reader (λ out. cc))
        (call_read-ReadEnd expired s.queue call sound.valid small)
    where
      small : call.buflen < 2 ^ 64
      small = (subst (ReaderOk s.queue.m_buffer) e sound.reader_ok).0

  begin_write-Sound :
      (buffer : List ℕ)
      → length buffer < 2 ^ 64
      → LeavesMutex s.reader
      → Sound size (begin_write s buffer)
  unfolding begin_write
  begin_write-Sound buffer small leaves =
      after_write-Sound buffer (write_step entering s.queue buffer) small leaves
        (write_step_end entering s.queue buffer sound.valid small)

  resume_write-Sound :
      (buffer : List ℕ)
      → s.writer ≡ woken buffer
      → LeavesMutex s.reader
      → Sound size (resume_write s buffer)
  unfolding resume_write
  resume_write-Sound buffer e leaves =
      after_write-Sound buffer (write_step notified s.queue buffer) small leaves
        (write_step_end notified s.queue buffer sound.valid small)
    where
      small : length buffer < 2 ^ 64
      small = subst (WriterOk s.queue.m_buffer s.reader) e sound.writer_ok

  -- The flag, and whether the notifications are to come, are in no part of it.
  flagged :
      (c clearing : Bool)
      → IsSound size (record s { queue = record s.queue { m_connected = c }; clearing = clearing })
  flagged c clearing = record {
    valid = sound.valid;
    sized = sound.sized;
    in_order = sound.in_order;
    reader_ok = sound.reader_ok;
    writer_ok = sound.writer_ok;
  }

  set_flag-Sound : (c : Bool) → IsSound size (set_flag s c)
  unfolding set_flag set_connection_flag
  set_flag-Sound true = flagged true s.clearing
  set_flag-Sound false = by_flag s.queue.m_connected
    where
      after : Bool → System
      after b =
          let cleared : DataQueue × Bool =
            if b then (record s.queue { m_connected = false }, true) else (s.queue, false) in
          let (q, notifies) = cleared in
          record s { queue = q; clearing = if notifies then true else s.clearing }

      by_flag : (b : Bool) → IsSound size (after b)
      by_flag true = flagged false true
      by_flag false = sound

  notify_flag-Sound : IsSound size (notify_flag s)
  unfolding notify_flag
  notify_flag-Sound = record {
    valid = sound.valid;
    sized = sound.sized;
    in_order = sound.in_order;
    reader_ok = ReaderOk-wake s.queue.m_buffer s.reader sound.reader_ok;
    writer_ok = WriterOk-wake s.queue.m_buffer s.reader (wake s.reader) s.writer sound.writer_ok;
  }

  reader_sleeps-Sound :
      (call : ReadCall) → s.reader ≡ falling call → IsSound size (record s { reader = asleep call })
  reader_sleeps-Sound call e =
      resting (asleep call) (subst (ReaderOk s.queue.m_buffer) e sound.reader_ok)
        (writer_inside (asleep call) (λ out. cc))

  writer_sleeps-Sound :
      (buffer : List ℕ)
      → s.writer ≡ falling buffer
      → IsSound size (record s { writer = asleep buffer })
  writer_sleeps-Sound buffer e =
      let (small, full) = subst (WriterOk s.queue.m_buffer s.reader) e sound.writer_ok in
      pausing (asleep buffer) (small, inl full)

begin_read-Sound :
    (size : ℕ) (s : System)
    → IsSound size s
    → (call : ReadCall) → call.buflen < 2 ^ 64
    → LeavesMutex s.writer
    → Sound size (begin_read s call)
unfolding begin_read
begin_read-Sound size s sound call small leaves =
    after_read-Sound size (writers_notified s)
      (pausing size s sound (wake s.writer) (awake s.reader)) call (call_read entering s.queue call)
      small (LeavesMutex-wake s.writer leaves) awake
      (call_read-ReadEnd entering s.queue call sound.valid small)
  where
    awake : (reader : Thread ReadCall) → WriterOk s.queue.m_buffer reader (wake s.writer)
    awake reader = WriterOk-wake s.queue.m_buffer s.reader reader s.writer sound.writer_ok

-- Every turn that may be taken leads to a state, in which the invariant still holds.
run-Sound :
    (size : ℕ) (s : System) (turn : Turn)
    → IsSound size s
    → Enabled s turn
    → Sound size (run s turn)
unfolding run
run-Sound size s (reader_begins call) sound (out, small, leaves) =
    begin_read-Sound size s sound call small leaves
run-Sound size s (reader_sleeps call) sound e = reader_sleeps-Sound size s sound call e
run-Sound size s (reader_resumes call) sound (e, leaves) =
    resume_read-Sound size s sound call e leaves
run-Sound size s (reader_expires call) sound (e, timed, leaves) =
    expire_read-Sound size s sound call e leaves
run-Sound size s (writer_begins buffer) sound (out, small, leaves) =
    begin_write-Sound size s sound buffer small leaves
run-Sound size s (writer_sleeps buffer) sound e = writer_sleeps-Sound size s sound buffer e
run-Sound size s (writer_resumes buffer) sound (e, leaves) =
    resume_write-Sound size s sound buffer e leaves
run-Sound size s reader_stirs sound _ =
    resting size s sound (wake s.reader) (ReaderOk-wake s.queue.m_buffer s.reader sound.reader_ok)
      (WriterOk-stirred s.queue.m_buffer s.reader s.writer sound.writer_ok)
run-Sound size s writer_stirs sound _ =
    pausing size s sound (wake s.writer)
      (WriterOk-wake s.queue.m_buffer s.reader s.reader s.writer sound.writer_ok)
run-Sound size s (flag_set c) sound _ = set_flag-Sound size s sound c
run-Sound size s flag_notifies sound _ = notify_flag-Sound size s sound

start-IsSound : (size : ℕ) → 0 < size → size < 2 ^ 63 → IsSound size (start_system size)
unfolding make_queue make_ring
start-IsSound size pos small =
    let (valid, empty) = make_ring-IsValid size pos small in
    record {
      valid = valid;
      sized = length-replicate size 0;
      in_order = empty;
      reader_ok = tt;
      writer_ok = tt;
    }

-- In every state that is reached the ring is valid and of its first size; what the reader was given
-- and what the queue holds are together, in order, what was accepted from the writer; a reader that
-- sleeps, or has the mutex and is about to, has nothing to read; a writer that is about to sleep is at
-- a full queue, and one that sleeps is at a full queue, or the reader is in no call. The flag is set
-- and cleared at any time, also while a thread is about to sleep. The size is positive and below 2^63.
pub Reach-IsSound :
    {size : ℕ} {s : System} → 0 < size → size < 2 ^ 63 → Reach size s → IsSound size s
Reach-IsSound {size} pos small start = start-IsSound size pos small
Reach-IsSound {size} pos small (later {s} turn r enabled e) =
    subst (Sound size) e (run-Sound size s turn (Reach-IsSound pos small r) enabled)

Sound-some : (size : ℕ) (o : Option System) → Sound size o → (t : System) × (o ≡ some t)
Sound-some size (some t) sound = (t, refl)
Sound-some size none bad = absurd bad

-- In every state that is reached, each turn that may be taken leads to a state: no call faults. The
-- size of the queue is positive and below 2^63.
pub run_total :
    {size : ℕ} {s : System} (turn : Turn)
    → 0 < size
    → size < 2 ^ 63
    → Reach size s
    → Enabled s turn
    → (t : System) × (run s turn ≡ some t)
run_total {size} {s} turn pos small r enabled =
    Sound-some size (run s turn) (run-Sound size s turn (Reach-IsSound pos small r) enabled)
