-- ===== src/DataQueue/Threads/Safety.antt =====
-- What the invariant of the two threads rules out, and what it does not.
use libcppio.Prelude.{
  ℕ, ◌^◌, ◌<◌, ◌≡◌, ◌≢◌, refl, ap, subst, ◌∙◌, ◌⊎◌, inl, inr, true, false, List, [], ◌∷◌, ◌++◌,
  length, length-drop, take, arith, some,
}
use libcppio.Ring.{capacity, make_ring, available_read_size}
use libcppio.Ring.Put.{free}
use libcppio.Ring.Queue.{available_sizes}
use libcppio.DataQueue.{notified, make_queue, set_connection_flag, read_step}
use libcppio.DataQueue.Steps.{bytes_of, QueueIsValid}
use libcppio.DataQueue.Threads.{
  outside, asleep, woken, ReadCall, call_read, System, reader_resumes, reader_begins, reader_sleeps,
  flag_set, flag_notifies, falling, start_system, run, Reach, start, later, after_read, resume_read,
}
use libcppio.DataQueue.Threads.Invariant.{ReaderOk, WriterOk}
use libcppio.DataQueue.Threads.Outcomes.{ReadEnd, gives, fails, sleeps, call_read-ReadEnd}
use libcppio.DataQueue.Threads.Preserved.{Reach-IsSound}

-- Never do both threads sleep, if the queue has room for a byte, whenever the flag is set or cleared.
pub no_deadlock :
    {size : ℕ} {s : System} (call : ReadCall) (buffer : List ℕ)
    → 1 < size
    → size < 2 ^ 63
    → Reach size s
    → s.reader ≡ asleep call
    → s.writer ≢ asleep buffer
no_deadlock {size} {s} call buffer pos small r er ew =
    let sound = Reach-IsSound (omega arith) small r in
    full_or_out (subst (ReaderOk s.queue.m_buffer) er sound.reader_ok).1
      (subst (WriterOk s.queue.m_buffer s.reader) ew sound.writer_ok).1 sound.sized
  where
    full_or_out :
        bytes_of s.queue ≡ []
        → (free s.queue.m_buffer ≡ 0) ⊎ (s.reader ≡ outside)
        → capacity s.queue.m_buffer ≡ size
        → ⊥
    full_or_out none_held (inl full) sized = omega (arith, ap length none_held)
    full_or_out none_held (inr out) sized = cc

-- A reader without a time limit may be left asleep at a queue that has been disconnected: for every
-- size of the queue and every length that it asks for, there is a state that is reached in which it
-- sleeps, the queue is not connected, no notification is to come, the writer is in no call, and
-- another disconnection changes nothing.
pub reader_left_asleep :
    (size n : ℕ)
    → n < 2 ^ 64
    → (s : System) × Reach size s
      × (s.reader ≡ asleep (record { timed = false; buflen = n }))
      × (s.queue.m_connected ≡ false)
      × (s.clearing ≡ false)
      × (s.writer ≡ outside)
      × (run s (flag_set false) ≡ some s)
unfolding run make_queue make_ring set_connection_flag read_step available_read_size
reader_left_asleep size n small =
    let call : ReadCall = record { timed = false; buflen = n } in
    let connected : System = record (start_system size) {
      queue = record (make_queue size) { m_connected = true };
    } in
    let about_to_wait : System = record connected { reader = falling call } in
    let cleared : System = record about_to_wait { queue = make_queue size; clearing = true } in
    let notified_early : System = record cleared { clearing = false } in
    let left : System = record notified_early { reader = asleep call } in
    let r1 : Reach size connected = later (flag_set true) start tt refl in
    let r2 : Reach size about_to_wait = later (reader_begins call) r1 (refl, small, tt) refl in
    let r3 : Reach size cleared = later (flag_set false) r2 tt refl in
    let r4 : Reach size notified_early = later flag_notifies r3 refl refl in
    (left, later (reader_sleeps call) r4 refl refl, refl, refl, refl, refl, refl)

length-pos : (xs : List ℕ) → xs ≢ [] → 0 < length xs
length-pos [] h = absurd (h refl)
length-pos (x ∷ xs) h = omega arith

resumed :
    (s : System) (call : ReadCall)
    → QueueIsValid s.queue
    → 0 < call.buflen
    → bytes_of s.queue ≢ []
    → ReadEnd s.queue call (call_read notified s.queue call)
    → (t : System) × (resume_read s call ≡ some t)
      × (t.reader ≡ outside)
      × (t.writer ≡ s.writer)
      × (0 < free t.queue.m_buffer)
unfolding resume_read after_read
resumed s call v wants held (gives gave) = (
  record s {
    queue = gave.after;
    reader = outside;
    got = s.got ++ take call.buflen (bytes_of s.queue);
  },
  ap (after_read s call) gave.result,
  refl,
  refl,
  more_room,
)
  where
    more_room : 0 < free gave.after.m_buffer
    more_room = omega (
      arith,
      gave.same_size,
      ap length gave.left,
      length-drop call.buflen (bytes_of s.queue),
      available_sizes s.queue.m_buffer v,
      length-pos (bytes_of s.queue) held,
    )
resumed s call v wants held (fails e p none_held) = absurd (held none_held)
resumed s call v wants held (sleeps p none_held live) = absurd (held none_held)

-- A read that goes on after a wait does not notify the writers: if it gives bytes, a writer that
-- sleeps stays asleep, although there is room now and the reader has returned. In every state that is
-- reached in which the reader asks for at least a byte and the queue holds one.
pub writer_left_asleep :
    {size : ℕ} {s : System} (call : ReadCall) (buffer : List ℕ)
    → 0 < size
    → size < 2 ^ 63
    → Reach size s
    → s.reader ≡ woken call
    → 0 < call.buflen
    → bytes_of s.queue ≢ []
    → s.writer ≡ asleep buffer
    → (t : System) × (run s (reader_resumes call) ≡ some t)
      × (t.reader ≡ outside)
      × (t.writer ≡ asleep buffer)
      × (0 < free t.queue.m_buffer)
unfolding run
writer_left_asleep {size} {s} call buffer pos small r er wants held ew =
    let sound = Reach-IsSound pos small r in
    let (t, e, out, same, room) = resumed s call sound.valid wants held (
      call_read-ReadEnd notified s.queue call sound.valid
        (subst (ReaderOk s.queue.m_buffer) er sound.reader_ok)) in
    (t, e, out, same ∙ ew, room)
