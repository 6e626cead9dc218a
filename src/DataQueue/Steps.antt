-- ===== src/DataQueue/Steps.antt =====
-- What the methods of a queue do, in terms of the bytes that it holds.
use libcppio.Prelude.{
  ℕ, ◌-◌, ◌^◌, ◌<◌, ◌≡◌, refl, ap, ◌∙◌, Bool, true, false, List, [], ◌∷◌, length, take, drop, arith,
  subst, sym, ltb, ◌==◌,
}
use libcppio.Memory.{ok}
use libcppio.Line.{timeout, connection_lost, Received, received, read_failed}
use libcppio.Ring
use libcppio.Ring.{
  RingBuffer, Reading, Writing, capacity, available_read_size, available_write_size,
}
use libcppio.Ring.Queue.{IsValid, contents, available_sizes}
use libcppio.Ring.Read.{read_takes}
use libcppio.DataQueue.{
  DataQueue, Phase, entering, notified, expired, Step, returns, waits, read_buffer, read_step,
  read_with_timeout_step,
}

-- The bytes that a queue holds, and how many more fit.
abbrev pub bytes_of : DataQueue → List ℕ
bytes_of q = contents q.m_buffer

abbrev pub room_of : DataQueue → ℕ
room_of q = capacity q.m_buffer - 1 - length (bytes_of q)

abbrev pub QueueIsValid : DataQueue → Type 0
QueueIsValid q = IsValid q.m_buffer

-- A read that gives bytes: the first ones held, which are taken from the queue.
pub record Gave (q : DataQueue) (n : ℕ) (step : Step Received) : Type 0 where
  pub after : DataQueue
  pub result : step ≡ returns (received (take n (bytes_of q))) after
  pub left : bytes_of after ≡ drop n (bytes_of q)
  pub same_flag : after.m_connected ≡ q.m_connected
  pub same_size : capacity after.m_buffer ≡ capacity q.m_buffer
  pub valid : QueueIsValid after

read_buffer-ok :
    (q : DataQueue) (n : ℕ) (out : Reading)
    → Ring.read q.m_buffer n ≡ ok out
    → read_buffer q n ≡ returns (received out.bytes) (record q { m_buffer = out.ring })
unfolding read_buffer
read_buffer-ok q n out e = rw (read_buffer, e)

read_buffer-Gave :
    (q : DataQueue) (n : ℕ) → QueueIsValid q → n < 2 ^ 64 → Gave q n (read_buffer q n)
read_buffer-Gave q n v hn =
    let (out, e, t) = read_takes q.m_buffer n v hn in
    record {
      after = record q { m_buffer = out.ring };
      result =
          read_buffer-ok q n out e
          ∙ ap (λ bs. returns (received bs) (record q { m_buffer = out.ring })) t.bytes;
      left = t.rest;
      same_flag = refl;
      same_size = ap length t.storage;
      valid = t.valid;
    }

no_bytes :
    (q : DataQueue)
    → QueueIsValid q
    → bytes_of q ≡ []
    → (available_read_size q.m_buffer == 0) ≡ true
no_bytes q v e = ground (arith, available_sizes q.m_buffer v, ap length e)

some_bytes :
    (q : DataQueue) (b : ℕ) (bs : List ℕ)
    → QueueIsValid q
    → bytes_of q ≡ b ∷ bs
    → (available_read_size q.m_buffer == 0) ≡ false
some_bytes q b bs v e = ground (arith, available_sizes q.m_buffer v, ap length e)

-- What a read does, by the bytes held and by the flag.
unfoldable pub ReadLaw : List ℕ → Bool → DataQueue → ℕ → Step Received → Type 0
ReadLaw [] false q n step = step ≡ returns (read_failed connection_lost) q
ReadLaw [] true q n step = step ≡ waits q
ReadLaw (b ∷ bs) _ q n step = Gave q n step

read_step-ReadLaw :
    (phase : Phase) (q : DataQueue) (n : ℕ)
    → QueueIsValid q
    → n < 2 ^ 64
    → (held : List ℕ) (flag : Bool) → bytes_of q ≡ held
    → q.m_connected ≡ flag
    → ReadLaw held flag q n (read_step phase q n)
unfolding read_step ReadLaw
read_step-ReadLaw phase q n v hn [] false e off = rw (no_bytes q v e, off)
read_step-ReadLaw phase q n v hn [] true e on = rw (no_bytes q v e, on)
read_step-ReadLaw phase q n v hn (b ∷ bs) _ e _ =
    subst (Gave q n) (sym (rw (some_bytes q b bs v e))) (read_buffer-Gave q n v hn)

-- A read, in every phase: it gives the first of the bytes held and takes them from the queue if
-- there are any, otherwise it fails with a lost connection if the queue is not connected and waits
-- if it is. The queue is valid and the size fits in a machine word.
pub read_step_lem :
    (phase : Phase) (q : DataQueue) (n : ℕ)
    → QueueIsValid q
    → n < 2 ^ 64
    → ReadLaw (bytes_of q) q.m_connected q n (read_step phase q n)
read_step_lem phase q n v hn = read_step-ReadLaw phase q n v hn (bytes_of q) q.m_connected refl refl

pub read_step_empty :
    (phase : Phase) (q : DataQueue) (n : ℕ)
    → QueueIsValid q
    → bytes_of q ≡ []
    → q.m_connected ≡ false
    → read_step phase q n ≡ returns (read_failed connection_lost) q
unfolding read_step
read_step_empty phase q n v e off = rw (no_bytes q v e, off)

-- What a read with a time limit does.
unfoldable pub TimedReadLaw : Phase → List ℕ → Bool → DataQueue → ℕ → Step Received → Type 0
TimedReadLaw entering [] false q n step = step ≡ returns (read_failed connection_lost) q
TimedReadLaw entering [] true q n step = step ≡ waits q
TimedReadLaw notified [] _ q n step = step ≡ waits q
TimedReadLaw expired [] false q n step = step ≡ returns (read_failed connection_lost) q
TimedReadLaw expired [] true q n step = step ≡ returns (read_failed timeout) q
TimedReadLaw _ (b ∷ bs) _ q n step = Gave q n step

no_bytes_ltb :
    (q : DataQueue)
    → QueueIsValid q
    → bytes_of q ≡ []
    → ltb 0 (available_read_size q.m_buffer) ≡ false
no_bytes_ltb q v e = ground (arith, available_sizes q.m_buffer v, ap length e)

some_bytes_ltb :
    (q : DataQueue) (b : ℕ) (bs : List ℕ)
    → QueueIsValid q
    → bytes_of q ≡ b ∷ bs
    → ltb 0 (available_read_size q.m_buffer) ≡ true
some_bytes_ltb q b bs v e = ground (arith, available_sizes q.m_buffer v, ap length e)

timed_read-law :
    (phase : Phase) (q : DataQueue) (n : ℕ)
    → QueueIsValid q
    → n < 2 ^ 64
    → (held : List ℕ) (flag : Bool) → bytes_of q ≡ held
    → q.m_connected ≡ flag
    → TimedReadLaw phase held flag q n (read_with_timeout_step phase q n)
unfolding read_with_timeout_step TimedReadLaw
timed_read-law entering q n v hn [] false e off = rw (no_bytes q v e, off)
timed_read-law entering q n v hn [] true e on = rw (no_bytes q v e, on)
timed_read-law notified q n v hn [] _ e _ = rw (no_bytes_ltb q v e)
timed_read-law expired q n v hn [] false e off = rw (no_bytes_ltb q v e, off)
timed_read-law expired q n v hn [] true e on = rw (no_bytes_ltb q v e, on)
timed_read-law entering q n v hn (b ∷ bs) _ e _ =
    subst (Gave q n) (sym (rw (some_bytes q b bs v e))) (read_buffer-Gave q n v hn)
timed_read-law notified q n v hn (b ∷ bs) _ e _ =
    subst (Gave q n) (sym (rw (some_bytes_ltb q b bs v e))) (read_buffer-Gave q n v hn)
timed_read-law expired q n v hn (b ∷ bs) _ e _ =
    subst (Gave q n) (sym (rw (some_bytes_ltb q b bs v e))) (read_buffer-Gave q n v hn)

-- A read with a time limit: it gives the first of the bytes held if there are any. With none it
-- fails at the start if the queue is not connected and waits otherwise, waits on when it is
-- notified, even by a disconnection, and when the time is over fails with the timeout, or with the
-- lost connection if the queue is not connected. The queue is valid and the size fits in a word.
pub read_with_timeout_step_lem :
    (phase : Phase) (q : DataQueue) (n : ℕ)
    → QueueIsValid q
    → n < 2 ^ 64
    → TimedReadLaw phase (bytes_of q) q.m_connected q n (read_with_timeout_step phase q n)
read_with_timeout_step_lem phase q n v hn =
    timed_read-law phase q n v hn (bytes_of q) q.m_connected refl refl

-- A read with a time limit at an empty queue that is not connected.
pub read_with_timeout_step_empty :
    (q : DataQueue) (n : ℕ)
    → QueueIsValid q
    → bytes_of q ≡ []
    → q.m_connected ≡ false
    → (read_with_timeout_step entering q n ≡ returns (read_failed connection_lost) q)
      × (read_with_timeout_step expired q n ≡ returns (read_failed connection_lost) q)
      × (read_with_timeout_step notified q n ≡ waits q)
unfolding read_with_timeout_step
read_with_timeout_step_empty q n v e off =
    (rw (no_bytes q v e, off), rw (no_bytes_ltb q v e, off), rw (no_bytes_ltb q v e))
