-- ===== src/Inproc/Alone.antt =====
-- The queue between two lines of src/common/inproc.cpp as one line: the one end writes to it and the
-- other, which has a time limit, reads from it, each while the other is in no call. A read that waits
-- goes on when its time is over.
use libcppio.Prelude.{
  ℕ, zero, suc, ◌%◌, ◌^◌, ◌<◌, ◌≤◌, ◌≡◌, refl, sym, ap, subst, Bool, true, false, List, [], ◌∷◌,
  length, take, min, arith, length-take, leb,
}
use libcppio.Prelude.Int.{pos}
use libcppio.Line.{
  timeout, connection_lost, ErrorCode, Received, received, read_failed, accepted, write_failed,
  IoLine,
}
use libcppio.Ring.{capacity}
use libcppio.Ring.Put.{free}
use libcppio.DataQueue.{
  DataQueue, entering, expired, Step, returns, waits, faults, read_with_timeout_step, write_step,
}
use libcppio.DataQueue.Steps.{
  QueueIsValid, bytes_of, Gave, TimedReadLaw, read_with_timeout_step_lem,
}
use libcppio.DataQueue.Threads.Outcomes.{WriteEnd, takes, fails, sleeps, write_step_end}
use libcppio.DataQueue.Writes.{Took, WriteLaw, write_step_lem}
use libcppio.Inproc.{InprocLine, line_read, line_write}

-- A queue whose ring is valid and smaller than an `int`: those of the lines have 65536 bytes.
pub record GoodQueue : Type 0 where
  pub queue : DataQueue
  pub valid : QueueIsValid queue
  pub small : capacity queue.m_buffer < 2_147_483_648

-- A step that does not fault leaves such a queue, if it returns.
unfoldable pub Keeps : {R : Type 0} → Step R → Type 0
Keeps (returns r q) = QueueIsValid q × (capacity q.m_buffer < 2_147_483_648)
Keeps (waits q) = Unit
Keeps faults = ⊥

-- The result of such a step, and the queue then. A step that waits gives `blocked` and no change.
unfoldable pub settle : {R : Type 0} → GoodQueue → R → (step : Step R) → Keeps step → R × GoodQueue
unfolding Keeps
settle g blocked (returns r q) (v, c) = (r, record { queue = q; valid = v; small = c })
settle g blocked (waits q) _ = (blocked, g)
settle g blocked faults fault = absurd fault

pub settle-returns :
    {R : Type 0} (g : GoodQueue) (blocked r : R) (step : Step R) (keeps : Keeps step)
    (q : DataQueue)
    → step ≡ returns r q
    → (g' : GoodQueue) × (settle g blocked step keeps ≡ (r, g')) × (g'.queue ≡ q)
unfolding settle Keeps
settle-returns g blocked r step keeps q e =
    subst
      (λ t. (k : Keeps t) → (g' : GoodQueue) × (settle g blocked t k ≡ (r, g')) × (g'.queue ≡ q))
      (sym e) (λ (v, c). (record { queue = q; valid = v; small = c }, refl, refl)) keeps

Keeps-returns :
    {R : Type 0} (r : R) (q : DataQueue) (step : Step R)
    → step ≡ returns r q
    → QueueIsValid q
    → capacity q.m_buffer < 2_147_483_648
    → Keeps step
unfolding Keeps
Keeps-returns r q step e v c = subst Keeps (sym e) (v, c)

pub write_alone-Keeps :
    (g : GoodQueue) (bs : List ℕ) → length bs < 2 ^ 64 → Keeps (line_write entering g.queue bs)
unfolding line_write Keeps
write_alone-Keeps g bs hn = by_end (write_step_end entering g.queue bs g.valid hn)
  where
    by_end :
        WriteEnd g.queue bs (write_step entering g.queue bs)
        → Keeps (write_step entering g.queue bs)
    by_end (takes t) =
        Keeps-returns (accepted (min (length bs) (free g.queue.m_buffer))) t.after
          (write_step entering g.queue bs) t.result t.valid (omega (arith, t.same_size, g.small))
    by_end (fails e same) =
        Keeps-returns (write_failed e) g.queue (write_step entering g.queue bs) same g.valid g.small
    by_end (sleeps same _) = subst Keeps (sym same) tt

-- A write of no more than there is room for takes all of it.
pub write_alone-Took :
    (g : GoodQueue) (bs : List ℕ)
    → 0 < length bs
    → length bs ≤ free g.queue.m_buffer
    → Took g.queue bs (line_write entering g.queue bs)
unfolding line_write WriteLaw
write_alone-Took g bs some fits =
    by_law (leb (capacity g.queue.m_buffer) (length bs)) (free g.queue.m_buffer) g.queue.m_connected
      refl refl (write_step_lem entering g.queue bs g.valid (omega (arith, g.small)))
  where
    by_law :
        (large : Bool) (room : ℕ) (flag : Bool)
        → leb (capacity g.queue.m_buffer) (length bs) ≡ large
        → free g.queue.m_buffer ≡ room
        → WriteLaw entering large room flag g.queue bs (write_step entering g.queue bs)
        → Took g.queue bs (write_step entering g.queue bs)
    by_law true room flag el er law = absurd (ground (arith, g.valid.reads_inside))
    by_law false zero flag el er law = absurd (omega (arith, er))
    by_law false (suc k) flag el er law = law

-- What a read without another thread does.
pub data Read (q : DataQueue) (n : ℕ) (step : Step Received) : Type 0 where
  full : 0 < length (bytes_of q) → Gave q n step → Read q n step
  empty : (e : ErrorCode) → step ≡ returns (read_failed e) q → bytes_of q ≡ [] → Read q n step

module _ (line : InprocLine) (limit : ℕ) (timed : line.m_read_timeout ≡ pos (suc limit)) where
  -- `InprocLine::read`, which goes on when the time is over if it waits.
  unfoldable pub read_alone : DataQueue → ℕ → Step Received
  unfolding line_read
  read_alone q n = elim (line_read entering line q n) [
    | returns r q' ↦ returns r q'
    | waits q' ↦ line_read expired line q' n
    | faults ↦ faults
  ]

  pub read_alone-Read :
      (q : DataQueue) (n : ℕ) → QueueIsValid q → n < 2 ^ 64 → Read q n (read_alone q n)
  unfolding read_alone line_read TimedReadLaw
  read_alone-Read q n v hn =
      by_law (bytes_of q) q.m_connected refl (read_with_timeout_step_lem entering q n v hn)
        (read_with_timeout_step_lem expired q n v hn)
    where
      by_law :
          (held : List ℕ) (flag : Bool)
          → bytes_of q ≡ held
          → TimedReadLaw entering held flag q n (read_with_timeout_step entering q n)
          → TimedReadLaw expired held flag q n (read_with_timeout_step expired q n)
          → Read q n (read_alone q n)
      by_law (b ∷ bs) true e law _ =
          full (omega (arith, ap length e)) (subst (Gave q n) (sym (rw (timed, law.result))) law)
      by_law (b ∷ bs) false e law _ =
          full (omega (arith, ap length e)) (subst (Gave q n) (sym (rw (timed, law.result))) law)
      by_law [] true e law late = empty timeout (rw (timed, law, line_read, timed, late)) e
      by_law [] false e law late = empty connection_lost (rw (timed, law)) e

  pub read_alone-Keeps :
      (g : GoodQueue) (n : ℕ) → Read g.queue n (read_alone g.queue n) → Keeps (read_alone g.queue n)
  read_alone-Keeps g n (full held t) =
      Keeps-returns (received (take n (bytes_of g.queue))) t.after (read_alone g.queue n) t.result
        t.valid (omega (arith, t.same_size, g.small))
  read_alone-Keeps g n (empty e same _) =
      Keeps-returns (read_failed e) g.queue (read_alone g.queue n) same g.valid g.small

  pub word : (n : ℕ) → n % 2 ^ 64 < 2 ^ 64
  word n = omega arith

  pub word_take : (bs : List ℕ) → length (take (length bs % 2 ^ 64) bs) < 2 ^ 64
  word_take bs = omega (arith, length-take (length bs % 2 ^ 64) bs)

  -- The queue as a line: the one end writes and this end reads. A read of a line that would wait for
  -- ever has no result here, since there is a time limit; a write that would wait takes nothing, for
  -- ever.
  abbrev pub alone : IoLine
  alone = record {
    State = GoodQueue;
    read = λ g n.
        settle g (received []) (read_alone g.queue (n % 2 ^ 64))
          (read_alone-Keeps g (n % 2 ^ 64) (read_alone-Read g.queue (n % 2 ^ 64) g.valid (word n)));
    write = λ g bs.
        settle g (accepted 0) (line_write entering g.queue (take (length bs % 2 ^ 64) bs))
          (write_alone-Keeps g (take (length bs % 2 ^ 64) bs) (word_take bs));
  }
