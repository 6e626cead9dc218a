-- ===== src/Lockfree/Queue/Tests.antt =====
-- Runs of the queue over the ring without a lock, and the theorems at concrete inputs.
use libcppio.Prelude.{
  ℕ, zero, suc, ◌≡◌, ◌++◌, refl, sym, subst, ◌∙◌, true, false, ◌&&◌, Option, none, some, List, [],
  ◌∷◌, arith,
}
use mathlib.Core.Option.{some-injective, none-ne-some}
use libcppio.Memory.{store, load}
use libcppio.Line.{accepted}
use libcppio.DataQueue.Threads.{ReadCall}
use libcppio.Ring.Queue.{contents}
use libcppio.Lockfree
use libcppio.Lockfree.Queue.{
  falling, asleep, w_idle, w_notifying, QueueSystem, reader_holds, writer_holds,
}
use libcppio.Lockfree.Queue.Turns.{
  QueueTurn, read_called, write_called, reader_goes, writer_goes, flag_set, cleared, run_queue,
  start_queue, QueueReach, start, later,
}
use libcppio.Lockfree.Queue.Preserved.{queue_refines_ring}
use libcppio.Lockfree.Queue.Wakeups.{
  Stuck, SleepsOn, disconnection_missed, notify-falling, cleared-falling,
}

-- The state that turns lead to, one after another.
abbrev after_turns : List QueueTurn → Option QueueSystem → Option QueueSystem
after_turns [] o = o
after_turns (turn ∷ turns) none = none
after_turns (turn ∷ turns) (some s) = after_turns turns (run_queue s turn)

abbrev times : ℕ → QueueTurn → List QueueTurn
times zero turn = []
times (suc n) turn = turn ∷ times n turn

abbrev one_byte : ReadCall
one_byte = record { timed = false; buflen = 1 }

later_turns :
    (size : ℕ) (turns : List QueueTurn) (s t : QueueSystem)
    → QueueReach size s
    → after_turns turns (some s) ≡ some t
    → QueueReach size t
later_turns size [] s t r e = subst (QueueReach size) (some-injective s t e) r
later_turns size (turn ∷ turns) s t r e =
    by_result (run_queue s turn) refl e (λ u. later_turns size turns u t)
  where
    nothing : (turns : List QueueTurn) → after_turns turns none ≡ none
    nothing [] = refl
    nothing (turn ∷ turns) = refl

    by_result :
        (o : Option QueueSystem)
        → run_queue s turn ≡ o
        → after_turns turns o ≡ some t
        → ((u : QueueSystem)
            → QueueReach size u
            → after_turns turns (some u) ≡ some t
            → QueueReach size t)
        → QueueReach size t
    by_result none e1 e2 on = absurd (none-ne-some t (sym (nothing turns) ∙ e2))
    by_result (some u) e1 e2 on = on u (later turn r e1) e2

-- A byte is written and another about to be, then one is read and the reader finds nothing more, while
-- the writer puts the other one in the ring.
abbrev until_falling : List QueueTurn
until_falling =
    (flag_set true ∷ write_called (1 ∷ []) ∷ times 10 writer_goes)
    ++ ((write_called (2 ∷ []) ∷ times 3 writer_goes)
        ++ ((read_called one_byte ∷ times 8 reader_goes)
            ++ (read_called one_byte ∷ times 3 reader_goes)))

-- The reader, the writer and what the ring holds after the notification and the reader's next step.
abbrev sleeping : QueueSystem
sleeping = record (start_queue 4) {
  rings = record {
    ring = record { m_data = 1 ∷ 2 ∷ 0 ∷ 0 ∷ []; m_wrptr = 2; m_rdptr = 1 };
    reader = Lockfree.outside;
    writer = Lockfree.outside;
    given = 1 ∷ [];
    accepted = 1 ∷ 2 ∷ [];
  };
  m_connected = true;
  reader = asleep one_byte;
  writer = w_idle (some (accepted 1));
}

asleep_at_bytes :
    after_turns
      (until_falling ++ (times 6 writer_goes ++ (reader_goes ∷ [])))
      (some (start_queue 4))
    ≡ some sleeping
unfolding run_queue store load
asleep_at_bytes = refl

sleeping-Reach : QueueReach 4 sleeping
sleeping-Reach =
    later_turns 4 (until_falling ++ (times 6 writer_goes ++ (reader_goes ∷ []))) (start_queue 4)
      sleeping start asleep_at_bytes

queue_refines_ring_example :
    Lockfree.Reach 4 sleeping.rings
    × (((1 ∷ []) ++ []) ++ contents sleeping.rings.ring ≡ (1 ∷ 2 ∷ []) ++ [])
    × ((reader_holds sleeping.reader && writer_holds sleeping.writer) ≡ false)
    × ((t : QueueSystem) × (run_queue sleeping reader_goes ≡ some t))
queue_refines_ring_example =
    queue_refines_ring reader_goes (omega arith) (omega arith) sleeping-Reach

-- The reader is about to sleep, and the writer about to notify it of a byte.
abbrev about_to_notify : QueueSystem
about_to_notify = record sleeping { reader = falling one_byte; writer = w_notifying false 1 }

about_to_notify-Reach : QueueReach 4 about_to_notify
unfolding run_queue store load
about_to_notify-Reach =
    later_turns 4 (until_falling ++ times 5 writer_goes) (start_queue 4) about_to_notify start refl

notify-falling_example :
    SleepsOn about_to_notify writer_goes one_byte (λ t. t.rings ≡ about_to_notify.rings)
notify-falling_example = notify-falling about_to_notify one_byte false 1 refl refl

-- The reader is about to sleep, and the flag has just been cleared.
abbrev just_cleared : QueueSystem
just_cleared = record (start_queue 4) { reader = falling one_byte; clearing = true }

just_cleared-Reach : QueueReach 4 just_cleared
unfolding run_queue
just_cleared-Reach =
    later_turns 4
      (flag_set true ∷ read_called one_byte ∷ times 3 reader_goes ++ (flag_set false ∷ []))
      (start_queue 4) just_cleared start refl

cleared-falling_example :
    SleepsOn just_cleared cleared one_byte (λ t. (t.m_connected ≡ false) × (t.clearing ≡ false))
cleared-falling_example = cleared-falling just_cleared one_byte none refl refl refl refl

disconnection_missed_example :
    (s : QueueSystem) × QueueReach 4 s
    × (s.reader ≡ asleep one_byte)
    × (s.m_connected ≡ false)
    × (s.clearing ≡ false)
    × (s.writer ≡ w_idle none)
    × Stuck s
disconnection_missed_example = disconnection_missed 4 1
