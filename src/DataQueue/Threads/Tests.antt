-- ===== src/DataQueue/Threads/Tests.antt =====
-- Two threads at a small queue on concrete inputs, and the theorems at concrete inputs.
use libcppio.Prelude.{◌≡◌, ◌<◌, ◌≢◌, refl, true, false, some, [], ◌∷◌, length, arith, ap}
use libcppio.Ring
use libcppio.Memory.{store}
use libcppio.Ring.Queue.{contents}
use libcppio.Ring.Put.{free}
use libcppio.DataQueue.{make_queue, read_step, write_step}
use libcppio.DataQueue.Steps.{bytes_of}
use libcppio.DataQueue.Threads.{
  outside, falling, asleep, reader_sleeps, writer_sleeps, woken, ReadCall, System, reader_begins,
  reader_resumes, writer_begins, flag_set, start_system, run, Reach, start, later,
}
use libcppio.DataQueue.Threads.Invariant.{IsSound}
use libcppio.DataQueue.Threads.Preserved.{Reach-IsSound, run_total}
use libcppio.DataQueue.Threads.Safety.{no_deadlock, reader_left_asleep, writer_left_asleep}

abbrev call : ReadCall
call = record { timed = false; buflen = 1 }

-- A queue with room for two bytes, connected, whose reader waits.
abbrev connected_system : System
connected_system = record (start_system 3) {
  queue = record {
    m_buffer = record { m_data = 0 ∷ 0 ∷ 0 ∷ []; m_wrptr = 0; m_rdptr = 0 };
    m_connected = true;
  };
}

abbrev reader_waits : System
reader_waits = record connected_system { reader = asleep call }

Reach-connected : Reach 3 connected_system
unfolding run make_queue Ring.make_ring
Reach-connected = later {s = start_system 3} (flag_set true) start tt refl

Reach-reader_waits : Reach 3 reader_waits
unfolding run read_step Ring.available_read_size
Reach-reader_waits =
    later {s = record connected_system { reader = falling call }} (reader_sleeps call)
      (later {s = connected_system} (reader_begins call) Reach-connected (refl, omega arith, tt)
        refl)
      refl refl

-- The writer has filled the queue, and has called again before the reader goes on.
abbrev filled : System
filled = record {
  queue = record {
    m_buffer = record { m_data = 1 ∷ 2 ∷ 0 ∷ []; m_wrptr = 2; m_rdptr = 0 };
    m_connected = true;
  };
  reader = woken call;
  writer = outside;
  clearing = false;
  sent = 1 ∷ 2 ∷ [];
  got = [];
}

abbrev writer_waits : System
writer_waits = record filled { writer = asleep (3 ∷ []) }

Reach-filled : Reach 3 filled
unfolding run write_step Ring.write store Ring.available_write_size
Reach-filled =
    later {s = reader_waits} (writer_begins (1 ∷ 2 ∷ [])) Reach-reader_waits (refl, omega arith, tt)
      refl

Reach-writer_waits : Reach 3 writer_waits
unfolding run write_step Ring.available_write_size
Reach-writer_waits =
    later {s = record filled { writer = falling (3 ∷ []) }} (writer_sleeps (3 ∷ []))
      (later {s = filled} (writer_begins (3 ∷ [])) Reach-filled (refl, omega arith, tt) refl) refl
      refl

Reach-IsSound_example : IsSound 3 writer_waits
Reach-IsSound_example = Reach-IsSound (omega arith) (omega arith) Reach-writer_waits

run_total_example : (t : System) × (run writer_waits (reader_resumes call) ≡ some t)
run_total_example =
    run_total (reader_resumes call) (omega arith) (omega arith) Reach-writer_waits (refl, tt)

no_deadlock_example : reader_waits.writer ≢ asleep (1 ∷ [])
no_deadlock_example = no_deadlock call (1 ∷ []) (omega arith) (omega arith) Reach-reader_waits refl

reader_left_asleep_example :
    (s : System) × Reach 3 s
    × (s.reader ≡ asleep call)
    × (s.queue.m_connected ≡ false)
    × (s.clearing ≡ false)
    × (s.writer ≡ outside)
    × (run s (flag_set false) ≡ some s)
reader_left_asleep_example = reader_left_asleep 3 1 (omega arith)

held : bytes_of writer_waits.queue ≢ []
unfolding contents
held e = absurd (omega (arith, ap length e))

writer_left_asleep_example :
    (t : System) × (run writer_waits (reader_resumes call) ≡ some t)
    × (t.reader ≡ outside)
    × (t.writer ≡ asleep (3 ∷ []))
    × (0 < free t.queue.m_buffer)
writer_left_asleep_example =
    writer_left_asleep call (3 ∷ []) (omega arith) (omega arith) Reach-writer_waits refl
      (omega arith) held refl
