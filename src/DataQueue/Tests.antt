-- ===== src/DataQueue/Tests.antt =====
-- A small queue on concrete inputs, and the theorems at concrete inputs.
use libcppio.Prelude.{◌≡◌, refl, true, false, [], ◌∷◌, arith}
use libcppio.Ring.{capacity}
use libcppio.Ring
use libcppio.Ring.Put.{free}
use libcppio.DataQueue.{
  DataQueue, entering, notified, expired, waits, read_step, read_with_timeout_step, write_step,
}
use libcppio.DataQueue.Steps.{
  QueueIsValid, bytes_of, ReadLaw, read_step_lem, TimedReadLaw, read_with_timeout_step_lem,
}
use libcppio.DataQueue.Writes.{WriteLaw, write_step_lem}

-- 7, 8 and 9, round the end of five bytes of storage, with one more byte of room.
abbrev three_held : DataQueue
three_held = record {
  m_buffer = record { m_data = 9 ∷ 0 ∷ 0 ∷ 7 ∷ 8 ∷ []; m_wrptr = 1; m_rdptr = 3 };
  m_connected = true;
}

-- A full queue that has been disconnected.
abbrev full_off : DataQueue
full_off = record {
  m_buffer = record { m_data = 9 ∷ 1 ∷ 0 ∷ 7 ∷ 8 ∷ []; m_wrptr = 2; m_rdptr = 3 };
  m_connected = false;
}

three_held-IsValid : QueueIsValid three_held
three_held-IsValid = omega arith

full_off-IsValid : QueueIsValid full_off
full_off-IsValid = omega arith

write_step-full_off : write_step notified full_off (5 ∷ []) ≡ waits full_off
unfolding write_step Ring.available_write_size
write_step-full_off = refl

read_step_example :
    ReadLaw (bytes_of three_held) true three_held 2 (read_step entering three_held 2)
read_step_example = read_step_lem entering three_held 2 three_held-IsValid (omega arith)

read_with_timeout_step_example :
    TimedReadLaw expired
      (bytes_of three_held)
      true
      three_held
      2
      (read_with_timeout_step expired three_held 2)
read_with_timeout_step_example =
    read_with_timeout_step_lem expired three_held 2 three_held-IsValid (omega arith)

write_step_example :
    WriteLaw notified false
      (free full_off.m_buffer)
      false
      full_off
      (5 ∷ [])
      (write_step notified full_off (5 ∷ []))
write_step_example = write_step_lem notified full_off (5 ∷ []) full_off-IsValid (omega arith)
