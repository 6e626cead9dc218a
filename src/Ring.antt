-- ===== src/Ring.antt =====
-- RingBuffer of src/common/inproc.h and, in the blocking variant that CMakeLists.txt builds, of
-- src/common/inproc.cpp: a ring of bytes with a read and a write pointer, in which one byte always
-- stays free.
pub mod Queue
pub mod Pieces
pub mod Read
pub mod Put
pub mod Write
pub mod Fifo
mod Tests
use libcppio.Prelude.{
  ℕ, zero, suc, ◌+◌, ◌-◌, ◌%◌, ◌^◌, min, Bool, true, false, ◌&&◌, List, [], ◌∷◌, ◌++◌, length, take,
  drop, replicate, leb, ltb, ◌==◌, if◌then◌else◌,
}
use libcppio.Memory.{
  Outcome, ok, out_of_bounds, out_of_fuel, ◌>>=◌, add_size, sub_size, load, store,
}

pub record RingBuffer : Type 0 where
  pub m_data : List ℕ
  pub m_wrptr : ℕ
  pub m_rdptr : ℕ

-- `RingBuffer::RingBuffer`: the storage is zeroed.
unfoldable pub make_ring : ℕ → RingBuffer
make_ring buffer_size = record { m_data = replicate buffer_size 0; m_wrptr = 0; m_rdptr = 0 }

-- `m_data.size()`
abbrev pub capacity : RingBuffer → ℕ
capacity r = length r.m_data

-- What `RingBuffer::read` did: the count that it returns, the bytes at the caller's buffer, and the
-- ring afterwards.
pub record Reading : Type 0 where
  pub count : ℕ
  pub bytes : List ℕ
  pub ring : RingBuffer

-- `tocopy + read(buffer + tocopy, …)`
unfoldable pub after_copy : ℕ → List ℕ → Reading → Reading
after_copy tocopy bytes more = record {
  count = add_size tocopy more.count;
  bytes = bytes ++ more.bytes;
  ring = more.ring;
}

-- `RingBuffer::read`. The fuel bounds the depth of its recursion.
unfoldable pub read_loop : ℕ → RingBuffer → ℕ → Outcome Reading
read_loop zero r buflen = out_of_fuel
read_loop (suc fuel) r buflen =
    if r.m_wrptr == r.m_rdptr
    then ok (record { count = 0; bytes = []; ring = r })
    else (if ltb r.m_rdptr r.m_wrptr
        then (let tocopy = min (sub_size r.m_wrptr r.m_rdptr) buflen in
            do
              bytes ← load r.m_data r.m_rdptr tocopy
              ok (record {
                count = tocopy;
                bytes = bytes;
                ring = record r { m_rdptr = add_size r.m_rdptr tocopy };
              }))
        else (let tocopy = min (sub_size (capacity r) r.m_rdptr) buflen in
            do
              bytes ← load r.m_data r.m_rdptr tocopy
              let moved = add_size r.m_rdptr tocopy
              let rdptr = if moved == capacity r then 0 else moved
              let r' = record r { m_rdptr = rdptr }
              let done = ok (record { count = tocopy; bytes = bytes; ring = r' })
              let more = read_loop fuel r' (sub_size buflen tocopy)
              if ltb tocopy buflen
                  then (if r.m_wrptr == rdptr
                      then done
                      else (if tocopy == 0
                          then ok (record { count = 0; bytes = bytes; ring = r' })
                          else (more >>= λ rest. ok (after_copy tocopy bytes rest))))
                  else done))

unfoldable pub read : RingBuffer → ℕ → Outcome Reading
unfolding read_loop after_copy
read = read_loop 2

-- What `RingBuffer::write` did: the count that it returns, and the ring afterwards.
pub record Writing : Type 0 where
  pub count : ℕ
  pub ring : RingBuffer

-- `tocopy` of the first branch of `RingBuffer::write`: up to the end of the storage, but not to it
-- where that would make the ring look empty.
unfoldable pub upward_count : RingBuffer → ℕ → ℕ
upward_count r buflen =
    let room = sub_size (capacity r) r.m_wrptr in
    let tocopy = min room buflen in
    if (r.m_rdptr == 0) && (tocopy == room) then sub_size tocopy 1 else tocopy

-- `RingBuffer::write` of the bytes `buffer`. The fuel bounds the depth of its recursion.
unfoldable pub write_loop : ℕ → RingBuffer → List ℕ → Outcome Writing
write_loop zero r buffer = out_of_fuel
write_loop (suc fuel) r buffer =
    let buflen = length buffer in
    if leb r.m_rdptr r.m_wrptr
    then (let tocopy = upward_count r buflen in
        do
          stored ← store r.m_data r.m_wrptr (take tocopy buffer)
          let moved = add_size r.m_wrptr tocopy
          let wrptr = if moved == capacity r then 0 else moved
          let r' = record r { m_data = stored; m_wrptr = wrptr }
          let done = ok (record { count = tocopy; ring = r' })
          let more = write_loop fuel r' (drop tocopy buffer)
          if ltb tocopy buflen
              then (if r.m_rdptr == 0
                  then done
                  else (if tocopy == 0
                      then ok (record { count = 0; ring = r' })
                      else (more >>= λ rest.
                          ok (record { count = add_size tocopy rest.count; ring = rest.ring }))))
              else done)
    else (let tocopy = min (sub_size (sub_size r.m_rdptr 1) r.m_wrptr) buflen in
        do
          stored ← store r.m_data r.m_wrptr (take tocopy buffer)
          ok (record {
            count = tocopy;
            ring = record r { m_data = stored; m_wrptr = add_size r.m_wrptr tocopy };
          }))

unfoldable pub write : RingBuffer → List ℕ → Outcome Writing
unfolding write_loop upward_count
write = write_loop 2

-- `RingBuffer::availableReadSize`
unfoldable pub available_read_size : RingBuffer → ℕ
available_read_size r =
    if r.m_rdptr == r.m_wrptr
    then 0
    else (if ltb r.m_rdptr r.m_wrptr
        then sub_size r.m_wrptr r.m_rdptr
        else add_size (sub_size (capacity r) r.m_rdptr) r.m_wrptr)

-- `RingBuffer::availableWriteSize`
unfoldable pub available_write_size : RingBuffer → ℕ
available_write_size r =
    if r.m_rdptr == r.m_wrptr
    then sub_size (capacity r) 1
    else (if ltb r.m_rdptr r.m_wrptr
        then sub_size (add_size (sub_size (capacity r) r.m_wrptr) r.m_rdptr) 1
        else sub_size (sub_size r.m_rdptr r.m_wrptr) 1)
