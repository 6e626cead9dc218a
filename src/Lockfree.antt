-- ===== src/Lockfree.antt =====
-- RingBuffer of src/common/inproc.cpp in the variant that is compiled without CPPIO_BLOCKING_INPROC:
-- one thread reads and one writes, without a lock, and the two pointers are atomic. A step of a
-- thread is one access to a pointer or to the storage. The accesses to the pointers are in one order,
-- as those of `std::atomic` are where no other order is asked for.
pub mod Held
pub mod Invariant
pub mod Moves
pub mod Ends
pub mod Kept
pub mod Reads
pub mod Writes
pub mod Preserved
pub mod Steps
pub mod WaitFree
pub mod Races
pub mod Queue
mod Tests
use libcppio.Prelude.{
  ℕ, ◌^◌, ◌<◌, ◌≡◌, min, Bool, true, false, ◌&&◌, List, [], ◌∷◌, ◌++◌, length, take, drop,
  replicate, leb, ltb, ◌==◌, if◌then◌else◌, Option, none, some,
}
use libcppio.Memory.{ok, length_error, out_of_bounds, out_of_fuel, add_size, sub_size, load, store}
use libcppio.Ring.{RingBuffer, capacity}

-- Where a thread is in a call: outside, before the load of `m_wrptr`, before that of `m_rdptr`, before
-- the copy, and before the store to its own pointer, with the bytes copied. The numbers are the
-- variables `wrptr` and `rdptr`.
pub data At (Call : Type 0) : Type 0 where
  outside : At Call
  starting : Call → At Call
  loaded : Call → ℕ → At Call
  copying : Call → ℕ → ℕ → At Call
  copied : Call → ℕ → ℕ → List ℕ → At Call

-- `buflen`, and the bytes that the calls further out have copied; their number is what those add to
-- the result.
pub record ReadCall : Type 0 where
  pub buflen : ℕ
  pub out : List ℕ

-- The bytes to write, and those that the calls further out have written.
pub record WriteCall : Type 0 where
  pub buffer : List ℕ
  pub written : List ℕ

-- The object, the two threads, the bytes that all calls of `read` have returned, and those that all
-- calls of `write` have accepted.
pub record System : Type 0 where
  pub ring : RingBuffer
  pub reader : At ReadCall
  pub writer : At WriteCall
  pub given : List ℕ
  pub accepted : List ℕ

-- `tocopy` in `read`
unfoldable pub read_count : ℕ → ℕ → ℕ → ℕ → ℕ
read_count size wrptr rdptr buflen =
    if ltb rdptr wrptr then min (sub_size wrptr rdptr) buflen else min (sub_size size rdptr) buflen

-- `tocopy` in `write`
unfoldable pub write_count : ℕ → ℕ → ℕ → ℕ → ℕ
write_count size wrptr rdptr buflen =
    if leb rdptr wrptr
    then (let room = sub_size size wrptr in
        let tocopy = min room buflen in
        if (rdptr == 0) && (tocopy == room) then sub_size tocopy 1 else tocopy)
    else min (sub_size (sub_size rdptr 1) wrptr) buflen

-- A pointer moved on, from the end of the storage to its start.
unfoldable pub wrapped : ℕ → ℕ → ℕ → ℕ
wrapped size ptr n = let moved = add_size ptr n in if moved == size then 0 else moved

unfoldable pub read_returns : System → List ℕ → System
read_returns s out = record s { reader = outside; given = s.given ++ out }

unfoldable pub write_returns : System → List ℕ → System
write_returns s written = record s { writer = outside; accepted = s.accepted ++ written }

abbrev pub set_rdptr : System → ℕ → System
set_rdptr s rdptr = record s { ring = record s.ring { m_rdptr = rdptr } }

abbrev pub set_wrptr : System → ℕ → System
set_wrptr s wrptr = record s { ring = record s.ring { m_wrptr = wrptr } }

-- `read`, from the store to `m_rdptr` on: `fetch_add`, or the store of `rdptr` and what follows it.
unfoldable pub publish_read : System → ReadCall → ℕ → ℕ → List ℕ → System
unfolding read_count wrapped read_returns
publish_read s call wrptr rdptr bytes =
    let size = capacity s.ring in
    let tocopy = read_count size wrptr rdptr call.buflen in
    let next = wrapped size rdptr tocopy in
    let out = call.out ++ bytes in
    if ltb rdptr wrptr
    then read_returns (set_rdptr s (add_size s.ring.m_rdptr tocopy)) out
    else (if ltb tocopy call.buflen
        then (if wrptr == next
            then read_returns (set_rdptr s next) out
            else (if tocopy == 0
                then read_returns (set_rdptr s next) out
                else record (set_rdptr s next) {
                  reader = starting (record { buflen = sub_size call.buflen tocopy; out = out });
                }))
        else read_returns (set_rdptr s next) out)

-- The reader's next step; `none` is an access outside the storage.
unfoldable pub step_reader : System → At ReadCall → Option System
unfolding publish_read
step_reader s outside = some s
step_reader s (starting call) = some (record s { reader = loaded call s.ring.m_wrptr })
step_reader s (loaded call wrptr) =
    if wrptr == s.ring.m_rdptr
    then some (read_returns s call.out)
    else some (record s { reader = copying call wrptr s.ring.m_rdptr })
step_reader s (copying call wrptr rdptr) =
    elim (load s.ring.m_data rdptr (read_count (capacity s.ring) wrptr rdptr call.buflen)) [
      | ok bytes ↦ some (record s { reader = copied call wrptr rdptr bytes })
      | length_error ↦ none
      | out_of_bounds ↦ none
      | out_of_fuel ↦ none
    ]
step_reader s (copied call wrptr rdptr bytes) = some (publish_read s call wrptr rdptr bytes)

-- `write`, from the store to `m_wrptr` on.
unfoldable pub publish_write : System → WriteCall → ℕ → ℕ → List ℕ → System
unfolding write_count wrapped write_returns
publish_write s call wrptr rdptr bytes =
    let size = capacity s.ring in
    let buflen = length call.buffer in
    let tocopy = write_count size wrptr rdptr buflen in
    let next = wrapped size wrptr tocopy in
    let written = call.written ++ bytes in
    if leb rdptr wrptr
    then (if ltb tocopy buflen
        then (if rdptr == 0
            then write_returns (set_wrptr s next) written
            else (if tocopy == 0
                then write_returns (set_wrptr s next) written
                else record (set_wrptr s next) {
                  writer =
                      starting (record { buffer = drop tocopy call.buffer; written = written });
                }))
        else write_returns (set_wrptr s next) written)
    else write_returns (set_wrptr s (add_size s.ring.m_wrptr tocopy)) written

-- The writer's next step.
unfoldable pub step_writer : System → At WriteCall → Option System
unfolding publish_write
step_writer s outside = some s
step_writer s (starting call) = some (record s { writer = loaded call s.ring.m_wrptr })
step_writer s (loaded call wrptr) = some (record s { writer = copying call wrptr s.ring.m_rdptr })
step_writer s (copying call wrptr rdptr) =
    let bytes = take (write_count (capacity s.ring) wrptr rdptr (length call.buffer)) call.buffer in
    elim (store s.ring.m_data wrptr bytes) [
      | ok data' ↦ some (record s {
        ring = record s.ring { m_data = data' };
        writer = copied call wrptr rdptr bytes;
      })
      | length_error ↦ none
      | out_of_bounds ↦ none
      | out_of_fuel ↦ none
    ]
step_writer s (copied call wrptr rdptr bytes) = some (publish_write s call wrptr rdptr bytes)

-- What happens next: a thread outside begins a call, or one takes its next step.
pub data Turn : Type 0 where
  reader_begins : ℕ → Turn
  writer_begins : List ℕ → Turn
  reader_steps writer_steps : Turn

unfoldable pub run : System → Turn → Option System
unfolding step_reader step_writer
run s (reader_begins n) = some (record s { reader = starting (record { buflen = n; out = [] }) })
run s (writer_begins bs) =
    some (record s { writer = starting (record { buffer = bs; written = [] }) })
run s reader_steps = step_reader s s.reader
run s writer_steps = step_writer s s.writer

-- When a turn may be taken. The length of a buffer fits a `size_t`.
abbrev pub Enabled : System → Turn → Type 0
Enabled s (reader_begins n) = (s.reader ≡ outside) × (n < 2 ^ 64)
Enabled s (writer_begins bs) = (s.writer ≡ outside) × (length bs < 2 ^ 64)
Enabled s reader_steps = Unit
Enabled s writer_steps = Unit

-- `RingBuffer::RingBuffer`
abbrev pub start_system : ℕ → System
start_system size = record {
  ring = record { m_data = replicate size 0; m_wrptr = 0; m_rdptr = 0 };
  reader = outside;
  writer = outside;
  given = [];
  accepted = [];
}

-- The states that a ring of the size comes to, with the steps of the two threads in any order.
pub data Reach (size : ℕ) : System → Type 0 where
  start : Reach size (start_system size)
  later :
      {s t : System} (turn : Turn)
      → Reach size s
      → Enabled s turn
      → run s turn ≡ some t
      → Reach size t
