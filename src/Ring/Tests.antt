-- ===== src/Ring/Tests.antt =====
-- A small ring on concrete inputs, and the theorems at concrete inputs.
use libcppio.Prelude.{◌+◌, ◌≡◌, refl, List, [], ◌∷◌, arith}
use libcppio.Memory.{ok, load, store}
use libcppio.Ring.{
  RingBuffer, Reading, Writing, make_ring, read, write, available_read_size, available_write_size,
}
use libcppio.Ring.Queue.{IsValid, contents, available_sizes, make_ring-IsValid}
use libcppio.Ring.Pieces.{Took}
use libcppio.Ring.Read.{read_takes}
use libcppio.Ring.Write.{write_puts}
use libcppio.Ring.Put.{Put}
use libcppio.Ring.Fifo.{Call, reads, writes, gave, took, run, queue_run, run-queue_run}

-- 7, 8 at the end of the storage and 9 at its start.
abbrev wrapped : RingBuffer
wrapped = record { m_data = 9 ∷ 0 ∷ 0 ∷ 7 ∷ 8 ∷ []; m_wrptr = 1; m_rdptr = 3 }

wrapped-IsValid : IsValid wrapped
wrapped-IsValid = omega arith

contents-wrapped : contents wrapped ≡ 7 ∷ 8 ∷ 9 ∷ []
unfolding contents
contents-wrapped = refl

read-wrapped :
    read wrapped 10
    ≡ ok (record { count = 3; bytes = 7 ∷ 8 ∷ 9 ∷ []; ring = record wrapped { m_rdptr = 1 } })
unfolding read load
read-wrapped = refl

-- One byte fits: the pointers may not meet.
write-wrapped :
    write wrapped (1 ∷ 2 ∷ [])
    ≡ ok (record {
      count = 1;
      ring = record { m_data = 9 ∷ 1 ∷ 0 ∷ 7 ∷ 8 ∷ []; m_wrptr = 2; m_rdptr = 3 };
    })
unfolding write store
write-wrapped = refl

available_sizes_example :
    (available_read_size wrapped ≡ 3)
    × (available_read_size wrapped + available_write_size wrapped + 1 ≡ 5)
unfolding contents
available_sizes_example = available_sizes wrapped wrapped-IsValid

make_ring-IsValid_example : IsValid (make_ring 4) × (contents (make_ring 4) ≡ [])
make_ring-IsValid_example = make_ring-IsValid 4 (omega arith) (omega arith)

read_takes_example : (out : Reading) × (read wrapped 10 ≡ ok out) × Took wrapped 10 out
read_takes_example = read_takes wrapped 10 wrapped-IsValid (omega arith)

write_puts_example :
    (out : Writing) × (write wrapped (1 ∷ 2 ∷ []) ≡ ok out) × Put wrapped (1 ∷ 2 ∷ []) out
write_puts_example = write_puts wrapped (1 ∷ 2 ∷ []) wrapped-IsValid (omega arith)

abbrev calls : List Call
calls = writes (1 ∷ 2 ∷ []) ∷ reads 2 ∷ writes (3 ∷ 4 ∷ 5 ∷ []) ∷ reads 9 ∷ reads 1 ∷ []

run-queue_run_example :
    run wrapped calls
    ≡ ok (took 1 ∷ gave 2 (7 ∷ 8 ∷ []) ∷ took 2 ∷ gave 4 (9 ∷ 1 ∷ 3 ∷ 4 ∷ []) ∷ gave 0 [] ∷ [])
unfolding queue_run contents
run-queue_run_example = run-queue_run calls wrapped wrapped-IsValid (omega arith)
