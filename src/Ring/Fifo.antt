-- ===== src/Ring/Fifo.antt =====
-- Any sequence of reads and writes: the ring is a bounded FIFO.
use libcppio.Prelude.{
  ℕ, ◌-◌, ◌^◌, ◌<◌, ◌≡◌, refl, List, [], ◌∷◌, ◌++◌, length, take, drop, min, All,
}
use libcppio.Memory.{Outcome, ok, ◌>>=◌}
use libcppio.Ring.{RingBuffer, capacity, read, write}
use libcppio.Ring.Queue.{IsValid, contents}
use libcppio.Ring.Read.{read_takes}
use libcppio.Ring.Write.{write_puts}

-- A call of the ring's client, and what the client sees of it: the bytes that a read gave, or how
-- many a write took.
pub data Call : Type 0 where
  reads : ℕ → Call
  writes : List ℕ → Call

pub data Reply : Type 0 where
  gave : ℕ → List ℕ → Reply
  took : ℕ → Reply

-- The calls one after the other, with their replies.
unfoldable pub run : RingBuffer → List Call → Outcome (List Reply)
run r [] = ok []
run r (reads n ∷ calls) =
    read r n >>= λ out. run out.ring calls >>= λ more. ok (gave out.count out.bytes ∷ more)
run r (writes b ∷ calls) =
    write r b >>= λ out. run out.ring calls >>= λ more. ok (took out.count ∷ more)

-- The same calls on a queue of at most `limit` bytes.
unfoldable pub queue_run : ℕ → List ℕ → List Call → List Reply
queue_run limit q [] = []
queue_run limit q (reads n ∷ calls) =
    gave (min n (length q)) (take n q) ∷ queue_run limit (drop n q) calls
queue_run limit q (writes b ∷ calls) =
    let room = limit - length q in
    took (min (length b) room) ∷ queue_run limit (q ++ take room b) calls

-- Lengths that fit a `size_t`.
abbrev pub Sized : Call → Type 0
Sized (reads n) = n < 2 ^ 64
Sized (writes b) = length b < 2 ^ 64

-- No sequence of calls tells a valid ring from a queue of its contents that is bounded by the
-- capacity less one; in particular no call faults.
pub run-queue_run :
    (calls : List Call) (r : RingBuffer)
    → IsValid r
    → All Sized calls
    → run r calls ≡ ok (queue_run (capacity r - 1) (contents r) calls)
unfolding run queue_run
run-queue_run [] r v h = refl
run-queue_run (reads n ∷ calls) r v h =
    let (out, e, t) = read_takes r n v h.0 in
    rw e (rw (run-queue_run calls out.ring t.valid h.1) (rw (t.count, t.bytes, t.rest, t.storage)))
run-queue_run (writes b ∷ calls) r v h =
    let (out, e, p) = write_puts r b v h.0 in
    rw e (rw (run-queue_run calls out.ring p.valid h.1) (rw (p.count, p.holds, p.room)))
