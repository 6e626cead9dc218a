-- ===== src/Ring/Write.antt =====
-- `RingBuffer::write` puts bytes at the back of the queue.
use libcppio.Prelude.{
  ℕ, suc, ◌+◌, ◌-◌, ◌^◌, ◌≤◌, ◌<◌, ◌≡◌, ◌≢◌, ◌⊎◌, inl, inr, refl, sym, ap, ◌∙◌, List, ◌++◌, length,
  take, drop, ◌==◌, if◌then◌else◌, arith, length-drop, min, take-min-length, take_add, append_assoc,
}
use native.Mathlib.Decide.{dec_lt, ℕ_discrete}
use libcppio.Memory.{ok, add_size}
use libcppio.Ring.{RingBuffer, Writing, capacity, write, upward_count}
use libcppio.Ring.Queue.{IsValid, contents, length-held_upward, length-held_wrapped}
use libcppio.Ring.Put.{
  free, Put, Puts, upward_count_lem, upward_run, upward_run_on, wrapped_run, stored, same_size,
  held_upward, held_to_end, held_wrapped,
}

write_wrapped :
    (fuel : ℕ) (r : RingBuffer) (buffer : List ℕ)
    → IsValid r
    → length buffer < 2 ^ 64
    → r.m_wrptr < r.m_rdptr
    → Puts (suc fuel) r buffer
unfolding contents
write_wrapped fuel r buffer v hn wraps = (
  record { count = t; ring = record r { m_data = stored t r buffer; m_wrptr = r.m_wrptr + t } },
  wrapped_run fuel r buffer v hn wraps,
  record {
    count = omega (arith, size);
    holds =
        held_wrapped t r buffer v (omega arith) wraps (omega arith)
        ∙ ap (◌++◌ (contents r))
            (take-min-length (r.m_rdptr - 1 - r.m_wrptr) buffer ∙ ap (λ k. take k buffer) room);
    room = same_size t r buffer v (omega arith) (omega arith);
    reader = refl;
    valid = omega (
      arith,
      v.reads_inside,
      same_size t r buffer v (omega arith) (omega (arith, v.reads_inside)),
    );
  },
)
  where
    t : ℕ
    t = min (r.m_rdptr - 1 - r.m_wrptr) (length buffer)

    size : length (contents r) ≡ capacity r - r.m_rdptr + r.m_wrptr
    size = length-held_wrapped r.m_data r.m_rdptr r.m_wrptr wraps (omega (arith, v.reads_inside))

    room : r.m_rdptr - 1 - r.m_wrptr ≡ free r
    room = omega (arith, size, v.reads_inside)

-- In the first branch the write ends before the end of the storage, exactly at it, or goes on.
module _ (fuel : ℕ) (r : RingBuffer) (buffer : List ℕ) (v : IsValid r) (hn : length buffer < 2 ^ 64)
    (up : r.m_rdptr ≤ r.m_wrptr) where
  open r use {m_rdptr as rd, m_wrptr as wr}

  size : length (contents r) ≡ wr - rd
  unfolding contents
  size = length-held_upward r.m_data rd wr up (omega (arith, v.writes_inside))

  write_inside :
      (t : ℕ)
      → upward_count r (length buffer) ≡ t
      → t ≡ min (free r) (length buffer)
      → wr + t < capacity r
      → (rd ≡ 0) ⊎ (t ≡ length buffer)
      → Puts (suc fuel) r buffer
  unfolding contents
  write_inside t e et inside stops = (
    record { count = t; ring = record r { m_data = stored t r buffer; m_wrptr = wr + t } },
    upward_run fuel t r buffer v up e (omega arith) (omega arith) stops
        ∙ ap
            (λ w.
              ok
                (record { count = t; ring = record r { m_data = stored t r buffer; m_wrptr = w } }))
            pointer,
    record {
      count = omega arith;
      holds =
          held_upward t r buffer v (omega arith) up (omega arith)
          ∙ ap (◌++◌ (contents r)) (ap (λ k. take k buffer) et ∙ take-min-length (free r) buffer);
      room = kept;
      reader = refl;
      valid = omega (arith, v.addressable, v.reads_inside, kept);
    },
  )
    where
      pointer : (if wr + t == capacity r then 0 else wr + t) ≡ wr + t
      pointer = ground arith

      kept : length (stored t r buffer) ≡ capacity r
      kept = same_size t r buffer v (omega arith) (omega arith)

  write_to_end :
      upward_count r (length buffer) ≡ length buffer
      → wr + length buffer ≡ capacity r
      → rd ≢ 0
      → Puts (suc fuel) r buffer
  unfolding contents
  write_to_end e end ne = (
    record { count = n; ring = record r { m_data = stored n r buffer; m_wrptr = 0 } },
    upward_run fuel n r buffer v up e (omega arith) (omega arith) (inr refl)
        ∙ ap
            (λ w.
              ok
                (record { count = n; ring = record r { m_data = stored n r buffer; m_wrptr = w } }))
            pointer,
    record {
      count = omega (arith, size);
      holds =
          held_to_end n r buffer v (omega arith) up end ne
          ∙ ap (◌++◌ (contents r)) (
              ap (λ k. take k buffer) {x = n} {y = min (free r) n} (omega (arith, size))
              ∙ take-min-length (free r) buffer);
      room = kept;
      reader = refl;
      valid = omega (arith, v.addressable, v.reads_inside, kept);
    },
  )
    where
      n : ℕ
      n = length buffer

      pointer : (if wr + n == capacity r then 0 else wr + n) ≡ 0
      pointer = ground arith

      kept : length (stored n r buffer) ≡ capacity r
      kept = same_size n r buffer v (omega arith) (omega arith)

  write_past_end :
      upward_count r (length buffer) ≡ capacity r - wr
      → capacity r - wr < length buffer
      → rd ≢ 0
      → Puts (suc (suc fuel)) r buffer
  unfolding contents
  write_past_end e past ne =
      let (out, e', p) =
        write_wrapped fuel next (drop t buffer) next-IsValid (omega (arith, left))
          (omega (arith, ne)) in
      (
        record { count = add_size t out.count; ring = out.ring },
        upward_run_on (suc fuel) t r buffer out v up e refl past ne e',
        whole out p,
      )
    where
      t : ℕ
      t = capacity r - wr

      next : RingBuffer
      next = record r { m_data = stored t r buffer; m_wrptr = 0 }

      kept : length (stored t r buffer) ≡ capacity r
      kept = same_size t r buffer v (omega arith) (omega (arith, v.writes_inside))

      left : length (drop t buffer) ≡ length buffer - t
      left = length-drop t buffer

      next-IsValid : IsValid next
      next-IsValid = omega (arith, kept, v.reads_inside, v.addressable)

      holds_next : contents next ≡ contents r ++ take t buffer
      holds_next = held_to_end t r buffer v (omega arith) up (omega (arith, v.writes_inside)) ne

      free_next : free r ≡ t + free next
      free_next = omega (
        arith,
        kept,
        size,
        v.writes_inside,
        length-held_wrapped (stored t r buffer) rd 0 (omega (arith, ne))
            (omega (arith, kept, v.reads_inside)),
      )

      whole :
          (out : Writing)
          → Put next (drop t buffer) out
          → Put r buffer (record { count = add_size t out.count; ring = out.ring })
      whole out p = record {
        count = omega (arith, p.count, left, free_next, past);
        holds =
            p.holds
            ∙ ap (λ h. h ++ take (free next) (drop t buffer)) holds_next
            ∙ append_assoc (contents r) (take t buffer) (take (free next) (drop t buffer))
            ∙ ap (◌++◌ (contents r))
                (sym (take_add t (free next) buffer) ∙ ap (λ k. take k buffer) (sym free_next));
        room = p.room ∙ kept;
        reader = p.reader;
        valid = p.valid;
      }

-- The recursion of `write` is at most two calls deep: with that much fuel it does to a valid ring
-- what it is to do.
write_loop-Put :
    (fuel : ℕ) (r : RingBuffer) (buffer : List ℕ)
    → IsValid r
    → length buffer < 2 ^ 64
    → Puts (suc (suc fuel)) r buffer
write_loop-Put fuel r buffer v hn = elim (dec_lt r.m_wrptr r.m_rdptr) [
  | yes wraps ↦ write_wrapped (suc fuel) r buffer v hn wraps
  | no up ↦ elim (ℕ_discrete r.m_rdptr 0) [
    | yes zero_read ↦
        write_inside (suc fuel) r buffer v hn (omega arith)
          (min (capacity r - 1 - r.m_wrptr) (length buffer))
          (ground (arith, upward_count_lem r (length buffer) v hn))
          (omega (arith, size (suc fuel) r buffer v hn (omega arith), v.writes_inside))
          (omega (arith, v.writes_inside)) (inl zero_read)
    | no ne ↦ elim (dec_lt (r.m_wrptr + length buffer) (capacity r)) [
      | yes short ↦
          write_inside (suc fuel) r buffer v hn (omega arith) (length buffer)
            (ground (arith, upward_count_lem r (length buffer) v hn))
            (omega (arith, size (suc fuel) r buffer v hn (omega arith), ne)) short (inr refl)
      | no long ↦ elim (ℕ_discrete (r.m_wrptr + length buffer) (capacity r)) [
        | yes end ↦
            write_to_end (suc fuel) r buffer v hn (omega arith)
              (ground (arith, upward_count_lem r (length buffer) v hn)) end ne
        | no past ↦
            write_past_end fuel r buffer v hn (omega arith)
              (ground (arith, upward_count_lem r (length buffer) v hn)) (omega arith) ne
      ]
    ]
  ]
]

-- `write` of a buffer to a valid ring returns without fault: it takes as many of the first bytes of
-- the buffer as fit, all of them or the ring is full afterwards, and returns their number; the ring
-- then holds what it held and those bytes behind it, its capacity and read pointer are as before,
-- and it is valid.
pub write_puts :
    (r : RingBuffer) (buffer : List ℕ)
    → IsValid r
    → length buffer < 2 ^ 64
    → (out : Writing) × (write r buffer ≡ ok out) × Put r buffer out
unfolding write
write_puts r buffer v hn = write_loop-Put 0 r buffer v hn
