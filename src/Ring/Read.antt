-- ===== src/Ring/Read.antt =====
-- `RingBuffer::read` takes bytes from the front of the queue.
use libcppio.Prelude.{
  ℕ, suc, ◌-◌, ◌^◌, ◌≤◌, ◌<◌, ◌≡◌, ◌≢◌, ◌⊎◌, inl, inr, refl, sym, ap, ap₂, ◌∙◌, List, [], ◌++◌,
  length, take, drop, arith, length-drop, drop-nil, take-append_parts, drop-append_parts,
  append-nil, take_all, drop_all,
}
use native.Mathlib.Decide.{dec_lt, ℕ_discrete}
use libcppio.Memory.{ok}
use libcppio.Memory.Access.{load-take}
use libcppio.Ring.{RingBuffer, Reading, capacity, read_loop, read, after_copy}
use libcppio.Ring.Queue.{IsValid, held, contents, length-held_upward, length-held_wrapped}
use libcppio.Ring.Pieces.{Took, Takes, take_none, read_empty, read_upward, read_wrapped_short}

-- The two parts of a wrapped ring, for a read that reaches the end of the storage.
wrapped_parts :
    (n : ℕ) (r : RingBuffer)
    → r.m_wrptr < r.m_rdptr
    → r.m_rdptr < capacity r
    → capacity r - r.m_rdptr ≤ n
    → let first = capacity r - r.m_rdptr in
      (take first (drop r.m_rdptr r.m_data) ++ take (n - first) (take r.m_wrptr r.m_data)
        ≡ take n (contents r))
      × (drop (n - first) (take r.m_wrptr r.m_data) ≡ drop n (contents r))
unfolding contents
wrapped_parts n r wraps inside reach = (
  ap₂ ◌++◌ (take_all front (omega (arith, len)) ∙ sym (take_all front (omega (arith, len))))
        (ap (λ k. take k back) left)
      ∙ sym (take-append_parts n front back)
      ∙ ap (take n) (sym now),
  sym (
      ap (drop n) now
      ∙ drop-append_parts n front back
      ∙ ap (λ t. t ++ drop (n - length front) back) (drop_all front (omega (arith, len)))
      ∙ ap (λ k. drop k back) (sym left)),
)
  where
    open r use {m_rdptr as rd, m_wrptr as wr}

    front : List ℕ
    front = drop rd r.m_data

    back : List ℕ
    back = take wr r.m_data

    len : length front ≡ capacity r - rd
    len = length-drop rd r.m_data

    left : n - (capacity r - rd) ≡ n - length front
    left = omega (arith, len)

    now : held r.m_data rd wr ≡ front ++ back
    now = ground arith

-- It reads exactly to the end of the storage, or there is nothing at the start of the storage.
read_wrapped_end :
    (fuel n : ℕ) (r : RingBuffer)
    → IsValid r
    → r.m_wrptr < r.m_rdptr
    → capacity r - r.m_rdptr ≤ n
    → (n ≡ capacity r - r.m_rdptr) ⊎ (r.m_wrptr ≡ 0)
    → Takes (suc fuel) r n
unfolding read_loop contents
read_wrapped_end fuel n r v wraps reach stops = (
  record { count = first; bytes = take first (drop rd r.m_data); ring = record r { m_rdptr = 0 } },
  ground (arith, load-take r.m_data rd first),
  record {
    count = omega (arith, length-held_wrapped r.m_data rd wr);
    bytes =
        sym (append-nil (take first (drop rd r.m_data)))
        ∙ ap (λ t. take first (drop rd r.m_data) ++ t) (sym (nothing_more stops))
        ∙ (wrapped_parts n r wraps v.reads_inside reach).0;
    rest = later ∙ same stops ∙ (wrapped_parts n r wraps v.reads_inside reach).1;
    storage = refl;
    writer = refl;
    valid = omega arith;
  },
)
  where
    open r use {m_rdptr as rd, m_wrptr as wr}

    first : ℕ
    first = capacity r - rd

    later : held r.m_data 0 wr ≡ take wr r.m_data
    later = ground arith

    nothing_more : (n ≡ first) ⊎ (wr ≡ 0) → take (n - first) (take wr r.m_data) ≡ []
    nothing_more (inl e) = ap (λ k. take k (take wr r.m_data)) {x = n - first} {y = 0} (omega arith)
    nothing_more (inr e) = take_none (n - first) wr r.m_data e

    same : (n ≡ first) ⊎ (wr ≡ 0) → take wr r.m_data ≡ drop (n - first) (take wr r.m_data)
    same (inl e) = ap (λ k. drop k (take wr r.m_data)) {x = 0} {y = n - first} (omega arith)
    same (inr e) =
        ap (λ k. take k r.m_data) e
        ∙ sym (drop-nil (n - first))
        ∙ ap (λ k. drop (n - first) (take k r.m_data)) (sym e)

wrapped_run :
    (fuel n : ℕ) (r : RingBuffer) (out : Reading)
    → IsValid r
    → n < 2 ^ 64
    → r.m_wrptr < r.m_rdptr
    → capacity r - r.m_rdptr < n
    → r.m_wrptr ≢ 0
    → read_loop fuel (record r { m_rdptr = 0 }) (n - (capacity r - r.m_rdptr)) ≡ ok out
    → read_loop (suc fuel) r n
      ≡ ok (
          after_copy
            (capacity r - r.m_rdptr)
            (take (capacity r - r.m_rdptr) (drop r.m_rdptr r.m_data))
            out)
unfolding read_loop
wrapped_run fuel n r out v hn wraps reach more e =
    ground (arith, load-take r.m_data r.m_rdptr (capacity r - r.m_rdptr))

-- It goes on at the start of the storage.
read_wrapped_on :
    (fuel n : ℕ) (r : RingBuffer)
    → IsValid r
    → n < 2 ^ 64
    → r.m_wrptr < r.m_rdptr
    → capacity r - r.m_rdptr < n
    → r.m_wrptr ≢ 0
    → Takes (suc (suc fuel)) r n
unfolding contents
read_wrapped_on fuel n r v hn wraps reach more =
    let (out, e, took) =
      read_upward fuel (n - first) start
        (record {
          reads_inside = omega arith;
          writes_inside = v.writes_inside;
          addressable = v.addressable;
        })
        (omega arith) (omega arith) in
    (
      after_copy first (take first (drop rd r.m_data)) out,
      wrapped_run (suc fuel) n r out v hn wraps reach more e,
      whole out took,
    )
  where
    open r use {m_rdptr as rd, m_wrptr as wr}

    first : ℕ
    first = capacity r - rd

    start : RingBuffer
    start = record r { m_rdptr = 0 }

    now : held r.m_data 0 wr ≡ take wr r.m_data
    now = ground arith

    whole :
        (out : Reading)
        → Took start (n - first) out
        → Took r n (after_copy first (take first (drop rd r.m_data)) out)
    whole out took =
        unfold after_copy in
        record {
          count = omega (
            arith,
            took.count,
            length-held_wrapped r.m_data rd wr,
            length-held_upward r.m_data 0 wr,
          );
          bytes =
              ap (λ t. take first (drop rd r.m_data) ++ t) (took.bytes ∙ ap (take (n - first)) now)
              ∙ (wrapped_parts n r wraps v.reads_inside (omega arith)).0;
          rest =
              took.rest
              ∙ ap (drop (n - first)) now
              ∙ (wrapped_parts n r wraps v.reads_inside (omega arith)).1;
          storage = took.storage;
          writer = took.writer;
          valid = took.valid;
        }

-- The recursion of `read` is at most two calls deep: with that much fuel it takes from a valid ring
-- the first bytes of the queue, as many as are asked for and held.
read_loop-Took : (fuel n : ℕ) (r : RingBuffer) → IsValid r → n < 2 ^ 64 → Takes (suc (suc fuel)) r n
read_loop-Took fuel n r v hn = elim (ℕ_discrete r.m_wrptr r.m_rdptr) [
  | yes e ↦ read_empty (suc fuel) n r v e
  | no ne ↦ elim (dec_lt r.m_rdptr r.m_wrptr) [
    | yes up ↦ read_upward (suc fuel) n r v hn up
    | no down ↦ elim (dec_lt (capacity r - r.m_rdptr) n) [
      | yes on ↦ elim (ℕ_discrete r.m_wrptr 0) [
        | yes e ↦ read_wrapped_end (suc fuel) n r v (omega arith) (omega arith) (inr e)
        | no more ↦ read_wrapped_on fuel n r v hn (omega arith) on more
      ]
      | no short ↦ elim (ℕ_discrete n (capacity r - r.m_rdptr)) [
        | yes e ↦ read_wrapped_end (suc fuel) n r v (omega arith) (omega arith) (inl e)
        | no ne' ↦ read_wrapped_short (suc fuel) n r v (omega arith) (omega arith)
      ]
    ]
  ]
]

-- `read` of at most `n` bytes from a valid ring returns without fault: it copies out the first
-- `min n (length contents)` bytes held and returns their number, the ring then holds the others, its
-- storage and write pointer are as before, and it is valid.
pub read_takes :
    (r : RingBuffer) (n : ℕ)
    → IsValid r
    → n < 2 ^ 64
    → (out : Reading) × (read r n ≡ ok out) × Took r n out
unfolding read
read_takes r n v hn = read_loop-Took 0 n r v hn
