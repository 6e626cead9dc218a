-- ===== src/Ring/Queue.antt =====
-- The ring as a queue of bytes: what it holds, its invariant, and the two sizes.
use libcppio.Prelude.{
  ℕ, ◌+◌, ◌-◌, ◌^◌, ◌≤◌, ◌<◌, ◌≡◌, refl, List, [], ◌++◌, length, take, drop, leb, if◌then◌else◌,
  arith, length-append, length-take, length-drop, length-replicate,
}
use libcppio.Ring.{RingBuffer, capacity, make_ring, available_read_size, available_write_size}

-- The bytes from the read pointer to the write pointer, round the end of the storage.
abbrev pub held : List ℕ → ℕ → ℕ → List ℕ
held storage rd wr =
    if leb rd wr then take (wr - rd) (drop rd storage) else drop rd storage ++ take wr storage

unfoldable pub contents : RingBuffer → List ℕ
contents r = held r.m_data r.m_rdptr r.m_wrptr

-- Both pointers lie in the storage, which is small enough that no sum of sizes wraps.
pub record IsValid (r : RingBuffer) : Type 0 where
  pub reads_inside : r.m_rdptr < capacity r
  pub writes_inside : r.m_wrptr < capacity r
  pub addressable : capacity r < 2 ^ 63

pub length-held_upward :
    (storage : List ℕ) (rd wr : ℕ)
    → rd ≤ wr
    → wr ≤ length storage
    → length (held storage rd wr) ≡ wr - rd
length-held_upward storage rd wr h fits =
    ground (arith, length-take (wr - rd) (drop rd storage), length-drop rd storage)

pub length-held_wrapped :
    (storage : List ℕ) (rd wr : ℕ)
    → wr < rd
    → rd ≤ length storage
    → length (held storage rd wr) ≡ length storage - rd + wr
length-held_wrapped storage rd wr h fits = ground (
  arith,
  length-append (drop rd storage) (take wr storage),
  length-take wr storage,
  length-drop rd storage,
)

-- `availableReadSize` is the number of bytes held, and `availableWriteSize` is how many more fit:
-- together they make up the capacity less one.
pub available_sizes :
    (r : RingBuffer)
    → IsValid r
    → (available_read_size r ≡ length (contents r))
      × (available_read_size r + available_write_size r + 1 ≡ capacity r)
unfolding available_read_size available_write_size contents
available_sizes r v = ground (
  arith,
  length-held_upward r.m_data r.m_rdptr r.m_wrptr,
  length-held_wrapped r.m_data r.m_rdptr r.m_wrptr,
)

-- A new ring is valid and holds nothing.
pub make_ring-IsValid :
    (n : ℕ) → 0 < n → n < 2 ^ 63 → IsValid (make_ring n) × (contents (make_ring n) ≡ [])
unfolding make_ring contents
make_ring-IsValid n h small = (ground (arith, length-replicate {A = ℕ} n 0), refl)
