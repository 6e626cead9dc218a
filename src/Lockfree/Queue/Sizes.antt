-- ===== src/Lockfree/Queue/Sizes.antt =====
-- The two sizes of the ring without a lock, of src/common/inproc.cpp.
use libcppio.Prelude.{◌+◌, ◌≡◌, length, arith}
use libcppio.Ring.{RingBuffer, capacity}
use libcppio.Ring.Queue.{IsValid, contents, length-held_upward, length-held_wrapped}
use libcppio.Lockfree.Queue.{ring_read_size, ring_write_size}

-- They are the number of bytes held and how many more fit: together the capacity less one.
pub ring_sizes :
    (r : RingBuffer)
    → IsValid r
    → (ring_read_size r ≡ length (contents r))
      × (ring_read_size r + ring_write_size r + 1 ≡ capacity r)
unfolding ring_read_size ring_write_size contents
ring_sizes r v = ground (
  arith,
  length-held_upward r.m_data r.m_rdptr r.m_wrptr,
  length-held_wrapped r.m_data r.m_rdptr r.m_wrptr,
)
