-- ===== src/Inproc/Invariant.antt =====
-- What holds of the hub of src/common/inproc.cpp in every state.
use libcppio.Prelude.{Option, none, some, length, All}
use libcppio.Inproc.{Hub}
use libcppio.Inproc.Servers.{Separate}
use libcppio.Inproc.Waiting.{Waiting, Distinct}
use libcppio.Inproc.Wiring.{OneEnd}

-- No two acceptors share an address. The lines in the connect queue are there, once each, and have no
-- queues. No two lines read from one queue, and no two write to one.
pub record IsSound (h : Hub) : Type 0 where
  pub separate : Separate h.acceptors
  pub waiting : All (Waiting h.lines) h.connect_queue
  pub once : Distinct h.connect_queue
  pub readers : OneEnd (λ line. line.m_in) (length h.queues) h.lines
  pub writers : OneEnd (λ line. line.m_out) (length h.queues) h.lines

abbrev pub Sound : Option Hub → Type 0
Sound none = Unit
Sound (some h) = IsSound h
