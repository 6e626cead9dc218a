-- ===== src/Inproc/Turns.antt =====
-- The hub of src/common/inproc.cpp over time: calls of its methods, by any thread, in any order.
use libcppio.Prelude.{ℕ, ◌≡◌, Option, none, some, List, [], get_elem?}
use libcppio.Prelude.Int.{ℤ}
use libcppio.DataQueue.{DataQueue}
use libcppio.Inproc.{
  InprocAcceptor, Hub, begin_client, wait_connection, create_server, destroy_acceptor,
  destroy_factory, destroy_line,
}
use libcppio.Inproc.Store.{replace_at}

-- A client is made, an acceptor takes a turn of its loop with so much time left, a server is made, an
-- acceptor, a line or the factory is destroyed, or a line's method changes a queue.
pub data Turn : Type 0 where
  client : List ℕ → Turn
  accept : List ℕ → ℤ → Turn
  serve : List ℕ → Turn
  stop : InprocAcceptor → Turn
  close : ℕ → Turn
  clear : Turn
  traffic : ℕ → DataQueue → Turn

-- `delete` of a line; `none` where there is none, or it follows a null pointer.
unfoldable pub close_line : Hub → ℕ → Option Hub
unfolding destroy_line
close_line h i = elim (get_elem? h.lines i) [
  | none ↦ none
  | some line ↦ elim (destroy_line h.queues line) [
    | none ↦ none
    | some queues ↦ some (record h { queues = queues })
  ]
]

unfoldable pub run : Hub → Turn → Option Hub
unfolding begin_client wait_connection create_server destroy_acceptor destroy_factory close_line
    replace_at
run h (client address) = some (begin_client h address).0
run h (accept address left) = some (wait_connection h address left).1
run h (serve address) = some (create_server h address).1
run h (stop a) = some (destroy_acceptor h a)
run h (close i) = close_line h i
run h clear = some (destroy_factory h)
run h (traffic i q) = some (record h { queues = replace_at i q h.queues })

abbrev pub empty_hub : Hub
empty_hub = record {
  acceptors = [];
  connect_queue = [];
  lines = [];
  queues = [];
  next_acceptor = 0;
}

pub data Reach : Hub → Type 0 where
  start : Reach empty_hub
  later : {h h' : Hub} (turn : Turn) → Reach h → run h turn ≡ some h' → Reach h'
