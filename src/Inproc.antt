-- ===== src/Inproc.antt =====
-- The lines, acceptors and factory of src/common/inproc.cpp. Objects live in a store and a pointer is
-- an index into it: the static lists, the lines and the queues are one state, the hub. A method runs
-- under the mutex `gs_mutex`, or touches one line only, so it is one step on the hub.
pub mod Store
pub mod Connect
pub mod Alone
pub mod Delivery
pub mod Messages
pub mod Disconnect
pub mod Turns
pub mod Wiring
pub mod Servers
pub mod Waiting
pub mod Invariant
pub mod Connections
pub mod Sound
mod Tests
use libcppio.Prelude.{
  ℕ, zero, suc, ◌+◌, ◌-◌, Bool, true, false, ◌&&◌, Option, none, some, List, [], ◌∷◌, ◌++◌, length,
  get_elem?, ◌==◌, if◌then◌else◌,
}
use libcppio.Prelude.Int.{ℤ, pos, negsuc, narrow}
use libcppio.Line.{Received, Accepted, LineOption, receive_timeout, send_timeout}
use libcppio.DataQueue.{
  DataQueue, make_queue, Phase, Step, read_step, read_with_timeout_step, write_step,
  set_connection_flag,
}
use libcppio.Inproc.Store.{replace_at, address_equal}

-- `InprocLine`; the two queues are null until the line is connected.
pub record InprocLine : Type 0 where
  pub m_address : List ℕ
  pub m_in : Option ℕ
  pub m_out : Option ℕ
  pub m_read_timeout : ℤ

-- `InprocAcceptor`, with the number that stands for its `this`.
pub record InprocAcceptor : Type 0 where
  pub this : ℕ
  pub m_address : List ℕ

-- `gs_acceptors` and `gs_connectQueue`, the lines and the queues.
pub record Hub : Type 0 where
  pub acceptors : List InprocAcceptor
  pub connect_queue : List ℕ
  pub lines : List InprocLine
  pub queues : List DataQueue
  pub next_acceptor : ℕ

-- `scheme == "inproc"`
unfoldable pub supports_scheme : List ℕ → Bool
supports_scheme scheme = address_equal scheme (b'i' ∷ b'n' ∷ b'p' ∷ b'r' ∷ b'o' ∷ b'c' ∷ [])

-- `InprocLine::InprocLine(const std::string&)`
unfoldable pub new_line : List ℕ → InprocLine
new_line address = record { m_address = address; m_in = none; m_out = none; m_read_timeout = pos 0 }

-- `InprocLineFactory::createClient` before it waits: the hub, and the line.
unfoldable pub begin_client : Hub → List ℕ → Hub × ℕ
unfolding new_line
begin_client h address = (
  record h {
    lines = h.lines ++ (new_line address ∷ []);
    connect_queue = h.connect_queue ++ (length h.lines ∷ []);
  },
  length h.lines,
)

-- `InprocLine::waitForConnection`: whether it returns.
unfoldable pub is_connected : InprocLine → Bool
is_connected line = elim line.m_in [
  | none ↦ false
  | some _ ↦ elim line.m_out [ none ↦ false | some _ ↦ true ]
]

-- The queue that both ends of a new connection share, in one direction.
abbrev pub fresh_queue : DataQueue
fresh_queue = (set_connection_flag (make_queue 65_536) true).0

-- `InprocLine::InprocLine(InprocLine*)`: the hub, and the new line.
unfoldable pub accept_line : Hub → ℕ → InprocLine → Hub × ℕ
unfolding make_queue set_connection_flag replace_at
accept_line h i other =
    let m_in = length h.queues in
    let m_out = length h.queues + 1 in
    (
      record h {
        queues = h.queues ++ (fresh_queue ∷ fresh_queue ∷ []);
        lines =
            replace_at i (record other { m_out = some m_in; m_in = some m_out }) h.lines
            ++ (record {
              m_address = other.m_address;
              m_in = some m_in;
              m_out = some m_out;
              m_read_timeout = pos 0;
            }
                ∷ []);
      },
      length h.lines,
    )

-- The scan of `gs_connectQueue`: the first line with the address, and the queue without it. A
-- pointer to no line is not followed.
unfoldable pub scan : List InprocLine → List ℕ → List ℕ → Option (ℕ × InprocLine × List ℕ)
scan lines address [] = none
scan lines address (i ∷ is) =
    let later : Option (ℕ × InprocLine × List ℕ) = elim (scan lines address is) [
      | none ↦ none
      | some (j, line, rest) ↦ some (j, line, i ∷ rest)
    ] in
    elim (get_elem? lines i) [
      | none ↦ none
      | some line ↦ if address_equal line.m_address address then some (i, line, is) else later
    ]

-- What a turn of the loop of `waitConnection` ends in.
pub data Turn : Type 0 where
  connected : ℕ → Turn
  times_out : Turn
  sleeps : Turn

-- One turn of `InprocAcceptor::waitConnection`, with the milliseconds that are left.
unfoldable pub wait_connection : Hub → List ℕ → ℤ → Turn × Hub
unfolding scan accept_line
wait_connection h address left = elim (scan h.lines address h.connect_queue) [
  | some (i, line, rest) ↦
      let (h', s) = accept_line (record h { connect_queue = rest }) i line in (connected s, h')
  | none ↦ elim left [ pos _ ↦ (sleeps, h) | negsuc _ ↦ (times_out, h) ]
]

-- The loop of `createServer`: whether an acceptor has the address.
unfoldable pub is_taken : List InprocAcceptor → List ℕ → Bool
is_taken [] address = false
is_taken (a ∷ acceptors) address =
    let rest = is_taken acceptors address in
    if address_equal a.m_address address then true else rest

-- `InprocLineFactory::createServer`, null if the address is taken.
unfoldable pub create_server : Hub → List ℕ → Option InprocAcceptor × Hub
unfolding is_taken
create_server h address =
    let acceptor : InprocAcceptor = record { this = h.next_acceptor; m_address = address } in
    if is_taken h.acceptors address then (none, h) else (
      some acceptor,
      record h { acceptors = h.acceptors ++ (acceptor ∷ []); next_acceptor = h.next_acceptor + 1 },
    )

-- The loop of `~InprocAcceptor`: the first entry for the object goes.
unfoldable pub erase_acceptor : ℕ → List InprocAcceptor → List InprocAcceptor
erase_acceptor this [] = []
erase_acceptor this (a ∷ acceptors) =
    let rest = erase_acceptor this acceptors in if a.this == this then acceptors else a ∷ rest

-- `InprocAcceptor::~InprocAcceptor`
unfoldable pub destroy_acceptor : Hub → InprocAcceptor → Hub
unfolding erase_acceptor
destroy_acceptor h a = record h { acceptors = erase_acceptor a.this h.acceptors }

-- `InprocLineFactory::~InprocLineFactory`
unfoldable pub destroy_factory : Hub → Hub
destroy_factory h = record h { connect_queue = []; acceptors = [] }

-- `setConnectionFlag(false)` through a pointer, which must not be null.
unfoldable pub disconnect_queue : Option ℕ → List DataQueue → Option (List DataQueue)
unfolding set_connection_flag replace_at
disconnect_queue none queues = none
disconnect_queue (some i) queues = elim (get_elem? queues i) [
  | none ↦ none
  | some q ↦ some (replace_at i (set_connection_flag q false).0 queues)
]

-- `InprocLine::~InprocLine`; `none` where it follows a null pointer.
unfoldable pub destroy_line : List DataQueue → InprocLine → Option (List DataQueue)
unfolding disconnect_queue
destroy_line queues line = elim (disconnect_queue line.m_out queues) [
  | none ↦ none
  | some queues' ↦ disconnect_queue line.m_in queues'
]

-- `InprocLine::read`, at the queue `m_in`.
unfoldable pub line_read : Phase → InprocLine → DataQueue → ℕ → Step Received
unfolding read_step read_with_timeout_step
line_read phase line q buflen = elim line.m_read_timeout [
  | pos zero ↦ read_step phase q buflen
  | pos (suc _) ↦ read_with_timeout_step phase q buflen
  | negsuc _ ↦ read_step phase q buflen
]

-- `InprocLine::write`, at the queue `m_out`.
unfoldable pub line_write : Phase → DataQueue → List ℕ → Step Accepted
unfolding write_step
line_write phase q buffer = write_step phase q buffer

-- `InprocLine::setOption`, with the `uint32_t` that `data` points to; `none` is `UnsupportedOption`.
unfoldable pub set_option : InprocLine → LineOption → ℕ → Option InprocLine
set_option line receive_timeout data_word = some (record line { m_read_timeout = narrow data_word })
set_option line send_timeout data_word = none
