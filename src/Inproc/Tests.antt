-- ===== src/Inproc/Tests.antt =====
-- Two clients and an acceptor on concrete inputs, and the theorems at concrete inputs.
use libcppio.Prelude.{ℕ, ◌≡◌, refl, true, some, List, [], ◌∷◌, get_elem?, arith}
use libcppio.Prelude.Int.{pos, negsuc}
use libcppio.DataQueue.{
  entering, expired, waits, read_with_timeout_step, DataQueue, notified, returns, read_step,
}
use libcppio.Line.{connection_lost, read_failed}
use libcppio.DataQueue.Steps.{QueueIsValid, bytes_of}
use libcppio.Ring.Queue.{contents}
use libcppio.Inproc.{
  fresh_queue, InprocLine, Hub, new_line, wait_connection, connected, sleeps, begin_client,
  destroy_line,
}
use libcppio.Memory.{bytes_of_u32, to_u32}
use libcppio.Message.{Message}
use libcppio.Message.Wire.{encode, frame_bytes}
use libcppio.Message.RoundTrip.{Fits}
use libcppio.Inproc.Alone.{GoodQueue}
use libcppio.Inproc.Messages.{Sends, Receives, exchange}
use libcppio.Inproc.Connect.{Joined, wait_connection-first}
use libcppio.Inproc.Disconnect.{off, destroy_line-reader}
use libcppio.Inproc.Turns.{run, client, accept, Reach, start, later}
use libcppio.Inproc.Invariant.{IsSound}
use libcppio.Inproc.Sound.{Hub-IsSound}
use libcppio.Inproc.Store.{address_equal}

abbrev no_lines : Hub
no_lines = record { acceptors = []; connect_queue = []; lines = []; queues = []; next_acceptor = 0 }

-- A client for "b" waits before one for "a".
abbrev two_clients : Hub
two_clients = record no_lines {
  connect_queue = 0 ∷ 1 ∷ [];
  lines = new_line (b'b' ∷ []) ∷ new_line (b'a' ∷ []) ∷ [];
}

two_clients-begun : (begin_client (begin_client no_lines (b'b' ∷ [])).0 (b'a' ∷ [])).0 ≡ two_clients
unfolding begin_client
two_clients-begun = refl

wait_connection-none : wait_connection two_clients (b'c' ∷ []) (pos 5) ≡ (sleeps, two_clients)
unfolding wait_connection new_line address_equal
wait_connection-none = refl

wait_connection-first_example :
    (s : ℕ) × (h' : Hub) × (wait_connection two_clients (b'a' ∷ []) (negsuc 0) ≡ (connected s, h'))
    × Joined h' 1 s
    × (h'.connect_queue ≡ 0 ∷ [])
unfolding new_line address_equal
wait_connection-first_example =
    wait_connection-first two_clients (0 ∷ []) [] 1 (new_line (b'a' ∷ [])) (negsuc 0) refl
      ((new_line (b'b' ∷ []), refl, refl), tt) refl

abbrev small_queue : DataQueue
small_queue = record {
  m_buffer = record { m_data = 0 ∷ 0 ∷ 0 ∷ []; m_wrptr = 1; m_rdptr = 1 };
  m_connected = true;
}

abbrev ended_line : InprocLine
ended_line = record { m_address = b'a' ∷ []; m_in = some 0; m_out = some 1; m_read_timeout = pos 0 }

small_queue-IsValid : QueueIsValid small_queue
small_queue-IsValid = omega arith

small_queue-empty : bytes_of small_queue ≡ []
unfolding contents
small_queue-empty = refl

destroy_line-reader_example :
    (queues' : List DataQueue) × (destroy_line (small_queue ∷ small_queue ∷ []) ended_line
      ≡ some queues')
    × (get_elem? queues' 0 ≡ some (off small_queue))
    × (get_elem? queues' 1 ≡ some (off small_queue))
    × (read_step notified (off small_queue) 4
        ≡ returns (read_failed connection_lost) (off small_queue))
    × (read_with_timeout_step entering (off small_queue) 4
        ≡ returns (read_failed connection_lost) (off small_queue))
    × (read_with_timeout_step expired (off small_queue) 4
        ≡ returns (read_failed connection_lost) (off small_queue))
    × (read_with_timeout_step notified (off small_queue) 4 ≡ waits (off small_queue))
destroy_line-reader_example =
    destroy_line-reader (small_queue ∷ small_queue ∷ []) ended_line 0 1 small_queue small_queue
      notified 4 refl refl (λ e. absurd (omega arith)) refl refl small_queue-IsValid (omega arith)
      small_queue-empty

-- One client, before and after a connection.
abbrev one_client : Hub
one_client = record no_lines { connect_queue = 0 ∷ []; lines = new_line (b'a' ∷ []) ∷ [] }

abbrev one_connection : Hub
one_connection = record no_lines {
  lines =
      record { m_address = b'a' ∷ []; m_in = some 1; m_out = some 0; m_read_timeout = pos 0 }
      ∷ record { m_address = b'a' ∷ []; m_in = some 0; m_out = some 1; m_read_timeout = pos 0 }
      ∷ [];
  queues = fresh_queue ∷ fresh_queue ∷ [];
}

Reach-client : Reach one_client
unfolding run
Reach-client = later {h = no_lines} (client (b'a' ∷ [])) start refl

Reach-connection : Reach one_connection
unfolding run new_line address_equal
Reach-connection = later {h = one_client} (accept (b'a' ∷ []) (pos 9)) Reach-client refl

Hub-IsSound_example : IsSound one_connection
Hub-IsSound_example = Hub-IsSound Reach-connection

abbrev hello : Message
hello = record { m_frames = record { m_data = 7 ∷ 8 ∷ [] } ∷ [] }

hello-Fits : Fits hello
hello-Fits = record {
  few = omega arith;
  frames = (record { short = omega arith; bytes = omega arith }, tt);
}

-- A line with a time limit, and a queue of 32 bytes that holds a message, round the end.
abbrev timed_line : InprocLine
timed_line = record (new_line (b'a' ∷ [])) { m_read_timeout = pos 100 }

abbrev one_held : GoodQueue
one_held = record {
  queue = record {
    m_buffer = record {
      m_data =
          0 ∷ 0 ∷ 7 ∷ 8 ∷ 0 ∷ 0 ∷ 0 ∷ 0 ∷ 0 ∷ 0 ∷ 0 ∷ 0 ∷ 0 ∷ 0 ∷ 0 ∷ 0 ∷ 0 ∷ 0 ∷ 0 ∷ 0 ∷ 0 ∷ 0 ∷ 0
          ∷ 0 ∷ 0 ∷ 0 ∷ 1 ∷ 0 ∷ 0 ∷ 0 ∷ 2 ∷ 0 ∷ [];
      m_rdptr = 26;
      m_wrptr = 4;
    };
    m_connected = true;
  };
  valid = omega arith;
  small = omega arith;
}

exchange_example :
    (g' : GoodQueue) × (g'' : GoodQueue) × Sends timed_line 99 refl (hello ∷ hello ∷ []) one_held g'
    × Receives timed_line 99 refl (hello ∷ hello ∷ hello ∷ []) g' g''
    × (bytes_of g''.queue ≡ [])
unfolding encode frame_bytes bytes_of_u32 to_u32 contents new_line
exchange_example =
    exchange timed_line 99 refl one_held (hello ∷ []) (hello ∷ hello ∷ []) (hello-Fits, tt)
      (hello-Fits, (hello-Fits, tt)) refl (omega arith)
