-- ===== src/Socket/Tests.antt =====
-- A system with one stream on concrete inputs, and the theorems at concrete inputs.
use libcppio.Prelude.{
  ℕ, suc, ◌+◌, ◌*◌, ◌≡◌, ◌<◌, ◌≤◌, ◌≢◌, refl, ap, true, Option, none, some, List, [], ◌∷◌, ◌++◌,
  length, take, inr, arith,
}
use libcppio.Prelude.Int.{pos, negate}
use libcppio.Socket.{
  Os, other_error, c_string, find_colon, server_name, host_port, timeval, unix_line, tcp_line,
}
use libcppio.Socket.Lines.{StreamIn, StreamOut}
use libcppio.Socket.Messages.{tcp_receive-send, unix_receive-send}
use libcppio.Memory.{bytes_of_u32, to_u32}
use libcppio.Message.{Message, empty_message}
use libcppio.Message.Wire.{encode, frame_bytes}
use libcppio.Message.RoundTrip.{Fits}
use libcppio.Protocol.{receive, send, returned}
use libcppio.Socket.Names.{server_name_lem, host_port-joined, timeval_lem}

-- Bytes to come and bytes gone, one at a time.
pub record Pipe : Type 0 where
  pub coming : List ℕ
  pub gone : List ℕ

abbrev pipe_read : List ℕ → Pipe → Option (List ℕ) × Pipe
pipe_read [] k = (some [], k)
pipe_read (b ∷ bs) k = (some (b ∷ []), record k { coming = bs })

abbrev pipe_write : List ℕ → Pipe → Option ℕ × Pipe
pipe_write [] k = (none, k)
pipe_write (b ∷ bs) k = (some 1, record k { gone = k.gone ++ (b ∷ []) })

abbrev pipe_os : Os
pipe_os = record {
  Kernel = Pipe;
  errno = λ k. other_error;
  socket = λ d k. (some 3, k);
  connect = λ fd name k. (true, k);
  bind = λ fd name k. (true, k);
  listen = λ fd backlog k. (true, k);
  accept = λ fd k. (none, k);
  read = λ fd n k. pipe_read k.coming k;
  write = λ fd bs k. pipe_write bs k;
  set_timeout = λ fd option limit k. k;
  reuse_address = λ fd k. (true, k);
  close = λ fd k. k;
  unlink = λ name k. k;
  inet_addr = λ host. 0;
  port_of = λ port. 0;
}

come :
    (c : List ℕ) (k : Pipe) (n : ℕ)
    → 0 < n
    → c ≢ []
    → (b : ℕ) × (bs : List ℕ) × (k' : Pipe) × (pipe_read c k ≡ (some (b ∷ bs), k'))
      × (length (b ∷ bs) ≤ n)
      × (length (b ∷ bs) ≤ 2_147_479_552)
      × (c ≡ (b ∷ bs) ++ k'.coming)
come [] k n h ne = absurd (ne refl)
come (b ∷ c) k n h ne = (b, [], record k { coming = c }, refl, omega arith, omega arith, refl)

go :
    (k : Pipe) (bs : List ℕ)
    → bs ≢ []
    → (n : ℕ) × (k' : Pipe) × (pipe_write bs k ≡ (some (suc n), k'))
      × (suc n ≤ length bs)
      × (k'.gone ≡ k.gone ++ take (suc n) bs)
go k [] ne = absurd (ne refl)
go k (b ∷ bs) ne = (0, record k { gone = k.gone ++ (b ∷ []) }, refl, omega arith, refl)

abbrev pipe_in : StreamIn pipe_os 3
pipe_in = record {
  pending = λ k. k.coming;
  some_come = λ k n. come k.coming k n;
  none_come = λ k n h e. (some [], k, ap (λ c. pipe_read c k) e, inr refl);
}

abbrev pipe_out : StreamOut pipe_os 3
pipe_out = record { sent = λ k. k.gone; some_go = go }

abbrev short_name : List ℕ
short_name = b'a' ∷ b'b' ∷ []

server_name_lem_example :
    (length short_name < 14 → server_name short_name ≡ some short_name)
    × (14 ≤ length short_name → server_name short_name ≡ none)
unfolding c_string
server_name_lem_example = server_name_lem short_name refl

host_port-joined_example :
    host_port (b'h' ∷ b':' ∷ b'8' ∷ b'0' ∷ []) ≡ (b'h' ∷ [], b'8' ∷ b'0' ∷ [])
unfolding find_colon
host_port-joined_example = host_port-joined (b'h' ∷ []) (b'8' ∷ b'0' ∷ []) refl

timeval_lem_example :
    (secs : ℕ) × (usecs : ℕ) × (timeval (pos 1_500)
      ≡ record { tv_sec = pos secs; tv_usec = pos usecs })
    × (timeval (negate 1_500) ≡ record { tv_sec = negate secs; tv_usec = negate usecs })
    × (secs * 1_000_000 + usecs ≡ 1_500 * 1_000)
    × (usecs < 1_000_000)
timeval_lem_example = timeval_lem 1_500

-- One frame of one byte.
abbrev short_message : Message
short_message = record { m_frames = record { m_data = 7 ∷ [] } ∷ [] }

short_message-Fits : Fits short_message
short_message-Fits = record {
  few = omega arith;
  frames = (record { short = omega arith; bytes = omega arith }, tt);
}

-- The message is to come, and two bytes behind it.
abbrev message_coming : Pipe
message_coming = record { coming = 1 ∷ 0 ∷ 0 ∷ 0 ∷ 1 ∷ 0 ∷ 0 ∷ 0 ∷ 7 ∷ 8 ∷ 9 ∷ []; gone = 5 ∷ [] }

tcp_receive-send_example :
    (k' : Pipe) × (k'' : Pipe) × (receive (tcp_line pipe_os 3) message_coming empty_message
      ≡ returned (pos 1) (k', short_message))
    × (k'.coming ≡ 8 ∷ 9 ∷ [])
    × (send (tcp_line pipe_os 3) (length (encode short_message)) k' short_message
        ≡ returned (pos 1) k'')
    × (k''.gone ≡ k'.gone ++ encode short_message)
unfolding encode frame_bytes bytes_of_u32 to_u32
tcp_receive-send_example =
    tcp_receive-send pipe_os 3 pipe_in pipe_out message_coming short_message short_message
      (8 ∷ 9 ∷ []) short_message-Fits refl (omega arith)

unix_receive-send_example :
    (k' : Pipe) × (k'' : Pipe) × (receive (unix_line pipe_os 3) message_coming empty_message
      ≡ returned (pos 1) (k', short_message))
    × (k'.coming ≡ 8 ∷ 9 ∷ [])
    × (send (unix_line pipe_os 3) (length (encode short_message)) k' short_message
        ≡ returned (pos 1) k'')
    × (k''.gone ≡ k'.gone ++ encode short_message)
unfolding encode frame_bytes bytes_of_u32 to_u32
unix_receive-send_example =
    unix_receive-send pipe_os 3 pipe_in pipe_out message_coming short_message short_message
      (8 ∷ 9 ∷ []) short_message-Fits refl (omega arith)
