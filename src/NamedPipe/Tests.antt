-- ===== src/NamedPipe/Tests.antt =====
-- Two systems of pipes, and the theorems at concrete inputs.
use libcppio.Prelude.{ℕ, ◌≡◌, ◌≢◌, refl, false, true, List, [], ◌∷◌, arith}
use libcppio.Prelude.Int.{pos}
use libcppio.Memory.{bytes_of_u32}
use libcppio.Message.Wire.{encode, frame_bytes}
use libcppio.Message.{Message, empty_message}
use libcppio.Protocol.{receive, send, returned, out_of_fuel}
use libcppio.NamedPipe.{
  WinPipes, other_error, NamedPipeAcceptor, new_pipe_address, pipe_wait_connection,
  create_pipe_client, pipe_line, to_string, decimal,
}
use libcppio.NamedPipe.Names.{no_call, one_more, new_pipe_address-collide}
use libcppio.Socket.{c_string}
use libcppio.NamedPipe.Paths.{NameRecord, wait_connection-apart}
use libcppio.NamedPipe.Broken.{Broken, pipe_send-receive_broken}
use libcppio.NamedPipe.Meeting.{IfObject, ForPipe, Opened, pipe_ends-meet}

-- Every call succeeds, and what is read is always the same.
abbrev all_well : WinPipes
all_well = record {
  Kernel = ℕ;
  last_error = λ k. other_error;
  create_file = λ name k. (4, k);
  set_message_mode = λ pipe k. (true, k);
  read_file = λ pipe n k. ((true, b'a' ∷ b'2' ∷ b'5' ∷ []), k);
  write_file = λ pipe bs k. ((true, 3), k);
  close_handle = λ h k. k;
  create_named_pipe = λ name mode size k. (7, k);
  create_event = λ k. (9, k);
  connect_named_pipe = λ pipe event k. (true, k);
  wait_for = λ event msec k. (true, k);
  overlapped_result = λ pipe event k. (true, k);
  cancel_io = λ pipe k. k;
  flush_file_buffers = λ pipe k. k;
  disconnect_named_pipe = λ pipe k. k;
}

-- Reading and writing fail.
abbrev all_gone : WinPipes
all_gone = record all_well {
  read_file = λ pipe n k. ((false, []), k);
  write_file = λ pipe bs k. ((false, 0), k);
}

abbrev gone : Broken all_gone 7
gone = record {
  IsBroken = λ k. Unit {0};
  read_fails = λ k n b. refl;
  write_fails = λ k bs b. (refl, tt);
}

abbrev acceptor : NamedPipeAcceptor
acceptor = record { m_address = b'a' ∷ []; m_pipe = 3; m_waiting_pipe = 0; m_counter = 25 }

-- The acceptor of another address.
abbrev longer : NamedPipeAcceptor
longer = record { m_address = b'a' ∷ b'2' ∷ []; m_pipe = 5; m_waiting_pipe = 0; m_counter = 5 }

-- The state is the record of the names.
abbrev recording : WinPipes
recording = record {
  Kernel = List (List ℕ);
  last_error = λ k. other_error;
  create_file = λ name k. (4, k);
  set_message_mode = λ pipe k. (true, k);
  read_file = λ pipe n k. ((true, []), k);
  write_file = λ pipe bs k. ((true, 3), k);
  close_handle = λ h k. k;
  create_named_pipe = λ name mode size k. (7, name ∷ k);
  create_event = λ k. (9, k);
  connect_named_pipe = λ pipe event k. (true, k);
  wait_for = λ event msec k. (true, k);
  overlapped_result = λ pipe event k. (true, k);
  cancel_io = λ pipe k. k;
  flush_file_buffers = λ pipe k. k;
  disconnect_named_pipe = λ pipe k. k;
}

abbrev recorded : NameRecord recording
recorded = record {
  names = λ k. k;
  created = λ name size k. refl;
  event_made = λ k. refl;
  connected = λ pipe event k. refl;
  waited = λ event msec k. refl;
  ended = λ pipe event k. refl;
  cancelled = λ pipe k. refl;
  written = λ pipe bs k. refl;
  flushed = λ pipe k. refl;
  disconnected = λ pipe k. refl;
  closed = λ h k. refl;
}

wait_connection-apart_example :
    (name : List ℕ) × (later_name : List ℕ) × ((pipe_wait_connection recording acceptor
        (pos 10)
        []).1
      ≡ name ∷ [])
    × ((pipe_wait_connection recording
          (pipe_wait_connection recording acceptor (pos 10) []).0.1
          (pos 20)
          ((b'x' ∷ []) ∷ [])).1
        ≡ later_name ∷ (b'x' ∷ []) ∷ [])
    × (name ≢ later_name)
unfolding c_string
wait_connection-apart_example =
    wait_connection-apart recording recorded {a = acceptor} (pos 10) (pos 20) [] ((b'x' ∷ []) ∷ [])
      refl (omega arith) (one_more (pos 10) [] no_call) (omega arith)

new_pipe_address-collide_example : new_pipe_address acceptor ≡ new_pipe_address longer
unfolding to_string decimal
new_pipe_address-collide_example =
    new_pipe_address-collide acceptor longer (omega arith) (omega arith) refl refl

abbrev hello : Message
hello = record { m_frames = record { m_data = 7 ∷ 8 ∷ [] } ∷ [] }

pipe_send-receive_broken_example :
    (send (pipe_line all_gone 7) 100 0 hello ≡ out_of_fuel)
    × ((k' : ℕ) × (receive (pipe_line all_gone 7) 0 empty_message
          ≡ returned (pos 0) (k', empty_message)))
unfolding encode frame_bytes bytes_of_u32
pipe_send-receive_broken_example =
    pipe_send-receive_broken all_gone 7 gone 0 hello 100 tt (omega arith)

pipe_ends-meet_example :
    IfObject
      (ForPipe all_well (new_pipe_address acceptor) 7)
      (pipe_wait_connection all_well acceptor (pos 10) 0).0.0
    × IfObject
        (Opened all_well (new_pipe_address acceptor))
        (create_pipe_client all_well (b'a' ∷ []) 0).0
unfolding new_pipe_address to_string decimal
pipe_ends-meet_example = pipe_ends-meet all_well acceptor (pos 10) 0 (b'a' ∷ []) 0 refl
