-- ===== src/CInterface.antt =====
-- src/cppio_c.cpp: the C functions over the library's objects. A handle is the object behind it; a
-- `char*` is the memory that it points to.
pub mod Results
mod Tests
use libcppio.Prelude.{ℕ, ◌-◌, ◌^◌, ◌==◌, if◌then◌else◌, Option, none, some, List, []}
use libcppio.Prelude.Int.{ℤ, pos, negsuc}
use libcppio.Memory.{Outcome, ok, length_error, out_of_bounds, out_of_fuel, load}
use libcppio.Line.{
  Received, received, read_failed, Accepted, accepted, write_failed, error_value, IoLine,
  LineOption, receive_timeout, send_timeout,
}
use libcppio.Message.{Message, Frame, empty_message, clear, add_frame, size, frame, frame_size}
use libcppio.Protocol
use libcppio.Protocol.{Effect, done, returned, failed, aborted}
use libcppio.Manager
use libcppio.Manager.{Created, IoLineFactory, caught}
use libcppio.Socket.{c_string}

-- `ssize_t` to `size_t`
unfoldable pub to_size : ℤ → ℕ
to_size (pos n) = n
to_size (negsuc n) = 2 ^ 64 - 1 - n

module _ {World Line Acceptor : Type 0} where
  -- `cppio_create_client` and `cppio_create_server`
  unfoldable pub cppio_create_client :
      List (IoLineFactory World Line Acceptor) → List ℕ → World → Created Line × World
  unfolding Manager.create_client c_string
  cppio_create_client manager address w =
      caught (Manager.create_client manager (c_string address) w)

  unfoldable pub cppio_create_server :
      List (IoLineFactory World Line Acceptor) → List ℕ → World → Created Acceptor × World
  unfolding Manager.create_server c_string
  cppio_create_server manager address w =
      caught (Manager.create_server manager (c_string address) w)

-- `cppio_acceptor_wait_connection`, with the acceptor's own `waitConnection`.
unfoldable pub cppio_acceptor_wait_connection :
    {Acceptor Line World : Type 0}
    → (Acceptor → ℤ → World → Created Line × World)
    → Acceptor
    → ℤ
    → World
    → Created Line × World
cppio_acceptor_wait_connection wait_connection acceptor timeout w =
    wait_connection acceptor timeout w

-- `(LineOption)option`; a class of lines has no case for another number.
unfoldable pub line_option : ℕ → Option LineOption
line_option n = if n == 1 then some receive_timeout else if n == 2 then some send_timeout else none

-- `cppio_line_set_option`, with the line's own `setOption`; `none` is the exception UnsupportedOption,
-- which escapes.
unfoldable pub cppio_line_set_option :
    {Line Data : Type 0}
    → (Line → LineOption → Data → Option Line)
    → Line
    → ℕ
    → Data
    → Option (ℕ × Line)
unfolding line_option
cppio_line_set_option set_option line option value = elim (line_option option) [
  | none ↦ none
  | some o ↦ elim (set_option line o value) [ none ↦ none | some line' ↦ some (0, line') ]
]

-- What a method of MessageProtocol returned, as a `size_t`.
unfoldable pub sized : {S A : Type 0} → Effect S A → Effect S ℕ
unfolding to_size
sized (done a s) = failed
sized (returned result s) = done (to_size result) s
sized failed = failed
sized aborted = aborted
sized Effect.out_of_fuel = Effect.out_of_fuel

module _ (line : IoLine) where
  -- `cppio_line_read` and `cppio_line_write`
  unfoldable pub cppio_line_read : line.State → ℕ → Received × line.State
  cppio_line_read s buffer_length = line.read s buffer_length

  unfoldable pub cppio_line_write : line.State → List ℕ → Accepted × line.State
  cppio_line_write s buffer = line.write s buffer

  -- `cppio_messageprotocol_send` and `cppio_messageprotocol_read`
  unfoldable pub cppio_messageprotocol_send : ℕ → line.State → Message → Effect line.State ℕ
  unfolding Protocol.send sized
  cppio_messageprotocol_send fuel s m = sized (Protocol.send line fuel s m)

  unfoldable pub cppio_messageprotocol_read : line.State → Message → Effect (line.State × Message) ℕ
  unfolding Protocol.receive sized
  cppio_messageprotocol_read s m = sized (Protocol.receive line s m)

-- `cppio_create_message` and `cppio_message_clear`
unfoldable pub cppio_create_message : Message
cppio_create_message = empty_message

unfoldable pub cppio_message_clear : Message → Message
unfolding clear
cppio_message_clear m = clear m

-- `cppio_message_add`: a frame of the memory's first bytes.
unfoldable pub cppio_message_add : Message → List ℕ → ℕ → Outcome Message
unfolding load add_frame
cppio_message_add m buffer buffer_length = elim (load buffer 0 buffer_length) [
  | ok bytes ↦ ok (add_frame m (record { m_data = bytes }))
  | length_error ↦ length_error
  | out_of_bounds ↦ out_of_bounds
  | out_of_fuel ↦ out_of_fuel
]

unfoldable pub cppio_message_size : Message → ℕ
cppio_message_size m = size m

-- `cppio_message_get_frame`: the memory that the pointer gives.
unfoldable pub cppio_message_get_frame : Message → ℕ → Outcome (List ℕ)
unfolding frame
cppio_message_get_frame m part_number = elim (frame m part_number) [
  | ok f ↦ ok f.m_data
  | length_error ↦ length_error
  | out_of_bounds ↦ out_of_bounds
  | out_of_fuel ↦ out_of_fuel
]

unfoldable pub cppio_message_get_frame_length : Message → ℕ → Outcome ℕ
unfolding frame
cppio_message_get_frame_length m part_number = elim (frame m part_number) [
  | ok f ↦ ok (frame_size f)
  | length_error ↦ length_error
  | out_of_bounds ↦ out_of_bounds
  | out_of_fuel ↦ out_of_fuel
]
