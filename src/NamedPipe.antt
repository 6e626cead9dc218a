-- ===== src/NamedPipe.antt =====
-- src/win32/pipes.cpp: the local lines of the Windows build, over named pipes. A client opens the
-- acceptor's pipe, reads there the name of a pipe that was made for it, and opens that one. The calls
-- of Windows are a parameter, `WinPipes`; a HANDLE is a number.
pub mod Decimal
pub mod Names
pub mod Paths
pub mod Broken
pub mod Meeting
mod Tests
use libcppio.Prelude.{
  ℕ, zero, suc, ◌+◌, ◌-◌, ◌/◌, ◌%◌, ◌^◌, Bool, true, false, List, [], ◌∷◌, ◌++◌, length, take, ltb,
  ◌==◌, if◌then◌else◌,
}
use libcppio.Prelude.Int.{ℤ, pos, negsuc, narrow}
use libcppio.Line.{Received, received, Accepted, accepted, LineOption, IoLine}
use libcppio.Manager.{Created, object, null, io_exception}
use libcppio.Socket.{c_string}
use libcppio.Socket.Open.{local_supports_scheme}

-- The values of `GetLastError` that the code tells apart.
pub data PipeError : Type 0 where
  no_error pipe_connected io_pending other_error : PipeError

-- PIPE_TYPE_MESSAGE with PIPE_READMODE_MESSAGE, and PIPE_TYPE_BYTE.
pub data PipeMode : Type 0 where
  message_mode byte_mode : PipeMode

-- The calls of Windows. A BOOL is a Boolean, as is the test for WAIT_OBJECT_0; `read_file` gives the
-- bytes that it has counted also where it fails.
pub record WinPipes : Type 1 where
  pub Kernel : Type 0
  pub last_error : Kernel → PipeError
  pub create_file : List ℕ → Kernel → ℕ × Kernel
  pub set_message_mode : ℕ → Kernel → Bool × Kernel
  pub read_file : ℕ → ℕ → Kernel → (Bool × List ℕ) × Kernel
  pub write_file : ℕ → List ℕ → Kernel → (Bool × ℕ) × Kernel
  pub close_handle : ℕ → Kernel → Kernel
  pub create_named_pipe : List ℕ → PipeMode → ℕ → Kernel → ℕ × Kernel
  pub create_event : Kernel → ℕ × Kernel
  pub connect_named_pipe : ℕ → ℕ → Kernel → Bool × Kernel
  pub wait_for : ℕ → ℕ → Kernel → Bool × Kernel
  pub overlapped_result : ℕ → ℕ → Kernel → Bool × Kernel
  pub cancel_io : ℕ → Kernel → Kernel
  pub flush_file_buffers : ℕ → Kernel → Kernel
  pub disconnect_named_pipe : ℕ → Kernel → Kernel

-- INVALID_HANDLE_VALUE
abbrev pub invalid_handle : ℕ
invalid_handle = 18_446_744_073_709_551_615

-- `pipePrefix`, and the C string of a name behind it.
abbrev pub pipe_prefix : List ℕ
pipe_prefix = b'\\' ∷ b'\\' ∷ b'.' ∷ b'\\' ∷ b'p' ∷ b'i' ∷ b'p' ∷ b'e' ∷ b'\\' ∷ []

unfoldable pub pipe_path : List ℕ → List ℕ
unfolding c_string
pipe_path name = c_string (pipe_prefix ++ name)

-- `to_string` of an `int`: the digits of a number, on fuel above it.
unfoldable pub decimal : ℕ → ℕ → List ℕ
decimal zero n = []
decimal (suc fuel) n =
    let digits = decimal fuel (n / 10) in
    if ltb n 10 then (b'0' + n) ∷ [] else digits ++ ((b'0' + n % 10) ∷ [])

unfoldable pub to_string : ℤ → List ℕ
unfolding decimal
to_string (pos n) = decimal (suc n) n
to_string (negsuc n) = b'-' ∷ decimal (suc (suc n)) (suc n)

pub record NamedPipeLine : Type 0 where
  pub m_address : List ℕ
  pub m_pipe : ℕ

-- `m_counter` is the 32-bit word behind the `atomic_int`.
pub record NamedPipeAcceptor : Type 0 where
  pub m_address : List ℕ
  pub m_pipe : ℕ
  pub m_waiting_pipe : ℕ
  pub m_counter : ℕ

-- `newPipeAddress`
unfoldable pub new_pipe_address : NamedPipeAcceptor → List ℕ
unfolding to_string
new_pipe_address a = a.m_address ++ to_string (narrow a.m_counter)

-- `NamedPipeLineFactory::supportsScheme`
unfoldable pub pipe_supports_scheme : List ℕ → Bool
unfolding local_supports_scheme
pipe_supports_scheme scheme = local_supports_scheme scheme

-- `int` to DWORD
unfoldable pub msec_word : ℤ → ℕ
msec_word (pos n) = n
msec_word (negsuc n) = 2 ^ 32 - 1 - n

module _ (w : WinPipes) where
  -- `NamedPipeLine::NamedPipeLine(const std::string&)`, from the second `CreateFile` on.
  unfoldable pub open_own_pipe : List ℕ → w.Kernel → Created NamedPipeLine × w.Kernel
  unfolding pipe_path
  open_own_pipe [] k = (io_exception, k)
  open_own_pipe (c ∷ cs) k =
      let (pipe, k') = w.create_file (pipe_path (c ∷ cs)) k in
      if pipe == invalid_handle
      then (io_exception, k')
      else (object (record { m_address = c ∷ cs; m_pipe = pipe }), k')

  -- From the `ReadFile` of the new name on.
  unfoldable pub read_own_name : ℕ → w.Kernel → Created NamedPipeLine × w.Kernel
  unfolding open_own_pipe
  read_own_name server_pipe k =
      let (done, k') = w.read_file server_pipe 1_024 k in
      open_own_pipe done.1 (w.close_handle server_pipe k')

  -- `SetNamedPipeHandleState`: a failure counts if there is an error code.
  unfoldable pub set_mode : ℕ → w.Kernel → Created NamedPipeLine × w.Kernel
  unfolding read_own_name
  set_mode server_pipe k =
      let (set, k') = w.set_message_mode server_pipe k in
      elim set [
        | true ↦ read_own_name server_pipe k'
        | false ↦ elim (w.last_error k') [
          | no_error ↦ read_own_name server_pipe k'
          | pipe_connected ↦ (io_exception, k')
          | io_pending ↦ (io_exception, k')
          | other_error ↦ (io_exception, k')
        ]
      ]

  -- `NamedPipeLine::NamedPipeLine(const std::string&)`, which `createClient` calls.
  unfoldable pub create_pipe_client : List ℕ → w.Kernel → Created NamedPipeLine × w.Kernel
  unfolding set_mode pipe_path
  create_pipe_client address k =
      let (server_pipe, k') = w.create_file (pipe_path address) k in
      if server_pipe == invalid_handle then (io_exception, k') else set_mode server_pipe k'

  -- `NamedPipeLine::read` and `NamedPipeLine::write`: a failure is the result 0.
  unfoldable pub pipe_read : ℕ → w.Kernel → ℕ → Received × w.Kernel
  pipe_read pipe k buflen =
      let (done, k') = w.read_file pipe (buflen % 2 ^ 32) k in
      (received (if done.0 then done.1 else []), k')

  unfoldable pub pipe_write : ℕ → w.Kernel → List ℕ → Accepted × w.Kernel
  pipe_write pipe k buffer =
      let (done, k') = w.write_file pipe (take (length buffer % 2 ^ 32) buffer) k in
      (accepted (if done.0 then done.1 else 0), k')

  -- `NamedPipeLine::setOption` does nothing.
  unfoldable pub pipe_set_option : NamedPipeLine → LineOption → ℤ → NamedPipeLine
  pipe_set_option line option value = line

  -- The class behind the interface `IoLine`.
  abbrev pub pipe_line : ℕ → IoLine
  pipe_line pipe = record { State = w.Kernel; read = pipe_read pipe; write = pipe_write pipe }

  -- `NamedPipeAcceptor::NamedPipeAcceptor`, which `createServer` calls. It leaves the last two members
  -- as they stand in memory.
  unfoldable pub create_pipe_server :
      List ℕ → ℕ → ℕ → w.Kernel → Created NamedPipeAcceptor × w.Kernel
  unfolding pipe_path
  create_pipe_server address waiting counter k =
      let (pipe, k') = w.create_named_pipe (pipe_path address) message_mode 8_192 k in
      if pipe == invalid_handle then (io_exception, k') else (
        object (record {
          m_address = address;
          m_pipe = pipe;
          m_waiting_pipe = waiting;
          m_counter = counter;
        }),
        k',
      )

  -- `NamedPipeAcceptor::~NamedPipeAcceptor`
  unfoldable pub destroy_pipe_acceptor : NamedPipeAcceptor → w.Kernel → w.Kernel
  destroy_pipe_acceptor a k = w.close_handle a.m_pipe k

  -- In `connectPipe`: what happens when `ConnectNamedPipe` has returned 0.
  unfoldable pub connect_pending : ℕ → ℕ → ℤ → w.Kernel → Bool × w.Kernel
  unfolding msec_word
  connect_pending pipe event msec k = elim (w.last_error k) [
    | pipe_connected ↦ (true, k)
    | io_pending ↦
        let (signalled, k') = w.wait_for event (msec_word msec) k in
        elim signalled [
          | true ↦ w.overlapped_result pipe event k'
          | false ↦ (false, w.cancel_io pipe k')
        ]
    | no_error ↦ (false, k)
    | other_error ↦ (false, k)
  ]

  -- `connectPipe`
  unfoldable pub connect_pipe : ℕ → ℤ → w.Kernel → Bool × w.Kernel
  unfolding connect_pending
  connect_pipe pipe msec k =
      let (event, k1) = w.create_event k in
      let (at_once, k2) = w.connect_named_pipe pipe event k1 in
      let (ret, k3) = elim at_once as (λ _. Bool × w.Kernel) [
        | true ↦ (true, k2)
        | false ↦ connect_pending pipe event msec k2
      ] in
      (ret, w.close_handle event k3)

  -- `waitConnection`, when the client has opened the new pipe or not.
  unfoldable pub give_line :
      NamedPipeAcceptor → List ℕ → ℤ → w.Kernel → Created NamedPipeLine × w.Kernel
  unfolding connect_pipe
  give_line a name timeout k =
      let (ret, k') = connect_pipe a.m_waiting_pipe timeout k in
      elim ret [
        | true ↦ (object (record { m_address = name; m_pipe = a.m_waiting_pipe }), k')
        | false ↦ (null, w.close_handle a.m_waiting_pipe k')
      ]

  -- `waitConnection`, when a client has opened the acceptor's pipe or not.
  unfoldable pub give_name :
      NamedPipeAcceptor → List ℕ → ℤ → w.Kernel → Created NamedPipeLine × w.Kernel
  unfolding connect_pipe give_line
  give_name a name timeout k =
      let (ret, k') = connect_pipe a.m_pipe timeout k in
      elim ret [
        | true ↦
            let (_, k'') = w.write_file a.m_pipe name k' in
            give_line a name timeout
              (w.disconnect_named_pipe a.m_pipe (w.flush_file_buffers a.m_pipe k''))
        | false ↦ (null, w.close_handle a.m_waiting_pipe k')
      ]

  -- `NamedPipeAcceptor::waitConnection`: its result, and the acceptor afterwards.
  unfoldable pub pipe_wait_connection :
      NamedPipeAcceptor → ℤ → w.Kernel → (Created NamedPipeLine × NamedPipeAcceptor) × w.Kernel
  unfolding give_name new_pipe_address pipe_path
  pipe_wait_connection a timeout k =
      let name = new_pipe_address a in
      let (pipe, k1) = w.create_named_pipe (pipe_path name) byte_mode 65_536 k in
      let a' = record a { m_waiting_pipe = pipe; m_counter = (a.m_counter + 1) % 2 ^ 32 } in
      let (result, k2) = give_name a' name timeout k1 in ((result, a'), k2)
