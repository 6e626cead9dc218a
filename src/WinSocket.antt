-- ===== src/WinSocket.antt =====
-- src/win32/win_socket.cpp: the tcp lines of the Windows build, their acceptors and their factory.
-- Winsock is a parameter, `Winsock`; a `SOCKET` is a number.
pub mod Streams
pub mod Handles
mod Tests
use libcppio.Prelude.{
  ℕ, zero, suc, ◌-◌, ◌^◌, Bool, true, false, Option, none, some, List, [], ◌∷◌, length,
  if◌then◌else◌,
}
use libcppio.Prelude.Int.{ℤ, pos, negsuc, narrow}
use libcppio.Line.{
  timeout, connection_lost, unknown, Received, received, read_failed, Accepted, accepted,
  write_failed, LineOption, IoLine,
}
use libcppio.Manager.{Created, object, null, io_exception}
use libcppio.Socket.{Socket, host_port}
use libcppio.Socket.Open.{tcp_supports_scheme, is_star}

-- The values of `WSAGetLastError` that the code tells apart.
pub data WsaError : Type 0 where
  netreset connaborted connreset timedout other_error : WsaError

-- `sin_addr` and `sin_port`, the latter before `htons`.
pub record SockaddrIn : Type 0 where
  pub sin_addr : ℕ
  pub sin_port : ℕ

-- The calls of Winsock: `none` is SOCKET_ERROR or INVALID_SOCKET, `false` an error. `recv` and `send`
-- are given the length of the buffer as an `int`.
pub record Winsock : Type 1 where
  pub Kernel : Type 0
  pub last_error : Kernel → WsaError
  pub startup : Kernel → Kernel
  pub cleanup : Kernel → Kernel
  pub socket : Kernel → Option ℕ × Kernel
  pub connect : ℕ → SockaddrIn → Kernel → Bool × Kernel
  pub bind : ℕ → SockaddrIn → Kernel → Bool × Kernel
  pub listen : ℕ → ℕ → Kernel → Bool × Kernel
  pub accept : ℕ → Kernel → Option ℕ × Kernel
  pub recv : ℕ → ℤ → Kernel → Option (List ℕ) × Kernel
  pub send : ℕ → List ℕ → ℤ → Kernel → Option ℕ × Kernel
  pub set_timeout : ℕ → LineOption → ℕ → Kernel → Kernel
  pub reuse_address : ℕ → Kernel → Bool × Kernel
  pub closesocket : ℕ → Kernel → Kernel
  pub inet_addr : List ℕ → ℕ
  pub port_of : List ℕ → ℕ

-- `DWORD value = *(int*)data`
unfoldable pub dword : ℤ → ℕ
dword (pos n) = n
dword (negsuc n) = 2 ^ 32 - 1 - n

-- The result of `WinSocket::read`, from that of `recv` and the last error.
unfoldable pub win_read_result : Option (List ℕ) → WsaError → Received
win_read_result none netreset = read_failed connection_lost
win_read_result none connaborted = read_failed connection_lost
win_read_result none connreset = read_failed connection_lost
win_read_result none timedout = read_failed timeout
win_read_result none other_error = read_failed unknown
win_read_result (some []) timedout = read_failed timeout
win_read_result (some []) _ = read_failed connection_lost
win_read_result (some (b ∷ bs)) _ = received (b ∷ bs)

-- The result of `WinSocket::write`.
unfoldable pub win_write_result : Option ℕ → Accepted
win_write_result (some (suc n)) = accepted (suc n)
win_write_result _ = write_failed unknown

-- `WinSocketFactory::supportsScheme`
unfoldable pub win_supports_scheme : List ℕ → Bool
unfolding tcp_supports_scheme
win_supports_scheme scheme = tcp_supports_scheme scheme

module _ (w : Winsock) where
  -- `WinSocketFactory::WinSocketFactory` and its destructor
  unfoldable pub make_factory : w.Kernel → w.Kernel
  make_factory k = w.startup k

  unfoldable pub destroy_factory : w.Kernel → w.Kernel
  destroy_factory k = w.cleanup k

  -- `WinSocket::WinSocket` for an address, and `WinSocket::~WinSocket`
  unfoldable pub new_win_socket : List ℕ → w.Kernel → Created Socket × w.Kernel
  new_win_socket address k =
      let (rc, k') = w.socket k in
      elim rc [
        | none ↦ (io_exception, k')
        | some fd ↦ (object (record { m_socket = fd; m_address = address }), k')
      ]

  unfoldable pub close_win : Socket → w.Kernel → w.Kernel
  close_win s k = w.closesocket s.m_socket k

  -- `WinSocket::connect`
  unfoldable pub win_connect : Socket → w.Kernel → Created Socket × w.Kernel
  unfolding host_port
  win_connect s k =
      let (host, port) = host_port s.m_address in
      let (rc, k') =
        w.connect s.m_socket (record { sin_addr = w.inet_addr host; sin_port = w.port_of port })
          k in
      elim rc [ true ↦ (object s, k') | false ↦ (io_exception, k') ]

  -- `WinSocketFactory::createClient`
  unfoldable pub create_win_client : List ℕ → w.Kernel → Created Socket × w.Kernel
  unfolding new_win_socket win_connect
  create_win_client address k =
      let (rc, k') = new_win_socket address k in
      elim rc [ object s ↦ win_connect s k' | c ↦ (c, k') ]

  -- `WinSocket::read`
  unfoldable pub win_read : ℕ → w.Kernel → ℕ → Received × w.Kernel
  unfolding win_read_result
  win_read fd k buflen =
      let (rc, k') = w.recv fd (narrow buflen) k in (win_read_result rc (w.last_error k'), k')

  -- `WinSocket::write`
  unfoldable pub win_write : ℕ → w.Kernel → List ℕ → Accepted × w.Kernel
  unfolding win_write_result
  win_write fd k buffer =
      let (rc, k') = w.send fd buffer (narrow (length buffer)) k in (win_write_result rc, k')

  -- `WinSocket::setOption`, with the `int` that `data` points to.
  unfoldable pub win_set_option : ℕ → LineOption → ℤ → w.Kernel → w.Kernel
  unfolding dword
  win_set_option fd option value k = w.set_timeout fd option (dword value) k

  -- The class behind the interface `IoLine`.
  abbrev pub win_line : ℕ → IoLine
  win_line fd = record { State = w.Kernel; read = win_read fd; write = win_write fd }

  -- The name that the acceptor binds; `INADDR_ANY` is 0.
  unfoldable pub win_name : List ℕ → SockaddrIn
  unfolding host_port is_star
  win_name address =
      let (host, port) = host_port address in
      record { sin_addr = if is_star host then 0 else w.inet_addr host; sin_port = w.port_of port }

  -- `listen` in the constructor of the acceptor, with what is done when it fails.
  unfoldable pub win_listen : Socket → w.Kernel → Created Socket × w.Kernel
  unfolding close_win
  win_listen s k =
      let (rc, k') = w.listen s.m_socket 10 k in
      elim rc [ true ↦ (object s, k') | false ↦ (io_exception, close_win s k') ]

  -- `bind`, and what follows it.
  unfoldable pub win_bind : Socket → w.Kernel → Created Socket × w.Kernel
  unfolding win_listen win_name
  win_bind s k =
      let (rc, k') = w.bind s.m_socket (win_name s.m_address) k in
      elim rc [ true ↦ win_listen s k' | false ↦ (io_exception, k') ]

  -- `WinSocketAcceptor::WinSocketAcceptor`, which `WinSocketFactory::createServer` calls. The
  -- destructor does the same as that of a line.
  unfoldable pub create_win_server : List ℕ → w.Kernel → Created Socket × w.Kernel
  unfolding new_win_socket win_bind
  create_win_server address k =
      let (rc, k') = new_win_socket address k in
      elim rc [
        | object s ↦
            let (rc, k'') = w.reuse_address s.m_socket k' in
            elim rc [ true ↦ win_bind s k'' | false ↦ (io_exception, k'') ]
        | c ↦ (c, k')
      ]

  -- `int newsock = accept(…)`, and the line for it; the time limit is not used.
  unfoldable pub accepted_line : ℤ → Created Socket
  accepted_line (pos zero) = null
  accepted_line (pos (suc n)) = object (record { m_socket = suc n; m_address = [] })
  accepted_line (negsuc _) = null

  unfoldable pub win_wait_connection : Socket → ℤ → w.Kernel → Created Socket × w.Kernel
  unfolding accepted_line
  win_wait_connection acceptor timeout_in_ms k =
      let (rc, k') = w.accept acceptor.m_socket k in
      elim rc [ none ↦ (null, k') | some fd ↦ (accepted_line (narrow fd), k') ]
