-- ===== src/Socket/Open.antt =====
-- The constructors, acceptors and factories of src/posix/io_socket.cpp. An object that a failing
-- constructor leaves behind is not destroyed, so only the `close` calls that are written happen.
use libcppio.Prelude.{
  ℕ, Bool, true, false, Option, none, some, List, [], ◌∷◌, ltb, ◌==◌, if◌then◌else◌,
}
use libcppio.Prelude.Int.{ℤ}
use libcppio.Manager.{Created, object, null, io_exception}
use libcppio.Socket.{
  Os, Socket, Domain, af_unix, af_inet, SocketAddress, unix_name, inet_port, server_name, host_port,
}

-- `scheme == "local"` and `scheme == "tcp"`
unfoldable pub local_supports_scheme : List ℕ → Bool
local_supports_scheme (a ∷ b ∷ c ∷ d ∷ e ∷ []) =
    if a == b'l'
    then (if b == b'o'
        then (if c == b'c' then (if d == b'a' then e == b'l' else false) else false)
        else false)
    else false
local_supports_scheme _ = false

unfoldable pub tcp_supports_scheme : List ℕ → Bool
tcp_supports_scheme (a ∷ b ∷ c ∷ []) =
    if a == b't' then (if b == b'c' then c == b'p' else false) else false
tcp_supports_scheme _ = false

-- `host != "*"`
unfoldable pub is_star : List ℕ → Bool
is_star (c ∷ []) = c == b'*'
is_star _ = false

module _ (os : Os) where
  -- The constructors `UnixSocket::UnixSocket` and `TcpSocket::TcpSocket` for an address.
  unfoldable pub new_socket : Domain → List ℕ → os.Kernel → Created Socket × os.Kernel
  new_socket domain address k =
      let (rc, k') = os.socket domain k in
      elim rc [
        | none ↦ (io_exception, k')
        | some fd ↦ (object (record { m_socket = fd; m_address = address }), k')
      ]

  -- `UnixSocket::~UnixSocket` and `UnixSocketAcceptor::~UnixSocketAcceptor`
  unfoldable pub close_unix : Socket → os.Kernel → os.Kernel
  close_unix s k = os.unlink s.m_address (os.close s.m_socket k)

  -- `TcpSocket::~TcpSocket` and `TcpSocketAcceptor::~TcpSocketAcceptor`
  unfoldable pub close_tcp : Socket → os.Kernel → os.Kernel
  close_tcp s k = os.close s.m_socket k

  -- The end of both `connect` methods.
  unfoldable pub connect_to : Socket → SocketAddress → os.Kernel → Created Socket × os.Kernel
  connect_to s name k =
      let (rc, k') = os.connect s.m_socket name k in
      elim rc [ true ↦ (object s, k') | false ↦ (io_exception, k') ]

  -- `UnixSocket::connect`; `none` where `strlen` reads behind `sa_data`.
  unfoldable pub unix_connect : Socket → os.Kernel → Option (Created Socket × os.Kernel)
  unfolding connect_to server_name
  unix_connect s k = elim (server_name s.m_address) [
    | none ↦ none
    | some name ↦ some (connect_to s (unix_name name) k)
  ]

  -- `TcpSocket::connect`
  unfoldable pub tcp_connect : Socket → os.Kernel → Created Socket × os.Kernel
  unfolding connect_to host_port
  tcp_connect s k =
      let (host, port) = host_port s.m_address in
      connect_to s (inet_port (os.inet_addr host) (os.port_of port)) k

  -- `UnixSocketFactory::createClient`
  unfoldable pub create_unix_client : List ℕ → os.Kernel → Option (Created Socket × os.Kernel)
  unfolding new_socket unix_connect
  create_unix_client address k =
      let (rc, k') = new_socket af_unix address k in
      elim rc [ object s ↦ unix_connect s k' | c ↦ some (c, k') ]

  -- `TcpSocketFactory::createClient`
  unfoldable pub create_tcp_client : List ℕ → os.Kernel → Created Socket × os.Kernel
  unfolding new_socket tcp_connect
  create_tcp_client address k =
      let (rc, k') = new_socket af_inet address k in
      elim rc [ object s ↦ tcp_connect s k' | c ↦ (c, k') ]

  -- `listen` at the end of an acceptor's constructor, with what is done when it fails.
  unfoldable pub listen_or :
      Socket → (os.Kernel → os.Kernel) → os.Kernel → Created Socket × os.Kernel
  listen_or s undo k =
      let (rc, k') = os.listen s.m_socket 10 k in
      elim rc [ true ↦ (object s, k') | false ↦ (io_exception, undo k') ]

  -- `bind`, and `listen` after it.
  unfoldable pub bind_listen :
      Socket → SocketAddress → (os.Kernel → os.Kernel) → os.Kernel → Created Socket × os.Kernel
  unfolding listen_or
  bind_listen s name undo k =
      let (rc, k') = os.bind s.m_socket name k in
      elim rc [ true ↦ listen_or s undo k' | false ↦ (io_exception, k') ]

  -- `UnixSocketAcceptor::UnixSocketAcceptor`, which `UnixSocketFactory::createServer` calls.
  unfoldable pub create_unix_server : List ℕ → os.Kernel → Option (Created Socket × os.Kernel)
  unfolding new_socket bind_listen close_unix server_name
  create_unix_server address k =
      let (rc, k') = new_socket af_unix address k in
      elim rc [
        | object s ↦ elim (server_name address) [
          | none ↦ none
          | some name ↦ some (bind_listen s (unix_name name) (close_unix s) k')
        ]
        | c ↦ some (c, k')
      ]

  -- The name that `TcpSocketAcceptor` binds; `INADDR_ANY` is 0.
  unfoldable pub tcp_name : List ℕ → SocketAddress
  unfolding host_port is_star
  tcp_name address =
      let (host, port) = host_port address in
      inet_port (if is_star host then 0 else os.inet_addr host) (os.port_of port)

  -- `TcpSocketAcceptor::TcpSocketAcceptor`, which `TcpSocketFactory::createServer` calls.
  unfoldable pub create_tcp_server : List ℕ → os.Kernel → Created Socket × os.Kernel
  unfolding new_socket bind_listen close_tcp tcp_name
  create_tcp_server address k =
      let (rc, k') = new_socket af_inet address k in
      elim rc [
        | object s ↦
            let (rc, k'') = os.reuse_address s.m_socket k' in
            elim rc [
              | true ↦ bind_listen s (tcp_name address) (close_tcp s) k''
              | false ↦ (io_exception, k'')
            ]
        | c ↦ (c, k')
      ]

  -- What both `waitConnection` methods do: the time limit is not used, descriptor 0 counts as none.
  unfoldable pub accept_one : Socket → os.Kernel → Created Socket × os.Kernel
  accept_one acceptor k =
      let (rc, k') = os.accept acceptor.m_socket k in
      elim rc [
        | none ↦ (null, k')
        | some fd ↦
            (if ltb 0 fd then object (record { m_socket = fd; m_address = [] }) else null, k')
      ]

  -- `UnixSocketAcceptor::waitConnection`
  unfoldable pub unix_wait_connection : Socket → ℤ → os.Kernel → Created Socket × os.Kernel
  unfolding accept_one
  unix_wait_connection acceptor timeout_in_ms k = accept_one acceptor k

  -- `TcpSocketAcceptor::waitConnection`
  unfoldable pub tcp_wait_connection : Socket → ℤ → os.Kernel → Created Socket × os.Kernel
  unfolding accept_one
  tcp_wait_connection acceptor timeout_in_ms k = accept_one acceptor k
