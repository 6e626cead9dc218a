-- ===== src/Socket.antt =====
-- src/posix/io_socket.cpp: the lines over the sockets of the operating system, local (`local://`)
-- and tcp (`tcp://`). The operating system is a parameter, `Os`; a descriptor is a number.
pub mod Open
pub mod Lines
pub mod Names
pub mod Messages
mod Tests
use libcppio.Prelude.{
  ℕ, zero, suc, ◌+◌, ◌*◌, ◌<◌, Bool, true, false, ◌||◌, not, Option, none, some, List, [], ◌∷◌,
  ◌++◌, length, take, drop, replicate, ltb, ◌==◌, if◌then◌else◌,
}
use libcppio.Prelude.Int.{ℤ, pos, negsuc, ◌-ℤ◌, times, quotient}
use libcppio.Line.{
  ErrorCode, timeout, connection_lost, unknown, Received, received, read_failed, Accepted, accepted,
  write_failed, LineOption, receive_timeout, send_timeout, IoLine,
}
use libcppio.Manager.{Created, object, null, io_exception}

-- The values of `errno` that the code tells apart.
pub data Errno : Type 0 where
  connreset notconn again timedout other_error : Errno

pub data Domain : Type 0 where
  af_unix af_inet : Domain

-- `sockaddr` with the length that is passed along, and `sockaddr_in`, whose port is the `uint16_t`
-- before `htons`.
pub data SocketAddress : Type 0 where
  unix_name : List ℕ → SocketAddress
  inet_port : ℕ → ℕ → SocketAddress

-- `struct timeval`
pub record TimeVal : Type 0 where
  pub tv_sec : ℤ
  pub tv_usec : ℤ

-- The calls of the system: a negative result is `none` or `false`.
pub record Os : Type 1 where
  pub Kernel : Type 0
  pub errno : Kernel → Errno
  pub socket : Domain → Kernel → Option ℕ × Kernel
  pub connect : ℕ → SocketAddress → Kernel → Bool × Kernel
  pub bind : ℕ → SocketAddress → Kernel → Bool × Kernel
  pub listen : ℕ → ℕ → Kernel → Bool × Kernel
  pub accept : ℕ → Kernel → Option ℕ × Kernel
  pub read : ℕ → ℕ → Kernel → Option (List ℕ) × Kernel
  pub write : ℕ → List ℕ → Kernel → Option ℕ × Kernel
  pub set_timeout : ℕ → LineOption → TimeVal → Kernel → Kernel
  pub reuse_address : ℕ → Kernel → Bool × Kernel
  pub close : ℕ → Kernel → Kernel
  pub unlink : List ℕ → Kernel → Kernel
  pub inet_addr : List ℕ → ℕ
  pub port_of : List ℕ → ℕ

-- A socket object, of either class: `m_socket` and `m_address`.
pub record Socket : Type 0 where
  pub m_socket : ℕ
  pub m_address : List ℕ

-- A C string: the bytes before the first zero.
unfoldable pub c_string : List ℕ → List ℕ
c_string [] = []
c_string (c ∷ cs) = let rest = c_string cs in if c == 0 then [] else c ∷ rest

-- `strlen` in an array: `none` where it reads behind the end.
unfoldable pub strlen : List ℕ → Option ℕ
strlen [] = none
strlen (c ∷ cs) =
    let rest = strlen cs in
    if c == 0 then some 0 else elim rest [ none ↦ none | some n ↦ some (suc n) ]

-- The 14 bytes `sa_data` after `strncpy`, which fills them up with zeros.
unfoldable pub sa_data : List ℕ → List ℕ
unfolding c_string
sa_data address = take 14 (c_string address ++ replicate 14 0)

-- The name that the system is given: `strlen(serverName.sa_data)` bytes of `sa_data`.
unfoldable pub server_name : List ℕ → Option (List ℕ)
unfolding sa_data strlen
server_name address = elim (strlen (sa_data address)) [
  | none ↦ none
  | some n ↦ some (take n (sa_data address))
]

-- `m_address.find(':')`
unfoldable pub find_colon : List ℕ → Option ℕ
find_colon [] = none
find_colon (c ∷ cs) =
    let rest = find_colon cs in
    if c == b':' then some 0 else elim rest [ none ↦ none | some i ↦ some (suc i) ]

-- Host and port: without a ':' the position is the greatest `size_t`, and one more is 0.
unfoldable pub host_port : List ℕ → List ℕ × List ℕ
unfolding find_colon
host_port address = elim (find_colon address) [
  | none ↦ (address, address)
  | some i ↦ (take i address, drop (i + 1) address)
]

-- The conversion that `setOption` makes, for either option.
unfoldable pub timeval : ℤ → TimeVal
unfolding quotient times ◌-ℤ◌
timeval msecs =
    let secs = quotient msecs 1_000 in
    let rest_msecs = msecs -ℤ times secs 1_000 in
    record { tv_sec = secs; tv_usec = times rest_msecs 1_000 }

-- The result of either `read`, from the system's and `errno`.
unfoldable pub read_result : Option (List ℕ) → Errno → Received
read_result none connreset = read_failed connection_lost
read_result none notconn = read_failed connection_lost
read_result none again = read_failed timeout
read_result none timedout = read_failed unknown
read_result none other_error = read_failed unknown
read_result (some []) timedout = read_failed timeout
read_result (some []) _ = read_failed connection_lost
read_result (some (b ∷ bs)) _ = received (b ∷ bs)

-- The result of `UnixSocket::write`.
unfoldable pub unix_write_result : Option ℕ → Errno → Accepted
unix_write_result (some (suc n)) _ = accepted (suc n)
unix_write_result _ connreset = write_failed connection_lost
unix_write_result _ notconn = write_failed connection_lost
unix_write_result _ _ = write_failed unknown

-- The result of `TcpSocket::write`.
unfoldable pub tcp_write_result : Option ℕ → Accepted
tcp_write_result (some (suc n)) = accepted (suc n)
tcp_write_result _ = write_failed unknown

module _ (os : Os) where
  -- `UnixSocket::read` and `TcpSocket::read`
  unfoldable pub socket_read : ℕ → os.Kernel → ℕ → Received × os.Kernel
  unfolding read_result
  socket_read fd k buflen = let (rc, k') = os.read fd buflen k in (read_result rc (os.errno k'), k')

  -- `UnixSocket::write`
  unfoldable pub unix_write : ℕ → os.Kernel → List ℕ → Accepted × os.Kernel
  unfolding unix_write_result
  unix_write fd k buffer =
      let (rc, k') = os.write fd buffer k in (unix_write_result rc (os.errno k'), k')

  -- `TcpSocket::write`
  unfoldable pub tcp_write : ℕ → os.Kernel → List ℕ → Accepted × os.Kernel
  unfolding tcp_write_result
  tcp_write fd k buffer = let (rc, k') = os.write fd buffer k in (tcp_write_result rc, k')

  -- `UnixSocket::setOption`, with the `int` that `data` points to. `setsockopt`'s result is not used.
  unfoldable pub unix_set_option : ℕ → LineOption → ℤ → os.Kernel → os.Kernel
  unfolding timeval
  unix_set_option fd option msecs k = os.set_timeout fd option (timeval msecs) k

  -- `TcpSocket::setOption`
  unfoldable pub tcp_set_option : ℕ → LineOption → ℤ → os.Kernel → os.Kernel
  unfolding timeval
  tcp_set_option fd option msecs k = os.set_timeout fd option (timeval msecs) k

  -- The two classes behind the interface `IoLine`.
  abbrev pub unix_line : ℕ → IoLine
  unix_line fd = record { State = os.Kernel; read = socket_read fd; write = unix_write fd }

  abbrev pub tcp_line : ℕ → IoLine
  tcp_line fd = record { State = os.Kernel; read = socket_read fd; write = tcp_write fd }
