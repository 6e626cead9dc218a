-- ===== src/Lib.antt =====
-- A model of libcppio: lines of bytes between programs (inproc, local and tcp), and messages made of
-- frames that are sent over them.
--
-- The parts. IoLineManager (src/iolinemanager.cpp) picks the factory for the scheme of an address.
-- A factory makes lines and acceptors: within the process (src/common/inproc.cpp) or over sockets
-- (src/posix/io_socket.cpp). An inproc line reads from one DataQueue and writes to another; each
-- is a RingBuffer with a connection flag. MessageProtocol (src/message.cpp) sends and receives a
-- Message over any line.
--
-- The files.
-- Prelude: names that are passed on, Boolean tests, lists measured by native numbers, and in
--   Prelude/Int the signed results and the conversions to `int`.
-- Memory: buffers with bounds, little-endian words of fixed width, `size_t` arithmetic. An
--   `Outcome` says where C++ code would throw `length_error` or leave its buffer.
-- Message: Frame and Message of include/cppio/message.h and src/message.cpp: messageSize,
--   writeMessage, readMessage, addFrame, `operator<<` and get. Message/Wire says what a message is
--   on the wire.
-- Line: include/cppio/errors.h and the interface IoLine of include/cppio/ioline.h. A line is a
--   state with `read` and `write`; Delivers and Takes are what a client may rely on, DeliversUpTo
--   and TakesUpTo what it may for buffers up to a limit.
-- Protocol: MessageProtocol, readMessage and sendMessage over any IoLine.
-- Ring: RingBuffer, in the variant that locks (CMakeLists.txt always defines
--   CPPIO_BLOCKING_INPROC). Ring/Queue says which bytes a ring holds.
-- DataQueue: DataQueue in the same variant. A method is one step from where it has the mutex to
--   where it returns or waits; the phase says whether it starts, was notified or ran out of time.
--   DataQueue/Threads puts the steps of a reading thread, a writing thread and a third that connects
--   and disconnects the queue in any order, with what is notified.
--   A thread that is about to wait has the mutex until it sleeps, but the flag is set without it.
-- Lockfree: RingBuffer in the variant without a lock, as the steps of a reader and a writer at the
--   atomic pointers. Lockfree/Queue: DataQueue over that ring, as the steps of a reader, a writer and
--   a thread that sets the connection flag, at the pointers, the flag, the mutex and the conditions.
--   A condition wakes a thread only when it is notified.
-- Inproc: InprocLine, InprocAcceptor, InprocLineFactory and the static lists, as one state on
--   which each method is a step. Pointers are indices into stores. Inproc/Turns is the state over
--   any calls of the methods. Inproc/Messages sends messages over the queue between two lines.
-- Manager: IoLineManager over the interface IoLineFactory.
-- Socket: the sockets, acceptors and factories of src/posix/io_socket.cpp. The operating system is
--   a parameter, the record `Os`.
-- WinSocket: the tcp lines of src/win32/win_socket.cpp. The calls of Winsock are a parameter, the
--   record `Winsock`.
-- NamedPipe: the local lines of src/win32/pipes.cpp. The calls of Windows are a parameter, the record
--   `WinPipes`.
-- LineManager: createLineManager of src/posix/createlinemanager.cpp, the manager with the schemes of
--   the three factories.
-- Poller: SelectPoller of src/common/select_poller.cpp with LineEvent of include/cppio/poller.h.
--   `select` and the lines' `getNativeHandle` are parameters.
-- CInterface: the functions of src/cppio_c.cpp, over the definitions of Message, Protocol, Line and
--   Manager.
--
-- Words wrap at their width; strings and buffers are lists of bytes. The ring's `read` and `write`
-- call themselves at most once more, when the data wraps, so fuel 2 is enough. The loops of readMessage
-- end or read a byte each time, so as much fuel as bytes are wanted is enough; the loop of
-- sendMessage takes its fuel as an argument, and the length of the message on the wire is enough on
-- a line that takes at least a byte each time. The digits of a number take fuel above the number.
--
-- Not modelled: those functions of src/cppio_c.cpp that only call `new` or `delete`; the bindings,
-- which pass handles on; the createLineManager of the Windows build.
pub mod Prelude
pub mod Memory
pub mod Message
pub mod Ring
pub mod Line
pub mod Protocol
pub mod Manager
pub mod DataQueue
pub mod Lockfree
pub mod Socket
pub mod Inproc
pub mod Poller
pub mod CInterface
pub mod LineManager
pub mod WinSocket
pub mod NamedPipe
