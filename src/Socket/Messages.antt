-- ===== src/Socket/Messages.antt =====
-- Messages over sockets: src/message.cpp on the lines of src/posix/io_socket.cpp.
use libcppio.Prelude.{ℕ, suc, arith, ◌<◌, ◌≡◌, List, ◌++◌, length}
use libcppio.Prelude.Int.{pos}
use libcppio.Message.{Message, empty_message}
use libcppio.Message.Wire.{encode}
use libcppio.Message.RoundTrip.{Fits}
use libcppio.Protocol.{returned, receive, send}
use libcppio.Protocol.Receive.{receive-encode}
use libcppio.Protocol.Send.{send-encode}
use libcppio.Socket.{Os, tcp_line, unix_line}
use libcppio.Socket.Lines
use libcppio.Socket.Lines.{StreamIn, StreamOut, tcp_write-some, unix_write-some}
use libcppio.Line.{IoLine, Delivers, Takes}

-- What a line that delivers and takes does when a message is read from it and an answer sent.
exchange :
    (line : IoLine) (d : Delivers line) (t : Takes line) (k : line.State) (m answer : Message)
    (rest : List ℕ)
    → Fits m
    → d.pending k ≡ encode m ++ rest
    → length (encode answer) < 2_147_483_648
    → (k' : line.State) × (k'' : line.State) × (receive line k empty_message
        ≡ returned (pos 1) (k', m))
      × (d.pending k' ≡ rest)
      × (send line (length (encode answer)) k' answer ≡ returned (pos 1) k'')
      × (t.written k'' ≡ t.written k' ++ encode answer)
exchange line d t k m answer rest fits come small =
    let (k', read_it, left) = receive-encode line d k m rest fits come in
    let (k'', sent_it, behind) = send-encode line t k' answer small in
    (k', k'', read_it, left, sent_it, behind)

module _ (os : Os) (fd : ℕ) where
  abbrev tcp_delivers : StreamIn os fd → Delivers (tcp_line os fd)
  tcp_delivers stream = record {
    pending = stream.pending;
    read_some = Lines.read_some os fd stream;
    read_end = Lines.read_end os fd stream;
  }

  abbrev unix_delivers : StreamIn os fd → Delivers (unix_line os fd)
  unix_delivers stream = record {
    pending = stream.pending;
    read_some = Lines.read_some os fd stream;
    read_end = Lines.read_end os fd stream;
  }

  abbrev tcp_takes : StreamOut os fd → Takes (tcp_line os fd)
  tcp_takes stream = record {
    written = stream.sent;
    write_some = λ k bs ne.
        let (n, k', e, fits, p) = stream.some_go k bs ne in
        (suc n, k', tcp_write-some os fd k k' bs n e, omega arith, fits, p);
  }

  abbrev unix_takes : StreamOut os fd → Takes (unix_line os fd)
  unix_takes stream = record {
    written = stream.sent;
    write_some = λ k bs ne.
        let (n, k', e, fits, p) = stream.some_go k bs ne in
        (suc n, k', unix_write-some os fd k k' bs n e, omega arith, fits, p);
  }

  -- If the system's `read` and `write` do what they promise of a stream, a message that fits the wire
  -- format and is to come on a tcp socket is read by `readMessage` however the stream is cut into
  -- pieces, and `sendMessage` of an answer shorter than 2 GiB on the wire then returns 1 and has put
  -- it on the same socket's stream behind what was sent before.
  pub tcp_receive-send :
      (stream_in : StreamIn os fd) (stream_out : StreamOut os fd) (k : os.Kernel)
      (m answer : Message) (rest : List ℕ)
      → Fits m
      → stream_in.pending k ≡ encode m ++ rest
      → length (encode answer) < 2_147_483_648
      → (k' : os.Kernel) × (k'' : os.Kernel) × (receive (tcp_line os fd) k empty_message
          ≡ returned (pos 1) (k', m))
        × (stream_in.pending k' ≡ rest)
        × (send (tcp_line os fd) (length (encode answer)) k' answer ≡ returned (pos 1) k'')
        × (stream_out.sent k'' ≡ stream_out.sent k' ++ encode answer)
  tcp_receive-send stream_in stream_out =
      exchange (tcp_line os fd) (tcp_delivers stream_in) (tcp_takes stream_out)

  -- If the system's `read` and `write` do what they promise of a stream, a message that fits the wire
  -- format and is to come on a local socket is read by `readMessage` however the stream is cut into
  -- pieces, and `sendMessage` of an answer shorter than 2 GiB on the wire then returns 1 and has put
  -- it on the same socket's stream behind what was sent before.
  pub unix_receive-send :
      (stream_in : StreamIn os fd) (stream_out : StreamOut os fd) (k : os.Kernel)
      (m answer : Message) (rest : List ℕ)
      → Fits m
      → stream_in.pending k ≡ encode m ++ rest
      → length (encode answer) < 2_147_483_648
      → (k' : os.Kernel) × (k'' : os.Kernel) × (receive (unix_line os fd) k empty_message
          ≡ returned (pos 1) (k', m))
        × (stream_in.pending k' ≡ rest)
        × (send (unix_line os fd) (length (encode answer)) k' answer ≡ returned (pos 1) k'')
        × (stream_out.sent k'' ≡ stream_out.sent k' ++ encode answer)
  unix_receive-send stream_in stream_out =
      exchange (unix_line os fd) (unix_delivers stream_in) (unix_takes stream_out)
