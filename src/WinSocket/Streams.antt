-- ===== src/WinSocket/Streams.antt =====
-- Messages over the sockets of src/win32/win_socket.cpp: src/message.cpp on a line of Winsock.
use libcppio.Prelude.{
  ℕ, suc, ◌≤◌, ◌<◌, ◌≡◌, ◌≢◌, refl, ap, ◌∙◌, ◌⊎◌, inl, inr, Option, none, some, List, [], ◌∷◌, ◌++◌,
  length, take, arith, All,
}
use libcppio.Prelude.Int.{pos, narrow}
use libcppio.Line.{
  ErrorCode, timeout, connection_lost, unknown, received, read_failed, accepted, DeliversUpTo,
  TakesUpTo,
}
use libcppio.Message.{Message, frame_size, empty_message}
use libcppio.Message.Wire.{encode}
use libcppio.Message.RoundTrip.{Fits}
use libcppio.Protocol.{returned, receive, send}
use libcppio.Protocol.Receive.{receive-encode_up_to}
use libcppio.Protocol.Send.{send-encode_up_to}
use libcppio.WinSocket.{
  WsaError, netreset, connaborted, connreset, timedout, other_error, Winsock, win_read_result,
  win_write_result, win_read, win_write, win_line,
}

-- What Winsock promises of `recv` on a connected blocking stream, for a length above zero: while
-- bytes are to come it gives some of them, in order; with none to come it gives none or fails.
pub record StreamIn (w : Winsock) (fd : ℕ) : Type 0 where
  pub pending : w.Kernel → List ℕ
  pub some_come :
      (k : w.Kernel) (n : ℕ)
      → 0 < n
      → n < 2_147_483_648
      → pending k ≢ []
      → (b : ℕ) × (bs : List ℕ) × (k' : w.Kernel) × (w.recv fd (pos n) k ≡ (some (b ∷ bs), k'))
        × (length (b ∷ bs) ≤ n)
        × (pending k ≡ (b ∷ bs) ++ pending k')
  pub none_come :
      (k : w.Kernel) (n : ℕ)
      → 0 < n
      → n < 2_147_483_648
      → pending k ≡ []
      → (r : Option (List ℕ)) × (k' : w.Kernel) × (w.recv fd (pos n) k ≡ (r, k'))
        × ((r ≡ none) ⊎ (r ≡ some []))

-- What it promises of `send` on such a stream.
pub record StreamOut (w : Winsock) (fd : ℕ) : Type 0 where
  pub sent : w.Kernel → List ℕ
  pub some_go :
      (k : w.Kernel) (bs : List ℕ)
      → bs ≢ []
      → length bs < 2_147_483_648
      → (n : ℕ) × (k' : w.Kernel) × (w.send fd bs (pos (length bs)) k ≡ (some (suc n), k'))
        × (suc n ≤ length bs)
        × (sent k' ≡ sent k ++ take (suc n) bs)

narrow_small : (n : ℕ) → n < 2_147_483_648 → narrow n ≡ pos n
narrow_small n h = ground arith

-- Without bytes the result is an error, whatever the last error is.
win_read_result-failed :
    (r : Option (List ℕ)) (e : WsaError)
    → (r ≡ none) ⊎ (r ≡ some [])
    → (c : ErrorCode) × (win_read_result r e ≡ read_failed c)
unfolding win_read_result
win_read_result-failed r e (inl p) =
    let (c, q) = no_result e in (c, ap (λ x. win_read_result x e) p ∙ q)
  where
    no_result : (e : WsaError) → (c : ErrorCode) × (win_read_result none e ≡ read_failed c)
    no_result netreset = (connection_lost, refl)
    no_result connaborted = (connection_lost, refl)
    no_result connreset = (connection_lost, refl)
    no_result timedout = (timeout, refl)
    no_result other_error = (unknown, refl)
win_read_result-failed r e (inr p) =
    let (c, q) = no_bytes e in (c, ap (λ x. win_read_result x e) p ∙ q)
  where
    no_bytes : (e : WsaError) → (c : ErrorCode) × (win_read_result (some []) e ≡ read_failed c)
    no_bytes netreset = (connection_lost, refl)
    no_bytes connaborted = (connection_lost, refl)
    no_bytes connreset = (connection_lost, refl)
    no_bytes timedout = (timeout, refl)
    no_bytes other_error = (connection_lost, refl)

module _ (w : Winsock) (fd : ℕ) where
  win_read-some :
      (k k' : w.Kernel) (n b : ℕ) (bs : List ℕ)
      → n < 2_147_483_648
      → w.recv fd (pos n) k ≡ (some (b ∷ bs), k')
      → win_read w fd k n ≡ (received (b ∷ bs), k')
  unfolding win_read win_read_result
  win_read-some k k' n b bs small e = rw (narrow_small n small) (rw e)

  win_read-failed :
      (k k' : w.Kernel) (n : ℕ) (r : Option (List ℕ)) (c : ErrorCode)
      → n < 2_147_483_648
      → w.recv fd (pos n) k ≡ (r, k')
      → win_read_result r (w.last_error k') ≡ read_failed c
      → win_read w fd k n ≡ (read_failed c, k')
  unfolding win_read
  win_read-failed k k' n r c small e p = rw (narrow_small n small) (rw (e, p))

  win_write-some :
      (k k' : w.Kernel) (bs : List ℕ) (n : ℕ)
      → length bs < 2_147_483_648
      → w.send fd bs (pos (length bs)) k ≡ (some (suc n), k')
      → win_write w fd k bs ≡ (accepted (suc n), k')
  unfolding win_write win_write_result
  win_write-some k k' bs n small e = rw (narrow_small (length bs) small) (rw e)

  abbrev win_delivers : StreamIn w fd → DeliversUpTo 2_147_483_647 (win_line w fd)
  win_delivers stream = record {
    pending = stream.pending;
    read_some = λ k n h fits ne.
        let (b, bs, k', e, short, p) = stream.some_come k n h (omega arith) ne in
        (b ∷ bs, k', win_read-some k k' n b bs (omega arith) e, omega arith, short, omega arith, p);
    read_end = λ k n h fits none_left.
        let (r, k', e, d) = stream.none_come k n h (omega arith) none_left in
        let (c, q) = win_read_result-failed r (w.last_error k') d in
        (c, k', win_read-failed k k' n r c (omega arith) e q);
  }

  abbrev win_takes : StreamOut w fd → TakesUpTo 2_147_483_647 (win_line w fd)
  win_takes stream = record {
    written = stream.sent;
    write_some = λ k bs ne fits.
        let (n, k', e, short, p) = stream.some_go k bs ne (omega arith) in
        (suc n, k', win_write-some k k' bs n (omega arith) e, omega arith, short, p);
  }

  -- If Winsock's `recv` and `send` do what they promise of a stream for lengths that an `int` holds,
  -- a message whose frames are shorter than 2 GiB and that is to come on a socket is read by
  -- `readMessage` however the stream is cut into pieces, and `sendMessage` of an answer shorter than
  -- 2 GiB on the wire then returns 1 and has put it on the same socket's stream behind what was sent
  -- before.
  pub win_receive-send :
      (stream_in : StreamIn w fd) (stream_out : StreamOut w fd) (k : w.Kernel) (m answer : Message)
      (rest : List ℕ)
      → Fits m
      → All (λ f. frame_size f ≤ 2_147_483_647) m.m_frames
      → stream_in.pending k ≡ encode m ++ rest
      → length (encode answer) < 2_147_483_648
      → (k' : w.Kernel) × (k'' : w.Kernel) × (receive (win_line w fd) k empty_message
          ≡ returned (pos 1) (k', m))
        × (stream_in.pending k' ≡ rest)
        × (send (win_line w fd) (length (encode answer)) k' answer ≡ returned (pos 1) k'')
        × (stream_out.sent k'' ≡ stream_out.sent k' ++ encode answer)
  win_receive-send stream_in stream_out k m answer rest fits short come small =
      let (k', read_it, left) =
        receive-encode_up_to (win_line w fd) 2_147_483_647 (win_delivers stream_in) k m rest
          (omega arith) fits short come in
      let (k'', sent_it, behind) =
        send-encode_up_to (win_line w fd) 2_147_483_647 (win_takes stream_out) k' answer small
          (omega arith) in
      (k', k'', read_it, left, sent_it, behind)
