-- ===== src/Inproc/Messages.antt =====
-- Messages of src/message.cpp over the queue between two lines of src/common/inproc.cpp.
use libcppio.Prelude.{
  ℕ, zero, suc, ◌+◌, ◌-◌, ◌≤◌, ◌≡◌, refl, sym, ap, ◌∙◌, List, [], ◌∷◌, ◌++◌, length, arith, All,
  All-append, append_assoc, append-nil, take_all, le→leb, length-append,
}
use libcppio.Prelude.Int.{pos}
use libcppio.Line.{accepted}
use libcppio.Ring.{capacity}
use libcppio.Ring.Put.{free}
use libcppio.Message.{Message, empty_message}
use libcppio.Message.Wire.{encode}
use libcppio.Message.RoundTrip.{Fits}
use libcppio.Protocol.{returned, move_on, send_loop, send, receive}
use libcppio.Protocol.Receive.{receive-encode_up_to, FrameFits-limit}
use libcppio.Protocol.Send.{send-send_buffer, send_buffer_small, length-encode-pos}
use libcppio.DataQueue.Steps.{bytes_of}
use libcppio.Inproc.{InprocLine}
use libcppio.Inproc.Alone.{GoodQueue, alone}
use libcppio.Inproc.Delivery.{alone_delivers, alone-write}

-- Messages on the wire, one behind the other.
abbrev pub encode_all : List Message → List ℕ
encode_all [] = []
encode_all (m ∷ ms) = encode m ++ encode_all ms

encode_all-append : (ms ns : List Message) → encode_all (ms ++ ns) ≡ encode_all ms ++ encode_all ns
encode_all-append [] ns = refl
encode_all-append (m ∷ ms) ns =
    ap (◌++◌ (encode m)) (encode_all-append ms ns)
    ∙ sym (append_assoc (encode m) (encode_all ms) (encode_all ns))

module _ (line : InprocLine) (limit : ℕ) (timed : line.m_read_timeout ≡ pos (suc limit)) where
  -- Calls of `sendMessage`, one after another, which all return 1.
  abbrev pub Sends : List Message → GoodQueue → GoodQueue → Type 0
  Sends [] g g' = g ≡ g'
  Sends (m ∷ ms) g g' =
      (g1 : GoodQueue) × (send (alone line limit timed) (length (encode m)) g m
        ≡ returned (pos 1) g1)
      × Sends ms g1 g'

  -- Calls of `readMessage` into an empty message, which all return 1, with these messages.
  abbrev pub Receives : List Message → GoodQueue → GoodQueue → Type 0
  Receives [] g g' = g ≡ g'
  Receives (m ∷ ms) g g' =
      (g1 : GoodQueue) × (receive (alone line limit timed) g empty_message
        ≡ returned (pos 1) (g1, m))
      × Receives ms g1 g'

  send_one :
      (g : GoodQueue) (m : Message)
      → length (encode m) ≤ free g.queue.m_buffer
      → (g' : GoodQueue) × (send (alone line limit timed) (length (encode m)) g m
          ≡ returned (pos 1) g')
        × (bytes_of g'.queue ≡ bytes_of g.queue ++ encode m)
        × (capacity g'.queue.m_buffer ≡ capacity g.queue.m_buffer)
  unfolding send_loop move_on
  send_one g m fits =
      let (g', e, holds, size) =
        alone-write line limit timed g (encode m) (length-encode-pos m) fits in
      (
        g',
        send-send_buffer (alone line limit timed) (length (encode m)) g m (omega (arith, g.small))
            ∙ send_buffer_small (alone line limit timed) (length (encode m)) g (encode m)
                (omega (arith, g.small))
            ∙ at_once g' e (length (encode m)) refl,
        holds,
        size,
      )
    where
      ended :
          (n : ℕ) (g' : GoodQueue) (from left : ℕ)
          → left ≡ 0
          → send_loop (alone line limit timed) n (encode m) g' from left ≡ returned (pos 1) g'
      ended n g' from left none = rw none

      at_once :
          (g' : GoodQueue)
          → (alone line limit timed).write g (encode m) ≡ (accepted (length (encode m)), g')
          → (n : ℕ) → n ≡ length (encode m)
          → send_loop (alone line limit timed) n (encode m) g 0 n ≡ returned (pos 1) g'
      at_once g' e zero en = absurd (omega (arith, en, length-encode-pos m))
      at_once g' e (suc n) en = rw (le→leb (0 + suc n) (length (encode m)) (omega arith)) (
          ap
            (λ t.
              move_on (alone line limit timed) (send_loop (alone line limit timed) n (encode m)) 0
                (suc n) ((alone line limit timed).write g t))
            (take_all (encode m) {n = suc n} (omega arith))
          ∙ ap
              (move_on (alone line limit timed) (send_loop (alone line limit timed) n (encode m)) 0
                (suc n))
              e
          ∙ ended n g' (0 + length (encode m)) (suc n - length (encode m)) (omega arith))

  sends :
      (ms : List Message) (g : GoodQueue)
      → length (encode_all ms) ≤ free g.queue.m_buffer
      → (g' : GoodQueue) × Sends ms g g' × (bytes_of g'.queue ≡ bytes_of g.queue ++ encode_all ms)
  sends [] g fits = (g, refl, sym (append-nil (bytes_of g.queue)))
  sends (m ∷ ms) g fits =
      let both = length-append (encode m) (encode_all ms) in
      let (g1, e1, h1, size) = send_one g m (omega (arith, both)) in
      let (g', e', h') =
        sends ms g1
          (omega (arith, both, size, ap length h1, length-append (bytes_of g.queue) (encode m))) in
      (
        g',
        (g1, e1, e'),
        h'
            ∙ ap (λ bs. bs ++ encode_all ms) h1
            ∙ append_assoc (bytes_of g.queue) (encode m) (encode_all ms),
      )

  receives :
      (ms : List Message) (g : GoodQueue) (rest : List ℕ)
      → All Fits ms
      → bytes_of g.queue ≡ encode_all ms ++ rest
      → (g' : GoodQueue) × Receives ms g g' × (bytes_of g'.queue ≡ rest)
  receives [] g rest _ h = (g, refl, h)
  receives (m ∷ ms) g rest (here, there) h =
      let (g1, e1, h1) =
        receive-encode_up_to (alone line limit timed) 4_294_967_295
          (alone_delivers line limit timed) g m (encode_all ms ++ rest) (omega arith) here
          (FrameFits-limit m.m_frames here.frames)
          (h ∙ append_assoc (encode m) (encode_all ms) rest) in
      let (g', e', h') = receives ms g1 rest there h1 in (g', (g1, e1, e'), h')

  -- Messages that together are no longer on the wire than the room of the queue are all sent, behind
  -- those that the queue holds, and the other end then receives them all in that order: every call of
  -- `sendMessage` and `readMessage` returns 1, and nothing is left. The messages fit the wire format;
  -- the line that reads has a time limit, and the queue is valid and smaller than an `int`.
  pub exchange :
      (g : GoodQueue) (held ms : List Message)
      → All Fits held
      → All Fits ms
      → bytes_of g.queue ≡ encode_all held
      → length (encode_all ms) ≤ free g.queue.m_buffer
      → (g' : GoodQueue) × (g'' : GoodQueue) × Sends ms g g'
        × Receives (held ++ ms) g' g''
        × (bytes_of g''.queue ≡ [])
  exchange g held ms fits_held fits h room =
      let (g', sent, h') = sends ms g room in
      let (g'', got, h'') = receives (held ++ ms) g' [] (All-append Fits ms held fits_held fits) (
        h'
        ∙ ap (λ bs. bs ++ encode_all ms) h
        ∙ sym (encode_all-append held ms)
        ∙ sym (append-nil (encode_all (held ++ ms)))) in
      (g', g'', sent, got, h'')
