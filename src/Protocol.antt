-- ===== src/Protocol.antt =====
-- MessageProtocol of src/message.cpp: messages sent and received over a line.
pub mod Receive
pub mod Cut
pub mod Send
mod Tests
use libcppio.Prelude.{
  ℕ, zero, suc, ◌+◌, ◌-◌, true, false, List, [], ◌∷◌, ◌++◌, length, take, drop, replicate, leb, ltb,
  if◌then◌else◌,
}
use libcppio.Prelude.Int.{ℤ, pos, negsuc, narrow}
use libcppio.Memory.{Outcome, ok, length_error, out_of_bounds, first_u32}
use libcppio.Line.{
  ErrorCode, magnitude, error_value, Received, received, read_failed, Accepted, accepted,
  write_failed, IoLine,
}
use libcppio.Message.{Message, Frame, size, add_frame, message_size, write_message}

-- What a method did. `failed` is undefined behaviour: the line wrote behind the buffer that it was
-- given, or was given memory outside the buffer. `aborted` is a failed `assert`.
pub data Effect (S A : Type 0) : Type 0 where
  done : A → S → Effect S A
  returned : ℤ → S → Effect S A
  failed : Effect S A
  aborted : Effect S A
  out_of_fuel : Effect S A

module _ (line : IoLine) where
  open line use {State}

  -- What the body of such a loop does with the result of `read`: it ends the method, or adds the
  -- bytes and goes on, with `again`.
  unfoldable pub take_result :
      (State → ℕ → List ℕ → Effect State (List ℕ))
      → ℕ
      → List ℕ
      → Received × State
      → Effect State (List ℕ)
  take_result again left so_far (read_failed e, s') = returned (error_value e) s'
  take_result again left so_far (received bs, s') = elim (leb (length bs) left) [
    | false ↦ failed
    | true ↦ elim (narrow (length bs)) [
      | pos zero ↦ returned (pos zero) s'
      | pos (suc n) ↦ again s' (left - suc n) (so_far ++ bs)
      | negsuc n ↦ returned (negsuc n) s'
    ]
  ]

  -- One of the loops `while(bytesRead < …)`, with the number of bytes still to be read and the bytes
  -- read so far. The fuel bounds the number of calls of `read`.
  unfoldable pub fill : ℕ → State → ℕ → List ℕ → Effect State (List ℕ)
  unfolding take_result
  fill fuel s zero so_far = done so_far s
  fill zero s (suc left) so_far = out_of_fuel
  fill (suc fuel) s (suc left) so_far =
      take_result (fill fuel) (suc left) so_far (line.read s (suc left))

  -- What follows a loop: `return result` ends the method, with the message as it is then.
  abbrev pub after :
      {A : Type 0}
      → Effect State A
      → Message
      → (A → State → Effect (State × Message) (Unit {0}))
      → Effect (State × Message) (Unit {0})
  after (done a s) m next = next a s
  after (returned result s) m next = returned result (s, m)
  after failed m next = failed
  after aborted m next = aborted
  after out_of_fuel m next = out_of_fuel

  -- The `uint32_t` that a loop has filled. Its four bytes are there, so only the first case occurs.
  abbrev pub with_word :
      Outcome ℕ → (ℕ → Effect (State × Message) (Unit {0})) → Effect (State × Message) (Unit {0})
  with_word (ok v) next = next v
  with_word length_error next = failed
  with_word out_of_bounds next = failed
  with_word Outcome.out_of_fuel next = failed

  -- The loop over the frames, on the rounds left. Every call of `read` that goes on reads a byte, so
  -- the number of bytes wanted is fuel enough.
  unfoldable pub receive_frames : ℕ → State → Message → Effect (State × Message) (Unit {0})
  receive_frames zero s m = returned (pos 1) (s, m)
  receive_frames (suc rounds) s m = after (fill 4 s 4 []) m λ head s1.
      with_word (first_u32 head) λ frame_length.
        after (fill frame_length s1 frame_length []) m
          λ bytes s2. receive_frames rounds s2 (add_frame m (record { m_data = bytes }))

  -- `MessageProtocol::readMessage`: the result, the line and the message afterwards.
  unfoldable pub receive : State → Message → Effect (State × Message) (Unit {0})
  unfolding fill receive_frames
  receive s m = elim m.m_frames [
    | _ ∷ _ ↦ aborted
    | [] ↦
        after (fill 4 s 4 []) m
          λ head s1. with_word (first_u32 head) λ frames. receive_frames frames s1 m
  ]

  -- What the body of the loop of `sendMessage` does with the result of `write`. It is taken for a
  -- `size_t`, so an error moves `data` back and `towrite` up, which is an `int` and wraps: the loop ends
  -- when it has become negative.
  unfoldable pub move_on :
      (State → ℕ → ℕ → Effect State (Unit {0})) → ℕ → ℕ → Accepted × State → Effect State (Unit {0})
  move_on again from towrite (accepted n, s') = again s' (from + n) (towrite - n)
  move_on again from towrite (write_failed e, s') =
      let again_or_failed : ℕ → Effect State (Unit {0}) =
        λ left. if leb (magnitude e) from then again s' (from - magnitude e) left else failed in
      elim (narrow (towrite + magnitude e)) [
        | pos left ↦ again_or_failed left
        | negsuc _ ↦ returned (pos 1) s'
      ]

  -- The loop of `MessageProtocol::sendMessage`: `data` is an offset in the buffer, `towrite` counts
  -- down. The fuel bounds the number of calls of `write`.
  unfoldable pub send_loop : ℕ → List ℕ → State → ℕ → ℕ → Effect State (Unit {0})
  unfolding move_on
  send_loop fuel buffer s from zero = returned (pos 1) s
  send_loop zero buffer s from (suc towrite) = out_of_fuel
  send_loop (suc fuel) buffer s from (suc towrite) =
      if leb (from + suc towrite) (length buffer)
      then move_on (send_loop fuel buffer) from (suc towrite)
          (line.write s (take (suc towrite) (drop from buffer)))
      else failed

  -- The start of the loop: `int towrite = buffer.size()`, which may be negative.
  unfoldable pub send_buffer : ℕ → State → List ℕ → Effect State (Unit {0})
  unfolding send_loop
  send_buffer fuel s buffer = elim (narrow (length buffer)) [
    | pos towrite ↦ send_loop fuel buffer s 0 towrite
    | negsuc _ ↦ returned (pos 1) s
  ]

  -- `MessageProtocol::sendMessage`
  unfoldable pub send : ℕ → State → Message → Effect State (Unit {0})
  unfolding send_buffer
  send fuel s m = elim (write_message m (replicate (message_size m) 0)) [
    | ok buffer ↦ send_buffer fuel s buffer
    | _ ↦ failed
  ]
