-- ===== src/NamedPipe/Broken.antt =====
-- Messages over a pipe of src/win32/pipes.cpp whose other end is gone: src/message.cpp takes the
-- result 0 of `read` and `write` for no error.
use libcppio.Prelude.{
  ℕ, zero, suc, ◌+◌, ◌-◌, ◌<◌, ◌≡◌, refl, ap, ◌∙◌, false, List, [], length, take, drop, le→leb,
  arith, ◌%◌, ◌^◌,
}
use libcppio.Prelude.Int.{pos}
use libcppio.Line.{received, accepted}
use libcppio.Message.{Message, empty_message}
use libcppio.Message.Wire.{encode}
use libcppio.Protocol.{returned, out_of_fuel, take_result, fill, move_on, send_loop, receive, send}
use libcppio.Protocol.Send.{send-send_buffer, send_buffer_small, length-encode-pos}
use libcppio.NamedPipe.{WinPipes, pipe_read, pipe_write, pipe_line}

-- States of the system in which ReadFile and WriteFile fail on a handle, now and later.
pub record Broken (w : WinPipes) (pipe : ℕ) : Type 1 where
  pub IsBroken : w.Kernel → Type 0
  pub read_fails : (k : w.Kernel) (n : ℕ) → IsBroken k → (w.read_file pipe n k).0.0 ≡ false
  pub write_fails :
      (k : w.Kernel) (bs : List ℕ)
      → IsBroken k
      → ((w.write_file pipe bs k).0.0 ≡ false) × IsBroken (w.write_file pipe bs k).1

module _ (w : WinPipes) (pipe : ℕ) (broken : Broken w pipe) where
  open broken use {IsBroken}

  nothing_written :
      (k : w.Kernel) (bs : List ℕ)
      → IsBroken k
      → (k' : w.Kernel) × (pipe_write w pipe k bs ≡ (accepted 0, k')) × IsBroken k'
  unfolding pipe_write
  nothing_written k bs b =
      let given = take (length bs % 2 ^ 32) bs in
      let (e, b') = broken.write_fails k given b in ((w.write_file pipe given k).1, rw e refl, b')

  -- Every round writes nothing, and there is another one.
  send_loop-stuck :
      (fuel : ℕ) (buffer : List ℕ) (k : w.Kernel) (n : ℕ)
      → suc n ≡ length buffer
      → IsBroken k
      → send_loop (pipe_line w pipe) fuel buffer k 0 (suc n) ≡ out_of_fuel
  unfolding send_loop move_on
  send_loop-stuck zero buffer k n e b = refl
  send_loop-stuck (suc fuel) buffer k n e b =
      let (k', wrote, b') = nothing_written k (take (suc n) (drop 0 buffer)) b in
      rw (le→leb (0 + suc n) (length buffer) (omega arith)) (
        ap (move_on (pipe_line w pipe) (send_loop (pipe_line w pipe) fuel buffer) 0 (suc n)) wrote
        ∙ ap (λ t. send_loop (pipe_line w pipe) fuel buffer k' (0 + 0) t) {x = suc n - 0}
            {y = suc n} (omega arith)
        ∙ ap (λ f. send_loop (pipe_line w pipe) fuel buffer k' f (suc n)) {x = 0 + 0} {y = 0}
            (omega arith)
        ∙ send_loop-stuck fuel buffer k' n e b')

  nothing_read :
      (k : w.Kernel) (n : ℕ)
      → IsBroken k
      → (k' : w.Kernel) × (pipe_read w pipe k n ≡ (received [], k'))
  unfolding pipe_read
  nothing_read k n b =
      let e = broken.read_fails k (n % 2 ^ 32) b in ((w.read_file pipe (n % 2 ^ 32) k).1, rw e refl)

  -- When ReadFile and WriteFile fail on the handle, and go on failing: `sendMessage` of a message
  -- shorter than 2 GiB on the wire never ends, however many calls of `write` it may make; and
  -- `readMessage` into an empty message returns 0, which is neither 1 nor an error code.
  pub pipe_send-receive_broken :
      (k : w.Kernel) (m : Message) (fuel : ℕ)
      → IsBroken k
      → length (encode m) < 2_147_483_648
      → (send (pipe_line w pipe) fuel k m ≡ out_of_fuel)
        × ((k' : w.Kernel) × (receive (pipe_line w pipe) k empty_message
              ≡ returned (pos 0) (k', empty_message)))
  unfolding receive fill take_result
  pipe_send-receive_broken k m fuel b small = (
    send-send_buffer (pipe_line w pipe) fuel k m (omega arith)
        ∙ send_buffer_small (pipe_line w pipe) fuel k (encode m) small
        ∙ looping (length (encode m)) refl,
    ((nothing_read k 4 b).0, rw ((nothing_read k 4 b).1, fill) refl),
  )
    where
      looping :
          (n : ℕ)
          → n ≡ length (encode m)
          → send_loop (pipe_line w pipe) fuel (encode m) k 0 n ≡ out_of_fuel
      looping zero e = absurd (omega (arith, length-encode-pos m))
      looping (suc n) e = send_loop-stuck fuel (encode m) k n e b
