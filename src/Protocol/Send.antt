-- ===== src/Protocol/Send.antt =====
-- `MessageProtocol::sendMessage`: on a line that takes bytes, on one that fails, and for a message
-- that is too long for an `int`.
use libcppio.Prelude.{
  ℕ, zero, suc, ◌+◌, ◌-◌, ◌^◌, ◌≤◌, ◌<◌, ◌≡◌, ◌≢◌, refl, sym, ap, ap₂, ◌∙◌, List, [], ◌++◌, length,
  take, drop, replicate, le→leb, lt→not-leb, arith, length-drop, length-replicate, append_assoc,
  append-nil, take_all, drop_all, take-append-drop, drop-drop, ltb, lt→ltb, le→not-ltb,
  if◌then◌else◌,
}
use native.Mathlib.Decide.{dec_lt}
use libcppio.Prelude.Int.{pos, negsuc, narrow}
use libcppio.Memory.{ok}
use libcppio.Line.{
  ErrorCode, timeout, connection_lost, too_big_buffer, unknown, magnitude, IoLine, Takes, TakesUpTo,
  takes_up_to, write_failed,
}
use libcppio.Message.{Message, message_size, write_message}
use libcppio.Message.Wire.{encode, write_message-encode, message_size-length, length-encode}
use libcppio.Protocol.{Effect, returned, failed, move_on, send_loop, send_buffer, send}

abbrev zeros : ℕ → List ℕ
zeros n = replicate n 0

-- The buffer that `sendMessage` fills is the message on the wire.
sent_buffer :
    (m : Message)
    → length (encode m) < 2 ^ 64
    → write_message m (zeros (message_size m)) ≡ ok (encode m)
sent_buffer m small =
    write_message-encode m (zeros (message_size m))
    ∙ rw (le→leb (length (encode m)) (length (zeros (message_size m))) (omega (arith, size))) (
        rw (drop_all (zeros (message_size m)) {n = length (encode m)} (omega (arith, size)))
          (rw append-nil))
  where
    size : length (zeros (message_size m)) ≡ length (encode m)
    size = length-replicate {A = ℕ} (message_size m) 0 ∙ message_size-length m small

magnitude_small : (e : ErrorCode) → magnitude e < 2_147_483_648
unfolding magnitude
magnitude_small timeout = omega arith
magnitude_small connection_lost = omega arith
magnitude_small too_big_buffer = omega arith
magnitude_small unknown = omega arith

magnitude-pos : (e : ErrorCode) → 0 < magnitude e
unfolding magnitude
magnitude-pos timeout = omega arith
magnitude-pos connection_lost = omega arith
magnitude-pos too_big_buffer = omega arith
magnitude-pos unknown = omega arith

narrow_small : (n : ℕ) → n < 2_147_483_648 → narrow n ≡ pos n
narrow_small n h = ground arith

narrow_large :
    (n : ℕ) → 2_147_483_648 ≤ n → n < 4_294_967_296 → narrow n ≡ negsuc (4_294_967_296 - n - 1)
narrow_large n h k = ground arith

pub length-encode-pos : (m : Message) → 0 < length (encode m)
length-encode-pos m = omega (arith, length-encode m)

module _ (line : IoLine) where
  open line use {State}

  pub send-send_buffer :
      (fuel : ℕ) (s : State) (m : Message)
      → length (encode m) < 2 ^ 64
      → send line fuel s m ≡ send_buffer line fuel s (encode m)
  unfolding send
  send-send_buffer fuel s m small = rw (sent_buffer m small, send)

  pub send_buffer_small :
      (fuel : ℕ) (s : State) (buffer : List ℕ)
      → length buffer < 2_147_483_648
      → send_buffer line fuel s buffer ≡ send_loop line fuel buffer s 0 (length buffer)
  unfolding send_buffer
  send_buffer_small fuel s buffer small = rw (narrow_small (length buffer) small, send_buffer)

  -- The loop on a line that takes bytes.
  send_loop-written :
      (limit : ℕ) (d : TakesUpTo limit line) (fuel : ℕ) (buffer : List ℕ) (s : State)
      (from towrite : ℕ)
      → towrite ≤ fuel
      → towrite ≤ limit
      → from + towrite ≡ length buffer
      → (s' : State) × (send_loop line fuel buffer s from towrite ≡ returned (pos 1) s')
        × (d.written s' ≡ d.written s ++ drop from buffer)
  unfolding send_loop
  send_loop-written limit d fuel buffer s from zero hf hl e = (
    s,
    refl,
    sym (append-nil (d.written s))
        ∙ ap (◌++◌ (d.written s)) (sym (drop_all buffer {n = from} (omega arith))),
  )
  send_loop-written limit d zero buffer s from (suc towrite) hf hl e = absurd (omega arith)
  send_loop-written limit d (suc fuel) buffer s from (suc towrite) hf hl e =
      let (n, s1, e1, some, fits, w1) = d.write_some s given ne (omega (arith, len)) in
      let (s', e', w') =
        send_loop-written limit d fuel buffer s1 (from + n) (suc towrite - n) (omega arith)
          (omega arith) (omega (arith, len)) in
      (
        s',
        rw (le→leb (from + suc towrite) (length buffer) (omega arith))
            (ap (move_on line (send_loop line fuel buffer) from (suc towrite)) e1 ∙ e'),
        w'
            ∙ ap₂ ◌++◌ w1 (sym (drop-drop n from buffer))
            ∙ append_assoc (d.written s) (take n given) (drop n (drop from buffer))
            ∙ ap (◌++◌ (d.written s)) (
                ap (λ t. take n t ++ drop n (drop from buffer)) all_given
                ∙ take-append-drop n (drop from buffer)),
      )
    where
      given : List ℕ
      given = take (suc towrite) (drop from buffer)

      all_given : given ≡ drop from buffer
      all_given =
          take_all (drop from buffer) {n = suc towrite} (omega (arith, length-drop from buffer))

      len : length given ≡ suc towrite
      len = omega (arith, ap length all_given, length-drop from buffer)

      ne : given ≢ []
      ne h = absurd (omega (arith, len, ap length h))

  -- A message that is not longer on the wire than the limit, on a line that takes up to it.
  pub send-encode_up_to :
      (limit : ℕ) (d : TakesUpTo limit line) (s : State) (m : Message)
      → length (encode m) < 2_147_483_648
      → length (encode m) ≤ limit
      → (s' : State) × (send line (length (encode m)) s m ≡ returned (pos 1) s')
        × (d.written s' ≡ d.written s ++ encode m)
  send-encode_up_to limit d s m small fits =
      let (s', e, w) =
        send_loop-written limit d (length (encode m)) (encode m) s 0 (length (encode m))
          (omega arith) fits (omega arith) in
      (
        s',
        send-send_buffer (length (encode m)) s m (omega arith)
            ∙ send_buffer_small (length (encode m)) s (encode m) small
            ∙ e,
        w,
      )

  -- On a line that takes bytes, a few at a time or all at once, `sendMessage` returns 1, and has put
  -- the message on the wire behind what was written before, for any message shorter than 2 GiB on
  -- the wire. As many calls of `write` suffice as the message has bytes.
  pub send-encode :
      (d : Takes line) (s : State) (m : Message)
      → length (encode m) < 2_147_483_648
      → (s' : State) × (send line (length (encode m)) s m ≡ returned (pos 1) s')
        × (d.written s' ≡ d.written s ++ encode m)
  send-encode d s m small =
      send-encode_up_to (length (encode m)) (takes_up_to (length (encode m)) d) s m small
        (omega arith)

  -- What follows a call of `write` that has failed at the start of the buffer.
  move_on-failed :
      (again : State → ℕ → ℕ → Effect State (Unit {0})) (n : ℕ) (s' : State) (e : ErrorCode)
      → n < 2_147_483_648
      → move_on line again 0 n (write_failed e, s')
        ≡ (if ltb (n + magnitude e) 2_147_483_648 then failed else returned (pos 1) s')
  unfolding move_on
  move_on-failed again n s' e hn = elim (dec_lt (n + magnitude e) 2_147_483_648) [
    | yes fits ↦ rw (
      lt→ltb (n + magnitude e) 2_147_483_648 fits,
      narrow_small (n + magnitude e) fits,
      lt→not-leb (magnitude e) 0 (magnitude-pos e),
      move_on,
    )
    | no over ↦ rw (
      le→not-ltb (n + magnitude e) 2_147_483_648 (omega arith),
      narrow_large (n + magnitude e) (omega arith) (omega (arith, magnitude_small e)),
      move_on,
    )
  ]

  -- If the first call of `write` fails, with whatever code, `sendMessage` does not return the error.
  -- Either it goes on with a pointer in front of its buffer, or, if the number of bytes and the size
  -- of the code are together 2^31 or more, it returns 1, although the write failed. The message is
  -- shorter than 2 GiB on the wire.
  pub send_write_failed :
      (fuel : ℕ) (s s' : State) (m : Message) (e : ErrorCode)
      → length (encode m) < 2_147_483_648
      → line.write s (encode m) ≡ (write_failed e, s')
      → send line (suc fuel) s m ≡ (
          if ltb (length (encode m) + magnitude e) 2_147_483_648
          then failed
          else returned (pos 1) s')
  unfolding send_loop
  send_write_failed fuel s s' m e small h =
      send-send_buffer (suc fuel) s m (omega arith)
      ∙ send_buffer_small (suc fuel) s (encode m) small
      ∙ first (length (encode m)) refl
      ∙ move_on-failed (send_loop line fuel (encode m)) (length (encode m)) s' e small
    where
      first :
          (n : ℕ)
          → n ≡ length (encode m)
          → send_loop line (suc fuel) (encode m) s 0 n
            ≡ move_on line (send_loop line fuel (encode m)) 0 n (write_failed e, s')
      first zero en = absurd (omega (arith, length-encode-pos m))
      first (suc n) en = rw (le→leb (0 + suc n) (length (encode m)) (omega arith)) (
          ap (λ t. move_on line (send_loop line fuel (encode m)) 0 (suc n) (line.write s t))
            (take_all (encode m) {n = suc n} (omega arith))
          ∙ ap (move_on line (send_loop line fuel (encode m)) 0 (suc n)) h)

  -- A message of 2 GiB up to 4 GiB on the wire is not sent at all: `sendMessage` returns 1 and makes
  -- no call of `write`.
  pub send_too_long :
      (fuel : ℕ) (s : State) (m : Message)
      → 2_147_483_648 ≤ length (encode m)
      → length (encode m) < 4_294_967_296
      → send line fuel s m ≡ returned (pos 1) s
  unfolding send_buffer
  send_too_long fuel s m long fits =
      send-send_buffer fuel s m (omega arith)
      ∙ rw (narrow_large (length (encode m)) long fits, send_buffer)
