-- ===== src/Protocol/Tests.antt =====
-- A line that moves at most three bytes a call, a line that is broken, and the theorems on them.
use libcppio.Prelude.{
  ℕ, ◌≤◌, ◌<◌, ◌≡◌, ◌≢◌, refl, sym, List, [], ◌∷◌, ◌++◌, length, take, drop, min, arith,
  length-take, take-append-drop,
}
use libcppio.Prelude.Int.{pos}
use libcppio.Memory.{to_u32, bytes_of_u32, first_u32}
use libcppio.Line.{
  magnitude, IoLine, Delivers, Takes, ErrorCode, connection_lost, too_big_buffer, Received,
  received, read_failed, accepted, write_failed,
}
use libcppio.Message.{Message, Frame, empty_message, add_frame}
use libcppio.Message.Wire.{encode, frame_bytes}
use libcppio.Message.RoundTrip.{Fits}
use libcppio.Protocol.{returned, failed, receive, send}
use libcppio.Protocol.Receive.{receive-encode}
use libcppio.Protocol.Cut.{EndsByError, receive_cut}
use libcppio.Protocol.Send.{send-encode, send_write_failed}

-- The state of the line is what was written and not yet read.
abbrev give_three : List ℕ → ℕ → Received × List ℕ
give_three [] n = (read_failed connection_lost, [])
give_three (b ∷ bs) n = (received (take (min 3 n) (b ∷ bs)), drop (min 3 n) (b ∷ bs))

abbrev three_bytes : IoLine
three_bytes = record {
  State = List ℕ;
  read = give_three;
  write = λ s bs. (accepted (min 3 (length bs)), s ++ take (min 3 (length bs)) bs);
}

give_three_some :
    (s : List ℕ) (n : ℕ)
    → 0 < n
    → s ≢ []
    → (bs : List ℕ) × (s' : List ℕ) × (give_three s n ≡ (received bs, s'))
      × (0 < length bs)
      × (length bs ≤ n)
      × (length bs < 2_147_483_648)
      × (s ≡ bs ++ s')
give_three_some [] n h ne = absurd (ne refl)
give_three_some (b ∷ bs) n h ne = (
  take (min 3 n) (b ∷ bs),
  drop (min 3 n) (b ∷ bs),
  refl,
  omega (arith, length-take (min 3 n) (b ∷ bs)),
  omega (arith, length-take (min 3 n) (b ∷ bs)),
  omega (arith, length-take (min 3 n) (b ∷ bs)),
  sym (take-append-drop (min 3 n) (b ∷ bs)),
)

give_three_end :
    (s : List ℕ) (n : ℕ)
    → 0 < n
    → s ≡ []
    → (e : ErrorCode) × (s' : List ℕ) × (give_three s n ≡ (read_failed e, s'))
give_three_end [] n h e = (connection_lost, [], refl)
give_three_end (b ∷ bs) n h e = cc

abbrev three_bytes-Delivers : Delivers three_bytes
three_bytes-Delivers = record {
  pending = λ s. s;
  read_some = give_three_some;
  read_end = give_three_end;
}

not-nil : (bs : List ℕ) → bs ≢ [] → 0 < length bs
not-nil [] h = absurd (h refl)
not-nil (b ∷ bs) h = omega arith

take_three :
    (s bs : List ℕ)
    → bs ≢ []
    → (n : ℕ) × (s' : List ℕ) × (three_bytes.write s bs ≡ (accepted n, s'))
      × (0 < n)
      × (n ≤ length bs)
      × (s' ≡ s ++ take n bs)
take_three s bs ne = (
  min 3 (length bs),
  s ++ take (min 3 (length bs)) bs,
  refl,
  omega (arith, not-nil bs ne),
  omega arith,
  refl,
)

abbrev three_bytes-Takes : Takes three_bytes
three_bytes-Takes = record { written = λ s. s; write_some = take_three }

-- A line whose `write` always fails.
abbrev broken : IoLine
broken = record {
  State = ℕ;
  read = λ s n. (read_failed connection_lost, s);
  write = λ s bs. (write_failed too_big_buffer, s);
}

abbrev five_bytes : Frame
five_bytes = record { m_data = 1 ∷ 2 ∷ 3 ∷ 4 ∷ 5 ∷ [] }

abbrev greeting : Message
greeting = record { m_frames = five_bytes ∷ [] }

abbrev greeting_wire : List ℕ
greeting_wire = 1 ∷ 0 ∷ 0 ∷ 0 ∷ 5 ∷ 0 ∷ 0 ∷ 0 ∷ 1 ∷ 2 ∷ 3 ∷ 4 ∷ 5 ∷ []

greeting-Fits : Fits greeting
greeting-Fits = record {
  few = omega arith;
  frames = (record { short = omega arith; bytes = omega arith }, tt);
}

receive_runs :
    receive three_bytes (greeting_wire ++ (9 ∷ [])) empty_message
    ≡ returned (pos 1) (9 ∷ [], greeting)
unfolding receive first_u32 add_frame
receive_runs = refl

receive-encode_example :
    (s' : List ℕ) × (receive three_bytes (greeting_wire ++ (9 ∷ [])) empty_message
      ≡ returned (pos 1) (s', greeting))
    × (s' ≡ 9 ∷ [])
unfolding encode frame_bytes bytes_of_u32 to_u32
receive-encode_example =
    receive-encode three_bytes three_bytes-Delivers (greeting_wire ++ (9 ∷ [])) greeting (9 ∷ [])
      greeting-Fits refl

receive_cut_example :
    EndsByError three_bytes three_bytes-Delivers
      (receive three_bytes (1 ∷ 0 ∷ 0 ∷ 0 ∷ 5 ∷ 0 ∷ 0 ∷ 0 ∷ 1 ∷ 2 ∷ []) empty_message)
unfolding encode frame_bytes bytes_of_u32 to_u32
receive_cut_example =
    receive_cut three_bytes three_bytes-Delivers (1 ∷ 0 ∷ 0 ∷ 0 ∷ 5 ∷ 0 ∷ 0 ∷ 0 ∷ 1 ∷ 2 ∷ [])
      greeting 3 (4 ∷ 5 ∷ []) greeting-Fits refl

send-encode_example :
    (s' : List ℕ) × (send three_bytes (length (encode greeting)) (9 ∷ []) greeting
      ≡ returned (pos 1) s')
    × (s' ≡ (9 ∷ []) ++ encode greeting)
unfolding encode frame_bytes bytes_of_u32 to_u32
send-encode_example = send-encode three_bytes three_bytes-Takes (9 ∷ []) greeting (omega arith)

send_write_failed_example : send broken 5 0 greeting ≡ failed
unfolding encode frame_bytes bytes_of_u32 to_u32 magnitude
send_write_failed_example =
    send_write_failed broken 4 0 0 greeting too_big_buffer (omega arith) refl
