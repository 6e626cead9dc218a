-- ===== src/Message/Tests.antt =====
-- The inputs of tests/message_test.cpp, and the theorems at concrete inputs.
use libcppio.Prelude.{
  replicate, ℕ, ◌≡◌, ◌≢◌, ◌⊎◌, ◌≤◌, refl, List, [], ◌∷◌, ◌++◌, length, drop, arith,
}
use libcppio.Memory.{
  ok, length_error, out_of_bounds, store, load, load_u32, first_u32, bytes_of_u32, to_u32,
}
use libcppio.Message.{
  Frame, Message, message_size, write_message, read_message, write_message, add_frame, get_u8,
  get_u16, get_u32, get_string, from_u8, from_u16, from_u32, from_string, exceeds, empty_message,
}
use libcppio.Message.Wire.{encode, frame_bytes, frames_bytes, message_size-length}
use libcppio.Message.RoundTrip.{Fits, FrameFits, read_message-write_message}
use libcppio.Message.Parse.{read_message-inversion}
use libcppio.Message.Truncated.{read_message_in_word, read_message_in_body, read_message_truncated}
use libcppio.Message.Values.{get-from_value}

abbrev four_bytes : Frame
four_bytes = record { m_data = 1 ∷ 2 ∷ 3 ∷ 4 ∷ [] }

abbrev one_frame : Message
one_frame = record { m_frames = four_bytes ∷ [] }

abbrev one_frame_wire : List ℕ
one_frame_wire = 1 ∷ 0 ∷ 0 ∷ 0 ∷ 4 ∷ 0 ∷ 0 ∷ 0 ∷ 1 ∷ 2 ∷ 3 ∷ 4 ∷ []

size-one_frame : message_size one_frame ≡ 12
unfolding message_size
size-one_frame = refl

encode-one_frame : encode one_frame ≡ one_frame_wire
unfolding encode frame_bytes bytes_of_u32 to_u32
encode-one_frame = refl

write-one_frame :
    write_message one_frame (9 ∷ 9 ∷ 9 ∷ 9 ∷ 9 ∷ 9 ∷ 9 ∷ 9 ∷ 9 ∷ 9 ∷ 9 ∷ 9 ∷ 7 ∷ [])
    ≡ ok (one_frame_wire ++ (7 ∷ []))
unfolding write_message store bytes_of_u32 to_u32
write-one_frame = refl

read-two_frames :
    read_message
      (2 ∷ 0 ∷ 0 ∷ 0 ∷ 4 ∷ 0 ∷ 0 ∷ 0 ∷ 1 ∷ 2 ∷ 3 ∷ 4 ∷ 2 ∷ 0 ∷ 0 ∷ 0 ∷ 0x55 ∷ 0xaa ∷ [])
      18
    ≡ ok (record { m_frames = four_bytes ∷ record { m_data = 0x55 ∷ 0xaa ∷ [] } ∷ [] })
unfolding read_message load_u32 load first_u32 add_frame exceeds
read-two_frames = refl

-- Not even the frame count is there.
read-empty_buffer : read_message [] 0 ≡ out_of_bounds
unfolding read_message load_u32 first_u32
read-empty_buffer = refl

four_bytes-Fits : FrameFits four_bytes
four_bytes-Fits = record { short = omega arith; bytes = omega arith }

one_frame-Fits : Fits one_frame
one_frame-Fits = record { few = omega arith; frames = (four_bytes-Fits, tt) }

message_size-length_example : message_size one_frame ≡ 12
unfolding encode frame_bytes bytes_of_u32 to_u32
message_size-length_example = message_size-length one_frame (omega arith)

read_message-write_message_example :
    (buffer : List ℕ) × (write_message one_frame (replicate 14 9) ≡ ok buffer)
    × (length buffer ≡ 14)
    × (read_message buffer 13 ≡ ok one_frame)
unfolding encode frame_bytes bytes_of_u32 to_u32
read_message-write_message_example =
    read_message-write_message one_frame (replicate 14 9) 13 one_frame-Fits (omega arith)
      (omega arith) (omega arith)

read_message-inversion_example :
    Fits one_frame
    × (one_frame_wire ≡ encode one_frame ++ drop (length (encode one_frame)) one_frame_wire)
    × ((one_frame.m_frames ≡ []) ⊎ (length (encode one_frame) ≤ 12))
read_message-inversion_example =
    read_message-inversion one_frame_wire 12 (omega arith)
      (unfold read_message load_u32 load first_u32 add_frame exceeds in refl)

read_message_in_word_example :
    read_message (2 ∷ 0 ∷ 0 ∷ 0 ∷ 4 ∷ 0 ∷ 0 ∷ 0 ∷ 1 ∷ 2 ∷ 3 ∷ 4 ∷ 5 ∷ []) 13 ≡ out_of_bounds
unfolding frame_bytes frames_bytes bytes_of_u32 to_u32
read_message_in_word_example =
    read_message_in_word (four_bytes ∷ []) 0 (5 ∷ []) (omega arith) (four_bytes-Fits, tt)
      (omega arith) (omega arith)

read_message_in_body_example :
    read_message (1 ∷ 0 ∷ 0 ∷ 0 ∷ 4 ∷ 0 ∷ 0 ∷ 0 ∷ 1 ∷ 2 ∷ []) 10 ≡ length_error
unfolding frames_bytes bytes_of_u32 to_u32
read_message_in_body_example =
    read_message_in_body [] 0 4 (1 ∷ 2 ∷ []) (omega arith) tt (omega arith) (omega arith)
      (omega arith)

read_message_truncated_example :
    read_message ((1 ∷ 0 ∷ 0 ∷ 0 ∷ 4 ∷ 0 ∷ 0 ∷ 0 ∷ 1 ∷ 2 ∷ 3 ∷ []) ++ (0 ∷ 0 ∷ [])) 11
    ≢ ok empty_message
unfolding encode frame_bytes bytes_of_u32 to_u32
read_message_truncated_example =
    read_message_truncated one_frame empty_message (1 ∷ 0 ∷ 0 ∷ 0 ∷ 4 ∷ 0 ∷ 0 ∷ 0 ∷ 1 ∷ 2 ∷ 3 ∷ [])
      [] (0 ∷ 0 ∷ []) 4 one_frame-Fits (omega arith) refl (omega arith) (omega arith)

get-from_value_example :
    (get_u8 (add_frame one_frame (from_u8 200)) 1 ≡ ok 200)
    × (get_u16 (add_frame one_frame (from_u16 40_000)) 1 ≡ ok 40_000)
    × (get_u32 (add_frame one_frame (from_u32 3_000_000_000)) 1 ≡ ok 3_000_000_000)
    × (get_string (add_frame one_frame (from_string (104 ∷ 105 ∷ []))) 1 ≡ ok (104 ∷ 105 ∷ []))
get-from_value_example =
    get-from_value one_frame 200 40_000 3_000_000_000 (104 ∷ 105 ∷ []) (omega arith) (omega arith)
      (omega arith)
