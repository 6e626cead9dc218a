-- ===== src/Message.antt =====
-- include/cppio/message.h and the Frame and Message parts of src/message.cpp. A message is a list
-- of frames, a frame is a vector of bytes. On the wire a message is its frame count and then each
-- frame's length and bytes, the numbers as 32-bit words.
pub mod Wire
pub mod RoundTrip
pub mod Parse
pub mod Truncated
pub mod Values
mod Tests
use libcppio.Prelude.{
  ℕ, zero, suc, ◌+◌, ◌%◌, ◌^◌, Bool, true, Option, none, some, List, [], ◌∷◌, ◌++◌, length, take,
  drop, get_elem?, leb, ltb, if◌then◌else◌,
}
use libcppio.Memory.{
  Outcome, ok, length_error, out_of_bounds, ◌>>=◌, add_size, to_u32, bytes_of_u8, bytes_of_u16,
  bytes_of_u32, first_u8, first_u16, first_u32, load_u32, load, store,
}

pub record Frame : Type 0 where
  pub m_data : List ℕ

pub record Message : Type 0 where
  pub m_frames : List Frame

abbrev pub frame_size : Frame → ℕ
frame_size f = length f.m_data

-- `Message::Message()`
abbrev pub empty_message : Message
empty_message = record { m_frames = [] }

-- `Message::clear`
unfoldable pub clear : Message → Message
clear m = record m { m_frames = [] }

-- `Message::addFrame`: `push_back`.
unfoldable pub add_frame : Message → Frame → Message
add_frame m f = record m { m_frames = m.m_frames ++ (f ∷ []) }

-- `Message::size`
abbrev pub size : Message → ℕ
size m = length m.m_frames

-- `Message::frame`: `operator[]` of the vector, unchecked.
unfoldable pub frame : Message → ℕ → Outcome Frame
frame m index = elim (get_elem? m.m_frames index) [ none ↦ out_of_bounds | some f ↦ ok f ]

-- The loop of `Message::messageSize`, with the sum so far.
unfoldable pub size_loop : List Frame → ℕ → ℕ
size_loop [] total = total
size_loop (f ∷ fs) total = size_loop fs (add_size total (add_size (frame_size f) 4))

unfoldable pub message_size : Message → ℕ
unfolding size_loop
message_size m = add_size (size_loop m.m_frames 0) 4

-- The loop of `Message::writeMessage`, which moves the pointer `b` over the buffer.
unfoldable pub write_frames : List Frame → List ℕ → ℕ → Outcome (List ℕ)
write_frames [] buffer b = ok buffer
write_frames (f ∷ fs) buffer b = do
  buffer' ← store buffer b (bytes_of_u32 (to_u32 (frame_size f)))
  buffer'' ← store buffer' (b + 4) f.m_data
  write_frames fs buffer'' (b + 4 + frame_size f)

-- `Message::writeMessage`: the buffer afterwards.
unfoldable pub write_message : Message → List ℕ → Outcome (List ℕ)
unfolding write_frames
write_message m buffer = do
  buffer' ← store buffer 0 (bytes_of_u32 (to_u32 (size m)))
  write_frames m.m_frames buffer' 4

-- `used > (ssize_t)bufferLength`: the cast makes a length from 2^63 on negative.
unfoldable pub exceeds : ℕ → ℕ → Bool
exceeds used buffer_length = if ltb buffer_length (2 ^ 63) then ltb buffer_length used else true

-- The loop of the static `Message::readMessage`, on the rounds left; `current` is the pointer, as
-- an offset from `start`.
unfoldable pub read_frames : ℕ → List ℕ → ℕ → ℕ → Message → Outcome Message
read_frames zero buffer buffer_length current msg = ok msg
read_frames (suc rounds) buffer buffer_length current msg = do
  n ← load_u32 buffer current
  let next = current + 4
  if exceeds (next + n) buffer_length then length_error else (do
    bytes ← load buffer next n
    let msg' = add_frame msg (record { m_data = bytes })
    read_frames rounds buffer buffer_length (next + n) msg')

-- The static `Message::readMessage`. The memory behind the pointer is `buffer`; `buffer_length` is
-- the length that the caller states.
unfoldable pub read_message : List ℕ → ℕ → Outcome Message
unfolding read_frames
read_message buffer buffer_length = do
  frames ← load_u32 buffer 0
  read_frames frames buffer buffer_length 4 empty_message

-- `Frame::fromValue`, for each type that it is overloaded for.
unfoldable pub from_u8 : ℕ → Frame
from_u8 v = record { m_data = bytes_of_u8 v }

unfoldable pub from_u16 : ℕ → Frame
from_u16 v = record { m_data = bytes_of_u16 v }

unfoldable pub from_u32 : ℕ → Frame
from_u32 v = record { m_data = bytes_of_u32 v }

unfoldable pub from_string : List ℕ → Frame
from_string s = record { m_data = s }

-- `Message::get`, for each type that it is overloaded for.
unfoldable pub get_u8 : Message → ℕ → Outcome ℕ
get_u8 m index = frame m index >>= λ f. first_u8 f.m_data

unfoldable pub get_u16 : Message → ℕ → Outcome ℕ
get_u16 m index = frame m index >>= λ f. first_u16 f.m_data

unfoldable pub get_u32 : Message → ℕ → Outcome ℕ
get_u32 m index = frame m index >>= λ f. first_u32 f.m_data

unfoldable pub get_string : Message → ℕ → Outcome (List ℕ)
get_string m index = frame m index >>= λ f. ok f.m_data
