-- ===== src/Message/Wire.antt =====
-- The wire format as a plain function, and `writeMessage` and `messageSize` against it.
use libcppio.Prelude.{
  ℕ, ◌+◌, ◌^◌, ◌≤◌, ◌<◌, ◌≡◌, refl, sym, ap, ◌∙◌, List, [], ◌∷◌, ◌++◌, length, drop, arith, leb,
  if◌then◌else◌, le→leb, lt→not-leb, length-append,
}
use native.Mathlib.Decide.{dec_le}
use native.Mathlib.Nat.{zero-add}
use libcppio.Memory.{ok, out_of_bounds, add_size, to_u32, bytes_of_u32}
use libcppio.Memory.Words.{length-bytes_of_u32}
use libcppio.Memory.Access.{patch, patch-nil, patch-patch, length-patch, store-patch, store_outside}
use libcppio.Message.{
  Frame, Message, frame_size, size, size_loop, message_size, write_frames, write_message,
}

-- A frame on the wire, and the frames of a message.
unfoldable pub frame_bytes : Frame → List ℕ
frame_bytes f = bytes_of_u32 (to_u32 (frame_size f)) ++ f.m_data

unfoldable pub frames_bytes : List Frame → List ℕ
frames_bytes [] = []
frames_bytes (f ∷ fs) = frame_bytes f ++ frames_bytes fs

-- What a message is on the wire.
unfoldable pub encode : Message → List ℕ
unfolding frames_bytes
encode m = bytes_of_u32 (to_u32 (size m)) ++ frames_bytes m.m_frames

pub length-frame_bytes : (f : Frame) → length (frame_bytes f) ≡ frame_size f + 4
unfolding frame_bytes
length-frame_bytes f = omega (
  arith,
  length-append (bytes_of_u32 (to_u32 (frame_size f))) f.m_data,
  length-bytes_of_u32 (to_u32 (frame_size f)),
)

pub length-frames_bytes_cons :
    (f : Frame) (fs : List Frame)
    → length (frames_bytes (f ∷ fs)) ≡ frame_size f + 4 + length (frames_bytes fs)
unfolding frames_bytes
length-frames_bytes_cons f fs =
    omega (arith, length-append (frame_bytes f) (frames_bytes fs), length-frame_bytes f)

pub length-encode : (m : Message) → length (encode m) ≡ length (frames_bytes m.m_frames) + 4
unfolding encode
length-encode m = omega (
  arith,
  length-append (bytes_of_u32 (to_u32 (size m))) (frames_bytes m.m_frames),
  length-bytes_of_u32 (to_u32 (size m)),
)

size_loop-length :
    (fs : List Frame) (total : ℕ)
    → total + length (frames_bytes fs) < 2 ^ 64
    → size_loop fs total ≡ total + length (frames_bytes fs)
unfolding size_loop
size_loop-length [] total h = unfold frames_bytes in omega arith
size_loop-length (f ∷ fs) total h =
    let e : add_size total (add_size (frame_size f) 4) ≡ total + (frame_size f + 4) =
      omega (arith, length-frames_bytes_cons f fs) in
    rw e (
      omega
        (arith, length-frames_bytes_cons f fs, size_loop-length fs (total + (frame_size f + 4))))

-- `messageSize` is the length of the message on the wire, if that fits a `size_t`.
pub message_size-length :
    (m : Message) → length (encode m) < 2 ^ 64 → message_size m ≡ length (encode m)
unfolding message_size
message_size-length m h =
    omega (arith, length-encode m, size_loop-length m.m_frames 0 (omega (arith, length-encode m)))

-- One round of the loop, in a buffer with room for the frame.
write_frame-patch :
    (f : Frame) (fs : List Frame) (buffer : List ℕ) (b : ℕ)
    → b + (frame_size f + 4) ≤ length buffer
    → write_frames (f ∷ fs) buffer b
      ≡ write_frames fs (patch buffer b (frame_bytes f)) (b + 4 + frame_size f)
unfolding write_frames frame_bytes
write_frame-patch f fs buffer b h = rw (store-patch buffer b head (omega (arith, len))) (
    rw
      (store-patch (patch buffer b head) (b + 4) f.m_data
        (omega (arith, len, length-patch buffer b head)))
      (ap (λ t. write_frames fs t (b + 4 + frame_size f))
        (patch-patch buffer b head f.m_data (omega (arith, len)) (omega (arith, len)))))
  where
    head : List ℕ
    head = bytes_of_u32 (to_u32 (frame_size f))

    len : length head ≡ 4
    len = length-bytes_of_u32 (to_u32 (frame_size f))

write_frames-patch :
    (fs : List Frame) (buffer : List ℕ) (b : ℕ)
    → b + length (frames_bytes fs) ≤ length buffer
    → write_frames fs buffer b ≡ ok (patch buffer b (frames_bytes fs))
write_frames-patch [] buffer b h =
    unfold write_frames frames_bytes in ap ok (sym (patch-nil buffer b))
write_frames-patch (f ∷ fs) buffer b h =
    write_frame-patch f fs buffer b (omega (arith, size_fs))
    ∙ write_frames-patch fs (patch buffer b (frame_bytes f)) (b + 4 + frame_size f)
        (omega (arith, size_fs, size_f, length-patch buffer b (frame_bytes f)))
    ∙ ap ok (
        patch-patch buffer b (frame_bytes f) (frames_bytes fs) (omega (arith, size_fs, size_f))
          (omega (arith, size_f))
        ∙ ap (patch buffer b) (unfold frames_bytes in refl))
  where
    size_f : length (frame_bytes f) ≡ frame_size f + 4
    size_f = length-frame_bytes f

    size_fs : length (frames_bytes (f ∷ fs)) ≡ frame_size f + 4 + length (frames_bytes fs)
    size_fs = length-frames_bytes_cons f fs

write_frames_outside :
    (fs : List Frame) (buffer : List ℕ) (b : ℕ)
    → b ≤ length buffer
    → length buffer < b + length (frames_bytes fs)
    → write_frames fs buffer b ≡ out_of_bounds
write_frames_outside [] buffer b hb h = unfold frames_bytes in absurd (omega arith)
write_frames_outside (f ∷ fs) buffer b hb h =
    elim (dec_le (b + (frame_size f + 4)) (length buffer)) [
      | yes room ↦
          write_frame-patch f fs buffer b room
          ∙ write_frames_outside fs (patch buffer b (frame_bytes f)) (b + 4 + frame_size f)
              (omega (arith, size_f, length-patch buffer b (frame_bytes f)))
              (omega (arith, size_f, size_fs, length-patch buffer b (frame_bytes f)))
      | no full ↦
          unfold write_frames in
          elim (dec_le (b + 4) (length buffer)) [
            | yes room ↦ rw (store-patch buffer b head (omega (arith, len))) (
                rw (
                  store_outside (patch buffer b head) (b + 4) f.m_data
                    (omega (arith, len, length-patch buffer b head))))
            | no full' ↦ rw (store_outside buffer b head (omega (arith, len)))
          ]
    ]
  where
    head : List ℕ
    head = bytes_of_u32 (to_u32 (frame_size f))

    len : length head ≡ 4
    len = length-bytes_of_u32 (to_u32 (frame_size f))

    size_f : length (frame_bytes f) ≡ frame_size f + 4
    size_f = length-frame_bytes f

    size_fs : length (frames_bytes (f ∷ fs)) ≡ frame_size f + 4 + length (frames_bytes fs)
    size_fs = length-frames_bytes_cons f fs

-- `writeMessage` into a buffer with room for the message overwrites the front of the buffer by
-- the message on the wire and leaves the rest as it was; into a shorter buffer it writes out of
-- bounds.
pub write_message-encode :
    (m : Message) (buffer : List ℕ)
    → write_message m buffer ≡ (
        if leb (length (encode m)) (length buffer)
        then ok (encode m ++ drop (length (encode m)) buffer)
        else out_of_bounds)
unfolding write_message
write_message-encode m buffer = elim (dec_le (length (encode m)) (length buffer)) [
  | yes room ↦ rw (le→leb _ _ room) (
      rw (store-patch buffer 0 head (omega (arith, len, total))) (
        write_frames-patch m.m_frames (patch buffer 0 head) 4
          (omega (arith, len, total, length-patch buffer 0 head))
        ∙ ap ok (
            patch-patch buffer 0 head (frames_bytes m.m_frames) {next = 4}
              (omega (arith, len, total)) (omega (arith, len))
            ∙ whole)))
  | no full ↦
      rw (lt→not-leb (length (encode m)) (length buffer) (omega arith))
        (elim (dec_le 4 (length buffer)) [
          | yes room ↦ rw (store-patch buffer 0 head (omega (arith, len))) (
              write_frames_outside m.m_frames (patch buffer 0 head) 4
                (omega (arith, len, length-patch buffer 0 head))
                (omega (arith, len, total, length-patch buffer 0 head)))
          | no full' ↦ rw (store_outside buffer 0 head (omega (arith, len)))
        ])
]
  where
    head : List ℕ
    head = bytes_of_u32 (to_u32 (size m))

    len : length head ≡ 4
    len = length-bytes_of_u32 (to_u32 (size m))

    total : length (encode m) ≡ length (frames_bytes m.m_frames) + 4
    total = length-encode m

    whole :
        patch buffer 0 (head ++ frames_bytes m.m_frames)
        ≡ encode m ++ drop (length (encode m)) buffer
    whole = unfold encode in rw (zero-add (length (head ++ frames_bytes m.m_frames)))
