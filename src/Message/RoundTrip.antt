-- ===== src/Message/RoundTrip.antt =====
-- `Message::readMessage` on what `writeMessage` wrote.
use native.Mathlib.Nat.{add-zero, zero-add}
use libcppio.Prelude.{
  ℕ, suc, ◌+◌, ◌^◌, ◌≤◌, ◌<◌, ◌≡◌, refl, sym, ap, ap₂, ◌∙◌, List, [], ◌∷◌, ◌++◌, length, drop, All,
  arith, length-append, length-drop, drop-append, drop-drop, append-nil, append_assoc, lt→ltb,
  le→not-ltb, le→leb, false,
}
use libcppio.Memory.{ok, IsByte, to_u32, bytes_of_u32, load_u32}
use libcppio.Memory.Words.{length-bytes_of_u32, first_u32-bytes_of_u32, to_u32-id}
use libcppio.Memory.Access.{load_at}
use libcppio.Message.{
  Frame, Message, frame_size, size, add_frame, exceeds, read_frames, read_message, write_message,
  empty_message,
}
use libcppio.Message.Wire.{
  frame_bytes, frames_bytes, encode, write_message-encode, length-frame_bytes,
  length-frames_bytes_cons, length-encode,
}

-- What the wire format can carry: counts and lengths that fit 32 bits, and frames of bytes.
pub record FrameFits (f : Frame) : Type 0 where
  pub short : frame_size f < 2 ^ 32
  pub bytes : All IsByte f.m_data

pub record Fits (m : Message) : Type 0 where
  pub few : size m < 2 ^ 32
  pub frames : All FrameFits m.m_frames

pub exceeds-false : (used len : ℕ) → len < 2 ^ 63 → used ≤ len → exceeds used len ≡ false
unfolding exceeds
exceeds-false used len h le = rw (lt→ltb len (2 ^ 63) h) (le→not-ltb len used le)

-- A word that stands at the pointer is loaded.
pub load_u32_at :
    (buffer : List ℕ) (cur v : ℕ) (rest : List ℕ)
    → v < 2 ^ 32
    → drop cur buffer ≡ bytes_of_u32 (to_u32 v) ++ rest
    → load_u32 buffer cur ≡ ok v
unfolding load_u32
load_u32_at buffer cur v rest h e = rw (e, to_u32-id v h) (first_u32-bytes_of_u32 v rest h)

-- Past what stands at the pointer comes the rest.
pub drop_past :
    (buffer : List ℕ) (cur : ℕ) (front rest : List ℕ) {n : ℕ}
    → drop cur buffer ≡ front ++ rest
    → n ≡ length front
    → drop (cur + n) buffer ≡ rest
drop_past buffer cur front rest {n} e en =
    sym (drop-drop n cur buffer) ∙ ap (drop n) e ∙ drop-append front rest en

pub drop_fits :
    (buffer : List ℕ) (cur : ℕ) (front rest : List ℕ)
    → cur ≤ length buffer
    → drop cur buffer ≡ front ++ rest
    → cur + length front + length rest ≡ length buffer
drop_fits buffer cur front rest h e =
    omega (arith, ap length e, length-drop cur buffer, length-append front rest)

module _ (buffer : List ℕ) (buffer_length : ℕ) (addressable : buffer_length < 2 ^ 63) where
  -- One round of the loop, where a whole frame stands at the pointer.
  pub read_frame :
      (k cur : ℕ) (msg : Message) (f : Frame) (rest : List ℕ)
      → frame_size f < 2 ^ 32
      → cur ≤ length buffer
      → cur + (frame_size f + 4) ≤ buffer_length
      → drop cur buffer ≡ frame_bytes f ++ rest
      → read_frames (suc k) buffer buffer_length cur msg
        ≡ read_frames k buffer buffer_length (cur + 4 + frame_size f) (add_frame msg f)
  unfolding read_frames frame_bytes
  read_frame k cur msg f rest short inside room e =
      rw (load_u32_at buffer cur (frame_size f) (f.m_data ++ rest) short at_word) (
        rw (exceeds-false (cur + 4 + frame_size f) buffer_length addressable (omega arith)) (
          rw (
            load_at buffer f.m_data rest (cur + 4) (frame_size f) at_data refl
              (omega (arith, len, drop_fits buffer cur head (f.m_data ++ rest) inside at_word)))))
    where
      head : List ℕ
      head = bytes_of_u32 (to_u32 (frame_size f))

      len : length head ≡ 4
      len = length-bytes_of_u32 (to_u32 (frame_size f))

      at_word : drop cur buffer ≡ head ++ (f.m_data ++ rest)
      at_word = e ∙ append_assoc head f.m_data rest

      at_data : drop (cur + 4) buffer ≡ f.m_data ++ rest
      at_data = drop_past buffer cur head (f.m_data ++ rest) at_word (sym len)

  -- The loop over whole frames: it adds them to the message, and goes on behind them.
  pub read_frames-append :
      (fs : List Frame) (k cur : ℕ) (msg : Message) (rest : List ℕ)
      → All FrameFits fs
      → cur ≤ length buffer
      → cur + length (frames_bytes fs) ≤ buffer_length
      → drop cur buffer ≡ frames_bytes fs ++ rest
      → read_frames (length fs + k) buffer buffer_length cur msg
        ≡ read_frames k buffer buffer_length
            (cur + length (frames_bytes fs))
            (record { m_frames = msg.m_frames ++ fs })
  read_frames-append [] k cur msg rest fits inside room e =
      unfold frames_bytes in rw (zero-add, add-zero, append-nil)
  read_frames-append (f ∷ fs) k cur msg rest fits inside room e = rw count (
      read_frame (length fs + k) cur msg f (frames_bytes fs ++ rest) fits.0.short inside
        (omega (arith, size_fs)) here
      ∙ read_frames-append fs k (cur + 4 + frame_size f) (add_frame msg f) rest fits.1
          (omega (
            arith,
            size_f,
            drop_fits buffer cur (frame_bytes f) (frames_bytes fs ++ rest) inside here,
          ))
          (omega (arith, size_fs)) next
      ∙ ap₂ (λ c ms. read_frames k buffer buffer_length c (record { m_frames = ms })) place
          (unfold add_frame in append_assoc msg.m_frames (f ∷ []) fs))
    where
      size_f : length (frame_bytes f) ≡ frame_size f + 4
      size_f = length-frame_bytes f

      size_fs : length (frames_bytes (f ∷ fs)) ≡ frame_size f + 4 + length (frames_bytes fs)
      size_fs = length-frames_bytes_cons f fs

      count : suc (length fs) + k ≡ suc (length fs + k)
      count = omega arith

      here : drop cur buffer ≡ frame_bytes f ++ (frames_bytes fs ++ rest)
      here = e ∙ unfold frames_bytes in append_assoc (frame_bytes f) (frames_bytes fs) rest

      place :
          cur + 4 + frame_size f + length (frames_bytes fs) ≡ cur + length (frames_bytes (f ∷ fs))
      place = omega (arith, size_fs)

      next : drop (cur + 4 + frame_size f) buffer ≡ frames_bytes fs ++ rest
      next =
          let s : cur + 4 + frame_size f ≡ cur + (frame_size f + 4) = omega arith in
          rw s (drop_past buffer cur (frame_bytes f) (frames_bytes fs ++ rest) here (sym size_f))

-- The frame count is read, and the loop starts behind it.
pub read_message_start :
    (buffer : List ℕ) (len n : ℕ) (rest : List ℕ)
    → n < 2 ^ 32
    → buffer ≡ bytes_of_u32 (to_u32 n) ++ rest
    → read_message buffer len ≡ read_frames n buffer len 4 empty_message
unfolding read_message
read_message_start buffer len n rest h e = rw (load_u32_at buffer 0 n rest h e)

-- A message that fits the wire format is read back from where `writeMessage` put it, whatever
-- follows it in the buffer, if the stated length covers the message and is below 2^63.
pub read_message-encode :
    (m : Message) (rest : List ℕ) (len : ℕ)
    → Fits m
    → length (encode m) ≤ len
    → len < 2 ^ 63
    → read_message (encode m ++ rest) len ≡ ok m
read_message-encode m rest len fits room addressable =
    read_message_start buffer len (size m) (frames_bytes m.m_frames ++ rest) fits.few start
    ∙ ap (λ k. read_frames k buffer len 4 empty_message) (sym (add-zero (size m)))
    ∙ read_frames-append buffer len addressable m.m_frames 0 4 empty_message rest fits.frames
        (omega (arith, length-append (encode m) rest, total)) (omega (arith, total))
        (drop_past buffer 0 head (frames_bytes m.m_frames ++ rest) start (sym len4))
    ∙ unfold read_frames in refl
  where
    buffer : List ℕ
    buffer = encode m ++ rest

    head : List ℕ
    head = bytes_of_u32 (to_u32 (size m))

    len4 : length head ≡ 4
    len4 = length-bytes_of_u32 (to_u32 (size m))

    total : length (encode m) ≡ length (frames_bytes m.m_frames) + 4
    total = length-encode m

    start : encode m ++ rest ≡ head ++ (frames_bytes m.m_frames ++ rest)
    start = unfold encode in append_assoc head (frames_bytes m.m_frames) rest

-- What `writeMessage` has put into a buffer that is large enough for the message, `readMessage` reads
-- back from there, for a message that fits the wire format, if the stated length covers the message
-- and is below 2^63; and `writeMessage` returns.
pub read_message-write_message :
    (m : Message) (target : List ℕ) (len : ℕ)
    → Fits m
    → length (encode m) ≤ length target
    → length (encode m) ≤ len
    → len < 2 ^ 63
    → (buffer : List ℕ) × (write_message m target ≡ ok buffer)
      × (length buffer ≡ length target)
      × (read_message buffer len ≡ ok m)
read_message-write_message m target len fits room covers addressable = (
  encode m ++ drop (length (encode m)) target,
  write_message-encode m target ∙ rw (le→leb (length (encode m)) (length target) room) refl,
  omega (
    arith,
    length-append (encode m) (drop (length (encode m)) target),
    length-drop (length (encode m)) target,
  ),
  read_message-encode m (drop (length (encode m)) target) len fits covers addressable,
)
