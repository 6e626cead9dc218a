-- ===== src/Message/Truncated.antt =====
-- `Message::readMessage` on a message that is cut off.
use libcppio.Prelude.{
  ℕ, suc, ◌+◌, ◌^◌, ◌<◌, ◌≡◌, refl, sym, ap, ◌∙◌, List, [], ◌∷◌, ◌++◌, length, drop, All, arith,
  length-append, drop-append, append-nil, append_assoc, true, ◌≢◌, All-append, All-take,
  take-append, take-append_short, take-append-drop, take, ◌≤◌, ◌⊎◌, inl, inr,
}
use libcppio.Memory.{ok, length_error, out_of_bounds, IsByte, to_u32, bytes_of_u32, load_u32}
use libcppio.Memory.Words.{length-bytes_of_u32, first_u32_short}
use libcppio.Message.{
  Frame, Message, frame_size, size, exceeds, read_frames, read_message, empty_message,
}
use libcppio.Message.Wire.{frame_bytes, frames_bytes, encode, length-encode}
use libcppio.Message.RoundTrip.{
  FrameFits, Fits, read_message-encode, read_frames-append, load_u32_at, drop_past,
  read_message_start,
}
use libcppio.Message.Parse.{read_message-inversion}

exceeds-true : (used len : ℕ) → len < used → exceeds used len ≡ true
unfolding exceeds
exceeds-true used len h = ground arith

-- A buffer in which only the first frames of a message are whole: the frame count says that `k + 1`
-- more follow, of which the buffer holds a part.
abbrev pub cut : List Frame → ℕ → List ℕ → List ℕ
cut fs k part = bytes_of_u32 (to_u32 (length fs + suc k)) ++ (frames_bytes fs ++ part)

module _ (fs : List Frame) (k : ℕ) (part : List ℕ) (few : length fs + suc k < 2 ^ 32)
    (fits : All FrameFits fs) where
  abbrev buffer : List ℕ
  buffer = cut fs k part

  -- `readMessage` reads the whole frames and comes to the part.
  read_message-cut :
      length buffer < 2 ^ 63
      → (read_message buffer (length buffer)
          ≡ read_frames
              (suc k)
              buffer
              (length buffer)
              (4 + length (frames_bytes fs))
              (record { m_frames = fs }))
        × (drop (4 + length (frames_bytes fs)) buffer ≡ part)
        × (length buffer ≡ 4 + length (frames_bytes fs) + length part)
  read_message-cut addressable = (
    read_message_start buffer (length buffer) (length fs + suc k) (frames_bytes fs ++ part) few refl
        ∙ read_frames-append buffer (length buffer) addressable fs (suc k) 4 empty_message part fits
            (omega (arith, sizes)) (omega (arith, sizes)) at_frames,
    drop_past buffer 4 (frames_bytes fs) part at_frames refl,
    sizes,
  )
    where
      head : List ℕ
      head = bytes_of_u32 (to_u32 (length fs + suc k))

      len4 : length head ≡ 4
      len4 = length-bytes_of_u32 (to_u32 (length fs + suc k))

      at_frames : drop 4 buffer ≡ frames_bytes fs ++ part
      at_frames = drop-append head (frames_bytes fs ++ part) (sym len4)

      sizes : length buffer ≡ 4 + length (frames_bytes fs) + length part
      sizes = omega (
        arith,
        len4,
        length-append head (frames_bytes fs ++ part),
        length-append (frames_bytes fs) part,
      )

  -- If the buffer ends inside the length word of a frame, `readMessage` reads past its end, though
  -- it was given the buffer's true length.
  pub read_message_in_word :
      length buffer < 2 ^ 63 → length part < 4 → read_message buffer (length buffer) ≡ out_of_bounds
  unfolding read_frames load_u32
  read_message_in_word addressable short =
      let (e, at_part, _) = read_message-cut addressable in
      e ∙ rw (at_part, first_u32_short part short)

-- If the buffer ends inside the bytes of a frame, `readMessage` throws `length_error`.
pub read_message_in_body :
    (fs : List Frame) (k n : ℕ) (body : List ℕ)
    → length fs + suc k < 2 ^ 32
    → All FrameFits fs
    → n < 2 ^ 32
    → length body < n
    → let buffer = cut fs k (bytes_of_u32 (to_u32 n) ++ body) in
      length buffer < 2 ^ 63 → read_message buffer (length buffer) ≡ length_error
unfolding read_frames
read_message_in_body fs k n body few fits hn short addressable =
    let part : List ℕ = bytes_of_u32 (to_u32 n) ++ body in
    let (e, at_part, sizes) = read_message-cut fs k part few fits addressable in
    e
    ∙ rw (load_u32_at (cut fs k part) (4 + length (frames_bytes fs)) n body hn at_part) (
        rw (
          exceeds-true (4 + length (frames_bytes fs) + 4 + n) (length (cut fs k part)) (
            omega (
              arith,
              sizes,
              length-append (bytes_of_u32 (to_u32 n)) body,
              length-bytes_of_u32 (to_u32 n),
            ))))

bytes_of_u32-IsByte : (v : ℕ) → All IsByte (bytes_of_u32 v)
unfolding bytes_of_u32
bytes_of_u32-IsByte v = omega arith

frames_bytes-IsByte : (fs : List Frame) → All FrameFits fs → All IsByte (frames_bytes fs)
unfolding frames_bytes frame_bytes
frames_bytes-IsByte [] h = tt
frames_bytes-IsByte (f ∷ fs) h =
    All-append IsByte _ (frame_bytes f)
      (All-append IsByte _ (bytes_of_u32 (to_u32 (frame_size f)))
        (bytes_of_u32-IsByte (to_u32 (frame_size f))) h.0.bytes)
      (frames_bytes-IsByte fs h.1)

pub encode-IsByte : (m : Message) → Fits m → All IsByte (encode m)
unfolding encode
encode-IsByte m h =
    All-append IsByte _ (bytes_of_u32 (to_u32 (size m))) (bytes_of_u32-IsByte (to_u32 (size m)))
      (frames_bytes-IsByte m.m_frames h.frames)

-- A message on the wire that another one on the wire begins is that message, and nothing follows.
pub encode-injective :
    (m m' : Message) (rest : List ℕ)
    → Fits m
    → Fits m'
    → length (encode m) < 2 ^ 63
    → encode m ≡ encode m' ++ rest
    → (m ≡ m') × (length rest ≡ 0)
encode-injective m m' rest fits fits' small e =
    (same, omega (arith, lengths, ap (λ (x : Message). length (encode x)) same))
  where
    lengths : length (encode m) ≡ length (encode m') + length rest
    lengths = ap length e ∙ length-append (encode m') rest

    first : read_message (encode m) (length (encode m)) ≡ ok m
    first =
        rw (append-nil (encode m)) at
          (read_message-encode m [] (length (encode m)) fits (omega arith) small)

    second : read_message (encode m) (length (encode m)) ≡ ok m'
    second =
        ap (λ b. read_message b (length (encode m))) e
        ∙ read_message-encode m' rest (length (encode m)) fits' (omega (arith, lengths)) small

    same : m ≡ m'
    same = cc (first, second)

-- From a proper prefix of a message on the wire that holds the frame count, `readMessage` never
-- returns a message, if it is given the prefix's true length, whatever bytes follow it in memory.
pub read_message_truncated :
    (m m' : Message) (front back after : List ℕ) (x : ℕ)
    → Fits m
    → length (encode m) < 2 ^ 63
    → encode m ≡ front ++ (x ∷ back)
    → 4 ≤ length front
    → All IsByte after
    → read_message (front ++ after) (length front) ≢ ok m'
unfolding frames_bytes
read_message_truncated m m' front back after x fits small e counted memory h =
    let (fits', whole, inside) =
      read_message-inversion (front ++ after) (length front)
        (All-append IsByte after front bytes memory) h in
    let front' = drop (length (encode m')) front in
    let begins : front ≡ encode m' ++ front' = front_begins (within inside) whole in
    let (_, none) =
      encode-injective m m' (front' ++ (x ∷ back)) fits fits' small
        (e ∙ ap (λ t. t ++ (x ∷ back)) begins ∙ append_assoc (encode m') front' (x ∷ back)) in
    absurd (omega (arith, none, length-append front' (x ∷ back)))
  where
    bytes : All IsByte front
    bytes =
        rw (take-append front (x ∷ back) {n = length front} refl) at
          (All-take IsByte (length front) (front ++ (x ∷ back)) (rw e at (encode-IsByte m fits)))

    within :
        (m'.m_frames ≡ []) ⊎ (length (encode m') ≤ length front) → length (encode m') ≤ length front
    within (inl none) =
        omega (arith, counted, length-encode m', ap (λ fs. length (frames_bytes fs)) none)
    within (inr fits_in) = fits_in

    -- What the buffer begins with, and is no longer than the prefix, the prefix begins with.
    front_begins :
        length (encode m') ≤ length front
        → front ++ after ≡ encode m' ++ drop (length (encode m')) (front ++ after)
        → front ≡ encode m' ++ drop (length (encode m')) front
    front_begins shorter whole =
        sym (take-append-drop (length (encode m')) front)
        ∙ ap (λ t. t ++ drop (length (encode m')) front)
            (sym (take-append_short (length (encode m')) front after shorter)
              ∙ ap (take (length (encode m'))) whole
              ∙ take-append (encode m') (drop (length (encode m')) (front ++ after)) refl)
