-- ===== src/Message/Parse.antt =====
-- What a successful `Message::readMessage` says of the buffer: it held a message on the wire.
use native.Mathlib.Nat.{add-zero}
use libcppio.Prelude.{
  ℕ, zero, suc, ◌+◌, ◌^◌, ◌≤◌, ◌<◌, ◌≡◌, refl, sym, ap, ap₂, ◌∙◌, ◌⊎◌, inl, inr, List, [], ◌∷◌,
  ◌++◌, length, take, drop, All, All-drop, All-take, arith, length-drop, length-take, drop-drop,
  append-nil, append_assoc, take-append-drop, Bool-cases, if◌then◌else◌, false,
}
use libcppio.Memory.{
  Outcome, ok, length_error, out_of_bounds, out_of_fuel, ◌>>=◌, IsByte, to_u32, bytes_of_u32,
  first_u32, load_u32, load,
}
use libcppio.Memory.Words.{first_u32-inversion, to_u32-id}
use libcppio.Message.{
  Frame, Message, frame_size, size, add_frame, exceeds, read_frames, read_message, empty_message,
}
use libcppio.Message.Wire.{
  frame_bytes, frames_bytes, encode, length-frames_bytes_cons, length-encode,
}
use libcppio.Message.RoundTrip.{FrameFits, Fits}

-- A step that is followed by others to a value has itself a value.
step-ok {ℓ κ} :
    {A : Type ℓ} {B : Type κ} (next : A → Outcome B) (b : B) (step : Outcome A)
    → (step >>= next) ≡ ok b
    → (a : A) × (step ≡ ok a) × (next a ≡ ok b)
step-ok next b out_of_fuel e = cc
step-ok next b out_of_bounds e = cc
step-ok next b length_error e = cc
step-ok next b (ok a) e = (a, refl, e)

load-inversion :
    (buffer : List ℕ) (offset n : ℕ) {bytes : List ℕ}
    → load buffer offset n ≡ ok bytes
    → (bytes ≡ take n (drop offset buffer)) × (offset + n ≤ length buffer)
unfolding load
load-inversion buffer offset n h = ground arith

not-exceeds : (used len : ℕ) → exceeds used len ≡ false → used ≤ len
unfolding exceeds
not-exceeds used len h = ground arith

-- What one round found: a whole frame at the pointer.
record Round (buffer : List ℕ) (len cur : ℕ) (f : Frame) : Type 0 where
  here : drop cur buffer ≡ frame_bytes f ++ drop (cur + 4 + frame_size f) buffer
  fits : FrameFits f
  room : cur + 4 + frame_size f ≤ len

-- The frame between the word and the pointer of the next round.
word_Round :
    (buffer : List ℕ) (len cur n : ℕ) (f : Frame)
    → All IsByte buffer
    → load_u32 buffer cur ≡ ok n
    → exceeds (cur + 4 + n) len ≡ false
    → load buffer (cur + 4) n ≡ ok f.m_data
    → (n ≡ frame_size f) × Round buffer len cur f
unfolding load_u32
word_Round buffer len cur n f bs eword fine eload = (
  size_n,
  record {
    here =
        word.0
        ∙ ap₂ (λ v t. bytes_of_u32 v ++ t)
            (size_n ∙ sym (to_u32-id (frame_size f) (omega (arith, word.1, size_n)))) behind
        ∙ unfold frame_bytes in
          sym (
            append_assoc (bytes_of_u32 (to_u32 (frame_size f))) f.m_data
              (drop (cur + 4 + frame_size f) buffer));
    fits = record {
      short = omega (arith, word.1, size_n);
      bytes =
          rw loaded.0
            (All-take IsByte n (drop (cur + 4) buffer) (All-drop IsByte (cur + 4) buffer bs));
    };
    room = omega (arith, size_n, not-exceeds (cur + 4 + n) len fine);
  },
)
  where
    word :
        (drop cur buffer ≡ bytes_of_u32 n ++ drop 4 (drop cur buffer))
        × (n < 2 ^ 32)
        × (4 ≤ length (drop cur buffer))
    word = first_u32-inversion (drop cur buffer) (All-drop IsByte cur buffer bs) eword

    loaded : (f.m_data ≡ take n (drop (cur + 4) buffer)) × (cur + 4 + n ≤ length buffer)
    loaded = load-inversion buffer (cur + 4) n eload

    size_n : n ≡ frame_size f
    size_n = omega (
      arith,
      loaded.1,
      ap length loaded.0,
      length-take n (drop (cur + 4) buffer),
      length-drop (cur + 4) buffer,
    )

    behind : drop 4 (drop cur buffer) ≡ f.m_data ++ drop (cur + 4 + frame_size f) buffer
    behind =
        drop-drop 4 cur buffer
        ∙ sym (take-append-drop n (drop (cur + 4) buffer))
        ∙ ap₂ ◌++◌ (sym loaded.0)
            (drop-drop n (cur + 4) buffer ∙ ap (λ k. drop (cur + 4 + k) buffer) size_n)

-- A round that goes on has read a whole frame.
read_frame_inversion :
    (buffer : List ℕ) (len k cur : ℕ) (msg : Message) {m : Message}
    → All IsByte buffer
    → read_frames (suc k) buffer len cur msg ≡ ok m
    → (f : Frame) × Round buffer len cur f
      × (read_frames k buffer len (cur + 4 + frame_size f) (add_frame msg f) ≡ ok m)
unfolding read_frames
read_frame_inversion buffer len k cur msg {m} bs h =
    let (n, eword, h') = step-ok _ m (load_u32 buffer cur) h in after_word n eword h'
  where
    after_load :
        (n : ℕ) (bytes : List ℕ)
        → load_u32 buffer cur ≡ ok n
        → exceeds (cur + 4 + n) len ≡ false
        → load buffer (cur + 4) n ≡ ok bytes
        → read_frames k buffer len (cur + 4 + n) (add_frame msg (record { m_data = bytes })) ≡ ok m
        → (f : Frame) × Round buffer len cur f
          × (read_frames k buffer len (cur + 4 + frame_size f) (add_frame msg f) ≡ ok m)
    after_load n bytes eword fine eload h'' =
        let f : Frame = record { m_data = bytes } in
        let (e, r) = word_Round buffer len cur n f bs eword fine eload in (f, r, rw (← e) h'')

    after_word :
        (n : ℕ)
        → load_u32 buffer cur ≡ ok n
        → (if exceeds (cur + 4 + n) len
            then length_error
            else (load buffer (cur + 4) n >>= λ bytes.
                read_frames k buffer len (cur + 4 + n) (add_frame msg (record { m_data = bytes }))))
          ≡ ok m
        → (f : Frame) × Round buffer len cur f
          × (read_frames k buffer len (cur + 4 + frame_size f) (add_frame msg f) ≡ ok m)
    after_word n eword h' = elim (Bool-cases (exceeds (cur + 4 + n) len)) [
      | inl over ↦ cc (rw over at h')
      | inr fine ↦
          let (bytes, eload, h'') = step-ok _ m (load buffer (cur + 4) n) (rw fine at h') in
          after_load n bytes eword fine eload h''
    ]

-- What `k` rounds found: `k` whole frames, one behind the other.
record Rounds (buffer : List ℕ) (len k cur : ℕ) (msg m : Message) (fs : List Frame) : Type 0 where
  added : m.m_frames ≡ msg.m_frames ++ fs
  count : length fs ≡ k
  here : drop cur buffer ≡ frames_bytes fs ++ drop (cur + length (frames_bytes fs)) buffer
  fits : All FrameFits fs
  room : (k ≡ 0) ⊎ (cur + length (frames_bytes fs) ≤ len)

length-frames_bytes_none : (fs : List Frame) → length fs ≡ 0 → length (frames_bytes fs) ≡ 0
unfolding frames_bytes
length-frames_bytes_none [] h = refl
length-frames_bytes_none (f ∷ fs) h = absurd (omega arith)

-- A round in front of the others.
Rounds-cons :
    (buffer : List ℕ) (len k cur : ℕ) (msg m : Message) (f : Frame) (fs : List Frame)
    → Round buffer len cur f
    → Rounds buffer len k (cur + 4 + frame_size f) (add_frame msg f) m fs
    → Rounds buffer len (suc k) cur msg m (f ∷ fs)
Rounds-cons buffer len k cur msg m f fs r rs = record {
  added = rs.added ∙ unfold add_frame in append_assoc msg.m_frames (f ∷ []) fs;
  count = omega (arith, rs.count);
  here =
      r.here
      ∙ ap (◌++◌ (frame_bytes f)) (rs.here ∙ ap (λ n. frames_bytes fs ++ drop n buffer) place)
      ∙ unfold frames_bytes in
        sym (
          append_assoc (frame_bytes f) (frames_bytes fs)
            (drop (cur + length (frames_bytes (f ∷ fs))) buffer));
  fits = (r.fits, rs.fits);
  room = inr (elim rs.room [
    | inl none ↦
        omega (arith, size_fs, r.room, length-frames_bytes_none fs (omega (arith, rs.count)))
    | inr some ↦ omega (arith, size_fs)
  ]);
}
  where
    size_fs : length (frames_bytes (f ∷ fs)) ≡ frame_size f + 4 + length (frames_bytes fs)
    size_fs = length-frames_bytes_cons f fs

    place : cur + 4 + frame_size f + length (frames_bytes fs) ≡ cur + length (frames_bytes (f ∷ fs))
    place = omega (arith, size_fs)

read_frames_inversion :
    (buffer : List ℕ) (len k cur : ℕ) (msg : Message) {m : Message}
    → All IsByte buffer
    → read_frames k buffer len cur msg ≡ ok m
    → (fs : List Frame) × Rounds buffer len k cur msg m fs
read_frames_inversion buffer len zero cur msg {m} bs h = (
  [],
  record {
    added = ap (λ (x : Message). x.m_frames) same ∙ sym (append-nil msg.m_frames);
    count = refl;
    here = unfold frames_bytes in rw add-zero;
    fits = tt;
    room = inl refl;
  },
)
  where
    same : m ≡ msg
    same = unfold read_frames in cc
read_frames_inversion buffer len (suc k) cur msg {m} bs h =
    let (f, r, h') = read_frame_inversion buffer len k cur msg bs h in
    let (fs, rs) =
      read_frames_inversion buffer len k (cur + 4 + frame_size f) (add_frame msg f) bs h' in
    (f ∷ fs, Rounds-cons buffer len k cur msg m f fs r rs)

-- The frame count and the frames behind it are a message on the wire.
whole_message :
    (buffer : List ℕ) (len n : ℕ) (fs : List Frame) (m : Message)
    → All IsByte buffer
    → first_u32 buffer ≡ ok n
    → Rounds buffer len n 4 empty_message m fs
    → Fits m
      × (buffer ≡ encode m ++ drop (length (encode m)) buffer)
      × ((m.m_frames ≡ []) ⊎ (length (encode m) ≤ len))
whole_message buffer len n fs m bs eword rs = (
  record { few = omega (arith, word.1, count); frames = rw rs.added rs.fits },
  word.0
      ∙ ap₂ (λ v t. bytes_of_u32 v ++ t) (sym (to_u32-id n word.1) ∙ ap to_u32 (sym count))
          (rs.here ∙ ap₂ (λ fs' k. frames_bytes fs' ++ drop k buffer) (sym rs.added) place)
      ∙ unfold encode in
        sym (
          append_assoc (bytes_of_u32 (to_u32 (size m))) (frames_bytes m.m_frames)
            (drop (length (encode m)) buffer)),
  elim rs.room [
    | inl none ↦ inl (length-none m.m_frames (omega (arith, count)))
    | inr room ↦ inr (omega (arith, total, frames))
  ],
)
  where
    word : (buffer ≡ bytes_of_u32 n ++ drop 4 buffer) × (n < 2 ^ 32) × (4 ≤ length buffer)
    word = first_u32-inversion buffer bs eword

    count : size m ≡ n
    count = ap length rs.added ∙ rs.count

    total : length (encode m) ≡ length (frames_bytes m.m_frames) + 4
    total = length-encode m

    frames : length (frames_bytes m.m_frames) ≡ length (frames_bytes fs)
    frames = ap (λ fs'. length (frames_bytes fs')) rs.added

    place : 4 + length (frames_bytes fs) ≡ length (encode m)
    place = omega (arith, total, frames)

    length-none : (fs' : List Frame) → length fs' ≡ 0 → fs' ≡ []
    length-none [] h = refl
    length-none (f ∷ fs') h = absurd (omega arith)

-- If `readMessage` returns a message from a buffer of bytes, then the buffer begins with that
-- message on the wire, the message fits the wire format, and it lies within the stated length
-- unless it has no frames.
pub read_message-inversion :
    (buffer : List ℕ) (len : ℕ) {m : Message}
    → All IsByte buffer
    → read_message buffer len ≡ ok m
    → Fits m
      × (buffer ≡ encode m ++ drop (length (encode m)) buffer)
      × ((m.m_frames ≡ []) ⊎ (length (encode m) ≤ len))
unfolding read_message load_u32
read_message-inversion buffer len {m} bs h =
    let (n, eword, h') = step-ok _ m (first_u32 buffer) h in
    let (fs, rs) = read_frames_inversion buffer len n 4 empty_message bs h' in
    whole_message buffer len n fs m bs eword rs
