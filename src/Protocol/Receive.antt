-- ===== src/Protocol/Receive.antt =====
-- `MessageProtocol::readMessage` on a line that delivers its bytes, in pieces of any size.
use libcppio.Prelude.{
  ℕ, zero, suc, ◌-◌, ◌^◌, ◌≤◌, ◌<◌, ◌≡◌, ◌≢◌, refl, sym, ap, ◌∙◌, List, [], ◌∷◌, ◌++◌, length, drop,
  le→leb, arith, length-append, length-drop, append_assoc, append-nil, All, append-split, ◌⊎◌, inl,
  inr,
}
use libcppio.Prelude.Int.{pos, narrow}
use libcppio.Memory.{ok, to_u32, bytes_of_u32, first_u32}
use libcppio.Memory.Words.{first_u32-bytes_of_u32, length-bytes_of_u32, to_u32-id}
use libcppio.Line.{ErrorCode, error_value, IoLine, Delivers, DeliversUpTo, delivers_up_to, received}
use libcppio.Message.{Message, Frame, frame_size, size, add_frame, empty_message}
use libcppio.Message.Wire.{frame_bytes, frames_bytes, encode}
use libcppio.Message.RoundTrip.{Fits, FrameFits}
use libcppio.Protocol.{done, returned, take_result, fill, receive_frames, receive}

narrow_small : (n : ℕ) → n < 2_147_483_648 → narrow n ≡ pos n
narrow_small n h = ground arith

cons-ne-nil : (n : ℕ) (xs : List ℕ) → n < length xs → xs ≢ []
cons-ne-nil n xs h e = absurd (omega (arith, ap length e))

List-cases {ℓ} : {A : Type ℓ} (xs : List A) → (xs ≡ []) ⊎ (xs ≢ [])
List-cases [] = inl refl
List-cases (x ∷ xs) = inr (λ e. cc)

pub frame_regroup :
    (f : Frame) (more : List ℕ)
    → frame_bytes f ++ more ≡ bytes_of_u32 (to_u32 (frame_size f)) ++ (f.m_data ++ more)
unfolding frame_bytes
frame_regroup f more = append_assoc (bytes_of_u32 (to_u32 (frame_size f))) f.m_data more

module _ (line : IoLine) (limit : ℕ) (d : DeliversUpTo limit line) where
  open line use {State}
  open d use {pending}

  -- One call of `read` in a loop, where the line gives `bs`.
  fill_step :
      (fuel : ℕ) (s s' : State) (left : ℕ) (so_far bs : List ℕ)
      → line.read s (suc left) ≡ (received bs, s')
      → 0 < length bs
      → length bs ≤ suc left
      → length bs < 2_147_483_648
      → fill line (suc fuel) s (suc left) so_far
        ≡ fill line fuel s' (suc left - length bs) (so_far ++ bs)
  unfolding fill
  fill_step fuel s s' left so_far [] e some fits small = absurd (omega arith)
  fill_step fuel s s' left so_far (b ∷ bs) e some fits small =
      ap (take_result line (fill line fuel) (suc left) so_far) e
      ∙ rw (le→leb (suc (length bs)) (suc left) fits, take_result)
          (rw (narrow_small (suc (length bs)) small))

  -- A loop for bytes that are all to come reads exactly those.
  pub fill_full :
      (fuel : ℕ) (s : State) (left : ℕ) (so_far bytes rest : List ℕ)
      → left ≤ fuel
      → left ≤ limit
      → left ≡ length bytes
      → pending s ≡ bytes ++ rest
      → (s' : State) × (fill line fuel s left so_far ≡ done (so_far ++ bytes) s')
        × (pending s' ≡ rest)
  unfolding fill
  fill_full fuel s zero so_far [] rest hf fits_limit e p =
      (s, ap (λ x. done x s) (sym (append-nil so_far)), p)
  fill_full fuel s zero so_far (b ∷ bytes) rest hf fits_limit e p = absurd (omega arith)
  fill_full zero s (suc left) so_far bytes rest hf fits_limit e p = absurd (omega arith)
  fill_full (suc fuel) s (suc left) so_far bytes rest hf fits_limit e p =
      let (bs, s1, e1, some, fits, small, cut) =
        d.read_some s (suc left) (omega arith) fits_limit
          (cons-ne-nil left (pending s) (omega (arith, ap length p, length-append bytes rest))) in
      let (front, back) = append-split bs bytes (pending s1) rest (sym p ∙ cut) (omega arith) in
      let more : List ℕ = drop (length bs) bytes in
      let (s', e', p') =
        fill_full fuel s1 (suc left - length bs) (so_far ++ bs) more rest (omega arith)
          (omega arith) (omega (arith, length-drop (length bs) bytes)) back in
      (
        s',
        fill_step fuel s s1 left so_far bs e1 some fits small
            ∙ e'
            ∙ ap (λ x. done x s') (append_assoc so_far bs more ∙ ap (◌++◌ so_far) (sym front)),
        p',
      )

  -- A loop for more bytes than are to come returns an error.
  pub fill_cut :
      (fuel : ℕ) (s : State) (left : ℕ) (so_far : List ℕ)
      → left ≤ fuel
      → left ≤ limit
      → length (pending s) < left
      → (e : ErrorCode) × (s' : State) × (fill line fuel s left so_far
          ≡ returned (error_value e) s')
  unfolding fill
  fill_cut fuel s zero so_far hf fits_limit short = absurd (omega arith)
  fill_cut zero s (suc left) so_far hf fits_limit short = absurd (omega arith)
  fill_cut (suc fuel) s (suc left) so_far hf fits_limit short = elim (List-cases (pending s)) [
    | inl none ↦
        let (e, s', e1) = d.read_end s (suc left) (omega arith) fits_limit none in
        (e, s', ap (take_result line (fill line fuel) (suc left) so_far) e1)
    | inr ne ↦
        let (bs, s1, e1, some, fits, small, cut) =
          d.read_some s (suc left) (omega arith) fits_limit ne in
        let (e, s', e') =
          fill_cut fuel s1 (suc left - length bs) (so_far ++ bs) (omega arith) (omega arith)
            (omega (arith, ap length cut, length-append bs (pending s1))) in
        (e, s', fill_step fuel s s1 left so_far bs e1 some fits small ∙ e')
  ]

  -- The four bytes of a length word, if all are to come.
  pub fill_word :
      (s : State) (v : ℕ) (rest : List ℕ)
      → 4 ≤ limit
      → pending s ≡ bytes_of_u32 v ++ rest
      → (s' : State) × (fill line 4 s 4 [] ≡ done (bytes_of_u32 v) s') × (pending s' ≡ rest)
  fill_word s v rest word p =
      fill_full 4 s 4 [] (bytes_of_u32 v) rest (omega arith) word (sym (length-bytes_of_u32 v)) p

  word_value : (v : ℕ) → v < 2 ^ 32 → first_u32 (bytes_of_u32 (to_u32 v)) ≡ ok v
  word_value v h = rw (to_u32-id v h) (rw append-nil at (first_u32-bytes_of_u32 v [] h))

  -- One round of the loop over the frames, from what its two loops did.
  pub receive_frame :
      (k : ℕ) (s s1 s2 : State) (m : Message) (f : Frame)
      → FrameFits f
      → fill line 4 s 4 [] ≡ done (bytes_of_u32 (to_u32 (frame_size f))) s1
      → fill line (frame_size f) s1 (frame_size f) [] ≡ done f.m_data s2
      → receive_frames line (suc k) s m ≡ receive_frames line k s2 (add_frame m f)
  unfolding receive_frames
  receive_frame k s s1 s2 m f fits e1 e2 = rw e1 (rw (word_value (frame_size f) fits.short) (rw e2))

  pub receive_frame_cut :
      (k : ℕ) (s s1 s2 : State) (m : Message) (f : Frame) (e : ErrorCode)
      → FrameFits f
      → fill line 4 s 4 [] ≡ done (bytes_of_u32 (to_u32 (frame_size f))) s1
      → fill line (frame_size f) s1 (frame_size f) [] ≡ returned (error_value e) s2
      → receive_frames line (suc k) s m ≡ returned (error_value e) (s2, m)
  unfolding receive_frames
  receive_frame_cut k s s1 s2 m f e fits e1 e2 =
      rw e1 (rw (word_value (frame_size f) fits.short) (rw e2))

  -- Whole frames that are to come are received in order.
  receive_frames_full :
      (fs : List Frame) (s : State) (m : Message) (rest : List ℕ)
      → 4 ≤ limit
      → All FrameFits fs
      → All (λ f. frame_size f ≤ limit) fs
      → pending s ≡ frames_bytes fs ++ rest
      → (s' : State) × (receive_frames line (length fs) s m
          ≡ returned (pos 1) (s', record { m_frames = m.m_frames ++ fs }))
        × (pending s' ≡ rest)
  receive_frames_full [] s m rest word fits small p =
      (s, unfold receive_frames in rw append-nil, unfold frames_bytes in p)
  receive_frames_full (f ∷ fs) s m rest word fits small p =
      let (s1, e1, p1) =
        fill_word s (to_u32 (frame_size f)) (f.m_data ++ (frames_bytes fs ++ rest)) word
          (p ∙ regroup ∙ frame_regroup f (frames_bytes fs ++ rest)) in
      let (s2, e2, p2) =
        fill_full (frame_size f) s1 (frame_size f) [] f.m_data (frames_bytes fs ++ rest)
          (omega arith) small.0 refl p1 in
      let (s', e', p') = receive_frames_full fs s2 (add_frame m f) rest word fits.1 small.1 p2 in
      (
        s',
        receive_frame (length fs) s s1 s2 m f fits.0 e1 e2
            ∙ e'
            ∙ ap (λ ms. returned (pos 1) (s', record { m_frames = ms })) added,
        p',
      )
    where
      added : (add_frame m f).m_frames ++ fs ≡ m.m_frames ++ (f ∷ fs)
      added = unfold add_frame in append_assoc m.m_frames (f ∷ []) fs

      regroup : frames_bytes (f ∷ fs) ++ rest ≡ frame_bytes f ++ (frames_bytes fs ++ rest)
      regroup = unfold frames_bytes in append_assoc (frame_bytes f) (frames_bytes fs) rest

  pub receive_start :
      (n : ℕ) (s s1 : State)
      → n < 2 ^ 32
      → fill line 4 s 4 [] ≡ done (bytes_of_u32 (to_u32 n)) s1
      → receive line s empty_message ≡ receive_frames line n s1 empty_message
  unfolding receive
  receive_start n s s1 h e = rw e (rw (word_value n h))

  -- A message of frames that are not longer than the limit, on a line that delivers up to it.
  pub receive-encode_up_to :
      (s : State) (m : Message) (rest : List ℕ)
      → 4 ≤ limit
      → Fits m
      → All (λ f. frame_size f ≤ limit) m.m_frames
      → pending s ≡ encode m ++ rest
      → (s' : State) × (receive line s empty_message ≡ returned (pos 1) (s', m))
        × (pending s' ≡ rest)
  receive-encode_up_to s m rest word fits small p =
      let (s1, e1, p1) =
        fill_word s (to_u32 (size m)) (frames_bytes m.m_frames ++ rest) word (p ∙ regroup) in
      let (s', e', p') =
        receive_frames_full m.m_frames s1 empty_message rest word fits.frames small p1 in
      (s', receive_start (size m) s s1 fits.few e1 ∙ e', p')
    where
      regroup :
          encode m ++ rest ≡ bytes_of_u32 (to_u32 (size m)) ++ (frames_bytes m.m_frames ++ rest)
      regroup =
          unfold encode in
          append_assoc (bytes_of_u32 (to_u32 (size m))) (frames_bytes m.m_frames) rest

pub FrameFits-limit :
    (fs : List Frame) → All FrameFits fs → All (λ f. frame_size f ≤ 4_294_967_295) fs
FrameFits-limit [] _ = tt
FrameFits-limit (f ∷ fs) (here, there) = (omega (arith, here.short), FrameFits-limit fs there)

module _ (line : IoLine) (d : Delivers line) where
  open line use {State}
  open d use {pending}

  -- If a message that fits the wire format is to come on the line, in pieces of any size, then
  -- `readMessage` into an empty message returns 1 with that message, and leaves to come what follows
  -- it.
  pub receive-encode :
      (s : State) (m : Message) (rest : List ℕ)
      → Fits m
      → pending s ≡ encode m ++ rest
      → (s' : State) × (receive line s empty_message ≡ returned (pos 1) (s', m))
        × (pending s' ≡ rest)
  receive-encode s m rest fits p =
      receive-encode_up_to line 4_294_967_295 (delivers_up_to 4_294_967_295 d) s m rest
        (omega arith) fits (FrameFits-limit m.m_frames fits.frames) p
