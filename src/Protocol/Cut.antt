-- ===== src/Protocol/Cut.antt =====
-- `MessageProtocol::readMessage` on a line that ends inside a message.
use native.Mathlib.Decide.{dec_lt}
use libcppio.Prelude.{
  ℕ, suc, ◌<◌, ◌≡◌, refl, sym, ap, ◌∙◌, List, [], ◌∷◌, ◌++◌, length, drop, arith, length-append,
  append-split, All,
}
use libcppio.Memory.{to_u32, bytes_of_u32}
use libcppio.Memory.Words.{length-bytes_of_u32}
use libcppio.Line.{ErrorCode, error_value, IoLine, Delivers, delivers_up_to}
use libcppio.Message.{Message, Frame, frame_size, size, add_frame, empty_message}
use libcppio.Message.Wire.{frame_bytes, frames_bytes, encode}
use libcppio.Message.RoundTrip.{Fits, FrameFits}
use libcppio.Protocol.{Effect, done, returned, fill, receive_frames, receive}
use libcppio.Protocol.Receive.{
  fill_full, fill_cut, fill_word, receive_frame, receive_frame_cut, receive_start, frame_regroup,
}

module _ (line : IoLine) (d : Delivers line) where
  open line use {State}
  open d use {pending}

  -- The method ended by an error code.
  abbrev pub EndsByError : Effect (State × Message) (Unit {0}) → Type 0
  EndsByError r =
      (e : ErrorCode) × (s' : State) × (m' : Message) × (r ≡ returned (error_value e) (s', m'))

  head_cut :
      (k : ℕ) (s : State) (m : Message)
      → length (pending s) < 4
      → EndsByError (receive_frames line (suc k) s m)
  head_cut k s m short =
      let (e, s', h) =
        fill_cut line 4_294_967_295 (delivers_up_to 4_294_967_295 d) 4 s 4 [] (omega arith)
          (omega arith) short in
      (e, s', m, unfold receive_frames in rw h)

  -- The length word is there; the bytes of the frame are cut, or those of the later frames.
  body_cut :
      (f : Frame) (fs : List Frame) (s s1 : State) (m : Message) (x : ℕ) (back : List ℕ)
      → FrameFits f
      → ((s2 : State) (m2 : Message)
          → frames_bytes fs ≡ pending s2 ++ (x ∷ back)
          → EndsByError (receive_frames line (length fs) s2 m2))
      → fill line 4 s 4 [] ≡ done (bytes_of_u32 (to_u32 (frame_size f))) s1
      → f.m_data ++ frames_bytes fs ≡ pending s1 ++ (x ∷ back)
      → EndsByError (receive_frames line (suc (length fs)) s m)
  body_cut f fs s s1 m x back fits later e1 body =
      elim (dec_lt (length (pending s1)) (frame_size f)) [
        | yes short ↦
            let (e, s2, e2) =
              fill_cut line 4_294_967_295 (delivers_up_to 4_294_967_295 d) (frame_size f) s1
                (frame_size f) [] (omega arith) (omega (arith, fits.short)) short in
            (
              e,
              s2,
              m,
              receive_frame_cut line 4_294_967_295 (delivers_up_to 4_294_967_295 d) (length fs) s s1
                  s2 m f e fits e1 e2,
            )
        | no whole ↦
            let (front, rest) =
              append-split f.m_data (pending s1) (frames_bytes fs) (x ∷ back) (sym body)
                (omega arith) in
            let (s2, e2, p2) =
              fill_full line 4_294_967_295 (delivers_up_to 4_294_967_295 d) (frame_size f) s1
                (frame_size f) [] f.m_data (drop (frame_size f) (pending s1)) (omega arith)
                (omega (arith, fits.short)) refl front in
            let (e, s', m', h) = later s2 (add_frame m f) (rw (← p2) at rest) in
            (
              e,
              s',
              m',
              receive_frame line 4_294_967_295 (delivers_up_to 4_294_967_295 d) (length fs) s s1 s2
                    m f fits e1 e2
                  ∙ h,
            )
      ]

  receive_frames_cut :
      (fs : List Frame) (s : State) (m : Message) (x : ℕ) (back : List ℕ)
      → All FrameFits fs
      → frames_bytes fs ≡ pending s ++ (x ∷ back)
      → EndsByError (receive_frames line (length fs) s m)
  receive_frames_cut [] s m x back fits e =
      absurd (omega (arith, none, length-append (pending s) (x ∷ back)))
    where
      none : 0 ≡ length (pending s ++ (x ∷ back))
      none = ap length {x = []} (unfold frames_bytes in e)
  receive_frames_cut (f ∷ fs) s m x back fits e = elim (dec_lt (length (pending s)) 4) [
    | yes short ↦ head_cut (length fs) s m short
    | no word ↦
        let (front, body) =
          append-split head (pending s) (f.m_data ++ frames_bytes fs) (x ∷ back)
            (sym e ∙ whole ∙ frame_regroup f (frames_bytes fs)) (omega (arith, len4)) in
        let (s1, e1, p1) =
          fill_word line 4_294_967_295 (delivers_up_to 4_294_967_295 d) s (to_u32 (frame_size f))
            (drop (length head) (pending s)) (omega arith) front in
        body_cut f fs s s1 m x back fits.0 (λ s2 m2 h. receive_frames_cut fs s2 m2 x back fits.1 h)
          e1 (rw (← p1) at body)
  ]
    where
      head : List ℕ
      head = bytes_of_u32 (to_u32 (frame_size f))

      len4 : length head ≡ 4
      len4 = length-bytes_of_u32 (to_u32 (frame_size f))

      whole : frames_bytes (f ∷ fs) ≡ frame_bytes f ++ frames_bytes fs
      whole = unfold frames_bytes in refl

  -- If what is to come on the line is a proper front part of a message, in pieces of any size, then
  -- `readMessage` into an empty message returns an error code, and never 1.
  pub receive_cut :
      (s : State) (m : Message) (x : ℕ) (back : List ℕ)
      → Fits m
      → encode m ≡ pending s ++ (x ∷ back)
      → EndsByError (receive line s empty_message)
  receive_cut s m x back fits e = elim (dec_lt (length (pending s)) 4) [
    | yes short ↦
        let (e', s', h) =
          fill_cut line 4_294_967_295 (delivers_up_to 4_294_967_295 d) 4 s 4 [] (omega arith)
            (omega arith) short in
        (e', s', empty_message, unfold receive in rw h)
    | no word ↦
        let (front, rest) =
          append-split head (pending s) (frames_bytes m.m_frames) (x ∷ back) (sym e ∙ whole)
            (omega (arith, len4)) in
        let (s1, e1, p1) =
          fill_word line 4_294_967_295 (delivers_up_to 4_294_967_295 d) s (to_u32 (size m))
            (drop (length head) (pending s)) (omega arith) front in
        let (e', s', m', h) =
          receive_frames_cut m.m_frames s1 empty_message x back fits.frames (rw (← p1) at rest) in
        (
          e',
          s',
          m',
          receive_start line 4_294_967_295 (delivers_up_to 4_294_967_295 d) (size m) s s1 fits.few
                e1
              ∙ h,
        )
  ]
    where
      head : List ℕ
      head = bytes_of_u32 (to_u32 (size m))

      len4 : length head ≡ 4
      len4 = length-bytes_of_u32 (to_u32 (size m))

      whole : encode m ≡ head ++ frames_bytes m.m_frames
      whole = unfold encode in refl
