-- ===== src/Message/Values.antt =====
-- `addFrame`, `operator<<` and `get`.
use libcppio.Prelude.{
  ℕ, zero, suc, ◌^◌, ◌<◌, ◌≡◌, refl, List, [], ◌∷◌, ◌++◌, append-nil, length, get_elem?, arith,
  some, ◌==◌, if◌then◌else◌,
}
use libcppio.Memory.{ok, first_u32, bytes_of_u32}
use libcppio.Memory.Words.{first_u8-bytes_of_u8, first_u16-bytes_of_u16, first_u32-bytes_of_u32}
use libcppio.Message.{
  Frame, Message, size, frame, add_frame, from_u8, from_u16, from_u32, from_string, get_u8, get_u16,
  get_u32, get_string,
}

get_elem?-append_one {ℓ} :
    {A : Type ℓ} (xs : List A) (x : A) (i : ℕ)
    → get_elem? (xs ++ (x ∷ [])) i ≡ (if i == length xs then some x else get_elem? xs i)
get_elem?-append_one [] x zero = refl
get_elem?-append_one [] x (suc i) = ground arith
get_elem?-append_one (y ∷ xs) x zero = ground arith
get_elem?-append_one (y ∷ xs) x (suc i) = ground (arith, get_elem?-append_one xs x i)

-- `addFrame` puts the frame at the next index, and leaves the frames at all others as they were.
pub frame-add_frame :
    (m : Message) (f : Frame) (i : ℕ)
    → frame (add_frame m f) i ≡ (if i == size m then ok f else frame m i)
unfolding frame add_frame
frame-add_frame m f i = ground (arith, get_elem?-append_one m.m_frames f i)

frame_last : (m : Message) (f : Frame) → frame (add_frame m f) (size m) ≡ ok f
frame_last m f = ground (arith, frame-add_frame m f (size m))

first_u32-bytes_of_u32_alone : (v : ℕ) → v < 2 ^ 32 → first_u32 (bytes_of_u32 v) ≡ ok v
first_u32-bytes_of_u32_alone v h = rw append-nil at (first_u32-bytes_of_u32 v [] h)

-- What `operator<<` appends, `get` of the same type reads back at that index: numbers of 8, 16 and
-- 32 bits, and strings.
pub get-from_value :
    (m : Message) (a b c : ℕ) (s : List ℕ)
    → a < 2 ^ 8
    → b < 2 ^ 16
    → c < 2 ^ 32
    → (get_u8 (add_frame m (from_u8 a)) (size m) ≡ ok a)
      × (get_u16 (add_frame m (from_u16 b)) (size m) ≡ ok b)
      × (get_u32 (add_frame m (from_u32 c)) (size m) ≡ ok c)
      × (get_string (add_frame m (from_string s)) (size m) ≡ ok s)
unfolding get_u8 get_u16 get_u32 get_string from_u8 from_u16 from_u32 from_string
get-from_value m a b c s ha hb hc = (
  rw (frame_last m (from_u8 a)) (first_u8-bytes_of_u8 a ha),
  rw (frame_last m (from_u16 b)) (first_u16-bytes_of_u16 b hb),
  rw (frame_last m (from_u32 c)) (first_u32-bytes_of_u32_alone c hc),
  rw (frame_last m (from_string s)),
)
