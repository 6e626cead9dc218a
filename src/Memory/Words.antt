-- ===== src/Memory/Words.antt =====
-- Laws of the byte order: what is stored as a word is loaded again.
use libcppio.Prelude.{
  ℕ, ◌+◌, ◌*◌, ◌^◌, ◌≤◌, ◌<◌, ◌≡◌, refl, ap, ap₂, List, [], ◌∷◌, ◌++◌, length, drop, All, arith,
}
use libcppio.Memory.{
  ok, out_of_bounds, IsByte, to_u32, bytes_of_u8, bytes_of_u16, bytes_of_u32, first_u8, first_u16,
  first_u32,
}

pub length-bytes_of_u32 : (v : ℕ) → length (bytes_of_u32 v) ≡ 4
unfolding bytes_of_u32
length-bytes_of_u32 v = refl

pub first_u32-bytes_of_u32 :
    (v : ℕ) (rest : List ℕ) → v < 2 ^ 32 → first_u32 (bytes_of_u32 v ++ rest) ≡ ok v
unfolding first_u32 bytes_of_u32
first_u32-bytes_of_u32 v rest h = ap ok (omega arith)

pub first_u16-bytes_of_u16 : (v : ℕ) → v < 2 ^ 16 → first_u16 (bytes_of_u16 v) ≡ ok v
unfolding first_u16 bytes_of_u16
first_u16-bytes_of_u16 v h = ap ok (omega arith)

pub first_u8-bytes_of_u8 : (v : ℕ) → v < 2 ^ 8 → first_u8 (bytes_of_u8 v) ≡ ok v
unfolding first_u8 bytes_of_u8
first_u8-bytes_of_u8 v h = ap ok (omega arith)

-- Four bytes are the bytes of the word that they spell.
pub bytes_of_u32-word :
    (a b c d : ℕ)
    → a < 256
    → b < 256
    → c < 256
    → d < 256
    → bytes_of_u32 (a + 256 * b + 65536 * c + 16777216 * d) ≡ a ∷ b ∷ c ∷ d ∷ []
unfolding bytes_of_u32
bytes_of_u32-word a b c d ha hb hc hd =
    ap₂ ◌∷◌ (omega arith)
      (ap₂ ◌∷◌ (omega arith) (ap₂ ◌∷◌ (omega arith) (ap₂ ◌∷◌ (omega arith) refl)))

-- A word that could be loaded stands in the memory, and is a `uint32_t`.
pub first_u32-inversion :
    (m : List ℕ) {v : ℕ}
    → All IsByte m
    → first_u32 m ≡ ok v
    → (m ≡ bytes_of_u32 v ++ drop 4 m) × (v < 2 ^ 32) × (4 ≤ length m)
unfolding first_u32
first_u32-inversion [] h e = cc
first_u32-inversion (a ∷ []) h e = cc
first_u32-inversion (a ∷ b ∷ []) h e = cc
first_u32-inversion (a ∷ b ∷ c ∷ []) h e = cc
first_u32-inversion (a ∷ b ∷ c ∷ d ∷ r) {v} h e = ground (arith, bytes_of_u32-word a b c d)

pub first_u32_short : (m : List ℕ) → length m < 4 → first_u32 m ≡ out_of_bounds
unfolding first_u32
first_u32_short [] h = refl
first_u32_short (a ∷ []) h = refl
first_u32_short (a ∷ b ∷ []) h = refl
first_u32_short (a ∷ b ∷ c ∷ []) h = refl
first_u32_short (a ∷ b ∷ c ∷ d ∷ r) h = absurd (omega arith)

pub to_u32-id : (n : ℕ) → n < 2 ^ 32 → to_u32 n ≡ n
unfolding to_u32
to_u32-id n h = omega arith

pub to_u32-lt : (n : ℕ) → to_u32 n < 2 ^ 32
unfolding to_u32
to_u32-lt n = omega arith
