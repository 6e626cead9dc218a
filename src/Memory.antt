-- ===== src/Memory.antt =====
-- Raw memory as message.cpp uses it: a buffer is the list of its bytes, a pointer into it is an
-- offset, and a cast to `uint32_t*` reads or writes four bytes in little-endian order. An access
-- that leaves the buffer is the value `out_of_bounds`, where C++ has undefined behaviour.
pub mod Words
pub mod Access
use libcppio.Prelude.{
  ℕ, ◌+◌, ◌-◌, ◌*◌, ◌/◌, ◌%◌, ◌^◌, ◌<◌, Bool, true, false, List, [], ◌∷◌, ◌++◌, length, take, drop,
  leb, if◌then◌else◌,
}

-- What a function over memory returns: a value, the `std::length_error` it throws, or undefined
-- behaviour. `out_of_fuel` is no C++ behaviour: a recursion of the model met its bound.
pub data Outcome {ℓ} (A : Type ℓ) : Type ℓ where
  ok : A → Outcome A
  length_error : Outcome A
  out_of_bounds : Outcome A
  out_of_fuel : Outcome A

infixl 5 ◌>>=◌
abbrev pub ◌>>=◌ {ℓ κ} : {A : Type ℓ} {B : Type κ} → Outcome A → (A → Outcome B) → Outcome B
ok a >>= f = f a
length_error >>= f = length_error
out_of_bounds >>= f = out_of_bounds
out_of_fuel >>= f = out_of_fuel

abbrev pub IsByte : ℕ → Type 0
IsByte b = b < 256

-- `size_t` addition and subtraction, which wrap.
abbrev pub add_size : ℕ → ℕ → ℕ
add_size a b = (a + b) % 2 ^ 64

abbrev pub sub_size : ℕ → ℕ → ℕ
sub_size a b = (a + 2 ^ 64 - b) % 2 ^ 64

-- A conversion to `uint32_t`.
unfoldable pub to_u32 : ℕ → ℕ
to_u32 n = n % 2 ^ 32

-- The bytes of a `uint8_t`, a `uint16_t` and a `uint32_t` object, lowest first.
unfoldable pub bytes_of_u8 : ℕ → List ℕ
bytes_of_u8 v = (v % 256) ∷ []

unfoldable pub bytes_of_u16 : ℕ → List ℕ
bytes_of_u16 v = (v % 256) ∷ (v / 256 % 256) ∷ []

unfoldable pub bytes_of_u32 : ℕ → List ℕ
bytes_of_u32 v = (v % 256) ∷ (v / 256 % 256) ∷ (v / 65536 % 256) ∷ (v / 16777216 % 256) ∷ []

-- The value at the start of a memory region, if the region is long enough.
unfoldable pub first_u8 : List ℕ → Outcome ℕ
first_u8 [] = out_of_bounds
first_u8 (a ∷ _) = ok a

unfoldable pub first_u16 : List ℕ → Outcome ℕ
first_u16 (a ∷ b ∷ _) = ok (a + 256 * b)
first_u16 _ = out_of_bounds

unfoldable pub first_u32 : List ℕ → Outcome ℕ
first_u32 (a ∷ b ∷ c ∷ d ∷ _) = ok (a + 256 * b + 65536 * c + 16777216 * d)
first_u32 _ = out_of_bounds

-- `*((uint32_t*)(buffer + offset))`
unfoldable pub load_u32 : List ℕ → ℕ → Outcome ℕ
load_u32 buffer offset = first_u32 (drop offset buffer)

-- The bytes `[offset, offset + n)` of a buffer.
unfoldable pub load : List ℕ → ℕ → ℕ → Outcome (List ℕ)
load buffer offset n =
    if leb (offset + n) (length buffer) then ok (take n (drop offset buffer)) else out_of_bounds

-- `memcpy(buffer + offset, bytes, n)`: the buffer afterwards.
unfoldable pub store : List ℕ → ℕ → List ℕ → Outcome (List ℕ)
store buffer offset bytes =
    if leb (offset + length bytes) (length buffer)
    then ok (take offset buffer ++ (bytes ++ drop (offset + length bytes) buffer))
    else out_of_bounds
