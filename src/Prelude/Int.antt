-- ===== src/Prelude/Int.antt =====
-- Signed results of C++ functions, over the native numbers.
use libcppio.Prelude.{ℕ, zero, suc, ◌+◌, ◌-◌, ◌*◌, ◌/◌, leb, ◌%◌, ◌^◌, ltb, if◌then◌else◌}

-- `negsuc n` is -(n + 1).
pub data ℤ : Type 0 where
  pos : ℕ → ℤ
  negsuc : ℕ → ℤ

-- The conversion of a `size_t` or a non-negative `ssize_t` to a 32-bit `int`.
abbrev pub narrow : ℕ → ℤ
narrow n = let w = n % 2 ^ 32 in if ltb w (2 ^ 31) then pos w else negsuc (2 ^ 32 - w - 1)

-- Zero less a number.
unfoldable pub negate : ℕ → ℤ
negate zero = pos zero
negate (suc n) = negsuc n

infixl 20 ◌-ℤ◌
-- `◌-◌` on `int`, where no overflow happens.
unfoldable pub ◌-ℤ◌ : ℤ → ℤ → ℤ
unfolding negate
pos a -ℤ pos b = if leb b a then pos (a - b) else negate (b - a)
pos a -ℤ negsuc b = pos (a + b + 1)
negsuc a -ℤ pos b = negsuc (a + b)
negsuc a -ℤ negsuc b = if leb a b then pos (b - a) else negate (a - b)

-- `int` times a literal.
unfoldable pub times : ℤ → ℕ → ℤ
unfolding negate
times (pos a) d = pos (a * d)
times (negsuc a) d = negate ((a + 1) * d)

-- `int` divided by a literal, towards zero.
unfoldable pub quotient : ℤ → ℕ → ℤ
unfolding negate
quotient (pos a) d = pos (a / d)
quotient (negsuc a) d = negate ((a + 1) / d)
