-- ===== src/Prelude/Words.antt =====
-- Machine words as native numbers: a value of `w` bits lies below `2 ^ w`, and arithmetic wraps.
use f2ut_platform_frameworks.Prelude.{Bool, if◌then◌else◌, leb, ltb, ℕ, ◌%◌, ◌+◌, ◌-◌, ◌/◌, ◌^◌}
use f2ut_platform_frameworks.Prelude.Int.{negsuc, pos, ℤ}

-- `uint32_t` and `int32_t` difference, as a bit pattern.
unfoldable pub sub32 : ℕ → ℕ → ℕ
sub32 a b = (a + 2 ^ 32 - b) % 2 ^ 32

-- The `int32_t` and `int64_t` that a bit pattern stands for.
abbrev pub signed32 : ℕ → ℤ
signed32 w = if ltb w (2 ^ 31) then pos w else negsuc (2 ^ 32 - w - 1)

abbrev pub signed64 : ℕ → ℤ
signed64 w = if ltb w (2 ^ 63) then pos w else negsuc (2 ^ 64 - w - 1)

unfoldable pub add64 : ℕ → ℕ → ℕ
add64 a b = (a + b) % 2 ^ 64

unfoldable pub sub64 : ℕ → ℕ → ℕ
sub64 a b = (a + 2 ^ 64 - b) % 2 ^ 64

-- `>> 1` of a signed 64-bit value: the sign bit stays.
unfoldable pub half64 : ℕ → ℕ
half64 w = if ltb w (2 ^ 63) then w / 2 else w / 2 + 2 ^ 63

-- `a <= b` and `a > b` of signed 64-bit values.
abbrev pub leq64 : ℕ → ℕ → Bool
leq64 a b = leb ((a + 2 ^ 63) % 2 ^ 64) ((b + 2 ^ 63) % 2 ^ 64)

-- The conversion of a signed 64-bit value to `int`, and back to 64 bits.
unfoldable pub narrow64 : ℕ → ℕ
narrow64 w = if ltb (w % 2 ^ 32) (2 ^ 31) then w % 2 ^ 32 else w % 2 ^ 32 + (2 ^ 64 - 2 ^ 32)
