-- ===== src/Word.antt =====
-- The fixed-width integers of the program: uint8_t and uint32_t are numbers below 2 ^ 8 and 2 ^ 32,
-- an int64_t is its bit pattern below 2 ^ 64. The casts and sums of CPU.cpp, OS.cpp and MMU.cpp are
-- written out over the patterns; a signed sum that overflows wraps, as the machine does it.
pub mod Bits
use csci_480_assignment.Base.{ℕ, ◌+◌, ◌-◌, ◌*◌, ◌/◌, ◌%◌, ◌^◌, Bool, ltb, if◌then◌else◌}

-- static_cast<uint8_t>(x) and static_cast<uint32_t>(x)
abbrev pub u8 : ℕ → ℕ
u8 x = x % 2 ^ 8

abbrev pub u32 : ℕ → ℕ
u32 x = x % 2 ^ 32

-- The sum, difference and product of two uint32_t.
abbrev pub add32 : ℕ → ℕ → ℕ
add32 a b = u32 (a + b)

abbrev pub sub32 : ℕ → ℕ → ℕ
sub32 a b = u32 (a + 2 ^ 32 - b)

abbrev pub mul32 : ℕ → ℕ → ℕ
mul32 a b = u32 (a * b)

-- static_cast<int64_t>(static_cast<int32_t>(w)) of a uint32_t: the sign bit is carried on.
abbrev pub sign_extend : ℕ → ℕ
sign_extend w = if ltb w (2 ^ 31) then w else w + (2 ^ 64 - 2 ^ 32)

-- The sum of two int64_t.
abbrev pub add64 : ℕ → ℕ → ℕ
add64 a b = (a + b) % 2 ^ 64

-- a < b of two int64_t, and a <= 0 of one.
abbrev pub less64 : ℕ → ℕ → Bool
less64 a b = ltb ((a + 2 ^ 63) % 2 ^ 64) ((b + 2 ^ 63) % 2 ^ 64)
