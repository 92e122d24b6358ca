-- ===== src/Word.antt =====
-- Machine words: an unsigned w-bit value is a number below 2 ^ w, its shifts are products and
-- quotients, and `-` and `~` wrap as they do in C.
pub mod Pow
pub mod Bits
pub mod Flags
pub mod Fields
use lilac_os.Base.{ℕ, ◌+◌, ◌-◌, ◌*◌, ◌/◌, ◌%◌, ◌^◌}

abbrev pub u64_mod : ℕ
u64_mod = 2 ^ 64

-- `a - b` in `uint64`, for operands below 2 ^ 64.
abbrev pub sub64 : ℕ → ℕ → ℕ
sub64 a b = (a + u64_mod - b) % u64_mod

abbrev pub add64 : ℕ → ℕ → ℕ
add64 a b = (a + b) % u64_mod

-- `~a` in `uint64`.
abbrev pub not64 : ℕ → ℕ
not64 a = u64_mod - 1 - a % u64_mod

infixl 75 ◌>>>◌ ◌<<<◌
abbrev pub ◌>>>◌ : ℕ → ℕ → ℕ
x >>> k = x / 2 ^ k

abbrev pub ◌<<<◌ : ℕ → ℕ → ℕ
x <<< k = x * 2 ^ k
