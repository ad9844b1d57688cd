-- ===== src/Base/Words.antt =====
-- Machine words as native numbers: a cast or a wrap is a remainder, a shift is `*` or `/`.
use Prim.Native.Nat.{ℕ, ◌*◌, ◌/◌, ◌%◌, ◌^◌, ◌<◌}

abbrev pub u8 : ℕ → ℕ
u8 n = n % 2 ^ 8

abbrev pub u16 : ℕ → ℕ
u16 n = n % 2 ^ 16

abbrev pub u32 : ℕ → ℕ
u32 n = n % 2 ^ 32

abbrev pub u64 : ℕ → ℕ
u64 n = n % 2 ^ 64

-- `x << k`, not yet cut to a width, and `x >> k`.
infixl 75 ◌<<<◌ ◌>>>◌
abbrev pub ◌<<<◌ : ℕ → ℕ → ℕ
x <<< k = x * 2 ^ k

abbrev pub ◌>>>◌ : ℕ → ℕ → ℕ
x >>> k = x / 2 ^ k

abbrev pub IsByte : ℕ → Type 0
IsByte b = b < 2 ^ 8

abbrev pub IsU32 : ℕ → Type 0
IsU32 b = b < 2 ^ 32
