-- ===== src/Uint.antt =====
-- src/uint16_pack.c, uint16_unpack.c, uint32_pack.c, uint32_unpack.c and src/tai_pack.c,
-- tai_unpack.c: machine integers as bytes, in both orders.
-- A `char` array is the list of its bytes. Each `result <<= 8` and `result += s[i]` is cut to the
-- width of its variable, as the program's type does.
pub mod RoundTrip
pub mod Runs
use geoipdns.Base.{ℕ, ◌+◌, List, [], ◌∷◌, u8, u16, u32, u64, ◌<<<◌, ◌>>>◌, byte_at, bit_and}

unfoldable pub uint16_pack : ℕ → List ℕ
uint16_pack u = u8 (bit_and u 255) ∷ u8 (u >>> 8) ∷ []

unfoldable pub uint16_pack_big : ℕ → List ℕ
uint16_pack_big u = u8 (u >>> 8) ∷ u8 (bit_and u 255) ∷ []

-- `result <<= 8; result += byte;` for a `uint16`.
abbrev push16 : ℕ → ℕ → ℕ
push16 result byte = u16 (u16 (result <<< 8) + byte)

unfoldable pub uint16_unpack : List ℕ → ℕ
uint16_unpack s = push16 (byte_at s 1) (byte_at s 0)

unfoldable pub uint16_unpack_big : List ℕ → ℕ
uint16_unpack_big s = push16 (byte_at s 0) (byte_at s 1)

unfoldable pub uint32_pack : ℕ → List ℕ
uint32_pack u =
    let u1 = u >>> 8 in
    let u2 = u1 >>> 8 in
    u8 (bit_and u 255) ∷ u8 (bit_and u1 255) ∷ u8 (bit_and u2 255) ∷ u8 (u2 >>> 8) ∷ []

unfoldable pub uint32_pack_big : ℕ → List ℕ
uint32_pack_big u =
    let u1 = u >>> 8 in
    let u2 = u1 >>> 8 in
    u8 (u2 >>> 8) ∷ u8 (bit_and u2 255) ∷ u8 (bit_and u1 255) ∷ u8 (bit_and u 255) ∷ []

abbrev push32 : ℕ → ℕ → ℕ
push32 result byte = u32 (u32 (result <<< 8) + byte)

unfoldable pub uint32_unpack : List ℕ → ℕ
uint32_unpack s = push32 (push32 (push32 (byte_at s 3) (byte_at s 2)) (byte_at s 1)) (byte_at s 0)

unfoldable pub uint32_unpack_big : List ℕ → ℕ
uint32_unpack_big s =
    push32 (push32 (push32 (byte_at s 0) (byte_at s 1)) (byte_at s 2)) (byte_at s 3)

abbrev push64 : ℕ → ℕ → ℕ
push64 result byte = u64 (u64 (result <<< 8) + byte)

-- The `x` field of the `struct tai`.
unfoldable pub tai_unpack : List ℕ → ℕ
tai_unpack s =
    let high = push64 (push64 (push64 (byte_at s 0) (byte_at s 1)) (byte_at s 2)) (byte_at s 3) in
    push64 (push64 (push64 (push64 high (byte_at s 4)) (byte_at s 5)) (byte_at s 6)) (byte_at s 7)

unfoldable pub tai_pack : ℕ → List ℕ
tai_pack x =
    let x1 = x >>> 8 in
    let x2 = x1 >>> 8 in
    let x3 = x2 >>> 8 in
    let x4 = x3 >>> 8 in
    let x5 = x4 >>> 8 in
    let x6 = x5 >>> 8 in
    let x7 = x6 >>> 8 in
    u8 x7
    ∷ u8 (bit_and x6 255)
    ∷ u8 (bit_and x5 255)
    ∷ u8 (bit_and x4 255)
    ∷ u8 (bit_and x3 255)
    ∷ u8 (bit_and x2 255)
    ∷ u8 (bit_and x1 255)
    ∷ u8 (bit_and x 255)
    ∷ []
