-- ===== src/Cdb/Hash.antt =====
-- `cdb_hash` of src/cdb_hash.c under `USE_SFHASH`. Each `+=` and `<<` is cut to 32 bits.
use geoipdns.Base.{ℕ, ◌+◌, List, [], ◌∷◌, ltb, if◌then◌else◌, arith}
use geoipdns.Base.{u32, IsU32, ◌<<<◌, ◌>>>◌, bit_xor}

-- A `char` read as a signed number and cast to `uint32`.
abbrev sign_extend : ℕ → ℕ
sign_extend b = if ltb b 128 then b else b + 4294967040

-- `GET16B(d)` on a machine that is not i386.
abbrev get16 : ℕ → ℕ → ℕ
get16 d0 d1 = d1 <<< 8 + d0

-- `h += h >> k`, `h ^= h << k`.
abbrev add_shift : ℕ → ℕ → ℕ
add_shift h k = u32 (h + h >>> k)

abbrev xor_shift : ℕ → ℕ → ℕ
xor_shift h k = bit_xor h (u32 (h <<< k))

unfoldable pub hash_round : ℕ → ℕ → ℕ → ℕ → ℕ → ℕ
hash_round a b c d hkey =
    let h1 = u32 (hkey + get16 a b) in
    let tmp = bit_xor (u32 (get16 c d <<< 11)) h1 in add_shift (bit_xor (u32 (h1 <<< 16)) tmp) 11

-- The loop over the blocks of four bytes, and then the `switch` on the bytes that are left.
unfoldable pub hash_bytes : List ℕ → ℕ → ℕ
hash_bytes (a ∷ b ∷ c ∷ d ∷ rest) hkey = hash_bytes rest (hash_round a b c d hkey)
hash_bytes (a ∷ b ∷ c ∷ []) hkey =
    let h1 = u32 (hkey + get16 a b) in
    add_shift (bit_xor (xor_shift h1 16) (u32 (sign_extend c <<< 18))) 11
hash_bytes (a ∷ b ∷ []) hkey = add_shift (xor_shift (u32 (hkey + get16 a b)) 11) 17
hash_bytes (a ∷ []) hkey = add_shift (xor_shift (u32 (hkey + sign_extend a)) 10) 1
hash_bytes [] hkey = hkey

unfoldable pub hash_finish : ℕ → ℕ
hash_finish h =
    add_shift (xor_shift (add_shift (xor_shift (add_shift (xor_shift h 3) 5) 4) 17) 25) 6

unfoldable pub cdb_hash : List ℕ → ℕ
unfolding hash_bytes hash_round hash_finish
cdb_hash [] = 0
cdb_hash (k ∷ key) = hash_finish (hash_bytes (k ∷ key) 5381)

-- A hash is a `uint32`.
pub cdb_hash-IsU32 : (key : List ℕ) → IsU32 (cdb_hash key)
unfolding cdb_hash
cdb_hash-IsU32 [] = omega arith
cdb_hash-IsU32 (k ∷ key) = omega arith
