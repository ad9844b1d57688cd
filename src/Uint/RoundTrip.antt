-- ===== src/Uint/RoundTrip.antt =====
-- Packing and unpacking are inverse, in both orders and at every width.
use geoipdns.Base.{
  ℕ, ◌<◌, ◌^◌, ◌%◌, ◌/◌, ◌≡◌, [], ◌∷◌, IsByte, IsU32, arith, refl, sym, ap, ◌∙◌, length, bit_and,
  List,
}
use geoipdns.Base.Bits.{bit_and-low_mask}
use geoipdns.Uint.{
  uint16_pack, uint16_pack_big, uint16_unpack, uint16_unpack_big, uint32_pack, uint32_pack_big,
  uint32_unpack, uint32_unpack_big, tai_pack, tai_unpack,
}

low_byte : (a : ℕ) → bit_and a 255 ≡ a % 256
low_byte a = bit_and-low_mask 8 a

-- A `uint16` comes back from the two bytes that it is packed into, in each byte order.
pub uint16_unpack-pack :
    (u : ℕ)
    → u < 2 ^ 16
    → (uint16_unpack (uint16_pack u) ≡ u) × (uint16_unpack_big (uint16_pack_big u) ≡ u)
unfolding uint16_pack uint16_pack_big uint16_unpack uint16_unpack_big
uint16_unpack-pack u h = rw (low_byte u) (omega arith)

-- A `uint32` comes back from the four bytes that it is packed into, in each byte order.
pub uint32_unpack-pack :
    (u : ℕ)
    → IsU32 u
    → (uint32_unpack (uint32_pack u) ≡ u) × (uint32_unpack_big (uint32_pack_big u) ≡ u)
unfolding uint32_pack uint32_pack_big uint32_unpack uint32_unpack_big
uint32_unpack-pack u h = rw (low_byte u, low_byte (u / 256), low_byte (u / 256 / 256)) (omega arith)

-- Four bytes come back from the `uint32` that they stand for, lowest byte first.
pub uint32_pack-unpack :
    (a b c d : ℕ)
    → IsByte a
    → IsByte b
    → IsByte c
    → IsByte d
    → uint32_pack (uint32_unpack (a ∷ b ∷ c ∷ d ∷ [])) ≡ a ∷ b ∷ c ∷ d ∷ []
unfolding uint32_pack uint32_unpack
uint32_pack-unpack a b c d ha hb hc hd =
    let u : ℕ = uint32_unpack (a ∷ b ∷ c ∷ d ∷ []) in
    ground (arith, low_byte u, low_byte (u / 256), low_byte (u / 256 / 256))

-- The packed form determines the number.
pub uint32_pack-injective : (u v : ℕ) → IsU32 u → IsU32 v → uint32_pack u ≡ uint32_pack v → u ≡ v
uint32_pack-injective u v hu hv e =
    sym (uint32_unpack-pack u hu).0 ∙ ap uint32_unpack e ∙ (uint32_unpack-pack v hv).0

pub uint32_unpack-IsU32 : (s : List ℕ) → IsU32 (uint32_unpack s)
unfolding uint32_unpack
uint32_unpack-IsU32 s = omega arith

pub length-uint16_pack_big : (u : ℕ) → length (uint16_pack_big u) ≡ 2
unfolding uint16_pack_big
length-uint16_pack_big u = refl

pub length-uint32_pack : (u : ℕ) → length (uint32_pack u) ≡ 4
unfolding uint32_pack
length-uint32_pack u = refl

pub length-uint32_pack_big : (u : ℕ) → length (uint32_pack_big u) ≡ 4
unfolding uint32_pack_big
length-uint32_pack_big u = refl

-- A TAI64 label comes back from its eight bytes.
pub tai_unpack-pack : (x : ℕ) → x < 2 ^ 64 → tai_unpack (tai_pack x) ≡ x
unfolding tai_pack tai_unpack
tai_unpack-pack x h =
    rw
      (
        low_byte x,
        low_byte (x / 256),
        low_byte (x / 256 / 256),
        low_byte (x / 256 / 256 / 256),
        low_byte (x / 256 / 256 / 256 / 256),
        low_byte (x / 256 / 256 / 256 / 256 / 256),
        low_byte (x / 256 / 256 / 256 / 256 / 256 / 256),
      )
      (omega arith)
