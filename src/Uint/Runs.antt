-- ===== src/Uint/Runs.antt =====
-- Concrete numbers and their bytes.
use geoipdns.Base.{[], ◌∷◌, ◌≡◌, refl, arith}
use geoipdns.Uint.{
  uint16_pack, uint16_pack_big, uint16_unpack, uint16_unpack_big, uint32_pack, uint32_pack_big,
  uint32_unpack, uint32_unpack_big, tai_pack, tai_unpack,
}
use geoipdns.Uint.RoundTrip.{
  uint16_unpack-pack, uint32_unpack-pack, uint32_pack-unpack, tai_unpack-pack,
}

packed_both_ways : (uint16_pack 258 ≡ 2 ∷ 1 ∷ []) × (uint16_pack_big 258 ≡ 1 ∷ 2 ∷ [])
unfolding uint16_pack uint16_pack_big
packed_both_ways = (refl, refl)

uint16_unpack-pack_example :
    (uint16_unpack (uint16_pack 258) ≡ 258) × (uint16_unpack_big (uint16_pack_big 258) ≡ 258)
uint16_unpack-pack_example = uint16_unpack-pack 258 (omega arith)

uint32_unpack-pack_example :
    (uint32_unpack (uint32_pack 16909060) ≡ 16909060)
    × (uint32_unpack_big (uint32_pack_big 16909060) ≡ 16909060)
uint32_unpack-pack_example = uint32_unpack-pack 16909060 (omega arith)

uint32_pack-unpack_example :
    uint32_pack (uint32_unpack (1 ∷ 2 ∷ 3 ∷ 255 ∷ [])) ≡ 1 ∷ 2 ∷ 3 ∷ 255 ∷ []
uint32_pack-unpack_example =
    uint32_pack-unpack 1 2 3 255 (omega arith) (omega arith) (omega arith) (omega arith)

tai_unpack-pack_example : tai_unpack (tai_pack 4611686018427387914) ≡ 4611686018427387914
tai_unpack-pack_example = tai_unpack-pack 4611686018427387914 (omega arith)
