-- ===== src/Cdb/Compare.antt =====
-- How src/cdb.c reads a record of src/cdb_make.c and compares its key.
use geoipdns.Base.{
  ℕ, ◌+◌, true, false, none, some, List, [], ◌++◌, length, ◌==◌, if◌then◌else◌, take, drop, u32,
  IsU32, ◌≡◌, refl, sym, ap, ◌∙◌, inl, inr, Bool-cases, ==_iff, arith, append-nil,
}
use geoipdns.Uint.{uint32_pack, uint32_unpack}
use geoipdns.Uint.RoundTrip.{uint32_unpack-pack}
use geoipdns.Cdb.{Cdb, absent, present, byte_equal, cdb_read, match, match_loop, check_record}
use geoipdns.Cdb.Match.{IsMapped, byte_equal_sound, match_loop_inside}
use geoipdns.Cdb.Holds.{
  Holds, Holds_inside, Holds_bytes, Holds_part, Holds_at, Holds-cdb_read, Holds_middle,
}
use geoipdns.Cdb.Make.Added.{packed, length-packed}
use geoipdns.Cdb.Make.Finished.{length-pack_slot}

byte_equal-length : (xs ys : List ℕ) → (length xs == length ys) ≡ false → byte_equal xs ys ≡ false
byte_equal-length xs ys differ = elim (Bool-cases (byte_equal xs ys)) [
  | inl hit ↦
      let same : (length xs == length ys) ≡ true =
        (==_iff _ _).1 (ap (λ (bs : List ℕ). length bs) (byte_equal_sound xs ys hit)) in
      absurd (cc (same, differ))
  | inr miss ↦ miss
]

-- Two numbers in eight bytes are read back.
pub unpack_two :
    (a b : ℕ)
    → IsU32 a
    → IsU32 b
    → (uint32_unpack (uint32_pack a ++ uint32_pack b) ≡ a)
      × (uint32_unpack (drop 4 (uint32_pack a ++ uint32_pack b)) ≡ b)
unfolding uint32_pack uint32_unpack
unpack_two a b ha hb = ((uint32_unpack-pack a ha).0, (uint32_unpack-pack b hb).0)

pub read_two :
    (c : Cdb) {file : List ℕ} (pos a b : ℕ)
    → IsMapped c file
    → Holds file pos (uint32_pack a ++ uint32_pack b)
    → cdb_read c 8 pos ≡ some (uint32_pack a ++ uint32_pack b)
read_two c pos a b mapped h =
    ap (λ (k : ℕ). cdb_read c k pos) (sym (length-pack_slot a b)) ∙ Holds-cdb_read h c mapped

module _ {file : List ℕ} (key' content : List ℕ) {p : ℕ}
    (stored : Holds file p (packed key' content)) where
  lengths_at : Holds file p (uint32_pack (length key') ++ uint32_pack (length content))
  lengths_at = Holds_at (omega arith) (
      Holds_part stored (
        Holds_middle [] (uint32_pack (length key') ++ uint32_pack (length content))
          (key' ++ content)))

  key_at : Holds file (p + 8) key'
  key_at = Holds_part stored (
      Holds_at (length-pack_slot (length key') (length content))
        (Holds_middle (uint32_pack (length key') ++ uint32_pack (length content)) key' content))

  pub data_at : Holds file (p + 8 + length key') content
  data_at = Holds_at (omega arith) (
      Holds_part key_and_data (record {
        front = key';
        rest = [];
        whole = ap (λ bs. key' ++ bs) (sym (append-nil content));
        at = refl;
      }))
    where
      key_and_data : Holds file (p + 8) (key' ++ content)
      key_and_data = Holds_part stored (
          Holds_at (length-pack_slot (length key') (length content)) (record {
            front = uint32_pack (length key') ++ uint32_pack (length content);
            rest = [];
            whole =
                ap (λ bs. (uint32_pack (length key') ++ uint32_pack (length content)) ++ bs)
                  (sym (append-nil (key' ++ content)));
            at = refl;
          }))

  -- The check of a record compares its key.
  pub check_record_lem :
      (c : Cdb) (key : List ℕ)
      → IsMapped c file
      → check_record c key p ≡ (
          if byte_equal key' key
          then (record c { dlen = length content; dpos = p + 8 + length key' }, some present)
          else (c, none))
  unfolding check_record match
  check_record_lem c key mapped =
      let inside = Holds_inside stored in
      let whole = length-packed key' content in
      let read = read_two c p (length key') (length content) mapped lengths_at in
      let two =
        unpack_two (length key') (length content) (omega (arith, mapped.whole, mapped.fits))
          (omega (arith, mapped.whole, mapped.fits)) in
      let wrap : u32 (p + 8) ≡ p + 8 = omega (arith, mapped.whole, mapped.fits) in
      elim (Bool-cases (length key' == length key)) [
        | inl same ↦
            let equal : length key' ≡ length key = (==_iff (length key') (length key)).0 same in
            let matched : match_loop (length key) c key (p + 8)
                ≡ (if byte_equal key' key then present else absent) =
              match_loop_inside c mapped (length key) key (p + 8) (omega arith) (omega arith)
              ∙ ap (λ (bs : List ℕ). if byte_equal bs key then present else absent)
                  (ap (λ (k : ℕ). take k (drop (p + 8) file)) (sym equal) ∙ Holds_bytes key_at) in
            let wrap' : u32 (p + 8 + length key) ≡ p + 8 + length key' =
              omega (arith, mapped.whole, mapped.fits) in
            rw (read, two.0, same, wrap, matched, check_record)
              (elim (Bool-cases (byte_equal key' key)) [
                | inl hit ↦ rw (hit, two.1, wrap, wrap') refl
                | inr miss ↦ rw miss refl
              ])
        | inr differ ↦
            let unequal : byte_equal key' key ≡ false = byte_equal-length key' key differ in
            rw (read, two.0, differ, unequal, check_record) refl
      ]
