-- ===== src/Cdb/Stored.antt =====
-- The records under a key, and where they stand in a file of src/cdb_make.c.
use geoipdns.Base.{
  ℕ, zero, suc, ◌+◌, ◌≤◌, ◌%◌, true, List, [], ◌∷◌, ◌++◌, length, ◌==◌, if◌then◌else◌, ◌≡◌, refl,
  sym, ap, inl, inr, Bool-cases, ==_iff, arith, append-nil,
}
use geoipdns.Cdb.{byte_equal}
use geoipdns.Cdb.Hash.{cdb_hash}
use geoipdns.Cdb.Match.{byte_equal_sound}
use geoipdns.Cdb.Holds.{Holds, Holds_part, Holds_at, Holds_middle}
use geoipdns.Cdb.Make.{CdbHp}
use geoipdns.Cdb.Make.Probe.{next, reads}
use geoipdns.Cdb.Make.Filled.{under}
use geoipdns.Cdb.Make.Added.{packed, image, places, in_table}
use geoipdns.Cdb.Walk.{datas_of, AreStored}

-- The records whose keys have the hash.
unfoldable pub of_hash : ℕ → List (List ℕ × List ℕ) → List (List ℕ × List ℕ)
of_hash h [] = []
of_hash h ((key, content) ∷ records) =
    let rest = of_hash h records in if cdb_hash key == h then (key, content) ∷ rest else rest

pub datas_of_hash :
    (key : List ℕ) (records : List (List ℕ × List ℕ))
    → datas_of key (of_hash (cdb_hash key) records) ≡ datas_of key records
unfolding datas_of of_hash
datas_of_hash key [] = refl
datas_of_hash key ((key', content) ∷ records) =
    let rest = datas_of_hash key records in
    elim (Bool-cases (byte_equal key' key)) [
      | inl hit ↦
          let same : (cdb_hash key' == cdb_hash key) ≡ true =
            (==_iff _ _).1 (ap cdb_hash (byte_equal_sound key' key hit)) in
          rw (same, hit, rest) refl
      | inr miss ↦ elim (Bool-cases (cdb_hash key' == cdb_hash key)) [
        | inl same ↦ rw (same, miss, rest) refl
        | inr other ↦ rw (other, miss, rest) refl
      ]
    ]

-- The entries of a table under a hash are those of the records with the hash.
pub places-AreStored :
    (file : List ℕ) (h pos : ℕ) (records : List (List ℕ × List ℕ))
    → Holds file pos (image records)
    → AreStored file (under h (in_table (h % 256) (places pos records))) (of_hash h records)
unfolding under in_table places of_hash image
places-AreStored file h pos [] stored = tt
places-AreStored file h pos ((key, content) ∷ records) stored =
    let first : Holds file pos (packed key content) =
      Holds_at (omega arith)
        (Holds_part stored (Holds_middle [] (packed key content) (image records))) in
    let behind : Holds file (pos + length (packed key content)) (image records) =
      Holds_part stored (record {
        front = packed key content;
        rest = [];
        whole = ap (λ (bs : List ℕ). packed key content ++ bs) (sym (append-nil (image records)));
        at = refl;
      }) in
    let rest = places-AreStored file h (pos + length (packed key content)) records behind in
    elim (Bool-cases (cdb_hash key == h)) [
      | inl same ↦
          let fall : (cdb_hash key % 256 == h % 256) ≡ true =
            (==_iff _ _).1 (ap (λ (k : ℕ). k % 256) ((==_iff _ _).0 same)) in
          rw (fall, same) (first, rest)
      | inr other ↦ elim (Bool-cases (cdb_hash key % 256 == h % 256)) [
        | inl fall ↦ rw (fall, other) rest
        | inr apart ↦ rw (apart, other) rest
      ]
    ]

pub length-datas_of :
    (key : List ℕ) (records : List (List ℕ × List ℕ))
    → length (datas_of key records) ≤ length records
unfolding datas_of
length-datas_of key [] = omega arith
length-datas_of key ((key', content) ∷ records) = elim (Bool-cases (byte_equal key' key)) [
  | inl hit ↦ rw hit (omega (arith, length-datas_of key records))
  | inr miss ↦ rw miss (omega (arith, length-datas_of key records))
]

pub length-reads :
    (n size : ℕ) (table : List CdbHp) (h at : ℕ) → length (reads n size table h at) ≤ n
unfolding reads
length-reads zero size table h at = omega arith
length-reads (suc n) size table h at = ground (arith, length-reads n size table h (next size at))

pub length-AreStored :
    (file ps : List ℕ) (records : List (List ℕ × List ℕ))
    → AreStored file ps records
    → length records ≡ length ps
length-AreStored file [] [] h = refl
length-AreStored file [] (r ∷ records) h = absurd h
length-AreStored file (p ∷ ps) [] h = absurd h
length-AreStored file (p ∷ ps) ((key, content) ∷ records) h =
    ap suc (length-AreStored file ps records h.1)
